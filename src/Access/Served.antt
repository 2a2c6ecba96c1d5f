-- ===== src/Access/Served.antt =====
-- The users that a node is given are those that are active and that it, or a virtual child, serves.
use mathlib.Core.List.{map}
use vgate_manager.Prelude.{
  ◌≡◌, refl, sym, ap, ◌∙◌, String, Bool, true, false, ◌&&◌, ◌||◌, some, List, [], ◌∷◌, ◌++◌, ◌==◌,
  arith, eq_iff, eq_refl, Bool-cases, inl, inr,
}
use vgate_manager.Prelude.Float.{Float64}
use vgate_manager.Db.Table.{first-holds, find_all, any}
use vgate_manager.Db.Action.{ok}
use vgate_manager.Model.Database.{user_by_id}
use vgate_manager.Db.Rows.{
  DistinctBy, All-zip, find_all-congr, any-keyed, any-or, any-congr, any-find_all, any_mono,
  any-first, contains,
}
use vgate_manager.Model.Time.{Time}
use vgate_manager.Model.User.{User}
use vgate_manager.Model.Node.{Node}
use vgate_manager.Model.Fleet.{Fleet}
use vgate_manager.Access.{
  WireUser, to_wire, is_active, may_use, eligible_user_ids, is_sibling, union_ids, fetch_users,
  fetch_ids, list_nodes_for_user,
}

contains-append :
    (a : String) (xs ys : List String) → contains a (xs ++ ys) ≡ (contains a xs || contains a ys)
unfolding contains any
contains-append a [] ys = refl
contains-append a (x ∷ xs) ys = ground (arith, contains-append a xs ys)

contains-ids :
    (a : String) (p : User → Bool) (l : List User)
    → contains a (map (λ u. u.id) (find_all p l)) ≡ any (λ u. p u && (u.id == a)) l
unfolding contains any find_all
contains-ids a p [] = refl
contains-ids a p (u ∷ l) = elim (Bool-cases (p u)) [
  | inl t ↦ rw (t, contains-ids a p l) refl
  | inr n ↦ rw (n, contains-ids a p l) refl
]

and_or : (x y z : Bool) → ((x && z) || (y && z)) ≡ ((x || y) && z)
and_or x y z = ground arith

any-false : (p : User → Bool) (l : List User) → any (λ u. false && p u) l ≡ false
unfolding any
any-false p [] = refl
any-false p (u ∷ l) = any-false p l

-- Where nothing is in the set, no row is selected.
none_in : (now : Time) (l : List User) → [] ≡ find_all (λ u. contains u.id [] && is_active now u) l
unfolding find_all contains any
none_in now [] = refl
none_in now (u ∷ l) = none_in now l

fetch_ids_lem :
    (now : Time) (users : List User) (ids : List String)
    → fetch_ids now users ids
      ≡ map to_wire (find_all (λ u. contains u.id ids && is_active now u) users)
unfolding fetch_ids
fetch_ids_lem now users [] = ap (map to_wire) (none_in now users)
fetch_ids_lem now users (id ∷ ids) = refl

module _ (f : Float64) (fl : Fleet f) where
  abbrev eligible : Node f → User → Bool
  eligible n u = u.enabled && u.email_verified && may_use f fl.user_nodes u.id u.level n

  -- One of the nodes may serve the user.
  abbrev eligible_by : List (Node f) → User → Bool
  eligible_by l u = any (λ n. eligible n u) l

  -- The set of ids that is merged, on one id.
  contains-union_ids :
      (a : String) (l : List (Node f))
      → contains a (union_ids f fl l) ≡ any (λ u. eligible_by l u && (u.id == a)) fl.users
  unfolding union_ids eligible_user_ids
  contains-union_ids a [] = unfold contains any in sym (any-false (λ u. u.id == a) fl.users)
  contains-union_ids a (n ∷ l) =
      contains-append a (map (λ u. u.id) (find_all (eligible n) fl.users)) (union_ids f fl l)
      ∙ ap (λ b. b || contains a (union_ids f fl l)) (contains-ids a (eligible n) fl.users)
      ∙ ap (λ b. any (λ u. eligible n u && (u.id == a)) fl.users || b) (contains-union_ids a l)
      ∙ sym
          (any-or (λ u. eligible n u && (u.id == a)) (λ u. eligible_by l u && (u.id == a)) fl.users)
      ∙ any-congr (λ u. (eligible n u && (u.id == a)) || (eligible_by l u && (u.id == a)))
          (λ u. eligible_by (n ∷ l) u && (u.id == a)) fl.users
          (λ u. and_or (eligible n u) (eligible_by l u) (u.id == a) ∙ unfold any in refl)

  -- The users that a node is given are, in the order of the table, those that are active and that the
  -- node itself or one of its virtual children may serve, if no two users have the same id.
  pub fetch_users-served :
      (now : Time) (node_id : String)
      → DistinctBy (λ (u : User). u.id) fl.users
      → fetch_users f fl now node_id
        ≡ map to_wire (
            find_all
              (λ u. eligible_by (find_all (is_sibling f node_id) fl.nodes) u && is_active now u)
              fl.users)
  unfolding fetch_users
  fetch_users-served now node_id d =
      let l = find_all (is_sibling f node_id) fl.nodes in
      let same : find_all (λ u. contains u.id (union_ids f fl l) && is_active now u) fl.users
          ≡ find_all (λ u. eligible_by l u && is_active now u) fl.users =
        find_all-congr _ _ fl.users (
          All-zip fl.users (λ u e _. ap (λ b. b && is_active now u) (contains-union_ids u.id l ∙ e))
            (any-keyed (λ u. u.id) (eligible_by l) fl.users d)
            (any-keyed (λ u. u.id) (eligible_by l) fl.users d)) in
      fetch_ids_lem now fl.users (union_ids f fl l) ∙ ap (map to_wire) same

any-wire :
    (c : String) (p : User → Bool) (l : List User)
    → any (λ (w : WireUser). w.id == c) (map to_wire (find_all p l))
      ≡ any (λ u. p u && (u.credential == c)) l
unfolding any find_all to_wire
any-wire c p [] = refl
any-wire c p (u ∷ l) = elim (Bool-cases (p u)) [
  | inl t ↦ rw (t, any-wire c p l) refl
  | inr n ↦ rw (n, any-wire c p l) refl
]

module _ (f : Float64) where
  -- A node that an active user is shown is given that user's credential when it polls, if no two users
  -- have the same id.
  pub list_nodes_for_user-served :
      (fl : Fleet f) (now : Time) (user_id node_id : String) (u : User) (shown : List (Node f))
      → DistinctBy (λ (w : User). w.id) fl.users
      → user_by_id user_id fl.users ≡ some u
      → is_active now u ≡ true
      → list_nodes_for_user f user_id fl ≡ (ok shown, fl)
      → any (λ (n : Node f). n.id == node_id) shown ≡ true
      → any (λ (w : WireUser). w.id == u.credential) (fetch_users f fl now node_id) ≡ true
  unfolding is_active
  list_nodes_for_user-served fl now user_id node_id u shown d found active listed here =
      let key : u.id ≡ user_id =
        (eq_iff u.id user_id).0 (first-holds (λ (w : User). w.id == user_id) fl.users found) in
      let visible = λ (n : Node f). n.enabled && may_use f fl.user_nodes user_id u.level n in
      let nodes : shown ≡ find_all visible fl.nodes =
        let run : list_nodes_for_user f user_id fl ≡ (ok (find_all visible fl.nodes), fl) =
          unfold list_nodes_for_user in ground arith in
        cc in
      let granted : any (λ n. visible n && (n.id == node_id)) fl.nodes ≡ true =
        sym (any-find_all (λ (n : Node f). n.id == node_id) visible fl.nodes)
        ∙ ap (any (λ (n : Node f). n.id == node_id)) (sym nodes)
        ∙ here in
      let one : any (λ n. eligible f fl n u) (find_all (is_sibling f node_id) fl.nodes) ≡ true =
        any-find_all (λ n. eligible f fl n u) (is_sibling f node_id) fl.nodes
        ∙ any_mono (λ n. visible n && (n.id == node_id))
            (λ n. is_sibling f node_id n && eligible f fl n u) fl.nodes
            (λ n t.
              let t' : (n.enabled && may_use f fl.user_nodes u.id u.level n && (n.id == node_id))
                  ≡ true =
                rw key t in
              ground arith)
            granted in
      ap (any (λ (w : WireUser). w.id == u.credential)) (fetch_users-served f fl now node_id d)
      ∙ any-wire u.credential
          (λ w. eligible_by f fl (find_all (is_sibling f node_id) fl.nodes) w && is_active now w)
          fl.users
      ∙ any-first (λ (w : User). w.id == user_id)
          (λ w.
            (eligible_by f fl (find_all (is_sibling f node_id) fl.nodes) w && is_active now w)
            && (w.credential == u.credential))
          fl.users u found (rw (one, active) (eq_refl u.credential))
