-- ===== src/Access/Assigned.antt =====
-- What an admin's assignment of nodes to a user gives the user.
use mathlib.Core.Path.{subst}
use vgate_manager.Prelude.{
  ◌≡◌, ap, ◌∙◌, String, Bool, true, false, ◌&&◌, ◌||◌, some, List, [], ◌∷◌, ◌==◌, arith, eq_iff,
  eq_refl, ltb_ℤ, leb_ℤ, Bool-cases, inl, inr, if◌then◌else◌,
}
use vgate_manager.Prelude.Int.{ℤ}
use vgate_manager.Prelude.Float.{Float64}
use vgate_manager.Db.Table.{any, insert, delete}
use vgate_manager.Db.Rows.{
  any-insert, any-delete, any-congr, any_never, first-find_all, contains, contains-cons,
}
use vgate_manager.Db.Action.{
  Result, ok, record_not_found, bad_parameter, require, transaction, ◌>>=◌, OnSuccess,
  OnSuccess-map, create-cases, fail_if-cases, require-cases, transaction-cases,
}
use vgate_manager.Model.User.{User}
use vgate_manager.Model.Node.{Node, UserNode}
use vgate_manager.Model.Fleet.{Fleet, node_by_id}
use vgate_manager.Model.Database.{user_by_id}
use vgate_manager.Access.{
  overrides, may_use, node_level, assign, is_assigned, with_user_node, replace_assignments,
  named_nodes, set_user_nodes,
}

module _ (f : Float64) where
  -- The overrides of a user once nodes are assigned.
  module _ (nodes : List (Node f)) (user_id : String) (level : ℤ) where
    abbrev row : String → UserNode
    row id = record {
      user_id = user_id;
      node_id = id;
      override = ltb_ℤ level (node_level f nodes id);
    }

    overrides-insert :
        (v node_id id : String) (rows : List UserNode)
        → overrides v node_id (insert (row id) rows) ≡ (
            overrides v node_id rows
            || ((user_id == v) && (id == node_id) && ltb_ℤ level (node_level f nodes id)))
    unfolding overrides
    overrides-insert v node_id id rows = any-insert _ (row id) rows

    abbrev Assigns : List UserNode → List String → Result (Unit {0}) × Fleet f → Type 0
    Assigns rows ids x =
        (v node_id : String)
        → overrides v node_id x.1.user_nodes ≡ (
            overrides v node_id rows
            || ((user_id == v) && contains node_id ids && ltb_ℤ level (node_level f nodes node_id)))

    extend :
        (fl : Fleet f) (id : String) (ids : List String) (v node_id : String) (after : Bool)
        → after ≡ (
            overrides v node_id (insert (row id) fl.user_nodes)
            || ((user_id == v) && contains node_id ids && ltb_ℤ level (node_level f nodes node_id)))
        → after ≡ (
            overrides v node_id fl.user_nodes
            || ((user_id == v)
                && contains node_id (id ∷ ids)
                && ltb_ℤ level (node_level f nodes node_id)))
    extend fl id ids v node_id after h =
        let law = overrides-insert v node_id id fl.user_nodes in
        let more = contains-cons node_id id ids in
        elim (Bool-cases (id == node_id)) [
          | inl t ↦
              let same = ap (node_level f nodes) ((eq_iff id node_id).0 t) in
              ground (arith, law, more, same)
          | inr n ↦ ground (arith, law, more)
        ]

    assign-Assigns :
        (ids : List String) (fl : Fleet f)
        → OnSuccess (Assigns fl.user_nodes ids) (assign f nodes user_id level ids fl)
    unfolding assign
    assign-Assigns [] fl = λ v node_id. unfold contains any in ground arith
    assign-Assigns (id ∷ ids) fl =
        create-cases (OnSuccess (Assigns fl.user_nodes (id ∷ ids))) (is_assigned f (row id))
          (with_user_node f (row id)) (assign f nodes user_id level ids) fl
          (λ _.
            OnSuccess-map (Assigns (insert (row id) fl.user_nodes) ids)
              (Assigns fl.user_nodes (id ∷ ids))
              (assign f nodes user_id level ids
                (record fl { user_nodes = insert (row id) fl.user_nodes }))
              (λ _ t h v node_id.
                extend fl id ids v node_id (overrides v node_id t.user_nodes) (h v node_id))
              (assign-Assigns ids (record fl { user_nodes = insert (row id) fl.user_nodes })))
          (λ _. tt)

  abbrev cleared : String → List UserNode → List UserNode
  cleared user_id = delete (λ (r : UserNode). r.user_id == user_id)

  overrides-cleared :
      (user_id v node_id : String) (rows : List UserNode)
      → overrides v node_id (cleared user_id rows)
        ≡ (if user_id == v then false else overrides v node_id rows)
  unfolding overrides
  overrides-cleared user_id v node_id rows =
      let mine = λ (r : UserNode). r.user_id == v && r.node_id == node_id && r.override in
      any-delete mine (λ r. r.user_id == user_id) rows ∙ (elim (Bool-cases (user_id == v)) [
        | inl t ↦ rw t (
            any_never _ rows
              (λ r. ground (arith, eq_iff r.user_id user_id, eq_iff r.user_id v, eq_iff user_id v)))
        | inr n ↦ rw n (
            any-congr _ mine rows
              (λ r. ground (arith, eq_iff r.user_id user_id, eq_iff r.user_id v, eq_iff user_id v)))
      ])

  node_level-named :
      (ids : List String) (fl : Fleet f) (n : Node f)
      → node_by_id f n.id fl.nodes ≡ some n
      → contains n.id ids ≡ true
      → node_level f (named_nodes f ids fl) n.id ≡ n.level
  unfolding node_level
  node_level-named ids fl n here t =
      let e : node_by_id f n.id (named_nodes f ids fl) ≡ some n =
        first-find_all (λ (m : Node f). contains m.id ids) (λ (m : Node f). m.id == n.id) fl.nodes
          (λ m q. ap (λ i. contains i ids) ((eq_iff m.id n.id).0 q) ∙ t)
        ∙ here in
      ground arith

  module _ (user_id : String) (ids : List String) (fl fl' : Fleet f) (u : User)
      (found : user_by_id user_id fl.users ≡ some u)
      (done : set_user_nodes f user_id ids fl ≡ (ok tt, fl')) where
    abbrev Replaces : Result (Unit {0}) × Fleet f → Type 0
    Replaces = Assigns (named_nodes f ids fl) user_id u.level (cleared user_id fl.user_nodes) ids

    abbrev body : ℤ → Fleet f → Result (Unit {0}) × Fleet f
    body level = replace_assignments f (named_nodes f ids fl) user_id level ids

    body-Replaces : OnSuccess Replaces (body u.level fl)
    body-Replaces =
        assign-Assigns (named_nodes f ids fl) user_id u.level ids
          (record fl { user_nodes = cleared user_id fl.user_nodes })

    replaced : OnSuccess Replaces (set_user_nodes f user_id ids fl)
    unfolding set_user_nodes
    replaced =
        fail_if-cases (OnSuccess Replaces) _ bad_parameter
          (require record_not_found (λ g. user_by_id user_id g.users) >>= λ user.
            transaction (body user.level))
          fl
          (λ _.
            require-cases (OnSuccess Replaces) record_not_found (λ g. user_by_id user_id g.users)
              (λ user. transaction (body user.level)) fl
              (λ w e.
                let same : u ≡ w = cc in
                subst (λ x. OnSuccess Replaces (transaction (body x.level) fl)) same
                  (transaction-cases (OnSuccess Replaces) (body u.level) fl
                    (λ _ _ e. subst (OnSuccess Replaces) e body-Replaces) (λ _ _ _. tt)))
              (λ _. tt))
          (λ _. tt)

    assigned : Replaces (ok tt, fl')
    assigned = subst (OnSuccess Replaces) done replaced

    -- Once an admin's assignment of nodes to a user has succeeded, the user may use exactly the nodes
    -- of the user's level and those of the list, and what other users may use by assignment is as
    -- before.
    pub set_user_nodes-may_use :
        (n : Node f)
        → node_by_id f n.id fl.nodes ≡ some n
        → (may_use f fl'.user_nodes user_id u.level n
            ≡ (leb_ℤ n.level u.level || contains n.id ids))
          × ((v : String)
              → (user_id == v) ≡ false
              → overrides v n.id fl'.user_nodes ≡ overrides v n.id fl.user_nodes)
    set_user_nodes-may_use n here =
        let kept = λ (v : String). overrides-cleared user_id v n.id fl.user_nodes in
        (
          elim (Bool-cases (contains n.id ids)) [
            | inl t ↦ ground (
              arith,
              assigned user_id n.id,
              kept user_id,
              eq_refl user_id,
              node_level-named ids fl n here t,
            )
            | inr m ↦ ground (arith, assigned user_id n.id, kept user_id, eq_refl user_id)
          ],
          λ v apart. ground (arith, assigned v n.id, kept v),
        )
