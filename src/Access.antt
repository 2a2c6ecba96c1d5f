-- ===== src/Access.antt =====
-- Which users may use which nodes: `FetchUsers` and `eligibleUserIDs` of
-- internal/service/server_api.go, and `ListNodesForUser`, `SetUserNodes` and `uniqueStrings` of
-- internal/service/user.go.
pub mod Served
pub mod Assigned
pub mod Unique
use mathlib.Core.List.{map}
use vgate_manager.Prelude.{
  String, Bool, true, false, not, ◌&&◌, ◌||◌, Option, none, some, List, [], ◌∷◌, ◌++◌, ◌==◌, ltb_ℤ,
  leb_ℤ, eqb_ℤ, eqb, if◌then◌else◌, ℕ, suc,
}
use vgate_manager.Prelude.Int.{ℤ, pos, negsuc, ◌+ℤ◌}
use vgate_manager.Prelude.Float.{Float64}
use vgate_manager.Db.Table.{first, find_all, any, insert, delete}
use vgate_manager.Db.Rows.{contains}
use vgate_manager.Db.Action.{
  Result, ok, err, Action, record_not_found, bad_parameter, pure, gets, require, create,
  transaction, ◌>>=◌, ◌>>◌, fail_if, modify,
}
use vgate_manager.Model.Time.{Time, after}
use vgate_manager.Model.User.{User}
use vgate_manager.Model.Node.{Node, UserNode}
use vgate_manager.Model.Fleet.{Fleet, Fl, is_child_of}
use vgate_manager.Model.Database.{user_by_id}

-- `wire.User`
pub record WireUser : Type 0 where
  pub id : String
  pub email : String
  pub level : ℤ
  pub expire_at : Time
  pub speed_limit_up_bps : ℤ
  pub speed_limit_down_bps : ℤ

-- `time.Time{}`, the first instant of the year 1
abbrev zero_time : Time
zero_time = negsuc 62135596799999999999

pub to_wire : User → WireUser
to_wire u = record {
  id = u.credential;
  email = u.email;
  level = u.level;
  expire_at = elim u.expire_at [ none ↦ zero_time | some t ↦ t ];
  speed_limit_up_bps = u.speed_limit_up_bps;
  speed_limit_down_bps = u.speed_limit_down_bps;
}

-- `EXISTS (SELECT 1 FROM user_nodes ...)` with an override
unfoldable pub overrides : String → String → List UserNode → Bool
overrides user_id node_id =
    any (λ (r : UserNode). r.user_id == user_id && r.node_id == node_id && r.override)

-- The conditions of `FetchUsers` on a user row.
unfoldable pub is_active : Time → User → Bool
is_active now u =
    u.enabled
    && u.email_verified
    && (elim u.expire_at [ none ↦ true | some t ↦ after t now ])
    && (eqb_ℤ u.quota_bytes (negsuc 0)
        || ltb_ℤ (u.up_total +ℤ u.down_total) (u.quota_bytes +ℤ u.traffic_quota_bytes))

unfoldable pub unique_from : List String → List String → List String
unique_from seen [] = []
unique_from seen (s ∷ l) = elim (contains s seen) [
  | true ↦ unique_from seen l
  | false ↦ s ∷ unique_from (s ∷ seen) l
]

-- `uniqueStrings`
unfoldable pub unique_strings : List String → List String
unique_strings = unique_from []

abbrev length : List String → ℕ
length [] = 0
length (s ∷ l) = suc (length l)

-- What follows the merge of the ids in `FetchUsers`.
unfoldable pub fetch_ids : Time → List User → List String → List WireUser
fetch_ids now users [] = []
fetch_ids now users (id ∷ ids) =
    map to_wire (find_all (λ u. contains u.id (id ∷ ids) && is_active now u) users)

module _ (f : Float64) where
  -- The level tier, or an explicit grant.
  abbrev pub may_use : List UserNode → String → ℤ → Node f → Bool
  may_use rows user_id level n = leb_ℤ n.level level || overrides user_id n.id rows

  -- `eligibleUserIDs`
  unfoldable pub eligible_user_ids : Fleet f → Node f → List String
  eligible_user_ids fl n =
      map (λ u. u.id)
        (find_all (λ u. u.enabled && u.email_verified && may_use fl.user_nodes u.id u.level n)
          fl.users)

  abbrev pub is_sibling : String → Node f → Bool
  is_sibling node_id n = n.id == node_id || is_child_of f node_id n

  -- The ids of the users that any of the nodes may serve.
  unfoldable pub union_ids : Fleet f → List (Node f) → List String
  union_ids fl [] = []
  union_ids fl (n ∷ l) = eligible_user_ids fl n ++ union_ids fl l

  unfoldable pub fetch_users : Fleet f → Time → String → List WireUser
  fetch_users fl now node_id =
      fetch_ids now fl.users (union_ids fl (find_all (is_sibling node_id) fl.nodes))

  unfoldable pub list_nodes_for_user : String → Fl f (List (Node f))
  list_nodes_for_user user_id = do
    user ← require record_not_found (λ fl. user_by_id user_id fl.users)
    gets λ fl. find_all (λ n. n.enabled && may_use fl.user_nodes user_id user.level n) fl.nodes

  -- The level of a node among those that were loaded; a key that a map lacks has the value 0 there.
  unfoldable pub node_level : List (Node f) → String → ℤ
  node_level nodes id = elim (first (λ (n : Node f). n.id == id) nodes) [
    | none ↦ pos 0
    | some n ↦ n.level
  ]

  -- A row of a user and a node is there already.
  abbrev pub is_assigned : UserNode → Fleet f → Bool
  is_assigned r fl =
      any (λ (q : UserNode). q.user_id == r.user_id && q.node_id == r.node_id) fl.user_nodes

  abbrev pub with_user_node : UserNode → Fleet f → Fleet f
  with_user_node r fl = record fl { user_nodes = insert r fl.user_nodes }

  abbrev pub create_user_node : UserNode → Fl f Unit
  create_user_node r = create (is_assigned r) (with_user_node r)

  -- The loop of `SetUserNodes`.
  unfoldable pub assign : List (Node f) → String → ℤ → List String → Fl f Unit
  assign nodes user_id level [] = pure tt
  assign nodes user_id level (id ∷ ids) = do
    create_user_node
        (record { user_id = user_id; node_id = id; override = ltb_ℤ level (node_level nodes id) })
    assign nodes user_id level ids

  -- The transaction of `SetUserNodes`.
  abbrev pub replace_assignments : List (Node f) → String → ℤ → List String → Fl f Unit
  replace_assignments nodes user_id level ids = do
    modify λ fl. record fl {
      user_nodes = delete (λ (r : UserNode). r.user_id == user_id) fl.user_nodes;
    }
    assign nodes user_id level ids

  unfoldable pub node_count : List (Node f) → ℕ
  node_count [] = 0
  node_count (n ∷ l) = suc (node_count l)

  abbrev pub named_nodes : List String → Fleet f → List (Node f)
  named_nodes ids fl = find_all (λ n. contains n.id ids) fl.nodes

  -- An unknown node id is `bad_parameter` here.
  unfoldable pub set_user_nodes : String → List String → Fl f Unit
  set_user_nodes user_id ids = do
    nodes ← gets (named_nodes ids)
    fail_if (not (eqb (node_count nodes) (length (unique_strings ids)))) bad_parameter
    user ← require record_not_found (λ fl. user_by_id user_id fl.users)
    transaction (replace_assignments nodes user_id user.level ids)
