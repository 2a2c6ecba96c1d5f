-- ===== src/Nodes/Changes.antt =====
-- The operations of `NodeService` of internal/service/node.go that change the nodes.
use vgate_manager.Prelude.{
  String, Bool, true, false, not, ◌&&◌, ◌||◌, Option, none, some, List, ◌==◌, eqb, if◌then◌else◌,
}
use vgate_manager.Prelude.Int.{pos}
use vgate_manager.Prelude.Float.{Float64}
use vgate_manager.Db.Table.{count, any, insert, delete}
use vgate_manager.Db.Rows.{contains}
use vgate_manager.Db.Table.{find_all}
use vgate_manager.Db.Action.{
  ok, record_not_found, parent_not_found, nested_parent, own_parent, has_children, invalid_node,
  name_taken, sid_taken, pure, gets, require, create, transaction, ◌>>=◌, ◌>>◌, fail_if, modify,
}
use vgate_manager.Model.Node.{Node, UserNode}
use vgate_manager.Model.Fleet.{Fleet, Fl, node_by_id, is_child_of}
use vgate_manager.Nodes.Rules.{Decoders, is_virtual, is_zero, valid_node, normalized}
use vgate_manager.Nodes.Sids.{
  NodeDraw, update_nodes, name_exists, generate_short_id, sid_conflict, with_sid, settle_parent,
}

module _ (f : Float64) where
  -- The row that a `Create` writes: gorm takes a field's `default` where the value is zero, so that
  -- `enabled`, which has the default true, is true in every new row.
  abbrev pub new_row : Node f → Node f
  new_row n = record n {
    network = if n.network == "" then "tcp" else n.network;
    traffic_multiplier =
        if is_zero f n.traffic_multiplier then f.of_int (pos 1) else n.traffic_multiplier;
    enabled = true;
  }

  module _ (c : Decoders) where
    module _ (d : NodeDraw) where
      abbrev pub with_defaults : Node f → Node f
      with_defaults n =
          let id = if n.id == "" then d.node_id else n.id in
          record n {
            id = id;
            token = if n.token == "" then (if is_virtual f n then id else d.token) else n.token;
          }

      -- The parent of a virtual node, which is real.
      abbrev pub real_parent : Node f → Fl f (Option (Node f))
      real_parent p = do fail_if (is_virtual f p) nested_parent; pure (some p)

      abbrev pub load_parent : Option String → Fl f (Option (Node f))
      load_parent none = pure none
      load_parent (some id) =
          require parent_not_found (λ fl. node_by_id f id fl.nodes) >>= real_parent

      -- A node that is served over Reality, itself or by its parent.
      abbrev pub is_reality_entry : Option (Node f) → Node f → Bool
      is_reality_entry none n = n.security == "reality"
      is_reality_entry (some p) n = p.security == "reality"

      abbrev pub fill_sid : Option (Node f) → Node f → Fl f (Node f)
      fill_sid parent n fl = elim (is_reality_entry parent n && n.reality_sid == "") [
        | false ↦ (ok n, fl)
        | true ↦ (generate_short_id f d.sid >>= λ sid. pure (with_sid f sid n)) fl
      ]

      -- The key, the name or the token of a new row is taken.
      abbrev pub node_clash : Node f → Fleet f → Bool
      node_clash n fl =
          any (λ (m : Node f). m.id == n.id || m.name == n.name || m.token == n.token) fl.nodes

      abbrev pub with_node : Node f → Fleet f → Fleet f
      with_node n fl = record fl { nodes = insert (new_row n) fl.nodes }

      abbrev pub insert_node : Option (Node f) → Node f → Fl f Unit
      insert_node parent n = do create (node_clash n) (with_node n); settle_parent f d parent n

      -- A short id that another node uses.
      abbrev pub clashing_sid : Node f → Fleet f → Bool
      clashing_sid n fl = not (n.reality_sid == "") && sid_conflict f n fl

      abbrev pub commit_new : Option (Node f) → Node f → Fl f (Node f)
      commit_new parent n = do transaction (insert_node parent n); pure (new_row n)

      abbrev pub store_named : Option (Node f) → Node f → Fl f (Node f)
      store_named parent n = do
        conflict ← gets (clashing_sid n)
        fail_if conflict sid_taken
        commit_new parent n

      -- What follows the choice of a short id in `Create`.
      abbrev pub store_new : Option (Node f) → Node f → Fl f (Node f)
      store_new parent n = do
        taken ← gets (name_exists f n.name "")
        fail_if taken name_taken
        store_named parent n

      abbrev pub create_under : Node f → Option (Node f) → Fl f (Node f)
      create_under n parent = do
        fail_if (not (valid_node f c (normalized f c n))) invalid_node
        fill_sid parent (normalized f c n) >>= store_new parent

      unfoldable pub create_node : Node f → Fl f (Node f)
      create_node n = load_parent (with_defaults n).parent_id >>= create_under (with_defaults n)

      -- `Save`: the name or the token may be another row's.
      abbrev pub save_clash : Node f → Fleet f → Bool
      save_clash n fl =
          any (λ (m : Node f). not (m.id == n.id) && (m.name == n.name || m.token == n.token))
            fl.nodes

      abbrev pub with_saved : Node f → Fleet f → Fleet f
      with_saved n = update_nodes f (λ m. m.id == n.id) (λ _. n)

      abbrev pub save_node : Option (Node f) → Node f → Fl f Unit
      save_node parent n = do create (save_clash n) (with_saved n); settle_parent f d parent n

      -- The parent that an update gives to a node, which then has no children of its own.
      abbrev pub childless : Node f → Option (Node f) → Fl f (Option (Node f))
      childless n parent = do
        nests ← gets (λ fl. any (is_child_of f n.id) fl.nodes)
        fail_if nests has_children
        pure parent

      abbrev pub load_new_parent : Node f → Option String → Fl f (Option (Node f))
      load_new_parent n none = pure none
      load_new_parent n (some id) = do
        fail_if (id == n.id) own_parent
        load_parent (some id) >>= childless n

      abbrev pub save_named : Node f → Option (Node f) → Fl f Unit
      save_named n parent = do
        conflict ← gets (clashing_sid n)
        fail_if conflict sid_taken
        transaction (save_node parent n)

      abbrev pub store_old : Node f → Option (Node f) → Fl f Unit
      store_old n parent = do
        taken ← gets (name_exists f n.name n.id)
        fail_if taken name_taken
        save_named n parent

      abbrev pub update_under : Node f → Option (Node f) → Fl f Unit
      update_under n parent = do
        fail_if (not (valid_node f c (normalized f c n))) invalid_node
        store_old (normalized f c n) parent

      abbrev pub update_found : Node f → Node f → Fl f Unit
      update_found n old = load_new_parent n n.parent_id >>= update_under n

      unfoldable pub update_node : Node f → Fl f Unit
      update_node n = require record_not_found (λ fl. node_by_id f n.id fl.nodes) >>= update_found n

      unfoldable pub regenerate_token : String → Fl f String
      regenerate_token id = do
        affected ← gets (λ fl. count (λ (n : Node f). n.id == id) fl.nodes)
        modify (update_nodes f (λ n. n.id == id) (λ n. record n { token = d.token }))
        fail_if (eqb affected 0) record_not_found
        pure d.token

  -- The rows that name a deleted node or a child of it are deleted first.
  abbrev pub child_ids : String → Fleet f → List String
  child_ids id fl = mathlib.Core.List.map (λ n. n.id) (find_all (is_child_of f id) fl.nodes)

  unfoldable pub delete_node : String → Fl f Unit
  delete_node id = do
    ids ← gets (child_ids id)
    modify λ fl. record fl {
      user_nodes = delete (λ (r : UserNode). contains r.node_id ids) fl.user_nodes;
      nodes = delete (is_child_of f id) fl.nodes;
    }
    modify λ fl. record fl {
      user_nodes = delete (λ (r : UserNode). r.node_id == id) fl.user_nodes;
      nodes = delete (λ (n : Node f). n.id == id) fl.nodes;
    }

  -- `ResolveParent`
  unfoldable pub resolve_parent : Node f → Fl f (Option (Node f))
  resolve_parent n = elim n.parent_id [
    | none ↦ pure none
    | some id ↦ (require record_not_found (λ fl. node_by_id f id fl.nodes) >>= λ p. pure (some p))
  ]
