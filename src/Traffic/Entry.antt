-- ===== src/Traffic/Entry.antt =====
-- Where reported traffic is booked: `resolveTrafficNode` of internal/service/server_api.go.
use vgate_manager.Prelude.{
  ◌≡◌, refl, String, Bool, not, ◌&&◌, List, ◌==◌, arith, eq_iff, Bool-cases, Option-cases, inl, inr,
  if◌then◌else◌,
}
use vgate_manager.Prelude.Float.{Float64}
use vgate_manager.Db.Table.{first, first-holds}
use vgate_manager.Model.Node.{Node}
use vgate_manager.Model.Fleet.{is_child_of}
use vgate_manager.Model.Database.{exists}
use vgate_manager.Traffic.{resolve_traffic_node}

module _ (f : Float64) (trim lower : String → String) where
  -- A virtual child of the node has this id.
  abbrev pub is_entry : List (Node f) → String → String → Bool
  is_entry nodes node_id c = exists (λ (n : Node f). n.id == c && is_child_of f node_id n) nodes

  -- The node that reported traffic is booked to is the claimed one exactly if that, without the
  -- spaces around it, names a virtual child of the node that reports, and else the node that reports.
  pub resolve_traffic_node_lem :
      (nodes : List (Node f)) (node_id claimed : String)
      → resolve_traffic_node f trim lower nodes node_id claimed ≡ (
          if not (trim claimed == "") && is_entry nodes node_id (trim claimed)
          then trim claimed
          else node_id)
  unfolding resolve_traffic_node
  resolve_traffic_node_lem nodes node_id claimed =
      let c = trim claimed in
      elim (Bool-cases (c == "")) [
        | inl t ↦ rw t refl
        | inr e ↦
            rw e
              (elim (Option-cases
                (first (λ (n : Node f). n.id == c && is_child_of f node_id n) nodes)) [
                  | inl n ↦ rw n (ground (arith, eq_iff c node_id))
                  | inr (n, s) ↦
                      let q =
                        first-holds (λ (n : Node f). n.id == c && is_child_of f node_id n) nodes
                          s in
                      rw s (ground (arith, eq_iff c node_id, eq_iff n.id c))
                ])
      ]
