-- ===== src/Nodes/Forest/Deletion.antt =====
-- `NodeService.Delete` keeps every virtual node under a real one.
use vgate_manager.Prelude.{
  ◌≡◌, String, true, false, Option, none, some, List, ◌==◌, arith, eq_iff, Option-cases, inl, inr,
}
use vgate_manager.Prelude.Float.{Float64}
use vgate_manager.Db.Table.{delete}
use vgate_manager.Db.Rows.{All-delete, any-delete_keep}
use vgate_manager.Model.Node.{Node}
use vgate_manager.Model.Fleet.{Fleet, is_child_of}
use vgate_manager.Nodes.Changes.{delete_node}
use vgate_manager.Nodes.Forest.{is_real, Rooted, Forested, Rooted-mono}

module _ (f : Float64) where
  real_is_no_child :
      (id p : String) (n : Node f) → is_real f p n ≡ true → is_child_of f id n ≡ false
  real_is_no_child id p n t = elim (Option-cases n.parent_id) [
    | inl m ↦ ground arith
    | inr (q, s) ↦ absurd (ground arith)
  ]

  pub delete_node-Forested :
      (id : String) (fl : Fleet f) → Forested f fl → Forested f (delete_node f id fl).1
  unfolding delete_node
  delete_node-Forested id fl h =
      let first_left = delete (is_child_of f id) fl.nodes in
      let left = delete (λ (n : Node f). n.id == id) first_left in
      All-delete (λ n. Rooted f first_left n.parent_id × (is_child_of f id n ≡ false))
        (λ n. Rooted f left n.parent_id) (λ n. n.id == id) first_left
        (λ n x _. away first_left id n.parent_id x.1 x.0)
        (All-delete (λ n. Rooted f fl.nodes n.parent_id)
          (λ n. Rooted f first_left n.parent_id × (is_child_of f id n ≡ false)) (is_child_of f id)
          fl.nodes
          (λ n x t. (
            Rooted-mono f fl.nodes first_left
                (λ p.
                  any-delete_keep (is_real f p) (is_child_of f id) fl.nodes (real_is_no_child id p))
                n.parent_id x,
            t,
          ))
          h)
    where
      away :
          (l : List (Node f)) (id : String) (o : Option String)
          → (elim o [ none ↦ false | some p ↦ p == id ]) ≡ false
          → Rooted f l o
          → Rooted f (delete (λ (n : Node f). n.id == id) l) o
      away l id none apart r = tt
      away l id (some p) apart r =
          any-delete_keep (is_real f p) (λ (n : Node f). n.id == id) l
            (λ n t. ground (arith, eq_iff n.id p, eq_iff n.id id, eq_iff p id)) r
