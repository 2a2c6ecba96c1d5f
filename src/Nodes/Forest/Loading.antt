-- ===== src/Nodes/Forest/Loading.antt =====
-- The parent that a call loads for a node.
use vgate_manager.Prelude.{◌≡◌, refl, String, true, false, Option, none, some, List, ◌==◌, arith}
use vgate_manager.Prelude.Float.{Float64}
use vgate_manager.Db.Table.{first-holds, any}
use vgate_manager.Db.Rows.{any-first}
use vgate_manager.Db.Action.{
  Result, ok, err, parent_not_found, nested_parent, pure, require-cases, fail_if-cases,
}
use vgate_manager.Model.Node.{Node}
use vgate_manager.Model.Fleet.{Fleet, node_by_id}
use vgate_manager.Nodes.Rules.{Decoders, is_virtual}
use vgate_manager.Nodes.Sids.{NodeDraw}
use vgate_manager.Nodes.Changes.{real_parent, load_parent}
use vgate_manager.Nodes.Forest.{is_real, Rooted}

module _ (f : Float64) where
  module _ (c : Decoders) (d : NodeDraw) where
    -- The parent that was loaded roots the node.
    loaded_root :
        (id : String) (p : Node f) (l : List (Node f))
        → node_by_id f id l ≡ some p
        → is_virtual f p ≡ false
        → any (is_real f id) l ≡ true
    loaded_root id p l e real =
        let key = first-holds (λ (n : Node f). n.id == id) l e in
        any-first (λ (n : Node f). n.id == id) (is_real f id) l p e (ground arith)

    -- A parent that was loaded roots what names it, and nothing is written.
    abbrev pub Loaded : Option String → Fleet f → Result (Option (Node f)) × Fleet f → Type 0
    Loaded o fl (ok _, t) = Rooted f fl.nodes o × (t ≡ fl)
    Loaded o fl (err _, t) = t ≡ fl

    pub load_parent-Loaded :
        (o : Option String) (fl : Fleet f) → Loaded o fl (load_parent f c d o fl)
    load_parent-Loaded none fl = (tt, refl)
    load_parent-Loaded (some id) fl =
        require-cases (Loaded (some id) fl) parent_not_found (λ g. node_by_id f id g.nodes)
          (real_parent f c d) fl
          (λ p s.
            fail_if-cases (Loaded (some id) fl) (is_virtual f p) nested_parent (pure (some p)) fl
              (λ real. (loaded_root id p fl.nodes s real, refl)) (λ _. refl))
          (λ _. refl)
