-- ===== src/Nodes/Forest/Creation.antt =====
-- `NodeService.Create` keeps every virtual node under a real one.
use mathlib.Core.Path.{subst}
use vgate_manager.Prelude.{
  ◌≡◌, refl, sym, ap, ◌∙◌, String, not, ◌&&◌, Option, ◌==◌, arith, Bool-cases, inl, inr,
}
use vgate_manager.Prelude.Float.{Float64}
use vgate_manager.Db.Action.{
  Result, ok, err, invalid_node, name_taken, sid_taken, pure, transaction, ◌>>=◌, fail_if-cases,
  create-cases, bind-cases, transaction_keeps,
}
use vgate_manager.Model.Node.{Node}
use vgate_manager.Model.Fleet.{Fleet}
use vgate_manager.Nodes.Rules.{Decoders, valid_node, normalized}
use vgate_manager.Nodes.Sids.{
  NodeDraw, name_exists, generate_from, generate_short_id, with_sid, settle_parent,
}
use vgate_manager.Nodes.Changes.{
  new_row, with_defaults, load_parent, is_reality_entry, fill_sid, node_clash, with_node,
  insert_node, clashing_sid, commit_new, store_named, store_new, create_under, create_node,
}
use vgate_manager.Nodes.Forest.{
  Rooted, Forested, insert-IsForest, generate_from-same, settle_parent-Forested,
}
use vgate_manager.Nodes.Forest.Loading.{Loaded, load_parent-Loaded}

module _ (f : Float64) where
  module _ (c : Decoders) (d : NodeDraw) where
    -- A search for a short id leaves the database and the parent of the node alone.
    abbrev Kept : Node f → Fleet f → Result (Node f) × Fleet f → Type 0
    Kept n fl (ok a, t) = (a.parent_id ≡ n.parent_id) × (t ≡ fl)
    Kept n fl (err _, t) = t ≡ fl

    fill_sid-Kept :
        (parent : Option (Node f)) (n : Node f) (fl : Fleet f)
        → Kept n fl (fill_sid f c d parent n fl)
    unfolding generate_short_id
    fill_sid-Kept parent n fl =
        elim (Bool-cases (is_reality_entry f c d parent n && n.reality_sid == "")) [
          | inr m ↦
              let e : fill_sid f c d parent n fl ≡ (ok n, fl) = ground arith in
              subst (Kept n fl) (sym e) (refl, refl)
          | inl t ↦
              let named = λ (sid : String). pure {S = Fleet f} (with_sid f sid n) in
              let e : fill_sid f c d parent n fl ≡ (generate_from f 8 d.sid >>= named) fl =
                ground arith in
              subst (Kept n fl) (sym e) (
                bind-cases (Kept n fl) (generate_from f 8 d.sid) named fl
                  (λ sid t e. (refl, same e)) (λ _ t e. same e))
        ]
      where
        same : {r : Result String} {t : Fleet f} → generate_from f 8 d.sid fl ≡ (r, t) → t ≡ fl
        same e = sym (ap (λ x. x.1) e) ∙ generate_from-same f 8 d.sid fl

    store_new-Forested :
        (parent : Option (Node f)) (n : Node f) (fl : Fleet f)
        → Rooted f fl.nodes n.parent_id
        → Forested f fl
        → Forested f (store_new f c d parent n fl).1
    store_new-Forested parent n fl r h =
        fail_if-cases (λ x. Forested f x.1) (name_exists f n.name "" fl) name_taken
          (store_named f c d parent n) fl
          (λ _.
            fail_if-cases (λ x. Forested f x.1) (clashing_sid f c d n fl) sid_taken
              (commit_new f c d parent n) fl
              (λ _.
                bind-cases (λ x. Forested f x.1) (transaction (insert_node f c d parent n))
                  (λ _. pure (new_row f n)) fl (λ _ t e. subst (λ x. Forested f x.1) e stored)
                  (λ _ t e. subst (λ x. Forested f x.1) e stored))
              (λ _. h))
          (λ _. h)
      where
        stored : Forested f (transaction (insert_node f c d parent n) fl).1
        stored = transaction_keeps (Forested f) (insert_node f c d parent n) fl h (
            create-cases (λ x. Forested f x.1) (node_clash f c d n) (with_node f c d n)
              (settle_parent f d parent n) fl
              (λ _.
                settle_parent-Forested f d parent n (with_node f c d n fl)
                  (insert-IsForest f (new_row f n) fl.nodes r h))
              (λ _. h))

    create_under-Forested :
        (n : Node f) (parent : Option (Node f)) (fl : Fleet f)
        → Rooted f fl.nodes n.parent_id
        → Forested f fl
        → Forested f (create_under f c d n parent fl).1
    create_under-Forested n parent fl r h =
        let n' = normalized f c n in
        fail_if-cases (λ x. Forested f x.1) (not (valid_node f c n')) invalid_node
          (fill_sid f c d parent n' >>= store_new f c d parent) fl
          (λ _.
            bind-cases (λ x. Forested f x.1) (fill_sid f c d parent n') (store_new f c d parent) fl
              (λ a t e.
                let (root, same) = subst (Kept n' fl) e (fill_sid-Kept parent n' fl) in
                store_new-Forested parent a t
                  (subst (λ x. Rooted f x.nodes a.parent_id) (sym same)
                    (subst (Rooted f fl.nodes) (sym root) r))
                  (subst (Forested f) (sym same) h))
              (λ _ t e.
                subst (Forested f) (sym (subst (Kept n' fl) e (fill_sid-Kept parent n' fl))) h))
          (λ _. h)

    pub create_node-Forested :
        (n : Node f) (fl : Fleet f) → Forested f fl → Forested f (create_node f c d n fl).1
    unfolding create_node
    create_node-Forested n fl h =
        let m = with_defaults f c d n in
        bind-cases (λ x. Forested f x.1) (load_parent f c d m.parent_id) (create_under f c d m) fl
          (λ p t e.
            let (root, same) =
              subst (Loaded f c d m.parent_id fl) e (load_parent-Loaded f c d m.parent_id fl) in
            create_under-Forested m p t (subst (λ x. Rooted f x.nodes m.parent_id) (sym same) root)
              (subst (Forested f) (sym same) h))
          (λ _ t e.
            subst (Forested f)
              (sym
                (subst (Loaded f c d m.parent_id fl) e (load_parent-Loaded f c d m.parent_id fl)))
              h)
