-- ===== src/Nodes/Forest/Saving.antt =====
-- `NodeService.Update` keeps every virtual node under a real one.
use mathlib.Core.Path.{subst}
use vgate_manager.Prelude.{
  ◌≡◌, refl, sym, String, true, false, not, Option, none, some, List, ◌==◌, arith, eq_iff,
}
use vgate_manager.Prelude.Float.{Float64}
use vgate_manager.Db.Table.{any, update}
use vgate_manager.Db.Rows.{All-zip, All-update, All-any-false, any-update_mono}
use vgate_manager.Db.Action.{
  Result, ok, err, record_not_found, own_parent, has_children, invalid_node, name_taken, sid_taken,
  pure, transaction, ◌>>=◌, require-cases, fail_if-cases, create-cases, bind-cases,
  transaction_keeps,
}
use vgate_manager.Model.Node.{Node}
use vgate_manager.Model.Fleet.{Fleet, node_by_id, is_child_of}
use vgate_manager.Nodes.Rules.{Decoders, valid_node, normalized}
use vgate_manager.Nodes.Sids.{NodeDraw, name_exists, settle_parent}
use vgate_manager.Nodes.Changes.{
  load_parent, clashing_sid, save_clash, with_saved, save_node, childless, load_new_parent,
  save_named, store_old, update_under, update_found, update_node,
}
use vgate_manager.Nodes.Forest.{
  is_real, Rooted, IsForest, Forested, Rooted-mono, settle_parent-Forested,
}
use vgate_manager.Nodes.Forest.Loading.{Loaded, load_parent-Loaded}

module _ (f : Float64) where
  -- A node may hang under the parent that is named: that is a real node and another one, and the node
  -- has no children.
  abbrev Adopts : List (Node f) → Node f → Option String → Type 0
  Adopts l n none = Unit
  Adopts l n (some p) =
      Rooted f l (some p) × ((p == n.id) ≡ false) × (any (is_child_of f n.id) l ≡ false)

  module _ (c : Decoders) (d : NodeDraw) where
    -- What an update needs to know of the parent that it gives to a node.
    abbrev Adopted : Node f → Fleet f → Result (Option (Node f)) × Fleet f → Type 0
    Adopted n fl (ok _, t) = Adopts fl.nodes n n.parent_id × (t ≡ fl)
    Adopted n fl (err _, t) = t ≡ fl

    saved-IsForest :
        (n : Node f) (l : List (Node f))
        → Adopts l n n.parent_id
        → IsForest f l
        → IsForest f (update (λ m. m.id == n.id) (λ _. n) l)
    saved-IsForest n l a h = go n.parent_id refl a
      where
        l' : List (Node f)
        l' = update (λ m. m.id == n.id) (λ _. n) l

        -- A real node that is saved stays a root; a virtual one was none.
        real_stays :
            n.parent_id ≡ none
            → (p : String) → any (is_real f p) l ≡ true
            → any (is_real f p) l' ≡ true
        real_stays e p =
            any-update_mono (is_real f p) (λ m. m.id == n.id) (λ _. n) l
              (λ m t r. ground (arith, eq_iff m.id n.id, eq_iff m.id p, eq_iff n.id p))

        other_stays :
            (p : String)
            → (p == n.id) ≡ false
            → any (is_real f p) l ≡ true
            → any (is_real f p) l' ≡ true
        other_stays p apart =
            any-update_mono (is_real f p) (λ m. m.id == n.id) (λ _. n) l
              (λ m t r. ground (arith, eq_iff m.id n.id, eq_iff m.id p, eq_iff p n.id))

        away :
            (o : Option String)
            → (elim o [ none ↦ false | some p ↦ p == n.id ]) ≡ false
            → Rooted f l o
            → Rooted f l' o
        away none apart r = tt
        away (some p) apart r = other_stays p apart r

        go : (o : Option String) → n.parent_id ≡ o → Adopts l n o → IsForest f l'
        go none e a =
            All-update (λ m. Rooted f l m.parent_id) (λ m. Rooted f l' m.parent_id)
              (λ m. m.id == n.id) (λ _. n) l (λ _ _ _. subst (Rooted f l') (sym e) tt)
              (λ m r _. Rooted-mono f l l' (real_stays e) m.parent_id r) h
        go (some p) e (r, apart, childless) =
            All-update (λ m. Rooted f l m.parent_id × (is_child_of f n.id m ≡ false))
              (λ m. Rooted f l' m.parent_id) (λ m. m.id == n.id) (λ _. n) l
              (λ _ _ _. subst (Rooted f l') (sym e) (other_stays p apart r))
              (λ m x _. away m.parent_id x.1 x.0)
              (All-zip l (λ m x y. (x, y)) h (All-any-false (is_child_of f n.id) l childless))

    load_new_parent-Adopted :
        (n : Node f) (o : Option String) (fl : Fleet f)
        → n.parent_id ≡ o
        → Adopted n fl (load_new_parent f c d n o fl)
    load_new_parent-Adopted n none fl e = (subst (Adopts fl.nodes n) (sym e) tt, refl)
    load_new_parent-Adopted n (some id) fl e =
        fail_if-cases (Adopted n fl) (id == n.id) own_parent
          (load_parent f c d (some id) >>= childless f c d n) fl
          (λ apart.
            bind-cases (Adopted n fl) (load_parent f c d (some id)) (childless f c d n) fl
              (λ p t k.
                let (root, same) =
                  subst (Loaded f c d (some id) fl) k (load_parent-Loaded f c d (some id) fl) in
                fail_if-cases (Adopted n fl) (any (is_child_of f n.id) t.nodes) has_children
                  (pure p) t
                  (λ free. (
                    subst (Adopts fl.nodes n) (sym e) (
                      root,
                      apart,
                      subst (λ x. any (is_child_of f n.id) x.nodes ≡ false) same free,
                    ),
                    same,
                  ))
                  (λ _. same))
              (λ _ t k.
                subst (Loaded f c d (some id) fl) k (load_parent-Loaded f c d (some id) fl)))
          (λ _. refl)

    store_old-Forested :
        (n : Node f) (parent : Option (Node f)) (fl : Fleet f)
        → Adopts fl.nodes n n.parent_id
        → Forested f fl
        → Forested f (store_old f c d n parent fl).1
    store_old-Forested n parent fl a h =
        fail_if-cases (λ x. Forested f x.1) (name_exists f n.name n.id fl) name_taken
          (save_named f c d n parent) fl
          (λ _.
            fail_if-cases (λ x. Forested f x.1) (clashing_sid f c d n fl) sid_taken
              (transaction (save_node f c d parent n)) fl
              (λ _. transaction_keeps (Forested f) (save_node f c d parent n) fl h (
                create-cases (λ x. Forested f x.1) (save_clash f c d n) (with_saved f c d n)
                  (settle_parent f d parent n) fl
                  (λ _.
                    settle_parent-Forested f d parent n (with_saved f c d n fl)
                      (saved-IsForest n fl.nodes a h))
                  (λ _. h)))
              (λ _. h))
          (λ _. h)

    pub update_node-Forested :
        (n : Node f) (fl : Fleet f) → Forested f fl → Forested f (update_node f c d n fl).1
    unfolding update_node
    update_node-Forested n fl h =
        let adopted = load_new_parent-Adopted n n.parent_id fl refl in
        require-cases (λ x. Forested f x.1) record_not_found (λ g. node_by_id f n.id g.nodes)
          (update_found f c d n) fl
          (λ old _.
            bind-cases (λ x. Forested f x.1) (load_new_parent f c d n n.parent_id)
              (update_under f c d n) fl
              (λ p t e.
                let (a, same) = subst (Adopted n fl) e adopted in
                let held = subst (Forested f) (sym same) h in
                fail_if-cases (λ x. Forested f x.1) (not (valid_node f c (normalized f c n)))
                  invalid_node (λ g. store_old f c d (normalized f c n) p g) t
                  (λ _.
                    store_old-Forested (normalized f c n) p t
                      (subst (λ x. Adopts x.nodes n n.parent_id) (sym same) a) held)
                  (λ _. held))
              (λ _ t e. subst (Forested f) (sym (subst (Adopted n fl) e adopted)) h))
          (λ _. h)
