-- ===== src/Nodes/Forest.antt =====
-- Every virtual node hangs under a real one: the services keep the nodes one level deep.
pub mod Loading
pub mod Creation
pub mod Saving
pub mod Deletion
use mathlib.Core.Path.{subst}
use vgate_manager.Prelude.{
  ℕ, zero, suc, ◌≡◌, refl, sym, ap, ◌∙◌, String, Bool, true, false, not, ◌&&◌, ◌||◌, Option, none,
  some, List, ◌==◌, arith, eqb, eq_iff, Bool-cases, Option-cases, inl, inr,
}
use vgate_manager.Prelude.Float.{Float64}
use vgate_manager.Db.Table.{first-holds, count, any, insert, update, delete}
use vgate_manager.Db.Rows.{
  All, All-zip, All-insert, All-update, All-delete, All-any-false, any-insert, any-first,
  any-update_mono, any-delete_keep,
}
use vgate_manager.Db.Action.{
  Result, ok, err, record_not_found, parent_not_found, nested_parent, own_parent, has_children,
  invalid_node, name_taken, sid_taken, pure, transaction, ◌>>=◌, require-cases, fail_if-cases,
  create-cases, bind-cases, transaction_keeps,
}
use vgate_manager.Model.Node.{Node}
use vgate_manager.Model.Fleet.{Fleet, node_by_id, is_child_of}
use vgate_manager.Nodes.Rules.{Decoders, is_virtual, valid_node, normalized}
use vgate_manager.Nodes.Sids.{
  NodeDraw, name_exists, has_sid, generate_from, generate_short_id, with_sid, yield_sid,
  settle_parent,
}
use vgate_manager.Nodes.Changes.{
  new_row, with_defaults, real_parent, load_parent, is_reality_entry, fill_sid, node_clash,
  with_node, insert_node, clashing_sid, commit_new, store_named, store_new, create_under,
  create_node, save_clash, with_saved, save_node, childless, load_new_parent, save_named, store_old,
  update_under, update_found, update_node, delete_node,
}

module _ (f : Float64) where
  -- A real node has the id.
  abbrev pub is_real : String → Node f → Bool
  is_real p n = n.id == p && not (is_virtual f n)

  -- The parent that is named, if one is, is a real node of the list.
  abbrev pub Rooted : List (Node f) → Option String → Type 0
  Rooted l none = Unit
  Rooted l (some p) = any (is_real p) l ≡ true

  -- Every virtual node of the list has a real parent in it.
  abbrev pub IsForest : List (Node f) → Type 0
  IsForest l = All (λ (n : Node f). Rooted l n.parent_id) l

  abbrev pub Forested : Fleet f → Type 0
  Forested fl = IsForest fl.nodes

  pub Rooted-mono :
      (l m : List (Node f))
      → ((p : String) → any (is_real p) l ≡ true → any (is_real p) m ≡ true)
      → (o : Option String) → Rooted l o
      → Rooted m o
  Rooted-mono l m k none h = tt
  Rooted-mono l m k (some p) h = k p h

  pub insert-IsForest :
      (n : Node f) (l : List (Node f)) → Rooted l n.parent_id → IsForest l → IsForest (insert n l)
  insert-IsForest n l r h =
      let grow = λ (p : String) (t : any (is_real p) l ≡ true).
        any-insert (is_real p) n l ∙ ap (λ b. b || is_real p n) t in
      let keep = Rooted-mono l (insert n l) grow in
      All-insert (λ a. Rooted (insert n l) a.parent_id) n l (keep n.parent_id r)
        (All-zip l (λ a x _. keep a.parent_id x) h h)

  -- New short ids move no node.
  pub sid-IsForest :
      (p : Node f → Bool) (sid : String) (l : List (Node f))
      → IsForest l
      → IsForest (update p (with_sid f sid) l)
  sid-IsForest p sid l h =
      let keep =
        Rooted-mono l (update p (with_sid f sid) l)
          (λ q. any-update_mono (is_real q) p (with_sid f sid) l (λ _ _ t. t)) in
      All-update (λ a. Rooted l a.parent_id) (λ a. Rooted (update p (with_sid f sid) l) a.parent_id)
        p (with_sid f sid) l (λ a x _. keep a.parent_id x) (λ a x _. keep a.parent_id x) h

  pub generate_from-same :
      (k : ℕ) (draw : ℕ → String) (fl : Fleet f) → (generate_from f k draw fl).1 ≡ fl
  unfolding generate_from
  generate_from-same zero draw fl = refl
  generate_from-same (suc k) draw fl =
      elim (Bool-cases (eqb (count (has_sid f (draw k)) fl.nodes) 0)) [
        | inl t ↦ ground arith
        | inr n ↦ ground (arith, generate_from-same k draw fl)
      ]

  pub settle_parent-Forested :
      (d : NodeDraw) (parent : Option (Node f)) (n : Node f) (fl : Fleet f)
      → Forested fl
      → Forested (settle_parent f d parent n fl).1
  unfolding settle_parent generate_short_id
  settle_parent-Forested d none n fl h = h
  settle_parent-Forested d (some p) n fl h =
      elim (Bool-cases (not (n.reality_sid == "") && p.reality_sid == n.reality_sid)) [
        | inr m ↦
            let e : settle_parent f d (some p) n fl ≡ (ok tt, fl) = ground arith in
            subst (λ x. Forested x.1) (sym e) h
        | inl t ↦
            let e : settle_parent f d (some p) n fl
                ≡ (generate_from f 8 d.parent_sid >>= yield_sid f p) fl =
              ground arith in
            subst (λ x. Forested x.1) (sym e)
              (bind-cases (λ x. Forested x.1) (generate_from f 8 d.parent_sid) (yield_sid f p) fl
                (λ sid t e. sid-IsForest (λ m. m.id == p.id) sid t.nodes (same e))
                (λ _ t e. same e))
      ]
    where
      same :
          {r : Result String} {t : Fleet f}
          → generate_from f 8 d.parent_sid fl ≡ (r, t)
          → Forested t
      same e = subst Forested (sym (generate_from-same 8 d.parent_sid fl) ∙ ap (λ x. x.1) e) h
