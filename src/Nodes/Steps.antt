-- ===== src/Nodes/Steps.antt =====
-- What administrators do to the nodes, in any order.
use vgate_manager.Prelude.{String, List, ◌==◌, eqb, Bool-cases, inl, inr}
use vgate_manager.Prelude.Float.{Float64}
use vgate_manager.Db.Table.{count, update}
use vgate_manager.Db.Rows.{All-update, any-update_mono}
use vgate_manager.Model.Node.{Node}
use vgate_manager.Model.Fleet.{Fleet}
use vgate_manager.Nodes.Rules.{Decoders}
use vgate_manager.Nodes.Sids.{NodeDraw}
use vgate_manager.Nodes.Changes.{create_node, update_node, regenerate_token, delete_node}
use vgate_manager.Nodes.Forest.{is_real, Rooted, IsForest, Rooted-mono, Forested}
use vgate_manager.Nodes.Forest.Creation.{create_node-Forested}
use vgate_manager.Nodes.Forest.Saving.{update_node-Forested}
use vgate_manager.Nodes.Forest.Deletion.{delete_node-Forested}

module _ (f : Float64) where
  token-IsForest :
      (id token : String) (l : List (Node f))
      → IsForest f l
      → IsForest f (update (λ n. n.id == id) (λ n. record n { token = token }) l)
  token-IsForest id token l h =
      let g = λ (n : Node f). record n { token = token } in
      let keep =
        Rooted-mono f l (update (λ n. n.id == id) g l)
          (λ q. any-update_mono (is_real f q) (λ n. n.id == id) g l (λ _ _ t. t)) in
      All-update (λ a. Rooted f l a.parent_id)
        (λ a. Rooted f (update (λ n. n.id == id) g l) a.parent_id) (λ n. n.id == id) g l
        (λ a x _. keep a.parent_id x) (λ a x _. keep a.parent_id x) h

  regenerate_token-Forested :
      (c : Decoders) (d : NodeDraw) (id : String) (fl : Fleet f)
      → Forested f fl
      → Forested f (regenerate_token f c d id fl).1
  unfolding regenerate_token
  regenerate_token-Forested c d id fl h =
      elim (Bool-cases (eqb (count (λ (n : Node f). n.id == id) fl.nodes) 0)) [
        | inl t ↦ rw t (token-IsForest id d.token fl.nodes h)
        | inr m ↦ rw m (token-IsForest id d.token fl.nodes h)
      ]

  -- A call of the service on the nodes, which may also fail.
  pub data Step : Fleet f → Fleet f → Type 0 where
    create :
        (c : Decoders) (d : NodeDraw) (n : Node f) (fl : Fleet f)
        → Step fl (create_node f c d n fl).1
    save :
        (c : Decoders) (d : NodeDraw) (n : Node f) (fl : Fleet f)
        → Step fl (update_node f c d n fl).1
    remove : (id : String) (fl : Fleet f) → Step fl (delete_node f id fl).1
    renew :
        (c : Decoders) (d : NodeDraw) (id : String) (fl : Fleet f)
        → Step fl (regenerate_token f c d id fl).1

  pub data Reach (fl : Fleet f) : Fleet f → Type 0 where
    here : Reach fl fl
    next : {g h : Fleet f} → Reach fl g → Step g h → Reach fl h

  Step-Forested : {g h : Fleet f} → Step g h → Forested f g → Forested f h
  Step-Forested (create c d n fl) h = create_node-Forested f c d n fl h
  Step-Forested (save c d n fl) h = update_node-Forested f c d n fl h
  Step-Forested (remove id fl) h = delete_node-Forested f id fl h
  Step-Forested (renew c d id fl) h = regenerate_token-Forested c d id fl h

  -- Whatever is done to the nodes, in any order and with failures among it, the parent of every
  -- virtual node is a node that is there and is not virtual itself, if this held at the start.
  pub Reach-Forested : {fl g : Fleet f} → Reach fl g → Forested f fl → Forested f g
  Reach-Forested here h = h
  Reach-Forested (next r st) h = Step-Forested st (Reach-Forested r h)
