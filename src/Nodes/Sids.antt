-- ===== src/Nodes/Sids.antt =====
-- The names and the Reality short ids of nodes, in internal/service/node.go: what is taken, and what is
-- drawn anew.
use vgate_manager.Prelude.{
  ℕ, zero, suc, String, Bool, true, false, not, ◌&&◌, ◌||◌, Option, none, some, ◌==◌, ltb, eqb,
}
use vgate_manager.Prelude.Float.{Float64}
use vgate_manager.Db.Table.{count, any, update}
use vgate_manager.Db.Action.{ok, err, no_free_sid, ◌>>=◌, modify}
use vgate_manager.Model.Node.{Node}
use vgate_manager.Model.Fleet.{Fleet, Fl}

-- What a call draws: an id, a token, and short ids, by the number of attempts that are left; the
-- second series is for a parent that yields its own.
pub record NodeDraw : Type 0 where
  pub node_id : String
  pub token : String
  pub sid : ℕ → String
  pub parent_sid : ℕ → String

module _ (f : Float64) where
  abbrev pub update_nodes : (Node f → Bool) → (Node f → Node f) → Fleet f → Fleet f
  update_nodes p g fl = record fl { nodes = update p g fl.nodes }

  -- `nameExists`
  unfoldable pub name_exists : String → String → Fleet f → Bool
  name_exists name exclude_id fl =
      any (λ (n : Node f). n.name == name && (exclude_id == "" || not (n.id == exclude_id)))
        fl.nodes

  abbrev pub has_sid : String → Node f → Bool
  has_sid sid n = n.reality_sid == sid

  -- The attempts of `generateShortID` that are left.
  unfoldable pub generate_from : ℕ → (ℕ → String) → Fl f String
  generate_from zero draw fl = (err no_free_sid, fl)
  generate_from (suc k) draw fl = elim (eqb (count (has_sid (draw k)) fl.nodes) 0) [
    | true ↦ (ok (draw k), fl)
    | false ↦ generate_from k draw fl
  ]

  unfoldable pub generate_short_id : (ℕ → String) → Fl f String
  generate_short_id = generate_from 8

  -- `id <> ?`, and `id <> parent` for a virtual node
  abbrev pub is_other : Node f → Node f → Bool
  is_other node n =
      not (n.id == node.id) && (elim node.parent_id [ none ↦ true | some p ↦ not (n.id == p) ])

  -- `checkShortIDConflict`; its two errors differ only in their texts
  unfoldable pub sid_conflict : Node f → Fleet f → Bool
  sid_conflict node fl =
      ltb 0 (count (λ n. n.reality_sid == node.reality_sid && is_other node n) fl.nodes)

  abbrev pub with_sid : String → Node f → Node f
  with_sid sid n = record n { reality_sid = sid }

  -- `regenerateOwnShortID`, once the short id is drawn
  abbrev pub yield_sid : Node f → String → Fl f Unit
  yield_sid parent sid = modify (update_nodes (λ n. n.id == parent.id) (with_sid sid))

  -- Child priority, at the end of the transactions of `Create` and `Update`.
  unfoldable pub settle_parent : NodeDraw → Option (Node f) → Node f → Fl f Unit
  settle_parent d none node fl = (ok tt, fl)
  settle_parent d (some parent) node fl =
      elim (not (node.reality_sid == "") && parent.reality_sid == node.reality_sid) [
        | false ↦ (ok tt, fl)
        | true ↦ (generate_short_id d.parent_sid >>= yield_sid parent) fl
      ]
