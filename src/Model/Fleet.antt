-- ===== src/Model/Fleet.antt =====
-- The tables that the services of nodes and users share.
use vgate_manager.Prelude.{String, Bool, false, Option, none, some, List, ◌==◌}
use vgate_manager.Prelude.Float.{Float64}
use vgate_manager.Db.Table.{first}
use vgate_manager.Db.Action.{Action}
use vgate_manager.Model.User.{User}
use vgate_manager.Model.Grant.{TrafficGrant}
use vgate_manager.Model.Node.{Node, UserNode, UserNodeTraffic, HourlyStat}

module _ (f : Float64) where
  pub record Fleet : Type 0 where
    pub nodes : List (Node f)
    pub users : List User
    pub user_nodes : List UserNode
    pub grants : List TrafficGrant
    pub node_traffic : List UserNodeTraffic
    pub hourly_stats : List (HourlyStat f)

  abbrev pub Fl : Type 0 → Type 0
  Fl A = Action Fleet A

  abbrev pub node_by_id : String → List (Node f) → Option (Node f)
  node_by_id id = first (λ (n : Node f). n.id == id)

  -- `parent_id = ?`, which no NULL satisfies
  abbrev pub is_child_of : String → Node f → Bool
  is_child_of id n = elim n.parent_id [ none ↦ false | some p ↦ p == id ]
