-- ===== src/Model/Node.antt =====
-- internal/model/node.go, user_node.go, user_node_traffic.go and traffic_hourly_stat.go: the nodes,
-- who may use them, and the traffic that they report.
use vgate_manager.Prelude.{String, Bool, false, Option, none, some, leb_ℤ}
use vgate_manager.Prelude.Int.{ℤ, pos, ◌-ℤ◌}
use vgate_manager.Prelude.Float.{Float64}
use vgate_manager.Model.Time.{Time}

module _ (f : Float64) where
  -- The JSON columns are texts here.
  pub record Node : Type 0 where
    pub id : String
    pub name : String
    pub parent_id : Option String
    pub address : String
    pub port : ℤ
    pub token : String
    pub network : String
    pub security : String
    pub settings : String
    pub tls_config : Option String
    pub reality_config : Option String
    pub reality_sid : String
    pub vless : Option String
    pub flow : Option String
    pub level : ℤ
    pub traffic_multiplier : f.Num
    pub speed_limit_up_bps : ℤ
    pub speed_limit_down_bps : ℤ
    pub last_seen_at : Option Time
    pub enabled : Bool

  pub record HourlyStat : Type 0 where
    pub user_id : String
    pub node_id : String
    pub hour : Time
    pub up_total : ℤ
    pub down_total : ℤ
    pub multiplier : f.Num

  -- `NodeOnlineWindow` and `Node.IsOnline`
  unfoldable pub is_online : Node → Time → Bool
  is_online n now = elim n.last_seen_at [
    | none ↦ false
    | some t ↦ leb_ℤ (now -ℤ t) (pos 300000000000)
  ]

pub record UserNode : Type 0 where
  pub user_id : String
  pub node_id : String
  pub override : Bool

pub record UserNodeTraffic : Type 0 where
  pub user_id : String
  pub node_id : String
  pub up_total : ℤ
  pub down_total : ℤ
