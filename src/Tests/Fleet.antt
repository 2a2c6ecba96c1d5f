-- ===== src/Tests/Fleet.antt =====
-- Examples: nodes, the traffic that they report, and the users that they serve.
use vgate_manager.Prelude.{
  ◌≡◌, refl, String, true, false, not, ◌&&◌, ◌||◌, Option, none, some, List, [], ◌∷◌, ◌==◌, arith,
  leb_ℤ, Bool-cases, inl, inr, if◌then◌else◌,
}
use vgate_manager.Prelude.Int.{ℤ, pos, ◌+ℤ◌, Fits}
use vgate_manager.Prelude.FloatModel.{integers}
use vgate_manager.Db.Table.{first, any, find_all, insert, delete}
use vgate_manager.Db.Rows.{All, contains}
use vgate_manager.Db.Action.{ok}
use vgate_manager.Model.User.{User}
use vgate_manager.Model.Grant.{TrafficGrant, Source}
use vgate_manager.Model.Node.{Node}
use vgate_manager.Model.Fleet.{Fleet}
use vgate_manager.Model.Database.{user_by_id}
use vgate_manager.Traffic.{UserTraffic, resolve_traffic_node, report_traffic}
use vgate_manager.Traffic.Entry.{is_entry, resolve_traffic_node_lem}
use vgate_manager.Traffic.Grants.{grants_of, file_grant, charge_grants}
use vgate_manager.Traffic.Grants.Rows.{Distinct}
use vgate_manager.Traffic.Grants.Charge.{IsWithin, sum_used, sum_quota}
use vgate_manager.Traffic.Grants.Total.{ChargedAs, charge_grants-fill}
use vgate_manager.Traffic.Accounts.{IsStocked, Accounted, report_traffic-Accounted}
use vgate_manager.Access.{
  WireUser, to_wire, is_active, may_use, overrides, is_sibling, fetch_users, list_nodes_for_user,
  set_user_nodes, unique_strings, unique_from, node_count, assign, node_level,
}
use vgate_manager.Access.Served.{fetch_users-served, list_nodes_for_user-served}
use vgate_manager.Access.Assigned.{set_user_nodes-may_use}
use vgate_manager.Nodes.Rules.{Decoders}
use vgate_manager.Nodes.Sids.{NodeDraw}
use vgate_manager.Nodes.Changes.{create_node, delete_node}
use vgate_manager.Nodes.Forest.{Forested}
use vgate_manager.Nodes.Steps.{create, remove, here, next, Reach-Forested}
use vgate_manager.Tests.{alice}

abbrev plain : String → String
plain s = s

abbrev grant_of : String → String → ℤ → ℤ → ℤ → TrafficGrant
grant_of id user_id quota used at = record {
  id = id;
  user_id = user_id;
  source = Source.redemption;
  source_id = "";
  name = "";
  quota_bytes = quota;
  used_bytes = used;
  granted_at = at;
}

abbrev given : List TrafficGrant
given =
    grant_of "g1" "alice" (pos 100) (pos 20) (pos 2)
    ∷ grant_of "g2" "alice" (pos 50) (pos 0) (pos 1)
    ∷ grant_of "g3" "bob" (pos 70) (pos 10) (pos 0)
    ∷ []

given-Distinct : Distinct given
given-Distinct = ((refl, (refl, tt)), ((refl, tt), (tt, tt)))

given-IsWithin : All IsWithin (grants_of "alice" given)
unfolding grants_of file_grant
given-IsWithin =
    ((omega arith, omega arith, omega arith), ((omega arith, omega arith, omega arith), tt))

given-Fits : Fits (sum_quota (grants_of "alice" given))
unfolding grants_of file_grant ◌+ℤ◌
given-Fits = omega arith

charge_grants-fill_example : ChargedAs "alice" (pos 60) given (charge_grants "alice" (pos 60) given)
charge_grants-fill_example =
    charge_grants-fill "alice" (pos 60) given given-Distinct given-IsWithin given-Fits

abbrev node_of : String → Option String → Node integers
node_of id parent_id = record {
  id = id;
  name = id;
  parent_id = parent_id;
  address = "";
  port = pos 443;
  token = id;
  network = "tcp";
  security = "none";
  settings = "";
  tls_config = none;
  reality_config = none;
  reality_sid = "";
  vless = none;
  flow = none;
  level = pos 1;
  traffic_multiplier = pos 2;
  speed_limit_up_bps = pos 0;
  speed_limit_down_bps = pos 0;
  last_seen_at = none;
  enabled = true;
}

abbrev carol : User
carol = record alice { package_used_bytes = pos 20; expire_at = none; credential = "vless" }

abbrev fleet : Fleet integers
fleet = record {
  nodes = node_of "n1" none ∷ node_of "n2" (some "n1") ∷ [];
  users = carol ∷ [];
  user_nodes = record { user_id = "alice"; node_id = "n1"; override = true } ∷ [];
  grants = grant_of "g1" "alice" (pos 100) (pos 20) (pos 2) ∷ [];
  node_traffic = [];
  hourly_stats = [];
}

resolve_traffic_node_example : resolve_traffic_node integers plain plain fleet.nodes "n1" "n2" ≡ (
    if not ("n2" == "") && is_entry integers plain plain fleet.nodes "n1" "n2" then "n2" else "n1")
resolve_traffic_node_example = resolve_traffic_node_lem integers plain plain fleet.nodes "n1" "n2"

fleet-IsStocked : (v : String) → IsStocked (grants_of v fleet.grants)
unfolding grants_of file_grant ◌+ℤ◌
fleet-IsStocked v = elim (Bool-cases ("alice" == v)) [
  | inl t ↦ rw t (omega arith)
  | inr n ↦ rw n (omega arith)
]

fleet_accounted :
    (v : String) (u : User)
    → user_by_id v fleet.users ≡ some u
    → u.package_used_bytes ≡ sum_used (grants_of v fleet.grants)
unfolding first grants_of file_grant ◌+ℤ◌
fleet_accounted v u e = elim (Bool-cases ("alice" == v)) [
  | inl t ↦ rw t (ground arith)
  | inr n ↦ absurd (ground arith)
]

fleet-Accounted : Accounted integers plain plain fleet
fleet-Accounted = record {
  distinct = (tt, tt);
  stocked = fleet-IsStocked;
  accounted = fleet_accounted;
}

abbrev entry : UserTraffic
entry = record { email = ""; node_id = "n2"; up = pos 30; down = pos 10 }

report_traffic-Accounted_example :
    Accounted integers plain plain
      (report_traffic integers plain plain (pos 7200000000000) "n1" (entry ∷ entry ∷ []) fleet)
report_traffic-Accounted_example =
    report_traffic-Accounted integers plain plain (pos 7200000000000) "n1" (entry ∷ entry ∷ [])
      fleet fleet-Accounted

fetch_users-served_example :
    fetch_users integers fleet (pos 0) "n1"
    ≡ mathlib.Core.List.map to_wire (
        find_all
          (λ u.
            any
              (λ (n : Node integers).
                u.enabled && u.email_verified && may_use integers fleet.user_nodes u.id u.level n)
              (find_all (is_sibling integers "n1") fleet.nodes)
            && is_active (pos 0) u)
          fleet.users)
fetch_users-served_example = fetch_users-served integers fleet (pos 0) "n1" (tt, tt)

carol_is_found : user_by_id "alice" fleet.users ≡ some carol
unfolding first
carol_is_found = refl

carol-is_active : is_active (pos 0) carol ≡ true
unfolding is_active ◌+ℤ◌
carol-is_active = refl

carol_is_shown : list_nodes_for_user integers "alice" fleet ≡ (ok (node_of "n1" none ∷ []), fleet)
unfolding list_nodes_for_user first find_all overrides any
carol_is_shown = refl

n1_is_shown : any (λ (n : Node integers). n.id == "n1") (node_of "n1" none ∷ []) ≡ true
unfolding any
n1_is_shown = refl

list_nodes_for_user-served_example :
    any (λ (w : WireUser). w.id == "vless") (fetch_users integers fleet (pos 0) "n1") ≡ true
list_nodes_for_user-served_example =
    list_nodes_for_user-served integers fleet (pos 0) "alice" "n1" carol (node_of "n1" none ∷ [])
      (tt, tt) carol_is_found carol-is_active carol_is_shown n1_is_shown

abbrev reassigned : Fleet integers
reassigned = record fleet {
  user_nodes = record { user_id = "alice"; node_id = "n2"; override = true } ∷ [];
}

carol_is_assigned : set_user_nodes integers "alice" ("n2" ∷ []) fleet ≡ (ok tt, reassigned)
unfolding set_user_nodes first node_count find_all contains any unique_strings unique_from assign
    delete insert node_level
carol_is_assigned = refl

n2_is_there :
    first (λ (n : Node integers). n.id == "n2") fleet.nodes ≡ some (node_of "n2" (some "n1"))
unfolding first
n2_is_there = refl

set_user_nodes-may_use_example :
    (may_use integers reassigned.user_nodes "alice" (pos 0) (node_of "n2" (some "n1"))
      ≡ (leb_ℤ (pos 1) (pos 0) || contains "n2" ("n2" ∷ [])))
    × ((v : String)
        → ("alice" == v) ≡ false
        → overrides v "n2" reassigned.user_nodes ≡ overrides v "n2" fleet.user_nodes)
set_user_nodes-may_use_example =
    set_user_nodes-may_use integers "alice" ("n2" ∷ []) fleet reassigned carol carol_is_found
      carol_is_assigned (node_of "n2" (some "n1")) n2_is_there

abbrev decoders : Decoders
decoders = record { server_name = some; decryption = some; normalize_sid = plain }

abbrev draw : NodeDraw
draw = record { node_id = "n3"; token = "t3"; sid = λ _. "abcd"; parent_sid = λ _. "ef01" }

fleet-Forested : Forested integers fleet
unfolding any
fleet-Forested = (tt, (refl, tt))

abbrev extended : Fleet integers
extended = (create_node integers decoders draw (node_of "" (some "n1")) fleet).1

Reach-Forested_example : Forested integers (delete_node integers "n1" extended).1
Reach-Forested_example =
    Reach-Forested integers
      (next (next here (create decoders draw (node_of "" (some "n1")) fleet))
        (remove "n1" extended))
      fleet-Forested
