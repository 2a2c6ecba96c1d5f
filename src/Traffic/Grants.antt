-- ===== src/Traffic/Grants.antt =====
-- The charge of reported bytes to a user's traffic grants, the oldest grant first: the grant part of
-- `ReportTraffic` of internal/service/server_api.go, with the reference that the proofs compare it to.
pub mod Rows
pub mod Charge
pub mod Total
use vgate_manager.Prelude.{
  String, Bool, true, false, List, [], ◌∷◌, ◌==◌, ltb_ℤ, leb_ℤ, min_ℤ, if◌then◌else◌,
}
use vgate_manager.Prelude.Int.{ℤ, pos, ◌+ℤ◌, ◌-ℤ◌, add64, sub64}
use vgate_manager.Db.Table.{update}
use vgate_manager.Model.Grant.{TrafficGrant, remaining_bytes}

-- `ORDER BY granted_at ASC`: where a row goes among those that come after it in the table.
unfoldable pub file_grant : TrafficGrant → List TrafficGrant → List TrafficGrant
file_grant g [] = g ∷ []
file_grant g (h ∷ l) = if leb_ℤ g.granted_at h.granted_at then g ∷ h ∷ l else h ∷ file_grant g l

-- `WHERE user_id = ? ORDER BY granted_at ASC`
unfoldable pub grants_of : String → List TrafficGrant → List TrafficGrant
grants_of v [] = []
grants_of v (g ∷ l) = let rest = grants_of v l in if g.user_id == v then file_grant g rest else rest

-- The loop that adds up what the grants have left.
unfoldable pub room_from : ℤ → List TrafficGrant → ℤ
room_from acc [] = acc
room_from acc (g ∷ l) = room_from (add64 acc (remaining_bytes g)) l

-- `UPDATE traffic_grants SET used_bytes = used_bytes + take WHERE id = ?`
abbrev pub with_used : ℤ → TrafficGrant → TrafficGrant
with_used take g = record g { used_bytes = g.used_bytes +ℤ take }

unfoldable pub add_used : String → ℤ → List TrafficGrant → List TrafficGrant
add_used id take = update (λ (h : TrafficGrant). h.id == id) (with_used take)

-- The loop over the loaded grants: what it leaves of `remaining`, and the table.
unfoldable pub charge : ℤ → List TrafficGrant → List TrafficGrant → ℤ × List TrafficGrant
charge remaining [] table = (remaining, table)
charge remaining (g ∷ gs) table = elim (leb_ℤ remaining (pos 0)) [
  | true ↦ (remaining, table)
  | false ↦
      let take = min_ℤ (remaining_bytes g) remaining in
      elim (ltb_ℤ (pos 0) take) [
        | true ↦ charge (sub64 remaining take) gs (add_used g.id take table)
        | false ↦ charge remaining gs table
      ]
]

-- What is charged of `delta` bytes, and the table with the charge.
unfoldable pub charge_grants : String → ℤ → List TrafficGrant → ℤ × List TrafficGrant
charge_grants v delta table =
    let rows = grants_of v table in
    let consume = min_ℤ delta (room_from (pos 0) rows) in
    if ltb_ℤ (pos 0) delta
    then if ltb_ℤ (pos 0) consume
      then (sub64 consume (charge consume rows table).0, (charge consume rows table).1)
      else (pos 0, table)
    else (pos 0, table)

-- The reference: every grant is filled up before the next one is touched.
unfoldable pub fill : ℤ → List TrafficGrant → List TrafficGrant
fill n [] = []
fill n (g ∷ gs) = let take = min_ℤ (remaining_bytes g) n in with_used take g ∷ fill (n -ℤ take) gs
