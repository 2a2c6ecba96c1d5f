-- ===== src/Traffic.antt =====
-- The traffic that nodes report: `ReportTraffic`, `resolveTrafficNode` and `nodeTrafficMultiplier` of
-- internal/service/server_api.go.
pub mod Grants
pub mod Entry
pub mod Accounts
use vgate_manager.Prelude.{
  String, Bool, true, false, ◌&&◌, Option, none, some, List, [], ◌∷◌, ◌==◌, eqb_ℤ, if◌then◌else◌,
  ◌+◌, ◌-◌, ◌*◌, ◌/◌, ◌%◌,
}
use vgate_manager.Prelude.Int.{ℤ, pos, negsuc, ◌+ℤ◌, add64}
use vgate_manager.Prelude.Float.{Float64}
use vgate_manager.Db.Table.{first, update, insert}
use vgate_manager.Model.Time.{Time}
use vgate_manager.Model.User.{User}
use vgate_manager.Model.Node.{Node, UserNodeTraffic, HourlyStat}
use vgate_manager.Model.Fleet.{Fleet, node_by_id, is_child_of}
use vgate_manager.Traffic.Grants.{charge_grants}

-- `wire.UserTraffic`
pub record UserTraffic : Type 0 where
  pub email : String
  pub node_id : String
  pub up : ℤ
  pub down : ℤ

-- `now.UTC().Truncate(time.Hour)`
unfoldable pub truncate_hour : Time → Time
truncate_hour (pos n) = pos (n - n % 3600000000000)
truncate_hour (negsuc n) = negsuc ((n / 3600000000000 + 1) * 3600000000000 - 1)

-- Adds a row, or changes the row that has its key: `INSERT ... ON CONFLICT DO UPDATE`.
unfoldable pub upsert {ℓ} : {A : Type ℓ} → (A → Bool) → (A → A) → A → List A → List A
upsert same merge a l = elim (first same l) [ none ↦ insert a l | some _ ↦ update same merge l ]

-- What a user and a node have in `user_node_traffic`.
abbrev of_pair : String → String → UserNodeTraffic → Bool
of_pair user_id node_id t = t.user_id == user_id && t.node_id == node_id

unfoldable pub add_node_traffic :
    String → String → ℤ → ℤ → List UserNodeTraffic → List UserNodeTraffic
add_node_traffic user_id node_id up down =
    upsert (of_pair user_id node_id)
      (λ t. record t { up_total = t.up_total +ℤ up; down_total = t.down_total +ℤ down })
      (record { user_id = user_id; node_id = node_id; up_total = up; down_total = down })

-- `trim` and `lower` are `strings.TrimSpace` and `strings.ToLower`
module _ (f : Float64) (trim lower : String → String) where
  -- A claimed node is believed only if it is a virtual child of the node that reports.
  unfoldable pub resolve_traffic_node : List (Node f) → String → String → String
  resolve_traffic_node nodes node_id claimed =
      let c = trim claimed in
      if c == ""
      then node_id
      else if c == node_id
      then node_id
      else elim (first (λ (n : Node f). n.id == c && is_child_of f node_id n) nodes) [
        | none ↦ node_id
        | some child ↦ child.id
      ]

  unfoldable pub node_traffic_multiplier : List (Node f) → String → f.Num
  node_traffic_multiplier nodes node_id = elim (node_by_id f node_id nodes) [
    | none ↦ f.of_int (pos 1)
    | some n ↦
        if f.lt (f.of_int (pos 0)) n.traffic_multiplier
        then n.traffic_multiplier
        else f.of_int (pos 1)
  ]

  -- What a report carries from one of its entries to the next: the multipliers that were looked up,
  -- and the sums for the hour, in the order in which their keys came up.
  pub record Batch : Type 0 where
    pub mults : List (String × f.Num)
    pub stats : List (HourlyStat f)

  abbrev pub cached : String → List (String × f.Num) → Option (String × f.Num)
  cached id = first (λ (e : String × f.Num). e.0 == id)

  -- The multiplier of an entry point, and the cache with it.
  unfoldable pub multiplier_of :
      List (Node f) → String → List (String × f.Num) → f.Num × List (String × f.Num)
  multiplier_of nodes id mults = elim (cached id mults) [
    | some e ↦ (e.1, mults)
    | none ↦ (node_traffic_multiplier nodes id, insert (id, node_traffic_multiplier nodes id) mults)
  ]

  -- `int64(math.Round(float64(n) * mult))`
  abbrev pub scaled : ℤ → f.Num → ℤ
  scaled n mult = f.round_int (f.mul (f.of_int n) mult)

  -- The `statAgg` of the batch.
  unfoldable pub add_stat : HourlyStat f → List (HourlyStat f) → List (HourlyStat f)
  add_stat s =
      upsert (λ (t : HourlyStat f). t.user_id == s.user_id && t.node_id == s.node_id)
        (λ t. record t {
          up_total = add64 t.up_total s.up_total;
          down_total = add64 t.down_total s.down_total;
          multiplier = s.multiplier;
        })
        s

  -- The upsert of one of the sums into the table.
  unfoldable pub store_stat : HourlyStat f → List (HourlyStat f) → List (HourlyStat f)
  store_stat s =
      upsert
        (λ (t : HourlyStat f).
          t.user_id == s.user_id && t.node_id == s.node_id && eqb_ℤ t.hour s.hour)
        (λ t. record t {
          up_total = t.up_total +ℤ s.up_total;
          down_total = t.down_total +ℤ s.down_total;
          multiplier = s.multiplier;
        })
        s

  unfoldable pub store_stats : List (HourlyStat f) → List (HourlyStat f) → List (HourlyStat f)
  store_stats [] table = table
  store_stats (s ∷ l) table = store_stats l (store_stat s table)

  -- `email = ? AND enabled = ?`
  abbrev pub reported_user : UserTraffic → List User → Option User
  reported_user d = first (λ u. u.email == lower (trim d.email) && u.enabled)

  -- The columns of the user that a report writes.
  abbrev pub with_traffic : Time → ℤ → ℤ → ℤ → User → User
  with_traffic now up down consumed u = record u {
    up_total = u.up_total +ℤ up;
    down_total = u.down_total +ℤ down;
    package_used_bytes = u.package_used_bytes +ℤ consumed;
    last_traffic_at = some now;
  }

  -- The charge of `up` and `down` bytes, as they are billed, to a user.
  unfoldable pub bill_user : Time → String → String → ℤ → ℤ → Fleet f → Fleet f
  bill_user now user_id target up down fl =
      let (consumed, grants) = charge_grants user_id (add64 up down) fl.grants in
      record fl {
        grants = grants;
        users = update (λ u. u.id == user_id) (with_traffic now up down consumed) fl.users;
        node_traffic = add_node_traffic user_id target up down fl.node_traffic;
      }

  -- An entry of a known user.
  abbrev pub report_user :
      Time → String → f.Num → UserTraffic → User → Fleet f × Batch → Fleet f × Batch
  report_user now target mult d user (fl, batch) = (
    bill_user now user.id target (scaled d.up mult) (scaled d.down mult) fl,
    record batch {
      stats =
          add_stat
            (record {
              user_id = user.id;
              node_id = target;
              hour = truncate_hour now;
              up_total = d.up;
              down_total = d.down;
              multiplier = mult;
            })
            batch.stats;
    },
  )

  -- The body of the loop over the entries of a report.
  unfoldable pub report_one : Time → String → UserTraffic → Fleet f × Batch → Fleet f × Batch
  report_one now node_id d (fl, batch) = elim (eqb_ℤ d.up (pos 0) && eqb_ℤ d.down (pos 0)) [
    | true ↦ (fl, batch)
    | false ↦
        let target = resolve_traffic_node fl.nodes node_id d.node_id in
        let (mult, mults) = multiplier_of fl.nodes target batch.mults in
        let known : Batch = record batch { mults = mults } in
        elim (reported_user d fl.users) [
          | none ↦ (fl, known)
          | some user ↦ report_user now target mult d user (fl, known)
        ]
  ]

  unfoldable pub report_all : Time → String → List UserTraffic → Fleet f × Batch → Fleet f × Batch
  report_all now node_id [] s = s
  report_all now node_id (d ∷ ds) s = report_all now node_id ds (report_one now node_id d s)

  unfoldable pub report_traffic : Time → String → List UserTraffic → Fleet f → Fleet f
  report_traffic now node_id deltas fl =
      let (fl', batch) = report_all now node_id deltas (fl, record { mults = []; stats = [] }) in
      record fl' { hourly_stats = store_stats batch.stats fl'.hourly_stats }
