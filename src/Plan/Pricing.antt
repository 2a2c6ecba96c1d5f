-- ===== src/Plan/Pricing.antt =====
-- The price of a purchase: which one `loadPlanPrice` returns, and when it returns none.
use mathlib.Core.List.{Memᴰ}
use mathlib.Core.Path.{subst}
use vgate_manager.Prelude.{
  ◌≡◌, refl, String, Bool, true, false, not, ◌&&◌, none, some, List, [], ◌∷◌, arith, ltb_ℤ,
  if◌then◌else◌, ◌==◌, eq_iff, Bool-cases, Option-cases, ◌⊎◌, inl, inr, sym, ◌∙◌,
}
use vgate_manager.Prelude.Int.{ℤ, pos, ◌≤ℤ◌}
use vgate_manager.Db.Action.{Result, ok, err, plan_not_available}
use vgate_manager.Model.Product.{Plan, PlanPriceEntry}
use vgate_manager.Model.Database.{Database}
use vgate_manager.Plan.{price_for_period, best_price, choose_price, load_plan_price, plan_by_id}

-- No enabled price of the list has a lower `sort`.
abbrev pub IsLowest : ℤ → List PlanPriceEntry → Type 0
IsLowest s [] = Unit
IsLowest s (pr ∷ l) = (pr.enabled ≡ true → s ≤ℤ pr.sort) × IsLowest s l

-- No price of the list is on sale for the period; for the period "" none is on sale at all.
abbrev pub NoneOffered : String → List PlanPriceEntry → Type 0
NoneOffered period [] = Unit
NoneOffered period (pr ∷ l) =
    ((if period == "" then pr.enabled else pr.period == period && pr.enabled) ≡ false)
    × NoneOffered period l

-- What a price that was chosen from the list has to be.
abbrev pub IsChoice : String → PlanPriceEntry → List PlanPriceEntry → Type 0
IsChoice period pr prices =
    Memᴰ pr prices
    × (pr.enabled ≡ true)
    × (if period == "" then IsLowest pr.sort prices else (pr.period == period) ≡ true)

price_for_period_lem :
    (period : String) (l : List PlanPriceEntry) (pr : PlanPriceEntry)
    → price_for_period period l ≡ some pr
    → Memᴰ pr l × (pr.enabled ≡ true) × ((pr.period == period) ≡ true)
unfolding price_for_period
price_for_period_lem period [] pr h = cc
price_for_period_lem period (x ∷ l) pr h = elim (Bool-cases (x.period == period && x.enabled)) [
  | inl t ↦
      let same : x ≡ pr = ground arith in
      (Memᴰ.head (sym same), rw (← same) (ground arith), rw (← same) (ground arith))
  | inr f ↦ let (m, e, q) = price_for_period_lem period l pr (rw f at h) in (Memᴰ.tail m, e, q)
]

price_for_period-none :
    (period : String) (l : List PlanPriceEntry)
    → (period == "") ≡ false
    → price_for_period period l ≡ none
    → NoneOffered period l
unfolding price_for_period
price_for_period-none period [] named h = tt
price_for_period-none period (x ∷ l) named h = elim (Bool-cases (x.period == period && x.enabled)) [
  | inl t ↦ ground arith
  | inr f ↦ (rw named f, price_for_period-none period l named (rw f at h))
]

-- The loop from a candidate ends with it or with a later price, whichever is lowest.
best_price-some :
    (b : PlanPriceEntry) (l : List PlanPriceEntry)
    → b.enabled ≡ true
    → (pr : PlanPriceEntry) × (best_price (some b) b.sort l ≡ some pr)
      × ((pr ≡ b) ⊎ Memᴰ pr l)
      × (pr.enabled ≡ true)
      × (pr.sort ≤ℤ b.sort)
      × IsLowest pr.sort l
unfolding best_price
best_price-some b [] e = (b, refl, inl refl, e, omega arith, tt)
best_price-some b (x ∷ l) e = elim (Bool-cases (x.enabled && ltb_ℤ x.sort b.sort)) [
  | inl t ↦
      let (pr, r, m, on, low, rest) = best_price-some x l (ground arith) in
      (
        pr,
        rw t r,
        inr (elim m [ inl h ↦ Memᴰ.head h | inr h ↦ Memᴰ.tail h ]),
        on,
        ground arith,
        ((λ _. low), rest),
      )
  | inr f ↦
      let (pr, r, m, on, low, rest) = best_price-some b l e in
      (
        pr,
        rw f r,
        elim m [ inl h ↦ inl h | inr h ↦ inr (Memᴰ.tail h) ],
        on,
        low,
        (ground arith, rest),
      )
]

best_price-none :
    (s : ℤ) (l : List PlanPriceEntry) {pr : PlanPriceEntry}
    → best_price none s l ≡ some pr
    → Memᴰ pr l × (pr.enabled ≡ true) × IsLowest pr.sort l
unfolding best_price
best_price-none s [] h = cc
best_price-none s (x ∷ l) {pr} h = elim (Bool-cases x.enabled) [
  | inl t ↦
      let (q, r, m, on, low, rest) = best_price-some x l t in
      let h' : best_price (some x) x.sort l ≡ some pr = simp t at h in
      let same : q ≡ pr = cc in
      (
        rw (← same) (elim m [ inl h ↦ Memᴰ.head h | inr h ↦ Memᴰ.tail h ]),
        rw (← same) on,
        ((λ _. subst (λ q. q.sort ≤ℤ x.sort) same low), subst (λ q. IsLowest q.sort l) same rest),
      )
  | inr f ↦
      let (m, on, low) = best_price-none s l (simp f at h) in (Memᴰ.tail m, on, (ground arith, low))
]

best_price-nothing :
    (s : ℤ) (l : List PlanPriceEntry) → best_price none s l ≡ none → NoneOffered "" l
unfolding best_price
best_price-nothing s [] h = tt
best_price-nothing s (x ∷ l) h = elim (Bool-cases x.enabled) [
  | inl t ↦
      let h' : best_price (some x) x.sort l ≡ none = simp t at h in
      let (q, r, _, _, _, _) = best_price-some x l t in cc (sym r ∙ h')
  | inr f ↦ (f, best_price-nothing s l (simp f at h))
]

-- The result of `choose_price`: a price that is right, or no price on offer.
abbrev pub Chosen : String → List PlanPriceEntry → Result PlanPriceEntry → Type 0
Chosen period prices (ok pr) = IsChoice period pr prices
Chosen period prices (err _) = NoneOffered period prices

choose_price-Chosen :
    (period : String) (prices : List PlanPriceEntry)
    → Chosen period prices (choose_price period prices)
unfolding choose_price
choose_price-Chosen period prices = elim (Bool-cases (period == "")) [
  | inl t ↦ rw t (elim (Option-cases (best_price none (pos 0) prices)) [
    | inl n ↦ rw (n, (eq_iff period "").0 t) (best_price-nothing (pos 0) prices n)
    | inr (pr, e) ↦ rw (e, t) (best_price-none (pos 0) prices e)
  ])
  | inr f ↦ rw f (elim (Option-cases (price_for_period period prices)) [
    | inl n ↦ rw n (price_for_period-none period prices f n)
    | inr (pr, e) ↦ rw (e, f) (price_for_period_lem period prices pr e)
  ])
]

pub load_plan_price_lem :
    (plan_id period : String) (allow : Bool) (db : Database) (plan : Plan)
    → plan_by_id plan_id db ≡ some plan
    → load_plan_price plan_id period allow db ≡ (
      (if not plan.enabled && not allow
          then err plan_not_available
          else choose_price period plan.prices),
      db,
    )
unfolding load_plan_price
load_plan_price_lem plan_id period allow db plan found = ground arith

-- `loadPlanPrice` of a plan that exists: refused if the plan is off the shelf and that is not
-- allowed; else the result is a price of this plan that is enabled, for the period asked for or,
-- where none is named, with the lowest `sort`; and it fails only if no such price is on offer.
pub load_plan_price-Chosen :
    (plan_id period : String) (allow : Bool) (db : Database) (plan : Plan)
    → plan_by_id plan_id db ≡ some plan
    → (if not plan.enabled && not allow
        then (load_plan_price plan_id period allow db).0 ≡ err plan_not_available
        else Chosen period plan.prices (load_plan_price plan_id period allow db).0)
load_plan_price-Chosen plan_id period allow db plan found =
    let e = load_plan_price_lem plan_id period allow db plan found in
    elim (Bool-cases (not plan.enabled && not allow)) [
      | inl t ↦ rw (t, e) (ground arith)
      | inr f ↦ rw (f, e) (simp f (choose_price-Chosen period plan.prices))
    ]
