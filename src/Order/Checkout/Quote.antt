-- ===== src/Order/Checkout/Quote.antt =====
-- The quote of `createFor` only reads, and an order that it returns is the draft with a product.
use vgate_manager.Prelude.{
  ◌≡◌, refl, sym, ap, ◌∙◌, String, Bool, arith, ◌==◌, not, ◌||◌, ◌&&◌, Option-cases, inl, inr,
}
use vgate_manager.Db.Action.{
  Result, ok, err, pure, ◌>>=◌, bind-cases, require-cases, fail_if-cases, record_not_found,
  no_active_plan,
}
use vgate_manager.Model.Time.{is_after}
use vgate_manager.Model.User.{User}
use vgate_manager.Model.Product.{Plan}
use vgate_manager.Model.Order.{Order, Kind, plan, traffic, other}
use vgate_manager.Model.Database.{Database}
use vgate_manager.Plan.{plan_by_id, package_by_id, load_plan_price, load_enabled}
use vgate_manager.Order.Defs.{Env}
use vgate_manager.Order.Checkout.{
  Params, quote_kind, quote, with_price, with_package, plan_quote_of,
}

pub load_plan_price_reads :
    (plan_id period : String) (allow : Bool) (db : Database)
    → (load_plan_price plan_id period allow db).1 ≡ db
unfolding load_plan_price
load_plan_price_reads plan_id period allow db = elim (Option-cases (plan_by_id plan_id db)) [
  | inl n ↦ ground arith
  | inr (p, e) ↦ ground arith
]

load_enabled_reads : (id : String) (db : Database) → (load_enabled id db).1 ≡ db
unfolding load_enabled
load_enabled_reads id db = elim (Option-cases (package_by_id id db)) [
  | inl n ↦ ground arith
  | inr (p, e) ↦ ground arith
]

-- The same order but for its product and its amount.
pub record Completes (draft o : Order) : Type 0 where
  pub id : o.id ≡ draft.id
  pub user_id : o.user_id ≡ draft.user_id
  pub kind : o.kind ≡ draft.kind
  pub status : o.status ≡ draft.status
  pub platform : o.platform ≡ draft.platform
  pub out_trade_no : o.out_trade_no ≡ draft.out_trade_no

abbrev pub IsQuote : Order → Database → Result Order × Database → Type 0
IsQuote draft db (ok o, t) = Completes draft o × (t ≡ db)
IsQuote draft db (err _, t) = t ≡ db

module _ (env : Env) (draft : Order) (u : User) (p : Params) (is_admin : Bool) (db : Database) where
  plan-IsQuote : (pl : Plan) → IsQuote draft db (plan_quote_of draft u p is_admin pl db)
  plan-IsQuote pl =
      let allow = is_admin || (pl.allow_renew_off_shelf && u.current_product_id == p.plan_id) in
      bind-cases (IsQuote draft db) (load_plan_price p.plan_id p.plan_price_id allow)
        (λ price. pure (with_price draft p.plan_id price)) db
        (λ _ t e. (
          record {
            id = refl;
            user_id = refl;
            kind = refl;
            status = refl;
            platform = refl;
            out_trade_no = refl;
          },
          ap (λ x. x.1) (sym e) ∙ load_plan_price_reads p.plan_id p.plan_price_id allow db,
        ))
        (λ _ t e. ap (λ x. x.1) (sym e) ∙ load_plan_price_reads p.plan_id p.plan_price_id allow db)

  traffic-IsQuote :
      IsQuote draft db
        ((load_enabled p.traffic_package_id >>= λ pkg. pure (with_package draft pkg)) db)
  traffic-IsQuote =
      bind-cases (IsQuote draft db) (load_enabled p.traffic_package_id)
        (λ pkg. pure (with_package draft pkg)) db
        (λ _ t e. (
          record {
            id = refl;
            user_id = refl;
            kind = refl;
            status = refl;
            platform = refl;
            out_trade_no = refl;
          },
          ap (λ x. x.1) (sym e) ∙ load_enabled_reads p.traffic_package_id db,
        ))
        (λ _ t e. ap (λ x. x.1) (sym e) ∙ load_enabled_reads p.traffic_package_id db)

  quote_kind-IsQuote : (k : Kind) → IsQuote draft db (quote_kind env k draft u p is_admin db)
  quote_kind-IsQuote plan =
      require-cases (IsQuote draft db) record_not_found (plan_by_id p.plan_id)
        (plan_quote_of draft u p is_admin) db (λ pl _. plan-IsQuote pl) (λ _. refl)
  quote_kind-IsQuote traffic =
      fail_if-cases (IsQuote draft db)
        (u.current_product_id == "" || not (is_after u.expire_at env.now)) no_active_plan
        (load_enabled p.traffic_package_id >>= λ pkg. pure (with_package draft pkg)) db
        (λ _. traffic-IsQuote) (λ _. refl)
  quote_kind-IsQuote other = refl

  pub quote-IsQuote : IsQuote draft db (quote env draft u p is_admin db)
  unfolding quote
  quote-IsQuote = quote_kind-IsQuote p.kind
