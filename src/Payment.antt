-- ===== src/Payment.antt =====
-- `Registry` of internal/payment/registry.go: which payment platforms there are, and the cache of
-- their providers. The lock makes each call run alone.
pub mod Cache
use Prim.Native.String.{◌++◌}
use vgate_manager.Prelude.{
  String, Bool, true, false, ◌&&◌, ◌||◌, Option, none, some, List, [], ◌∷◌, ◌==◌, if◌then◌else◌,
}
use vgate_manager.Db.Table.{first, insert}
use vgate_manager.Db.Action.{
  Error, Result, ok, err, Action, platform_not_available, pure, gets, lift, require, ◌>>=◌, ◌>>◌,
  modify,
}
use vgate_manager.Model.Order.{Order}
use vgate_manager.Order.Defs.{Directive, Gateways}

-- A provider of a gateway package. `status` is its `IsConfigured`, where it has one.
pub record Provider : Type 0 where
  pub mode : String
  pub status : Option Bool
  pub pay_url : Order → Result Directive

-- What is fixed while the program runs, as a call finds it: the factories that were registered, with
-- what each of them builds, and the settings.
pub record Platforms : Type 0 where
  pub factory : String → Option (Result Provider)
  pub settings : Result (List (String × String))

-- `PlatformEnabledKey`
abbrev pub enabled_key : String → String
enabled_key platform = "payment." ++ platform ++ ".enabled"

abbrev pub Cache : Type 0
Cache = List (String × Provider)

abbrev pub alipay : String
alipay = "alipay"

-- `PlatformPriority`
abbrev pub platform_priority : List String
platform_priority = "alipay" ∷ "wechat" ∷ "stripe" ∷ "paypal" ∷ "apple" ∷ []

abbrev pub or_alipay : String → String
or_alipay platform = if platform == "" then alipay else platform

abbrev pub cached_provider : String → Cache → Option (String × Provider)
cached_provider platform = first (λ (e : String × Provider). e.0 == platform)

module _ (r : Platforms) where
  -- What a factory builds; there may be none.
  abbrev pub built : String → Result Provider
  built platform = elim (r.factory platform) [ none ↦ err platform_not_available | some p ↦ p ]

  abbrev pub remember : String → Provider → Action Cache Provider
  remember platform p c = (ok p, insert (platform, p) c)

  -- `Get`, of a platform that is named
  unfoldable pub get_named : String → Action Cache Provider
  get_named platform c = elim (cached_provider platform c) [
    | some e ↦ (ok e.1, c)
    | none ↦ (lift (built platform) >>= remember platform) c
  ]

  unfoldable pub get_provider : String → Action Cache Provider
  get_provider platform = get_named (or_alipay platform)

  abbrev pub is_yes : String → Bool
  is_yes v = v == "true" || v == "1" || v == "yes"

  unfoldable pub is_enabled : String → Bool
  is_enabled platform = elim r.settings [
    | err _ ↦ false
    | ok m ↦ elim (first (λ (e : String × String). e.0 == enabled_key platform) m) [
      | none ↦ true
      | some e ↦ is_yes e.1
    ]
  ]

  abbrev pub has_credentials : Provider → Bool
  has_credentials p = elim p.status [ none ↦ true | some b ↦ b ]

  -- `IsConfigured`
  unfoldable pub is_configured : String → Action Cache Bool
  is_configured platform c =
      let (p, c') = get_provider platform c in
      elim p [ ok q ↦ (ok (has_credentials q), c') | err _ ↦ (ok false, c') ]

  -- `IsAvailable`
  unfoldable pub is_available : String → Action Cache Bool
  is_available platform = do
    p ← get_provider (or_alipay platform)
    configured ← is_configured (or_alipay platform)
    pure (is_enabled (or_alipay platform) && configured)

  abbrev pub is_true : Result Bool → Bool
  is_true (ok b) = b
  is_true (err _) = false

  -- The loop of `DefaultPlatform`.
  unfoldable pub first_available : List String → Cache → String × Cache
  first_available [] c = (alipay, c)
  first_available (p ∷ l) c =
      let (b, c') = is_available p c in
      elim (is_true b) [ true ↦ (p, c') | false ↦ first_available l c' ]

  unfoldable pub default_platform : Cache → String × Cache
  default_platform = first_available platform_priority

  abbrev pay_with : Order → Result Provider → Result Directive
  pay_with o (ok p) = p.pay_url o
  pay_with o (err e) = err e

  -- What the orders ask of the registry, at a cache.
  unfoldable pub gateways_at : Cache → Gateways
  gateways_at c = record {
    default_platform = (default_platform c).0;
    is_available = λ p. (is_available p c).0;
    pay = λ o. pay_with o (get_provider o.platform c).0;
  }
