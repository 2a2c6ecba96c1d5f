-- ===== src/Tests/Shop.antt =====
-- Examples: the payment platforms.
use vgate_manager.Prelude.{
  ◌≡◌, refl, String, true, Option, none, some, [], ◌∷◌, ◌==◌, if◌then◌else◌,
}
use vgate_manager.Db.Table.{first, insert}
use vgate_manager.Db.Action.{Result, ok, err, platform_not_available}
use vgate_manager.Payment.{
  Provider, Platforms, default_platform, gateways_at, enabled_key, first_available, is_available,
  get_provider, get_named, is_configured, is_enabled,
}
use vgate_manager.Payment.Cache.{
  available, default, get, cache_after, fresh_gateways, gateways_at-cache_after,
}

abbrev stripe : Provider
stripe = record { mode = "redirect"; status = some true; pay_url = λ _. err platform_not_available }

abbrev only_stripe : String → Option (Result Provider)
only_stripe platform = if platform == "stripe" then some (ok stripe) else none

abbrev platforms : Platforms
platforms = record { factory = only_stripe; settings = ok ((enabled_key "wechat", "true") ∷ []) }

stripe_is_default : (default_platform platforms []).0 ≡ "stripe"
unfolding default_platform first_available is_available get_provider get_named first is_configured
    insert is_enabled
stripe_is_default = refl

gateways_at-cache_after_example :
    gateways_at platforms
      (cache_after platforms (available "stripe" ∷ get "paypal" ∷ default ∷ []) [])
    ≡ fresh_gateways platforms
gateways_at-cache_after_example =
    gateways_at-cache_after platforms (available "stripe" ∷ get "paypal" ∷ default ∷ [])
