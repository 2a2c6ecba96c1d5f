-- ===== src/Payment/Cache.antt =====
-- The cache of providers is transparent: the registry answers as one that builds each provider anew.
use mathlib.Core.Path.{subst}
use vgate_manager.Prelude.{
  ◌≡◌, refl, sym, ap, ◌∙◌, String, Bool, ◌&&◌, some, List, [], ◌∷◌, ◌==◌, arith, eq_iff, Bool-cases,
  Option-cases, inl, inr, if◌then◌else◌,
}
use vgate_manager.Db.Table.{first, insert}
use vgate_manager.Db.Rows.{All, All-insert}
use vgate_manager.Db.Action.{Result, ok, err, Result-cases}
use vgate_manager.Order.Defs.{Gateways}
use vgate_manager.Payment.{
  Provider, Platforms, Cache, alipay, platform_priority, or_alipay, cached_provider, built,
  get_named, get_provider, is_enabled, has_credentials, is_configured, is_available, is_true,
  first_available, default_platform, gateways_at, pay_with,
}

module _ (r : Platforms) where
  -- The cache holds what the factories build.
  abbrev pub IsCoherent : Cache → Type 0
  IsCoherent = All (λ (e : String × Provider). built r e.0 ≡ ok e.1)

  -- Whether a platform can be used, from what its factory builds.
  abbrev pub usable : String → Result Bool
  usable platform = elim (built r platform) [
    | err e ↦ err e
    | ok p ↦ ok (is_enabled r platform && has_credentials r p)
  ]

  -- The first platform of a list that can be used.
  abbrev pub preferred : List String → String
  preferred [] = alipay
  preferred (p ∷ l) = let rest = preferred l in if is_true r (usable (or_alipay p)) then p else rest

  cached_right :
      (platform : String) (c : Cache) (e : String × Provider)
      → IsCoherent c
      → cached_provider platform c ≡ some e
      → built r platform ≡ ok e.1
  unfolding first
  cached_right platform [] e h k = ground arith
  cached_right platform (x ∷ c) e h k = elim (Bool-cases (x.0 == platform)) [
    | inl t ↦
        let same : x ≡ e = ground arith in
        ap (built r) (sym ((eq_iff x.0 platform).0 t)) ∙ h.0 ∙ ap (λ y. ok y.1) same
    | inr n ↦ cached_right platform c e h.1 (rw n at k)
  ]

  get_named-built :
      (platform : String) (c : Cache)
      → IsCoherent c
      → ((get_named r platform c).0 ≡ built r platform) × IsCoherent (get_named r platform c).1
  unfolding get_named
  get_named-built platform c h = elim (Option-cases (cached_provider platform c)) [
    | inr (e, k) ↦
        let run : get_named r platform c ≡ (ok e.1, c) = ground arith in
        subst (λ x. (x.0 ≡ built r platform) × IsCoherent x.1) (sym run)
          (sym (cached_right platform c e h k), h)
    | inl n ↦ elim (Result-cases (built r platform)) [
      | inl (p, b) ↦
          let run : get_named r platform c ≡ (ok p, insert (platform, p) c) = ground arith in
          subst (λ x. (x.0 ≡ built r platform) × IsCoherent x.1) (sym run)
            (
              sym b,
              All-insert (λ (e : String × Provider). built r e.0 ≡ ok e.1) (platform, p) c b h,
            )
      | inr (x, b) ↦
          let run : get_named r platform c ≡ (err x, c) = ground arith in
          subst (λ x. (x.0 ≡ built r platform) × IsCoherent x.1) (sym run) (sym b, h)
    ]
  ]

  get_provider-built :
      (platform : String) (c : Cache)
      → IsCoherent c
      → ((get_provider r platform c).0 ≡ built r (or_alipay platform))
        × IsCoherent (get_provider r platform c).1
  unfolding get_provider
  get_provider-built platform c h = get_named-built (or_alipay platform) c h

  or_alipay-or_alipay : (platform : String) → or_alipay (or_alipay platform) ≡ or_alipay platform
  or_alipay-or_alipay platform = ground arith

  is_available-usable :
      (platform : String) (c : Cache)
      → IsCoherent c
      → ((is_available r platform c).0 ≡ usable (or_alipay platform))
        × IsCoherent (is_available r platform c).1
  unfolding is_available is_configured
  is_available-usable platform c h =
      let q = or_alipay platform in
      let same = ap (built r) (or_alipay-or_alipay platform) in
      let g = get_provider-built q c h in
      let g' = get_provider-built q (get_provider r q c).1 g.1 in
      elim (Result-cases (built r q)) [
        | inl (p, b) ↦
            let before = g.0 ∙ same ∙ b in
            let after = g'.0 ∙ same ∙ b in
            let run : is_available r platform c ≡ (
              ok (is_enabled r q && has_credentials r p),
              (get_provider r q (get_provider r q c).1).1,
            ) =
              ground arith in
            subst (λ x. (x.0 ≡ usable q) × IsCoherent x.1) (sym run) (ground arith, g'.1)
        | inr (e, b) ↦
            let before = g.0 ∙ same ∙ b in
            let run : is_available r platform c ≡ (err e, (get_provider r q c).1) = ground arith in
            subst (λ x. (x.0 ≡ usable q) × IsCoherent x.1) (sym run) (ground arith, g.1)
      ]

  first_available-preferred :
      (l : List String) (c : Cache)
      → IsCoherent c
      → ((first_available r l c).0 ≡ preferred l) × IsCoherent (first_available r l c).1
  unfolding first_available
  first_available-preferred [] c h = (refl, h)
  first_available-preferred (p ∷ l) c h =
      let a = is_available-usable p c h in
      let rest = first_available-preferred l (is_available r p c).1 a.1 in
      elim (Bool-cases (is_true r (is_available r p c).0)) [
        | inl t ↦
            let run : first_available r (p ∷ l) c ≡ (p, (is_available r p c).1) = ground arith in
            subst (λ x. (x.0 ≡ preferred (p ∷ l)) × IsCoherent x.1) (sym run)
              (ground (arith, a.0), a.1)
        | inr n ↦
            let run : first_available r (p ∷ l) c ≡ first_available r l (is_available r p c).1 =
              ground arith in
            subst (λ x. (x.0 ≡ preferred (p ∷ l)) × IsCoherent x.1) (sym run)
              (ground (arith, a.0, rest.0), rest.1)
      ]

  -- The calls that may fill the cache.
  pub data Call : Type 0 where
    get : String → Call
    configured : String → Call
    available : String → Call
    default : Call

  unfoldable pub cache_after : List Call → Cache → Cache
  cache_after [] c = c
  cache_after (get p ∷ l) c = cache_after l (get_provider r p c).1
  cache_after (configured p ∷ l) c = cache_after l (is_configured r p c).1
  cache_after (available p ∷ l) c = cache_after l (is_available r p c).1
  cache_after (default ∷ l) c = cache_after l (default_platform r c).1

  -- The registry without its cache.
  abbrev pub fresh_gateways : Gateways
  fresh_gateways = record {
    default_platform = preferred platform_priority;
    is_available = λ p. usable (or_alipay p);
    pay = λ o. pay_with r o (built r (or_alipay o.platform));
  }

  is_configured-IsCoherent :
      (platform : String) (c : Cache) → IsCoherent c → IsCoherent (is_configured r platform c).1
  unfolding is_configured
  is_configured-IsCoherent platform c h =
      let g = (get_provider-built platform c h).1 in
      elim (Result-cases (get_provider r platform c).0) [
        | inl (p, b) ↦
            let run : (is_configured r platform c).1 ≡ (get_provider r platform c).1 =
              ground arith in
            subst IsCoherent (sym run) g
        | inr (e, b) ↦
            let run : (is_configured r platform c).1 ≡ (get_provider r platform c).1 =
              ground arith in
            subst IsCoherent (sym run) g
      ]

  cache_after-IsCoherent : (l : List Call) (c : Cache) → IsCoherent c → IsCoherent (cache_after l c)
  unfolding cache_after default_platform
  cache_after-IsCoherent [] c h = h
  cache_after-IsCoherent (get p ∷ l) c h = cache_after-IsCoherent l _ (get_provider-built p c h).1
  cache_after-IsCoherent (configured p ∷ l) c h =
      cache_after-IsCoherent l _ (is_configured-IsCoherent p c h)
  cache_after-IsCoherent (available p ∷ l) c h =
      cache_after-IsCoherent l _ (is_available-usable p c h).1
  cache_after-IsCoherent (default ∷ l) c h =
      cache_after-IsCoherent l _ (first_available-preferred platform_priority c h).1

  -- After any calls, the registry gives the orders what one without a cache would: the same default
  -- platform, the same availability of every platform and the same result of paying every order.
  pub gateways_at-cache_after : (l : List Call) → gateways_at r (cache_after l []) ≡ fresh_gateways
  unfolding gateways_at default_platform
  gateways_at-cache_after l =
      let c = cache_after l [] in
      let h = cache_after-IsCoherent l [] tt in
      λ i. record {
        default_platform = (first_available-preferred platform_priority c h).0 i;
        is_available = λ p. (is_available-usable p c h).0 i;
        pay = λ o. pay_with r o ((get_provider-built o.platform c h).0 i);
      }
