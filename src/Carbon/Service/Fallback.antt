-- ===== src/Carbon/Service/Fallback.antt =====
-- When the provider is asked, and what is answered when it fails.
use evaggregator.Carbon.Service.{
  CarbonCache, CarbonCacheEntry, CarbonIntensityResult, CarbonState, Zone, ZoneMap, fetched,
  get_entry, get_intensity, get_provider_zone_id, is_fresh, set_entry,
}
use evaggregator.Base.{
  Bool-cases, Option, Option-cases, arith, false, inl, inr, nat_eq, none, ok, pair_eq, refl, some,
  true, ℕ, ◌+◌, ◌<◌, ◌≡◌,
}
use evaggregator.Base.Dict.{contains, lookup, lookup-insert, lookup-insert_self}

module _ {P : Type 0} (fetch : ℕ → P → Option ℕ × P) (zones : ZoneMap) (ttl : ℕ) where
  -- Requests for any zones, one after the other.
  pub data Run (s : CarbonState P) : CarbonState P → Type 0 where
    here : Run s s
    next :
        {t : CarbonState P}
        → Run s t
        → (z : Zone) (now : ℕ) → Run s (get_intensity fetch zones ttl z now t).1

  fetched-cached :
      (z y : Zone) (now : ℕ) (cached : Option CarbonCacheEntry) (cache : CarbonCache) (o : Option ℕ)
      (p : P)
      → contains y cache ≡ true
      → contains y (fetched fetch zones ttl z now cached cache (o, p)).1.cache ≡ true
  unfolding set_entry
  fetched-cached z y now none cache none p h = h
  fetched-cached z y now (some e) cache none p h = h
  fetched-cached z y now cached cache (some v) p h =
      ground (arith, h, lookup-insert z y (record { value = v; fetched_at = now }) cache)

  -- A request that is answered leaves its zone in the cache.
  fetched-ok :
      (z : Zone) (now : ℕ) (cached : Option CarbonCacheEntry) (cache : CarbonCache) (o : Option ℕ)
      (p : P) {r : CarbonIntensityResult}
      → cached ≡ lookup z cache
      → (fetched fetch zones ttl z now cached cache (o, p)).0 ≡ ok r
      → contains z (fetched fetch zones ttl z now cached cache (o, p)).1.cache ≡ true
  unfolding set_entry
  fetched-ok z now none cache none p same h = ground (arith, h)
  fetched-ok z now (some e) cache none p same h = ground (arith, same)
  fetched-ok z now cached cache (some v) p same h =
      ground (arith, lookup-insert_self z (record { value = v; fetched_at = now }) cache)

  fetched-answers :
      (z : Zone) (now : ℕ) (e : CarbonCacheEntry) (cache : CarbonCache) (o : Option ℕ) (p : P)
      → (a : CarbonIntensityResult) × ((fetched fetch zones ttl z now (some e) cache (o, p)).0
          ≡ ok a)
  fetched-answers z now e cache none p = (_, refl)
  fetched-answers z now e cache (some v) p = (_, refl)

  cached-stays :
      (z y : Zone) (now : ℕ) (s : CarbonState P)
      → contains y s.cache ≡ true
      → contains y (get_intensity fetch zones ttl z now s).1.cache ≡ true
  unfolding get_intensity set_entry
  cached-stays z y now s h = elim (Option-cases (get_provider_zone_id z zones)) [
    | inl e ↦ rw (e, get_intensity) h
    | inr (w, e) ↦ elim (Bool-cases (is_fresh ttl now (get_entry z s.cache))) [
      | inl f ↦ rw (e, f, get_intensity) h
      | inr f ↦
          rw (e, f, get_intensity)
            (fetched-cached z y now (get_entry z s.cache) s.cache (fetch w s.provider).0
              (fetch w s.provider).1 h)
    ]
  ]

  Run-cached :
      (y : Zone) {s u : CarbonState P}
      → Run s u
      → contains y s.cache ≡ true
      → contains y u.cache ≡ true
  Run-cached y here h = h
  Run-cached y (next r z now) h = cached-stays z y now _ (Run-cached y r h)

  ok-cached :
      (z : Zone) (now : ℕ) (s : CarbonState P) {r : CarbonIntensityResult}
      → (get_intensity fetch zones ttl z now s).0 ≡ ok r
      → (contains z (get_intensity fetch zones ttl z now s).1.cache ≡ true)
        × ((w : ℕ) × (get_provider_zone_id z zones ≡ some w))
  unfolding get_intensity get_entry
  ok-cached z now s {r = r} done = elim (Option-cases (get_provider_zone_id z zones)) [
    | inl e ↦ ground (arith, e, done)
    | inr (w, e) ↦ elim (Bool-cases (is_fresh ttl now (get_entry z s.cache))) [
      | inl f ↦ (ground (arith, e, f), (w, e))
      | inr f ↦ (
        rw (e, f, get_intensity)
            (fetched-ok z now (get_entry z s.cache) s.cache (fetch w s.provider).0
              (fetch w s.provider).1 {r = r} refl (ground (arith, e, f, done))),
        (w, e),
      )
    ]
  ]

  cached-answers :
      (z : Zone) (w now : ℕ) (e : CarbonCacheEntry) (s : CarbonState P)
      → get_provider_zone_id z zones ≡ some w
      → get_entry z s.cache ≡ some e
      → (a : CarbonIntensityResult) × ((get_intensity fetch zones ttl z now s).0 ≡ ok a)
  unfolding get_intensity
  cached-answers z w now e s mapped there = elim (Bool-cases (is_fresh ttl now (some e))) [
    | inl f ↦ (record { value = e.value; stale = false }, rw (mapped, there, f, get_intensity) refl)
    | inr f ↦
        rw (mapped, there, f, get_intensity)
          (fetched-answers z now e s.cache (fetch w s.provider).0 (fetch w s.provider).1)
  ]

  -- Once a zone has been answered, it is answered for good: after any further requests for any zones,
  -- at any time and however often the provider fails, a request for it gets a value.
  pub answered_forever :
      (z : Zone) (now later : ℕ) (s : CarbonState P) {r : CarbonIntensityResult} {u : CarbonState P}
      → (get_intensity fetch zones ttl z now s).0 ≡ ok r
      → Run (get_intensity fetch zones ttl z now s).1 u
      → (a : CarbonIntensityResult) × ((get_intensity fetch zones ttl z later u).0 ≡ ok a)
  unfolding get_entry
  answered_forever z now later s {u = u} done run =
      let (kept, (w, mapped)) = ok-cached z now s done in
      elim (Option-cases (get_entry z u.cache)) [
        | inl e ↦ ground (arith, e, Run-cached z run kept)
        | inr (e, there) ↦ cached-answers z w later e u mapped there
      ]

  -- A value that the provider gave is served again, without asking the provider, by a request for the
  -- zone within the time to live.
  pub served_within_ttl :
      (z : Zone) (provider_zone now later v : ℕ) (s : CarbonState P)
      → get_provider_zone_id z zones ≡ some provider_zone
      → is_fresh ttl now (get_entry z s.cache) ≡ false
      → (fetch provider_zone s.provider).0 ≡ some v
      → later < now + ttl
      → let u = (get_intensity fetch zones ttl z now s).1 in
        get_intensity fetch zones ttl z later u ≡ (ok (record { value = v; stale = false }), u)
  unfolding get_intensity get_entry set_entry
  served_within_ttl z provider_zone now later v s mapped old live soon = ground (
    arith,
    mapped,
    old,
    live,
    soon,
    lookup-insert_self z (record { value = v; fetched_at = now }) s.cache,
  )
