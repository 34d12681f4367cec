-- ===== src/Carbon/Service.antt =====
-- backend/src/evagg/carbon/service.py, cache.py (the in-memory cache) and zone_map.py. The
-- provider is a parameter with a state of its own, `P`. A value is a number that is only carried; the
-- age of a cached one is compared as a sum.
pub mod Fallback
mod Examples
use evaggregator.Base.{
  Bool, Exec, Option, Result, err, false, if◌then◌else◌, ltb, nat_eq, none, ok, pair_eq, some, true,
  ℕ, ◌+◌,
}
use evaggregator.Base.Dict.{Dict, insert, lookup}

abbrev pub Zone : Type 0
Zone = ℕ × ℕ

pub record CarbonCacheEntry : Type 0 where
  pub value : ℕ
  pub fetched_at : ℕ

abbrev pub CarbonCache : Type 0
CarbonCache = Dict Zone CarbonCacheEntry

unfoldable pub get_entry : Zone → CarbonCache → Option CarbonCacheEntry
get_entry z s = lookup z s

unfoldable pub set_entry : Zone → ℕ → ℕ → CarbonCache → CarbonCache
set_entry z value now s = insert z (record { value = value; fetched_at = now }) s

abbrev pub ZoneMap : Type 0
ZoneMap = Dict Zone ℕ

unfoldable pub set_mapping : Zone → ℕ → ZoneMap → ZoneMap
set_mapping z provider_zone m = insert z provider_zone m

unfoldable pub get_provider_zone_id : Zone → ZoneMap → Option ℕ
get_provider_zone_id z m = lookup z m

pub record CarbonIntensityResult : Type 0 where
  pub value : ℕ
  pub stale : Bool

pub data CarbonError : Type 0 where
  zone_not_supported provider_failed : CarbonError

pub record CarbonState (P : Type 0) : Type 0 where
  pub cache : CarbonCache
  pub provider : P

abbrev pub is_fresh : ℕ → ℕ → Option CarbonCacheEntry → Bool
is_fresh ttl now none = false
is_fresh ttl now (some e) = ltb now (e.fetched_at + ttl)

abbrev pub cached_value : Option CarbonCacheEntry → ℕ
cached_value none = 0
cached_value (some e) = e.value

module _ {P : Type 0} (fetch : ℕ → P → Option ℕ × P) (zones : ZoneMap) (ttl : ℕ) where
  -- A failure of the provider is answered from the cache, if anything is there.
  abbrev pub fall_back :
      Option CarbonCacheEntry
      → CarbonState P
      → Result CarbonError CarbonIntensityResult × CarbonState P
  fall_back none s = (err provider_failed, s)
  fall_back (some e) s = (ok (record { value = e.value; stale = true }), s)

  abbrev pub fetched :
      Zone
      → ℕ
      → Option CarbonCacheEntry
      → CarbonCache
      → Option ℕ × P
      → Result CarbonError CarbonIntensityResult × CarbonState P
  fetched z now cached cache (none, p) = fall_back cached (record { cache = cache; provider = p })
  fetched z now cached cache (some v, p) = (
    ok (record { value = v; stale = false }),
    record { cache = set_entry z v now cache; provider = p },
  )

  unfoldable pub get_intensity : Zone → ℕ → Exec CarbonError (CarbonState P) CarbonIntensityResult
  unfolding get_provider_zone_id get_entry set_entry
  get_intensity z now s = elim (get_provider_zone_id z zones) [
    | none ↦ (err zone_not_supported, s)
    | some provider_zone ↦
        let cached = get_entry z s.cache in
        if is_fresh ttl now cached
        then (ok (record { value = cached_value cached; stale = false }), s)
        else fetched z now cached s.cache (fetch provider_zone s.provider)
  ]
