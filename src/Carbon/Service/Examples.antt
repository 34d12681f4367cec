-- ===== src/Carbon/Service/Examples.antt =====
-- A provider that answers once, and then fails.
use evaggregator.Carbon.Service.{
  CarbonIntensityResult, CarbonState, ZoneMap, get_entry, get_intensity, get_provider_zone_id,
}
use evaggregator.Carbon.Service.Fallback.{answered_forever, here, next}
use evaggregator.Base.{
  Option, [], false, if◌then◌else◌, nat_eq, none, ok, pair_eq, refl, some, suc, ℕ, ◌==◌, ◌∷◌, ◌≡◌,
}

abbrev once : ℕ → ℕ → Option ℕ × ℕ
once zone calls = (if calls == 0 then some 310 else none, suc calls)

abbrev one_zone : ZoneMap
one_zone = ((1, 2), 30) ∷ []

abbrev nothing_cached : CarbonState ℕ
nothing_cached = record { cache = []; provider = 0 }

abbrev asked : CarbonState ℕ
asked = (get_intensity once one_zone 900 (1, 2) 100 nothing_cached).1

abbrev asked_late : CarbonState ℕ
asked_late = (get_intensity once one_zone 900 (1, 2) 5_000 asked).1

answered_forever_example :
    (a : CarbonIntensityResult) × ((get_intensity once one_zone 900 (1, 2) 9_000 asked_late).0
      ≡ ok a)
unfolding get_intensity get_provider_zone_id get_entry
answered_forever_example =
    answered_forever once one_zone 900 (1, 2) 100 9_000 nothing_cached
      {r = record { value = 310; stale = false }} {u = asked_late} refl (next here (1, 2) 5_000)
