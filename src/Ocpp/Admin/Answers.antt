-- ===== src/Ocpp/Admin/Answers.antt =====
-- What an operator sees.
use evaggregator.Ocpp.Presence.{PresenceRegistry, PresenceState, get_state}
use evaggregator.Ocpp.Admin.{get_bulk_presence, get_presence}
use evaggregator.Base.{
  Bool, List, Option, [], any_by, arith, if◌then◌else◌, nat_beq_iff, nat_eq, none, refl, some, ℕ,
  ◌==◌, ◌∷◌, ◌≡◌,
}
use evaggregator.Base.Dict.{Dict, insert, lookup, lookup-insert}

-- A list that contains a charger.
abbrev pub mentions : ℕ → List ℕ → Bool
mentions c cs = any_by (λ k. k == c) cs

bulk-lookup :
    (cs : List ℕ) (s : PresenceRegistry) (d : Dict ℕ (Option PresenceState)) (j : ℕ)
    → lookup j (get_bulk_presence cs s d)
      ≡ (if mentions j cs then some (get_state j s) else lookup j d)
unfolding get_bulk_presence
bulk-lookup [] s d j = refl
bulk-lookup (c ∷ cs) s d j = ground (
  arith,
  bulk-lookup cs s (insert c (get_state c s) d) j,
  lookup-insert c j (get_state c s) d,
  nat_beq_iff c j,
)

-- The bulk view has exactly the chargers that were asked for, however often and in whatever order, each
-- with the presence that asking for it alone gives.
pub bulk_agrees :
    (cs : List ℕ) (s : PresenceRegistry) (j : ℕ)
    → lookup j (get_bulk_presence cs s [])
      ≡ (if mentions j cs then some (get_presence j s) else none)
unfolding get_presence
bulk_agrees cs s j = bulk-lookup cs s [] j
