-- ===== src/Roaming/Profiles/Capacity.antt =====
-- A profile that is accepted is within the capacity of the connector.
use evaggregator.Roaming.Profiles.{
  ActiveChargingProfile, ActiveProfiles, ChargingProfilePeriod, Limit, below_all, below_zero,
  exceeds, get_active_profile, greatest_from, highest_limit, infinite, int_of, not_a_number, number,
  profile_accepted, profile_payload, set_profile, set_profile_on, store_if_accepted, uses_watts,
}
use evaggregator.Base.{
  All, Bool-cases, List, Option-cases, Result, [], ap, arith, err, false, inl, inr, ltb, nat_eq, ok,
  refl, some, subst, sym, true, ℕ, ◌∙◌, ◌∷◌, ◌≡◌, ◌≢◌, ◌≤◌,
}
use evaggregator.Roaming.Commands.{Fresh, command_of}
use evaggregator.Roaming.Bindings.{
  SessionChargerBinding, SessionChargerMap, get_charger_for_session,
}
use evaggregator.Ocpp.Commands.{
  Capacities, CommandError, CommandLogStore, CommandOutcome, CommandRequest, CommandResult,
  Dispatch, get_max_power_watts, send_set_charging_profile, set_charging_profile,
}
use evaggregator.Ocpp.Commands.Logging.{profile-capacity}
use evaggregator.Ocpp.Presence.{PresenceRegistry}
use evaggregator.Base.Dict.{lookup, lookup-insert_self}

-- A limit that is neither infinite nor a watt or more above a capacity.
abbrev pub IsWithin : ℕ → Limit → Type 0
IsWithin most (number w f) = w ≤ most
IsWithin most (below_zero w f) = Unit
IsWithin most infinite = ⊥
IsWithin most below_all = Unit
IsWithin most not_a_number = Unit

-- Such a limit that can be compared.
abbrev Fits : ℕ → Limit → Type 0
Fits most (number w f) = w ≤ most
Fits most (below_zero w f) = Unit
Fits most infinite = ⊥
Fits most below_all = Unit
Fits most not_a_number = ⊥

int_of-Fits : (x : Limit) (n most : ℕ) → int_of x ≡ some n → n ≤ most → Fits most x
int_of-Fits (number w f) n most e h = ground (arith, e, h)
int_of-Fits (below_zero w f) n most e h = tt
int_of-Fits infinite n most e h = ground (arith, e)
int_of-Fits below_all n most e h = tt
int_of-Fits not_a_number n most e h = ground (arith, e)

Fits-IsWithin : (x : Limit) (most : ℕ) → Fits most x → IsWithin most x
Fits-IsWithin (number w f) most h = h
Fits-IsWithin (below_zero w f) most h = tt
Fits-IsWithin infinite most h = h
Fits-IsWithin below_all most h = tt
Fits-IsWithin not_a_number most h = tt

replaced_number :
    (x : Limit) (w f most : ℕ) → exceeds x (number w f) ≡ true → Fits most x → w ≤ most
replaced_number (number v g) w f most e h = ground (arith, e, h)
replaced_number (below_zero v g) w f most e h = ground (arith, e)
replaced_number infinite w f most e h = absurd h
replaced_number below_all w f most e h = ground (arith, e)
replaced_number not_a_number w f most e h = absurd h

never_replaced : (x : Limit) → (exceeds x infinite ≡ false) × (exceeds x not_a_number ≡ false)
never_replaced (number v g) = (refl, refl)
never_replaced (below_zero v g) = (refl, refl)
never_replaced infinite = (refl, refl)
never_replaced below_all = (refl, refl)
never_replaced not_a_number = (refl, refl)

replaced-Fits : (x b : Limit) (most : ℕ) → exceeds x b ≡ true → Fits most x → Fits most b
replaced-Fits x (number w f) most e h = replaced_number x w f most e h
replaced-Fits x (below_zero w f) most e h = tt
replaced-Fits x below_all most e h = tt
replaced-Fits x infinite most e h = ground (arith, e, (never_replaced x).0)
replaced-Fits x not_a_number most e h = ground (arith, e, (never_replaced x).1)

kept-IsWithin : (x b : Limit) (most : ℕ) → exceeds x b ≡ false → Fits most b → IsWithin most x
kept-IsWithin (number v g) (number w f) most e h = ground (arith, e, h)
kept-IsWithin (number v g) (below_zero w f) most e h = ground (arith, e)
kept-IsWithin (number v g) below_all most e h = ground (arith, e)
kept-IsWithin (below_zero v g) b most e h = tt
kept-IsWithin infinite (number w f) most e h = ground (arith, e)
kept-IsWithin infinite (below_zero w f) most e h = ground (arith, e)
kept-IsWithin infinite below_all most e h = ground (arith, e)
kept-IsWithin below_all b most e h = tt
kept-IsWithin not_a_number b most e h = tt
kept-IsWithin x infinite most e h = absurd h
kept-IsWithin x not_a_number most e h = absurd h

greatest-IsWithin :
    (best : Limit) (ps : List ChargingProfilePeriod) (n most : ℕ)
    → int_of (greatest_from best ps) ≡ some n
    → n ≤ most
    → Fits most best × All (λ x. IsWithin most x.limit) ps
greatest-IsWithin best [] n most e h = (int_of-Fits best n most e h, tt)
greatest-IsWithin best (p ∷ ps) n most e h = elim (Bool-cases (exceeds p.limit best)) [
  | inl y ↦
      let ih = greatest-IsWithin p.limit ps n most (ground (arith, e, y)) h in
      (replaced-Fits p.limit best most y ih.0, (Fits-IsWithin p.limit most ih.0, ih.1))
  | inr y ↦
      let ih = greatest-IsWithin best ps n most (ground (arith, e, y)) h in
      (ih.0, (kept-IsWithin p.limit best most y ih.0, ih.1))
]

IsWithin-highest :
    (ps : List ChargingProfilePeriod) (n most : ℕ)
    → highest_limit ps ≡ some n
    → n ≤ most
    → All (λ x. IsWithin most x.limit) ps
IsWithin-highest [] n most e h = tt
IsWithin-highest (p ∷ ps) n most e h =
    let r = greatest-IsWithin p.limit ps n most e h in (Fits-IsWithin p.limit most r.0, r.1)

store-verdict :
    (p : ActiveChargingProfile) (r : Result CommandError CommandResult) (s : ActiveProfiles)
    → ((store_if_accepted p r s).0 ≡ profile_accepted
        → lookup p.session_id (store_if_accepted p r s).1 ≡ some p)
      × ((store_if_accepted p r s).0 ≢ profile_accepted → (store_if_accepted p r s).1 ≡ s)
store-verdict p (err e) s = ground arith
store-verdict p (ok r) s = ground (arith, lookup-insert_self p.session_id p s)

module _ (send : Dispatch → CommandOutcome) (timeout : ℕ) (presence : PresenceRegistry)
    (capacities : Capacities) where
  within :
      (f : Fresh) (b : SessionChargerBinding) (n : ℕ) (p : ActiveChargingProfile)
      (s : ActiveProfiles) (l : CommandLogStore) (most : ℕ)
      → get_max_power_watts b.charger_id b.connector_id capacities ≡ some most
      → (set_profile_on send timeout presence capacities f b n p (s, l)).0 ≡ profile_accepted
      → n ≤ most
  unfolding set_profile_on
  within f b n p s l most known done = elim (Bool-cases (ltb most n)) [
    | inr low ↦ ground (arith, low)
    | inl y ↦
        let q : CommandRequest =
          command_of f b.charger_id b.tenant_id set_charging_profile
            (profile_payload b.connector_id p) in
        let over =
          (profile-capacity send timeout q b.connector_id n capacities presence l).1 most known
            (ground (arith, y)) in
        ground (arith, ap (λ x. (store_if_accepted p x.0 s).0) over)
  ]

  stored-verdict :
      (f : Fresh) (b : SessionChargerBinding) (n : ℕ) (p : ActiveChargingProfile)
      (s : ActiveProfiles) (l : CommandLogStore)
      → ((set_profile_on send timeout presence capacities f b n p (s, l)).0 ≡ profile_accepted
          → lookup p.session_id (set_profile_on send timeout presence capacities f b n p (s, l)).1.0
            ≡ some p)
        × ((set_profile_on send timeout presence capacities f b n p (s, l)).0 ≢ profile_accepted
            → (set_profile_on send timeout presence capacities f b n p (s, l)).1.0 ≡ s)
  unfolding set_profile_on
  stored-verdict f b n p s l =
      store-verdict p
        (send_set_charging_profile send timeout
          (command_of f b.charger_id b.tenant_id set_charging_profile
            (profile_payload b.connector_id p))
          b.connector_id n capacities presence l).0
        s

  -- A profile is accepted only for a session that is bound to a charger, in watts, and, if the
  -- connector's power is known, with no limit that is infinite or a whole watt or more above it; it is
  -- then the session's active profile. If it is not accepted, no active profile changes.
  pub profile-safety :
      (f : Fresh) (p : ActiveChargingProfile) (m : SessionChargerMap) (s : ActiveProfiles)
      (l : CommandLogStore)
      → ((set_profile send timeout presence capacities f p m (s, l)).0 ≡ profile_accepted
          → (get_active_profile p.session_id m
                (set_profile send timeout presence capacities f p m (s, l)).1.0
              ≡ (profile_accepted, some p))
            × (uses_watts p.charging_rate_unit ≡ true)
            × ((b : SessionChargerBinding) (most : ℕ)
                → get_charger_for_session p.session_id m ≡ some b
                → get_max_power_watts b.charger_id b.connector_id capacities ≡ some most
                → All (λ x. IsWithin most x.limit) p.periods))
        × ((set_profile send timeout presence capacities f p m (s, l)).0 ≢ profile_accepted
            → (set_profile send timeout presence capacities f p m (s, l)).1.0 ≡ s)
  unfolding set_profile get_active_profile
  profile-safety f p m s l = elim (Option-cases (get_charger_for_session p.session_id m)) [
    | inl e ↦ (λ done. ground arith, λ other. rw (e, set_profile) refl)
    | inr (b, e) ↦ elim (Bool-cases (uses_watts p.charging_rate_unit)) [
      | inr w ↦ (λ done. ground arith, λ other. rw (e, w, set_profile) refl)
      | inl w ↦ elim (Option-cases (highest_limit p.periods)) [
        | inl g ↦ (λ done. ground (arith, e, w, g), λ other. rw (e, w, g, set_profile) refl)
        | inr (n, g) ↦
            let on : set_profile send timeout presence capacities f p m (s, l)
                ≡ set_profile_on send timeout presence capacities f b n p (s, l) =
              rw (e, w, g, set_profile) refl in
            let v = stored-verdict f b n p s l in
            (
              λ done. (
                rw (e, on, get_active_profile)
                    (ap (λ x. (profile_accepted, x)) (v.0 (sym (ap (λ x. x.0) on) ∙ done))),
                w,
                λ c most bound known.
                    let same : b ≡ c = ground (arith, e, bound) in
                    IsWithin-highest p.periods n most g (
                      within f c n p s l most known (
                        subst
                          (λ x.
                            (set_profile_on send timeout presence capacities f x n p (s, l)).0
                            ≡ profile_accepted)
                          same (sym (ap (λ x. x.0) on) ∙ done))),
              ),
              λ other. rw (on) (v.1 (λ done. other (ap (λ x. x.0) on ∙ done))),
            )
      ]
    ]
  ]
