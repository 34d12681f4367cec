-- ===== src/Roaming/Routes/Reading.antt =====
-- What partners read, and what reading and the 2.1.1 shim leave alone.
use evaggregator.Roaming.Routes.{
  Context, OcpiRequest, OcpiState, Served, answer_ok, get_charging_profile, get_locations_v211,
  get_one_location, get_one_tariff, get_preferences, get_tariffs, get_versions,
  post_cancel_reservation, post_credentials, post_reserve_now, post_start_session,
  post_stop_session, post_unlock_connector, put_charging_preferences, put_charging_profile, respond,
  served_211, served_221, served_230, tariff_body, write_rejected, write_session_v211,
  write_token_v211,
}
use evaggregator.Roaming.Tariffs.{OcpiParty, get_ocpi_tariff, to_ocpi_tariff, to_price_component}
use evaggregator.Ocpp.Commands.{CommandOutcome, Dispatch}
use evaggregator.Billing.Tariffs.{
  Tariff, TariffComponent, create_tariff, new_tariff, validate_tariff_components,
}
use evaggregator.Base.{
  Bool, Bool-cases, List, Option, Result-cases, [], ap, arith, false, inl, inr, map, nat_eq, ok,
  refl, some, subst, true, ℕ, ◌∷◌, ◌≡◌, ◌⊎◌,
}
use evaggregator.Base.Dict.{lookup-insert_self}

-- A GET request.
abbrev pub is_read : OcpiRequest → Bool
is_read get_versions = true
is_read (post_credentials v token) = false
is_read get_locations_v211 = true
is_read (get_one_location v id) = true
is_read (get_tariffs v) = true
is_read (get_one_tariff v id) = true
is_read (write_token_v211 id) = false
is_read (write_session_v211 id) = false
is_read (put_charging_profile v p) = false
is_read (get_charging_profile v session) = true
is_read (post_start_session v location tenant token connector) = false
is_read (post_stop_session v session tenant) = false
is_read (post_reserve_now v location tenant token expiry reservation connector) = false
is_read (post_unlock_connector v location tenant connector) = false
is_read (post_cancel_reservation v location tenant reservation) = false
is_read (put_charging_preferences v p) = false
is_read (get_preferences v session) = true

-- A request to the 2.1.1 shim.
abbrev pub is_shim : OcpiRequest → Bool
is_shim get_versions = false
is_shim (post_credentials v token) = false
is_shim get_locations_v211 = true
is_shim (get_one_location served_211 id) = true
is_shim (get_one_location served_221 id) = false
is_shim (get_one_location served_230 id) = false
is_shim (get_tariffs served_211) = true
is_shim (get_tariffs served_221) = false
is_shim (get_tariffs served_230) = false
is_shim (get_one_tariff served_211 id) = true
is_shim (get_one_tariff served_221 id) = false
is_shim (get_one_tariff served_230 id) = false
is_shim (write_token_v211 id) = true
is_shim (write_session_v211 id) = true
is_shim (put_charging_profile v p) = false
is_shim (get_charging_profile v session) = false
is_shim (post_start_session v location tenant token connector) = false
is_shim (post_stop_session v session tenant) = false
is_shim (post_reserve_now v location tenant token expiry reservation connector) = false
is_shim (post_unlock_connector v location tenant connector) = false
is_shim (post_cancel_reservation v location tenant reservation) = false
is_shim (put_charging_preferences v p) = false
is_shim (get_preferences v session) = false

module _ (parse : ℕ → Option ℕ) (party : OcpiParty) (send : Dispatch → CommandOutcome)
    (timeout : ℕ) where
  reads_unchanged :
      (q : OcpiRequest) (c : Context) (s : OcpiState)
      → is_read q ≡ true
      → (respond parse party send timeout q c s).1 ≡ s
  unfolding respond
  reads_unchanged get_versions c s h = refl
  reads_unchanged (post_credentials v token) c s h = ground (arith, h)
  reads_unchanged get_locations_v211 c s h = refl
  reads_unchanged (get_one_location v id) c s h = refl
  reads_unchanged (get_tariffs v) c s h = refl
  reads_unchanged (get_one_tariff v id) c s h = refl
  reads_unchanged (write_token_v211 id) c s h = refl
  reads_unchanged (write_session_v211 id) c s h = refl
  reads_unchanged (put_charging_profile v p) c s h = ground (arith, h)
  reads_unchanged (get_charging_profile v session) c s h = refl
  reads_unchanged (post_start_session v location tenant token connector) c s h = ground (arith, h)
  reads_unchanged (post_stop_session v session tenant) c s h = ground (arith, h)
  reads_unchanged (post_reserve_now v location tenant token expiry reservation connector) c s h =
      ground (arith, h)
  reads_unchanged (post_unlock_connector v location tenant connector) c s h = ground (arith, h)
  reads_unchanged (post_cancel_reservation v location tenant reservation) c s h = ground (arith, h)
  reads_unchanged (put_charging_preferences v p) c s h = ground (arith, h)
  reads_unchanged (get_preferences v session) c s h = refl

  -- A request of the shim reads, or is a write that is rejected.
  shim_reads_or_rejects :
      (q : OcpiRequest) (c : Context) (s : OcpiState)
      → is_shim q ≡ true
      → is_read q ≡ false
      → respond parse party send timeout q c s ≡ (write_rejected, s)
  unfolding respond
  shim_reads_or_rejects get_versions c s h k = ground (arith, h)
  shim_reads_or_rejects (post_credentials v token) c s h k = ground (arith, h)
  shim_reads_or_rejects get_locations_v211 c s h k = ground (arith, k)
  shim_reads_or_rejects (get_one_location v id) c s h k = ground (arith, k)
  shim_reads_or_rejects (get_tariffs v) c s h k = ground (arith, k)
  shim_reads_or_rejects (get_one_tariff v id) c s h k = ground (arith, k)
  shim_reads_or_rejects (write_token_v211 id) c s h k = refl
  shim_reads_or_rejects (write_session_v211 id) c s h k = refl
  shim_reads_or_rejects (put_charging_profile v p) c s h k = ground (arith, h)
  shim_reads_or_rejects (get_charging_profile v session) c s h k = ground (arith, h)
  shim_reads_or_rejects (post_start_session v location tenant token connector) c s h k =
      ground (arith, h)
  shim_reads_or_rejects (post_stop_session v session tenant) c s h k = ground (arith, h)
  shim_reads_or_rejects (post_reserve_now v location tenant token expiry reservation connector) c s
        h k =
      ground (arith, h)
  shim_reads_or_rejects (post_unlock_connector v location tenant connector) c s h k =
      ground (arith, h)
  shim_reads_or_rejects (post_cancel_reservation v location tenant reservation) c s h k =
      ground (arith, h)
  shim_reads_or_rejects (put_charging_preferences v p) c s h k = ground (arith, h)
  shim_reads_or_rejects (get_preferences v session) c s h k = ground (arith, h)

  -- Over the routes of the partners, a GET request changes nothing of what the backend keeps, in any
  -- version, and the 2.1.1 shim is read-only: a request to it is a GET, or it is answered with 405 and
  -- changes nothing.
  pub shim_read_only :
      (q : OcpiRequest) (c : Context) (s : OcpiState)
      → (is_read q ≡ true → (respond parse party send timeout q c s).1 ≡ s)
        × (is_shim q ≡ true
            → (is_read q ≡ true)
              ⊎ (((respond parse party send timeout q c s).0.http ≡ 405)
                  × ((respond parse party send timeout q c s).1 ≡ s)))
  shim_read_only q c s = (
    reads_unchanged q c s,
    λ h. elim (Bool-cases (is_read q)) [
      | inl k ↦ inl k
      | inr k ↦
          let e = shim_reads_or_rejects q c s h k in inr (ap (λ r. r.0.http) e, ap (λ r. r.1) e)
    ],
  )

  -- A tariff that an operator has created is served at once, in every version, with its price
  -- components in their order, the prices as they were given.
  pub created_tariff_served :
      (v : Served) (id raw tenant name : ℕ) (cs : List TariffComponent) (c : Context)
      (s : OcpiState) {t : Tariff}
      → parse raw ≡ some id
      → (create_tariff id tenant name cs s.tariffs).0 ≡ ok t
      → let s' : OcpiState = record s { tariffs = (create_tariff id tenant name cs s.tariffs).1 } in
        (respond parse party send timeout (get_one_tariff v raw) c s'
          ≡ (answer_ok (tariff_body v (to_ocpi_tariff party c.now t)), s'))
        × ((to_ocpi_tariff party c.now t).elements
            ≡ record { price_components = map to_price_component cs } ∷ [])
  unfolding respond get_ocpi_tariff to_ocpi_tariff create_tariff
  created_tariff_served v id raw tenant name cs c s {t = t} read created =
      let n = new_tariff id tenant name cs s.tariffs in
      let stored = lookup-insert_self id n s.tariffs.tariffs in
      elim (Result-cases (validate_tariff_components cs)) [
        | inl (e, f) ↦ ground (arith, f, created)
        | inr (u, f) ↦
            let same : n ≡ t = ground (arith, f, created) in
            subst
              (λ x.
                (respond parse party send timeout (get_one_tariff v raw) c
                    (record s { tariffs = (create_tariff id tenant name cs s.tariffs).1 })
                  ≡ (
                    answer_ok (tariff_body v (to_ocpi_tariff party c.now x)),
                    record s { tariffs = (create_tariff id tenant name cs s.tariffs).1 },
                  ))
                × ((to_ocpi_tariff party c.now x).elements
                    ≡ record { price_components = map to_price_component cs } ∷ []))
              same (rw (read, f, respond, get_ocpi_tariff, create_tariff, stored) refl, refl)
      ]
