-- ===== src/Roaming/Routes.antt =====
-- backend/src/evagg/ocpi/router.py: the routes that partners call. A request stands for its method, its
-- path and its decoded body, and an answer for its HTTP status and what the body is made from. Fresh
-- ids, the clock and the token of a handshake are arguments.
pub mod Reading
use evaggregator.Roaming.Partners.{
  OcpiError, PartnerRegistry, Version, missing_partner, negotiate_credentials, unknown_token,
  unsupported_version, v211, v221, v230,
}
use evaggregator.Roaming.Domain.{OcpiLocation, OcpiTariff}
use evaggregator.Roaming.Errors.{
  OcpiErrorCode, generic_server_error, http_status_of, unknown_location_code, unknown_tariff_code,
  unknown_token_code, unsupported_version_code,
}
use evaggregator.Roaming.Tariffs.{OcpiParty, get_ocpi_tariff, list_ocpi_tariffs}
use evaggregator.Roaming.Locations.{LocationRepository, get_location, list_locations}
use evaggregator.Roaming.Wire.V211.{LocationV211, TariffV211, location_to_v211, tariff_to_v211}
use evaggregator.Roaming.Wire.V221.{LocationV221, TariffV221, location_to_v221, tariff_to_v221}
use evaggregator.Roaming.Wire.V230.{LocationV230, TariffV230, location_to_v230, tariff_to_v230}
use evaggregator.Roaming.Profiles.{
  ActiveChargingProfile, ActiveProfiles, ProfileStatus, get_active_profile, profile_accepted,
  profile_raised, profile_rejected, profile_unknown_session, set_profile,
}
use evaggregator.Roaming.Commands.{
  Fresh, OcpiCommandResult, cancel_reservation, reserve_now, start_session, stop_session,
  unlock_connector,
}
use evaggregator.Roaming.Preferences.{
  ChargingPreferences, PreferencesStatus, PreferencesStore, get_charging_preferences,
  set_charging_preferences,
}
use evaggregator.Roaming.Bindings.{SessionChargerMap}
use evaggregator.Ocpp.Commands.{Capacities, CommandLogStore, CommandOutcome, Dispatch}
use evaggregator.Ocpp.Presence.{PresenceRegistry}
use evaggregator.Ocpp.Transactions.{TransactionRepository}
use evaggregator.Billing.Tariffs.{TariffService}
use evaggregator.Base.{List, Option, Result, [], err, map, none, ok, some, ℕ, ◌∷◌}

-- The versions that locations and tariffs are served in, and those of the other modules.
pub data Served : Type 0 where
  served_211 served_221 served_230 : Served

pub data Later : Type 0 where
  later_221 later_230 : Later

pub data OcpiRequest : Type 0 where
  get_versions : OcpiRequest
  post_credentials : Version → ℕ → OcpiRequest
  get_locations_v211 : OcpiRequest
  get_one_location : Served → ℕ → OcpiRequest
  get_tariffs : Served → OcpiRequest
  get_one_tariff : Served → ℕ → OcpiRequest
  write_token_v211 write_session_v211 : ℕ → OcpiRequest
  put_charging_profile : Later → ActiveChargingProfile → OcpiRequest
  get_charging_profile : Later → ℕ → OcpiRequest
  -- location, tenant, token and connector
  post_start_session : Later → ℕ → ℕ → ℕ → ℕ → OcpiRequest
  -- session and tenant
  post_stop_session : Later → ℕ → ℕ → OcpiRequest
  -- location, tenant, token, expiry, reservation and connector
  post_reserve_now : Later → ℕ → ℕ → ℕ → ℕ → ℕ → ℕ → OcpiRequest
  -- location, tenant and connector
  post_unlock_connector : Later → ℕ → ℕ → ℕ → OcpiRequest
  -- location, tenant and reservation
  post_cancel_reservation : Later → ℕ → ℕ → ℕ → OcpiRequest
  put_charging_preferences : Later → ChargingPreferences → OcpiRequest
  get_preferences : Later → ℕ → OcpiRequest

pub data Body : Type 0 where
  versions_body : List Version → Body
  credentials_body : ℕ → Version → Body
  location_body_211 : LocationV211 → Body
  location_body_221 : LocationV221 → Body
  location_body_230 : LocationV230 → Body
  locations_body_211 : List LocationV211 → Body
  tariff_body_211 : TariffV211 → Body
  tariff_body_221 : TariffV221 → Body
  tariff_body_230 : TariffV230 → Body
  tariffs_body_211 : List TariffV211 → Body
  tariffs_body_221 : List TariffV221 → Body
  tariffs_body_230 : List TariffV230 → Body
  profile_result : ProfileStatus → Body
  profile_body : ProfileStatus → Option ActiveChargingProfile → Body
  command_body : OcpiCommandResult → Body
  preferences_result : PreferencesStatus → Body
  preferences_body : Option ChargingPreferences → Body
  error_body : OcpiErrorCode → Body
  -- the answer to an exception that no handler is registered for
  server_error : Body

pub record Answer : Type 0 where
  pub http : ℕ
  pub body : Body

pub record OcpiState : Type 0 where
  pub partners : PartnerRegistry
  pub locations : LocationRepository
  pub tariffs : TariffService
  pub bindings : SessionChargerMap
  pub profiles : ActiveProfiles
  pub preferences : PreferencesStore
  pub log : CommandLogStore

-- What a request reads besides.
pub record Context : Type 0 where
  pub now : ℕ
  pub token_c : ℕ
  pub fresh : Fresh
  pub presence : PresenceRegistry
  pub capacities : Capacities
  pub transactions : TransactionRepository

abbrev pub answer_ok : Body → Answer
answer_ok b = record { http = 200; body = b }

-- `register_ocpi_exception_handlers`
abbrev pub answer_error : OcpiErrorCode → Answer
answer_error c = record { http = http_status_of c; body = error_body c }

abbrev pub code_of : OcpiError → Option OcpiErrorCode
code_of unsupported_version = some unsupported_version_code
code_of unknown_token = some unknown_token_code
code_of missing_partner = none

abbrev pub answer_raised : Option OcpiErrorCode → Answer
answer_raised none = record { http = 500; body = server_error }
answer_raised (some c) = answer_error c

abbrev pub credentials_answer : Version → Result OcpiError ℕ → Answer
credentials_answer v (err e) = answer_raised (code_of e)
credentials_answer v (ok token) = answer_ok (credentials_body token v)

-- A profile whose limits `int` refuses raises.
abbrev pub profile_answer : ProfileStatus → Answer
profile_answer profile_accepted = answer_ok (profile_result profile_accepted)
profile_answer profile_rejected = answer_ok (profile_result profile_rejected)
profile_answer profile_unknown_session = answer_ok (profile_result profile_unknown_session)
profile_answer profile_raised = record { http = 500; body = server_error }

unfoldable pub location_body : Served → OcpiLocation → Body
location_body served_211 l = location_body_211 (location_to_v211 l)
location_body served_221 l = location_body_221 (location_to_v221 l)
location_body served_230 l = location_body_230 (location_to_v230 l)

unfoldable pub tariff_body : Served → OcpiTariff → Body
tariff_body served_211 t = tariff_body_211 (tariff_to_v211 t)
tariff_body served_221 t = tariff_body_221 (tariff_to_v221 t)
tariff_body served_230 t = tariff_body_230 (tariff_to_v230 t)

unfoldable pub tariffs_body : Served → List OcpiTariff → Body
tariffs_body served_211 ts = tariffs_body_211 (map tariff_to_v211 ts)
tariffs_body served_221 ts = tariffs_body_221 (map tariff_to_v221 ts)
tariffs_body served_230 ts = tariffs_body_230 (map tariff_to_v230 ts)

abbrev pub location_answer : Served → Option OcpiLocation → Answer
location_answer v none = answer_error unknown_location_code
location_answer v (some l) = answer_ok (location_body v l)

abbrev pub tariff_answer : Served → Option OcpiTariff → Answer
tariff_answer v none = answer_error unknown_tariff_code
tariff_answer v (some t) = answer_ok (tariff_body v t)

-- The 2.1.1 shim is read-only.
abbrev pub write_rejected : Answer
write_rejected = record { http = 405; body = error_body generic_server_error }

abbrev pub supported_versions : List Version
supported_versions = v211 ∷ v221 ∷ v230 ∷ []

-- `parse` is the UUID parser, `send` the transport of commands with its default `timeout`.
module _ (parse : ℕ → Option ℕ) (party : OcpiParty) (send : Dispatch → CommandOutcome)
    (timeout : ℕ) where
  abbrev pub with_log : OcpiState → OcpiCommandResult × CommandLogStore → Answer × OcpiState
  with_log s (r, l) = (answer_ok (command_body r), record s { log = l })

  unfoldable pub respond : OcpiRequest → Context → OcpiState → Answer × OcpiState
  unfolding location_body tariff_body tariffs_body
  respond get_versions c s = (answer_ok (versions_body supported_versions), s)
  respond (post_credentials v token) c s =
      let (r, partners') = negotiate_credentials token v c.token_c c.now s.partners in
      (credentials_answer v r, record s { partners = partners' })
  respond get_locations_v211 c s =
      (answer_ok (locations_body_211 (map location_to_v211 (list_locations s.locations))), s)
  respond (get_one_location v id) c s = (location_answer v (get_location id s.locations), s)
  respond (get_tariffs v) c s =
      (answer_ok (tariffs_body v (list_ocpi_tariffs party c.now s.tariffs)), s)
  respond (get_one_tariff v id) c s =
      (tariff_answer v (get_ocpi_tariff parse party c.now id s.tariffs), s)
  respond (write_token_v211 id) c s = (write_rejected, s)
  respond (write_session_v211 id) c s = (write_rejected, s)
  respond (put_charging_profile v p) c s =
      let (r, (profiles', log')) =
        set_profile send timeout c.presence c.capacities c.fresh p s.bindings (s.profiles, s.log) in
      (profile_answer r, record s { profiles = profiles'; log = log' })
  respond (get_charging_profile v session) c s =
      let (r, p) = get_active_profile session s.bindings s.profiles in
      (answer_ok (profile_body r p), s)
  respond (post_start_session v location tenant token connector) c s =
      let (r, (bindings', log')) =
        start_session send timeout c.presence c.fresh location tenant token connector
          (s.bindings, s.log) in
      (answer_ok (command_body r), record s { bindings = bindings'; log = log' })
  respond (post_stop_session v session tenant) c s =
      with_log s (
        stop_session send timeout c.presence c.fresh session tenant s.bindings c.transactions s.log)
  respond (post_reserve_now v location tenant token expiry reservation connector) c s = with_log s (
      reserve_now send timeout c.presence c.fresh location tenant token expiry reservation connector
        s.log)
  respond (post_unlock_connector v location tenant connector) c s =
      with_log s (unlock_connector send timeout c.presence c.fresh location tenant connector s.log)
  respond (post_cancel_reservation v location tenant reservation) c s =
      with_log s
        (cancel_reservation send timeout c.presence c.fresh location tenant reservation s.log)
  respond (put_charging_preferences v p) c s =
      let (r, preferences') = set_charging_preferences p s.bindings s.preferences in
      (answer_ok (preferences_result r), record s { preferences = preferences' })
  respond (get_preferences v session) c s =
      (answer_ok (preferences_body (get_charging_preferences session s.preferences)), s)
