-- ===== src/Driver/Reservations.antt =====
-- backend/src/evagg/driver_app/reservations.py: a driver reserves a charger and cancels that.
pub mod Ownership
use evaggregator.Driver.Tags.{driver_tag, tag_number}
use evaggregator.Roaming.Commands.{
  Fresh, OcpiCommandResult, OcpiCommandStatus, cancel_reservation, denied, granted, reserve_now,
  unknown_session,
}
use evaggregator.Ocpp.Commands.{CommandLogStore, CommandOutcome, Dispatch}
use evaggregator.Ocpp.Presence.{PresenceRegistry}
use evaggregator.Base.{
  Bool, Exec, List, Option, Result, err, false, filter_by, if◌then◌else◌, nat_eq, none, ok, some,
  true, ℕ, ◌==◌,
}
use evaggregator.Base.Dict.{Dict, erase, insert, lookup, values}

pub record Reservation : Type 0 where
  pub id : ℕ
  pub charger_id : ℕ
  pub connector_id : ℕ
  pub expires_at : ℕ

pub data ReservationError : Type 0 where
  reservation_failed reservation_not_found : ReservationError

pub record Reservations : Type 0 where
  pub owner : Dict ℕ ℕ
  pub reservations : Dict ℕ Reservation
  pub command_log : CommandLogStore

pub record ReserveRequest : Type 0 where
  pub reservation_id : ℕ
  pub charger_id : ℕ
  pub connector_id : ℕ
  pub expires_at : ℕ
  pub driver_id : ℕ
  pub tenant_id : ℕ

abbrev pub reservation_of : ReserveRequest → Reservation
reservation_of q = record {
  id = q.reservation_id;
  charger_id = q.charger_id;
  connector_id = q.connector_id;
  expires_at = q.expires_at;
}

abbrev pub is_granted : OcpiCommandStatus → Bool
is_granted s = elim s [ granted ↦ true | denied ↦ false | unknown_session ↦ false ]

abbrev pub belongs_to : ℕ → Option ℕ → Bool
belongs_to driver none = false
belongs_to driver (some d) = d == driver

pub list_for_driver : ℕ → Reservations → List Reservation
list_for_driver driver s =
    filter_by (λ r. belongs_to driver (lookup r.id s.owner)) (values s.reservations)

abbrev pub reserved :
    ReserveRequest
    → OcpiCommandResult
    → Reservations
    → Result ReservationError Reservation × Reservations
reserved q r s =
    if is_granted r.status
    then (
      ok (reservation_of q),
      record s {
        owner = insert q.reservation_id q.driver_id s.owner;
        reservations = insert q.reservation_id (reservation_of q) s.reservations;
      },
    )
    else (err reservation_failed, s)

abbrev pub cancelled :
    ℕ → OcpiCommandResult → Reservations → Result ReservationError (Unit {0}) × Reservations
cancelled id r s =
    if is_granted r.status
    then (ok tt, record s { owner = erase id s.owner; reservations = erase id s.reservations })
    else (err reservation_failed, s)

module _ (send : Dispatch → CommandOutcome) (timeout : ℕ) (presence : PresenceRegistry) where
  pub reserve_charger : Fresh → ReserveRequest → Exec ReservationError Reservations Reservation
  reserve_charger f q s =
      let (r, l) =
        reserve_now send timeout presence f q.charger_id q.tenant_id
          (tag_number (driver_tag q.driver_id)) q.expires_at q.reservation_id q.connector_id
          s.command_log in
      reserved q r (record s { command_log = l })

  abbrev pub cancel_at :
      Fresh → ℕ → ℕ → Option Reservation → Exec ReservationError Reservations (Unit {0})
  cancel_at f id tenant none s = (err reservation_not_found, s)
  cancel_at f id tenant (some x) s =
      let (r, l) =
        cancel_reservation send timeout presence f x.charger_id tenant id s.command_log in
      cancelled id r (record s { command_log = l })

  pub cancel_own : Fresh → ℕ → ℕ → ℕ → Exec ReservationError Reservations (Unit {0})
  cancel_own f id driver tenant s =
      if belongs_to driver (lookup id s.owner)
      then cancel_at f id tenant (lookup id s.reservations) s
      else (err reservation_not_found, s)
