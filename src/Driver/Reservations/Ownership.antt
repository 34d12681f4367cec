-- ===== src/Driver/Reservations/Ownership.antt =====
-- Only its driver can cancel a reservation.
use evaggregator.Driver.Reservations.{
  Reservations, belongs_to, cancel_own, cancelled, reservation_not_found,
}
use evaggregator.Roaming.Commands.{Fresh, OcpiCommandResult, cancel_reservation}
use evaggregator.Ocpp.Commands.{CommandOutcome, Dispatch}
use evaggregator.Ocpp.Presence.{PresenceRegistry}
use evaggregator.Base.{
  Bool-cases, Option-cases, arith, err, inl, inr, nat_eq, refl, some, ℕ, ◌≡◌, ◌≢◌,
}
use evaggregator.Base.Dict.{lookup, lookup-erase}

cancelled-lookup :
    (id other : ℕ) (r : OcpiCommandResult) (s : Reservations)
    → id ≢ other
    → lookup other (cancelled id r s).1.reservations ≡ lookup other s.reservations
cancelled-lookup id other r s apart = ground (arith, lookup-erase id other s.reservations)

-- Cancelling a reservation that the driver does not own, or that there is not, raises the same error
-- and changes nothing, the command log included. Cancelling any reservation leaves all others as they
-- were.
pub cancel_only_own :
    (send : Dispatch → CommandOutcome) (timeout : ℕ) (presence : PresenceRegistry) (f : Fresh)
    (id driver tenant : ℕ) (s : Reservations)
    → (lookup id s.owner ≢ some driver
        → cancel_own send timeout presence f id driver tenant s ≡ (err reservation_not_found, s))
      × ((other : ℕ)
          → id ≢ other
          → lookup other (cancel_own send timeout presence f id driver tenant s).1.reservations
            ≡ lookup other s.reservations)
unfolding cancel_own
cancel_only_own send timeout presence f id driver tenant s =
    elim (Bool-cases (belongs_to driver (lookup id s.owner))) [
      | inr n ↦ (λ h. rw (n, cancel_own) refl, λ other apart. rw (n, cancel_own) refl)
      | inl y ↦ (
        λ h. elim (Option-cases (lookup id s.owner)) [
          | inl e ↦ ground arith
          | inr (d, e) ↦ ground arith
        ],
        λ other apart. elim (Option-cases (lookup id s.reservations)) [
          | inl e ↦ rw (y, e, cancel_own) refl
          | inr (x, e) ↦
              let r =
                cancel_reservation send timeout presence f x.charger_id tenant id s.command_log in
              rw (y, e, cancel_own)
                (cancelled-lookup id other r.0 (record s { command_log = r.1 }) apart)
        ],
      )
    ]
