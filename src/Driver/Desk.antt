-- ===== src/Driver/Desk.antt =====
-- backend/src/evagg/driver_app/rewards_router.py and reservation_router.py: a driver's routes to the points
-- and the reservations. `parse` is the UUID parser, of a request whose driver is a text.
use evaggregator.Driver.Reservations.{
  Reservation, ReservationError, Reservations, cancel_own, list_for_driver, reservation_failed,
  reservation_not_found, reserve_charger,
}
use evaggregator.Driver.Rewards.{
  RewardCatalogItem, RewardsError, RewardsStore, get_balance, insufficient_points, redeem,
  reward_catalog, unknown_reward,
}
use evaggregator.Gateway.AccessTokens.{DriverIdentity}
use evaggregator.Roaming.Commands.{Fresh}
use evaggregator.Ocpp.Commands.{CommandOutcome, Dispatch}
use evaggregator.Ocpp.Presence.{PresenceRegistry}
use evaggregator.Base.{List, Option, Result, err, none, ok, some, ℕ}
use evaggregator.Base.Int.{ℤ}

pub data RewardsAnswer : Type 0 where
  balance_answer : ℤ → List RewardCatalogItem → RewardsAnswer
  redeemed_answer : ℤ → RewardsAnswer
  -- 404, 400, and what no handler catches
  reward_missing points_missing server_error : RewardsAnswer

unfoldable pub get_rewards : ℕ → RewardsStore → RewardsAnswer
get_rewards driver s = balance_answer (get_balance driver s) reward_catalog

abbrev pub redeemed : Result RewardsError ℤ × RewardsStore → RewardsAnswer × RewardsStore
redeemed (ok balance, s) = (redeemed_answer balance, s)
redeemed (err unknown_reward, s) = (reward_missing, s)
redeemed (err insufficient_points, s) = (points_missing, s)

unfoldable pub post_redeem : (ℕ → Option ℕ) → ℕ → ℕ → RewardsStore → RewardsAnswer × RewardsStore
post_redeem parse driver reward s = elim (parse driver) [
  | none ↦ (server_error, s)
  | some d ↦ redeemed (redeem d reward s)
]

pub data ReservationAnswer : Type 0 where
  reservations_answer : List Reservation → ReservationAnswer
  reservation_answer : Reservation → ReservationAnswer
  -- 204, 404 and 400
  cancelled_answer reservation_missing reservation_refused : ReservationAnswer

unfoldable pub get_reservations : DriverIdentity → Reservations → ReservationAnswer
get_reservations i s = reservations_answer (list_for_driver i.driver_id s)

-- A new reservation cannot be missing.
abbrev pub made :
    Result ReservationError Reservation × Reservations → ReservationAnswer × Reservations
made (ok r, s) = (reservation_answer r, s)
made (err reservation_failed, s) = (reservation_refused, s)
made (err reservation_not_found, s) = (reservation_refused, s)

abbrev pub dropped :
    Result ReservationError (Unit {0}) × Reservations → ReservationAnswer × Reservations
dropped (ok u, s) = (cancelled_answer, s)
dropped (err reservation_failed, s) = (reservation_refused, s)
dropped (err reservation_not_found, s) = (reservation_missing, s)

module _ (send : Dispatch → CommandOutcome) (timeout : ℕ) (presence : PresenceRegistry) where
  -- id, charger, connector and end of the reservation
  unfoldable pub post_reservation :
      DriverIdentity → Fresh → ℕ → ℕ → ℕ → ℕ → Reservations → ReservationAnswer × Reservations
  post_reservation i f id charger connector expires s = made (
      reserve_charger send timeout presence f
        (record {
          reservation_id = id;
          charger_id = charger;
          connector_id = connector;
          expires_at = expires;
          driver_id = i.driver_id;
          tenant_id = i.tenant_id;
        })
        s)

  unfoldable pub delete_reservation :
      DriverIdentity → Fresh → ℕ → Reservations → ReservationAnswer × Reservations
  delete_reservation i f id s =
      dropped (cancel_own send timeout presence f id i.driver_id i.tenant_id s)
