-- ===== src/Driver/Sessions/Endings.antt =====
-- Who can end a session, and what that gives.
use evaggregator.Driver.Sessions.{
  CompletedSession, DriverSessions, Estimate, SessionStartError, completed_session, ended,
  owned_binding, session_not_found, stop_own_session,
}
use evaggregator.Driver.Rewards.{award_for_completed_session}
use evaggregator.Roaming.Commands.{Fresh, command_accepted, command_of, remote_stop}
use evaggregator.Ocpp.Commands.{CommandError, CommandOutcome, CommandResult, Dispatch, send_command}
use evaggregator.Ocpp.Presence.{PresenceRegistry}
use evaggregator.Ocpp.Transactions.{
  ActiveTransaction, TransactionRepository, get_active_transaction,
}
use evaggregator.Base.{
  Bool, Bool-cases, List, Option-cases, Result, [], arith, err, false, if◌then◌else◌, inl, inr,
  nat_eq, none, ok, refl, some, true, ℕ, ◌++◌, ◌+◌, ◌==◌, ◌∷◌, ◌≡◌, ◌≢◌,
}
use evaggregator.Base.Dict.{beq_refl, lookup}

-- Whether a call returned.
abbrev pub succeeded : {A : Type 0} → Result SessionStartError A → Bool
succeeded (ok a) = true
succeeded (err e) = false

-- The driver's completed sessions in a history.
abbrev pub completions : ℕ → List CompletedSession → ℕ
completions driver [] = 0
completions driver (c ∷ cs) = (if c.driver_id == driver then 1 else 0) + completions driver cs

completions-append :
    (driver : ℕ) (a b : List CompletedSession)
    → completions driver (a ++ b) ≡ completions driver a + completions driver b
completions-append driver [] b = omega arith
completions-append driver (c ∷ a) b = omega (arith, completions-append driver a b)

-- The rewards and the history after a call that returned, or not.
abbrev pub RewardsMatch : ℕ → Bool → DriverSessions → DriverSessions → Type 0
RewardsMatch driver went s s' =
    (s'.rewards ≡ (if went then (award_for_completed_session driver s.rewards).1 else s.rewards))
    × (completions driver s'.history ≡ completions driver s.history + (if went then 1 else 0))

ended-match :
    (c : CompletedSession) (r : Result CommandError CommandResult) (s : DriverSessions)
    → RewardsMatch c.driver_id (succeeded (ended c r s).0) s (ended c r s).1
ended-match c (err e) s = (refl, omega arith)
ended-match c (ok r) s = elim (Bool-cases (command_accepted r.status)) [
  | inl y ↦ ground (arith, completions-append c.driver_id s.history (c ∷ []), beq_refl c.driver_id)
  | inr n ↦ ground arith
]

unowned :
    (session driver : ℕ) (s : DriverSessions)
    → lookup session s.owner ≢ some driver
    → owned_binding session driver s ≡ none
unfolding owned_binding
unowned session driver s h = elim (Option-cases (lookup session s.owner)) [
  | inl e ↦ ground arith
  | inr (d, e) ↦ ground arith
]

-- A stop by a driver who did not start the session, or of a session that there is not, raises the same
-- error and changes nothing. A stop awards the driver the points of one session and adds one session
-- to the driver's history if it returns, and neither if it raises.
pub stop-rewards :
    (send : Dispatch → CommandOutcome) (timeout : ℕ) (presence : PresenceRegistry)
    (estimate : ActiveTransaction → ℕ → Estimate) (f : Fresh) (session driver tenant : ℕ)
    (t : TransactionRepository) (s : DriverSessions)
    → (lookup session s.owner ≢ some driver
        → stop_own_session send timeout presence estimate f session driver tenant t s
          ≡ (err session_not_found, s))
      × RewardsMatch driver
          (succeeded
            (stop_own_session send timeout presence estimate f session driver tenant t s).0)
          s
          (stop_own_session send timeout presence estimate f session driver tenant t s).1
unfolding stop_own_session
stop-rewards send timeout presence estimate f session driver tenant t s =
    elim (Option-cases (owned_binding session driver s)) [
      | inl n ↦ (λ h. rw (n, stop_own_session) refl, rw (n, stop_own_session) (refl, omega arith))
      | inr (b, e) ↦ (
        λ h. ground (arith, unowned session driver s h),
        elim (Option-cases (get_active_transaction b.charger_id t)) [
          | inl n ↦ rw (e, n, stop_own_session) (refl, omega arith)
          | inr (x, a) ↦
              let answer =
                send_command send timeout (command_of f b.charger_id tenant remote_stop (x.id ∷ []))
                  presence s.command_log in
              rw (e, a, stop_own_session)
                (ended-match
                  (completed_session session driver b.charger_id x f.now (estimate x f.now))
                  answer.0 (record s { command_log = answer.1 }))
        ],
      )
    ]
