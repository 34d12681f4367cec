-- ===== src/Ocpp/Commands/Logging.antt =====
-- What the command log holds after a command.
use evaggregator.Ocpp.Commands.{
  Capacities, CommandError, CommandLogRecord, CommandLogStore, CommandOutcome, CommandRequest,
  CommandResult, Dispatch, charger_offline, create, dispatch_of, dispatched, exceeds_capacity,
  get_max_power_watts, mark_responded, marked, offline_reply, pending_record, profile_request,
  refused_offline, rejected, reply_with, responded_record, send_command, send_set_charging_profile,
  sent,
}
use evaggregator.Ocpp.Presence.{
  Presence, PresenceRegistry, PresenceState, get_state, is_online, offline, online,
}
use evaggregator.Base.{
  Bool, Bool-cases, Option, Option-cases, Result, ap, arith, err, if◌then◌else◌, inl, inr, ltb,
  nat_eq, none, ok, refl, some, true, ℕ, ◌<◌, ◌==◌, ◌∙◌, ◌≡◌, ◌≤◌,
}
use evaggregator.Base.Dict.{insert, lookup, lookup-insert, lookup-insert_self}

-- What happens to a command: it is refused if its charger is not online, and the charger answers
-- otherwise.
abbrev pub outcome_of :
    (Dispatch → CommandOutcome) → ℕ → CommandRequest → Option PresenceState → CommandOutcome
outcome_of send timeout q none = record { status = rejected; reply = offline_reply }
outcome_of send timeout q (some p) = elim p.status [
  | offline ↦ record { status = rejected; reply = offline_reply }
  | online ↦ send (dispatch_of timeout p q)
]

abbrev pub logged : CommandRequest → CommandOutcome → CommandLogRecord
logged q o = responded_record o.status o.reply q.responded (pending_record q)

abbrev pub result_of : CommandRequest → Bool → CommandOutcome → Result CommandError CommandResult
result_of q up o =
    if up
    then ok (record { command_id = q.command_id; status = o.status; reply = o.reply })
    else err charger_offline

marked_log :
    (q : CommandRequest) (o : CommandOutcome) (r : Result CommandError CommandResult)
    (s : CommandLogStore)
    → marked q.command_id o.status o.reply q.responded r (create q s)
      ≡ (r, insert q.command_id (logged q o) (create q s))
unfolding create mark_responded
marked_log q o r s =
    let found : mark_responded q.command_id o.status o.reply q.responded (create q s)
        ≡ some (insert q.command_id (logged q o) (create q s)) =
      rw (lookup-insert_self q.command_id (pending_record q) s, mark_responded) refl in
    ap (λ m. reply_with m r (create q s)) found

lookup-logged :
    (q : CommandRequest) (o : CommandOutcome) (id : ℕ) (s : CommandLogStore)
    → lookup id (insert q.command_id (logged q o) (create q s))
      ≡ (if q.command_id == id then some (logged q o) else lookup id s)
unfolding create
lookup-logged q o id s = ground (
  arith,
  lookup-insert q.command_id id (logged q o) (create q s),
  lookup-insert q.command_id id (pending_record q) s,
)

sent-outcome :
    (send : Dispatch → CommandOutcome) (timeout : ℕ) (q : CommandRequest) (p : Option PresenceState)
    (s : CommandLogStore)
    → sent send timeout q p s ≡ (
      result_of q (is_online p) (outcome_of send timeout q p),
      insert q.command_id (logged q (outcome_of send timeout q p)) (create q s),
    )
unfolding sent refused_offline dispatched
sent-outcome send timeout q none s =
    marked_log q (record { status = rejected; reply = offline_reply }) (err charger_offline) s
sent-outcome send timeout q (some p) s = by_status p.status refl
  where
    by_status :
        (x : Presence)
        → p.status ≡ x
        → sent send timeout q (some p) s ≡ (
          result_of q (is_online (some p)) (outcome_of send timeout q (some p)),
          insert q.command_id (logged q (outcome_of send timeout q (some p))) (create q s),
        )
    by_status offline e =
        rw (e, sent)
          (marked_log q (record { status = rejected; reply = offline_reply }) (err charger_offline)
            s)
    by_status online e =
        rw (e, sent)
          (marked_log q (send (dispatch_of timeout p q))
            (result_of q true (send (dispatch_of timeout p q))) s)

send-outcome :
    (send : Dispatch → CommandOutcome) (timeout : ℕ) (q : CommandRequest)
    (presence : PresenceRegistry) (s : CommandLogStore)
    → send_command send timeout q presence s ≡ (
      result_of q
          (is_online (get_state q.charger_id presence))
          (outcome_of send timeout q (get_state q.charger_id presence)),
      insert q.command_id
          (logged q (outcome_of send timeout q (get_state q.charger_id presence)))
          (create q s),
    )
unfolding send_command
send-outcome send timeout q presence s =
    sent-outcome send timeout q (get_state q.charger_id presence) s

-- A command of any kind to any charger returns the transport's outcome if the charger is online and
-- raises if it is not; either way the log then has one entry for it, with its outcome (rejected, if
-- the charger was offline), and every other command's entry is as it was.
pub send-logged :
    (send : Dispatch → CommandOutcome) (timeout : ℕ) (q : CommandRequest)
    (presence : PresenceRegistry) (s : CommandLogStore)
    → ((send_command send timeout q presence s).0
        ≡ result_of q
            (is_online (get_state q.charger_id presence))
            (outcome_of send timeout q (get_state q.charger_id presence)))
      × ((id : ℕ)
          → lookup id (send_command send timeout q presence s).1 ≡ (
              if q.command_id == id
              then some (logged q (outcome_of send timeout q (get_state q.charger_id presence)))
              else lookup id s))
send-logged send timeout q presence s =
    let o = outcome_of send timeout q (get_state q.charger_id presence) in
    let e = send-outcome send timeout q presence s in
    (ap (λ x. x.0) e, λ id. ap (λ x. lookup id x.1) e ∙ lookup-logged q o id s)

-- A charging profile above the connector's known power is refused before anything is logged or sent;
-- any other one is sent as a command.
pub profile-capacity :
    (send : Dispatch → CommandOutcome) (timeout : ℕ) (q : CommandRequest) (connector watts : ℕ)
    (capacities : Capacities) (presence : PresenceRegistry) (s : CommandLogStore)
    → (((most : ℕ)
          → get_max_power_watts q.charger_id connector capacities ≡ some most
          → watts ≤ most)
        → send_set_charging_profile send timeout q connector watts capacities presence s
          ≡ send_command send timeout (profile_request q) presence s)
      × ((most : ℕ)
          → get_max_power_watts q.charger_id connector capacities ≡ some most
          → most < watts
          → send_set_charging_profile send timeout q connector watts capacities presence s
            ≡ (err exceeds_capacity, s))
unfolding send_set_charging_profile
profile-capacity send timeout q connector watts capacities presence s =
    elim (Option-cases (get_max_power_watts q.charger_id connector capacities)) [
      | inl n ↦ (λ h. rw (n, send_set_charging_profile) refl, λ most e over. cc)
      | inr (w, f) ↦ elim (Bool-cases (ltb w watts)) [
        | inl y ↦
            (λ h. ground (arith, h w f), λ most e over. rw (f, y, send_set_charging_profile) refl)
        | inr n ↦ (λ h. rw (f, n, send_set_charging_profile) refl, λ most e over. ground arith)
      ]
    ]
