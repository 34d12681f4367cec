-- ===== src/Roaming/Commands/Dispatches.antt =====
-- When a session is bound to a charger.
use evaggregator.Roaming.Commands.{
  Fresh, after_start, command_of, granted, remote_start, start_session,
}
use evaggregator.Roaming.Bindings.{SessionChargerMap, get_charger_for_session, set_binding}
use evaggregator.Ocpp.Commands.{
  CommandError, CommandLogStore, CommandOutcome, CommandResult, Dispatch, send_command,
}
use evaggregator.Ocpp.Presence.{PresenceRegistry}
use evaggregator.Base.{Result, [], arith, err, nat_eq, none, ok, some, ℕ, ◌↔◌, ◌∷◌, ◌≡◌}
use evaggregator.Base.Dict.{lookup-insert_self}

bound_if_granted :
    (f : Fresh) (charger tenant connector : ℕ) (r : Result CommandError CommandResult)
    (m : SessionChargerMap)
    → get_charger_for_session f.session_id m ≡ none
    → ((after_start f charger tenant connector r m).0.status ≡ granted) ↔ (
        get_charger_for_session f.session_id (after_start f charger tenant connector r m).1
        ≡ some (record { charger_id = charger; tenant_id = tenant; connector_id = connector }))
unfolding set_binding
bound_if_granted f charger tenant connector (err e) m fresh = ground arith
bound_if_granted f charger tenant connector (ok r) m fresh = ground (
  arith,
  fresh,
  lookup-insert_self f.session_id
      (record { charger_id = charger; tenant_id = tenant; connector_id = connector }) m,
)

-- A partner's start with a session id that is not in use is granted exactly if the session is bound
-- to the charger and the connector that were asked for afterwards.
pub start-binding :
    (send : Dispatch → CommandOutcome) (timeout : ℕ) (presence : PresenceRegistry) (f : Fresh)
    (location tenant token connector : ℕ) (m : SessionChargerMap) (l : CommandLogStore)
    → get_charger_for_session f.session_id m ≡ none
    → ((start_session send timeout presence f location tenant token connector (m, l)).0.status
        ≡ granted)
      ↔ (get_charger_for_session f.session_id
            (start_session send timeout presence f location tenant token connector (m, l)).1.0
          ≡ some (record { charger_id = location; tenant_id = tenant; connector_id = connector }))
unfolding start_session
start-binding send timeout presence f location tenant token connector m l fresh =
    bound_if_granted f location tenant connector
      (send_command send timeout
        (command_of f location tenant remote_start (token ∷ connector ∷ [])) presence l).0
      m fresh
