-- ===== src/Driver/Starting/Calls.antt =====
-- What becomes of a call that a request is entitled to.
-- The call that a driver is entitled to, in each of the four ways.
use evaggregator.Driver.Starting.{StartAnswer, StartContext, http_of, start_answer, started_session}
use evaggregator.Driver.Sessions.{
  AuthMethod, DriverSessions, StartCall, autocharge, connector_payload, dispatch_remote_start,
  or_one, start_result,
}
use evaggregator.Driver.Tags.{driver_tag, mac_tag}
use evaggregator.Roaming.Commands.{Fresh, command_accepted, command_of, remote_start}
use evaggregator.Ocpp.Commands.{
  CommandError, CommandLogStore, CommandOutcome, CommandResult, CommandStatus, Dispatch, accepted,
  awaiting, rejected, send_command, timed_out,
}
use evaggregator.Roaming.Bindings.{set_binding}
use evaggregator.Base.{
  Bool-cases, Option, Result, Result-cases, arith, false, inl, inr, nat_eq, none, ok, refl, true, ℕ,
  ◌==◌, ◌≡◌, ◌⊎◌,
}
use evaggregator.Base.Dict.{insert}

abbrev pub own_call : ℕ → ℕ → ℕ → Option ℕ → AuthMethod → StartCall
own_call driver tenant charger connector method = record {
  driver_id = driver;
  tenant_id = tenant;
  charger_id = charger;
  connector_id = connector;
  id_tag = driver_tag driver;
  auth_method = method;
}

abbrev pub mac_call : ℕ → ℕ → ℕ → ℕ → StartCall
mac_call address driver tenant charger = record {
  driver_id = driver;
  tenant_id = tenant;
  charger_id = charger;
  connector_id = none;
  id_tag = mac_tag address;
  auth_method = autocharge;
}

-- The call has gone to the charger, and the charger has accepted it; or not.
abbrev pub CommandOf :
    (Dispatch → CommandOutcome)
    → ℕ
    → StartContext
    → CommandLogStore
    → StartCall
    → Result CommandError CommandResult
CommandOf send timeout c l q =
    (send_command send timeout
      (command_of c.fresh q.charger_id q.tenant_id remote_start
        (connector_payload q.id_tag q.connector_id))
      c.presence l).0

abbrev pub HasAccepted : Result CommandError CommandResult → Type 0
HasAccepted r = (x : CommandResult) × (r ≡ ok x) × (x.status ≡ accepted)

-- The session that a call starts: under the fresh id, of the call's driver, on its charger.
abbrev pub Started :
    Fresh → StartCall → Option ℕ → DriverSessions → StartAnswer × DriverSessions → Type 0
Started f q payment s (a, s') =
    (a ≡ started_session (start_result f q payment))
    × (s'.owner ≡ insert f.session_id q.driver_id s.owner)
    × (s'.bindings
        ≡ insert f.session_id
            (record {
              charger_id = q.charger_id;
              tenant_id = q.tenant_id;
              connector_id = or_one q.connector_id;
            })
            s.bindings)

abbrev pub NotStarted : DriverSessions → StartAnswer × DriverSessions → Type 0
NotStarted s (a, s') =
    ((http_of a == 200) ≡ false) × (s'.owner ≡ s.owner) × (s'.bindings ≡ s.bindings)

accepted-eq : (x : CommandStatus) → command_accepted x ≡ true → x ≡ accepted
accepted-eq awaiting h = ground (arith, h)
accepted-eq accepted h = refl
accepted-eq rejected h = ground (arith, h)
accepted-eq timed_out h = ground (arith, h)

module _ (send : Dispatch → CommandOutcome) (timeout : ℕ) (payment_of : ℕ → Option ℕ) where
  -- A call that a request is entitled to starts a session exactly if the charger accepts it.
  abbrev pub Dispatched :
      StartContext → StartCall → DriverSessions → StartAnswer × DriverSessions → Type 0
  Dispatched c q s o =
      (HasAccepted (CommandOf send timeout c s.command_log q)
        × Started c.fresh q (payment_of q.driver_id) s o)
      ⊎ ((¬ HasAccepted (CommandOf send timeout c s.command_log q)) × NotStarted s o)

  pub dispatch-Dispatched :
      (c : StartContext) (q : StartCall) (s : DriverSessions)
      → Dispatched c q s
          (start_answer (dispatch_remote_start send timeout c.presence payment_of c.fresh q s))
  unfolding dispatch_remote_start http_of set_binding
  dispatch-Dispatched c q s = elim (Result-cases (CommandOf send timeout c s.command_log q)) [
    | inl (e, r) ↦
        rw (r, dispatch_remote_start) (inr (λ h. ground (arith, h.1), (refl, refl, refl)))
    | inr (x, r) ↦ elim (Bool-cases (command_accepted x.status)) [
      | inl a ↦
          rw (r, a, dispatch_remote_start)
            (inl ((x, refl, accepted-eq x.status a), (refl, refl, refl)))
      | inr a ↦
          rw (r, a, dispatch_remote_start)
            (inr (λ h. ground (arith, a, h.1, h.2), (refl, refl, refl)))
    ]
  ]
