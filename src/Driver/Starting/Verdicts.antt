-- ===== src/Driver/Starting/Verdicts.antt =====
-- What a request to start a session leaves behind.
use evaggregator.Driver.Starting.{
  StartAnswer, StartContext, StartRequest, app_start, autocharge_start, certified, http_of,
  plug_and_charge_start, plugged, qr_start, qr_target, respond_start, scanned, start_answer,
  with_driver,
}
use evaggregator.Driver.Starting.Calls.{
  Dispatched, NotStarted, dispatch-Dispatched, mac_call, own_call,
}
use evaggregator.Driver.Sessions.{
  DriverSessions, StartCall, app, get_driver_id_for_mac, opted_in, plug_and_charge, qr,
  start_via_app, start_via_autocharge, start_via_plug_and_charge, start_via_qr,
}
use evaggregator.Ocpp.Commands.{CommandOutcome, Dispatch}
use evaggregator.Base.{
  Bool-cases, Option, Option-cases, Result, Result-cases, arith, err, inl, inr, nat_eq, none, ok,
  refl, some, subst, sym, true, ℕ, ◌≡◌, ◌⊎◌,
}
use evaggregator.Base.Dict.{lookup}
use evaggregator.Driver.QrTokens.{
  QrCodec, QrToken, QrTokenError, QrTokenPayload, expired_token, malformed_payload, malformed_token,
  raised, tampered_token, verify_qr_token,
}
use evaggregator.Driver.Certificates.{
  PlugAndChargeError, malformed_certificate, missing_emaid, ocsp_bad_status, ocsp_malformed,
  ocsp_unreachable, ocsp_unsuccessful, outside_validity, revoked_certificate, unmapped_emaid,
  untrusted_certificate,
}

module _ {B : Type 0} (codec : QrCodec B) (mac : ℕ → B → ℕ) (parse : ℕ → Option ℕ)
    (resolve : ℕ → Result PlugAndChargeError ℕ) (payment_of : ℕ → Option ℕ)
    (send : Dispatch → CommandOutcome) (timeout : ℕ) where
  -- What a request has to show for a call: a valid code, a registered address or a certificate, and an
  -- opted-in driver for the latter two.
  abbrev pub IsEntitled : StartRequest B → StartContext → StartCall → Type 0
  IsEntitled (qr_start token text secret) c k =
      (d : ℕ) × (p : QrTokenPayload) × (parse text ≡ some d)
      × (verify_qr_token codec mac token secret c.fresh.now ≡ ok p)
      × (k ≡ own_call d c.tenant_id p.charger_id (some p.connector_id) qr)
  IsEntitled (autocharge_start address charger) c k =
      (d : ℕ) × (lookup address c.macs ≡ some d)
      × (opted_in d c.vehicles ≡ true)
      × (k ≡ mac_call address d c.tenant_id charger)
  IsEntitled (plug_and_charge_start cert charger) c k =
      (d : ℕ) × (resolve cert ≡ ok d)
      × (opted_in d c.vehicles ≡ true)
      × (k ≡ own_call d c.tenant_id charger none plug_and_charge)
  IsEntitled (app_start charger connector text) c k =
      (d : ℕ) × (parse text ≡ some d) × (k ≡ own_call d c.tenant_id charger (some connector) app)

  abbrev pub Verdict :
      StartRequest B → StartContext → DriverSessions → StartAnswer × DriverSessions → Type 0
  Verdict q c s o =
      ((k : StartCall) × IsEntitled q c k × Dispatched send timeout payment_of c k s o)
      ⊎ (((k : StartCall) → ¬ IsEntitled q c k) × NotStarted s o)

  autocharge-Verdict :
      (c : StartContext) (address charger : ℕ) (s : DriverSessions)
      → Verdict (autocharge_start address charger) c s (
          start_answer (
            start_via_autocharge send timeout c.presence payment_of c.vehicles c.macs c.fresh
              address charger c.tenant_id s))
  unfolding start_via_autocharge http_of get_driver_id_for_mac
  autocharge-Verdict c address charger s = elim (Option-cases (lookup address c.macs)) [
    | inl e ↦ rw (e, start_via_autocharge) (inr (λ k h. ground (arith, e, h.1), (refl, refl, refl)))
    | inr (d, e) ↦ elim (Bool-cases (opted_in d c.vehicles)) [
      | inl o ↦
          rw (e, o, start_via_autocharge)
            (inl (
              mac_call address d c.tenant_id charger,
              (d, refl, o, refl),
              dispatch-Dispatched send timeout payment_of c _ s,
            ))
      | inr o ↦
          rw (e, o, start_via_autocharge)
            (inr (λ k h. ground (arith, e, o, h.1, h.2), (refl, refl, refl)))
    ]
  ]

  refused_certificate :
      (e : PlugAndChargeError) → (certified (err e) ≡ none) ⊎ (certified (err e) ≡ some none)
  refused_certificate malformed_certificate = inr refl
  refused_certificate untrusted_certificate = inr refl
  refused_certificate outside_validity = inr refl
  refused_certificate revoked_certificate = inr refl
  refused_certificate missing_emaid = inr refl
  refused_certificate unmapped_emaid = inr refl
  refused_certificate ocsp_unreachable = inl refl
  refused_certificate ocsp_bad_status = inl refl
  refused_certificate ocsp_malformed = inl refl
  refused_certificate ocsp_unsuccessful = inl refl

  plugged-NotStarted :
      (o : Option (Option ℕ)) (cert charger : ℕ) (c : StartContext) (s : DriverSessions)
      → (o ≡ none) ⊎ (o ≡ some none)
      → NotStarted s (plugged codec mac parse resolve payment_of send timeout o cert charger c s)
  unfolding start_via_plug_and_charge http_of
  plugged-NotStarted none cert charger c s h = (refl, refl, refl)
  plugged-NotStarted (some none) cert charger c s h = (refl, refl, refl)
  plugged-NotStarted (some (some d)) cert charger c s h = ground (arith, h)

  plugged-Verdict :
      (cert charger : ℕ) (c : StartContext) (s : DriverSessions)
      → Verdict (plug_and_charge_start cert charger) c s (
          plugged codec mac parse resolve payment_of send timeout
            (certified (resolve cert))
            cert
            charger
            c
            s)
  unfolding start_via_plug_and_charge http_of
  plugged-Verdict cert charger c s = elim (Result-cases (resolve cert)) [
    | inl (x, e) ↦ rw (e) (
        inr (
          λ k h. ground (arith, e, h.1),
          plugged-NotStarted (certified (err x)) cert charger c s (refused_certificate x),
        ))
    | inr (d, e) ↦ elim (Bool-cases (opted_in d c.vehicles)) [
      | inl o ↦
          rw (e, o, start_via_plug_and_charge)
            (inl (
              own_call d c.tenant_id charger none plug_and_charge,
              (d, refl, o, refl),
              dispatch-Dispatched send timeout payment_of c _ s,
            ))
      | inr o ↦
          rw (e, o, start_via_plug_and_charge)
            (inr (λ k h. ground (arith, e, o, h.1, h.2), (refl, refl, refl)))
    ]
  ]

  scanned-NotStarted :
      (e : QrTokenError) (driver : ℕ) (c : StartContext) (s : DriverSessions)
      → NotStarted s
          (scanned codec mac parse resolve payment_of send timeout (qr_target (err e)) driver c s)
  unfolding start_via_qr http_of
  scanned-NotStarted malformed_token driver c s = (refl, refl, refl)
  scanned-NotStarted tampered_token driver c s = (refl, refl, refl)
  scanned-NotStarted malformed_payload driver c s = (refl, refl, refl)
  scanned-NotStarted expired_token driver c s = (refl, refl, refl)
  scanned-NotStarted raised driver c s = (refl, refl, refl)

  qr-Verdict :
      (token : QrToken B) (text secret driver : ℕ) (c : StartContext) (s : DriverSessions)
      → parse text ≡ some driver
      → Verdict (qr_start token text secret) c s (
          scanned codec mac parse resolve payment_of send timeout
            (qr_target (verify_qr_token codec mac token secret c.fresh.now))
            driver
            c
            s)
  unfolding start_via_qr http_of
  qr-Verdict token text secret driver c s known =
      elim (Result-cases (verify_qr_token codec mac token secret c.fresh.now)) [
        | inl (x, e) ↦ rw (e) (inr (λ k h. ground (arith, e, h.3), scanned-NotStarted x driver c s))
        | inr (p, e) ↦
            rw (e, start_via_qr)
              (inl (
                own_call driver c.tenant_id p.charger_id (some p.connector_id) qr,
                (driver, p, known, refl, refl),
                dispatch-Dispatched send timeout payment_of c _ s,
              ))
      ]

  -- A request to start a session, in any of the four ways, starts one exactly if it is entitled to a call
  -- and the charger of the call accepts the remote start. Entitled are a driver with a valid QR code, to
  -- its charger and connector; the driver of a registered MAC address or of a valid certificate, if
  -- opted in; and a driver of the app. The session is then the answer, under the fresh id; it belongs to the
  -- driver of the call and is bound to its charger for the tenant, and nothing else is. Otherwise the
  -- answer is an error, and no session of anyone is bound or changes its owner.
  pub starts-Verdict :
      (q : StartRequest B) (c : StartContext) (s : DriverSessions)
      → Verdict q c s (respond_start codec mac parse resolve payment_of send timeout q c s)
  unfolding respond_start http_of start_via_app
  starts-Verdict (qr_start token text secret) c s = elim (Option-cases (parse text)) [
    | inl e ↦
        rw (e, respond_start, with_driver) (inr (λ k h. ground (arith, e, h.2), (refl, refl, refl)))
    | inr (d, e) ↦
        let on : respond_start codec mac parse resolve payment_of send timeout
              (qr_start token text secret) c s
            ≡ scanned codec mac parse resolve payment_of send timeout
                (qr_target (verify_qr_token codec mac token secret c.fresh.now)) d c s =
          rw (e, respond_start, with_driver) refl in
        subst (Verdict (qr_start token text secret) c s) (sym on)
          (qr-Verdict token text secret d c s e)
  ]
  starts-Verdict (autocharge_start address charger) c s = autocharge-Verdict c address charger s
  starts-Verdict (plug_and_charge_start cert charger) c s = plugged-Verdict cert charger c s
  starts-Verdict (app_start charger connector text) c s = elim (Option-cases (parse text)) [
    | inl e ↦
        rw (e, respond_start, with_driver) (inr (λ k h. ground (arith, e, h.1), (refl, refl, refl)))
    | inr (d, e) ↦
        rw (e, respond_start, with_driver)
          (inl (
            own_call d c.tenant_id charger (some connector) app,
            (d, refl, refl),
            dispatch-Dispatched send timeout payment_of c _ s,
          ))
  ]
