-- ===== src/Driver/QrTokens/Signatures.antt =====
-- Which QR codes start a session.
use evaggregator.Driver.QrTokens.{
  QrCodec, QrFields, QrToken, QrTokenPayload, dotted, expired_token, fields, not_ascii,
  sign_qr_token, verify_qr_token, without_dot,
}
use evaggregator.Base.{
  Bool-cases, ap, arith, err, inl, inr, nat_beq_iff, nat_eq, ok, sym, ℕ, ◌+◌, ◌<◌, ◌==◌, ◌≡◌, ◌≤◌,
}
use evaggregator.Base.Dict.{beq_refl}

accepted-signed :
    {B : Type 0} (codec : QrCodec B) (mac : ℕ → B → ℕ) (t : QrToken B) (secret now : ℕ)
    (p : QrTokenPayload)
    → verify_qr_token codec mac t secret now ≡ ok p
    → (content : B) × (t ≡ dotted content (mac secret content))
unfolding verify_qr_token
accepted-signed codec mac (without_dot text) secret now p h = ground (arith, h)
accepted-signed codec mac (not_ascii n) secret now p h = ground (arith, h)
accepted-signed codec mac (dotted content signature) secret now p h =
    elim (Bool-cases (mac secret content == signature)) [
      | inl e ↦
          (content, ap (dotted content) (sym ((nat_beq_iff (mac secret content) signature).0 e)))
      | inr e ↦ ground (arith, e, h)
    ]

-- A signed code is read back as the charger and the connector that it was signed for, until its life
-- time is over, and is refused as expired after that. Any code that is accepted carries the signature
-- of its content under the secret that it is checked with.
pub qr_codes_signed :
    {B : Type 0} (codec : QrCodec B) (mac : ℕ → B → ℕ)
    (charger connector secret ttl issued_at now : ℕ)
    → ((f : QrFields) → codec.decode (codec.encode f) ≡ fields f)
    → (now ≤ issued_at + ttl
        → verify_qr_token codec mac
            (sign_qr_token codec mac charger connector secret ttl issued_at)
            secret
            now
          ≡ ok (record { charger_id = charger; connector_id = connector }))
      × ((issued_at + ttl < now
            → verify_qr_token codec mac
                (sign_qr_token codec mac charger connector secret ttl issued_at)
                secret
                now
              ≡ err expired_token)
          × ((t : QrToken B) (p : QrTokenPayload)
              → verify_qr_token codec mac t secret now ≡ ok p
              → (content : B) × (t ≡ dotted content (mac secret content))))
unfolding sign_qr_token verify_qr_token
qr_codes_signed codec mac charger connector secret ttl issued_at now back =
    let f : QrFields = record {
      charger_id = charger;
      connector_id = connector;
      issued_at = issued_at;
      ttl = ttl;
    } in
    (
      λ live. ground (arith, back f, beq_refl (mac secret (codec.encode f))),
      (
        λ over. ground (arith, back f, beq_refl (mac secret (codec.encode f))),
        λ t p accepted. accepted-signed codec mac t secret now p accepted,
      ),
    )
