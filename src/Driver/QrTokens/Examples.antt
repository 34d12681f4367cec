-- ===== src/Driver/QrTokens/Examples.antt =====
-- A code of charger 7 that is checked within its five minutes.
use evaggregator.Driver.QrTokens.{
  QrCodec, QrFields, QrToken, QrTokenPayload, dotted, expired_token, fields, sign_qr_token,
  verify_qr_token,
}
use evaggregator.Driver.QrTokens.Signatures.{qr_codes_signed}
use evaggregator.Base.{err, ok, refl, ℕ, ◌+◌, ◌<◌, ◌≡◌, ◌≤◌}

abbrev plain : QrCodec QrFields
plain = record { encode = λ f. f; decode = λ f. fields f }

abbrev toy_mac : ℕ → QrFields → ℕ
toy_mac secret f = secret + f.charger_id

abbrev code : QrToken QrFields
code = sign_qr_token plain toy_mac 7 1 42 300 1_000

qr_codes_signed_example :
    (1_200 ≤ 1_000 + 300
      → verify_qr_token plain toy_mac code 42 1_200
        ≡ ok (record { charger_id = 7; connector_id = 1 }))
    × ((1_000 + 300 < 1_200 → verify_qr_token plain toy_mac code 42 1_200 ≡ err expired_token)
        × ((t : QrToken QrFields) (p : QrTokenPayload)
            → verify_qr_token plain toy_mac t 42 1_200 ≡ ok p
            → (content : QrFields) × (t ≡ dotted content (toy_mac 42 content))))
qr_codes_signed_example = qr_codes_signed plain toy_mac 7 1 42 300 1_000 1_200 (λ f. refl)
