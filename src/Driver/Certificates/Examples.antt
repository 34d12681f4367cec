-- ===== src/Driver/Certificates/Examples.antt =====
-- A certificate of driver 7 that authority 2 has signed.
use evaggregator.Driver.Certificates.{
  PlugAndChargeError, X509, extract_emaid, is_revoked_here, resolve_driver_from_cert, signed_by,
}
use evaggregator.Driver.Certificates.Trusted.{IsOwn, resolve_iff_IsOwn}
use evaggregator.Base.{Bool, List, Option, Result, [], ok, refl, some, true, ℕ, ◌∷◌, ◌≡◌}

record Cert : Type 0 where
  pub by : ℕ
  pub name : ℕ
  pub emaid : ℕ

abbrev toy : X509 Cert
toy = record {
  load = λ pem. some (record { by = 2; name = 3; emaid = pem });
  issuer = λ c. c.by;
  subject = λ c. c.name;
  verifies = λ ca c. true;
  not_valid_before = λ c. 100;
  not_valid_after = λ c. 200;
  serial_number = λ c. c.emaid;
  common_names = λ c. c.emaid ∷ [];
}

abbrev authorities : List Cert
authorities = record { by = 1; name = 1; emaid = 0 } ∷ record { by = 2; name = 2; emaid = 0 } ∷ []

abbrev checker : Option (Cert → Cert → Result PlugAndChargeError Bool)
checker = some (is_revoked_here toy (9 ∷ []))

resolves_seven : resolve_driver_from_cert toy authorities checker 55 150 ((55, 7) ∷ []) ≡ ok 7
unfolding resolve_driver_from_cert is_revoked_here signed_by extract_emaid
resolves_seven = refl

resolve_iff_IsOwn_example :
    (resolve_driver_from_cert toy authorities checker 55 150 ((55, 7) ∷ []) ≡ ok 7
      → IsOwn toy authorities checker ((55, 7) ∷ []) 55 150 7)
    × (IsOwn toy authorities checker ((55, 7) ∷ []) 55 150 7
        → resolve_driver_from_cert toy authorities checker 55 150 ((55, 7) ∷ []) ≡ ok 7)
resolve_iff_IsOwn_example = resolve_iff_IsOwn toy authorities checker ((55, 7) ∷ []) 55 150 7
