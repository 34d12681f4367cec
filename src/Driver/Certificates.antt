-- ===== src/Driver/Certificates.antt =====
-- backend/src/evagg/charging_auth/plug_and_charge.py: which driver a vehicle's contract certificate
-- stands for. X.509 is a parameter: parsing, the fields of a certificate, and the check of a signature
-- by the key of another one. So is the HTTP client of the OCSP responder, with its parser.
pub mod Trusted
mod Examples
use evaggregator.Base.{
  Bool, List, Option, Result, [], any_by, err, false, if◌then◌else◌, ltb, nat_eq, none, not, ok,
  some, ℕ, ◌&&◌, ◌==◌, ◌∷◌,
}
use evaggregator.Base.Dict.{Dict, insert, lookup}

pub data PlugAndChargeError : Type 0 where
  malformed_certificate untrusted_certificate outside_validity : PlugAndChargeError
  revoked_certificate missing_emaid unmapped_emaid : PlugAndChargeError
  -- `OcspError`, which is let through
  ocsp_unreachable ocsp_bad_status ocsp_malformed ocsp_unsuccessful : PlugAndChargeError

pub record X509 (C : Type 0) : Type 0 where
  pub load : ℕ → Option C
  pub issuer : C → ℕ
  pub subject : C → ℕ
  -- whether the first one's key verifies the second one's signature
  pub verifies : C → C → Bool
  pub not_valid_before : C → ℕ
  pub not_valid_after : C → ℕ
  pub serial_number : C → ℕ
  -- the common names of the subject, 0 being the empty one
  pub common_names : C → List ℕ

abbrev pub EmaidDriverMap : Type 0
EmaidDriverMap = Dict ℕ ℕ

unfoldable pub register_emaid : ℕ → ℕ → EmaidDriverMap → EmaidDriverMap
register_emaid emaid driver m = insert emaid driver m

abbrev pub get_driver_id_for_emaid : ℕ → EmaidDriverMap → Option ℕ
get_driver_id_for_emaid emaid m = lookup emaid m

-- `InMemoryOcspChecker.revoke`
unfoldable pub revoke : ℕ → List ℕ → List ℕ
revoke serial revoked = serial ∷ revoked

module _ {C : Type 0} (x : X509 C) where
  unfoldable pub signed_by : C → C → Bool
  signed_by cert ca = x.issuer cert == x.subject ca && x.verifies ca cert

  abbrev pub first_issuer : C → List C → Option C
  first_issuer cert [] = none
  first_issuer cert (ca ∷ cas) = if signed_by cert ca then some ca else first_issuer cert cas

  abbrev pub first_name : List ℕ → Option ℕ
  first_name [] = none
  first_name (n ∷ ns) = some n

  unfoldable pub extract_emaid : C → Option ℕ
  extract_emaid cert = first_name (x.common_names cert)

  -- `InMemoryOcspChecker.is_revoked`
  unfoldable pub is_revoked_here : List ℕ → C → C → Result PlugAndChargeError Bool
  is_revoked_here revoked cert issuer = ok (any_by (λ n. n == x.serial_number cert) revoked)

  -- The responder's answer: nothing, or a status and a content.
  abbrev pub read_ocsp : Option (Bool × Bool) → Result PlugAndChargeError Bool
  read_ocsp none = err ocsp_malformed
  read_ocsp (some (successful, good)) = if successful then ok (not good) else err ocsp_unsuccessful

  abbrev pub ocsp_outcome :
      (ℕ → Option (Bool × Bool)) → Option (ℕ × ℕ) → Result PlugAndChargeError Bool
  ocsp_outcome parse none = err ocsp_unreachable
  ocsp_outcome parse (some (status, content)) =
      if status == 200 then read_ocsp (parse content) else err ocsp_bad_status

  -- `HttpOcspChecker.is_revoked`
  unfoldable pub is_revoked_online :
      (C → C → Option (ℕ × ℕ)) → (ℕ → Option (Bool × Bool)) → C → C → Result PlugAndChargeError Bool
  is_revoked_online post parse cert issuer = ocsp_outcome parse (post cert issuer)

  abbrev pub driver_for : Option ℕ → EmaidDriverMap → Result PlugAndChargeError ℕ
  driver_for none m = err missing_emaid
  driver_for (some emaid) m =
      if emaid == 0
      then err missing_emaid
      else elim (get_driver_id_for_emaid emaid m) [ none ↦ err unmapped_emaid | some d ↦ ok d ]

  abbrev pub unless_revoked :
      C → EmaidDriverMap → Result PlugAndChargeError Bool → Result PlugAndChargeError ℕ
  unless_revoked cert m (err e) = err e
  unless_revoked cert m (ok revoked) =
      if revoked then err revoked_certificate else driver_for (extract_emaid cert) m

  abbrev pub check_ocsp :
      Option (C → C → Result PlugAndChargeError Bool) → C → C → Result PlugAndChargeError Bool
  check_ocsp none cert issuer = ok false
  check_ocsp (some ocsp) cert issuer = ocsp cert issuer

  abbrev pub within_validity : ℕ → C → Bool
  within_validity now cert =
      not (ltb now (x.not_valid_before cert)) && not (ltb (x.not_valid_after cert) now)

  module _ (trusted : List C) (ocsp : Option (C → C → Result PlugAndChargeError Bool)) where
    abbrev pub resolve_loaded : ℕ → EmaidDriverMap → C → Result PlugAndChargeError ℕ
    resolve_loaded now m cert = elim (first_issuer cert trusted) [
      | none ↦ err untrusted_certificate
      | some ca ↦
          if within_validity now cert
          then unless_revoked cert m (check_ocsp ocsp cert ca)
          else err outside_validity
    ]

    unfoldable pub resolve_driver_from_cert : ℕ → ℕ → EmaidDriverMap → Result PlugAndChargeError ℕ
    unfolding signed_by extract_emaid
    resolve_driver_from_cert pem now m = elim (x.load pem) [
      | none ↦ err malformed_certificate
      | some cert ↦ resolve_loaded now m cert
    ]
