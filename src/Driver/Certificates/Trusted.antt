-- ===== src/Driver/Certificates/Trusted.antt =====
-- What has to hold of a certificate that is accepted.
use evaggregator.Driver.Certificates.{
  EmaidDriverMap, PlugAndChargeError, X509, check_ocsp, driver_for, extract_emaid, first_issuer,
  get_driver_id_for_emaid, resolve_driver_from_cert, resolve_loaded, signed_by, unless_revoked,
  within_validity,
}
use evaggregator.Base.{
  Bool, Bool-cases, List, Option, Option-cases, Result, [], arith, err, false, inl, inr, nat_eq,
  none, ok, refl, some, subst, true, ℕ, ◌==◌, ◌∷◌, ◌≡◌,
}

module _ {C : Type 0} (x : X509 C) (trusted : List C)
    (ocsp : Option (C → C → Result PlugAndChargeError Bool)) (m : EmaidDriverMap) where
  -- The certificate of a driver: it can be read, the first of the trusted authorities that signed it
  -- vouches that it is not revoked, it is within its validity period, and it names the driver's EMAID.
  pub record IsOwn (pem now driver : ℕ) : Type 0 where
    pub cert : C
    pub ca : C
    pub emaid : ℕ
    pub loads : x.load pem ≡ some cert
    pub issued : first_issuer x cert trusted ≡ some ca
    pub signed : signed_by x cert ca ≡ true
    pub valid : within_validity x now cert ≡ true
    pub unrevoked : check_ocsp x ocsp cert ca ≡ ok false
    pub named : extract_emaid x cert ≡ some emaid
    pub filled : (emaid == 0) ≡ false
    pub mapped : get_driver_id_for_emaid emaid m ≡ some driver

  first_issuer-signed :
      (cert ca : C) (cas : List C) → first_issuer x cert cas ≡ some ca → signed_by x cert ca ≡ true
  first_issuer-signed cert ca [] h = ground (arith, h)
  first_issuer-signed cert ca (c ∷ cas) h = elim (Bool-cases (signed_by x cert c)) [
    | inl e ↦
        let same : c ≡ ca = ground (arith, e, h) in subst (λ y. signed_by x cert y ≡ true) same e
    | inr e ↦ first_issuer-signed cert ca cas (ground (arith, e, h))
  ]

  driver_for-named :
      (o : Option ℕ) (driver : ℕ)
      → driver_for x o m ≡ ok driver
      → (emaid : ℕ) × (o ≡ some emaid)
        × ((emaid == 0) ≡ false)
        × (get_driver_id_for_emaid emaid m ≡ some driver)
  driver_for-named none driver h = ground (arith, h)
  driver_for-named (some emaid) driver h = elim (Bool-cases (emaid == 0)) [
    | inl e ↦ ground (arith, e, h)
    | inr e ↦ elim (Option-cases (get_driver_id_for_emaid emaid m)) [
      | inl f ↦ ground (arith, e, f, h)
      | inr (d, f) ↦ (emaid, refl, e, ground (arith, e, f, h))
    ]
  ]

  unless_revoked-unrevoked :
      (cert : C) (r : Result PlugAndChargeError Bool) (driver : ℕ)
      → unless_revoked x cert m r ≡ ok driver
      → (r ≡ ok false) × (driver_for x (extract_emaid x cert) m ≡ ok driver)
  unless_revoked-unrevoked cert (err e) driver h = ground (arith, h)
  unless_revoked-unrevoked cert (ok true) driver h = ground (arith, h)
  unless_revoked-unrevoked cert (ok false) driver h = (refl, h)

  accepted-IsOwn :
      (pem now driver : ℕ)
      → resolve_driver_from_cert x trusted ocsp pem now m ≡ ok driver
      → IsOwn pem now driver
  unfolding resolve_driver_from_cert
  accepted-IsOwn pem now driver h = elim (Option-cases (x.load pem)) [
    | inl e ↦ ground (arith, e, h)
    | inr (cert, loads) ↦ elim (Option-cases (first_issuer x cert trusted)) [
      | inl e ↦ ground (arith, e, loads, h)
      | inr (ca, issued) ↦ elim (Bool-cases (within_validity x now cert)) [
        | inr e ↦ ground (arith, e, loads, issued, h)
        | inl valid ↦
            let (unrevoked, found) =
              unless_revoked-unrevoked cert (check_ocsp x ocsp cert ca) driver
                (ground (arith, loads, issued, valid, h)) in
            let (emaid, named, filled, mapped) =
              driver_for-named (extract_emaid x cert) driver found in
            record {
              cert = cert;
              ca = ca;
              emaid = emaid;
              loads = loads;
              issued = issued;
              signed = first_issuer-signed cert ca trusted issued;
              valid = valid;
              unrevoked = unrevoked;
              named = named;
              filled = filled;
              mapped = mapped;
            }
      ]
    ]
  ]

  -- A vehicle's certificate is taken for a driver exactly if it is that driver's: it can be read, the
  -- first of the trusted authorities that signed it is asked and does not call it revoked, the clock is
  -- within its validity period, and its EMAID is mapped to the driver. A failure of the check for
  -- revocation, as any other one, is a refusal.
  pub resolve_iff_IsOwn :
      (pem now driver : ℕ)
      → (resolve_driver_from_cert x trusted ocsp pem now m ≡ ok driver → IsOwn pem now driver)
        × (IsOwn pem now driver → resolve_driver_from_cert x trusted ocsp pem now m ≡ ok driver)
  unfolding resolve_driver_from_cert
  resolve_iff_IsOwn pem now driver = (
    accepted-IsOwn pem now driver,
    λ h.
        rw
          (
            h.loads, h.issued, h.valid, h.unrevoked, h.named, h.filled, h.mapped,
            resolve_driver_from_cert, resolve_loaded, unless_revoked, driver_for,
          )
          refl,
  )
