-- ===== src/Gateway/Tenancy/Trust.antt =====
-- A request runs only under a tenant that the gateway has signed.
use evaggregator.Gateway.Tenancy.{
  Answer, Asgi, HttpRequest, Outside, Problem, backend, check_signature, header_dict, http,
  invalid_tenant, is_exempt, is_signed, problem, server_error, signature_header, tenant_header,
  tenant_required, under_tenant, untrusted_tenant, verify_tenant_signature, with_signature,
  with_tenant, with_value,
}
use evaggregator.Gateway.Tenancy.Headers.{
  IsHeaders, first_value, header_dict-first, occurrences, read_or,
}
use evaggregator.Base.{
  Bool-cases, List, Option, Option-cases, [], arith, false, inl, inr, nat_eq, none, refl, some,
  subst, sym, true, ℕ, ◌==◌, ◌∷◌, ◌≡◌, ◌≤◌,
}
use evaggregator.Base.Dict.{Dict, insert, lookup}

-- The value `v` of the tenant header is signed by the gateway, and names the tenant.
pub record IsSignedFor (o : Outside) (q : HttpRequest) (tenant : ℕ) : Type 0 where
  pub value : ℕ
  pub raw : ℕ
  pub headers : Dict ℕ ℕ
  pub sent : first_value o.lower tenant_header q.headers ≡ some value
  pub readable : header_dict o q.headers [] ≡ some headers
  pub decoded : o.utf8 value ≡ some raw
  pub signed : lookup signature_header headers ≡ some (o.sign raw)
  pub parsed : o.parse (o.latin1 value) ≡ some tenant

module _ {R : Type 0} (o : Outside) (app : Asgi R) (q : HttpRequest) (context : Option ℕ) where
  -- How a request is answered.
  pub data Guarded : Answer R → Type 0 where
    refused : (e : Problem) → Guarded (problem e)
    raised : Guarded server_error
    exempted : is_exempt (o.url_path q) ≡ true → Guarded (app (http q) context)
    signed_for : (tenant : ℕ) → IsSignedFor o q tenant → Guarded (app (http q) (some tenant))

  -- What the signature check has made sure of a value of the tenant header.
  abbrev Checked : ℕ → Type 0
  Checked v =
      (raw : ℕ) × (m : Dict ℕ ℕ) × (header_dict o q.headers [] ≡ some m)
      × (o.utf8 v ≡ some raw)
      × (lookup signature_header m ≡ some (o.sign raw))

  parsed-Guarded :
      IsHeaders o
      → occurrences o.lower tenant_header q.headers ≤ 1
      → ((v : ℕ) → first_value o.lower tenant_header q.headers ≡ some v → Checked v)
      → (raw : ℕ) → o.get q.headers tenant_header ≡ some raw
      → Guarded (under_tenant o app q (o.parse raw))
  parsed-Guarded laws once checked raw e = elim (Option-cases (o.parse raw)) [
    | inl p ↦ subst (λ t. Guarded (under_tenant o app q t)) (sym p) (refused invalid_tenant)
    | inr (tenant, p) ↦ elim (Option-cases (first_value o.lower tenant_header q.headers)) [
      | inl f ↦ ground (arith, e, f, laws q.headers tenant_header once)
      | inr (v, f) ↦
          let (text, m, readable, decoded, signed) = checked v f in
          subst (λ t. Guarded (under_tenant o app q t)) (sym p)
            (signed_for tenant (record {
              value = v;
              raw = text;
              headers = m;
              sent = f;
              readable = readable;
              decoded = decoded;
              signed = signed;
              parsed = ground (arith, e, f, p, laws q.headers tenant_header once);
            }))
    ]
  ]

  tenant-Guarded :
      IsHeaders o
      → occurrences o.lower tenant_header q.headers ≤ 1
      → ((v : ℕ) → first_value o.lower tenant_header q.headers ≡ some v → Checked v)
      → Guarded (with_tenant o app (http q) context)
  unfolding with_tenant
  tenant-Guarded laws once checked = elim (Bool-cases (is_exempt (o.url_path q))) [
    | inl x ↦
        let on : with_tenant o app (http q) context ≡ app (http q) context =
          rw (x, with_tenant) refl in
        subst Guarded (sym on) (exempted x)
    | inr x ↦ elim (Option-cases (o.get q.headers tenant_header)) [
      | inl e ↦ rw (x, e, with_tenant) (refused tenant_required)
      | inr (raw, e) ↦ elim (Bool-cases (raw == 0)) [
        | inl z ↦ rw (x, e, z, with_tenant) (refused tenant_required)
        | inr z ↦
            let on : with_tenant o app (http q) context ≡ under_tenant o app q (o.parse raw) =
              rw (x, e, z, with_tenant) refl in
            subst Guarded (sym on) (parsed-Guarded laws once checked raw e)
      ]
    ]
  ]

  signature-Guarded :
      IsHeaders o
      → occurrences o.lower tenant_header q.headers ≤ 1
      → (m : Dict ℕ ℕ) (raw : ℕ) → header_dict o q.headers [] ≡ some m
      → ((v : ℕ) → first_value o.lower tenant_header q.headers ≡ some v → o.utf8 v ≡ some raw)
      → (found : Option ℕ) → lookup signature_header m ≡ found
      → Guarded (with_signature o (with_tenant o app) q context (is_signed o raw found))
  unfolding verify_tenant_signature
  signature-Guarded laws once m raw e reads none f = refused untrusted_tenant
  signature-Guarded laws once m raw e reads (some x) f = elim (Bool-cases (x == 0)) [
    | inl z ↦ rw (z) (refused untrusted_tenant)
    | inr z ↦ elim (Bool-cases (o.is_ascii x)) [
      | inr a ↦ rw (z, a) raised
      | inl a ↦ elim (Bool-cases (o.sign raw == x)) [
        | inr n ↦ rw (z, a, n) (refused untrusted_tenant)
        | inl y ↦
            rw (z, a, y)
              (tenant-Guarded laws once (λ v h. (raw, m, e, reads v h, ground (arith, f, y))))
      ]
    ]
  ]

  value-Guarded :
      IsHeaders o
      → occurrences o.lower tenant_header q.headers ≤ 1
      → (m : Dict ℕ ℕ) → header_dict o q.headers [] ≡ some m
      → (found : Option ℕ)
      → ((v : ℕ)
          → first_value o.lower tenant_header q.headers ≡ some v
          → (raw : ℕ) × (o.utf8 v ≡ some raw) × (found ≡ some raw))
      → Guarded (with_value o (with_tenant o app) q context m found)
  value-Guarded laws once m e none reads =
      tenant-Guarded laws once (λ v h. let (raw, u, g) = reads v h in ground (arith, g))
  value-Guarded laws once m e (some raw) reads =
      signature-Guarded laws once m raw e (λ v h. let (r, u, g) = reads v h in ground (arith, u, g))
        (lookup signature_header m) refl

  -- A header that the check has read through has a value in UTF-8.
  first_value-utf8 :
      (hs : List (ℕ × ℕ)) (d m : Dict ℕ ℕ) (v : ℕ)
      → header_dict o hs d ≡ some m
      → first_value o.lower tenant_header hs ≡ some v
      → (raw : ℕ) × (o.utf8 v ≡ some raw)
  unfolding header_dict
  first_value-utf8 [] d m v e h = ground (arith, h)
  first_value-utf8 ((k, w) ∷ hs) d m v e h = elim (Option-cases (o.utf8 w)) [
    | inl f ↦ ground (arith, e, f)
    | inr (x, f) ↦ elim (Bool-cases (o.lower k == tenant_header)) [
      | inl y ↦ (x, ground (arith, f, h, y))
      | inr y ↦
          first_value-utf8 hs (insert (o.lower k) x d) m v (ground (arith, e, f))
            (ground (arith, h, y))
    ]
  ]

  readable_value :
      (m : Dict ℕ ℕ) (v : ℕ)
      → header_dict o q.headers [] ≡ some m
      → first_value o.lower tenant_header q.headers ≡ some v
      → lookup tenant_header m ≡ read_or o (first_value o.lower tenant_header q.headers) none
      → (raw : ℕ) × (o.utf8 v ≡ some raw) × (lookup tenant_header m ≡ some raw)
  readable_value m v e h seen =
      let (raw, u) = first_value-utf8 q.headers [] m v e h in (raw, u, ground (arith, u, h, seen))

  -- A request whose scope has a path that is not exempt, and in which the tenant header is not repeated, is
  -- answered with a problem or as a server error, or it reaches the application. It does so under the
  -- tenant that the header names, the gateway having signed the header's value: the signature header
  -- holds the value's signature. The only other way is with the context as it was, where the path of
  -- the request's URL is an exempt one.
  pub signed_tenant_only :
      IsHeaders o
      → is_exempt q.path ≡ false
      → occurrences o.lower tenant_header q.headers ≤ 1
      → Guarded (backend o app (http q) context)
  unfolding backend check_signature verify_tenant_signature
  signed_tenant_only laws guarded once = elim (Option-cases (header_dict o q.headers [])) [
    | inl e ↦ rw (guarded, e, backend, check_signature) raised
    | inr (m, e) ↦
        let seen = header_dict-first o tenant_header q.headers [] m once e in
        let reads : backend o app (http q) context
            ≡ with_value o (with_tenant o app) q context m (lookup tenant_header m) =
          rw (guarded, e, backend, check_signature) refl in
        subst Guarded (sym reads) (
          value-Guarded laws once m e (lookup tenant_header m) (λ v h. readable_value m v e h seen))
  ]
