-- ===== src/Gateway/Tenancy.antt =====
-- backend/src/evagg/gateway/middleware.py, trust.py and core/tenancy.py: the two middlewares around the
-- backend. A request that is let through runs with the tenant in the context variable, which is an
-- argument of the application here. What the two call from outside is a record of parameters.
pub mod Headers
pub mod Trust
mod Examples
use evaggregator.Base.{
  Bool, List, Option, Result, [], any_by, err, false, if◌then◌else◌, nat_eq, none, ok, some, true,
  ℕ, ◌==◌, ◌∷◌,
}
use evaggregator.Base.Dict.{Dict, insert, lookup}

-- A header is its name, which the server has checked to be ASCII, and the bytes of its value.
pub record HttpRequest : Type 0 where
  pub path : ℕ
  pub headers : List (ℕ × ℕ)
  pub body : ℕ

pub data Scope : Type 0 where
  http : HttpRequest → Scope
  -- a websocket or the application's life span
  other_scope : ℕ → Scope

pub data Problem : Type 0 where
  tenant_required invalid_tenant untrusted_tenant : Problem

pub status_of : Problem → ℕ
status_of tenant_required = 401
status_of invalid_tenant = 401
status_of untrusted_tenant = 403

pub data Answer (R : Type 0) : Type 0 where
  problem : Problem → Answer R
  -- an exception that no handler catches
  server_error : Answer R
  answer : R → Answer R

-- An ASGI application, by what it does under a tenant context.
abbrev pub Asgi : Type 0 → Type 0
Asgi R = Scope → Option ℕ → Answer R

-- The text numbered 0 is the empty one.
pub record Outside : Type 0 where
  -- `str.lower` on a name, and the two readings of a value's bytes, the first of which may raise
  pub lower : ℕ → ℕ
  pub utf8 : ℕ → Option ℕ
  pub latin1 : ℕ → ℕ
  pub is_ascii : ℕ → Bool
  -- HMAC-SHA256 under the gateway's secret, in hexadecimal digits
  pub sign : ℕ → ℕ
  -- Starlette's `request.url.path`, which it reads from a URL with the request's Host header, and
  -- `request.headers.get`
  pub url_path : HttpRequest → ℕ
  pub get : List (ℕ × ℕ) → ℕ → Option ℕ
  -- the UUID parser
  pub parse : ℕ → Option ℕ

-- The names of /healthz, /metrics, /docs, /openapi.json and /redoc, and of the two headers.
abbrev pub exempt_paths : List ℕ
exempt_paths = 1 ∷ 2 ∷ 3 ∷ 4 ∷ 5 ∷ []

abbrev pub tenant_header : ℕ
tenant_header = 1

abbrev pub signature_header : ℕ
signature_header = 2

abbrev pub is_exempt : ℕ → Bool
is_exempt path = any_by (λ p. p == path) exempt_paths

-- `{k.decode().lower(): v.decode() for k, v in scope["headers"]}`
unfoldable pub header_dict : Outside → List (ℕ × ℕ) → Dict ℕ ℕ → Option (Dict ℕ ℕ)
header_dict o [] d = some d
header_dict o ((k, v) ∷ hs) d = elim (o.utf8 v) [
  | none ↦ none
  | some text ↦ header_dict o hs (insert (o.lower k) text d)
]

-- `compare_digest` raises on a text that is not ASCII.
unfoldable pub verify_tenant_signature : Outside → ℕ → ℕ → Option Bool
verify_tenant_signature o tenant signature =
    if o.is_ascii signature then some (o.sign tenant == signature) else none

-- `not signature or not verify_tenant_signature(...)`, negated
abbrev pub is_signed : Outside → ℕ → Option ℕ → Option Bool
is_signed o tenant none = some false
is_signed o tenant (some signature) =
    if signature == 0 then some false else verify_tenant_signature o tenant signature

module _ {R : Type 0} (o : Outside) where
  abbrev pub with_signature : Asgi R → HttpRequest → Option ℕ → Option Bool → Answer R
  with_signature app q context none = server_error
  with_signature app q context (some false) = problem untrusted_tenant
  with_signature app q context (some true) = app (http q) context

  abbrev pub with_value : Asgi R → HttpRequest → Option ℕ → Dict ℕ ℕ → Option ℕ → Answer R
  with_value app q context headers none = app (http q) context
  with_value app q context headers (some tenant) =
      with_signature app q context (is_signed o tenant (lookup signature_header headers))

  abbrev pub with_headers : Asgi R → HttpRequest → Option ℕ → Option (Dict ℕ ℕ) → Answer R
  with_headers app q context none = server_error
  with_headers app q context (some headers) =
      with_value app q context headers (lookup tenant_header headers)

  -- `GatewaySignatureMiddleware`, which tests the path of the scope
  unfoldable pub check_signature : Asgi R → Asgi R
  check_signature app (other_scope n) context = app (other_scope n) context
  check_signature app (http q) context =
      if is_exempt q.path
      then app (http q) context
      else with_headers app q context (header_dict o q.headers [])

  abbrev pub under_tenant : Asgi R → HttpRequest → Option ℕ → Answer R
  under_tenant app q none = problem invalid_tenant
  under_tenant app q (some tenant) = app (http q) (some tenant)

  -- `TenantContextMiddleware`, which tests the path of the request's URL
  unfoldable pub with_tenant : Asgi R → Asgi R
  with_tenant app (other_scope n) context = app (other_scope n) context
  with_tenant app (http q) context =
      if is_exempt (o.url_path q)
      then app (http q) context
      else elim (o.get q.headers tenant_header) [
        | none ↦ problem tenant_required
        | some raw ↦ if raw == 0 then problem tenant_required else under_tenant app q (o.parse raw)
      ]

-- `require_current_tenant`
unfoldable pub require_current_tenant : Option ℕ → Result Problem ℕ
require_current_tenant none = err tenant_required
require_current_tenant (some tenant) = ok tenant

-- backend/src/evagg/main.py adds the signature check last, which makes it the outermost.
unfoldable pub backend : {R : Type 0} → Outside → Asgi R → Asgi R
unfolding check_signature with_tenant
backend o app = check_signature o (with_tenant o app)
