-- ===== src/Gateway/Tenancy/Examples.antt =====
-- Signatures that are the double of the tenant, and a backend that answers with its tenant.
use evaggregator.Gateway.Tenancy.{
  Asgi, HttpRequest, Outside, Problem, answer, backend, check_signature, header_dict, http,
  require_current_tenant, verify_tenant_signature, with_tenant,
}
use evaggregator.Gateway.Tenancy.Headers.{first_value, latin_value}
use evaggregator.Gateway.Tenancy.Trust.{Guarded, signed_tenant_only}
use evaggregator.Base.{Option, Result, [], arith, none, ok, refl, some, true, ℕ, ◌+◌, ◌∷◌, ◌≡◌}

abbrev outside : Outside
outside = record {
  lower = λ k. k;
  utf8 = λ v. some v;
  latin1 = λ v. v;
  is_ascii = λ t. true;
  sign = λ t. t + t;
  url_path = λ q. q.path;
  get = λ hs name. first_value (λ k. k) name hs;
  parse = λ raw. some (raw + 100);
}

abbrev read_tenant : Asgi (Result Problem ℕ)
read_tenant scope context = answer (require_current_tenant context)

abbrev signed_request : HttpRequest
signed_request = record { path = 9; headers = (1, 7) ∷ (2, 14) ∷ []; body = 0 }

signed_request_runs : backend outside read_tenant (http signed_request) none ≡ answer (ok 107)
unfolding backend header_dict check_signature with_tenant verify_tenant_signature
    require_current_tenant
signed_request_runs = refl

same_value : (o : Option ℕ) → o ≡ latin_value outside o
same_value none = refl
same_value (some v) = refl

signed_tenant_only_example :
    Guarded outside read_tenant signed_request none
      (backend outside read_tenant (http signed_request) none)
signed_tenant_only_example =
    signed_tenant_only outside read_tenant signed_request none
      (λ hs name once. same_value (first_value (λ k. k) name hs)) refl (omega arith)
