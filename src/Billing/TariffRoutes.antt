-- ===== src/Billing/TariffRoutes.antt =====
-- backend/src/evagg/billing/tariff_router.py: the operators' routes to the tariffs. The id of a new tariff
-- is an argument of its request.
pub mod Refusals
use evaggregator.Billing.Tariffs.{
  Consumption, Floats, Tariff, TariffComponent, TariffError, TariffService, bad_step_size,
  create_tariff, list_all_tariffs, no_energy_or_time, not_finite, preview, tariff_not_found,
  unknown_component, update_tariff,
}
use evaggregator.Base.{List, Option, Result, err, filter_by, map, nat_eq, none, ok, some, ℕ, ◌==◌}
use evaggregator.Base.Int.{ℤ}

-- `F` are the quantities of a consumption.
pub data TariffRequest (F : Type 0) : Type 0 where
  get_tariff_list : Option ℕ → TariffRequest F
  -- id, tenant, name and components
  post_tariff : ℕ → ℕ → ℕ → List TariffComponent → TariffRequest F
  put_tariff_body : ℕ → ℕ → List TariffComponent → TariffRequest F
  get_preview : ℕ → Consumption F → TariffRequest F

-- The id, the name and the currency of a tariff.
pub record TariffLine : Type 0 where
  pub id : ℕ
  pub name : ℕ
  pub currency : ℕ

pub data TariffAnswer : Type 0 where
  lines_answer : List TariffLine → TariffAnswer
  line_answer : TariffLine → TariffAnswer
  total_answer : ℤ → TariffAnswer
  -- 422, 404, and what no handler catches
  invalid_components tariff_missing server_error : TariffAnswer

unfoldable pub answer_status : TariffAnswer → ℕ
answer_status (lines_answer ls) = 200
answer_status (line_answer l) = 200
answer_status (total_answer t) = 200
answer_status invalid_components = 422
answer_status tariff_missing = 404
answer_status server_error = 500

abbrev pub line_of : Tariff → TariffLine
line_of t = record { id = t.id; name = t.name; currency = t.currency }

-- `TariffValidationError`, `TariffNotFoundError`, and the exceptions that no handler catches.
abbrev pub refusal_of : TariffError → TariffAnswer
refusal_of no_energy_or_time = invalid_components
refusal_of bad_step_size = invalid_components
refusal_of unknown_component = server_error
refusal_of not_finite = server_error
refusal_of tariff_not_found = tariff_missing

abbrev pub line_or_refusal :
    Result TariffError Tariff × TariffService → TariffAnswer × TariffService
line_or_refusal (err e, s) = (refusal_of e, s)
line_or_refusal (ok t, s) = (line_answer (line_of t), s)

abbrev pub total_or_refusal : Result TariffError ℤ → TariffAnswer
total_or_refusal (err e) = refusal_of e
total_or_refusal (ok total) = total_answer total

abbrev pub of_tenant : Option ℕ → List Tariff → List Tariff
of_tenant none ts = ts
of_tenant (some tenant) ts = filter_by (λ t. t.tenant_id == tenant) ts

unfoldable pub respond_tariff :
    {F : Type 0} → Floats F → TariffRequest F → TariffService → TariffAnswer × TariffService
respond_tariff floats (get_tariff_list tenant) s =
    (lines_answer (map line_of (of_tenant tenant (list_all_tariffs s))), s)
respond_tariff floats (post_tariff id tenant name cs) s =
    line_or_refusal (create_tariff id tenant name cs s)
respond_tariff floats (put_tariff_body id name cs) s = line_or_refusal (update_tariff id name cs s)
respond_tariff floats (get_preview id consumption) s =
    (total_or_refusal (preview floats id consumption s), s)
