-- ===== src/Billing/TariffRoutes/Refusals.antt =====
-- A request that fails has changed nothing.
use evaggregator.Billing.Tariffs.{
  Floats, Tariff, TariffComponent, TariffError, TariffService, create_tariff, update_tariff,
  validate_tariff_components,
}
use evaggregator.Billing.TariffRoutes.{
  TariffRequest, answer_status, get_preview, get_tariff_list, line_or_refusal, post_tariff,
  put_tariff_body, respond_tariff,
}
use evaggregator.Base.{
  List, Option-cases, Result, Result-cases, arith, err, inl, inr, nat_eq, ok, refl, ℕ, ◌≡◌, ◌⊎◌,
}
use evaggregator.Base.Dict.{lookup}

line_or_refusal-unchanged :
    (r : Result TariffError Tariff) (s s' : TariffService)
    → ((e : TariffError) → r ≡ err e → s' ≡ s)
    → (answer_status (line_or_refusal (r, s')).0 ≡ 200) ⊎ ((line_or_refusal (r, s')).1 ≡ s)
unfolding answer_status
line_or_refusal-unchanged (err e) s s' h = inr (h e refl)
line_or_refusal-unchanged (ok t) s s' h = inl refl

create-unchanged :
    (id tenant name : ℕ) (cs : List TariffComponent) (s : TariffService) (e : TariffError)
    → (create_tariff id tenant name cs s).0 ≡ err e
    → (create_tariff id tenant name cs s).1 ≡ s
unfolding create_tariff
create-unchanged id tenant name cs s e h = elim (Result-cases (validate_tariff_components cs)) [
  | inl (x, f) ↦ rw (f, create_tariff) refl
  | inr (u, f) ↦ ground (arith, f, h)
]

update-unchanged :
    (id name : ℕ) (cs : List TariffComponent) (s : TariffService) (e : TariffError)
    → (update_tariff id name cs s).0 ≡ err e
    → (update_tariff id name cs s).1 ≡ s
unfolding update_tariff
update-unchanged id name cs s e h = elim (Result-cases (validate_tariff_components cs)) [
  | inl (x, f) ↦ rw (f, update_tariff) refl
  | inr (u, f) ↦ elim (Option-cases (lookup id s.tariffs)) [
    | inl g ↦ rw (f, g, update_tariff) refl
    | inr (t, g) ↦ ground (arith, f, g, h)
  ]
]

-- Every request to the tariffs is answered with 200, or it leaves the tariffs and the currencies as they
-- were.
pub refused_unchanged :
    {F : Type 0} (floats : Floats F) (q : TariffRequest F) (s : TariffService)
    → (answer_status (respond_tariff floats q s).0 ≡ 200) ⊎ ((respond_tariff floats q s).1 ≡ s)
unfolding respond_tariff
refused_unchanged floats (get_tariff_list tenant) s = inr refl
refused_unchanged floats (post_tariff id tenant name cs) s =
    line_or_refusal-unchanged (create_tariff id tenant name cs s).0 s
      (create_tariff id tenant name cs s).1 (create-unchanged id tenant name cs s)
refused_unchanged floats (put_tariff_body id name cs) s =
    line_or_refusal-unchanged (update_tariff id name cs s).0 s (update_tariff id name cs s).1
      (update-unchanged id name cs s)
refused_unchanged floats (get_preview id consumption) s = inr refl
