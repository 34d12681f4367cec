-- ===== src/Ocpp/Registry/Boots.antt =====
-- A boot never recreates a charger or resets its registration.
use evaggregator.Ocpp.Registry.{
  Boot, Charger, ChargerRegistry, RegistrationStatus, new_charger, rebooted, upsert_on_boot,
}
use evaggregator.Base.{
  Bool-cases, List, Option-cases, [], arith, inl, inr, nat_eq, some, ℕ, ◌==◌, ◌∷◌, ◌≡◌,
}
use evaggregator.Base.Dict.{lookup, lookup-insert}

abbrev pub boot_all : List Boot → ChargerRegistry → ChargerRegistry
boot_all [] s = s
boot_all (b ∷ bs) s = boot_all bs (upsert_on_boot b s).1

-- The charger is registered, for the tenant and with the status given.
pub record IsRegistered (charger tenant : ℕ) (status : RegistrationStatus) (s : ChargerRegistry)
    : Type 0 where
  pub entry : Charger
  pub found : lookup charger s ≡ some entry
  pub tenant_is : entry.tenant_id ≡ tenant
  pub status_is : entry.status ≡ status

boot-IsRegistered :
    (b : Boot) (charger tenant : ℕ) (status : RegistrationStatus) (s : ChargerRegistry)
    → IsRegistered charger tenant status s
    → IsRegistered charger tenant status (upsert_on_boot b s).1
unfolding upsert_on_boot
boot-IsRegistered b charger tenant status s h = elim (Bool-cases (b.charger_id == charger)) [
  | inl same ↦ record {
    entry = rebooted b h.entry;
    found = ground (arith, lookup-insert b.charger_id charger (rebooted b h.entry) s, h.found);
    tenant_is = h.tenant_is;
    status_is = h.status_is;
  }
  | inr other ↦ elim (Option-cases (lookup b.charger_id s)) [
    | inl e ↦ record {
      entry = h.entry;
      found = ground (arith, lookup-insert b.charger_id charger (new_charger b) s, h.found);
      tenant_is = h.tenant_is;
      status_is = h.status_is;
    }
    | inr (c, e) ↦ record {
      entry = h.entry;
      found = ground (arith, lookup-insert b.charger_id charger (rebooted b c) s, h.found);
      tenant_is = h.tenant_is;
      status_is = h.status_is;
    }
  ]
]

-- Boots of any chargers, this one included and whatever tenant they name, leave a registered
-- charger's tenant and registration status as they were.
pub boots_keep_registration :
    (bs : List Boot) (charger tenant : ℕ) (status : RegistrationStatus) (s : ChargerRegistry)
    → IsRegistered charger tenant status s
    → IsRegistered charger tenant status (boot_all bs s)
boots_keep_registration [] charger tenant status s h = h
boots_keep_registration (b ∷ bs) charger tenant status s h =
    boots_keep_registration bs charger tenant status (upsert_on_boot b s).1
      (boot-IsRegistered b charger tenant status s h)
