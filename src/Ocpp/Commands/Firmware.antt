-- ===== src/Ocpp/Commands/Firmware.antt =====
-- A firmware report reaches the update that the charger was told last.
use evaggregator.Base.{List, [], arith, nat_eq, pair_eq, some, ℕ, ◌∷◌, ◌≡◌, ◌≢◌}
use evaggregator.Ocpp.Commands.{
  FirmwareUpdateStore, get_latest_for_charger, get_update, start_update, update_firmware_status,
}
use evaggregator.Base.Dict.{lookup, lookup-insert_self}

-- The charger was told this version last, for this tenant, and its update has this status.
pub record IsTold (charger tenant version status : ℕ) (s : FirmwareUpdateStore) : Type 0 where
  pub latest : lookup charger s.latest_version_by_charger ≡ some version
  pub entry :
      get_update charger version s
      ≡ some
          (record { charger_id = charger; tenant_id = tenant; version = version; status = status })

start-IsTold :
    (charger tenant version : ℕ) (s : FirmwareUpdateStore)
    → IsTold charger tenant version 0 (start_update charger tenant version s)
unfolding start_update
start-IsTold charger tenant version s = record {
  latest = lookup-insert_self charger version s.latest_version_by_charger;
  entry = lookup-insert_self (charger, version) _ s.updates;
}

report-IsTold :
    (charger tenant version was status : ℕ) (s : FirmwareUpdateStore)
    → IsTold charger tenant version was s
    → IsTold charger tenant version status (update_firmware_status charger version status s).1
unfolding update_firmware_status
report-IsTold charger tenant version was status s h =
    rw (h.entry, update_firmware_status)
      (record { latest = h.latest; entry = lookup-insert_self (charger, version) _ s.updates })

abbrev pub report_all : ℕ → ℕ → List ℕ → FirmwareUpdateStore → FirmwareUpdateStore
report_all charger version [] s = s
report_all charger version (x ∷ xs) s =
    report_all charger version xs (update_firmware_status charger version x s).1

abbrev pub last_status : ℕ → List ℕ → ℕ
last_status was [] = was
last_status was (x ∷ xs) = last_status x xs

reports-IsTold :
    (charger tenant version was : ℕ) (xs : List ℕ) (s : FirmwareUpdateStore)
    → IsTold charger tenant version was s
    → IsTold charger tenant version (last_status was xs) (report_all charger version xs s)
reports-IsTold charger tenant version was [] s h = h
reports-IsTold charger tenant version was (x ∷ xs) s h =
    reports-IsTold charger tenant version x xs (update_firmware_status charger version x s).1
      (report-IsTold charger tenant version was x s h)

-- After an update to a version that is not the empty string has been started and any statuses have
-- been reported for it, the charger's latest update is that one, with the status reported last, or
-- pending if there is none.
pub reports_reach_latest :
    (charger tenant version : ℕ) (xs : List ℕ) (s : FirmwareUpdateStore)
    → version ≢ 0
    → get_latest_for_charger charger
        (report_all charger version xs (start_update charger tenant version s))
      ≡ some (record {
        charger_id = charger;
        tenant_id = tenant;
        version = version;
        status = last_status 0 xs;
      })
unfolding get_latest_for_charger
reports_reach_latest charger tenant version xs s nonempty =
    let h =
      reports-IsTold charger tenant version 0 xs (start_update charger tenant version s)
        (start-IsTold charger tenant version s) in
    ground (arith, h.latest, h.entry)
