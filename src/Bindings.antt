-- ===== src/Bindings.antt =====
-- src/service-bindings/service-bindings.service.ts: the transactions on an organization's service
-- bindings, each under the lock of its organization and service.
pub mod Types
pub mod Requests
pub mod Probe
pub mod Service
pub mod Steps
pub mod Changes
pub mod Provenance
pub mod Reservation
pub mod Fenced
pub mod Versions
pub mod Errors
pub mod Desk
pub mod Revocable
mod Examples
use hara_control.Common.{
  find, any, update_where, ℕ, ◌+◌, String, Bool, true, false, not, ◌&&◌, Option, none, some, List,
  [], ◌∷◌, ◌++◌, ◌==◌, eqb, if◌then◌else◌, is_some, or_else, not_found, conflict, failure, Outcome,
  ok, ensure, require, ◌>>=◌, ◌>>◌,
}
use hara_control.Fleet.{DeviceRow, device_by_id, is_attached, reserved}
use hara_control.Bindings.Types.{
  ServiceKind, desk_tasks, BindingStatus, pending_verification, disabled, Config, Binding, Db,
  kind_eqb, is_active, by_id, by_service,
}

unfoldable pub binding_of : String → ServiceKind → List Binding → Option Binding
binding_of org_id service rows = find (by_service org_id service) rows

-- hasProvisionedDeskDevices
unfoldable pub has_provisioned_desk_devices : String → List DeviceRow → Bool
has_provisioned_desk_devices org_id rows = any (λ d. (d.org_id == org_id) && is_attached d) rows

abbrev pub first_of : Option String → Option String → Option String
first_of none b = b
first_of (some a) b = some a

abbrev pub same_ref : Option String → Option String → Bool
same_ref none none = true
same_ref (some a) (some b) = a == b
same_ref _ _ = false

-- `update` of the upsert
abbrev pub reconfigured : ℕ → Config → Option ℕ → Option String → Binding → Binding
reconfigured now config capabilities new_ref b = record b {
  config = config;
  credential_ref = first_of new_ref b.credential_ref;
  status = pending_verification;
  capabilities_version = or_else capabilities b.capabilities_version;
  config_version = b.config_version + 1;
  verified_at = none;
  updated_at = now;
}

-- `create` of the upsert
abbrev pub configured :
    ℕ → String → String → ServiceKind → Config → Option ℕ → Option String → Binding
configured now new_id org_id service config capabilities new_ref = record {
  id = new_id;
  org_id = org_id;
  service = service;
  config = config;
  credential_ref = new_ref;
  status = pending_verification;
  capabilities_version = or_else capabilities 1;
  config_version = 1;
  verified_at = none;
  created_at = now;
  updated_at = now;
}

abbrev pub retired_ref : Option String → Option String → Option String
retired_ref none existing = none
retired_ref (some new) existing = if same_ref existing (some new) then none else existing

-- The upsert itself: the row, the credential reference that it retires, and the bindings.
unfoldable pub write_binding :
    ℕ
    → String
    → String
    → ServiceKind
    → Config
    → Option ℕ
    → Option String
    → Option Binding
    → List Binding
    → Binding × Option String × List Binding
write_binding now new_id org_id service config capabilities new_ref none rows =
    let row = configured now new_id org_id service config capabilities new_ref in
    (row, none, rows ++ row ∷ [])
write_binding now new_id org_id service config capabilities new_ref (some existing) rows =
    let row = reconfigured now config capabilities new_ref existing in
    (
      row,
      retired_ref new_ref existing.credential_ref,
      update_where (by_id existing.id) (λ b. row) rows,
    )

-- The transaction of `upsert`.
unfoldable pub upsert_locked :
    ℕ
    → String
    → String
    → ServiceKind
    → Config
    → Option ℕ
    → Option String
    → Db
    → Outcome (Binding × Option String × Db)
upsert_locked now new_id org_id service config capabilities new_ref db = do
  ensure (not (kind_eqb service desk_tasks && has_provisioned_desk_devices org_id db.devices))
      (conflict "revoke every provisioned Desk device before changing this organization binding")
  let written =
      write_binding now new_id org_id service config capabilities new_ref
        (binding_of org_id service db.bindings) db.bindings
  ok (written.0, written.1, record db { bindings = written.2 })

abbrev pub switched_off : ℕ → Binding → Binding
switched_off now b = record b {
  status = disabled;
  config_version = b.config_version + 1;
  verified_at = none;
  updated_at = now;
}

-- The transaction of `disable`.
unfoldable pub disable_locked : ℕ → String → ServiceKind → Db → Outcome (Binding × Db)
disable_locked now org_id service db = do
  row ← require (binding_of org_id service db.bindings) (not_found "organization service not found")
  ensure (not (kind_eqb service desk_tasks && has_provisioned_desk_devices org_id db.devices))
      (conflict "revoke every provisioned Desk device before disabling this organization binding")
  ok (
    switched_off now row,
    record db { bindings = update_where (by_id row.id) (λ b. switched_off now row) db.bindings },
  )

abbrev pub judged : ℕ → BindingStatus → Option ℕ → Binding → Binding
judged now status verified_at b = record b {
  status = status;
  verified_at = verified_at;
  updated_at = now;
}

abbrev pub is_probed : Binding → Binding → Bool
is_probed probed current =
    (current.id == probed.id) && eqb current.config_version probed.config_version

unfoldable pub judge_current :
    ℕ → Binding → BindingStatus → Option ℕ → Option Binding → Db → Option Binding × Db
judge_current now probed status verified_at none db = (none, db)
judge_current now probed status verified_at (some current) db =
    if is_probed probed current
    then (
      some (judged now status verified_at current),
      record db {
        bindings =
            update_where (by_id current.id) (λ b. judged now status verified_at current)
              db.bindings;
      },
    )
    else (none, db)

-- commitVerificationResult
unfoldable pub commit_verification_result :
    ℕ → Binding → BindingStatus → Option ℕ → Db → Option Binding × Db
commit_verification_result now probed status verified_at db =
    judge_current now probed status verified_at
      (binding_of probed.org_id probed.service db.bindings) db

-- What a reservation captures: managedConfigured, prepared, and the managed target's url and
-- credential reference.
pub record Captured : Type 0 where
  pub managed_configured : Bool
  pub prepared : Bool
  pub target : Option (String × String)

-- tx.device.update: an unknown id is an error of the database.
unfoldable pub reserve_device : ℕ → String → String → String → Db → Outcome Db
reserve_device at device_id owner origin db = do
  found ← require (find (device_by_id device_id) db.devices) (failure "P2025")
  ok (record db {
    devices =
        update_where (device_by_id device_id) (λ d. reserved at owner origin found) db.devices;
  })

unfoldable pub reserve_for :
    ℕ → String → String → Option String → Option Binding → Db → Outcome (Captured × Db)
reserve_for at device_id owner legacy (some row) db =
    if not (is_active row.status)
    then ok (record { managed_configured = true; prepared = false; target = none }, db)
    else do
      ref ←
          require row.credential_ref
            (failure "active Hara Desk binding has no enrollment credential reference")
      db' ← reserve_device at device_id owner row.config.api_origin db
      ok (
        record {
          managed_configured = true;
          prepared = true;
          target = some (row.config.api_origin, ref);
        },
        db',
      )
reserve_for at device_id owner none none db =
    ok (record { managed_configured = false; prepared = false; target = none }, db)
reserve_for at device_id owner (some origin) none db =
    if origin == ""
    then ok (record { managed_configured = false; prepared = false; target = none }, db)
    else do
      db' ← reserve_device at device_id owner origin db
      ok (record { managed_configured = false; prepared = true; target = none }, db')

-- The transaction of `reserveDeskProvisioning`.
unfoldable pub reserve_locked :
    ℕ → String → String → String → Option String → Db → Outcome (Captured × Db)
reserve_locked at org_id device_id owner legacy db =
    reserve_for at device_id owner legacy (binding_of org_id desk_tasks db.bindings) db

abbrev pub is_reserved : String → String → String → String → DeviceRow → Bool
is_reserved org_id device_id owner origin d =
    (d.id == device_id)
    && ((d.org_id == org_id)
        && ((not (is_some d.desk_provisioned_at) && is_some d.desk_cleanup_pending_at)
            && (same_ref d.desk_owner (some owner) && same_ref d.desk_origin (some origin))))

abbrev pub detached : DeviceRow → DeviceRow
detached d = record d { desk_cleanup_pending_at = none; desk_owner = none; desk_origin = none }

-- clearDeskProvisioningReservation
unfoldable pub clear_reservation : String → String → String → String → Db → Db
clear_reservation org_id device_id owner origin db = record db {
  devices = update_where (is_reserved org_id device_id owner origin) detached db.devices;
}
