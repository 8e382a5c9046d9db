-- ===== src/Bindings/Steps.antt =====
-- The transactions on bindings and enrolled devices as steps: those of the service of the bindings,
-- and the writes of enrollment and of administration to the devices' Desk columns.
use hara_control.Common.{
  Apart, keep, update_where, All, ℕ, ◌+◌, String, ◌≡◌, ◌⊎◌, Bool, true, false, not, ◌||◌, Option,
  none, some, List, [], ◌∷◌, ◌++◌, ◌==◌, ok,
}
use hara_control.Fleet.{DeviceRow, device_by_id, is_attached, desk_provisioned, revoked}
use hara_control.Bindings.Types.{
  ServiceKind, desk_tasks, BindingStatus, Config, Binding, Db, kind_eqb, by_id, by_service,
}
use hara_control.Bindings.{
  binding_of, has_provisioned_desk_devices, upsert_locked, disable_locked,
  commit_verification_result, Captured, reserve_locked, clear_reservation,
}

-- The unique indices of the table of bindings: the id, and the organization with the service.
abbrev pub clash : Binding → Binding → Bool
clash b c = (c.id == b.id) || by_service b.org_id b.service c

abbrev pub IsTable : List Binding → Type 0
IsTable = Apart clash

-- An atomic change of the tables. A new row gets an id that no stored row has, a reservation names
-- a device of its organization.
pub data Step (db db' : Db) : Type 0 where
  upsert_step :
      (now : ℕ) (new_id org_id : String) (service : ServiceKind) (config : Config)
      (capabilities : Option ℕ) (new_ref : Option String) (row : Binding) (retired : Option String)
      → All (λ b. by_id new_id b ≡ false) db.bindings
      → upsert_locked now new_id org_id service config capabilities new_ref db
        ≡ ok (row, retired, db')
      → Step db db'
  disable_step :
      (now : ℕ) (org_id : String) (service : ServiceKind) (row : Binding)
      → disable_locked now org_id service db ≡ ok (row, db')
      → Step db db'
  verify_step :
      (now : ℕ) (probed : Binding) (status : BindingStatus) (verified_at : Option ℕ)
      (row : Option Binding)
      → commit_verification_result now probed status verified_at db ≡ (row, db')
      → Step db db'
  reserve_step :
      (at : ℕ) (org_id device_id owner : String) (legacy : Option String) (captured : Captured)
      → All (λ d. device_by_id device_id d ≡ true → d.org_id ≡ org_id) db.devices
      → reserve_locked at org_id device_id owner legacy db ≡ ok (captured, db')
      → Step db db'
  clear_step :
      (org_id device_id owner origin : String)
      → clear_reservation org_id device_id owner origin db ≡ db'
      → Step db db'
  enroll_step :
      (d : DeviceRow)
      → is_attached d ≡ false
      → record db { devices = db.devices ++ d ∷ [] } ≡ db'
      → Step db db'
  provision_step :
      (now : ℕ) (device_id owner origin : String)
      → record db {
        devices =
            update_where (device_by_id device_id) (desk_provisioned now owner origin) db.devices;
      }
        ≡ db'
      → Step db db'
  detach_step :
      (now : ℕ) (device_id : String)
      → record db { devices = update_where (device_by_id device_id) (revoked now true) db.devices }
        ≡ db'
      → Step db db'
  delete_step :
      (device_id : String)
      → record db { devices = keep (λ d. not (device_by_id device_id d)) db.devices } ≡ db'
      → Step db db'
  other_step : db'.bindings ≡ db.bindings → db'.devices ≡ db.devices → Step db db'

pub data Reach (db : Db) : Db → Type 0 where
  here : Reach db db
  next : {db' db'' : Db} → Reach db db' → Step db' db'' → Reach db db''

-- The provisioning of a device finds it still reserved at its origin; every other step is timely.
abbrev pub IsTimely : {db db' : Db} → Step db db' → Type 0
IsTimely {db} (provision_step now device_id owner origin e) =
    All
      (λ d.
        device_by_id device_id d ≡ true → (is_attached d ≡ true) × (d.desk_origin ≡ some origin))
      db.devices
IsTimely (upsert_step now new_id org_id service config capabilities new_ref row retired fresh e) =
    Unit
IsTimely (disable_step now org_id service row e) = Unit
IsTimely (verify_step now probed status verified_at row e) = Unit
IsTimely (reserve_step at org_id device_id owner legacy captured mine e) = Unit
IsTimely (clear_step org_id device_id owner origin e) = Unit
IsTimely (enroll_step d e1 e) = Unit
IsTimely (detach_step now device_id e) = Unit
IsTimely (delete_step device_id e) = Unit
IsTimely (other_step e e1) = Unit

-- A run in which no device is detached or removed between its reservation and its provisioning.
abbrev pub IsTimelyRun : {db db' : Db} → Reach db db' → Type 0
IsTimelyRun here = Unit
IsTimelyRun (next r s) = IsTimelyRun r × IsTimely s

-- No device of the organization holds on to a binding of the service.
abbrev pub IsFree : String → ServiceKind → List DeviceRow → Type 0
IsFree org_id service devices =
    kind_eqb service desk_tasks ≡ true → has_provisioned_desk_devices org_id devices ≡ false

-- What a row keeps of the one that it replaces.
pub record IsSuccessor (devices : List DeviceRow) (from to : Binding) : Type 0 where
  pub same_id : to.id ≡ from.id
  pub same_org : to.org_id ≡ from.org_id
  pub same_service : to.service ≡ from.service
  pub version :
      (to.config_version ≡ from.config_version + 1)
      ⊎ ((to.config_version ≡ from.config_version)
          × (to.config ≡ from.config)
          × (to.credential_ref ≡ from.credential_ref))
  pub fenced : IsFree from.org_id from.service devices ⊎ (to.config ≡ from.config)

-- What a step does to the bindings: nothing, a new row, or a successor in place of a stored row.
pub data Change (devices : List DeviceRow) (rows rows' : List Binding) : Type 0 where
  kept : rows' ≡ rows → Change devices rows rows'
  created :
      (row : Binding)
      → All (λ b. by_id row.id b ≡ false) rows
      → binding_of row.org_id row.service rows ≡ none
      → IsFree row.org_id row.service devices
      → rows' ≡ rows ++ row ∷ []
      → Change devices rows rows'
  replaced :
      (from to : Binding)
      → binding_of from.org_id from.service rows ≡ some from
      → IsSuccessor devices from to
      → rows' ≡ update_where (by_id from.id) (λ b. to) rows
      → Change devices rows rows'
