-- ===== src/Bindings/Changes.antt =====
-- Each step changes the bindings in one of three ways, and keeps their keys unique.
use hara_control.Common.{
  find, update_where, All, find-true, ℕ, String, ◌≡◌, refl, sym, ap, ◌∙◌, ◌⊎◌, inl, inr, true,
  false, not, ◌&&◌, Option, none, some, List, arith, ◌==◌, eq_iff, Bool-cases, not_found, conflict,
  failure, ok, ensure, require, >>=-eq-ok, require_lem,
}
use hara_control.Fleet.{DeviceRow, device_by_id, reserved}
use hara_control.Bindings.Types.{
  ServiceKind, model_control, desk_tasks, collab, extension_catalog, BindingStatus, Config, Binding,
  Db, kind_eqb, is_active, by_id, by_service,
}
use hara_control.Bindings.{
  binding_of, has_provisioned_desk_devices, reconfigured, configured, write_binding, upsert_locked,
  switched_off, disable_locked, judged, is_probed, judge_current, commit_verification_result,
  Captured, reserve_device, reserve_for, reserve_locked, clear_reservation,
}
use hara_control.Bindings.Steps.{
  Step, upsert_step, disable_step, verify_step, reserve_step, clear_step, enroll_step,
  provision_step, detach_step, delete_step, other_step, IsFree, Change, kept, created, replaced,
}

pub kind_eqb-eq : (a b : ServiceKind) → kind_eqb a b ≡ true → a ≡ b
kind_eqb-eq model_control model_control e = refl
kind_eqb-eq model_control desk_tasks e = cc
kind_eqb-eq model_control collab e = cc
kind_eqb-eq model_control extension_catalog e = cc
kind_eqb-eq desk_tasks model_control e = cc
kind_eqb-eq desk_tasks desk_tasks e = refl
kind_eqb-eq desk_tasks collab e = cc
kind_eqb-eq desk_tasks extension_catalog e = cc
kind_eqb-eq collab model_control e = cc
kind_eqb-eq collab desk_tasks e = cc
kind_eqb-eq collab collab e = refl
kind_eqb-eq collab extension_catalog e = cc
kind_eqb-eq extension_catalog model_control e = cc
kind_eqb-eq extension_catalog desk_tasks e = cc
kind_eqb-eq extension_catalog collab e = cc
kind_eqb-eq extension_catalog extension_catalog e = refl

pub kind_eqb_refl : (a : ServiceKind) → kind_eqb a a ≡ true
kind_eqb_refl model_control = refl
kind_eqb_refl desk_tasks = refl
kind_eqb_refl collab = refl
kind_eqb_refl extension_catalog = refl

-- The row that a search by key finds has the key.
pub found_key :
    (org_id : String) (service : ServiceKind) (rows : List Binding) {b : Binding}
    → binding_of org_id service rows ≡ some b
    → (b.org_id ≡ org_id) × (b.service ≡ service)
unfolding binding_of
found_key org_id service rows {b} e =
    let hit = find-true (by_service org_id service) rows e in
    (ground (arith, eq_iff b.org_id org_id), ground (arith, kind_eqb-eq b.service service))

pub found_own :
    (org_id : String) (service : ServiceKind) (rows : List Binding) {b : Binding}
    → binding_of org_id service rows ≡ some b
    → binding_of b.org_id b.service rows ≡ some b
found_own org_id service rows {b} e =
    let (o, s) = found_key org_id service rows e in
    ap (λ x. binding_of x b.service rows) o ∙ (ap (λ x. binding_of org_id x rows) s ∙ e)

guard-IsFree :
    (org_id org_id' : String) (service service' : ServiceKind) (devices : List DeviceRow)
    → org_id' ≡ org_id
    → service' ≡ service
    → not (kind_eqb service desk_tasks && has_provisioned_desk_devices org_id devices) ≡ true
    → IsFree org_id' service' devices
guard-IsFree org_id org_id' service service' devices o s free = rw (o, s) (λ h. ground arith)

module _ (devices : List DeviceRow) where
  write-Change :
      (now : ℕ) (new_id org_id : String) (service : ServiceKind) (config : Config)
      (capabilities : Option ℕ) (new_ref : Option String) (rows : List Binding) (o : Option Binding)
      → binding_of org_id service rows ≡ o
      → All (λ b. by_id new_id b ≡ false) rows
      → not (kind_eqb service desk_tasks && has_provisioned_desk_devices org_id devices) ≡ true
      → Change devices rows
          (write_binding now new_id org_id service config capabilities new_ref o rows).2
  unfolding write_binding
  write-Change now new_id org_id service config capabilities new_ref rows none absent fresh free =
      created (configured now new_id org_id service config capabilities new_ref) fresh absent
        (guard-IsFree org_id org_id service service devices refl refl free) refl
  write-Change now new_id org_id service config capabilities new_ref rows (some b) found fresh
        free =
      let (o, s) = found_key org_id service rows found in
      replaced b (reconfigured now config capabilities new_ref b)
        (found_own org_id service rows found)
        (record {
          same_id = refl;
          same_org = refl;
          same_service = refl;
          version = inl refl;
          fenced = inl (guard-IsFree org_id b.org_id service b.service devices o s free);
        })
        refl

pub upsert-Change :
    (now : ℕ) (new_id org_id : String) (service : ServiceKind) (config : Config)
    (capabilities : Option ℕ) (new_ref : Option String) (db : Db) (row : Binding)
    (retired : Option String) (db' : Db)
    → All (λ b. by_id new_id b ≡ false) db.bindings
    → upsert_locked now new_id org_id service config capabilities new_ref db
      ≡ ok (row, retired, db')
    → Change db.devices db.bindings db'.bindings × (db'.devices ≡ db.devices)
unfolding upsert_locked
upsert-Change now new_id org_id service config capabilities new_ref db row retired db' fresh e =
    let test =
      not (kind_eqb service desk_tasks && has_provisioned_desk_devices org_id db.devices) in
    let (_, free, e1) = >>=-eq-ok (ensure test _) _ e in
    let e2 : record db {
      bindings =
          (write_binding now new_id org_id service config capabilities new_ref
            (binding_of org_id service db.bindings) db.bindings).2;
    }
        ≡ db' =
      cc e1 in
    rw (← e2) (
      write-Change db.devices now new_id org_id service config capabilities new_ref db.bindings _
          refl fresh (ground arith),
      refl,
    )

pub disable-Change :
    (now : ℕ) (org_id : String) (service : ServiceKind) (db : Db) (row : Binding) (db' : Db)
    → disable_locked now org_id service db ≡ ok (row, db')
    → Change db.devices db.bindings db'.bindings × (db'.devices ≡ db.devices)
unfolding disable_locked
disable-Change now org_id service db row db' e =
    let missing = not_found "organization service not found" in
    let (b, required, e1) =
      >>=-eq-ok (require (binding_of org_id service db.bindings) missing) _ e in
    let found = require_lem (binding_of org_id service db.bindings) missing required in
    let (_, free, e2) =
      >>=-eq-ok
        (ensure
          (not (kind_eqb service desk_tasks && has_provisioned_desk_devices org_id db.devices))
          (conflict
            "revoke every provisioned Desk device before disabling this organization binding"))
        _ e1 in
    let e3 : record db {
      bindings = update_where (by_id b.id) (λ x. switched_off now b) db.bindings;
    }
        ≡ db' =
      cc e2 in
    rw (← e3) (
      replaced b (switched_off now b) (found_own org_id service db.bindings found)
          (record {
            same_id = refl;
            same_org = refl;
            same_service = refl;
            version = inl refl;
            fenced = inr refl;
          })
          refl,
      refl,
    )

pub judge-Change :
    (now : ℕ) (probed : Binding) (status : BindingStatus) (verified_at : Option ℕ) (db : Db)
    (o : Option Binding)
    → binding_of probed.org_id probed.service db.bindings ≡ o
    → Change db.devices db.bindings (judge_current now probed status verified_at o db).1.bindings
      × ((judge_current now probed status verified_at o db).1.devices ≡ db.devices)
unfolding judge_current
judge-Change now probed status verified_at db none absent = (kept refl, refl)
judge-Change now probed status verified_at db (some b) found =
    elim (Bool-cases (is_probed probed b)) [
      | inl same ↦ rw same (
        replaced b (judged now status verified_at b)
            (found_own probed.org_id probed.service db.bindings found)
            (record {
              same_id = refl;
              same_org = refl;
              same_service = refl;
              version = inr (refl, refl, refl);
              fenced = inr refl;
            })
            refl,
        refl,
      )
      | inr other ↦ rw other (kept refl, refl)
    ]

-- A reservation leaves the tables as they were, or reserves the device.
pub reserve_for-cases :
    (at : ℕ) (id owner : String) (legacy : Option String) (o : Option Binding) (db : Db)
    (captured : Captured) (db' : Db)
    → reserve_for at id owner legacy o db ≡ ok (captured, db')
    → (db' ≡ db) ⊎ ((origin : String) × (reserve_device at id owner origin db ≡ ok db'))
unfolding reserve_for
reserve_for-cases at id owner legacy (some row) db captured db' e =
    elim (Bool-cases (is_active row.status)) [
      | inr idle ↦ inl (cc (rw idle at e))
      | inl live ↦
          let (ref, _, e1) =
            >>=-eq-ok
              (require row.credential_ref
                (failure "active Hara Desk binding has no enrollment credential reference"))
              _ (rw live at e) in
          let (left, e2, e3) =
            >>=-eq-ok (reserve_device at id owner row.config.api_origin db) _ e1 in
          inr (row.config.api_origin, cc (e2, e3))
    ]
reserve_for-cases at id owner none none db captured db' e = inl (cc e)
reserve_for-cases at id owner (some origin) none db captured db' e =
    elim (Bool-cases (origin == "")) [
      | inl empty ↦ inl (cc (rw empty at e))
      | inr given ↦
          let (left, e2, e3) = >>=-eq-ok (reserve_device at id owner origin db) _ (rw given at e) in
          inr (origin, cc (e2, e3))
    ]

device-bindings :
    (at : ℕ) (id owner origin : String) (db db' : Db)
    → reserve_device at id owner origin db ≡ ok db'
    → db'.bindings ≡ db.bindings
unfolding reserve_device
device-bindings at id owner origin db db' e =
    let (found, _, e1) =
      >>=-eq-ok (require (find (device_by_id id) db.devices) (failure "P2025")) _ e in
    let stored : record db {
      devices = update_where (device_by_id id) (λ d. reserved at owner origin found) db.devices;
    }
        ≡ db' =
      cc e1 in
    ap (λ x. x.bindings) (sym stored)

reserve-bindings :
    (at : ℕ) (id owner : String) (legacy : Option String) (o : Option Binding) (db : Db)
    (captured : Captured) (db' : Db)
    → reserve_for at id owner legacy o db ≡ ok (captured, db')
    → db'.bindings ≡ db.bindings
reserve-bindings at id owner legacy o db captured db' e =
    elim (reserve_for-cases at id owner legacy o db captured db' e) [
      | inl same ↦ ap (λ x. x.bindings) same
      | inr (origin, held) ↦ device-bindings at id owner origin db db' held
    ]

pub Step-Change : {db db' : Db} → Step db db' → Change db.devices db.bindings db'.bindings
unfolding commit_verification_result reserve_locked clear_reservation
Step-Change {db} {db'}
      (upsert_step now new_id org_id service config capabilities new_ref row retired fresh e) =
    (upsert-Change now new_id org_id service config capabilities new_ref db row retired db' fresh
      e).0
Step-Change {db} {db'} (disable_step now org_id service row e) =
    (disable-Change now org_id service db row db' e).0
Step-Change {db} {db'} (verify_step now probed status verified_at row e) =
    rw (← ap (λ x. x.1) e) (judge-Change now probed status verified_at db _ refl).0
Step-Change {db} {db'} (reserve_step at org_id device_id owner legacy captured mine e) = kept (
    reserve-bindings at device_id owner legacy (binding_of org_id desk_tasks db.bindings) db
      captured db' e)
Step-Change (clear_step org_id device_id owner origin e) = kept (ap (λ x. x.bindings) (sym e))
Step-Change (enroll_step d e1 e) = kept (ap (λ x. x.bindings) (sym e))
Step-Change (provision_step now device_id owner origin e) = kept (ap (λ x. x.bindings) (sym e))
Step-Change (detach_step now device_id e) = kept (ap (λ x. x.bindings) (sym e))
Step-Change (delete_step device_id e) = kept (ap (λ x. x.bindings) (sym e))
Step-Change (other_step e e1) = kept e
