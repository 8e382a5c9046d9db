-- ===== src/Bindings/Reservation.antt =====
-- What a reservation of a device leaves.
use hara_control.Common.{
  All-map, only-Apart, find, update_where, All, find-none, ℕ, String, ◌≡◌, ap, inl, inr, true,
  false, Option, none, some, arith, ◌==◌, eq_iff, Bool-cases, failure, ok, require, ◌>>=◌,
  >>=-eq-ok, require_lem,
}
use hara_control.Fleet.{DeviceRow, device_by_id, reserved}
use hara_control.Bindings.Types.{desk_tasks, Binding, Db, is_active, by_service}
use hara_control.Bindings.{binding_of, Captured, reserve_device, reserve_for}
use hara_control.Bindings.Steps.{clash, IsTable}
use hara_control.Bindings.Changes.{kind_eqb-eq, kind_eqb_refl}

-- What a reservation leaves: the devices as they were, or one of them reserved at the origin that
-- every Desk binding of the organization names.
pub data Reserves (at : ℕ) (org_id device_id owner : String) (db db' : Db) : Type 0 where
  untouched : db' ≡ db → Reserves at org_id device_id owner db db'
  taken :
      (found : DeviceRow) (origin : String)
      → find (device_by_id device_id) db.devices ≡ some found
      → All (λ b. by_service org_id desk_tasks b ≡ true → b.config.api_origin ≡ origin) db.bindings
      → record db {
        devices =
            update_where (device_by_id device_id) (λ d. reserved at owner origin found) db.devices;
      }
        ≡ db'
      → Reserves at org_id device_id owner db db'

module _ (at : ℕ) (org_id device_id owner : String) (db : Db) where
  device-Reserves :
      (origin : String) (captured : Captured) (out : Captured) (db' : Db)
      → All (λ b. by_service org_id desk_tasks b ≡ true → b.config.api_origin ≡ origin) db.bindings
      → ◌>>=◌ {B = Captured × Db}
          (reserve_device at device_id owner origin db)
          (λ left. ok (captured, left))
        ≡ ok (out, db')
      → Reserves at org_id device_id owner db db'
  unfolding reserve_device
  device-Reserves origin captured out db' named e =
      let (left, e1, e2) = >>=-eq-ok (reserve_device at device_id owner origin db) _ e in
      let (found, e3, e4) =
        >>=-eq-ok (require (find (device_by_id device_id) db.devices) (failure "P2025")) _ e1 in
      taken found origin
        (require_lem (find (device_by_id device_id) db.devices) (failure "P2025") e3) named
        (cc (e2, e4))

  pub reserve-Reserves :
      (legacy : Option String) (o : Option Binding) (captured : Captured) (db' : Db)
      → binding_of org_id desk_tasks db.bindings ≡ o
      → IsTable db.bindings
      → reserve_for at device_id owner legacy o db ≡ ok (captured, db')
      → Reserves at org_id device_id owner db db'
  unfolding reserve_for binding_of
  reserve-Reserves legacy (some row) captured db' found h e =
      elim (Bool-cases (is_active row.status)) [
        | inr idle ↦ untouched (cc (rw idle at e))
        | inl live ↦
            let (ref, _, e1) =
              >>=-eq-ok
                (require row.credential_ref
                  (failure "active Hara Desk binding has no enrollment credential reference"))
                _ (rw live at e) in
            device-Reserves row.config.api_origin _ captured db'
              (All-map (λ b. by_service org_id desk_tasks b ≡ true → b ≡ row)
                (λ b.
                  by_service org_id desk_tasks b ≡ true
                  → b.config.api_origin ≡ row.config.api_origin)
                db.bindings (λ b only mine. ap (λ r. r.config.api_origin) (only mine))
                (only-Apart clash (by_service org_id desk_tasks) db.bindings same_key found h))
              e1
      ]
    where
      same_key :
          (y z : Binding)
          → by_service org_id desk_tasks y ≡ true
          → by_service org_id desk_tasks z ≡ true
          → clash y z ≡ true
      same_key y z a b = ground (
        arith,
        eq_iff y.org_id org_id,
        eq_iff z.org_id org_id,
        eq_iff z.org_id y.org_id,
        kind_eqb-eq y.service desk_tasks,
        kind_eqb-eq z.service desk_tasks,
        kind_eqb_refl desk_tasks,
      )
  reserve-Reserves none none captured db' absent h e = untouched (cc e)
  reserve-Reserves (some origin) none captured db' absent h e = elim (Bool-cases (origin == "")) [
    | inl empty ↦ untouched (cc (rw empty at e))
    | inr given ↦
        device-Reserves origin _ captured db'
          (All-map (λ b. by_service org_id desk_tasks b ≡ false)
            (λ b. by_service org_id desk_tasks b ≡ true → b.config.api_origin ≡ origin) db.bindings
            (λ b miss mine. ground (arith, miss, mine))
            (find-none (by_service org_id desk_tasks) db.bindings absent))
          (rw given at e)
  ]
