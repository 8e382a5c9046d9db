-- ===== src/Enroll/Fences.antt =====
-- Control remembers where it sends a registration before it sends it.
use hara_control.Common.{
  find, update_where, find-true, find-replace, ℕ, String, ◌≡◌, refl, sym, ap, ◌∙◌, subst, ◌⊎◌, inl,
  inr, Bool, true, false, Option, none, some, ◌==◌, if◌then◌else◌, Bool-cases, failure, ok, require,
  ◌>>=◌, >>=-eq-ok, Outcome-cases, require_lem,
}
use hara_control.Fleet.{DeviceRow, device_by_id, is_attached, reserved}
use hara_control.Secrets.{Kms}
use hara_control.Bindings.{binding_of, Captured, reserve_device, reserve_for, reserve_locked}
use hara_control.Bindings.Types.{desk_tasks, Binding, Db, is_active}
use hara_control.Bindings.Desk.{
  Reservation, enroll_key, opened_reservation, captured_reservation, reserve_desk_provisioning,
}
use hara_control.Enroll.Provisioner.{Target}
use hara_control.Enroll.Registration.{url_of, selected}

-- The stored row of the device holds on to an installation of this owner at this origin.
pub record IsHeld (device_id owner origin : String) (db : Db) : Type 0 where
  pub row : DeviceRow
  pub stored : find (device_by_id device_id) db.devices ≡ some row
  pub attached : is_attached row ≡ true
  pub at_origin : row.desk_origin ≡ some origin
  pub of_owner : row.desk_owner ≡ some owner

module _ (at : ℕ) (device_id owner : String) where
  reserve_device-IsHeld :
      (origin : String) (db db' : Db)
      → reserve_device at device_id owner origin db ≡ ok db'
      → IsHeld device_id owner origin db'
  unfolding reserve_device
  reserve_device-IsHeld origin db db' e =
      let (found, e1, e2) =
        >>=-eq-ok (require (find (device_by_id device_id) db.devices) (failure "P2025")) _ e in
      let hit = require_lem (find (device_by_id device_id) db.devices) (failure "P2025") e1 in
      let left : record db {
        devices =
            update_where (device_by_id device_id) (λ d. reserved at owner origin found) db.devices;
      }
          ≡ db' =
        cc e2 in
      rw (← left) record {
        row = reserved at owner origin found;
        stored =
            find-replace (device_by_id device_id) (reserved at owner origin found) db.devices hit
              (find-true (device_by_id device_id) db.devices hit);
        attached = refl;
        at_origin = refl;
        of_owner = refl;
      }

  -- What a reservation captured: nothing, or the origin that the device's row now has.
  pub data Captures (legacy : Option String) (captured : Captured) (db' : Db) : Type 0 where
    nothing : captured.prepared ≡ false → captured.target ≡ none → Captures legacy captured db'
    managed :
        (origin ref : String)
        → captured.target ≡ some (origin, ref)
        → IsHeld device_id owner origin db'
        → Captures legacy captured db'
    from_operator :
        (origin : String)
        → legacy ≡ some origin
        → captured.target ≡ none
        → IsHeld device_id owner origin db'
        → Captures legacy captured db'

  device-Captures :
      (origin : String) (captured out : Captured) (db db' : Db)
      → ◌>>=◌ {B = Captured × Db}
          (reserve_device at device_id owner origin db)
          (λ left. ok (captured, left))
        ≡ ok (out, db')
      → (captured ≡ out) × IsHeld device_id owner origin db'
  device-Captures origin captured out db db' e =
      let (left, e1, e2) = >>=-eq-ok (reserve_device at device_id owner origin db) _ e in
      let same : left ≡ db' = cc e2 in
      (cc e2, subst (IsHeld device_id owner origin) same (reserve_device-IsHeld origin db left e1))

  reserve-Captures :
      (legacy : Option String) (o : Option Binding) (captured : Captured) (db db' : Db)
      → reserve_for at device_id owner legacy o db ≡ ok (captured, db')
      → Captures legacy captured db'
  unfolding reserve_for
  reserve-Captures legacy (some row) captured db db' e = elim (Bool-cases (is_active row.status)) [
    | inr idle ↦
        let same : record { managed_configured = true; prepared = false; target = none }
            ≡ captured =
          cc (rw idle at e) in
        nothing (ap (λ c. c.prepared) (sym same)) (ap (λ c. c.target) (sym same))
    | inl live ↦
        let (ref, _, e1) =
          >>=-eq-ok
            (require row.credential_ref
              (failure "active Hara Desk binding has no enrollment credential reference"))
            _ (rw live at e) in
        let (same, held) = device-Captures row.config.api_origin _ captured db db' e1 in
        managed row.config.api_origin ref (ap (λ c. c.target) (sym same)) held
  ]
  reserve-Captures none none captured db db' e =
      let same : record { managed_configured = false; prepared = false; target = none } ≡ captured =
        cc e in
      nothing (ap (λ c. c.prepared) (sym same)) (ap (λ c. c.target) (sym same))
  reserve-Captures (some origin) none captured db db' e = elim (Bool-cases (origin == "")) [
    | inl empty ↦
        let same : record { managed_configured = false; prepared = false; target = none }
            ≡ captured =
          cc (rw empty at e) in
        nothing (ap (λ c. c.prepared) (sym same)) (ap (λ c. c.target) (sym same))
    | inr given ↦
        let (same, held) = device-Captures origin _ captured db db' (rw given at e) in
        from_operator origin refl (ap (λ c. c.target) (sym same)) held
  ]

  -- A reservation that is prepared: its target, if there is one, is at the origin held.
  abbrev pub IsCaptured : Option Target → Reservation → Db → Type 0
  IsCaptured legacy r db' =
      (r.prepared ≡ false)
      ⊎ ((origin : String) × IsHeld device_id owner origin db'
          × ((t : Target) → selected legacy r ≡ some t → t.url ≡ origin))

  captured-IsCaptured :
      (kms : Kms) (legacy : Option Target) (org_id : String) (captured : Captured) (db before : Db)
      (r : Reservation) (db' : Db)
      → Captures (url_of legacy) captured db
      → captured_reservation kms org_id device_id owner (ok (captured, db)) before ≡ (ok r, db')
      → IsCaptured legacy r db'
  unfolding captured_reservation opened_reservation
  captured-IsCaptured kms legacy org_id captured db before r db' (nothing p t) e =
      let e1 = rw t at e in let same : captured.prepared ≡ r.prepared = cc e1 in inl (sym same ∙ p)
  captured-IsCaptured kms legacy org_id captured db before r db' (managed origin ref t held) e =
      let message : String = "active Hara Desk binding has no readable enrollment credential" in
      elim (Outcome-cases (enroll_key kms message org_id ref db.secrets)) [
        | inr (fault, k) ↦ cc (rw (t, k) at e)
        | inl (key, k) ↦
            let e1 = rw (t, k) at e in
            let left : db ≡ db' = cc e1 in
            let out : record {
              managed_configured = true;
              prepared = true;
              target = some (origin, key);
            }
                ≡ r =
              cc e1 in
            inr (origin, subst (IsHeld device_id owner origin) left held, rw (← out) (λ t s. cc s))
      ]
  captured-IsCaptured kms legacy org_id captured db before r db' (from_operator origin l t held) e =
      let e1 = rw t at e in
      let left : db ≡ db' = cc e1 in
      let out : record {
        managed_configured = captured.managed_configured;
        prepared = captured.prepared;
        target = none;
      }
          ≡ r =
        cc e1 in
      inr (
        origin,
        subst (IsHeld device_id owner origin) left held,
        rw (← out) (operator_url legacy captured.managed_configured l),
      )
    where
      operator_url :
          (legacy : Option Target) (explicit : Bool)
          → url_of legacy ≡ some origin
          → (t : Target) → (if explicit then none else legacy) ≡ some t
          → t.url ≡ origin
      operator_url none explicit l t s = cc l
      operator_url (some u) true l t s = cc s
      operator_url (some u) false l t s = cc (l, s)

  pub reserve-IsCaptured :
      (kms : Kms) (legacy : Option Target) (org_id : String) (db : Db) (r : Reservation) (db' : Db)
      → reserve_desk_provisioning kms at org_id device_id owner (url_of legacy) db ≡ (ok r, db')
      → IsCaptured legacy r db'
  unfolding reserve_desk_provisioning reserve_locked captured_reservation
  reserve-IsCaptured kms legacy org_id db r db' e =
      elim (Outcome-cases (
        reserve_for at device_id owner (url_of legacy) (binding_of org_id desk_tasks db.bindings)
          db)) [
            | inr (fault, locked) ↦ cc (rw locked at e)
            | inl ((captured, left), locked) ↦
                captured-IsCaptured kms legacy org_id captured left db r db'
                  (reserve-Captures (url_of legacy) _ captured db left locked) (rw locked at e)
          ]
