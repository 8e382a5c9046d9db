-- ===== src/Enroll/Elsewhere.antt =====
-- A registration leaves the rows of every other device as they are.
use hara_control.Common.{
  keep-update_where, find, keep, update_where, find-true, ℕ, String, ◌≡◌, refl, ap, ◌∙◌, inl, inr,
  Bool, true, not, ◌&&◌, Option, none, some, List, arith, Bool-cases, is_some, failure, Outcome,
  err, ok, require, >>=-eq-ok, require_lem,
}
use hara_control.Host.{Host}
use hara_control.Fleet.{device_by_id, reserved}
use hara_control.Secrets.{Kms}
use hara_control.Bindings.{
  Captured, reserve_device, reserve_locked, is_reserved, detached, clear_reservation,
}
use hara_control.Bindings.Types.{Db}
use hara_control.Bindings.Requests.{ParseUrl}
use hara_control.Bindings.Probe.{Reader}
use hara_control.Bindings.Desk.{
  Reservation, opened_reservation, captured_reservation, reserve_desk_provisioning,
}
use hara_control.Enroll.Provisioner.{
  Target, ProvisionedDesk, ProvisioningInput, read_revocation, accepts, Asked,
}
use hara_control.Enroll.Registration.{
  Attempt, failed, Options, Answers, Result, Identity, identity, url_of, resolved, selected,
  is_expected, compensated, registered, register_at, register_resolved, register_identity,
  provision_for_enrollment,
}
use hara_control.Enroll.Saga.{other_device}
use hara_control.Bindings.Changes.{reserve_for-cases}

abbrev pub Elsewhere : String → Db → Db → Type 0
Elsewhere id db db' = keep (other_device id) db'.devices ≡ keep (other_device id) db.devices

device-Elsewhere :
    (at : ℕ) (id owner origin : String) (db db' : Db)
    → reserve_device at id owner origin db ≡ ok db'
    → Elsewhere id db db'
unfolding reserve_device
device-Elsewhere at id owner origin db db' e =
    let (found, e1, e2) =
      >>=-eq-ok (require (find (device_by_id id) db.devices) (failure "P2025")) _ e in
    let hit =
      find-true (device_by_id id) db.devices
        (require_lem (find (device_by_id id) db.devices) (failure "P2025") e1) in
    let left : record db {
      devices = update_where (device_by_id id) (λ d. reserved at owner origin found) db.devices;
    }
        ≡ db' =
      cc e2 in
    rw (← left) (
      keep-update_where (other_device id) (device_by_id id) (λ d. reserved at owner origin found)
        db.devices (λ d mine. (ap not mine, ap not hit)))

clear-Elsewhere :
    (org_id id owner origin : String) (db : Db)
    → Elsewhere id db (clear_reservation org_id id owner origin db)
unfolding clear_reservation
clear-Elsewhere org_id id owner origin db =
    keep-update_where (other_device id) (is_reserved org_id id owner origin) detached db.devices
      (λ d mine. (ground arith, ground arith))

module _ (kms : Kms) where
  reserve-Elsewhere :
      (at : ℕ) (org_id id owner : String) (legacy : Option String) (db : Db)
      → Elsewhere id db (reserve_desk_provisioning kms at org_id id owner legacy db).1
  unfolding reserve_desk_provisioning opened_reservation captured_reservation reserve_locked
  reserve-Elsewhere at org_id id owner legacy db =
      locked (reserve_locked at org_id id owner legacy db) refl
    where
      opened :
          (captured : Captured) (url : String) (o : Outcome (List ℕ)) (left : Db)
          → Elsewhere id left (opened_reservation kms org_id id owner captured url o left).1
      opened captured url (ok key) left = refl
      opened captured url (err fault) left = clear-Elsewhere org_id id owner url left

      targeted :
          (captured : Captured) (target : Option (String × String)) (left : Db)
          → captured.target ≡ target
          → Elsewhere id left (captured_reservation kms org_id id owner (ok (captured, left)) db).1
      targeted captured none left t = rw t refl
      targeted captured (some (url, ref)) left t = rw t (opened captured url _ left)

      locked :
          (o : Outcome (Captured × Db))
          → reserve_locked at org_id id owner legacy db ≡ o
          → Elsewhere id db (captured_reservation kms org_id id owner o db).1
      locked (err fault) e = refl
      locked (ok (captured, left)) e =
          targeted captured captured.target left refl
          ∙ elim (reserve_for-cases at id owner legacy _ db captured left e) [
            | inl same ↦ ap (λ x. keep (other_device id) x.devices) same
            | inr (origin, held) ↦ device-Elsewhere at id owner origin db left held
          ]

abbrev pub Confirms : Bool → Attempt → Type 0
Confirms accepted (failed confirmed url) = confirmed ≡ accepted
Confirms accepted _ = Unit

module _ (host : Host) (reader : Reader) (stringify : List String → String)
    (answers : Answers) where
  -- What a registration for a device leaves: the other devices, and how its failure is confirmed.
  pub record IsLocal (id : String) (db : Db) (out : Result) : Type 0 where
    pub elsewhere : Elsewhere id db out.db
    pub confirmed : Confirms (accepts (read_revocation reader true answers.revoke)) out.attempt

  registered-IsLocal :
      (id : String) (target : Target) (asked : Asked) (db : Db) (o : Outcome ProvisionedDesk)
      → IsLocal id db (registered reader answers true target asked db o)
  unfolding registered compensated
  registered-IsLocal id target asked db (ok binding) = record { elsewhere = refl; confirmed = tt }
  registered-IsLocal id target asked db (err fault) = record { elsewhere = refl; confirmed = refl }

  register_at-IsLocal :
      (id : String) (options : Options) (org_id : String) (who : Identity) (prepared : Bool)
      (o : Option Target) (db : Db)
      → options.compensate_uncertain ≡ true
      → IsLocal id db (register_at host reader stringify answers options org_id who prepared o db)
  unfolding register_at
  register_at-IsLocal id options org_id who prepared none db c = record {
    elsewhere = refl;
    confirmed = tt;
  }
  register_at-IsLocal id options org_id who prepared (some t) db c =
      elim (Bool-cases (is_expected who.expected_url t.url)) [
        | inr other ↦ rw other record { elsewhere = refl; confirmed = tt }
        | inl right ↦ elim (Bool-cases (is_some options.control_reservation && not prepared)) [
          | inl unprepared ↦ rw (right, unprepared) record { elsewhere = refl; confirmed = tt }
          | inr ready ↦ rw (right, ready, c) (registered-IsLocal id t _ db _)
        ]
      ]

  pub provision-IsLocal :
      (kms : Kms) (parse_url : ParseUrl) (legacy : Option Target) (input : ProvisioningInput)
      (id : String) (at : ℕ) (db : Db)
      → IsLocal id db (
          provision_for_enrollment host reader stringify answers kms parse_url legacy input
            (record { compensate_uncertain = true; control_reservation = some (id, at) })
            db)
  unfolding provision_for_enrollment register_identity register_resolved resolved
  provision-IsLocal kms parse_url legacy input id at db = named (identity host parse_url input)
    where
      options : Options
      options = record { compensate_uncertain = true; control_reservation = some (id, at) }

      reserved_out :
          (who : Identity) (o : Outcome Reservation × Db)
          → Elsewhere id db o.1
          → IsLocal id db
              (register_resolved host reader stringify answers legacy options input.org_id who o)
      reserved_out who (err fault, left) e = record { elsewhere = e; confirmed = tt }
      reserved_out who (ok r, left) e =
          let at_left =
            register_at-IsLocal id options input.org_id who r.prepared (selected legacy r) left
              refl in
          record { elsewhere = at_left.elsewhere ∙ e; confirmed = at_left.confirmed }

      named :
          (o : Outcome Identity)
          → IsLocal id db
              (register_identity host reader stringify answers kms legacy options input.org_id o db)
      named (err fault) = record { elsewhere = refl; confirmed = tt }
      named (ok who) =
          reserved_out who _ (reserve-Elsewhere kms at input.org_id id who.owner (url_of legacy) db)
