-- ===== src/Enroll/Remembered.antt =====
-- The requests of a registration, and what Control's tables remember of them.
use hara_control.Common.{
  All, ℕ, String, ◌≡◌, refl, sym, subst, inl, inr, Bool, true, false, Option, none, some, List,
  Bool-cases, Outcome, err, ok,
}
use hara_control.Host.{Host}
use hara_control.Secrets.{Kms}
use hara_control.Bindings.Types.{Db}
use hara_control.Bindings.Requests.{ParseUrl}
use hara_control.Bindings.Probe.{Reader}
use hara_control.Bindings.Desk.{Reservation, reserve_desk_provisioning}
use hara_control.Enroll.Provisioner.{Target, ProvisionedDesk, ProvisioningInput, Asked}
use hara_control.Enroll.Registration.{
  RemoteCall, register_call, revoke_call, Options, Answers, Result, Identity, identity, url_of,
  resolved, selected, is_expected, compensated, registered, asked_of, register_at,
  register_resolved, register_identity, provision_for_enrollment,
}
use hara_control.Enroll.Fences.{IsHeld, IsCaptured, reserve-IsCaptured}

-- Where a request of the registration goes, and for whom.
abbrev pub call_url : RemoteCall → String
call_url (register_call target asked) = target.url
call_url (revoke_call target org_id owner installation_id) = target.url

abbrev pub call_owner : RemoteCall → String
call_owner (register_call target asked) = asked.owner
call_owner (revoke_call target org_id owner installation_id) = owner

abbrev pub IsRemembered : String → Db → RemoteCall → Type 0
IsRemembered device_id db call = IsHeld device_id (call_owner call) (call_url call) db

module _ (host : Host) (reader : Reader) (stringify : List String → String)
    (answers : Answers) where
  registered-IsRemembered :
      (compensate : Bool) (target : Target) (asked : Asked) (device_id : String) (db : Db)
      (out : Outcome ProvisionedDesk)
      → IsHeld device_id asked.owner target.url db
      → All
          (IsRemembered device_id (registered reader answers compensate target asked db out).db)
          (registered reader answers compensate target asked db out).calls
  unfolding registered compensated
  registered-IsRemembered compensate target asked device_id db (ok binding) held = (held, tt)
  registered-IsRemembered true target asked device_id db (err fault) held = (held, (held, tt))
  registered-IsRemembered false target asked device_id db (err fault) held = (held, tt)

  register_at-IsRemembered :
      (compensate : Bool) (device_id : String) (at : ℕ) (org_id : String) (who : Identity)
      (legacy : Option Target) (r : Reservation) (o : Option Target) (db : Db)
      → selected legacy r ≡ o
      → IsCaptured at device_id who.owner legacy r db
      → (out : Result)
      → register_at host reader stringify answers
          (record { compensate_uncertain = compensate; control_reservation = some (device_id, at) })
          org_id
          who
          r.prepared
          o
          db
        ≡ out
      → All (IsRemembered device_id out.db) out.calls
  unfolding register_at
  register_at-IsRemembered compensate device_id at org_id who legacy r none db s c out e =
      rw (← e) tt
  register_at-IsRemembered compensate device_id at org_id who legacy r (some t) db s c out e =
      elim (Bool-cases (is_expected who.expected_url t.url)) [
        | inr other ↦ let e1 = rw other at e in rw (← e1) tt
        | inl right ↦ elim (Bool-cases r.prepared) [
          | inr unprepared ↦ let e1 = rw (right, unprepared) at e in rw (← e1) tt
          | inl ready ↦
              let e1 = rw (right, ready) at e in
              rw (← e1) (
                registered-IsRemembered compensate t
                  (asked_of host reader stringify answers t org_id who) device_id db _
                  (held_at ready c))
        ]
      ]
    where
      held_at :
          r.prepared ≡ true
          → IsCaptured at device_id who.owner legacy r db
          → IsHeld device_id who.owner t.url db
      held_at ready (inl unprepared) = cc (ready, unprepared)
      held_at ready (inr (origin, held, names)) =
          subst (λ u. IsHeld device_id who.owner u db) (sym (names t s)) held

  -- Every request of an enrollment's registration, the revocation after a failure included, goes
  -- to the origin, and is for the owner, that the stored row of the device holds on to in the
  -- tables that the registration leaves.
  pub provision-IsRemembered :
      (kms : Kms) (parse_url : ParseUrl) (legacy : Option Target) (input : ProvisioningInput)
      (compensate : Bool) (device_id : String) (at : ℕ) (db : Db) (out : Result)
      → provision_for_enrollment host reader stringify answers kms parse_url legacy input
          (record { compensate_uncertain = compensate; control_reservation = some (device_id, at) })
          db
        ≡ out
      → All (IsRemembered device_id out.db) out.calls
  unfolding provision_for_enrollment register_identity register_resolved resolved
  provision-IsRemembered kms parse_url legacy input compensate device_id at db out e =
      named (identity host parse_url input) e
    where
      options : Options
      options = record {
        compensate_uncertain = compensate;
        control_reservation = some (device_id, at);
      }

      reserved_out :
          (who : Identity) (o : Outcome Reservation × Db)
          → reserve_desk_provisioning kms at input.org_id device_id who.owner (url_of legacy) db ≡ o
          → register_resolved host reader stringify answers legacy options input.org_id who o ≡ out
          → All (IsRemembered device_id out.db) out.calls
      reserved_out who (err fault, left) e1 e2 = rw (← e2) tt
      reserved_out who (ok r, left) e1 e2 =
          register_at-IsRemembered compensate device_id at input.org_id who legacy r
            (selected legacy r) left refl
            (reserve-IsCaptured at device_id who.owner kms legacy input.org_id db r left e1) out e2

      named :
          (o : Outcome Identity)
          → register_identity host reader stringify answers kms legacy options input.org_id o db
            ≡ out
          → All (IsRemembered device_id out.db) out.calls
      named (err fault) e1 = rw (← e1) tt
      named (ok who) e1 = reserved_out who _ refl e1
