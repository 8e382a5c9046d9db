-- ===== src/Enroll/Further.antt =====
-- The requests of a registration for a further Agent of an enrolled device.
use hara_control.Common.{
  Bool, String, ap, ◌∙◌, [], ◌∷◌, ◌≡◌, refl, sym, inl, inr, false, Option, none, some, List, ◌==◌,
  eq_iff, Bool-cases, failure, Outcome, err, ok, ensure, >>=-eq-ok,
}
use hara_control.Host.{Host}
use hara_control.Secrets.{Kms}
use hara_control.Bindings.Types.{Db}
use hara_control.Bindings.Requests.{ParseUrl}
use hara_control.Bindings.Probe.{Reader}
use hara_control.Bindings.Desk.{Reservation}
use hara_control.Enroll.Provisioner.{
  Target, ProvisionedDesk, ProvisioningInput, Asked, given_or, bounded_identity, desk_origin,
}
use hara_control.Enroll.Registration.{
  RemoteCall, register_call, revoke_call, Answers, Result, Identity, expected, identity, resolved,
  selected, compensated, registered, register_at, register_resolved, register_identity,
  provision_for_enrollment, provision_run,
}

abbrev pub IsRegisterAt : String → RemoteCall → Type 0
IsRegisterAt origin (register_call target asked) = target.url ≡ origin
IsRegisterAt origin (revoke_call target org_id owner installation_id) = ⊥

abbrev pub IsSingleCall : String → List RemoteCall → Type 0
IsSingleCall origin [] = Unit
IsSingleCall origin (call ∷ []) = IsRegisterAt origin call
IsSingleCall origin (call ∷ next ∷ calls) = ⊥

-- At most one request, a registration at the origin, and no change of the tables.
pub record IsSingle (origin : String) (db : Db) (r : Result) : Type 0 where
  pub kept : r.db ≡ db
  pub single : IsSingleCall origin r.calls

expected_of : Outcome Identity → Option String
expected_of (ok who) = who.expected_url
expected_of (err fault) = none

address_of : Outcome (Option String) → Option String
address_of (ok url) = url
address_of (err fault) = none

identity-expected :
    (host : Host) (parse_url : ParseUrl) (input : ProvisioningInput) (who : Identity)
    (origin : Option String)
    → expected host parse_url input.expected_url ≡ ok origin
    → identity host parse_url input ≡ ok who
    → who.expected_url ≡ origin
unfolding identity expected_of address_of
identity-expected host parse_url input who origin named e =
    let (owner, _, e1) = >>=-eq-ok (bounded_identity host (some input.owner) 256) _ e in
    let (device_name, _, e2) =
      >>=-eq-ok (bounded_identity host (some input.device_name) 256) _ e1 in
    let (id, _, e3) = >>=-eq-ok (bounded_identity host (some input.installation_id) 160) _ e2 in
    let (platform, _, e4) =
      >>=-eq-ok (bounded_identity host (some (given_or (some input.platform) "unknown")) 40) _ e3 in
    let (version, _, e5) =
      >>=-eq-ok (bounded_identity host (some (given_or (some input.version) "unknown")) 40) _ e4 in
    let (kind, _, e6) = >>=-eq-ok (bounded_identity host (some input.client_kind) 80) _ e5 in
    let (instance_id, _, e7) =
      >>=-eq-ok (bounded_identity host (some (given_or input.instance_id "default")) 80) _ e6 in
    let (_, _, e8) =
      >>=-eq-ok
        (ensure (instance_id == host.to_lower instance_id)
          (failure "Desk Agent instance must use a canonical lowercase identifier"))
        _ e7 in
    let (name, _, e9) =
      >>=-eq-ok (bounded_identity host (some (given_or input.agent_name device_name)) 120) _ e8 in
    let (url, at, e10) = >>=-eq-ok (expected host parse_url input.expected_url) _ e9 in
    sym (ap expected_of e10) ∙ (sym (ap address_of at) ∙ ap address_of named)

module _ (host : Host) (reader : Reader) (stringify : List String → String)
    (answers : Answers) where
  registered-IsSingle :
      (target : Target) (asked : Asked) (origin : String) (db : Db) (out : Outcome ProvisionedDesk)
      → target.url ≡ origin
      → IsSingle origin db (registered reader answers false target asked db out)
  unfolding registered compensated
  registered-IsSingle target asked origin db (ok binding) at = record { kept = refl; single = at }
  registered-IsSingle target asked origin db (err fault) at = record { kept = refl; single = at }

  register_at-IsSingle :
      (org_id : String) (who : Identity) (prepared : Bool) (origin : String) (o : Option Target)
      (db : Db)
      → who.expected_url ≡ some origin
      → IsSingle origin db (
          register_at host reader stringify answers
            (record { compensate_uncertain = false; control_reservation = none })
            org_id
            who
            prepared
            o
            db)
  unfolding register_at
  register_at-IsSingle org_id who prepared origin none db named = record {
    kept = refl;
    single = tt;
  }
  register_at-IsSingle org_id who prepared origin (some t) db named =
      rw named (elim (Bool-cases (origin == t.url)) [
        | inr other ↦ rw other record { kept = refl; single = tt }
        | inl right ↦
            rw right (registered-IsSingle t _ origin db _ (sym ((eq_iff origin t.url).0 right)))
      ])

  -- The registration of a further Agent, if it names the address of the device's installation,
  -- sends at most one request: a registration at the origin of that address, and never a
  -- revocation of the installation, however the request ends; and it changes no table.
  pub provision-IsSingle :
      (kms : Kms) (parse_url : ParseUrl) (legacy : Option Target) (input : ProvisioningInput)
      (url origin : String) (db : Db)
      → input.expected_url ≡ some url
      → (url == "") ≡ false
      → desk_origin host parse_url (some url) ≡ ok origin
      → IsSingle origin db
          (provision_run host reader stringify answers kms parse_url legacy input db)
  unfolding provision_run provision_for_enrollment register_identity register_resolved resolved
  provision-IsSingle kms parse_url legacy input url origin db given named at =
      identified (identity host parse_url input) refl
    where
      address : expected host parse_url input.expected_url ≡ ok (some origin)
      address = rw (given, named, at) refl

      resolved_out :
          (who : Identity) (o : Outcome Reservation)
          → who.expected_url ≡ some origin
          → IsSingle origin db (
              register_resolved host reader stringify answers legacy
                (record { compensate_uncertain = false; control_reservation = none })
                input.org_id
                who
                (o, db))
      resolved_out who (err fault) e = record { kept = refl; single = tt }
      resolved_out who (ok r) e =
          register_at-IsSingle input.org_id who r.prepared origin (selected legacy r) db e

      identified :
          (o : Outcome Identity)
          → identity host parse_url input ≡ o
          → IsSingle origin db (
              register_identity host reader stringify answers kms legacy
                (record { compensate_uncertain = false; control_reservation = none })
                input.org_id
                o
                db)
      identified (err fault) e = record { kept = refl; single = tt }
      identified (ok who) e =
          resolved_out who _ (identity-expected host parse_url input who (some origin) address e)
