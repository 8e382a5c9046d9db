-- ===== src/Enroll/Registration.antt =====
-- src/enroll/desk-provisioner.ts: a registration at Desk. What Desk answers is an argument, and the
-- requests that were sent are listed in their order.
use hara_control.Common.{
  ℕ, String, Bool, true, false, not, ◌&&◌, Option, none, some, List, [], ◌∷◌, ◌==◌, if◌then◌else◌,
  is_some, Fault, failure, Outcome, err, ok, ensure, ◌>>=◌, ◌>>◌, append,
}
use hara_control.Host.{Host}
use hara_control.Ssrf.{Response}
use hara_control.Secrets.{Kms}
use hara_control.Bindings.Types.{Db}
use hara_control.Bindings.Requests.{ParseUrl}
use hara_control.Bindings.Probe.{Reader}
use hara_control.Bindings.Desk.{
  Resolution, Reservation, desk_provisioning_resolution, reserve_desk_provisioning,
}
use hara_control.Enroll.Provisioner.{
  Target, ProvisionedDesk, ProvisioningInput, given_or, bounded_identity, desk_origin,
  read_revocation, accepts, Asked, read_registration,
}

-- DeskProvisioningReceipt: the binding, and what `compensate` revokes.
pub record Receipt : Type 0 where
  pub binding : ProvisionedDesk
  pub target : Target
  pub org_id : String
  pub owner : String
  pub installation_id : String

pub data RemoteCall : Type 0 where
  register_call : Target → Asked → RemoteCall
  revoke_call : Target → (org_id owner installation_id : String) → RemoteCall

-- How `provisionForEnrollment` ends; `failed` is a DeskProvisioningFailure.
pub data Attempt : Type 0 where
  unprovisioned : Attempt
  provisioned : Receipt → Attempt
  thrown : Fault → Attempt
  failed : (compensation_confirmed : Bool) (target_url : String) → Attempt

-- `control_reservation` is the device and the time that it is prepared at.
pub record Options : Type 0 where
  pub compensate_uncertain : Bool
  pub control_reservation : Option (String × ℕ)

-- What the two requests to Desk give back.
pub record Answers : Type 0 where
  pub register : Outcome Response
  pub revoke : Outcome Response

pub record Result : Type 0 where
  pub attempt : Attempt
  pub prepared : Bool
  pub calls : List RemoteCall
  pub db : Db

-- The normalised input.
pub record Identity : Type 0 where
  pub owner : String
  pub device_name : String
  pub installation_id : String
  pub platform : String
  pub version : String
  pub client_kind : String
  pub instance_id : String
  pub agent_name : String
  pub expected_url : Option String

abbrev pub stop : Fault → Db → Result
stop fault db = record { attempt = thrown fault; prepared = false; calls = []; db = db }

module _ (host : Host) (parse_url : ParseUrl) where
  abbrev pub expected : Option String → Outcome (Option String)
  expected none = ok none
  expected (some url) =
      if url == ""
      then ok none
      else do origin ← desk_origin host parse_url (some url); ok (some origin)

  unfoldable pub identity : ProvisioningInput → Outcome Identity
  identity input = do
    owner ← bounded_identity host (some input.owner) 256
    device_name ← bounded_identity host (some input.device_name) 256
    installation_id ← bounded_identity host (some input.installation_id) 160
    platform ← bounded_identity host (some (given_or (some input.platform) "unknown")) 40
    version ← bounded_identity host (some (given_or (some input.version) "unknown")) 40
    client_kind ← bounded_identity host (some input.client_kind) 80
    instance_id ← bounded_identity host (some (given_or input.instance_id "default")) 80
    ensure (instance_id == host.to_lower instance_id)
        (failure "Desk Agent instance must use a canonical lowercase identifier")
    agent_name ← bounded_identity host (some (given_or input.agent_name device_name)) 120
    expected_url ← expected input.expected_url
    ok record {
      owner = owner;
      device_name = device_name;
      installation_id = installation_id;
      platform = platform;
      version = version;
      client_kind = client_kind;
      instance_id = instance_id;
      agent_name = agent_name;
      expected_url = expected_url;
    }

-- "control_" and the digest of JSON.stringify([orgId, installationId, clientKind, instanceId])
abbrev pub provisioning_id : Host → (List String → String) → String → Identity → String
provisioning_id host stringify org_id who = append "control_" (
    host.sha256 (stringify (org_id ∷ who.installation_id ∷ who.client_kind ∷ who.instance_id ∷ [])))

-- What the managed side resolves to: whether a row is there, its target, and whether the device is
-- reserved; with the tables that are left.
abbrev pub as_reserved : Outcome Resolution → Outcome Reservation
as_reserved (err fault) = err fault
as_reserved (ok r) =
    ok (record { managed_configured = r.managed_configured; prepared = false; target = r.target })

abbrev pub url_of : Option Target → Option String
url_of none = none
url_of (some t) = some t.url

unfoldable pub resolved :
    Kms → Option Target → String → String → Option (String × ℕ) → Db → Outcome Reservation × Db
resolved kms legacy org_id owner none db =
    (as_reserved (desk_provisioning_resolution kms org_id db), db)
resolved kms legacy org_id owner (some (device_id, at)) db =
    reserve_desk_provisioning kms at org_id device_id owner (url_of legacy) db

-- managedConfigured ? managedTarget : managedTarget ?? legacyTarget
abbrev pub selected : Option Target → Reservation → Option Target
selected legacy r = elim r.target [
  | some (url, key) ↦ some (record { url = url; enroll_key = key })
  | none ↦ if r.managed_configured then none else legacy
]

abbrev pub is_expected : Option String → String → Bool
is_expected none url = true
is_expected (some e) url = e == url

-- After a registration that failed once it was sent.
unfoldable pub compensated : Reader → Answers → Bool → Target → Asked → Db → Result
compensated reader answers false target asked db = record {
  attempt =
      thrown (failure "Hara Desk Agent provisioning failed; retry the same client and instance");
  prepared = true;
  calls = register_call target asked ∷ [];
  db = db;
}
compensated reader answers true target asked db = record {
  attempt = failed (accepts (read_revocation reader true answers.revoke)) target.url;
  prepared = true;
  calls =
      register_call target asked
      ∷ revoke_call target asked.org_id asked.owner asked.installation_id
      ∷ [];
  db = db;
}

unfoldable pub registered :
    Reader → Answers → Bool → Target → Asked → Db → Outcome ProvisionedDesk → Result
registered reader answers compensate target asked db (ok binding) = record {
  attempt = provisioned (record {
    binding = binding;
    target = target;
    org_id = asked.org_id;
    owner = asked.owner;
    installation_id = asked.installation_id;
  });
  prepared = true;
  calls = register_call target asked ∷ [];
  db = db;
}
registered reader answers compensate target asked db (err fault) =
    compensated reader answers compensate target asked db

module _ (host : Host) (reader : Reader) (stringify : List String → String)
    (answers : Answers) where
  abbrev pub asked_of : Target → String → Identity → Asked
  asked_of target org_id who = record {
    url = target.url;
    org_id = org_id;
    provisioning_id = provisioning_id host stringify org_id who;
    owner = who.owner;
    client_kind = who.client_kind;
    installation_id = who.installation_id;
  }

  unfoldable pub register_at : Options → String → Identity → Bool → Option Target → Db → Result
  register_at options org_id who prepared none db = record {
    attempt = unprovisioned;
    prepared = false;
    calls = [];
    db = db;
  }
  register_at options org_id who prepared (some target) db =
      if not (is_expected who.expected_url target.url)
      then stop
          (failure "Hara Desk provisioning target no longer matches the enrolled installation") db
      else if is_some options.control_reservation && not prepared
      then stop (failure "Hara Desk provisioning reservation was not prepared") db
      else registered reader answers options.compensate_uncertain target
          (asked_of target org_id who) db
          (read_registration host reader (asked_of target org_id who) answers.register)

  unfoldable pub register_resolved :
      Option Target → Options → String → Identity → Outcome Reservation × Db → Result
  register_resolved legacy options org_id who (err fault, db) = stop fault db
  register_resolved legacy options org_id who (ok r, db) =
      register_at options org_id who r.prepared (selected legacy r) db

  unfoldable pub register_identity :
      Kms → Option Target → Options → String → Outcome Identity → Db → Result
  register_identity kms legacy options org_id (err fault) db = stop fault db
  register_identity kms legacy options org_id (ok who) db =
      register_resolved legacy options org_id who
        (resolved kms legacy org_id who.owner options.control_reservation db)

  -- provisionForEnrollment
  unfoldable pub provision_for_enrollment :
      Kms → ParseUrl → Option Target → ProvisioningInput → Options → Db → Result
  provision_for_enrollment kms parse_url legacy input options db =
      register_identity kms legacy options input.org_id (identity host parse_url input) db

  -- The run of `provision`, which neither reserves the device nor compensates, and its answer.
  unfoldable pub provision_run : Kms → ParseUrl → Option Target → ProvisioningInput → Db → Result
  provision_run kms parse_url legacy input db =
      provision_for_enrollment kms parse_url legacy input
        (record { compensate_uncertain = false; control_reservation = none }) db

  pub provision : Kms → ParseUrl → Option Target → ProvisioningInput → Db → Attempt
  provision kms parse_url legacy input db = (provision_run kms parse_url legacy input db).attempt
