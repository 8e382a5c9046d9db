-- ===== src/Enroll/Saga.antt =====
-- src/enroll/enroll.service.ts: `enroll`, as its writes, its calls of the gateway and of Desk, and
-- the compensation of each that is completed when a later one fails. What each of them gives back
-- is an argument.
use hara_control.Common.{
  keep, update_where, ℕ, String, Bool, true, false, not, Option, none, some, List, [], ◌∷◌, ◌++◌,
  ◌==◌, if◌then◌else◌, failure, Outcome, err, ok,
}
use hara_control.Host.{whitespace, any_control_character, Host}
use hara_control.Json.{str, obj, end, field}
use hara_control.Models.{managed_model_capabilities, managed_models_thinking_efforts}
use hara_control.Fleet.{DeviceRow, device_by_id, desk_provisioned}
use hara_control.Secrets.{Kms}
use hara_control.Audit.Call.{AuditCall}
use hara_control.Bindings.Types.{Binding}
use hara_control.Bindings.Requests.{ParseUrl}
use hara_control.Bindings.Probe.{Reader}
use hara_control.Bindings.Service.{active_for_enrollment}
use hara_control.Enroll.Provisioner.{
  Target, ProvisionedDesk, ProvisioningInput, given_or, target_of,
}
use hara_control.Enroll.Registration.{
  Attempt, unprovisioned, provisioned, thrown, failed, Result, provision_for_enrollment,
}
use hara_control.Enroll.Exchange.{Organization, TokenRow, World, Admitted}
use hara_control.Enroll.Progress.{
  IssuedKey, DeviceInfo, Events, Reply, Progress, Run, done, stopped, plain, guarded,
}

abbrev pub new_device : ℕ → Events → DeviceInfo → Admitted → DeviceRow
new_device now events info a = record {
  id = events.device_id;
  org_id = a.code.org_id;
  name = info.name;
  os = info.os;
  hara_version = info.hara_version;
  last_seen_at = now;
  revocation_requested_at = none;
  revocation_completed_at = none;
  desk_provisioned_at = none;
  desk_cleanup_pending_at = none;
  desk_owner = none;
  desk_origin = none;
  enroll_code_id = some a.code.id;
  person_id = a.code.person_id;
}

abbrev pub with_devices : (List DeviceRow → List DeviceRow) → World → World
with_devices f w = record w { db = record w.db { devices = f w.db.devices } }

abbrev pub with_audit : AuditCall → World → World
with_audit call w = record w { db = record w.db { audits = w.db.audits ++ call ∷ [] } }

abbrev pub other_key : String → String → Bool
other_key key_id k = not (k == key_id)

abbrev pub other_device : String → DeviceRow → Bool
other_device id d = not (device_by_id id d)

abbrev pub token_of_other : String → TokenRow → Bool
token_of_other id t = not (t.device_id == id)

-- device.delete; the tokens of the device go with it.
unfoldable pub delete_device : String → World → World
delete_device id w = record (with_devices (keep (other_device id)) w) {
  tokens = keep (token_of_other id) w.tokens;
}

-- The gateway's keys after a call of `issueKey` in litellm.adapter.ts that throws: the alias stays
-- if the gateway has stored it and the clean-up, whose failure is only logged, did not remove it.
abbrev pub orphaned_keys : Option String → Outcome IssuedKey → List String → List String
orphaned_keys none issue keys = keys
orphaned_keys (some alias) (ok key) keys = keys
orphaned_keys (some alias) (err fault) keys = keys ++ alias ∷ []

abbrev pub orphaned : Option String → Outcome IssuedKey → World → World
orphaned orphan issue w = record w { keys = orphaned_keys orphan issue w.keys }

module _ (host : Host) (parse_url : ParseUrl) (reader : Reader) (stringify : List String → String)
    (kms : Kms) (legacy : List (String × Target)) where
  unfoldable pub tenant_name : Organization → String
  tenant_name organization =
      given_or
        (some (
          host.prefix 80 (
            host.trim (
              host.replace whitespace " "
                (host.replace any_control_character " " organization.name)))))
        organization.id

  abbrev pub reply_of :
      Events → Admitted → IssuedKey → List Binding → Option ProvisionedDesk → Reply
  reply_of events a key services desk = record {
    device_token = key.key;
    device_id = events.device_id;
    tenant_id = a.organization.id;
    tenant_name = tenant_name a.organization;
    model = a.model;
    available_models = a.models;
    model_capabilities = managed_model_capabilities host a.models;
    thinking_efforts = managed_models_thinking_efforts host a.models;
    default_reasoning_effort =
        if a.code.reasoning_effort == "" then none else some a.code.reasoning_effort;
    base_url = a.code.base_url;
    expires_at = key.expires_at;
    access_policy = a.policy;
    service_bindings = services;
    desk = desk;
  }

  abbrev pub desk_input : Events → DeviceInfo → Admitted → ProvisioningInput
  desk_input events info a = record {
    org_id = a.code.org_id;
    owner = a.owner;
    device_name = info.name;
    installation_id = events.device_id;
    platform = given_or (some info.os) "unknown";
    version = given_or (some info.hara_version) "unknown";
    client_kind = given_or (some info.client_kind) "nanhara.hara-desktop";
    instance_id = none;
    agent_name = none;
    expected_url = none;
  }

  -- device.update, once Desk has registered the device
  unfoldable pub finish_desk :
      ℕ → Events → Admitted → IssuedKey → List Binding → Attempt → Progress → Run
  finish_desk now events a key services unprovisioned p =
      done (reply_of events a key services none) p.world
  finish_desk now events a key services (provisioned receipt) p =
      guarded events.finish (record p { receipt = some receipt })
        (done (reply_of events a key services (some receipt.binding)) (
          with_devices
            (update_where (device_by_id events.device_id)
              (desk_provisioned now a.owner receipt.binding.url))
            p.world))
  finish_desk now events a key services (thrown fault) p = stopped (plain fault) p
  finish_desk now events a key services (failed confirmed url) p =
      stopped
        (record {
          fault = failure "Hara Desk provisioning failed";
          desk_failure = some (confirmed, url);
        })
        p

  unfoldable pub desk_result : ℕ → Events → DeviceInfo → Admitted → World → Result
  desk_result now events info a w =
      provision_for_enrollment host reader stringify events.desk kms parse_url
        (target_of legacy a.code.org_id) (desk_input events info a)
        (record { compensate_uncertain = true; control_reservation = some (events.device_id, now) })
        w.db

  unfoldable pub desk_step : ℕ → Events → DeviceInfo → Admitted → IssuedKey → Progress → Run
  desk_step now events info a key p =
      let result = desk_result now events info a p.world in
      finish_desk now events a key (active_for_enrollment a.code.org_id p.world.db) result.attempt
        (record p { prepared = result.prepared; world = record p.world { db = result.db } })

  -- The payload without the access policy.
  abbrev pub enroll_audit : Events → DeviceInfo → Admitted → AuditCall
  enroll_audit events info a = record {
    org_id = a.code.org_id;
    action = "enroll";
    actor_type = "device";
    actor_id = events.device_id;
    payload = obj (field "name" (str info.name) (field "os" (str info.os) end));
  }

  abbrev pub new_token : Events → Admitted → IssuedKey → TokenRow
  new_token events a key = record {
    device_id = events.device_id;
    token_hash = host.sha256 key.key;
    gateway_key_id = key.key_id;
    model = a.model;
    reasoning_effort = a.code.reasoning_effort;
    expires_at = key.expires_at;
    revoked_at = none;
    policy = a.policy;
  }

  unfoldable pub log_step : ℕ → Events → DeviceInfo → Admitted → IssuedKey → Progress → Run
  log_step now events info a key p = guarded events.log p (
      desk_step now events info a key
        (record p { logged = true; world = with_audit (enroll_audit events info a) p.world }))

  unfoldable pub token_step : ℕ → Events → DeviceInfo → Admitted → IssuedKey → Progress → Run
  token_step now events info a key p = guarded events.store_token p (
      log_step now events info a key (record p {
        world = record p.world { tokens = p.world.tokens ++ new_token events a key ∷ [] };
      }))

  unfoldable pub issue_step :
      ℕ → Events → DeviceInfo → Admitted → Outcome IssuedKey → Progress → Run
  issue_step now events info a (err fault) p =
      stopped (plain fault) (record p { world = orphaned events.orphan (err fault) p.world })
  issue_step now events info a (ok key) p = token_step now events info a key (record p {
    issued = some key;
    world = record p.world { keys = p.world.keys ++ key.key_id ∷ [] };
  })

  abbrev pub claimed_progress : World → Progress
  claimed_progress w = record {
    device = none;
    issued = none;
    logged = false;
    receipt = none;
    prepared = false;
    world = w;
  }

  -- The try block, after the claim.
  unfoldable pub try_enroll : ℕ → Events → DeviceInfo → Admitted → World → Run
  try_enroll now events info a w = guarded events.create (claimed_progress w) (
      issue_step now events info a events.issue (record (claimed_progress w) {
        device = some events.device_id;
        world = with_devices (λ rows. rows ++ new_device now events info a ∷ []) w;
      }))
