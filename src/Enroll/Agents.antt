-- ===== src/Enroll/Agents.antt =====
-- src/enroll/enroll.service.ts: what a device asks for with its token once it is enrolled, the
-- credential of a further Desk Agent and the heartbeat.
use hara_control.Common.{
  find, update_where, ℕ, String, Bool, true, false, ◌&&◌, Option, none, some, List, ◌==◌, leb,
  if◌then◌else◌, is_some, or_else, Fault, unauthorized, bad_request, unavailable, failure, Outcome,
  err, ok, ensure, require, ◌>>=◌, ◌>>◌, append, text_length,
}
use hara_control.Host.{desk_instance, Host}
use hara_control.Tokens.{ValidatableToken, Env, assert_token_usable}
use hara_control.Models.{
  managed_model_capabilities, managed_models_thinking_efforts, resolve_enrollment_model,
  enrollment_managed_models, managed_key_authorization_models,
}
use hara_control.Fleet.{DeviceRow, device_by_id}
use hara_control.Secrets.{Kms}
use hara_control.Bindings.Requests.{ParseUrl}
use hara_control.Bindings.Probe.{Reader}
use hara_control.Enroll.Provisioner.{Target, ProvisionedDesk, given_or, target_of}
use hara_control.Enroll.Registration.{
  Attempt, unprovisioned, provisioned, thrown, failed, Answers, provision,
}
use hara_control.Enroll.Installation.{given}
use hara_control.Enroll.Exchange.{TokenRow, World}
use hara_control.Enroll.Saga.{with_devices}

abbrev pub by_hash : String → TokenRow → Bool
by_hash hash t = t.token_hash == hash

abbrev pub checkable : Option TokenRow → Option ValidatableToken
checkable none = none
checkable (some t) = some (record {
  revoked_at = t.revoked_at;
  expires_at = t.expires_at;
  device_id = t.device_id;
  gateway_key_id = t.gateway_key_id;
})

-- ProvisionDeskAgentDto
pub record AgentInput : Type 0 where
  pub client_kind : String
  pub instance_id : Option String
  pub name : Option String

pub record AgentReply : Type 0 where
  pub desk : ProvisionedDesk
  pub client_kind : String
  pub instance_id : String

-- HeartbeatDto; an absent text is the empty one.
pub record HeartbeatReply : Type 0 where
  pub model : String
  pub available_models : List String
  pub model_capabilities : List (String × List String)
  pub thinking_efforts : List String
  pub default_reasoning_effort : Option String
  pub expires_at : Option ℕ

abbrev pub unprovisioned_desk : Fault
unprovisioned_desk = unavailable "Hara Desk is not provisioned for this organization device"

abbrev pub same_text : Option String → Option String → Bool
same_text none none = true
same_text (some a) (some b) = a == b
same_text _ _ = false

-- Its Desk registration still stands, at the same origin and for the same owner.
abbrev pub is_same_installation : DeviceRow → DeviceRow → Bool
is_same_installation d current =
    ((current.id == d.id) && is_some current.desk_provisioned_at)
    && (same_text current.desk_owner d.desk_owner && same_text current.desk_origin d.desk_origin)

abbrev pub provided : Attempt → Outcome ProvisionedDesk
provided unprovisioned =
    err (unavailable "Hara Desk provisioning is unavailable for this organization")
provided (provisioned receipt) = ok receipt.binding
provided (thrown fault) = err fault
provided (failed confirmed url) = err (failure "Hara Desk provisioning failed")

abbrev pub seen : ℕ → String → String → DeviceRow → DeviceRow
seen now version os d = record d {
  last_seen_at = now;
  hara_version = if version == "" then d.hara_version else version;
  os = if os == "" then d.os else os;
}

module _ (host : Host) (env : Env) where
  -- The token of a bearer, if it is usable, and its device.
  unfoldable pub bearer_token : ℕ → Option String → World → Outcome TokenRow
  bearer_token now bearer w = do
    text ← require (given bearer) (unauthorized "missing token")
    let found = find (by_hash (host.sha256 text)) w.tokens
    assert_token_usable host env none now (checkable found)
    require found (unauthorized "revoked or unknown token")

  unfoldable pub bearer_device : ℕ → Option String → World → Outcome DeviceRow
  bearer_device now bearer w = do
    t ← bearer_token now bearer w
    require (find (device_by_id t.device_id) w.db.devices) (failure "P2025")

  -- input.instance_id?.trim() || "default", checked
  unfoldable pub instance_of : Option String → Outcome String
  instance_of instance_id =
      let id = given_or (some (host.trim (or_else instance_id ""))) "default" in
      do
        ensure
            (id == host.to_lower id && (leb (text_length id) 80 && host.matches desk_instance id))
            (bad_request
              "Desk Agent instance must use 1-80 lowercase letters, numbers, dots, underscores, or dashes")
        ok id

  module _ (parse_url : ParseUrl) (reader : Reader) (stringify : List String → String) (kms : Kms)
      (legacy : List (String × Target)) where
    -- provisionDeskAgent: it reads `w`, registers, and reads `later`.
    unfoldable pub provision_desk_agent :
        ℕ → ℕ → Answers → Option String → AgentInput → World → World → Outcome AgentReply
    provision_desk_agent now then_at answers bearer input w later = do
      d ← bearer_device now bearer w
      ensure (is_some d.desk_provisioned_at) unprovisioned_desk
      owner ← require (given d.desk_owner) unprovisioned_desk
      origin ← require (given d.desk_origin) unprovisioned_desk
      instance_id ← instance_of input.instance_id
      desk ← provided (
          provision host reader stringify answers kms parse_url (target_of legacy d.org_id)
            (record {
              org_id = d.org_id;
              owner = owner;
              device_name = d.name;
              installation_id = d.id;
              platform = given_or (some d.os) "unknown";
              version = given_or (some d.hara_version) "unknown";
              client_kind = input.client_kind;
              instance_id = some instance_id;
              agent_name = some (
                  given_or (some (host.trim (or_else input.name "")))
                    (append input.client_kind (append " · " d.name)));
              expected_url = some origin;
            })
            w.db)
      current ← bearer_device then_at bearer later
      ensure (is_same_installation d current) (
          unavailable
            "Hara Desk installation changed while the Agent credential was being provisioned")
      ok (record { desk = desk; client_kind = input.client_kind; instance_id = instance_id })

  abbrev pub synced : Option Fault → Outcome (Unit {0})
  synced none = ok tt
  synced (some fault) = err fault

  -- heartbeat: the models that the gateway is asked to allow for the key, its answer, and the tables.
  unfoldable pub heartbeat :
      ℕ
      → (String → List String → Option Fault)
      → Option String
      → String
      → String
      → World
      → Outcome (HeartbeatReply × World)
  heartbeat now sync bearer version os w = do
    t ← bearer_token now bearer w
    model ← resolve_enrollment_model host env (some t.model)
    models ← enrollment_managed_models host env model
    synced (sync t.gateway_key_id (managed_key_authorization_models host t.model models))
    found ← require (find (device_by_id t.device_id) w.db.devices) (failure "P2025")
    ok (
      record {
        model = model;
        available_models = models;
        model_capabilities = managed_model_capabilities host models;
        thinking_efforts = managed_models_thinking_efforts host models;
        default_reasoning_effort =
            if t.reasoning_effort == "" then none else some t.reasoning_effort;
        expires_at = t.expires_at;
      },
      with_devices (update_where (device_by_id t.device_id) (seen now version os)) w,
    )
