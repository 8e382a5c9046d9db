-- ===== src/Bindings/Examples.antt =====
-- The bindings of one organization, and a device of it.
use hara_control.Common.{
  find, any, keep, update_where, has, ◌≡◌, refl, true, false, none, some, [], ◌∷◌, conflict, err,
  Fault, failure, ◌⊎◌, ok,
}
use hara_control.Host.Plain.{plain}
use hara_control.Json.{bool, str, obj, Fields, end, field}
use hara_control.Ssrf.{
  no_ip, is_blocked_ipv4, is_always_blocked_ip, Network, check_addresses, addresses,
  assert_url_allowed, fetch_hop, fetch_hops, safe_fetch,
}
use hara_control.Fleet.{DeviceRow}
use hara_control.Secrets.{Secret, store_secret, put, open_secret, get_versioned, get, remove}
use hara_control.Bindings.{
  binding_of, has_provisioned_desk_devices, write_binding, upsert_locked, judge_current,
  commit_verification_result, Captured, reserve_device, reserve_for, reserve_locked,
}
use hara_control.Bindings.Types.{
  desk_tasks, customer_hosted, cn, pending_verification, active, Config, Binding, UpsertDto, Db,
}
use hara_control.Bindings.Requests.{
  Url, ParseUrl, service_kind, is_loopback, normalize_present, normalize_url, normalize_audience,
  is_credential, checked_config,
}
use hara_control.Bindings.Probe.{
  Reader, health_path, member, too_large, is_success, is_healthy, probe, read_json, verify_health,
  verify_jwks,
}
use hara_control.Bindings.Service.{
  Actor, log_binding, dropped, upsert_done, upsert_stored, verify_passed, verify_row, found_binding,
  stored_credential, upsert_checked, credential_readable, upsert, checks, verify_found, verify,
}
use hara_control.Bindings.Desk.{enroll_key, desk_revocation_resolution}
use hara_control.Bindings.Steps.{
  Step, upsert_step, verify_step, reserve_step, enroll_step, Reach, here, next,
}
use hara_control.Bindings.Provenance.{IsFenced}
use hara_control.Bindings.Fenced.{Reach-IsFenced}
use hara_control.Bindings.Versions.{IsVerified, verify-IsVerified}
use hara_control.Bindings.Errors.{IsUnlogged, upsert_fault}
use hara_control.Bindings.Revocable.{Reach-revocable}
use hara_control.Secrets.Marking.{marking}

abbrev desk_config : Config
desk_config = record {
  mode = customer_hosted;
  account_region = cn;
  api_origin = "https://d";
  issuer = none;
  jwks_uri = none;
  audience = none;
}

abbrev laptop : DeviceRow
laptop = record {
  id = "d1";
  org_id = "o1";
  name = "laptop";
  os = "macos";
  hara_version = "1";
  last_seen_at = 1;
  revocation_requested_at = none;
  revocation_completed_at = none;
  desk_provisioned_at = none;
  desk_cleanup_pending_at = none;
  desk_owner = none;
  desk_origin = none;
  enroll_code_id = none;
  person_id = none;
}

abbrev desk_secret : Secret
desk_secret = record {
  id = "s1";
  org_id = some "o1";
  name = "r1";
  envelope = record { ciphertext = 1 ∷ 9 ∷ []; wrapped_dek = []; key_ref = "k" };
  version = 1;
  created_at = 3;
  updated_at = 3;
}

abbrev empty_db : Db
empty_db = record {
  bindings = [];
  devices = [];
  secrets = desk_secret ∷ [];
  organizations = "o1" ∷ [];
  audits = [];
}

empty_db-IsFenced : IsFenced empty_db
empty_db-IsFenced = record { table = tt; matched = tt }

abbrev new_desk : Binding
new_desk = record {
  id = "b1";
  org_id = "o1";
  service = desk_tasks;
  config = desk_config;
  credential_ref = some "r1";
  status = pending_verification;
  capabilities_version = 1;
  config_version = 1;
  verified_at = none;
  created_at = 5;
  updated_at = 5;
}

abbrev active_desk : Binding
active_desk = record new_desk { status = active; verified_at = some 6; updated_at = 6 }

abbrev held_laptop : DeviceRow
held_laptop = record laptop {
  desk_cleanup_pending_at = some 7;
  desk_owner = some "a@b";
  desk_origin = some "https://d";
}

abbrev configured_db : Db
configured_db = record empty_db { bindings = new_desk ∷ [] }

configured_db-IsFenced : IsFenced configured_db
configured_db-IsFenced = record { table = (tt, tt); matched = tt }

abbrev verified_db : Db
verified_db = record empty_db { bindings = active_desk ∷ [] }

abbrev held_db : Db
held_db = record verified_db { devices = held_laptop ∷ [] }

-- A binding is configured and verified, and a device is enrolled and reserved.
upserted : Step empty_db configured_db
unfolding upsert_locked write_binding binding_of has_provisioned_desk_devices find any
upserted = upsert_step 5 "b1" "o1" desk_tasks desk_config none (some "r1") new_desk none tt refl

verified : Step configured_db verified_db
unfolding commit_verification_result judge_current binding_of find update_where
verified = verify_step 6 new_desk active (some 6) (some active_desk) refl

enrolled : Step verified_db (record verified_db { devices = laptop ∷ [] })
enrolled = enroll_step laptop refl refl

abbrev captured_desk : Captured
captured_desk = record {
  managed_configured = true;
  prepared = true;
  target = some ("https://d", "r1");
}

held : Step (record verified_db { devices = laptop ∷ [] }) held_db
unfolding reserve_locked reserve_for reserve_device binding_of find update_where
held = reserve_step 7 "o1" "d1" "a@b" none captured_desk (λ _. refl, tt) refl

abbrev run : Reach empty_db held_db
run = next (next (next (next here upserted) verified) enrolled) held

Reach-IsFenced_example : IsFenced held_db
unfolding upserted verified enrolled held
Reach-IsFenced_example = Reach-IsFenced run ((((tt, tt), tt), tt), tt) empty_db-IsFenced

abbrev desk_url : Url
desk_url = record {
  protocol = "https:";
  hostname = "d";
  username = "";
  password = "";
  search = "";
  hash = "";
  pathname = "/";
  origin = "https://d";
  href = "https://d/";
}

abbrev parse : ParseUrl
parse = λ u. some desk_url

Reach-revocable_example :
    desk_revocation_resolution marking plain parse "o1" "https://d" held_db
    ≡ ok (record { managed_configured = true; target = some ("https://d", 9 ∷ []) })
unfolding binding_of find normalize_url normalize_present is_loopback enroll_key get get_versioned
    open_secret upserted verified enrolled held
Reach-revocable_example =
    Reach-revocable marking plain parse held_laptop "d1" "https://d" "r1" active_desk (9 ∷ []) run
      ((((tt, tt), tt), tt), tt) empty_db-IsFenced refl refl refl refl refl refl refl

abbrev refused : UpsertDto
refused = record {
  mode = customer_hosted;
  account_region = cn;
  api_origin = some "https://e";
  issuer = none;
  jwks_uri = none;
  audience = none;
  credential = some "k2";
  capabilities_version = none;
}

abbrev admin : Actor
admin = record { via_shared_key = false; actor_id = "u1" }

second_upsert_fails :
    upsert plain parse marking none 4 8 "b2" "s2" "r2" "o1" "DESK_TASKS" refused admin held_db ≡ (
      err (
          conflict
            "revoke every provisioned Desk device before changing this organization binding"),
      held_db,
    )
unfolding upsert upsert_checked upsert_stored upsert_done stored_credential upsert_locked
    has_provisioned_desk_devices any dropped remove keep find put store_secret has checked_config
    service_kind normalize_url normalize_present normalize_audience is_loopback is_credential
second_upsert_fails = refl

-- Before a device is enrolled the same upsert is accepted, and its audit row fails.
abbrev unlogged : Fault
unlogged = failure "serialization"

configure_without_log_fails :
    (upsert plain parse marking
      (some unlogged)
      4
      8
      "b2"
      "s2"
      "r2"
      "o1"
      "DESK_TASKS"
      refused
      admin
      verified_db).0
    ≡ err unlogged
unfolding upsert upsert_checked upsert_stored upsert_done stored_credential upsert_locked
    has_provisioned_desk_devices any dropped remove keep find put store_secret has checked_config
    service_kind normalize_url normalize_present normalize_audience is_loopback is_credential
    binding_of write_binding update_where
configure_without_log_fails = refl

upsert_fault_example :
    (held_db ≡ held_db)
    ⊎ IsUnlogged marking
        (λ l.
          upsert plain parse marking l 4 8 "b2" "s2" "r2" "o1" "DESK_TASKS" refused admin held_db)
        admin
        none
        (conflict "revoke every provisioned Desk device before changing this organization binding")
        held_db
upsert_fault_example =
    upsert_fault marking plain parse none 4 8 "b2" "s2" "r2" "o1" "DESK_TASKS" refused admin held_db
      held_db _ (refl, tt) second_upsert_fails

-- Desk answers that it serves the organization.
abbrev desk_answer : Fields
desk_answer = field "ok" (bool true) (
    field "deployment"
      (obj (
        field "mode" (str "self-hosted")
          (field "tenancy" (str "single-organization") (field "realmId" (str "o1") end))))
      end)

abbrev desk_net : Network
desk_net = record {
  parse_url = λ u. some ("https:", "d");
  read_ip = λ t. no_ip;
  lookup = λ h. ok ("up" ∷ []);
  resolve = λ loc url. loc;
  fetch = λ u. record { status = 200; location = none; content_length = some 90; body = some "x" };
}

abbrev reader : Reader
reader = record { parse_json = λ s. some (obj desk_answer); byte_length = λ s. 90 }

abbrev enrolled_db : Db
enrolled_db = record configured_db { devices = laptop ∷ [] }

abbrev answered_db : Db
unfolding log_binding
answered_db =
    log_binding "tenant-service.verify" admin end active_desk
      (record enrolled_db { bindings = active_desk ∷ [] })

verified_desk :
    verify plain parse desk_net reader marking none 6 "o1" "DESK_TASKS" admin configured_db
      enrolled_db
    ≡ (ok active_desk, answered_db)
unfolding verify verify_found verify_row verify_passed checks credential_readable verify_health
    verify_jwks probe read_json is_healthy member commit_verification_result judge_current
    binding_of find update_where service_kind safe_fetch fetch_hops fetch_hop assert_url_allowed
    addresses check_addresses is_always_blocked_ip is_blocked_ipv4 health_path get get_versioned
    open_secret log_binding has any too_large is_success
verified_desk = refl

verify-IsVerified_example :
    (probed : Binding) × (found_binding "o1" "DESK_TASKS" configured_db ≡ ok probed)
    × IsVerified plain parse desk_net reader marking 6 configured_db answered_db probed active_desk
verify-IsVerified_example =
    verify-IsVerified plain parse desk_net reader marking none 6 "o1" "DESK_TASKS" admin
      configured_db enrolled_db answered_db active_desk (next here (enroll_step laptop refl refl))
      configured_db-IsFenced verified_desk
