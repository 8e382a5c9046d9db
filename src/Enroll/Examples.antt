-- ===== src/Enroll/Examples.antt =====
-- One organization, one code, and the enrollments of one device.
use hara_control.Common.{
  find, any, keep, update_where, length, All, String, ◌≡◌, refl, true, false, none, some, List, [],
  ◌∷◌, failure, Outcome, err, ok,
}
use hara_control.Host.Plain.{plain}
use hara_control.Json.{bool, obj, end, field}
use hara_control.Ssrf.{Response}
use hara_control.Tokens.{Env}
use hara_control.KeyPolicy.{
  StoredPolicy, finite_integer, normalize_limits, normalize_ttl, normalize_access_key_policy,
  read_limits, parse_stored_access_key_policy,
}
use hara_control.License.{LicenseService, seat_limit, seat_check}
use hara_control.Models.{resolve_enrollment_model, enrollment_managed_models}
use hara_control.Secrets.Marking.{marking}
use hara_control.Bindings.{binding_of, reserve_device, reserve_for, reserve_locked}
use hara_control.Bindings.Types.{Db}
use hara_control.Bindings.Requests.{Url, ParseUrl}
use hara_control.Bindings.Probe.{Reader, member}
use hara_control.Bindings.Service.{active_for_enrollment}
use hara_control.Bindings.Desk.{
  resolve_row, desk_provisioning_resolution, captured_reservation, reserve_desk_provisioning,
}
use hara_control.Enroll.Provisioner.{
  Target, ProvisioningInput, bounded_identity, desk_origin, target_of, read_body, read_revocation,
  read_registration,
}
use hara_control.Enroll.Registration.{
  Result, identity, resolved, compensated, registered, register_at, register_resolved,
  register_identity, provision_for_enrollment, provision_run,
}
use hara_control.Enroll.Remembered.{IsRemembered, provision-IsRemembered}
use hara_control.Enroll.Exchange.{
  EnrollCode, Organization, World, Admitted, bad_code, person_of, seats, used, claim, release_claim,
  admit,
}
use hara_control.Enroll.Saga.{
  new_device, delete_device, reply_of, desk_input, finish_desk, desk_result, desk_step,
  enroll_audit, new_token, log_step, token_step, issue_step, try_enroll,
}
use hara_control.Enroll.Cleanup.{
  cleanup_start, mark_pending, compensate_desk, revoke_issued, remove_device, restore_code,
  log_rollback, cleanup, concluded, enroll_claimed, enroll_admitted, enroll,
}
use hara_control.Enroll.Partial.{IsFreshId}
use hara_control.Enroll.Flags.{IsCompensating}
use hara_control.Enroll.Rollback.{IsRestored, IsOutcomeOf, enroll-IsOutcome, enroll-IsRestored}
use hara_control.Enroll.Once.{enroll-once}
use hara_control.Enroll.Progress.{IssuedKey, DeviceInfo, Events, Reply}
use hara_control.Enroll.Further.{IsSingle, provision-IsSingle}

abbrev mock_env : Env
mock_env = λ name. none

abbrev dev_license : LicenseService
dev_license = record { dev_bypass = true; is_saas = false; claims = none }

abbrev parse : ParseUrl
parse = λ u. none

abbrev stringify : List String → String
stringify = λ texts. "t1"

-- Desk has nothing to revoke, and says so.
abbrev revoked_answer : Response
revoked_answer = record { status = 200; location = none; content_length = none; body = some "x" }

abbrev reader : Reader
reader = record {
  parse_json =
      λ s. some (obj (field "revoked" (bool true) (field "alreadyRevoked" (bool false) end)));
  byte_length = λ s. 40;
}

abbrev forever : StoredPolicy
forever = record {
  token_ttl_minutes = none;
  token_never_expires = true;
  budget_limits = [];
  rpm_limit = none;
  tpm_limit = none;
}

abbrev one_code : EnrollCode
one_code = record {
  id = "c1";
  org_id = "o1";
  code = "HARA-1";
  model = "m";
  reasoning_effort = "";
  base_url = none;
  expires_at = 100;
  used_at = none;
  policy = record {
    token_ttl_minutes = none;
    token_never_expires = true;
    budget_limits = none;
    rpm_limit = none;
    tpm_limit = none;
  };
  person_id = some "p1";
}

abbrev acme : Organization
acme = record { id = "o1"; name = "Acme" }

abbrev start : World
start = record {
  codes = one_code ∷ [];
  people = record { id = "p1"; org_id = "o1"; email = "a@b" } ∷ [];
  organizations = acme ∷ [];
  tokens = [];
  keys = [];
  db = record { bindings = []; devices = []; secrets = []; organizations = "o1" ∷ []; audits = [] };
}

abbrev admitted : Admitted
admitted = record {
  code = one_code;
  organization = acme;
  owner = "a@b";
  model = "m";
  models = "m" ∷ [];
  policy = forever;
}

abbrev info : DeviceInfo
info = record { name = "laptop"; os = "macos"; hara_version = "1"; client_kind = "" }

abbrev issued : IssuedKey
issued = record { key = "sk"; key_id = "k1"; expires_at = none }

abbrev smooth : Events
smooth = record {
  device_id = "d1";
  create = none;
  issue = ok issued;
  orphan = none;
  store_token = none;
  log = none;
  desk = record { register = err (failure "unreachable"); revoke = ok revoked_answer };
  finish = none;
  mark = none;
  compensate = ok revoked_answer;
  revoke = none;
  delete = none;
  restore = none;
  log_rollback = none;
}

-- The audit log fails, after the key was issued and stored.
abbrev broken : Events
broken = record smooth { log = some (failure "serialization") }

start_admits : admit plain mock_env dev_license 7 "HARA-1" start ≡ ok admitted
unfolding admit find person_of seat_check seat_limit seats resolve_enrollment_model
    enrollment_managed_models parse_stored_access_key_policy read_limits normalize_access_key_policy
    normalize_ttl normalize_limits finite_integer
start_admits = refl

late_admits : admit plain mock_env dev_license 8 "HARA-1" start ≡ ok admitted
unfolding admit find person_of seat_check seat_limit seats resolve_enrollment_model
    enrollment_managed_models parse_stored_access_key_policy read_limits normalize_access_key_policy
    normalize_ttl normalize_limits finite_integer
late_admits = refl

start-IsFreshId : (issue : Outcome IssuedKey) → issue ≡ ok issued → IsFreshId "d1" issue start
start-IsFreshId issue e = rw e record { key = tt; device = tt; token = tt }

broken_rolls_back :
    enroll plain parse reader stringify marking [] mock_env dev_license 7 broken "HARA-1" info start
      start
    ≡ (err (failure "serialization"), start)
unfolding enroll enroll_admitted admit find person_of seat_check seat_limit seats
    resolve_enrollment_model enrollment_managed_models parse_stored_access_key_policy read_limits
    normalize_access_key_policy normalize_ttl normalize_limits finite_integer enroll_claimed claim
    any update_where try_enroll issue_step token_step log_step concluded cleanup log_rollback
    restore_code remove_device revoke_issued compensate_desk mark_pending cleanup_start
    delete_device release_claim keep
broken_rolls_back = refl

enroll-IsOutcome_example : IsOutcomeOf broken "c1" start start
enroll-IsOutcome_example =
    enroll-IsOutcome plain parse reader stringify marking [] mock_env dev_license 7 broken "HARA-1"
      info start start start admitted (failure "serialization") start_admits ((tt, tt))
      (start-IsFreshId _ refl) broken_rolls_back

-- The gateway fails to issue a key and leaves one: the code is released, and that key is live.
abbrev unissued : Events
unissued = record smooth { issue = err (failure "malformed"); orphan = some "k9" }

orphan_stays :
    enroll plain parse reader stringify marking [] mock_env dev_license 7 unissued "HARA-1" info
      start start
    ≡ (err (failure "malformed"), record start { keys = "k9" ∷ [] })
unfolding enroll enroll_admitted admit find person_of seat_check seat_limit seats
    resolve_enrollment_model enrollment_managed_models parse_stored_access_key_policy read_limits
    normalize_access_key_policy normalize_ttl normalize_limits finite_integer enroll_claimed claim
    any update_where try_enroll issue_step concluded cleanup log_rollback restore_code remove_device
    revoke_issued compensate_desk mark_pending cleanup_start delete_device release_claim keep
orphan_stays = refl

broken-IsCompensating : IsCompensating reader broken
unfolding read_revocation read_body member
broken-IsCompensating = record {
  clears = refl;
  revokes = refl;
  deletes = refl;
  restores = refl;
  confirms_failed = refl;
  confirms_receipt = refl;
}

enroll-IsRestored_example : IsRestored start start
enroll-IsRestored_example =
    enroll-IsRestored plain parse reader stringify marking [] mock_env dev_license 7 broken "HARA-1"
      info start start start admitted (failure "serialization") broken-IsCompensating start_admits
      ((tt, tt)) (start-IsFreshId _ refl) broken_rolls_back

abbrev enrolled : World
enrolled = record start {
  codes = used 7 one_code ∷ [];
  tokens = new_token plain parse reader stringify marking [] smooth admitted issued ∷ [];
  keys = "k1" ∷ [];
  db = record {
    bindings = [];
    devices = new_device 7 smooth info admitted ∷ [];
    secrets = [];
    organizations = "o1" ∷ [];
    audits = enroll_audit plain parse reader stringify marking [] smooth info admitted ∷ [];
  };
}

abbrev enrolled_reply : Reply
enrolled_reply = reply_of plain parse reader stringify marking [] smooth admitted issued [] none

smooth_enrolls :
    enroll plain parse reader stringify marking [] mock_env dev_license 7 smooth "HARA-1" info start
      start
    ≡ (ok enrolled_reply, enrolled)
unfolding enroll enroll_admitted admit find person_of seat_check seat_limit seats
    resolve_enrollment_model enrollment_managed_models parse_stored_access_key_policy read_limits
    normalize_access_key_policy normalize_ttl normalize_limits finite_integer enroll_claimed claim
    any update_where try_enroll issue_step token_step log_step concluded desk_step desk_result
    finish_desk provision_for_enrollment register_identity identity bounded_identity
    register_resolved resolved reserve_desk_provisioning reserve_locked reserve_for binding_of
    captured_reservation register_at target_of active_for_enrollment keep
smooth_enrolls = refl

enroll-once_example :
    enroll plain parse reader stringify marking [] mock_env dev_license 8 smooth "HARA-1" info start
      enrolled
    ≡ (err bad_code, enrolled)
enroll-once_example =
    enroll-once plain parse reader stringify marking [] mock_env dev_license 7 smooth "HARA-1" info
      start start enrolled admitted enrolled_reply start_admits ((tt, tt)) (start-IsFreshId _ refl)
      smooth_enrolls 8 smooth "HARA-1" info start admitted late_admits refl

abbrev desk_input_of : ProvisioningInput
desk_input_of = desk_input plain parse reader stringify marking [] smooth info admitted

abbrev operator : Target
operator = record { url = "https://d"; enroll_key = 5 ∷ [] }

abbrev device_db : Db
device_db = record start.db { devices = new_device 7 smooth info admitted ∷ [] }

-- The registration goes unanswered, and Desk Confirms that there is nothing to revoke.
abbrev desk_out : Result
desk_out =
    provision_for_enrollment plain reader stringify smooth.desk marking parse (some operator)
      desk_input_of (record { compensate_uncertain = true; control_reservation = some ("d1", 7) })
      device_db

provision-IsRemembered_example : All (IsRemembered "d1" desk_out.db) desk_out.calls
provision-IsRemembered_example =
    provision-IsRemembered plain reader stringify smooth.desk marking parse (some operator)
      desk_input_of true "d1" 7 device_db desk_out refl

two_requests : length desk_out.calls ≡ 2
unfolding provision_for_enrollment register_identity identity bounded_identity register_resolved
    resolved reserve_desk_provisioning reserve_locked reserve_for reserve_device binding_of
    captured_reservation register_at registered compensated read_registration find
two_requests = refl

-- A further Agent at the installation's address.
abbrev desk_url : Url
desk_url = record {
  protocol = "https:";
  hostname = "d";
  username = "";
  password = "";
  search = "";
  hash = "";
  pathname = "/";
  origin = "https://d";
  href = "https://d/";
}

abbrev parse_desk : ParseUrl
parse_desk = λ u. some desk_url

abbrev further_input : ProvisioningInput
further_input = record desk_input_of { expected_url = some "https://d" }

provision-IsSingle_example : IsSingle "https://d" device_db (
    provision_run plain reader stringify smooth.desk marking parse_desk
      (some operator)
      further_input
      device_db)
unfolding desk_origin
provision-IsSingle_example =
    provision-IsSingle plain reader stringify smooth.desk marking parse_desk (some operator)
      further_input "https://d" "https://d" device_db refl refl refl

further_request :
    length
      (provision_run plain reader stringify smooth.desk marking parse_desk
        (some operator)
        further_input
        device_db).calls
    ≡ 1
unfolding provision_run provision_for_enrollment register_identity identity bounded_identity
    register_resolved resolved register_at registered compensated read_registration binding_of find
    desk_origin desk_provisioning_resolution resolve_row
further_request = refl
