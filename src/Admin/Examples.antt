-- ===== src/Admin/Examples.antt =====
-- A device with one token, revoked by an administrator of its organization.
use hara_control.Common.{
  find, any, keep, update_where, All, String, ◌≡◌, refl, true, false, Option, none, some, [], ◌∷◌,
  Fault, failure, Outcome, err, ok,
}
use hara_control.Host.Plain.{plain}
use hara_control.Ssrf.{Response}
use hara_control.Fleet.{DeviceRow, is_attached}
use hara_control.Secrets.Marking.{marking}
use hara_control.Bindings.Requests.{ParseUrl}
use hara_control.Bindings.Probe.{Reader}
use hara_control.Enroll.Exchange.{TokenRow, World}
use hara_control.Admin.{
  of_device, requested, request_revocation, ensure_requested, revoke_keys, complete_revocation,
  revoke_desk, desk_revoked_reply, keys_revoked, finish_revocation, revoke_found, revoke_row,
  revoke_device,
}
use hara_control.Admin.Revocation.{IsClosed, revoke_device-IsClosed, revoke_device-IsGone}
use hara_control.Admin.Access.{admin, AuthedUser, assert_admin_org_access}
use hara_control.Admin.Keys.{IsGone}

abbrev parse : ParseUrl
parse = λ u. none

abbrev reader : Reader
reader = record { parse_json = λ s. none; byte_length = λ s. 0 }

abbrev alice : AuthedUser
alice = record { id = "u1"; role = admin; org_id = some "o1"; via_shared_key = false }

abbrev phone : DeviceRow
phone = record {
  id = "d1";
  org_id = "o1";
  name = "phone";
  os = "ios";
  hara_version = "1";
  last_seen_at = 1;
  revocation_requested_at = none;
  revocation_completed_at = none;
  desk_provisioned_at = none;
  desk_cleanup_pending_at = none;
  desk_owner = none;
  desk_origin = none;
  enroll_code_id = none;
  person_id = none;
}

abbrev phone_token : TokenRow
phone_token = record {
  device_id = "d1";
  token_hash = "aa";
  gateway_key_id = "k1";
  model = "m";
  reasoning_effort = "";
  expires_at = none;
  revoked_at = none;
  policy = record {
    token_ttl_minutes = none;
    token_never_expires = true;
    budget_limits = [];
    rpm_limit = none;
    tpm_limit = none;
  };
}

abbrev fleet : World
fleet = record {
  codes = [];
  people = [];
  organizations = [];
  tokens = phone_token ∷ [];
  keys = "k0" ∷ "k1" ∷ [];
  db = record {
    bindings = [];
    devices = phone ∷ [];
    secrets = [];
    organizations = "o1" ∷ [];
    audits = [];
  };
}

abbrev no_answer : Outcome Response
no_answer = err (failure "unreachable")

-- The gateway is down.
abbrev down : String → Option Fault
down = λ key. some (failure "unreachable")

alice_may : assert_admin_org_access alice "o1" ≡ ok tt
unfolding assert_admin_org_access
alice_may = refl

revoke_device-IsClosed_example :
    All
      (IsClosed "d1")
      (revoke_device plain parse reader marking [] 9 alice down no_answer "d1" fleet).1.tokens
unfolding find
revoke_device-IsClosed_example =
    revoke_device-IsClosed plain parse reader marking [] 9 alice down no_answer "d1" fleet phone
      refl alice_may (λ requested_before. cc requested_before)

abbrev up : String → Option Fault
up = λ key. none

abbrev after : World
after =
    complete_revocation 9 alice (requested 9 phone) 1 false
      (record (request_revocation 9 alice phone fleet) { keys = "k0" ∷ [] })

phone_revoked :
    revoke_device plain parse reader marking [] 9 alice up no_answer "d1" fleet
    ≡ (ok (record { count_revoked = 1; desk_revoked = false }), after)
unfolding revoke_device revoke_row revoke_found assert_admin_org_access finish_revocation
    keys_revoked desk_revoked_reply revoke_desk revoke_keys ensure_requested find keep
    complete_revocation request_revocation update_where any
phone_revoked = refl

revoke_device-IsGone_example :
    All (λ t. of_device "d1" t ≡ true → IsGone after.keys t) after.tokens
    × (false ≡ is_attached phone)
unfolding find
revoke_device-IsGone_example =
    revoke_device-IsGone plain parse reader marking [] 9 alice up no_answer fleet phone
      (record { count_revoked = 1; desk_revoked = false }) after refl refl phone_revoked
