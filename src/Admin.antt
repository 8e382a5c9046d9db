-- ===== src/Admin.antt =====
-- src/admin/admin.service.ts: the revocation of a device. The steps of
-- one request follow each other with no other request in between, and its transactions succeed.
pub mod Access
pub mod Keys
pub mod Revocation
pub mod People
mod Examples
use hara_control.Common.{
  find, any, keep, update_where, length, ℕ, String, Bool, true, false, not, ◌&&◌, Option, none,
  some, List, [], ◌∷◌, ◌==◌, ltb, if◌then◌else◌, is_some, Fault, failure, Outcome, err, ok, require,
  ◌>>=◌, ◌>>◌,
}
use hara_control.Host.{Host}
use hara_control.Json.{Json, bool, num, str, obj, Fields, end, field}
use hara_control.Ssrf.{Response}
use hara_control.Fleet.{DeviceRow, device_by_id, is_attached, revoked}
use hara_control.Secrets.{Kms}
use hara_control.Audit.Call.{AuditCall}
use hara_control.Bindings.Types.{Db}
use hara_control.Bindings.Requests.{ParseUrl}
use hara_control.Bindings.Probe.{Reader}
use hara_control.Enroll.Provisioner.{Target, desk_origin, target_of}
use hara_control.Enroll.Installation.{RevocationInput, given, revoke_installation}
use hara_control.Enroll.Exchange.{TokenRow, World}
use hara_control.Enroll.Saga.{with_devices, with_audit, other_key}
use hara_control.Admin.Access.{AuthedUser, assert_admin_org_access}
use hara_control.Enroll.Progress.{Progress}

abbrev pub actor_type : AuthedUser → String
actor_type user = if user.via_shared_key then "shared-key" else "admin"

abbrev pub of_device : String → TokenRow → Bool
of_device id t = t.device_id == id

abbrev pub is_live_token : String → TokenRow → Bool
is_live_token id t = of_device id t && not (is_some t.revoked_at)

abbrev pub revoked_token : ℕ → TokenRow → TokenRow
revoked_token now t = record t { revoked_at = some now }

abbrev pub is_unrequested : String → DeviceRow → Bool
is_unrequested id d = device_by_id id d && not (is_some d.revocation_requested_at)

abbrev pub requested : ℕ → DeviceRow → DeviceRow
requested now d = record d { revocation_requested_at = some now }

abbrev pub with_tokens : (List TokenRow → List TokenRow) → World → World
with_tokens f w = record w { tokens = f w.tokens }

abbrev pub revocation_audit : String → AuthedUser → DeviceRow → Fields → AuditCall
revocation_audit action user d details = record {
  org_id = d.org_id;
  action = action;
  actor_type = actor_type user;
  actor_id = user.id;
  payload = obj (field "deviceId" (str d.id) details);
}

-- The transaction "device.revocation_requested".
unfoldable pub request_revocation : ℕ → AuthedUser → DeviceRow → World → World
request_revocation now user d w =
    with_audit
      (revocation_audit "device.revocation_requested" user d (
        field "claimed" (bool (any (is_unrequested d.id) w.db.devices))
          (field "tokens" (num (length (keep (is_live_token d.id) w.tokens))) end)))
      (with_tokens (update_where (is_live_token d.id) (revoked_token now))
        (with_devices (update_where (is_unrequested d.id) (requested now)) w))

-- A device whose revocation was requested before is left as it is.
unfoldable pub ensure_requested : ℕ → AuthedUser → DeviceRow → World → World
ensure_requested now user d w =
    if is_some d.revocation_requested_at then w else request_revocation now user d w

-- gateway.revokeKey of each token in turn; `faults` are what the calls throw, by their keys. What the
-- gateway honours is left with the exception that stopped the calls, if one did.
unfoldable pub revoke_keys :
    (String → Option Fault) → List TokenRow → List String → Option Fault × List String
revoke_keys faults [] keys = (none, keys)
revoke_keys faults (t ∷ tokens) keys =
    let fault = faults t.gateway_key_id in
    let rest = revoke_keys faults tokens (keep (other_key t.gateway_key_id) keys) in
    if is_some fault then (fault, keys) else rest

-- Once Desk has confirmed, the device holds on to nothing there.
abbrev pub completed_at : ℕ → Option ℕ → ℕ
completed_at now none = now
completed_at now (some at) = if ltb now at then at else now

pub record RevokeReply : Type 0 where
  pub count_revoked : ℕ
  pub desk_revoked : Bool

-- The transaction "device.revocation_completed".
unfoldable pub complete_revocation : ℕ → AuthedUser → DeviceRow → ℕ → Bool → World → World
complete_revocation now user d tokens desk_revoked w =
    with_audit
      (revocation_audit "device.revocation_completed" user d
        (field "tokens" (num tokens) (field "deskRevoked" (bool desk_revoked) end)))
      (with_devices
        (update_where (device_by_id d.id)
          (revoked (completed_at now d.revocation_requested_at) desk_revoked))
        w)

abbrev pub desk_revocation : DeviceRow → String → String → RevocationInput
desk_revocation d owner origin = record {
  org_id = d.org_id;
  owner = owner;
  installation_id = d.id;
  expected_url = some origin;
  allow_missing = is_some d.desk_cleanup_pending_at && not (is_some d.desk_provisioned_at);
}

module _ (host : Host) (parse_url : ParseUrl) (reader : Reader) (kms : Kms)
    (legacy : List (String × Target)) where
  -- The Desk installation, if the device holds on to one; the answer tells that it was revoked.
  unfoldable pub revoke_desk : Outcome Response → DeviceRow → Db → Outcome Bool
  revoke_desk answer d db = if not (is_attached d) then ok false else do
    owner ←
        require (given d.desk_owner)
          (failure "Hara Desk revocation is unavailable for this provisioned device")
    origin ←
        require (given d.desk_origin)
          (failure "Hara Desk revocation is unavailable for this provisioned device")
    answered ←
        revoke_installation kms host parse_url reader answer (target_of legacy d.org_id)
          (desk_revocation d owner origin) db
    ok true

  unfoldable pub desk_revoked_reply :
      ℕ → AuthedUser → DeviceRow → ℕ → World → Outcome Bool → Outcome RevokeReply × World
  desk_revoked_reply now user d tokens w (err fault) = (err fault, w)
  desk_revoked_reply now user d tokens w (ok desk) = (
    ok (record { count_revoked = tokens; desk_revoked = desk }),
    complete_revocation now user d tokens desk w,
  )

  unfoldable pub keys_revoked :
      ℕ
      → AuthedUser
      → Outcome Response
      → DeviceRow
      → ℕ
      → World
      → Option Fault × List String
      → Outcome RevokeReply × World
  keys_revoked now user answer d tokens w (some fault, keys) = (err fault, record w { keys = keys })
  keys_revoked now user answer d tokens w (none, keys) =
      desk_revoked_reply now user d tokens (record w { keys = keys }) (revoke_desk answer d w.db)

  -- After the request is stored: the row and its tokens are read again.
  unfoldable pub finish_revocation :
      ℕ
      → AuthedUser
      → (String → Option Fault)
      → Outcome Response
      → Option DeviceRow
      → World
      → Outcome RevokeReply × World
  finish_revocation now user faults answer none w =
      (ok (record { count_revoked = 0; desk_revoked = false }), w)
  finish_revocation now user faults answer (some d) w =
      let tokens = keep (of_device d.id) w.tokens in
      if is_some d.revocation_completed_at
      then (ok (record { count_revoked = length tokens; desk_revoked = false }), w)
      else keys_revoked now user answer d (length tokens) w (revoke_keys faults tokens w.keys)

  unfoldable pub revoke_found :
      ℕ
      → AuthedUser
      → (String → Option Fault)
      → Outcome Response
      → DeviceRow
      → World
      → Outcome (Unit {0})
      → Outcome RevokeReply × World
  revoke_found now user faults answer d w (err fault) = (err fault, w)
  revoke_found now user faults answer d w (ok _) =
      let left = ensure_requested now user d w in
      finish_revocation now user faults answer (find (device_by_id d.id) left.db.devices) left

  unfoldable pub revoke_row :
      ℕ
      → AuthedUser
      → (String → Option Fault)
      → Outcome Response
      → Option DeviceRow
      → World
      → Outcome RevokeReply × World
  revoke_row now user faults answer none w =
      (ok (record { count_revoked = 0; desk_revoked = false }), w)
  revoke_row now user faults answer (some d) w =
      revoke_found now user faults answer d w (assert_admin_org_access user d.org_id)

  -- revokeDevice; an unknown device is no error.
  unfoldable pub revoke_device :
      ℕ
      → AuthedUser
      → (String → Option Fault)
      → Outcome Response
      → String
      → World
      → Outcome RevokeReply × World
  revoke_device now user faults answer id w =
      revoke_row now user faults answer (find (device_by_id id) w.db.devices) w
