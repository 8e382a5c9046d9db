-- ===== src/Enroll/Cleanup.antt =====
-- src/enroll/enroll.service.ts: the catch block of `enroll`, and `enroll` as a whole.
use hara_control.Common.{
  any, keep, update_where, ℕ, String, Bool, true, false, not, ◌&&◌, Option, none, some, List,
  if◌then◌else◌, is_some, or_else, Fault, Outcome, err, ok,
}
use hara_control.Host.{Host}
use hara_control.Json.{bool, obj, end, field}
use hara_control.Tokens.{Env}
use hara_control.License.{LicenseService}
use hara_control.Fleet.{device_by_id, reserved}
use hara_control.Secrets.{Kms}
use hara_control.Audit.Call.{AuditCall}
use hara_control.Bindings.Requests.{ParseUrl}
use hara_control.Bindings.Probe.{Reader}
use hara_control.Enroll.Provisioner.{Target, read_revocation, accepts}
use hara_control.Enroll.Registration.{Receipt, stop}
use hara_control.Enroll.Exchange.{
  EnrollCode, World, Admitted, claim, is_claimed_at, release_claim, admit,
}
use hara_control.Enroll.Saga.{with_devices, with_audit, other_key, delete_device, try_enroll}
use hara_control.Enroll.Progress.{
  IssuedKey, DeviceInfo, Events, Reply, Progress, Stop, Run, done, stopped,
}

-- The variables that the catch block sets, with the tables.
pub record Cleaned : Type 0 where
  pub gateway_revoked : Bool
  pub desk_revoked : Bool
  pub desk_cleanup_pending : Bool
  pub device_removed : Bool
  pub code_restored : Bool
  pub world : World

abbrev pub is_confirmed : Option (Bool × String) → Bool
is_confirmed none = true
is_confirmed (some (confirmed, url)) = confirmed

unfoldable pub cleanup_start : Stop → Progress → Cleaned
cleanup_start stop p =
    let revoked = not (is_some p.receipt) && is_confirmed stop.desk_failure in
    record {
      gateway_revoked = not (is_some p.issued);
      desk_revoked = revoked;
      desk_cleanup_pending = p.prepared && not revoked;
      device_removed = not (is_some p.device);
      code_restored = false;
      world = p.world;
    }

-- Whether the write throws.
abbrev pub succeeds : Option Fault → Bool
succeeds fault = not (is_some fault)

-- The provenance of a registration that may stand, where no reservation has stored it.
unfoldable pub mark_pending :
    ℕ → Events → String → Option (Bool × String) → Option String → Bool → Cleaned → Cleaned
mark_pending now events owner (some (false, url)) (some id) false c =
    if not (succeeds events.mark) then c else record c {
      desk_cleanup_pending = true;
      world = with_devices (update_where (device_by_id id) (reserved now owner url)) c.world;
    }
mark_pending now events owner _ _ _ c = c

unfoldable pub compensate_desk : Reader → Events → Option Receipt → Cleaned → Cleaned
compensate_desk reader events none c = c
compensate_desk reader events (some receipt) c =
    if accepts (read_revocation reader false events.compensate)
    then record c { desk_revoked = true }
    else c

unfoldable pub revoke_issued : Events → Option IssuedKey → Cleaned → Cleaned
revoke_issued events none c = c
revoke_issued events (some key) c = if not (succeeds events.revoke) then c else record c {
  gateway_revoked = true;
  world = record c.world { keys = keep (other_key key.key_id) c.world.keys };
}

unfoldable pub remove_device : Events → Option String → Cleaned → Cleaned
remove_device events none c = c
remove_device events (some id) c =
    if not ((c.gateway_revoked && c.desk_revoked) && succeeds events.delete)
    then c
    else record c { device_removed = true; world = delete_device id c.world }

unfoldable pub restore_code : ℕ → Events → String → Cleaned → Cleaned
restore_code now events code_id c =
    if not ((c.gateway_revoked && (c.desk_revoked && c.device_removed)) && succeeds events.restore)
    then c
    else record c {
      code_restored = any (is_claimed_at code_id now) c.world.codes;
      world = record c.world { codes = release_claim code_id now c.world.codes };
    }

abbrev pub rollback_audit : String → Option String → Cleaned → AuditCall
rollback_audit org_id device c = record {
  org_id = org_id;
  action = "enroll.rollback";
  actor_type = "system";
  actor_id = or_else device "";
  payload = obj (
      field "gatewayRevoked" (bool c.gateway_revoked) (
        field "deskRevoked" (bool c.desk_revoked) (
          field "deskCleanupPending" (bool c.desk_cleanup_pending) (
            field "deviceRemoved" (bool c.device_removed)
              (field "codeRestored" (bool c.code_restored) end)))));
}

unfoldable pub log_rollback : Events → String → Bool → Option String → Cleaned → Cleaned
log_rollback events org_id logged device c =
    if not (logged && succeeds events.log_rollback)
    then c
    else record c { world = with_audit (rollback_audit org_id device c) c.world }

module _ (reader : Reader) where
  unfoldable pub cleanup : ℕ → Events → Admitted → Stop → Progress → Cleaned
  cleanup now events a stop p = log_rollback events a.code.org_id p.logged p.device (
      restore_code now events a.code.id (
        remove_device events p.device (
          revoke_issued events p.issued (
            compensate_desk reader events p.receipt (
              mark_pending now events a.owner stop.desk_failure p.device p.prepared
                (cleanup_start stop p))))))

  unfoldable pub concluded : ℕ → Events → Admitted → Run → Outcome Reply × World
  concluded now events a (done reply w) = (ok reply, w)
  concluded now events a (stopped stop p) = (err stop.fault, (cleanup now events a stop p).world)

module _ (host : Host) (parse_url : ParseUrl) (reader : Reader) (stringify : List String → String)
    (kms : Kms) (legacy : List (String × Target)) where
  unfoldable pub enroll_claimed :
      ℕ → Events → DeviceInfo → Admitted → World → Outcome (List EnrollCode) → Outcome Reply × World
  enroll_claimed now events info a w (err fault) = (err fault, w)
  enroll_claimed now events info a w (ok codes) = concluded reader now events a (
      try_enroll host parse_url reader stringify kms legacy now events info a
        (record w { codes = codes }))

  module _ (env : Env) (license : LicenseService) where
    unfoldable pub enroll_admitted :
        ℕ → Events → DeviceInfo → Outcome Admitted → World → Outcome Reply × World
    enroll_admitted now events info (err fault) w = (err fault, w)
    enroll_admitted now events info (ok a) w =
        enroll_claimed now events info a w (claim a.code.id now w.codes)

    -- `enroll` reads the tables `read`, and claims the code in the tables `w`.
    unfoldable pub enroll : ℕ → Events → String → DeviceInfo → World → World → Outcome Reply × World
    enroll now events code info read w =
        enroll_admitted now events info (admit host env license now code read) w
