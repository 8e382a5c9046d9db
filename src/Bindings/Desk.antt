-- ===== src/Bindings/Desk.antt =====
-- src/service-bindings/service-bindings.service.ts: the Desk target of an organization, for
-- provisioning and for revocation, and the reservation of a device around its transaction.
use hara_control.Common.{
  length, ℕ, String, Bool, true, false, not, ◌&&◌, Option, none, some, List, ◌==◌, leb,
  if◌then◌else◌, bad_request, conflict, failure, Outcome, err, ok, ensure, require, ◌>>=◌, ◌>>◌,
}
use hara_control.Host.{Host}
use hara_control.Secrets.{Kms, Secret, get}
use hara_control.Bindings.{binding_of, Captured, reserve_locked, clear_reservation}
use hara_control.Bindings.Types.{desk_tasks, Binding, Db, is_active}
use hara_control.Bindings.Requests.{ParseUrl, normalize_url}

-- DeskProvisioningResolution and DeskRevocationResolution, with the bytes of the credential.
pub record Resolution : Type 0 where
  pub managed_configured : Bool
  pub target : Option (String × List ℕ)

pub record Reservation : Type 0 where
  pub managed_configured : Bool
  pub prepared : Bool
  pub target : Option (String × List ℕ)

module _ (kms : Kms) where
  -- secrets.get, and the check of the length that follows it
  unfoldable pub enroll_key : String → String → String → List Secret → Outcome (List ℕ)
  enroll_key message org_id ref secrets = do
    found ← get kms (some org_id) ref secrets
    value ← require found (failure message)
    ensure (leb 1 (length value) && leb (length value) 4096) (failure message)
    ok value

  unfoldable pub resolve_row : String → Option Binding → List Secret → Outcome Resolution
  resolve_row org_id none secrets = ok (record { managed_configured = false; target = none })
  resolve_row org_id (some row) secrets =
      if not (is_active row.status)
      then ok (record { managed_configured = true; target = none })
      else do
        ref ←
            require row.credential_ref
              (failure "active Hara Desk binding has no enrollment credential reference")
        key ←
            enroll_key "active Hara Desk binding has no readable enrollment credential" org_id ref
              secrets
        ok (record { managed_configured = true; target = some (row.config.api_origin, key) })

  unfoldable pub desk_provisioning_resolution : String → Db → Outcome Resolution
  desk_provisioning_resolution org_id db =
      resolve_row org_id (binding_of org_id desk_tasks db.bindings) db.secrets

  unfoldable pub revocation_row :
      String → String → Option Binding → List Secret → Outcome Resolution
  revocation_row org_id origin none secrets =
      ok (record { managed_configured = false; target = none })
  revocation_row org_id origin (some row) secrets = do
    ensure (row.config.api_origin == origin)
        (conflict "managed Hara Desk binding does not match the enrolled installation origin")
    ref ←
        require row.credential_ref
          (failure "managed Hara Desk binding has no enrollment credential reference")
    key ←
        enroll_key "managed Hara Desk binding has no readable enrollment credential" org_id ref
          secrets
    ok (record { managed_configured = true; target = some (row.config.api_origin, key) })

  module _ (host : Host) (parse_url : ParseUrl) where
    unfoldable pub desk_revocation_resolution : String → String → Db → Outcome Resolution
    desk_revocation_resolution org_id expected_origin db = do
      normalized ← normalize_url host parse_url (some expected_origin) true
      origin ← require normalized (bad_request "expected Desk origin is required for revocation")
      revocation_row org_id origin (binding_of org_id desk_tasks db.bindings) db.secrets

  unfoldable pub opened_reservation :
      String
      → String
      → String
      → Captured
      → String
      → Outcome (List ℕ)
      → Db
      → Outcome Reservation × Db
  opened_reservation org_id device_id owner captured url (ok key) db =
      (ok (record { managed_configured = true; prepared = true; target = some (url, key) }), db)
  opened_reservation org_id device_id owner captured url (err fault) db =
      (err fault, clear_reservation org_id device_id owner url db)

  unfoldable pub captured_reservation :
      String → String → String → Outcome (Captured × Db) → Db → Outcome Reservation × Db
  captured_reservation org_id device_id owner (err fault) before = (err fault, before)
  captured_reservation org_id device_id owner (ok (captured, db)) before = elim captured.target [
    | none ↦ (
      ok (record {
        managed_configured = captured.managed_configured;
        prepared = captured.prepared;
        target = none;
      }),
      db,
    )
    | some (url, ref) ↦
        opened_reservation org_id device_id owner captured url
          (enroll_key "active Hara Desk binding has no readable enrollment credential" org_id ref
            db.secrets)
          db
  ]

  -- reserveDeskProvisioning: what it returns or throws, and the tables that it leaves.
  unfoldable pub reserve_desk_provisioning :
      ℕ → String → String → String → Option String → Db → Outcome Reservation × Db
  reserve_desk_provisioning at org_id device_id owner legacy db =
      captured_reservation org_id device_id owner
        (reserve_locked at org_id device_id owner legacy db) db
