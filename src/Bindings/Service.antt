-- ===== src/Bindings/Service.antt =====
-- src/service-bindings/service-bindings.service.ts: the operations of the service, around the
-- transactions. An operation that throws still gives the tables that it leaves. The audit row is
-- written last, after the commit, and `logged` is the exception of that write, if it throws.
use hara_control.Common.{
  keep, has, length, ℕ, String, Bool, false, not, ◌&&◌, Option, none, some, List, [], ◌∷◌, ◌++◌,
  ◌==◌, leb, if◌then◌else◌, is_some, Fault, bad_request, not_found, conflict, failure, Outcome, err,
  ok, ensure, require, ◌>>=◌, ◌>>◌,
}
use hara_control.Host.{Host}
use hara_control.Json.{bool, num, str, obj, Fields, end, field}
use hara_control.Ssrf.{Network}
use hara_control.Secrets.{Kms, Secret, put, get, remove}
use hara_control.Bindings.{binding_of, upsert_locked, disable_locked, commit_verification_result}
use hara_control.Bindings.Types.{
  ServiceKind, model_control, desk_tasks, collab, extension_catalog, ServiceMode, hara_hosted,
  customer_hosted, Region, cn, global, BindingStatus, pending_verification, active, degraded,
  disabled, Config, Binding, UpsertDto, Db, kind_eqb, is_active,
}
use hara_control.Bindings.Requests.{ParseUrl, service_kind, checked_config}
use hara_control.Bindings.Probe.{Reader, verify_health, verify_jwks}

-- The acting administrator.
pub record Actor : Type 0 where
  pub via_shared_key : Bool
  pub actor_id : String

abbrev pub actor_type : Actor → String
actor_type actor = if actor.via_shared_key then "shared-admin-key" else "admin-user"

abbrev pub kind_text : ServiceKind → String
kind_text model_control = "MODEL_CONTROL"
kind_text desk_tasks = "DESK_TASKS"
kind_text collab = "COLLAB"
kind_text extension_catalog = "EXTENSION_CATALOG"

abbrev pub status_text : BindingStatus → String
status_text pending_verification = "PENDING_VERIFICATION"
status_text active = "ACTIVE"
status_text degraded = "DEGRADED"
status_text disabled = "DISABLED"

abbrev pub mode_text : ServiceMode → String
mode_text hara_hosted = "HARA_HOSTED"
mode_text customer_hosted = "CUSTOMER_HOSTED"

abbrev pub region_text : Region → String
region_text cn = "CN"
region_text global = "GLOBAL"

unfoldable pub log_binding : String → Actor → Fields → Binding → Db → Db
log_binding action actor details row db = record db {
  audits =
      db.audits
      ++ record {
        org_id = row.org_id;
        action = action;
        actor_type = actor_type actor;
        actor_id = actor.actor_id;
        payload = obj (
            field "service" (str (kind_text row.service)) (
              field "status" (str (status_text row.status))
                (field "configVersion" (num row.config_version) details)));
      }
        ∷ [];
}

-- The answer of an operation on a binding that is committed, and the tables.
abbrev pub answered : Option Fault → String → Actor → Fields → Binding → Db → Outcome Binding × Db
answered none action actor details row db = (ok row, log_binding action actor details row db)
answered (some fault) action actor details row db = (err fault, db)

-- The further members of the audit row of a configuration.
abbrev pub configure_details : Bool → Binding → Fields
configure_details replaced row = field "mode" (str (mode_text row.config.mode)) (
    field "accountRegion" (str (region_text row.config.account_region))
      (field "credentialReplaced" (bool replaced) end))

-- secrets.remove(…).catch(() => undefined), for a reference that is there
unfoldable pub dropped : String → Option String → List Secret → List Secret
dropped org_id none secrets = secrets
dropped org_id (some ref) secrets = remove (some org_id) ref secrets

-- What `upsert` does with the result of its transaction.
unfoldable pub upsert_done :
    Option Fault
    → String
    → Actor
    → Option String
    → Db
    → Outcome (Binding × Option String × Db)
    → Outcome Binding × Db
upsert_done logged org_id actor new_ref before (err fault) =
    (err fault, record before { secrets = dropped org_id new_ref before.secrets })
upsert_done logged org_id actor new_ref before (ok (row, retired, db)) =
    answered logged "tenant-service.configure" actor (configure_details (is_some new_ref) row) row
      (record db { secrets = dropped org_id retired db.secrets })

unfoldable pub upsert_stored :
    Option Fault
    → ℕ
    → String
    → String
    → Actor
    → ServiceKind
    → Config
    → Option ℕ
    → Db
    → Outcome (Option String × Db)
    → Outcome Binding × Db
upsert_stored logged now new_id org_id actor service config capabilities db (err fault) =
    (err fault, db)
upsert_stored logged now new_id org_id actor service config capabilities db (ok (new_ref, stored)) =
    upsert_done logged org_id actor new_ref stored
      (upsert_locked now new_id org_id service config capabilities new_ref stored)

abbrev pub is_readable : Outcome (Option (List ℕ)) → Bool
is_readable (ok (some value)) = leb 1 (length value) && leb (length value) 4096
is_readable _ = false

abbrev pub changed_meanwhile : Fault
changed_meanwhile =
    conflict "organization service changed while its previous configuration was being verified"

unfoldable pub verify_failed :
    Option Fault → Fault → Actor → Option Binding × Db → Outcome Binding × Db
verify_failed logged fault actor (none, db) = (err changed_meanwhile, db)
verify_failed none fault actor (some row, db) =
    (err fault, log_binding "tenant-service.verify-failed" actor end row db)
verify_failed (some unlogged) fault actor (some row, db) = (err unlogged, db)

unfoldable pub verify_passed : Option Fault → Actor → Option Binding × Db → Outcome Binding × Db
verify_passed logged actor (none, db) = (err changed_meanwhile, db)
verify_passed logged actor (some row, db) = answered logged "tenant-service.verify" actor end row db

-- `verify` once it has read the row: the checks took `secrets`, the commit takes `db`.
unfoldable pub verify_row :
    Option Fault → ℕ → Actor → Binding → Outcome (Unit {0}) → Db → Outcome Binding × Db
verify_row logged now actor row (err fault) db =
    verify_failed logged fault actor (commit_verification_result now row degraded none db)
verify_row logged now actor row (ok _) db =
    verify_passed logged actor (commit_verification_result now row active (some now) db)

abbrev pub found_binding : String → String → Db → Outcome Binding
found_binding org_id raw_service db = do
  service ← service_kind raw_service
  require (binding_of org_id service db.bindings) (not_found "organization service not found")

abbrev pub disable_done : Option Fault → Actor → Outcome (Binding × Db) → Db → Outcome Binding × Db
disable_done logged actor (err fault) db = (err fault, db)
disable_done logged actor (ok (row, left)) db =
    answered logged "tenant-service.disable" actor end row left

unfoldable pub disable : Option Fault → ℕ → String → String → Actor → Db → Outcome Binding × Db
disable logged now org_id raw_service actor db =
    disable_done logged actor
      (do service ← service_kind raw_service; disable_locked now org_id service db) db

module _ (kms : Kms) where
  -- secrets.put, if the request has a credential; `new_ref` is the fresh name of its secret.
  unfoldable pub stored_credential :
      ℕ → ℕ → String → String → String → Option String → Db → Outcome (Option String × Db)
  stored_credential seed now secret_id org_id new_ref none db = ok (none, db)
  stored_credential seed now secret_id org_id new_ref (some credential) db = do
    secrets ← put kms seed now secret_id (some org_id) new_ref (kms.utf8 credential) db.secrets
    ok (some new_ref, record db { secrets = secrets })

  unfoldable pub upsert_checked :
      Option Fault
      → ℕ
      → ℕ
      → String
      → String
      → String
      → String
      → UpsertDto
      → Actor
      → Db
      → Outcome (ServiceKind × Config)
      → Outcome Binding × Db
  upsert_checked logged seed now new_id secret_id new_ref org_id input actor db (err fault) =
      (err fault, db)
  upsert_checked logged seed now new_id secret_id new_ref org_id input actor db
        (ok (service, config)) =
      upsert_stored logged now new_id org_id actor service config input.capabilities_version db
        (stored_credential seed now secret_id org_id new_ref input.credential db)

  -- The credential check of `verify`.
  unfoldable pub credential_readable : Binding → List Secret → Outcome (Unit {0})
  credential_readable row secrets = if not (kind_eqb row.service desk_tasks) then ok tt else do
    ref ←
        require row.credential_ref
          (bad_request "DESK_TASKS requires an encrypted enrollment credential")
    ensure (is_readable (get kms (some row.org_id) ref secrets))
        (failure "Hara Desk enrollment credential is not readable")

module _ (host : Host) (parse_url : ParseUrl) where
  abbrev pub requested : String → String → UpsertDto → Db → Outcome (ServiceKind × Config)
  requested org_id raw_service input db = do
    ensure (has db.organizations org_id) (not_found "organization not found")
    checked_config host parse_url raw_service input

  module _ (kms : Kms) where
    unfoldable pub upsert :
        Option Fault
        → ℕ
        → ℕ
        → String
        → String
        → String
        → String
        → String
        → UpsertDto
        → Actor
        → Db
        → Outcome Binding × Db
    upsert logged seed now new_id secret_id new_ref org_id raw_service input actor db =
        upsert_checked kms logged seed now new_id secret_id new_ref org_id input actor db
          (requested org_id raw_service input db)

module _ (host : Host) (parse_url : ParseUrl) (net : Network) (reader : Reader) (kms : Kms) where
  abbrev pub jwks_checked : Option String → Outcome (Unit {0})
  unfolding verify_jwks
  jwks_checked none = ok tt
  jwks_checked (some uri) = verify_jwks host parse_url net reader uri

  unfoldable pub checks : Binding → List Secret → Outcome (Unit {0})
  checks row secrets = do
    credential_readable kms row secrets
    verify_health host parse_url net reader row
    jwks_checked row.config.jwks_uri

  unfoldable pub verify_found :
      Option Fault → ℕ → Actor → Outcome Binding → Db → Db → Outcome Binding × Db
  verify_found logged now actor (err fault) read db = (err fault, db)
  verify_found logged now actor (ok row) read db =
      verify_row logged now actor row (checks row read.secrets) db

  -- `verify` reads the tables `read`, probes, and commits to the tables `db`.
  unfoldable pub verify :
      Option Fault → ℕ → String → String → Actor → Db → Db → Outcome Binding × Db
  verify logged now org_id raw_service actor read db =
      verify_found logged now actor (found_binding org_id raw_service read) read db

-- activeForEnrollment: the rows, without their order.
unfoldable pub active_for_enrollment : String → Db → List Binding
active_for_enrollment org_id db = keep (λ b. (b.org_id == org_id) && is_active b.status) db.bindings

pub list : String → Db → Outcome (List Binding)
list org_id db = do
  ensure (has db.organizations org_id) (not_found "organization not found")
  ok (keep (λ b. b.org_id == org_id) db.bindings)
