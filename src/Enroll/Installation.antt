-- ===== src/Enroll/Installation.antt =====
-- src/enroll/desk-provisioner.ts: the revocation of an installation at Desk.
use hara_control.Common.{
  String, Bool, true, false, Option, none, some, ◌==◌, if◌then◌else◌, failure, Outcome, err, ok,
  ensure, ◌>>=◌, ◌>>◌,
}
use hara_control.Host.{Host}
use hara_control.Ssrf.{Response}
use hara_control.Secrets.{Kms}
use hara_control.Bindings.Types.{Db}
use hara_control.Bindings.Requests.{ParseUrl}
use hara_control.Bindings.Probe.{Reader}
use hara_control.Bindings.Desk.{
  Resolution, desk_provisioning_resolution, desk_revocation_resolution,
}
use hara_control.Enroll.Provisioner.{Target, bounded_identity, desk_origin, read_revocation}
use hara_control.Enroll.Registration.{selected}

pub record RevocationInput : Type 0 where
  pub org_id : String
  pub owner : String
  pub installation_id : String
  pub expected_url : Option String
  pub allow_missing : Bool

-- A text that is there and not empty.
abbrev pub given : Option String → Option String
given none = none
given (some s) = if s == "" then none else some s

module _ (kms : Kms) (host : Host) (parse_url : ParseUrl) (reader : Reader) where
  unfoldable pub installation_resolution : String → Option String → Db → Outcome Resolution
  installation_resolution org_id (some url) db =
      desk_revocation_resolution kms host parse_url org_id url db
  installation_resolution org_id none db = desk_provisioning_resolution kms org_id db

  -- The origin that the caller expects is the target's.
  unfoldable pub same_target : Option String → Target → Outcome (Unit {0})
  same_target none target = ok tt
  same_target (some url) target = do
    origin ← desk_origin host parse_url (some url)
    ensure (origin == target.url)
        (failure "Hara Desk revocation target no longer matches the enrolled installation")

  unfoldable pub revoke_at : Outcome Response → RevocationInput → Option Target → Outcome Bool
  revoke_at answer input none = elim (given input.expected_url) [
    | none ↦ ok false
    | some url ↦
        err
          (failure "Hara Desk revocation credential is unavailable for this enrolled installation")
  ]
  revoke_at answer input (some target) = do
    same_target (given input.expected_url) target
    owner ← bounded_identity host (some input.owner) 256
    id ← bounded_identity host (some input.installation_id) 160
    read_revocation reader input.allow_missing answer
    ok true

  -- revokeInstallation; `answer` is what the request to Desk gives back.
  unfoldable pub revoke_installation :
      Outcome Response → Option Target → RevocationInput → Db → Outcome Bool
  revoke_installation answer legacy input db = do
    r ← installation_resolution input.org_id (given input.expected_url) db
    revoke_at answer input (
        selected legacy (record {
          managed_configured = r.managed_configured;
          prepared = false;
          target = r.target;
        }))
