-- ===== src/Fleet.antt =====
-- The rows of the enrolled devices (prisma/schema.prisma), as service bindings, enrollment and
-- administration change them.
use hara_control.Common.{ℕ, String, Bool, true, false, ◌||◌, Option, none, some, ◌==◌, is_some}

pub record DeviceRow : Type 0 where
  pub id : String
  pub org_id : String
  pub name : String
  pub os : String
  pub hara_version : String
  pub last_seen_at : ℕ
  pub revocation_requested_at : Option ℕ
  pub revocation_completed_at : Option ℕ
  pub desk_provisioned_at : Option ℕ
  pub desk_cleanup_pending_at : Option ℕ
  pub desk_owner : Option String
  pub desk_origin : Option String
  pub enroll_code_id : Option String
  pub person_id : Option String

abbrev pub device_by_id : String → DeviceRow → Bool
device_by_id id d = d.id == id

-- A Desk registration of the device exists or may exist.
abbrev pub is_attached : DeviceRow → Bool
is_attached d = is_some d.desk_provisioned_at || is_some d.desk_cleanup_pending_at

-- desk{ProvisionedAt: null, CleanupPendingAt: at, Owner: owner, Origin: origin}
abbrev pub reserved : ℕ → String → String → DeviceRow → DeviceRow
reserved at owner origin d = record d {
  desk_provisioned_at = none;
  desk_cleanup_pending_at = some at;
  desk_owner = some owner;
  desk_origin = some origin;
}

-- What enrollment writes once Desk has registered the device.
abbrev pub desk_provisioned : ℕ → String → String → DeviceRow → DeviceRow
desk_provisioned now owner origin d = record d {
  desk_provisioned_at = some now;
  desk_cleanup_pending_at = none;
  desk_owner = some owner;
  desk_origin = some origin;
}

-- What a completed revocation writes; `desk_revoked` tells that Desk has revoked the installation.
abbrev pub revoked : ℕ → Bool → DeviceRow → DeviceRow
revoked completed_at false d = record d { revocation_completed_at = some completed_at }
revoked completed_at true d = record d {
  revocation_completed_at = some completed_at;
  desk_provisioned_at = none;
  desk_cleanup_pending_at = none;
  desk_owner = none;
  desk_origin = none;
}
