-- ===== src/Admin/Access.antt =====
-- src/common/admin-auth.guard.ts: the access of an administrator to an organization.
use hara_control.Common.{
  String, Bool, true, false, not, ◌&&◌, ◌||◌, Option, none, some, ◌==◌, forbidden, Outcome, ensure,
}

pub data AdminRole : Type 0 where
  superadmin admin member : AdminRole

pub record AuthedUser : Type 0 where
  pub id : String
  pub role : AdminRole
  pub org_id : Option String
  pub via_shared_key : Bool

abbrev pub is_superadmin : AdminRole → Bool
is_superadmin superadmin = true
is_superadmin _ = false

-- user.orgId && user.orgId === orgId
abbrev pub is_own : Option String → String → Bool
is_own none org_id = false
is_own (some own) org_id = not (own == "") && own == org_id

unfoldable pub assert_admin_org_access : AuthedUser → String → Outcome (Unit {0})
assert_admin_org_access user org_id =
    ensure (user.via_shared_key || is_superadmin user.role || is_own user.org_id org_id)
      (forbidden "organization access denied")
