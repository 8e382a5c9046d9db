-- ===== src/License/Examples.antt =====
-- Entitlements of a concrete license.
use hara_control.Common.{◌≡◌, ◌↔◌, true, false, some, [], ◌∷◌, arith, ok}
use hara_control.License.{
  LicenseClaims, LicenseService, includes, has_feature, seat_limit, seat_check,
}
use hara_control.License.Laws.{InService, has_feature_iff, seat_check_bound}

abbrev claims : LicenseClaims
claims = record {
  hub_org_id = "h";
  plan = "team";
  seat_limit = 3;
  features = "agent-org" ∷ [];
  not_before = 100;
  not_after = 200;
  grace_days = 1;
}

abbrev license : LicenseService
license = record { claims = some claims; dev_bypass = false; is_saas = false }

has_feature_iff_example :
    (has_feature license "agent-org" 86600 ≡ true)
    ↔ (InService claims 86600 × (includes "agent-org" claims.features ≡ true))
has_feature_iff_example = has_feature_iff claims "agent-org" 86600

two_of_three : seat_check license 2 ≡ ok tt
two_of_three =
    (seat_check_bound license 2 (unfold seat_limit in omega arith)).1
      (unfold seat_limit in omega arith)
