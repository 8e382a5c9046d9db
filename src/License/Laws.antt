-- ===== src/License/Laws.antt =====
-- Which entitlements a license gives, and when.
use hara_control.Common.{
  ℕ, ◌+◌, ◌*◌, ◌≤◌, String, ◌≡◌, refl, ◌≢◌, ◌↔◌, ◌⊎◌, inl, inr, true, false, Option, none, some,
  arith, Outcome, ok, err,
}
use hara_control.License.{
  LicenseClaims, license_status, LicenseService, on_module_init, includes, claims_feature,
  has_feature, seat_limit, seat_check,
}

-- The days of service: from `notBefore` to `grace_days` after `notAfter`.
abbrev pub InService : LicenseClaims → ℕ → Type 0
InService claims now =
    (claims.not_before ≤ now) × (now ≤ claims.not_after + claims.grace_days * 86400)

-- On a self-deployed runtime without the development bypass,
-- a feature is granted exactly while the license is in service and lists it.
pub has_feature_iff :
    (claims : LicenseClaims) (feature : String) (now : ℕ)
    → (has_feature
          (record { claims = some claims; dev_bypass = false; is_saas = false })
          feature
          now
        ≡ true)
      ↔ (InService claims now × (includes feature claims.features ≡ true))
unfolding has_feature claims_feature license_status
has_feature_iff claims feature now = ground arith

-- A device may be added by a seat check exactly if the license leaves room, or has no limit; with
-- one device added for each passed check, the count never passes the limit.
pub seat_check_bound :
    (license : LicenseService) (seats : ℕ)
    → seat_limit license ≢ 0
    → (seat_check license seats ≡ ok tt) ↔ (seats + 1 ≤ seat_limit license)
unfolding seat_check
seat_check_bound license seats limited = ground arith

-- A runtime that starts without the development bypass on its own deployment has no license, or one
-- that verified; a license that fails to verify stops it.
pub boot_verified :
    (verified : Option (Outcome LicenseClaims)) (license : LicenseService)
    → on_module_init false false verified ≡ ok license
    → (verified ≡ none) × (license.claims ≡ none)
      ⊎ ((claims : LicenseClaims) × (verified ≡ some (ok claims)) × (license.claims ≡ some claims))
unfolding on_module_init
boot_verified none license e = inl (refl, ground arith)
boot_verified (some (ok claims)) license e = inr (claims, refl, ground arith)
boot_verified (some (err f)) license e = cc
