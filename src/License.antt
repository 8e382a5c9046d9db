-- ===== src/License.antt =====
-- src/license/license.ts and src/license/license.service.ts. The signature check and the parsing
-- of the signed claims are the host's; times are seconds since the epoch.
pub mod Laws
mod Examples
use hara_control.Common.{
  ℕ, ◌+◌, ◌*◌, String, Bool, true, false, not, ◌&&◌, ◌||◌, Option, none, some, List, [], ◌∷◌, ◌==◌,
  ltb, leb, eqb, if◌then◌else◌, forbidden, Outcome, err, ok, ensure,
}

pub record LicenseClaims : Type 0 where
  pub hub_org_id : String
  pub plan : String
  -- 0 is unlimited
  pub seat_limit : ℕ
  pub features : List String
  pub not_before : ℕ
  pub not_after : ℕ
  pub grace_days : ℕ

pub data LicenseStatus : Type 0 where
  valid grace lapsed not_yet_valid : LicenseStatus

unfoldable pub license_status : LicenseClaims → ℕ → LicenseStatus
license_status claims now =
    if ltb now claims.not_before
    then not_yet_valid
    else if leb now claims.not_after
    then valid
    else if leb now (claims.not_after + claims.grace_days * 86400)
    then grace
    else lapsed

-- The service after boot, and the deployment's flags.
pub record LicenseService : Type 0 where
  pub claims : Option LicenseClaims
  pub dev_bypass : Bool
  pub is_saas : Bool

-- `onModuleInit`, given what the token and the public key verify to; `none` is a missing setting.
pub on_module_init : Bool → Bool → Option (Outcome LicenseClaims) → Outcome LicenseService
on_module_init dev_bypass is_saas none =
    ok (record { claims = none; dev_bypass = dev_bypass; is_saas = is_saas })
on_module_init dev_bypass is_saas (some (ok claims)) =
    ok (record { claims = some claims; dev_bypass = dev_bypass; is_saas = is_saas })
on_module_init dev_bypass is_saas (some (err e)) =
    if not is_saas && not dev_bypass
    then err e
    else ok (record { claims = none; dev_bypass = dev_bypass; is_saas = is_saas })

pub data RuntimeStatus : Type 0 where
  dev saas unlicensed : RuntimeStatus
  licensed : LicenseStatus → RuntimeStatus

pub status : LicenseService → ℕ → RuntimeStatus
status license now =
    if license.dev_bypass then dev else if license.is_saas then saas else elim license.claims [
      | none ↦ unlicensed
      | some claims ↦ licensed (license_status claims now)
    ]

abbrev pub includes : String → List String → Bool
includes feature [] = false
includes feature (f ∷ fs) = f == feature || includes feature fs

abbrev pub serves : LicenseStatus → Bool
serves lapsed = false
serves not_yet_valid = false
serves _ = true

unfoldable pub claims_feature : Option LicenseClaims → String → ℕ → Bool
claims_feature none feature now = false
claims_feature (some claims) feature now =
    serves (license_status claims now) && includes feature claims.features

unfoldable pub has_feature : LicenseService → String → ℕ → Bool
has_feature license feature now =
    license.dev_bypass || license.is_saas || claims_feature license.claims feature now

abbrev claimed_seats : Option LicenseClaims → ℕ
claimed_seats none = 0
claimed_seats (some claims) = claims.seat_limit

unfoldable pub seat_limit : LicenseService → ℕ
seat_limit license =
    if license.dev_bypass || license.is_saas then 0 else claimed_seats license.claims

-- EntitlementService
unfoldable pub assert_feature : LicenseService → String → ℕ → Outcome (Unit {0})
assert_feature license feature now =
    ensure (has_feature license feature now) (forbidden "license does not include feature")

-- `seats` is the count of the organization's devices.
unfoldable pub seat_check : LicenseService → ℕ → Outcome (Unit {0})
seat_check license seats =
    ensure (eqb (seat_limit license) 0 || ltb seats (seat_limit license))
      (forbidden "seat limit reached")
