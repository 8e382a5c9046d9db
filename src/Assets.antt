-- ===== src/Assets.antt =====
-- src/assets/assets.service.ts: the lifecycle of an organization's assets, from a contribution
-- through its review to its promotion and deprecation. A review and a deprecation read the tables
-- once and write them later, so both take the tables that they read and those that they write.
pub mod Guard
pub mod Publication
mod Examples
use hara_control.Common.{
  find, any, keep, update_where, length, ℕ, String, Bool, true, false, not, ◌&&◌, Option, none,
  some, List, [], ◌∷◌, ◌++◌, ◌==◌, eqb, is_some, or_else, bad_request, not_found, conflict, Outcome,
  ok, ensure, require, ◌>>=◌, ◌>>◌, append,
}
use hara_control.Host.{Host}
use hara_control.Crypto.{Script}
use hara_control.Capabilities.{
  AssetKind, skill, snippet, playbook, convention, knowledge, AssetLifecycle, draft, in_review,
  published, deprecated, lifecycle_eqb, normalize_required_capabilities,
  normalize_granted_capabilities,
}
use hara_control.Assets.Guard.{redact_secrets, scan_for_injection}

pub data AssetScope : Type 0 where
  personal team org public : AssetScope

abbrev pub scope_eqb : AssetScope → AssetScope → Bool
scope_eqb personal personal = true
scope_eqb team team = true
scope_eqb org org = true
scope_eqb public public = true
scope_eqb _ _ = false

abbrev pub kind_eqb : AssetKind → AssetKind → Bool
kind_eqb skill skill = true
kind_eqb snippet snippet = true
kind_eqb playbook playbook = true
kind_eqb convention convention = true
kind_eqb knowledge knowledge = true
kind_eqb _ _ = false

abbrev pub team_eqb : Option String → Option String → Bool
team_eqb none none = true
team_eqb (some s) (some t) = s == t
team_eqb _ _ = false

pub record Asset : Type 0 where
  pub id : String
  pub org_id : String
  pub scope : AssetScope
  pub team_id : Option String
  pub kind : AssetKind
  pub slug : String
  pub title : String
  pub summary : Option String
  pub lang : Option String
  pub tags : List String
  pub owner_device_id : Option String
  pub lifecycle : AssetLifecycle
  pub search_text : String
  pub superseded_by_id : Option String
  pub promoted_from_id : Option String
  pub updated_at : ℕ

pub record AssetVersion : Type 0 where
  pub version_id : String
  pub asset_id : String
  pub body : String
  pub content_hash : String
  pub redactions : List String
  pub required_capabilities : List String
  pub granted_capabilities : List String
  pub reviewed_at : Option ℕ

-- Versions stand in the order in which they were created.
pub record Db : Type 0 where
  pub assets : List Asset
  pub versions : List AssetVersion

abbrev pub by_id : String → Asset → Bool
by_id id a = a.id == id

unfoldable pub last_version : List AssetVersion → Option AssetVersion
last_version [] = none
last_version (v ∷ []) = some v
last_version (v ∷ w ∷ rest) = last_version (w ∷ rest)

-- versions: { orderBy: { createdAt: "desc" }, take: 1 }
unfoldable pub latest_version : String → List AssetVersion → Option AssetVersion
latest_version id versions = last_version (keep (λ v. v.asset_id == id) versions)

-- The condition of a guarded update: the asset as it was read.
abbrev pub unchanged : Asset → Asset → Bool
unchanged from a =
    (a.id == from.id)
    && (lifecycle_eqb a.lifecycle from.lifecycle && eqb a.updated_at from.updated_at)

abbrev pub unreviewed : AssetVersion → AssetVersion → Bool
unreviewed from v =
    (v.version_id == from.version_id)
    && ((v.asset_id == from.asset_id) && not (is_some v.reviewed_at))

abbrev pub published_row : ℕ → String → Asset → Asset
published_row now haystack a = record a {
  lifecycle = published;
  search_text = haystack;
  updated_at = now;
}

abbrev pub reviewed_row : ℕ → List String → AssetVersion → AssetVersion
reviewed_row now granted v = record v { granted_capabilities = granted; reviewed_at = some now }

-- texts.join(separator)
unfoldable pub join : String → List String → String
join separator [] = ""
join separator (s ∷ []) = s
join separator (s ∷ t ∷ rest) = append s (append separator (join separator (t ∷ rest)))

unfoldable pub search_text_for :
    Host → String → Option String → List String → Option String → String → String
search_text_for host title summary tags lang body =
    host.to_lower
      (join "\n" (title ∷ or_else summary "" ∷ join " " tags ∷ or_else lang "" ∷ body ∷ []))

pub record ContributeInput : Type 0 where
  pub kind : AssetKind
  pub scope : AssetScope
  pub team_id : Option String
  pub slug : String
  pub title : Option String
  pub summary : Option String
  pub lang : Option String
  pub tags : List String
  pub required_capabilities : List String
  pub body : String

-- One asset for each organization, scope, team, kind and slug.
abbrev pub by_slug : String → ContributeInput → Asset → Bool
by_slug org_id input a =
    (a.org_id == org_id)
    && (scope_eqb a.scope input.scope
        && (team_eqb a.team_id input.team_id
            && (kind_eqb a.kind input.kind && (a.slug == input.slug))))

abbrev pub resubmitted : ℕ → ContributeInput → Asset → Asset
resubmitted now input a = record a {
  lifecycle = in_review;
  title = or_else input.title input.slug;
  summary = input.summary;
  lang = input.lang;
  tags = input.tags;
  updated_at = now;
}

module _ (script : Script) (host : Host) where
  -- The guards of an approval, on the rows that it read: the capabilities to grant.
  unfoldable pub approve : Asset → AssetVersion → List String → Outcome (List String)
  approve asset version granted = do
    approved ←
        normalize_granted_capabilities script host asset.kind version.required_capabilities granted
    ensure (scan_for_injection host version.body) (bad_request "blocked on publish")
    ensure (eqb (length (redact_secrets host version.body).1) 0) (
        bad_request
          "blocked on publish: asset version contains secret-shaped content and must be resubmitted")
    ok approved

  -- The transaction of an approval; ids are primary keys, so a count is one if any row is met.
  unfoldable pub publish : ℕ → String → Asset → AssetVersion → List String → Db → Outcome Db
  publish now haystack asset version approved db = do
    ensure (any (unchanged asset) db.assets && any (unreviewed version) db.versions)
        (conflict "The asset changed during review; reload the latest version")
    ok (record {
      assets = update_where (unchanged asset) (published_row now haystack) db.assets;
      versions = update_where (unreviewed version) (reviewed_row now approved) db.versions;
    })

  -- `review` with the decision "approve", after the check of the license
  unfoldable pub review_approve : ℕ → String → List String → Db → Db → Outcome Db
  review_approve now id granted read db = do
    asset ← require (find (by_id id) read.assets) (not_found "asset not found")
    ensure (lifecycle_eqb asset.lifecycle in_review) (bad_request "Asset review")
    version ← require (latest_version id read.versions) (not_found "asset version not found")
    approved ← approve asset version granted
    publish now (search_text_for host asset.title asset.summary asset.tags asset.lang version.body)
        asset version approved db

  -- `review` with the decision "reject"
  unfoldable pub review_reject : ℕ → String → Db → Db → Outcome Db
  review_reject now id read db = do
    asset ← require (find (by_id id) read.assets) (not_found "asset not found")
    ensure (lifecycle_eqb asset.lifecycle in_review) (bad_request "Asset review")
    ensure (any (unchanged asset) db.assets)
        (conflict "The asset changed during review; reload the latest version")
    ok (record db {
      assets =
          update_where (unchanged asset) (λ a. record a { lifecycle = draft; updated_at = now })
            db.assets;
    })

  unfoldable pub deprecate : ℕ → String → Option String → Db → Db → Outcome Db
  deprecate now id superseded_by read db = do
    asset ← require (find (by_id id) read.assets) (not_found "asset not found")
    ensure (lifecycle_eqb asset.lifecycle published) (bad_request "Asset deprecation")
    ensure (any (unchanged asset) db.assets)
        (conflict "The asset changed during deprecation; reload the latest version")
    ok (record db {
      assets =
          update_where (unchanged asset)
            (λ a. record a {
              lifecycle = deprecated;
              superseded_by_id = superseded_by;
              updated_at = now;
            })
            db.assets;
    })

  -- The version that a contribution or a promotion appends, with the redacted body.
  unfoldable pub new_version : String → String → List String → String → AssetVersion
  new_version version_id asset_id required body = record {
    version_id = version_id;
    asset_id = asset_id;
    body = (redact_secrets host body).0;
    content_hash = host.sha256 (redact_secrets host body).0;
    redactions = (redact_secrets host body).1;
    required_capabilities = required;
    granted_capabilities = [];
    reviewed_at = none;
  }

  -- The transaction of a contribution, for the asset that it finds.
  unfoldable pub store_contribution :
      ℕ → String → String → String → String → ContributeInput → List String → Option Asset → Db → Db
  store_contribution now new_id version_id org_id device_id input required (some found) db =
      record {
        assets = update_where (by_id found.id) (resubmitted now input) db.assets;
        versions = db.versions ++ new_version version_id found.id required input.body ∷ [];
      }
  store_contribution now new_id version_id org_id device_id input required none db = record {
    assets =
        db.assets
        ++ record {
          id = new_id;
          org_id = org_id;
          scope = input.scope;
          team_id = input.team_id;
          kind = input.kind;
          slug = input.slug;
          title = or_else input.title input.slug;
          summary = input.summary;
          lang = input.lang;
          tags = input.tags;
          owner_device_id = some device_id;
          lifecycle = in_review;
          search_text = "";
          superseded_by_id = none;
          promoted_from_id = none;
          updated_at = now;
        }
          ∷ [];
    versions = db.versions ++ new_version version_id new_id required input.body ∷ [];
  }

  -- `contribute`, after the checks of the license and of the device
  unfoldable pub contribute :
      ℕ → String → String → String → String → ContributeInput → Db → Outcome Db
  contribute now new_id version_id org_id device_id input db = do
    ensure (scan_for_injection host input.body) (bad_request "blocked (cannot redact)")
    required ← normalize_required_capabilities script host input.kind input.required_capabilities
    ok (
        store_contribution now new_id version_id org_id device_id input required
          (find (by_slug org_id input) db.assets) db)

  unfoldable pub promote :
      ℕ → String → String → String → AssetScope → Option String → Db → Outcome Db
  promote now new_id version_id id to_scope to_team db = do
    src ← require (find (by_id id) db.assets) (not_found "asset/version not found")
    version ← require (latest_version id db.versions) (not_found "asset/version not found")
    ensure (lifecycle_eqb src.lifecycle published) (bad_request "Asset promotion")
    ensure (scan_for_injection host version.body) (bad_request "blocked on promote")
    ok (record {
      assets =
          db.assets
          ++ record {
            id = new_id;
            org_id = src.org_id;
            scope = to_scope;
            team_id = to_team;
            kind = src.kind;
            slug = src.slug;
            title = src.title;
            summary = none;
            lang = src.lang;
            tags = src.tags;
            owner_device_id = none;
            lifecycle = in_review;
            search_text = "";
            superseded_by_id = none;
            promoted_from_id = some src.id;
            updated_at = now;
          }
            ∷ [];
      versions =
          db.versions
          ++ new_version version_id new_id version.required_capabilities version.body ∷ [];
    })
