-- ===== src/Assets/Examples.antt =====
-- A contribution, its approval, and an approval that comes after another contribution.
use hara_control.Common.{
  find, any, all, keep, update_where, ◌≡◌, refl, false, none, some, [], ◌∷◌, arith, Fault, err, ok,
}
use hara_control.Host.Plain.{plain}
use hara_control.Crypto.{Script}
use hara_control.Capabilities.{
  playbook, in_review, published, add_names, sort_names, normalize_capability_names,
  normalize_required_capabilities, normalize_granted_capabilities,
}
use hara_control.Assets.{
  org, Asset, AssetVersion, Db, last_version, latest_version, join, search_text_for,
  ContributeInput, approve, publish, review_approve, new_version, store_contribution, contribute,
}
use hara_control.Assets.Guard.{redact_from, redact_secrets, scan_for_injection}
use hara_control.Assets.Publication.{IsPublication, review_approve-IsPublication, stale_approval}

abbrev script : Script
script = record { quote = λ s. s; decimal = λ n. "0"; before = λ k l. false }

abbrev guide : ContributeInput
guide = record {
  kind = playbook;
  scope = org;
  team_id = none;
  slug = "deploy";
  title = none;
  summary = none;
  lang = none;
  tags = [];
  required_capabilities = [];
  body = "run the tests";
}

abbrev empty_db : Db
empty_db = record { assets = []; versions = [] }

abbrev row : Asset
row = record {
  id = "a1";
  org_id = "o1";
  scope = org;
  team_id = none;
  kind = playbook;
  slug = "deploy";
  title = "deploy";
  summary = none;
  lang = none;
  tags = [];
  owner_device_id = some "d1";
  lifecycle = in_review;
  search_text = "";
  superseded_by_id = none;
  promoted_from_id = none;
  updated_at = 5;
}

abbrev first_version : AssetVersion
first_version = record {
  version_id = "v1";
  asset_id = "a1";
  body = "run the tests";
  content_hash = "bb";
  redactions = [];
  required_capabilities = [];
  granted_capabilities = [];
  reviewed_at = none;
}

abbrev first_db : Db
first_db = record { assets = row ∷ []; versions = first_version ∷ [] }

first_contribution : contribute script plain 5 "a1" "v1" "o1" "d1" guide empty_db ≡ ok first_db
unfolding contribute store_contribution new_version scan_for_injection redact_secrets redact_from
    normalize_required_capabilities normalize_capability_names add_names sort_names any find
first_contribution = refl

abbrev second_db : Db
second_db = record {
  assets = record row { updated_at = 8 } ∷ [];
  versions = first_version ∷ record first_version { version_id = "v2" } ∷ [];
}

second_contribution : contribute script plain 8 "a2" "v2" "o1" "d1" guide first_db ≡ ok second_db
unfolding contribute store_contribution new_version scan_for_injection redact_secrets redact_from
    normalize_required_capabilities normalize_capability_names add_names sort_names any find
    update_where
second_contribution = refl

abbrev approved_db : Db
approved_db = record {
  assets =
      record row {
        lifecycle = published;
        search_text = "deploy\n\n\n\nrun the tests";
        updated_at = 9;
      }
      ∷ [];
  versions = record first_version { reviewed_at = some 9 } ∷ [];
}

approval : review_approve script plain 9 "a1" [] first_db first_db ≡ ok approved_db
unfolding review_approve approve publish latest_version last_version search_text_for join
    normalize_granted_capabilities scan_for_injection redact_secrets redact_from
    normalize_required_capabilities normalize_capability_names add_names sort_names any find
    update_where keep all
approval = refl

review_approve-IsPublication_example : IsPublication plain 9 "a1" first_db first_db approved_db
review_approve-IsPublication_example =
    review_approve-IsPublication script plain 9 "a1" [] first_db first_db approval

stale_approval_example :
    (fault : Fault) × (review_approve script plain 9 "a1" [] first_db second_db ≡ err fault)
unfolding find
stale_approval_example =
    stale_approval script plain 8 9 "a2" "v2" "o1" "d1" "a1" guide [] first_db second_db row refl
      refl (omega arith) second_contribution
