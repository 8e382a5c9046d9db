-- ===== src/Assets/Publication.antt =====
-- What an approval publishes, and that it does not publish what changed since it was read.
use hara_control.Common.{
  find, any, update_where, has, length, All, ℕ, String, ◌≡◌, refl, sym, ap, ◌∙◌, subst, ◌≢◌, inl,
  inr, true, false, ◌&&◌, Option, some, List, [], ◌∷◌, arith, eq_refl, eqb, Fault, err, ok, ensure,
  require, >>=-eq-ok, Outcome-cases, ensure_lem, require_lem,
}
use hara_control.Host.{Host}
use hara_control.Crypto.{Script}
use hara_control.Capabilities.{
  AssetLifecycle, draft, in_review, published, deprecated, lifecycle_eqb,
  normalize_required_capabilities, normalize_granted_capabilities,
}
use hara_control.Capabilities.Approval.{normalize_granted-declared}
use hara_control.Assets.{
  Asset, AssetVersion, Db, by_id, latest_version, unchanged, unreviewed, published_row,
  reviewed_row, search_text_for, ContributeInput, by_slug, resubmitted, approve, publish,
  review_approve, store_contribution, contribute,
}
use hara_control.Assets.Guard.{redact_secrets, scan_for_injection}

-- An approval that returns: the asset and its latest version, as they were read, and the tables.
pub record IsPublication (host : Host) (now : ℕ) (id : String) (read db db' : Db) : Type 0 where
  pub asset : Asset
  pub version : AssetVersion
  pub approved : List String
  pub found : find (by_id id) read.assets ≡ some asset
  pub latest : latest_version id read.versions ≡ some version
  pub was_in_review : asset.lifecycle ≡ in_review
  pub clean : scan_for_injection host version.body ≡ true
  pub no_secret : (redact_secrets host version.body).1 ≡ []
  pub declared : All (λ c. has version.required_capabilities c ≡ true) approved
  pub still : any (unchanged asset) db.assets ≡ true
  pub published_assets :
      db'.assets
      ≡ update_where
          (unchanged asset)
          (published_row now
            (search_text_for host asset.title asset.summary asset.tags asset.lang version.body))
          db.assets
  pub granted_versions :
      db'.versions ≡ update_where (unreviewed version) (reviewed_row now approved) db.versions

All-has :
    (P : String → Type 0) (xs : List String) → ((c : String) → has xs c ≡ true → P c) → All P xs
unfolding has any
All-has P [] f = tt
All-has P (x ∷ xs) f =
    (f x (ground (arith, eq_refl x)), All-has P xs (λ c h. f c (ground (arith, h))))

no_redaction : (xs : List String) → eqb (length xs) 0 ≡ true → xs ≡ []
no_redaction [] h = refl
no_redaction (x ∷ xs) h = ground arith

in_review_lem : (l : AssetLifecycle) → lifecycle_eqb l in_review ≡ true → l ≡ in_review
in_review_lem draft h = ground arith
in_review_lem in_review h = refl
in_review_lem published h = ground arith
in_review_lem deprecated h = ground arith

-- A contribution leaves no row as it was read.
resubmitted_changed :
    (now : ℕ) (input : ContributeInput) (from : Asset) (rows : List Asset)
    → from.updated_at ≢ now
    → any (unchanged from) (update_where (by_id from.id) (resubmitted now input) rows) ≡ false
unfolding any update_where
resubmitted_changed now input from [] moved = refl
resubmitted_changed now input from (a ∷ rows) moved =
    ground (arith, resubmitted_changed now input from rows moved)

module _ (script : Script) (host : Host) where
  approve_guards :
      (asset : Asset) (version : AssetVersion) (granted : List String) {approved : List String}
      → approve script host asset version granted ≡ ok approved
      → (scan_for_injection host version.body ≡ true)
        × ((redact_secrets host version.body).1 ≡ [])
        × All (λ c. has version.required_capabilities c ≡ true) approved
  unfolding approve
  approve_guards asset version granted {approved} e =
      let (given, e1, k1) =
        >>=-eq-ok
          (normalize_granted_capabilities script host asset.kind version.required_capabilities
            granted)
          _ e in
      let (_, e2, k2) = >>=-eq-ok (ensure (scan_for_injection host version.body) _) _ k1 in
      let (_, e3, k3) =
        >>=-eq-ok (ensure (eqb (length (redact_secrets host version.body).1) 0) _) _ k2 in
      let same : given ≡ approved = ground arith in
      (
        ensure_lem _ _ e2,
        no_redaction _ (ensure_lem _ _ e3),
        subst (λ l. All (λ c. has version.required_capabilities c ≡ true) l) same
            (All-has (λ c. has version.required_capabilities c ≡ true) given
              (λ c h.
                (normalize_granted-declared script host asset.kind version.required_capabilities
                  granted {out = given} e1 c h).1)),
      )

  publish_tables :
      (now : ℕ) (haystack : String) (asset : Asset) (version : AssetVersion)
      (approved : List String) (db : Db) {db' : Db}
      → publish script host now haystack asset version approved db ≡ ok db'
      → (any (unchanged asset) db.assets ≡ true)
        × (db'.assets ≡ update_where (unchanged asset) (published_row now haystack) db.assets)
        × (db'.versions ≡ update_where (unreviewed version) (reviewed_row now approved) db.versions)
  unfolding publish
  publish_tables now haystack asset version approved db {db'} e =
      let (_, e1, k1) =
        >>=-eq-ok
          (ensure (any (unchanged asset) db.assets && any (unreviewed version) db.versions) _) _
          e in
      let both = ensure_lem _ _ e1 in (ground (arith, both), cc, cc)

  store_contribution-assets :
      (now : ℕ) (new_id version_id org_id device_id : String) (input : ContributeInput)
      (required : List String) (o : Option Asset) (read : Db) (asset : Asset)
      → o ≡ some asset
      → (store_contribution script host now new_id version_id org_id device_id input required o
          read).assets
        ≡ update_where (by_id asset.id) (resubmitted now input) read.assets
  unfolding store_contribution
  store_contribution-assets now new_id version_id org_id device_id input required o read asset e =
      rw e refl

  contribute_tables :
      (now : ℕ) (new_id version_id org_id device_id : String) (input : ContributeInput)
      (read db : Db) (asset : Asset)
      → find (by_slug org_id input) read.assets ≡ some asset
      → contribute script host now new_id version_id org_id device_id input read ≡ ok db
      → db.assets ≡ update_where (by_id asset.id) (resubmitted now input) read.assets
  unfolding contribute store_contribution
  contribute_tables now new_id version_id org_id device_id input read db asset found e =
      let (_, e1, k1) = >>=-eq-ok (ensure (scan_for_injection host input.body) _) _ e in
      let (required, e2, k2) =
        >>=-eq-ok
          (normalize_required_capabilities script host input.kind input.required_capabilities) _
          k1 in
      let same : store_contribution script host now new_id version_id org_id device_id input
            required (find (by_slug org_id input) read.assets) read
          ≡ db =
        cc k2 in
      sym (ap (λ d. d.assets) same)
      ∙ store_contribution-assets now new_id version_id org_id device_id input required
          (find (by_slug org_id input) read.assets) read asset found

  -- An approval that returns was of an asset in review and of its latest version, as they were read;
  -- the version's text passed the scan and holds no secret, every granted capability is one that the
  -- version declares, the asset is unchanged since it was read, and exactly the asset's row is
  -- published and the version's row, if it was not reviewed, gets the capabilities.
  pub review_approve-IsPublication :
      (now : ℕ) (id : String) (granted : List String) (read db : Db) {db' : Db}
      → review_approve script host now id granted read db ≡ ok db'
      → IsPublication host now id read db db'
  unfolding review_approve
  review_approve-IsPublication now id granted read db {db'} e =
      let (asset, e1, k1) = >>=-eq-ok (require (find (by_id id) read.assets) _) _ e in
      let (_, e2, k2) = >>=-eq-ok (ensure (lifecycle_eqb asset.lifecycle in_review) _) _ k1 in
      let (version, e3, k3) = >>=-eq-ok (require (latest_version id read.versions) _) _ k2 in
      let (approved, e4, k4) = >>=-eq-ok (approve script host asset version granted) _ k3 in
      let guarded = approve_guards asset version granted {approved = approved} e4 in
      let stored = publish_tables now _ asset version approved db {db' = db'} k4 in
      record {
        asset = asset;
        version = version;
        approved = approved;
        found = require_lem (find (by_id id) read.assets) _ e1;
        latest = require_lem (latest_version id read.versions) _ e3;
        was_in_review = in_review_lem asset.lifecycle (ensure_lem _ _ e2);
        clean = guarded.0;
        no_secret = guarded.1;
        declared = guarded.2;
        still = stored.0;
        published_assets = stored.1;
        granted_versions = stored.2;
      }

  -- If a contribution changes an asset after an administrator's review has read it, at a time other
  -- than the one that the asset was last changed at, then the approval of what was read publishes
  -- nothing: it ends in an error.
  pub stale_approval :
      (now later : ℕ) (new_id version_id org_id device_id id : String) (input : ContributeInput)
      (granted : List String) (read db : Db) (asset : Asset)
      → find (by_id id) read.assets ≡ some asset
      → find (by_slug org_id input) read.assets ≡ some asset
      → asset.updated_at ≢ now
      → contribute script host now new_id version_id org_id device_id input read ≡ ok db
      → (fault : Fault) × (review_approve script host later id granted read db ≡ err fault)
  stale_approval now later new_id version_id org_id device_id id input granted read db asset found
        same moved e =
      elim (Outcome-cases (review_approve script host later id granted read db)) [
        | inr failed ↦ failed
        | inl (db', done) ↦
            let p = review_approve-IsPublication later id granted read db {db' = db'} done in
            let at : p.asset ≡ asset = ground (arith, p.found, found) in
            let kept : any (unchanged asset) db.assets ≡ true = rw (sym at) p.still in
            let tables =
              contribute_tables now new_id version_id org_id device_id input read db asset same e in
            let no : ⊥ =
              ground (arith, kept, tables, resubmitted_changed now input asset read.assets moved) in
            elim no [ ]
      ]
