-- ===== src/Bindings/Revocable.antt =====
-- The Desk installation of a device can be revoked for as long as the device holds on to it.
use hara_control.Common.{find, All, find-All, ℕ, String, ◌≡◌, refl, true, some, List, eq_refl, ok}
use hara_control.Host.{Host}
use hara_control.Fleet.{DeviceRow, device_by_id, is_attached}
use hara_control.Secrets.{Kms, Secret}
use hara_control.Bindings.{binding_of}
use hara_control.Bindings.Types.{desk_tasks, Binding, Db, by_service}
use hara_control.Bindings.Requests.{ParseUrl, normalize_url}
use hara_control.Bindings.Steps.{Reach, IsTimelyRun}
use hara_control.Bindings.Provenance.{Matches, IsFenced}
use hara_control.Bindings.Fenced.{Reach-IsFenced}
use hara_control.Bindings.Desk.{enroll_key, revocation_row, desk_revocation_resolution}

revocable_row :
    (kms : Kms) (origin ref : String) (key : List ℕ) (d : DeviceRow) (b : Binding)
    (secrets : List Secret)
    → b.config.api_origin ≡ origin
    → b.credential_ref ≡ some ref
    → enroll_key kms "managed Hara Desk binding has no readable enrollment credential" d.org_id ref
        secrets
      ≡ ok key
    → revocation_row kms d.org_id origin (some b) secrets
      ≡ ok (record { managed_configured = true; target = some (origin, key) })
unfolding revocation_row
revocable_row kms origin ref key d b secrets o r k = rw (o, eq_refl origin) (rw (r, k) refl)

module _ (kms : Kms) (host : Host) (parse_url : ParseUrl) where
  -- In every state that a run from fenced tables reaches, if each provisioning of the run finds its
  -- device still reserved at the origin, a device that holds on to a Desk
  -- installation of a managed binding can have it revoked: for its stored origin, if that is in
  -- normal form, the resolution gives that very origin, with the credential of the binding, if
  -- the binding names a credential that can be read.
  pub Reach-revocable :
      {db db' : Db} (d : DeviceRow) (id origin ref : String) (b : Binding) (key : List ℕ)
      → (run : Reach db db') → IsTimelyRun run
      → IsFenced db
      → find (device_by_id id) db'.devices ≡ some d
      → is_attached d ≡ true
      → d.desk_origin ≡ some origin
      → normalize_url host parse_url (some origin) true ≡ ok (some origin)
      → binding_of d.org_id desk_tasks db'.bindings ≡ some b
      → b.credential_ref ≡ some ref
      → enroll_key kms "managed Hara Desk binding has no readable enrollment credential" d.org_id
          ref db'.secrets
        ≡ ok key
      → desk_revocation_resolution kms host parse_url d.org_id origin db'
        ≡ ok (record { managed_configured = true; target = some (origin, key) })
  unfolding desk_revocation_resolution binding_of
  Reach-revocable {db} {db'} d id origin ref b key r timely h found held at normal mine named
        readable =
      let h' = Reach-IsFenced r timely h in
      let own =
        find-All (λ x. All (Matches x) db'.bindings) (device_by_id id) db'.devices found
          h'.matched in
      let (m, hit) =
        find-All (Matches d) (by_service d.org_id desk_tasks) db'.bindings mine own.0 in
      let same : b.config.api_origin ≡ origin = cc (m held hit, at) in
      rw (normal, mine) (revocable_row kms origin ref key d b db'.secrets same named readable)
