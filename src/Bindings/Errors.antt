-- ===== src/Bindings/Errors.antt =====
-- What an operation on a binding leaves when it throws.
use hara_control.Common.{
  find, ◌⊎◌, Bool, is_some, keep, All, find-All, ℕ, String, ◌≡◌, refl, sym, ap, ◌∙◌, inl, inr, true,
  false, Option, none, some, List, [], ◌∷◌, ◌++◌, eq_refl, Option-cases, Fault, Outcome, err, ok,
  >>=-eq-ok,
}
use hara_control.Host.{Host}
use hara_control.Secrets.{Kms, Secret, is_secret, store_secret, put, remove}
use hara_control.Bindings.Types.{ServiceKind, Config, Binding, UpsertDto, Db}
use hara_control.Bindings.Requests.{ParseUrl}
use hara_control.Bindings.Service.{
  Actor, log_binding, configure_details, dropped, upsert_done, upsert_stored, stored_credential,
  upsert_checked, requested, upsert,
}

dropped_new :
    (org_id ref : String) (row : Secret) (rows : List Secret)
    → is_secret (some org_id) ref row ≡ true
    → All (λ s. is_secret (some org_id) ref s ≡ false) rows
    → remove (some org_id) ref (rows ++ row ∷ []) ≡ rows
unfolding remove keep
dropped_new org_id ref row [] hit tt = rw hit refl
dropped_new org_id ref row (s ∷ rows) hit (miss, k) =
    rw (miss, dropped_new org_id ref row rows hit k) refl

module _ (kms : Kms) where
  -- The credential that a refused upsert stored is gone again.
  stored-dropped :
      (seed now : ℕ) (secret_id org_id new_ref : String) (credential : Option String) (db : Db)
      (ref : Option String) (stored : Db)
      → All (λ s. is_secret (some org_id) new_ref s ≡ false) db.secrets
      → stored_credential kms seed now secret_id org_id new_ref credential db ≡ ok (ref, stored)
      → record stored { secrets = dropped org_id ref stored.secrets } ≡ db
  unfolding stored_credential put store_secret dropped
  stored-dropped seed now secret_id org_id new_ref none db ref stored fresh e =
      let no_ref : none ≡ ref = cc e in let same : db ≡ stored = cc e in rw (← no_ref, ← same) refl
  stored-dropped seed now secret_id org_id new_ref (some credential) db ref stored fresh e =
      let (secrets, e1, e2) =
        >>=-eq-ok
          (put kms seed now secret_id (some org_id) new_ref (kms.utf8 credential) db.secrets) _ e in
      let (envelope, _, e3) =
        >>=-eq-ok (kms.encrypt seed (kms.utf8 credential) (some org_id)) _ e1 in
      let has_ref : some new_ref ≡ ref = cc e2 in
      let left : record db { secrets = secrets } ≡ stored = cc e2 in
      elim (Option-cases (find (is_secret (some org_id) new_ref) db.secrets)) [
        | inr (s, found) ↦
            let (miss, hit) =
              find-All (λ s. is_secret (some org_id) new_ref s ≡ false)
                (is_secret (some org_id) new_ref) db.secrets found fresh in
            cc (miss, hit)
        | inl absent ↦
            let new : Secret = record {
              id = secret_id;
              org_id = some org_id;
              name = new_ref;
              envelope = envelope;
              version = 1;
              created_at = now;
              updated_at = now;
            } in
            let appended : db.secrets ++ new ∷ [] ≡ secrets = cc (rw absent at e3) in
            rw (← has_ref, ← left, ← appended)
              (ap (λ x. record db { secrets = x })
                (dropped_new org_id new_ref new db.secrets
                  (rw (eq_refl org_id, eq_refl new_ref) refl) fresh))
      ]

  -- The write of the audit row threw `fault`, and that row is all that the tables lack.
  abbrev pub IsUnlogged :
      (Option Fault → Outcome Binding × Db) → Actor → Option Fault → Fault → Db → Type 0
  IsUnlogged run actor logged fault db' =
      (row : Binding) × (replaced : Bool) × (logged ≡ some fault)
      × (run none ≡ (
        ok row,
        log_binding "tenant-service.configure" actor (configure_details replaced row) row db',
      ))

  failed_done :
      (logged : Option Fault) (org_id : String) (actor : Actor) (ref : Option String) (stored : Db)
      (out : Outcome (Binding × Option String × Db)) {fault : Fault} {db' : Db}
      → upsert_done logged org_id actor ref stored out ≡ (err fault, db')
      → (record stored { secrets = dropped org_id ref stored.secrets } ≡ db')
        ⊎ IsUnlogged (λ l. upsert_done l org_id actor ref stored out) actor logged fault db'
  unfolding upsert_done
  failed_done logged org_id actor ref stored (err f) e = inl (ap (λ x. x.1) e)
  failed_done none org_id actor ref stored (ok (row, retired, db)) e = cc e
  failed_done (some f) org_id actor ref stored (ok (row, retired, db)) e =
      let same : record db { secrets = dropped org_id retired db.secrets } ≡ _ = ap (λ x. x.1) e in
      inr (row, is_some ref, cc e, rw (← same) refl)

  module _ (host : Host) (parse_url : ParseUrl) where
    -- An upsert that throws leaves every table as it was, if the reference that it would have given
    -- to the new credential is fresh and the removal of a secret never fails: a refused change of a
    -- binding leaves no orphaned secret, no half-written row and no audit row. The one exception is
    -- a write of the audit row that throws: the upsert then throws what that write threw, and leaves
    -- the tables that the same upsert leaves when it succeeds, without its audit row.
    pub upsert_fault :
        (logged : Option Fault) (seed now : ℕ)
        (new_id secret_id new_ref org_id raw_service : String) (input : UpsertDto) (actor : Actor)
        (db db' : Db) (fault : Fault)
        → All (λ s. is_secret (some org_id) new_ref s ≡ false) db.secrets
        → upsert host parse_url kms logged seed now new_id secret_id new_ref org_id raw_service
            input actor db
          ≡ (err fault, db')
        → (db' ≡ db)
          ⊎ IsUnlogged
              (λ l.
                upsert host parse_url kms l seed now new_id secret_id new_ref org_id raw_service
                  input actor db)
              actor
              logged
              fault
              db'
    unfolding upsert upsert_checked upsert_stored
    upsert_fault logged seed now new_id secret_id new_ref org_id raw_service input actor db db'
          fault fresh e =
        asked (requested host parse_url org_id raw_service input db) e
      where
        saved :
            (service : ServiceKind) (config : Config) (out : Outcome (Option String × Db))
            → stored_credential kms seed now secret_id org_id new_ref input.credential db ≡ out
            → upsert_stored logged now new_id org_id actor service config input.capabilities_version
                db out
              ≡ (err fault, db')
            → (db' ≡ db)
              ⊎ IsUnlogged
                  (λ l.
                    upsert_stored l now new_id org_id actor service config
                      input.capabilities_version db out)
                  actor
                  logged
                  fault
                  db'
        saved service config (err f) e1 e2 = inl (sym (ap (λ x. x.1) e2))
        saved service config (ok (ref, stored)) e1 e2 =
            elim (failed_done logged org_id actor ref stored _ e2) [
              | inl same ↦ inl (
                  sym same
                  ∙ stored-dropped seed now secret_id org_id new_ref input.credential db ref stored
                      fresh e1)
              | inr unlogged ↦ inr unlogged
            ]

        asked :
            (out : Outcome (ServiceKind × Config))
            → upsert_checked kms logged seed now new_id secret_id new_ref org_id input actor db out
              ≡ (err fault, db')
            → (db' ≡ db)
              ⊎ IsUnlogged
                  (λ l.
                    upsert_checked kms l seed now new_id secret_id new_ref org_id input actor db
                      out)
                  actor
                  logged
                  fault
                  db'
        asked (err f) e1 = inl (sym (ap (λ x. x.1) e1))
        asked (ok (service, config)) e1 = saved service config _ refl e1
