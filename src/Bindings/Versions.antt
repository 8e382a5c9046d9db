-- ===== src/Bindings/Versions.antt =====
-- The version of a binding, by which a verification tells that its configuration still stands.
use hara_control.Common.{
  find-update_other, find-append, find, update_where, find-replace, ℕ, ◌<◌, String, ◌≡◌, refl, sym,
  ap, ◌∙◌, subst, ◌⊎◌, inl, inr, Option, none, some, List, [], ◌∷◌, arith, eq_iff, eq_refl,
  Bool-cases, Option-cases, Fault, not_found, Outcome, err, ok, >>=-eq-ok, Outcome-cases,
  require_lem,
}
use hara_control.Fleet.{DeviceRow}
use hara_control.Bindings.Types.{BindingStatus, active, degraded, Binding, Db, by_id}
use hara_control.Bindings.{binding_of, judged, is_probed, judge_current, commit_verification_result}
use hara_control.Bindings.Steps.{
  IsTable, Reach, here, next, IsSuccessor, Change, kept, created, replaced,
}
use hara_control.Bindings.Changes.{found_own, Step-Change}
use hara_control.Bindings.Provenance.{IsFenced, own_id}
use hara_control.Bindings.Fenced.{Reach-IsTable}
use hara_control.Host.{Host}
use hara_control.Ssrf.{Network}
use hara_control.Secrets.{Kms}
use hara_control.Bindings.Requests.{ParseUrl, service_kind}
use hara_control.Bindings.Probe.{Reader}
use hara_control.Bindings.Service.{
  Actor, log_binding, verify_failed, verify_passed, verify_row, found_binding, checks, verify_found,
  verify,
}
use hara_control.Json.{end}

-- A row of the same id that came after `read`: its version is later, or its configuration the same.
pub record IsLater (read current : Binding) : Type 0 where
  pub same_id : current.id ≡ read.id
  pub version :
      (read.config_version < current.config_version)
      ⊎ ((current.config_version ≡ read.config_version)
          × (current.config ≡ read.config)
          × (current.credential_ref ≡ read.credential_ref))

abbrev pub HasLater : Binding → List Binding → Type 0
HasLater read rows =
    (current : Binding) × (find (by_id read.id) rows ≡ some current) × IsLater read current

IsSuccessor-IsLater :
    (devices : List DeviceRow) (read from to : Binding)
    → IsSuccessor devices from to
    → IsLater read from
    → IsLater read to
IsSuccessor-IsLater devices read from to succ later = record {
  same_id = succ.same_id ∙ later.same_id;
  version = elim succ.version [
    | inl up ↦ elim later.version [
      | inl more ↦ inl (omega arith)
      | inr (same, _, _) ↦ inl (omega arith)
    ]
    | inr (v, c, r) ↦ elim later.version [
      | inl more ↦ inl (omega arith)
      | inr (v', c', r') ↦ inr (v ∙ v', c ∙ c', r ∙ r')
    ]
  ];
}

Change-HasLater :
    (read : Binding) (devices : List DeviceRow) (rows rows' : List Binding)
    → IsTable rows
    → Change devices rows rows'
    → HasLater read rows
    → HasLater read rows'
Change-HasLater read devices rows rows' h (kept e) (c, found, later) = (c, rw e found, later)
Change-HasLater read devices rows rows' h (created row fresh absent free e) (c, found, later) =
    (c, rw e (find-append (by_id read.id) rows (row ∷ []) found), later)
Change-HasLater read devices rows rows' h (replaced from to mine succ e) (c, found, later) =
    elim (Bool-cases (by_id read.id from)) [
      | inl hit ↦
          let at : from.id ≡ read.id = (eq_iff from.id read.id).0 hit in
          let same : c ≡ from = cc (found, own_id from rows mine h, at) in
          (
            to,
            rw (e, at)
                (find-replace (by_id read.id) to rows found
                  (ground (arith, eq_iff to.id read.id, succ.same_id))),
            IsSuccessor-IsLater devices read from to succ (subst (IsLater read) same later),
          )
      | inr other ↦ (
        c,
        rw e (
              find-update_other (by_id read.id) (by_id from.id) to rows
                (λ x hit.
                  ground (arith, eq_iff x.id from.id, eq_iff x.id read.id, eq_iff from.id read.id))
                (rw succ.same_id other))
            ∙ found,
        later,
      )
    ]

pub Reach-HasLater :
    {db db' : Db} (read : Binding)
    → Reach db db'
    → IsFenced db
    → HasLater read db.bindings
    → HasLater read db'.bindings
Reach-HasLater read here h k = k
Reach-HasLater read (next r s) h k =
    Change-HasLater read _ _ _ (Reach-IsTable r h.table) (Step-Change s) (Reach-HasLater read r h k)

-- A commit that finds the version it probed stores the verdict on the row that the key finds.
commit-probed :
    (now : ℕ) (probed : Binding) (status : BindingStatus) (verified_at : Option ℕ) (db db' : Db)
    (row : Binding)
    → IsTable db.bindings
    → commit_verification_result now probed status verified_at db ≡ (some row, db')
    → (current : Binding) × (find (by_id probed.id) db.bindings ≡ some current)
      × (current.config_version ≡ probed.config_version)
      × (judged now status verified_at current ≡ row)
      × (find (by_id row.id) db'.bindings ≡ some row)
unfolding commit_verification_result judge_current
commit-probed now probed status verified_at db db' row h e =
    elim (Option-cases (binding_of probed.org_id probed.service db.bindings)) [
      | inl absent ↦ cc (rw absent at e)
      | inr (c, found) ↦ elim (Bool-cases (is_probed probed c)) [
        | inr other ↦ cc (rw (found, other) at e)
        | inl same ↦
            let e1 = rw (found, same) at e in
            let stored : judged now status verified_at c ≡ row = cc e1 in
            let left : record db {
              bindings =
                  update_where (by_id c.id) (λ b. judged now status verified_at c) db.bindings;
            }
                ≡ db' =
              cc e1 in
            let i : c.id ≡ probed.id = ground (arith, eq_iff c.id probed.id) in
            let mine =
              own_id c db.bindings (found_own probed.org_id probed.service db.bindings found) h in
            (
              c,
              rw (← i) mine,
              ground arith,
              stored,
              rw (← left, ← stored)
                  (find-replace (by_id c.id) (judged now status verified_at c) db.bindings mine
                    (eq_refl c.id)),
            )
      ]
    ]

standing :
    (read current : Binding)
    → current.config_version ≡ read.config_version
    → IsLater read current
    → (current.config ≡ read.config) × (current.credential_ref ≡ read.credential_ref)
standing read current v later = elim later.version [
  | inl more ↦ let no : ⊥ = omega arith in elim no [ ]
  | inr (_, c, r) ↦ (c, r)
]

failed_not_ok :
    (logged : Option Fault) (fault : Fault) (actor : Actor) (out : Option Binding × Db)
    {row : Binding} {db : Db}
    → verify_failed logged fault actor out ≡ (ok row, db)
    → ⊥
unfolding verify_failed
failed_not_ok logged fault actor (none, db) e = cc e
failed_not_ok none fault actor (some b, db) e = cc e
failed_not_ok (some unlogged) fault actor (some b, db) e = cc e

module _ (host : Host) (parse_url : ParseUrl) (net : Network) (reader : Reader) (kms : Kms) where
  -- What an accepted verification stands for.
  pub record IsVerified (now : ℕ) (read db' : Db) (probed row : Binding) : Type 0 where
    pub checked : checks host parse_url net reader kms probed read.secrets ≡ ok tt
    pub same_config : row.config ≡ probed.config
    pub same_credential : row.credential_ref ≡ probed.credential_ref
    pub activated : row.status ≡ active
    pub stamped : row.verified_at ≡ some now
    pub stored : find (by_id row.id) db'.bindings ≡ some row

  passed-IsVerified :
      (logged : Option Fault) (now : ℕ) (actor : Actor) (read db db' : Db) (probed row : Binding)
      → Reach read db
      → IsFenced read
      → find (by_id probed.id) read.bindings ≡ some probed
      → checks host parse_url net reader kms probed read.secrets ≡ ok tt
      → verify_passed logged actor (commit_verification_result now probed active (some now) db)
        ≡ (ok row, db')
      → IsVerified now read db' probed row
  unfolding verify_passed log_binding
  passed-IsVerified logged now actor read db db' probed row r h found k e =
      go logged (commit_verification_result now probed active (some now) db) refl e
    where
      go :
          (logged : Option Fault) (out : Option Binding × Db)
          → commit_verification_result now probed active (some now) db ≡ out
          → verify_passed logged actor out ≡ (ok row, db')
          → IsVerified now read db' probed row
      go logged (none, left) e1 e2 = cc e2
      go (some unlogged) (some b, left) e1 e2 = cc e2
      go none (some b, left) e1 e2 =
          let same : b ≡ row = cc e2 in
          let logged : log_binding "tenant-service.verify" actor end b left ≡ db' = cc e2 in
          let (c, at, v, judged_row, stored) =
            commit-probed now probed active (some now) db left b (Reach-IsTable r h.table) e1 in
          let (c', at', later) =
            Reach-HasLater probed r h
              (probed, found, record { same_id = refl; version = inr (refl, refl, refl) }) in
          let same_row : c' ≡ c = cc (at, at') in
          let (cfg, ref) = standing probed c v (subst (IsLater probed) same_row later) in
          let row_of : judged now active (some now) c ≡ row = judged_row ∙ same in
          record {
            checked = k;
            same_config = ap (λ x. x.config) (sym row_of) ∙ cfg;
            same_credential = ap (λ x. x.credential_ref) (sym row_of) ∙ ref;
            activated = ap (λ x. x.status) (sym row_of);
            stamped = ap (λ x. x.verified_at) (sym row_of);
            stored =
                rw (← logged) (subst (λ x. find (by_id x.id) left.bindings ≡ some x) same stored);
          }

  -- A verification that succeeds activates exactly what it checked: whatever run of steps from
  -- fenced tables came between its read of the tables and its commit, the row that it returns is
  -- stored and active, is stamped with the time, and has the configuration and the credential
  -- reference of the row that was read, on which every check passed.
  pub verify-IsVerified :
      (logged : Option Fault) (now : ℕ) (org_id raw_service : String) (actor : Actor)
      (read db db' : Db) (row : Binding)
      → Reach read db
      → IsFenced read
      → verify host parse_url net reader kms logged now org_id raw_service actor read db
        ≡ (ok row, db')
      → (probed : Binding) × (found_binding org_id raw_service read ≡ ok probed)
        × IsVerified now read db' probed row
  unfolding verify verify_found verify_row
  verify-IsVerified logged now org_id raw_service actor read db db' row r h e =
      go (found_binding org_id raw_service read) refl e
    where
      go :
          (out : Outcome Binding)
          → found_binding org_id raw_service read ≡ out
          → verify_found host parse_url net reader kms logged now actor out read db ≡ (ok row, db')
          → (probed : Binding) × (found_binding org_id raw_service read ≡ ok probed)
            × IsVerified now read db' probed row
      go (err fault) e1 e2 = cc e2
      go (ok probed) e1 e2 =
          let (service, _, e3) = >>=-eq-ok (service_kind raw_service) _ e1 in
          let at =
            require_lem (binding_of org_id service read.bindings)
              (not_found "organization service not found") e3 in
          let mine =
            own_id probed read.bindings (found_own org_id service read.bindings at) h.table in
          elim (Outcome-cases (checks host parse_url net reader kms probed read.secrets)) [
            | inl (_, passed) ↦ (
              probed,
              e1,
              passed-IsVerified logged now actor read db db' probed row r h mine passed
                  (rw passed at e2),
            )
            | inr (fault, failed) ↦
                elim (failed_not_ok logged fault actor
                  (commit_verification_result now probed degraded none db) (rw failed at e2)) [ ]
          ]
