-- ===== src/Learnings/Submission.antt =====
-- What a submission leaves alone: the approved texts, the versions and the revisions.
use hara_control.Common.{
  Apart-concat, find-Apart, filter_map-concat_none, find, any, keep, update_where, length, take,
  All, find-concat, ℕ, ◌-◌, ◌/◌, String, ◌≡◌, refl, ap, ◌∙◌, false, not, Option, none, some, List,
  [], ◌∷◌, ◌++◌, map, filter_map, arith, eq_iff, eq_refl, bad_request, ok, ensure, >>=-eq-ok,
}
use hara_control.Host.{Host}
use hara_control.Tokens.{Env}
use hara_control.License.{LicenseService, assert_feature}
use hara_control.Devices.{Device, device_identity}
use hara_control.Learnings.Types.{Candidate, Observation, Db, Evidence, SubmitDto}
use hara_control.Learnings.{
  max_observations_per_candidate, safe_text, required_safe_text, safe_evidence, by_key, by_id,
  add_observations, of_candidate, new_candidate, propose, observation, counted, store_evidence,
  store_candidate, too_far, submitted_audit, submit,
}
use hara_control.Learnings.Published.{
  view, published, clash, IsTable, not_by_id', SameKeys, replace-IsTable, replace-published,
  propose-view, propose-SameKeys,
}

-- What an accepted submission does, whatever it holds.
pub record IsQuiet (db db' : Db) : Type 0 where
  pub same_texts : (org_id : String) → published org_id db' ≡ published org_id db
  pub same_versions : db'.organizations ≡ db.organizations
  pub keyed : IsTable db'.candidates

counted-view :
    (now : ℕ) (dto : SubmitDto) (rows : List Observation) (org_id : String) (c : Candidate)
    → view org_id (counted now dto rows c) ≡ view org_id c
unfolding counted
counted-view now dto rows org_id c = refl

counted-SameKeys :
    (now : ℕ) (dto : SubmitDto) (rows : List Observation) (c : Candidate)
    → SameKeys c (counted now dto rows c)
unfolding counted
counted-SameKeys now dto rows c = record {
  same_id = refl;
  same_org = refl;
  same_pattern = refl;
  same_kind_of = refl;
}

SameKeys-trans : {a b c : Candidate} → SameKeys a b → SameKeys b c → SameKeys a c
SameKeys-trans h k = record {
  same_id = k.same_id ∙ h.same_id;
  same_org = k.same_org ∙ h.same_org;
  same_pattern = k.same_pattern ∙ h.same_pattern;
  same_kind_of = k.same_kind_of ∙ h.same_kind_of;
}

module _ (now : ℕ) (device : Device) (dto : SubmitDto) (summary : String)
    (rationale : Option String) (evidence : List Evidence) (db : Db) where
  -- The row and the tables that `store_evidence` leaves.
  pub store_evidence_parts :
      (current : Candidate) (rows : List Candidate) (c : Candidate) (db' : Db)
      → store_evidence now device dto summary rationale evidence current rows db ≡ ok (c, db')
      → (c
          ≡ counted now dto db'.observations
              (propose now summary rationale dto.source_version current))
        × (db'.candidates ≡ update_where (by_id current.id) (λ r. c) rows)
        × (db'.organizations ≡ db.organizations)
        × (db'.observations
            ≡ add_observations db.observations (
                map (observation device dto current.id) (
                  take
                    (max_observations_per_candidate
                      - length (keep (of_candidate current.id) db.observations))
                    evidence)))
  unfolding store_evidence
  store_evidence_parts current rows c db' e = ground arith

  store_evidence-IsQuiet :
      (current : Candidate) (rows : List Candidate) (c : Candidate) (db' : Db)
      → store_evidence now device dto summary rationale evidence current rows db ≡ ok (c, db')
      → find (by_id current.id) rows ≡ some current
      → IsTable rows
      → ((org_id : String) → filter_map (view org_id) rows ≡ published org_id db)
      → IsQuiet db db'
  store_evidence-IsQuiet current rows c db' e found h before =
      let (row, stored, orgs, _) = store_evidence_parts current rows c db' e in
      let proposed = propose now summary rationale dto.source_version current in
      let keys : SameKeys current c = rw row (
        SameKeys-trans (propose-SameKeys now summary rationale dto.source_version current)
          (counted-SameKeys now dto db'.observations proposed)) in
      record {
        same_texts = λ org_id. rw stored (
            replace-published org_id current.id current c rows
              (ap (view org_id) row
                ∙ counted-view now dto db'.observations org_id proposed
                ∙ propose-view now summary rationale dto.source_version org_id current)
              found h
            ∙ before org_id);
        same_versions = orgs;
        keyed = rw stored (replace-IsTable current.id current c rows keys found h);
      }

  -- A new candidate is pending, with a new key.
  apart_new :
      (c : Candidate) (rows : List Candidate)
      → All (λ d. by_id c.id d ≡ false) rows
      → find (by_key c.org_id c.pattern_key c.kind) rows ≡ none
      → All (λ d. clash d c ≡ false) rows
  unfolding find
  apart_new c [] _ _ = tt
  apart_new c (d ∷ rows) (k, h) e = (
    ground (
      arith,
      eq_iff d.id c.id,
      eq_iff c.id d.id,
      eq_iff d.org_id c.org_id,
      eq_iff c.org_id d.org_id,
      eq_iff d.pattern_key c.pattern_key,
      eq_iff c.pattern_key d.pattern_key,
    ),
    apart_new c rows h (ground arith),
  )

  store_candidate-IsQuiet :
      (id : String) (found : Option Candidate) (c : Candidate) (db' : Db)
      → find (by_key device.org_id dto.pattern_key dto.kind) db.candidates ≡ found
      → store_candidate now id device dto summary rationale evidence found db ≡ ok (c, db')
      → All (λ d. by_id id d ≡ false) db.candidates
      → IsTable db.candidates
      → IsQuiet db db'
  unfolding store_candidate
  store_candidate-IsQuiet id (some current) c db' at e fresh h =
      store_evidence-IsQuiet current db.candidates c db' e
        (find-Apart clash (by_key device.org_id dto.pattern_key dto.kind) (by_id current.id) current
          db.candidates (λ d. not_by_id' current.id current d refl) (eq_refl current.id) at h)
        h (λ org_id. refl)
  store_candidate-IsQuiet id none c db' at e fresh h =
      let new = new_candidate now id device.org_id dto summary rationale in
      store_evidence-IsQuiet new (db.candidates ++ new ∷ []) c db' e
        (unfold new_candidate in find-concat (by_id id) db.candidates _ fresh (eq_refl id))
        (Apart-concat clash db.candidates new h (
          apart_new new db.candidates (unfold new_candidate in fresh) (unfold new_candidate in at)))
        (λ org_id.
          filter_map-concat_none clash (view org_id) db.candidates new
            (unfold new_candidate in ground arith))

module _ (host : Host) (env : Env) (license : LicenseService) (now : ℕ) (id : String)
    (bearer : Option String) (dto : SubmitDto) (db : Db) (c : Candidate) (db' : Db)
    (e : submit host env license now id bearer dto db ≡ ok (c, db')) where
  -- The parts of a submission that returns.
  pub submit_parts :
      (device : Device) × (summary : String) × (rationale : Option String) × (evidence : List
        Evidence)
      × (stored : Candidate × Db) × (device_identity host env now bearer db.device_tokens
          ≡ ok device)
      × (required_safe_text host dto.summary ≡ ok summary)
      × (store_candidate now id device dto summary rationale evidence
            (find (by_key device.org_id dto.pattern_key dto.kind) db.candidates)
            db
          ≡ ok stored)
      × (c ≡ stored.0)
      × (db' ≡ record stored.1 { audits = stored.1.audits ++ submitted_audit device stored.0 ∷ [] })
  unfolding submit
  submit_parts =
      let (device, who, e1) =
        >>=-eq-ok (device_identity host env now bearer db.device_tokens) _ e in
      let (_, _, e2) = >>=-eq-ok (assert_feature license "agent-org" (now / 1000)) _ e1 in
      let (summary, clean, e3) = >>=-eq-ok (required_safe_text host dto.summary) _ e2 in
      let (rationale, _, e4) = >>=-eq-ok (safe_text host dto.rationale) _ e3 in
      let (evidence, _, e5) = >>=-eq-ok (safe_evidence host dto.evidence) _ e4 in
      let (_, _, e6) =
        >>=-eq-ok
          (ensure (not (any (too_far now) evidence))
            (bad_request "evidence timestamp is too far in the future"))
          _ e5 in
      let (stored, at, e7) =
        >>=-eq-ok
          (store_candidate now id device dto summary rationale evidence
            (find (by_key device.org_id dto.pattern_key dto.kind) db.candidates) db)
          _ e6 in
      (device, summary, rationale, evidence, stored, who, clean, at, ground arith, ground arith)

  -- A submission that returns, with a new id that no candidate has, on candidates with different ids
  -- and keys, changes no organization's approved texts and no version, and keeps ids and keys
  -- different.
  pub submit-IsQuiet :
      All (λ d. by_id id d ≡ false) db.candidates → IsTable db.candidates → IsQuiet db db'
  submit-IsQuiet fresh h =
      let (device, summary, rationale, evidence, stored, _, _, at, _, same) = submit_parts in
      let quiet =
        store_candidate-IsQuiet now device dto summary rationale evidence db id _ stored.0 stored.1
          refl at fresh h in
      rw same record {
        same_texts = quiet.same_texts;
        same_versions = quiet.same_versions;
        keyed = quiet.keyed;
      }
