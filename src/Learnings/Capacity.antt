-- ===== src/Learnings/Capacity.antt =====
-- The evidence of a candidate is bounded.
use hara_control.Common.{
  any, keep, length, take, length-append, length-take, ℕ, ◌+◌, ◌-◌, ◌≤◌, String, ◌≡◌, refl, Bool,
  Option, none, some, List, [], ◌∷◌, ◌++◌, map, arith, ◌==◌, eq_iff, if◌then◌else◌, ok,
}
use hara_control.Host.{Host}
use hara_control.Tokens.{Env}
use hara_control.License.{LicenseService}
use hara_control.Devices.{Device}
use hara_control.Learnings.Types.{Candidate, Observation, Db, Evidence, SubmitDto}
use hara_control.Learnings.{
  max_observations_per_candidate, same_observation, add_observations, of_candidate, observation,
  store_evidence, store_candidate, submit,
}
use hara_control.Learnings.Submission.{store_evidence_parts, submit_parts}

abbrev pub evidence_of : String → List Observation → ℕ
evidence_of id rows = length (keep (of_candidate id) rows)

keep-append :
    (p : Observation → Bool) (xs ys : List Observation) → keep p (xs ++ ys) ≡ keep p xs ++ keep p ys
unfolding keep
keep-append p [] ys = refl
keep-append p (x ∷ xs) ys = ground (arith, keep-append p xs ys)

evidence_of-add :
    (id : String) (rows new : List Observation)
    → evidence_of id (add_observations rows new) ≤ evidence_of id rows + evidence_of id new
unfolding add_observations keep
evidence_of-add id rows [] = omega arith
evidence_of-add id rows (o ∷ os) = ground (
  arith,
  evidence_of-add id (if any (same_observation o) rows then rows else rows ++ o ∷ []) os,
  keep-append (of_candidate id) rows (o ∷ []),
  length-append (keep (of_candidate id) rows) (keep (of_candidate id) (o ∷ [])),
)

evidence_of-map :
    (id : String) (device : Device) (dto : SubmitDto) (candidate_id : String)
    (items : List Evidence)
    → evidence_of id (map (observation device dto candidate_id) items)
      ≤ (if candidate_id == id then length items else 0)
unfolding keep
evidence_of-map id device dto candidate_id [] = ground arith
evidence_of-map id device dto candidate_id (item ∷ items) =
    ground (arith, evidence_of-map id device dto candidate_id items)

module _ (now : ℕ) (device : Device) (dto : SubmitDto) (summary : String)
    (rationale : Option String) (evidence : List Evidence) (db : Db) where
  store_evidence-bound :
      (current : Candidate) (rows : List Candidate) (c : Candidate) (db' : Db) (id : String)
      → store_evidence now device dto summary rationale evidence current rows db ≡ ok (c, db')
      → evidence_of id db.observations ≤ max_observations_per_candidate
      → evidence_of id db'.observations ≤ max_observations_per_candidate
  store_evidence-bound current rows c db' id e h =
      let (_, _, _, added) =
        store_evidence_parts now device dto summary rationale evidence db current rows c db' e in
      let room = max_observations_per_candidate - evidence_of current.id db.observations in
      let items = map (observation device dto current.id) (take room evidence) in
      rw added (
        ground (
          arith,
          evidence_of-add id db.observations items,
          evidence_of-map id device dto current.id (take room evidence),
          length-take room evidence,
          eq_iff current.id id,
        ))

  store_candidate-bound :
      (new_id : String) (found : Option Candidate) (c : Candidate) (db' : Db) (id : String)
      → store_candidate now new_id device dto summary rationale evidence found db ≡ ok (c, db')
      → evidence_of id db.observations ≤ max_observations_per_candidate
      → evidence_of id db'.observations ≤ max_observations_per_candidate
  unfolding store_candidate
  store_candidate-bound new_id (some current) c db' id e h =
      store_evidence-bound current db.candidates c db' id e h
  store_candidate-bound new_id none c db' id e h = store_evidence-bound _ _ c db' id e h

module _ (host : Host) (env : Env) (license : LicenseService) (now : ℕ) (new_id : String)
    (bearer : Option String) (dto : SubmitDto) (db : Db) (c : Candidate) (db' : Db)
    (e : submit host env license now new_id bearer dto db ≡ ok (c, db')) where
  -- A submission that returns leaves no candidate with more than 5000 observations, if the candidate
  -- had no more before.
  pub submit-capacity :
      (id : String)
      → evidence_of id db.observations ≤ max_observations_per_candidate
      → evidence_of id db'.observations ≤ max_observations_per_candidate
  submit-capacity id h =
      let (device, summary, rationale, evidence, stored, _, _, at, _, same) =
        submit_parts host env license now new_id bearer dto db c db' e in
      rw same (
        store_candidate-bound now device dto summary rationale evidence db new_id _ stored.0
          stored.1 id at h)
