-- ===== src/Learnings.antt =====
-- src/learnings/learnings.service.ts: candidates, and the evidence that devices submit. The clock
-- and a new row's id are arguments; a method that throws leaves the tables as they were.
pub mod Types
pub mod Review
mod Wire
pub mod Published
pub mod Submission
pub mod Decisions
pub mod Reach
pub mod Capacity
mod Examples
use hara_control.Common.{
  find, any, keep, update_where, length, take, ℕ, suc, ◌+◌, ◌-◌, ◌*◌, ◌/◌, String, Bool, true,
  false, not, ◌&&◌, Option, none, some, List, [], ◌∷◌, ◌++◌, map, ◌==◌, ltb, leb, if◌then◌else◌,
  does, is_some, bad_request, Outcome, err, ok, ensure, require, ◌>>=◌, ◌>>◌,
}
use hara_control.Host.{
  Pattern, carriage_return, sk_credential, authorization_credential, private_key_header,
  inline_credential, macos_user_path, linux_user_path, windows_user_path, contact_data,
  ignore_instructions, disregard_instructions, file_url, control_character, Host,
}
use hara_control.Tokens.{Env}
use hara_control.License.{LicenseService, status, assert_feature}
use hara_control.Devices.{Device, device_identity}
use hara_control.Json.{Json, bool, num, str, obj, end, field}
use hara_control.Learnings.Types.{
  Kind, Status, pending, Candidate, Observation, Db, Evidence, SubmitDto,
}
use hara_control.Audit.Call.{AuditCall}

pub Kind-discrete : Discrete Kind
Kind-discrete = hlevel

pub Status-discrete : Discrete Status
Status-discrete = hlevel

abbrev pub same_kind : Kind → Kind → Bool
same_kind a b = does (Kind-discrete a b)

abbrev pub has_status : Status → Candidate → Bool
has_status s c = does (Status-discrete c.status s)

abbrev pub max_observations_per_candidate : ℕ
max_observations_per_candidate = 5000

abbrev pub recurrence_window_ms : ℕ
recurrence_window_ms = 30 * 24 * 60 * 60 * 1000

abbrev pub future_clock_skew_ms : ℕ
future_clock_skew_ms = 5 * 60 * 1000

-- UNSAFE_TEXT, in its order
abbrev unsafe_text : List Pattern
unsafe_text =
    sk_credential ∷ authorization_credential ∷ private_key_header ∷ inline_credential
    ∷ macos_user_path ∷ linux_user_path ∷ windows_user_path ∷ contact_data ∷ ignore_instructions
    ∷ disregard_instructions ∷ file_url ∷ control_character ∷ []

module _ (host : Host) where
  pub is_unsafe : String → Bool
  is_unsafe text = any (λ p. host.matches p text) unsafe_text

  pub safe_text : Option String → Outcome (Option String)
  safe_text none = ok none
  safe_text (some value) =
      let normalized = host.trim (host.replace carriage_return "\n" value) in
      if normalized == ""
      then ok none
      else if is_unsafe normalized
      then err (bad_request "unsafe text; redact it before submission")
      else ok (some normalized)

  pub required_safe_text : String → Outcome String
  required_safe_text value = do
    safe ← safe_text (some value)
    require safe (bad_request "text is required")

  -- The evidence of a request, with its summaries checked.
  pub safe_evidence : List Evidence → Outcome (List Evidence)
  safe_evidence [] = ok []
  safe_evidence (item ∷ items) =
      let rest = safe_evidence items in
      do
        summary ← required_safe_text item.summary
        later ← rest
        ok (record item { summary = summary } ∷ later)

abbrev pub same_text : Option String → Option String → Bool
same_text none none = true
same_text (some a) (some b) = a == b
same_text _ _ = false

-- The unique index on (orgId, patternKey, kind), and the primary key.
abbrev pub by_key : String → String → Kind → Candidate → Bool
by_key org_id pattern_key kind c =
    c.org_id == org_id && (c.pattern_key == pattern_key && same_kind c.kind kind)

abbrev pub by_id : String → Candidate → Bool
by_id id c = c.id == id

-- The unique index on (deviceId, clientId, fingerprint).
abbrev pub same_observation : Observation → Observation → Bool
same_observation a b =
    a.device_id == b.device_id && (a.client_id == b.client_id && a.fingerprint == b.fingerprint)

-- `createMany` with `skipDuplicates`
pub add_observations : List Observation → List Observation → List Observation
add_observations rows [] = rows
add_observations rows (new ∷ more) =
    add_observations (if any (same_observation new) rows then rows else rows ++ new ∷ []) more

abbrev pub of_candidate : String → Observation → Bool
of_candidate id o = o.candidate_id == id

abbrev pub recurring : String → ℕ → Observation → Bool
recurring id since o = o.candidate_id == id && leb since o.observed_at

-- `distinct: ["taskHash"]`, counted
pub distinct_tasks : List Observation → ℕ
distinct_tasks [] = 0
distinct_tasks (o ∷ os) =
    let rest = distinct_tasks os in
    if any (λ p. p.task_hash == o.task_hash) os then rest else suc rest

-- The row that the upsert creates.
pub new_candidate : ℕ → String → String → SubmitDto → String → Option String → Candidate
new_candidate now id org_id dto summary rationale = record {
  id = id;
  org_id = org_id;
  pattern_key = dto.pattern_key;
  kind = dto.kind;
  summary = summary;
  rationale = rationale;
  pending_summary = none;
  pending_rationale = none;
  pending_at = none;
  status = pending;
  occurrence_count = 0;
  distinct_task_count = 0;
  revision = 1;
  source_version = dto.source_version;
  reviewed_at = none;
  reviewed_by = none;
  review_note = none;
  created_at = now;
  updated_at = now;
}

-- The update for a changed proposal: in place while the candidate is pending, beside the reviewed
-- text afterwards.
pub propose : ℕ → String → Option String → String → Candidate → Candidate
propose now summary rationale source_version c =
    if c.summary == summary && same_text c.rationale rationale
    then c
    else if has_status pending c
    then record c {
      summary = summary;
      rationale = rationale;
      source_version = source_version;
      updated_at = now;
    }
    else record c {
      pending_summary = some summary;
      pending_rationale = rationale;
      pending_at = some now;
      source_version = source_version;
      updated_at = now;
    }

abbrev pub observation : Device → SubmitDto → String → Evidence → Observation
observation device dto candidate_id item = record {
  candidate_id = candidate_id;
  org_id = device.org_id;
  device_id = device.id;
  client_id = dto.client_id;
  task_hash = item.task_hash;
  fingerprint = item.fingerprint;
  summary = item.summary;
  source = item.source;
  source_version = item.source_version;
  observed_at = item.observed_at;
}

-- The counts that the last update of the transaction writes.
pub counted : ℕ → SubmitDto → List Observation → Candidate → Candidate
counted now dto rows c =
    let recent = keep (recurring c.id (now - recurrence_window_ms)) rows in
    record c {
      occurrence_count = length recent;
      distinct_task_count = distinct_tasks recent;
      source_version = dto.source_version;
      updated_at = now;
    }

-- The transaction, once the row is read or created among `rows`. Its updates of that row are made
-- as one.
pub store_evidence :
    ℕ
    → Device
    → SubmitDto
    → String
    → Option String
    → List Evidence
    → Candidate
    → List Candidate
    → Db
    → Outcome (Candidate × Db)
store_evidence now device dto summary rationale evidence current rows db = do
  let proposed = propose now summary rationale dto.source_version current
  let existing_count = length (keep (of_candidate current.id) db.observations)
  ensure (ltb existing_count max_observations_per_candidate)
      (bad_request "learning candidate reached its bounded evidence capacity")
  let observations = add_observations db.observations (
      map (observation device dto current.id)
        (take (max_observations_per_candidate - existing_count) evidence))
  let final = counted now dto observations proposed
  ok (
    final,
    record db {
      candidates = update_where (by_id current.id) (λ c. final) rows;
      observations = observations;
    },
  )

-- The upsert.
pub store_candidate :
    ℕ
    → String
    → Device
    → SubmitDto
    → String
    → Option String
    → List Evidence
    → Option Candidate
    → Db
    → Outcome (Candidate × Db)
store_candidate now id device dto summary rationale evidence (some current) db =
    store_evidence now device dto summary rationale evidence current db.candidates db
store_candidate now id device dto summary rationale evidence none db =
    let current = new_candidate now id device.org_id dto summary rationale in
    store_evidence now device dto summary rationale evidence current (db.candidates ++ current ∷ [])
      db

abbrev pub too_far : ℕ → Evidence → Bool
too_far now item = ltb (now + future_clock_skew_ms) item.observed_at

pub submitted_audit : Device → Candidate → AuditCall
submitted_audit device c = record {
  org_id = device.org_id;
  action = "learning.candidate.submit";
  actor_type = "device";
  actor_id = device.id;
  payload = obj (
      field "candidateId" (str c.id) (
        field "occurrenceCount" (num c.occurrence_count) (
          field "distinctTaskCount" (num c.distinct_task_count)
            (field "hasPendingUpdate" (bool (is_some c.pending_summary)) end))));
}

pub submit :
    Host
    → Env
    → LicenseService
    → ℕ
    → String
    → Option String
    → SubmitDto
    → Db
    → Outcome (Candidate × Db)
submit host env license now id bearer dto db = do
  device ← device_identity host env now bearer db.device_tokens
  assert_feature license "agent-org" (now / 1000)
  summary ← required_safe_text host dto.summary
  rationale ← safe_text host dto.rationale
  evidence ← safe_evidence host dto.evidence
  ensure (not (any (too_far now) evidence))
      (bad_request "evidence timestamp is too far in the future")
  stored ←
      store_candidate now id device dto summary rationale evidence
        (find (by_key device.org_id dto.pattern_key dto.kind) db.candidates) db
  ok (
    stored.0,
    record stored.1 { audits = stored.1.audits ++ submitted_audit device stored.0 ∷ [] },
  )
