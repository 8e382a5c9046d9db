-- ===== src/Learnings/Review.antt =====
-- src/learnings/learnings.service.ts: the administrator's review, and the approved bundle.
use hara_control.Common.{
  find, keep, update_where, ℕ, ◌+◌, ◌/◌, String, Bool, true, false, not, ◌&&◌, ◌||◌, Option, none,
  some, List, [], ◌∷◌, ◌++◌, ◌==◌, eqb, if◌then◌else◌, or_else, bad_request, not_found, conflict,
  failure, Outcome, err, ok, ensure, require, ◌>>=◌, ◌>>◌,
}
use hara_control.Host.{Host}
use hara_control.Tokens.{Env}
use hara_control.License.{LicenseService, assert_feature}
use hara_control.Devices.{device_identity}
use hara_control.Json.{bool, num, str, obj, end, field}
use hara_control.Learnings.Types.{
  approved, rejected, revoked, Decision, approve, reject, revoke, Candidate, Organization, Db,
  ReviewDto,
}
use hara_control.Learnings.{has_status, same_text, by_id}
use hara_control.Audit.Call.{AuditCall}

-- A text that is there and not empty, as a condition.
abbrev pub is_truthy : Option String → Bool
is_truthy none = false
is_truthy (some s) = not (s == "")

abbrev pub without_pending : Candidate → Candidate
without_pending c = record c { pending_summary = none; pending_rationale = none; pending_at = none }

-- The update that a decision makes, and `activeChanged`.
unfoldable pub decide : Decision → Candidate → Outcome (Candidate × Bool)
decide approve c =
    let summary = or_else c.pending_summary c.summary in
    let rationale = if is_truthy c.pending_summary then c.pending_rationale else c.rationale in
    ok (
      record (without_pending c) { status = approved; summary = summary; rationale = rationale },
      not (has_status approved c)
          || (not (summary == c.summary) || not (same_text rationale c.rationale)),
    )
decide reject c =
    if has_status approved c
    then if is_truthy c.pending_summary
      then ok (without_pending c, false)
      else err (bad_request "approved learning has no pending update to reject; revoke it instead")
    else ok (record (without_pending c) { status = rejected }, false)
decide revoke c =
    if has_status approved c
    then ok (record (without_pending c) { status = revoked }, true)
    else err (bad_request "only approved learning can be revoked")

-- `input.note?.trim() || null`
abbrev pub trimmed : Host → Option String → Option String
trimmed host none = none
trimmed host (some note) = let text = host.trim note in if text == "" then none else some text

abbrev pub org_by_id : String → Organization → Bool
org_by_id id o = o.id == id

abbrev pub bumped : Organization → Organization
bumped o = record o { learning_version = o.learning_version + 1 }

abbrev pub version_of : Option Organization → ℕ
version_of none = 0
version_of (some o) = o.learning_version

-- The organization's version after a review, which a change of the approved texts increments.
unfoldable pub raise_version : String → Bool → List Organization → Outcome (ℕ × List Organization)
raise_version org_id false rows = ok (version_of (find (org_by_id org_id) rows), rows)
raise_version org_id true rows = do
  o ← require (find (org_by_id org_id) rows) (failure "record to update not found")
  ok (o.learning_version + 1, update_where (org_by_id org_id) bumped rows)

abbrev pub decision_action : Decision → String
decision_action approve = "learning.candidate.approve"
decision_action reject = "learning.candidate.reject"
decision_action revoke = "learning.candidate.revoke"

unfoldable pub reviewed_audit : Decision → String → Candidate → Bool → ℕ → AuditCall
reviewed_audit decision actor_id c active_changed version = record {
  org_id = c.org_id;
  action = decision_action decision;
  actor_type = "admin";
  actor_id = actor_id;
  payload = obj (
      field "candidateId" (str c.id) (
        field "revision" (num c.revision) (
          field "activeChanged" (bool active_changed)
            (field "learningVersion" (num version) end))));
}

unfoldable pub signed : Host → ℕ → String → Option String → Candidate → Candidate
signed host now email note c = record c {
  revision = c.revision + 1;
  reviewed_at = some now;
  reviewed_by = some email;
  review_note = trimmed host note;
  updated_at = now;
}

-- The transaction of `review`, once it has read the row.
unfoldable pub apply_review :
    Host → ℕ → String → ReviewDto → String → Candidate → Db → Outcome (Candidate × ℕ × Bool × Db)
apply_review host now id dto email current db = do
  ensure (eqb current.revision dto.expected_revision) (conflict "learning candidate changed")
  decided ← decide dto.decision current
  let updated = signed host now email dto.note decided.0
  raised ← raise_version current.org_id decided.1 db.organizations
  ok (
    updated,
    raised.0,
    decided.1,
    record db {
      candidates = update_where (by_id id) (λ c. updated) db.candidates;
      organizations = raised.1;
    },
  )

unfoldable pub review :
    Host
    → LicenseService
    → ℕ
    → String
    → ReviewDto
    → String
    → String
    → Db
    → Outcome (Candidate × ℕ × Db)
review host license now id dto actor_id email db = do
  assert_feature license "agent-org" (now / 1000)
  current ← require (find (by_id id) db.candidates) (not_found "learning candidate not found")
  done ← apply_review host now id dto email current db
  ok (
    done.0,
    done.1,
    record done.3 {
      audits = done.3.audits ++ reviewed_audit dto.decision actor_id done.0 done.2 done.1 ∷ [];
    },
  )

abbrev pub in_bundle : String → Candidate → Bool
in_bundle org_id c = c.org_id == org_id && has_status approved c

-- `bundle`: the organization's version, and the approved candidates; their order is not modelled.
unfoldable pub bundle :
    Host → Env → LicenseService → ℕ → Option String → Db → Outcome (ℕ × List Candidate)
bundle host env license now bearer db = do
  device ← device_identity host env now bearer db.device_tokens
  assert_feature license "agent-org" (now / 1000)
  o ← require (find (org_by_id device.org_id) db.organizations) (not_found "organization not found")
  ok (o.learning_version, keep (in_bundle device.org_id) db.candidates)

unfoldable pub candidate_org_id : LicenseService → ℕ → String → Db → Outcome String
candidate_org_id license now id db = do
  assert_feature license "agent-org" (now / 1000)
  c ← require (find (by_id id) db.candidates) (not_found "learning candidate not found")
  ok c.org_id
