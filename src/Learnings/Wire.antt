-- ===== src/Learnings/Wire.antt =====
-- src/learnings/learnings.service.ts: a candidate as the service's clients see it.
use hara_control.Common.{
  ℕ, String, ◌≡◌, refl, Bool, ◌&&◌, Option, none, some, ◌==◌, leb, if◌then◌else◌,
}
use hara_control.Learnings.Types.{
  Kind, business_rule, user_preference, workflow, correction, failure_pattern, action_ownership,
  Status, pending, approved, rejected, revoked, Candidate,
}

-- KIND_TO_WIRE
unfoldable kind_to_wire : Kind → String
kind_to_wire business_rule = "business_rule"
kind_to_wire user_preference = "user_preference"
kind_to_wire workflow = "workflow"
kind_to_wire correction = "correction"
kind_to_wire failure_pattern = "failure_pattern"
kind_to_wire action_ownership = "action_ownership"

-- KIND_FROM_WIRE
unfoldable kind_from_wire : String → Option Kind
kind_from_wire wire =
    if wire == "business_rule"
    then some business_rule
    else if wire == "user_preference"
    then some user_preference
    else if wire == "workflow"
    then some workflow
    else if wire == "correction"
    then some correction
    else if wire == "failure_pattern"
    then some failure_pattern
    else if wire == "action_ownership"
    then some action_ownership
    else none

-- What a client is sent of a kind is what the service reads back as that kind.
kind_from_wire-kind_to_wire : (kind : Kind) → kind_from_wire (kind_to_wire kind) ≡ some kind
unfolding kind_from_wire kind_to_wire
kind_from_wire-kind_to_wire business_rule = refl
kind_from_wire-kind_to_wire user_preference = refl
kind_from_wire-kind_to_wire workflow = refl
kind_from_wire-kind_to_wire correction = refl
kind_from_wire-kind_to_wire failure_pattern = refl
kind_from_wire-kind_to_wire action_ownership = refl

-- String(status).toLowerCase()
unfoldable status_wire : Status → String
status_wire pending = "pending"
status_wire approved = "approved"
status_wire rejected = "rejected"
status_wire revoked = "revoked"

record PublicCandidate : Type 0 where
  public_id : String
  public_pattern_key : String
  public_kind : String
  public_summary : String
  public_rationale : Option String
  public_pending_summary : Option String
  public_pending_rationale : Option String
  public_status : String
  public_occurrence_count : ℕ
  public_distinct_task_count : ℕ
  promotion_ready : Bool
  public_revision : ℕ
  public_source_version : String
  public_reviewed_at : Option String
  public_reviewed_by : Option String
  public_review_note : Option String
  public_created_at : String
  public_updated_at : String

-- The first argument is the host's `date.toISOString()`.
unfoldable public_candidate : (ℕ → String) → Candidate → PublicCandidate
public_candidate iso c = record {
  public_id = c.id;
  public_pattern_key = c.pattern_key;
  public_kind = kind_to_wire c.kind;
  public_summary = c.summary;
  public_rationale = c.rationale;
  public_pending_summary = c.pending_summary;
  public_pending_rationale = c.pending_rationale;
  public_status = status_wire c.status;
  public_occurrence_count = c.occurrence_count;
  public_distinct_task_count = c.distinct_task_count;
  promotion_ready = leb 3 c.occurrence_count && leb 2 c.distinct_task_count;
  public_revision = c.revision;
  public_source_version = c.source_version;
  public_reviewed_at = elim c.reviewed_at [ none ↦ none | some t ↦ some (iso t) ];
  public_reviewed_by = c.reviewed_by;
  public_review_note = c.review_note;
  public_created_at = iso c.created_at;
  public_updated_at = iso c.updated_at;
}
