-- ===== src/Learnings/Types.antt =====
-- The rows of the learning tables (prisma/schema.prisma) and the request bodies of
-- src/learnings/dto.ts. A timestamp of the evidence is given as the milliseconds it parses to.
use hara_control.Common.{ℕ, String, Option, List}
use hara_control.Devices.{DeviceToken}
use hara_control.Audit.Call.{AuditCall}

pub data Kind : Type 0 where
  business_rule user_preference workflow correction failure_pattern action_ownership : Kind

pub data Status : Type 0 where
  pending approved rejected revoked : Status

pub data Decision : Type 0 where
  approve reject revoke : Decision

pub record Candidate : Type 0 where
  pub id : String
  pub org_id : String
  pub pattern_key : String
  pub kind : Kind
  pub summary : String
  pub rationale : Option String
  pub pending_summary : Option String
  pub pending_rationale : Option String
  pub pending_at : Option ℕ
  pub status : Status
  pub occurrence_count : ℕ
  pub distinct_task_count : ℕ
  pub revision : ℕ
  pub source_version : String
  pub reviewed_at : Option ℕ
  pub reviewed_by : Option String
  pub review_note : Option String
  pub created_at : ℕ
  pub updated_at : ℕ

pub record Observation : Type 0 where
  pub candidate_id : String
  pub org_id : String
  pub device_id : String
  pub client_id : String
  pub task_hash : String
  pub fingerprint : String
  pub summary : String
  pub source : String
  pub source_version : String
  pub observed_at : ℕ

pub record Organization : Type 0 where
  pub id : String
  pub learning_version : ℕ

pub record Db : Type 0 where
  pub candidates : List Candidate
  pub observations : List Observation
  pub organizations : List Organization
  pub device_tokens : List DeviceToken
  pub audits : List AuditCall

pub record Evidence : Type 0 where
  pub task_hash : String
  pub fingerprint : String
  pub summary : String
  pub source : String
  pub source_version : String
  pub observed_at : ℕ

pub record SubmitDto : Type 0 where
  pub client_id : String
  pub pattern_key : String
  pub kind : Kind
  pub summary : String
  pub rationale : Option String
  pub source_version : String
  pub evidence : List Evidence

pub record ReviewDto : Type 0 where
  pub decision : Decision
  pub expected_revision : ℕ
  pub note : Option String
