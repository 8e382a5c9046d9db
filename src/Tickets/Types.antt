-- ===== src/Tickets/Types.antt =====
-- The rows of the feedback tables (prisma/schema.prisma) and the request bodies of
-- src/feedback-tickets/dto.ts, as the service reads them.
use hara_control.Common.{ℕ, String, Option, List}

pub data Source : Type 0 where
  feishu control internal : Source

pub data Kind : Type 0 where
  bug suggestion crash other : Kind

pub data Priority : Type 0 where
  urgent high normal low : Priority

pub data Status : Type 0 where
  received acknowledged in_progress waiting_release waiting_verification : Status
  closed blocked rejected : Status

pub data EventKind : Type 0 where
  created acknowledged status_changed note released closed : EventKind

pub record Ticket : Type 0 where
  pub id : String
  pub number : ℕ
  pub source : Source
  pub source_ref : String
  pub source_chat_ref : String
  pub kind : Kind
  pub priority : Priority
  pub status : Status
  pub title : String
  pub summary : String
  pub reporter_ref : String
  pub assignee : String
  pub fix_version : String
  pub verification_steps : String
  pub claim_owner : String
  pub claim_token_hash : String
  pub claim_expires_at : Option ℕ
  pub acknowledged_at : Option ℕ
  pub started_at : Option ℕ
  pub released_at : Option ℕ
  pub closed_at : Option ℕ
  pub created_at : ℕ
  pub updated_at : ℕ

pub record TicketEvent : Type 0 where
  pub ticket_id : String
  pub kind : EventKind
  pub from_status : Option Status
  pub to_status : Option Status
  pub note : String
  pub actor : String
  pub created_at : ℕ

-- The two tables.
pub record Db : Type 0 where
  pub tickets : List Ticket
  pub events : List TicketEvent

pub record IntakeDto : Type 0 where
  pub source : Source
  pub source_ref : String
  pub source_chat_ref : Option String
  pub kind : Kind
  pub priority : Option Priority
  pub title : String
  pub summary : Option String
  pub reporter_ref : Option String
  pub consumer_id : String

pub record UpdateDto : Type 0 where
  pub status : Status
  pub priority : Option Priority
  pub assignee : Option String
  pub fix_version : Option String
  pub verification_steps : Option String
  pub note : Option String

pub record ClaimedUpdateDto : Type 0 where
  pub update : UpdateDto
  pub claim_token : String
