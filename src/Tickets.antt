-- ===== src/Tickets.antt =====
-- src/feedback-tickets/feedback-tickets.service.ts: intake, claims and status transitions.
-- A table is the list of its rows. The clock, the random bytes, the row's id and its number are
-- arguments. A method that throws leaves the tables as they were.
pub mod Types
pub mod Invariant
pub mod Intake
pub mod Reach
pub mod Claims
pub mod Exclusion
mod Examples
use hara_control.Common.{
  ℕ, ◌+◌, ◌*◌, ◌≡◌, String, Bool, true, false, not, ◌&&◌, ◌||◌, Option, none, some, List, [], ◌∷◌,
  ◌++◌, ltb, leb, eqb, if◌then◌else◌, does, or_else, is_some, find, any, update_where, length, ◌==◌,
  Outcome, ok, err, ◌>>=◌, ◌>>◌, ensure, require, unauthorized, bad_request, not_found,
}
use hara_control.Host.{Host}
use hara_control.Redact.{sanitize_control_text}
use Types.{
  Source, Priority, normal, Status, received, acknowledged, in_progress, waiting_release,
  waiting_verification, closed, blocked, rejected, EventKind, Ticket, TicketEvent, Db, IntakeDto,
  UpdateDto, ClaimedUpdateDto,
}

pub Status-discrete : Discrete Status
Status-discrete = hlevel

pub Source-discrete : Discrete Source
Source-discrete = hlevel

abbrev pub claim_lease_ms : ℕ
claim_lease_ms = 15 * 60 * 1000

abbrev pub same_status : Status → Status → Bool
same_status a b = does (Status-discrete a b)

abbrev pub same_source : Source → Source → Bool
same_source a b = does (Source-discrete a b)

-- TERMINAL_STATUSES
abbrev pub is_terminal : Status → Bool
is_terminal closed = true
is_terminal rejected = true
is_terminal _ = false

-- ALLOWED_TRANSITIONS, one clause for each entry
abbrev pub is_allowed : Status → Status → Bool
is_allowed received acknowledged = true
is_allowed received in_progress = true
is_allowed received blocked = true
is_allowed received rejected = true
is_allowed acknowledged in_progress = true
is_allowed acknowledged blocked = true
is_allowed acknowledged rejected = true
is_allowed in_progress waiting_release = true
is_allowed in_progress blocked = true
is_allowed in_progress rejected = true
is_allowed waiting_release in_progress = true
is_allowed waiting_release waiting_verification = true
is_allowed waiting_release blocked = true
is_allowed waiting_verification in_progress = true
is_allowed waiting_verification closed = true
is_allowed waiting_verification blocked = true
is_allowed closed in_progress = true
is_allowed blocked in_progress = true
is_allowed blocked rejected = true
is_allowed rejected in_progress = true
is_allowed _ _ = false

-- releaseRequiredStatuses
abbrev pub needs_release : Status → Bool
needs_release waiting_verification = true
needs_release closed = true
needs_release _ = false

-- startedStatuses
abbrev pub is_started : Status → Bool
is_started in_progress = true
is_started waiting_release = true
is_started waiting_verification = true
is_started closed = true
is_started _ = false

-- The statuses that give up the claim.
abbrev pub drops_claim : Status → Bool
drops_claim waiting_release = true
drops_claim status = is_terminal status

abbrev pub by_id : String → Ticket → Bool
by_id id t = t.id == id

pub event_kind : Bool → Status → EventKind
event_kind changed acknowledged = EventKind.acknowledged
event_kind changed waiting_verification = EventKind.released
event_kind changed closed = EventKind.closed
event_kind true _ = EventKind.status_changed
event_kind false _ = EventKind.note

-- `if (!current) field = now`, where the new status asks for it
abbrev stamp : Bool → ℕ → Option ℕ → Option ℕ
stamp due now (some t) = some t
stamp true now none = some now
stamp false now none = none

-- `closedAt`: set on closing, reset on leaving CLOSED
closing : Status → Status → ℕ → Option ℕ → Option ℕ
closing from closed now at = some now
closing closed to now at = none
closing from to now at = at

-- The update of the row; its texts have been sanitized.
pub apply_update : Ticket → Status → Priority → String → String → String → ℕ → Ticket
unfolding closing
apply_update t to priority assignee fix_version verification_steps now = record t {
  status = to;
  priority = priority;
  assignee = assignee;
  fix_version = fix_version;
  verification_steps = verification_steps;
  acknowledged_at = stamp (not (same_status to received)) now t.acknowledged_at;
  started_at = stamp (is_started to) now t.started_at;
  released_at = if same_status to waiting_verification then some now else t.released_at;
  closed_at = closing t.status to now t.closed_at;
  claim_owner = if drops_claim to then "" else t.claim_owner;
  claim_token_hash = if drops_claim to then "" else t.claim_token_hash;
  claim_expires_at = if drops_claim to then none else t.claim_expires_at;
  updated_at = now;
}

-- The event rows that the two transactions append.
pub moved_event : ℕ → String → Status → Status → String → String → TicketEvent
moved_event now id from to note actor = record {
  ticket_id = id;
  kind = event_kind (not (same_status to from)) to;
  from_status = some from;
  to_status = some to;
  note = note;
  actor = actor;
  created_at = now;
}

pub created_event : ℕ → String → String → String → TicketEvent
created_event now id note actor = record {
  ticket_id = id;
  kind = EventKind.created;
  from_status = none;
  to_status = some received;
  note = note;
  actor = actor;
  created_at = now;
}

abbrev pub clear : Bool → String → Outcome (Unit {0})
clear bad why = ensure (not bad) (bad_request why)

-- timingSafeEqual on buffers of one length
pub same_bytes : List ℕ → List ℕ → Bool
same_bytes [] [] = true
same_bytes (a ∷ as') (b ∷ bs) = eqb a b && same_bytes as' bs
same_bytes _ _ = false

module _ (host : Host) where
  -- A text of the request replaces the stored one, if it is given.
  pub edited : Option String → ℕ → String → String
  edited none max kept = kept
  edited (some value) max kept = sanitize_control_text host value max

  -- The transaction of `transition`, once it has read the row.
  pub move : ℕ → String → UpdateDto → String → Db → Ticket → Outcome (Ticket × Db)
  move now id dto actor db existing = do
    ensure (same_status dto.status existing.status || is_allowed existing.status dto.status)
        (bad_request "invalid ticket transition")
    let note = sanitize_control_text host (or_else dto.note "") 1200
    let assignee = edited dto.assignee 160 existing.assignee
    let fix_version = edited dto.fix_version 64 existing.fix_version
    let verification_steps = edited dto.verification_steps 1200 existing.verification_steps
    clear (same_status dto.status blocked && note == "") "a blocked ticket requires a reason"
    clear (needs_release dto.status && (fix_version == "" || verification_steps == ""))
        "released and closed tickets require a version and verification steps"
    let moved =
        apply_update existing dto.status (or_else dto.priority existing.priority) assignee
          fix_version verification_steps now
    ok (
      moved,
      record {
        tickets = update_where (by_id id) (λ t. moved) db.tickets;
        events =
            db.events
            ++ moved_event now id existing.status dto.status note
                (sanitize_control_text host actor 160)
              ∷ [];
      },
    )

  -- `transition`: the transaction of both update paths.
  pub transition : ℕ → String → UpdateDto → String → Db → Outcome (Ticket × Db)
  transition now id dto actor db = do
    existing ← require (find (by_id id) db.tickets) (not_found "feedback ticket not found")
    move now id dto actor db existing

  -- `update`: an operator's change; `actor` is the user's email, or the id where that is empty.
  pub update : ℕ → String → UpdateDto → String → String → Db → Outcome (Ticket × Db)
  update now id dto email user_id db =
      transition now id dto (if email == "" then user_id else email) db

  -- `hashMatches`, over the decoded bytes
  pub hash_matches : String → String → Bool
  unfolding same_bytes
  hash_matches actual expected =
      let actual_bytes = host.from_hex actual in
      let expected_bytes = host.from_hex expected in
      not (eqb (length actual_bytes) 0)
      && eqb (length actual_bytes) (length expected_bytes)
      && same_bytes actual_bytes expected_bytes

  -- The test of `updateClaimed`.
  pub holds_claim : ℕ → String → Ticket → Bool
  holds_claim now claim_token t =
      not (t.claim_token_hash == "")
      && elim t.claim_expires_at [ none ↦ false | some at ↦ ltb now at ]
      && hash_matches (host.sha256 claim_token) t.claim_token_hash

  pub update_claimed : ℕ → String → ClaimedUpdateDto → Db → Outcome (Ticket × Db)
  update_claimed now id dto db = do
    ticket ← require (find (by_id id) db.tickets) (not_found "feedback ticket not found")
    ensure (holds_claim now dto.claim_token ticket)
        (unauthorized "feedback ticket claim is expired, invalid, or superseded")
    transition now id dto.update
        (if ticket.claim_owner == "" then "feedback-monitor" else ticket.claim_owner) db

-- The unique index on (source, sourceRef).
abbrev pub by_source : Source → String → Ticket → Bool
by_source source source_ref t = same_source t.source source && t.source_ref == source_ref

-- The `where` of the claiming update, apart from the id.
pub is_claimable : ℕ → String → Ticket → Bool
is_claimable now consumer t =
    not (is_terminal t.status)
    && (elim t.claim_expires_at [ none ↦ true | some at ↦ leb at now ] || t.claim_owner == consumer)

pub record IntakeReply : Type 0 where
  pub ticket : Ticket
  pub created : Bool
  pub claim_granted : Bool
  pub claim_token : Option String

abbrev pub claimed : String → String → ℕ → ℕ → Ticket → Ticket
claimed consumer hash expires now t = record t {
  claim_owner = consumer;
  claim_token_hash = hash;
  claim_expires_at = some expires;
  updated_at = now;
}

module _ (host : Host) where
  -- The row that `create` stores.
  pub new_ticket : ℕ → String → ℕ → String → IntakeDto → String → String → Ticket
  new_ticket now id number hash dto source_ref consumer = record {
    id = id;
    number = number;
    source = dto.source;
    source_ref = source_ref;
    source_chat_ref = sanitize_control_text host (or_else dto.source_chat_ref "") 200;
    kind = dto.kind;
    priority = or_else dto.priority normal;
    status = received;
    title =
        let title = sanitize_control_text host dto.title 240 in
        if title == "" then "Hara feedback" else title;
    summary = sanitize_control_text host (or_else dto.summary "") 2000;
    reporter_ref = sanitize_control_text host (or_else dto.reporter_ref "") 200;
    assignee = "";
    fix_version = "";
    verification_steps = "";
    claim_owner = consumer;
    claim_token_hash = hash;
    claim_expires_at = some (now + claim_lease_ms);
    acknowledged_at = none;
    started_at = none;
    released_at = none;
    closed_at = none;
    created_at = now;
    updated_at = now;
  }

  -- The `catch` of a conflict on the unique index: an existing ticket is claimed, if it may be.
  pub reclaim : ℕ → String → String → Ticket → Db → IntakeReply × Db
  reclaim now token consumer existing db =
      let taken = claimed consumer (host.sha256 token) (now + claim_lease_ms) now existing in
      if is_claimable now consumer existing
      then (
        record { ticket = taken; created = false; claim_granted = true; claim_token = some token },
        record db { tickets = update_where (by_id existing.id) (λ t. taken) db.tickets },
      )
      else (
        record { ticket = existing; created = false; claim_granted = false; claim_token = none },
        db,
      )

  -- `create`, or the conflict on the unique index.
  pub admit :
      ℕ → String → String → Ticket → TicketEvent → Option Ticket → Db → Outcome (IntakeReply × Db)
  admit now token consumer ticket event none db = ok (
    record { ticket = ticket; created = true; claim_granted = true; claim_token = some token },
    record { tickets = db.tickets ++ ticket ∷ []; events = db.events ++ event ∷ [] },
  )
  admit now token consumer ticket event (some existing) db =
      ok (reclaim now token consumer existing db)

  -- `intake`; `id` and `number` are what the database gives a new row.
  pub intake : ℕ → String → String → ℕ → IntakeDto → Db → Outcome (IntakeReply × Db)
  intake now token id number dto db = do
    let source_ref = sanitize_control_text host dto.source_ref 200
    let consumer = sanitize_control_text host dto.consumer_id 160
    clear (source_ref == "" || consumer == "")
        "feedback source and consumer identifiers must contain visible text"
    let ticket = new_ticket now id number (host.sha256 token) dto source_ref consumer
    let event = created_event now id ticket.summary consumer
    admit now token consumer ticket event (find (by_source dto.source source_ref) db.tickets) db
