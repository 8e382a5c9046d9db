-- ===== src/Tickets/Examples.antt =====
-- The feedback service at concrete requests.
use hara_control.Common.{
  find, update_where, ◌≡◌, refl, true, false, none, some, [], ◌∷◌, ◌++◌, arith, eq_iff,
  unauthorized, err, ok,
}
use hara_control.Redact.{sanitize_control_text}
use hara_control.Tickets.Types.{
  feishu, bug, normal, received, in_progress, rejected, EventKind, Ticket, Db, IntakeDto, UpdateDto,
}
use hara_control.Tickets.{
  Status-discrete, by_id, event_kind, apply_update, moved_event, created_event, same_bytes, edited,
  move, transition, hash_matches, holds_claim, update_claimed, new_ticket, admit, intake,
}
use hara_control.Tickets.Reach.{
  IsConsistent, intake_step, claimed_step, Reach, here, next, Reach-IsConsistent,
}
use hara_control.Tickets.Claims.{
  HasDigests, update_claimed-terminal, IsAnswer, granted_claim, superseded_claim,
}
use hara_control.Host.Plain.{plain}
use hara_control.Tickets.Exclusion.{granted-exclusive}

abbrev empty_db : Db
empty_db = record { tickets = []; events = [] }

abbrev report : IntakeDto
report = record {
  source = feishu;
  source_ref = "m1";
  source_chat_ref = none;
  kind = bug;
  priority = none;
  title = "crash";
  summary = none;
  reporter_ref = none;
  consumer_id = "bot";
}

-- The tables after the first intake.
abbrev first_row : Ticket
first_row = record {
  id = "a";
  number = 1;
  source = feishu;
  source_ref = "m1";
  source_chat_ref = "";
  kind = bug;
  priority = normal;
  status = received;
  title = "crash";
  summary = "";
  reporter_ref = "";
  assignee = "";
  fix_version = "";
  verification_steps = "";
  claim_owner = "bot";
  claim_token_hash = "aa";
  claim_expires_at = some 900010;
  acknowledged_at = none;
  started_at = none;
  released_at = none;
  closed_at = none;
  created_at = 10;
  updated_at = 10;
}

abbrev first_db : Db
first_db = record {
  tickets = first_row ∷ [];
  events =
      record {
        ticket_id = "a";
        kind = EventKind.created;
        from_status = none;
        to_status = some received;
        note = "";
        actor = "bot";
        created_at = 10;
      }
      ∷ [];
}

first_intake :
    intake plain 10 "t1" "a" 1 report empty_db
    ≡ ok (
      record { ticket = first_row; created = true; claim_granted = true; claim_token = some "t1" },
      first_db,
    )
unfolding intake sanitize_control_text new_ticket admit created_event find
first_intake = refl

abbrev start : UpdateDto
start = record {
  status = in_progress;
  priority = none;
  assignee = some "ann";
  fix_version = none;
  verification_steps = none;
  note = none;
}

plain-HasDigests : HasDigests plain
plain-HasDigests = record {
  digest_text = λ s. ground (arith, eq_iff s "t1", eq_iff "aa" "", eq_iff "bb" "");
  digest_bytes = λ s. ground (arith, eq_iff s "t1");
}

granted_claim_example :
    (find (by_id "a") first_db.tickets ≡ some first_row)
    × (update_claimed plain 500 "a" (record { update = start; claim_token = "t1" }) first_db
        ≡ transition plain 500 "a" start "bot" first_db)
    × IsAnswer plain "a" start first_row
        (update_claimed plain 500 "a" (record { update = start; claim_token = "t1" }) first_db)
unfolding find
granted_claim_example =
    granted_claim plain 10 1 "t1" "a" report empty_db _ first_db tt tt plain-HasDigests first_intake
      refl 500 start first_db (omega arith) refl

-- A rival asks for the same message while the lease runs.
granted-exclusive_example :
    intake plain 20 "t2" "b" 2 (record report { consumer_id = "rival" }) first_db
    ≡ ok (
      record { ticket = first_row; created = false; claim_granted = false; claim_token = none },
      first_db,
    )
unfolding find
granted-exclusive_example =
    granted-exclusive plain 10 1 "t1" "a" report empty_db _ first_db tt tt first_intake refl 20 2
      "t2" "b" (record report { consumer_id = "rival" }) first_db (tt, tt) refl (omega arith) refl
      refl (unfold sanitize_control_text in ground (arith, eq_iff "rival" ""))
      (unfold sanitize_control_text in ground (arith, eq_iff "rival" "bot"))

superseded_claim_example :
    update_claimed plain 500 "a" (record { update = start; claim_token = "t2" }) first_db
    ≡ err (unauthorized "feedback ticket claim is expired, invalid, or superseded")
superseded_claim_example =
    superseded_claim plain 10 1 "t1" "a" report empty_db _ first_db tt tt first_intake refl 500
      start "t2" (ground arith)

empty_IsConsistent : IsConsistent empty_db
empty_IsConsistent = record { sound = tt; keyed = tt; timeline = tt }

abbrev started_row : Ticket
started_row = record first_row {
  status = in_progress;
  assignee = "ann";
  acknowledged_at = some 500;
  started_at = some 500;
  updated_at = 500;
}

abbrev started_db : Db
started_db = record {
  tickets = started_row ∷ [];
  events =
      first_db.events
      ++ record {
        ticket_id = "a";
        kind = EventKind.status_changed;
        from_status = some received;
        to_status = some in_progress;
        note = "";
        actor = "bot";
        created_at = 500;
      }
        ∷ [];
}

first_start :
    update_claimed plain 500 "a" (record { update = start; claim_token = "t1" }) first_db
    ≡ ok (started_row, started_db)
unfolding update_claimed transition move edited moved_event event_kind apply_update holds_claim
    hash_matches same_bytes find update_where sanitize_control_text Status-discrete
first_start = refl

two_steps : Reach plain empty_db started_db
two_steps =
    next (next here (intake_step 10 "t1" "a" 1 report _ tt first_intake))
      (claimed_step 500 "a" _ _ first_start)

Reach-IsConsistent_example : IsConsistent started_db
Reach-IsConsistent_example = Reach-IsConsistent plain two_steps empty_IsConsistent

abbrev rejected_row : Ticket
rejected_row = record first_row {
  status = rejected;
  claim_owner = "";
  claim_token_hash = "";
  claim_expires_at = none;
  acknowledged_at = some 30;
}

abbrev rejected_db : Db
rejected_db = record first_db { tickets = rejected_row ∷ [] }

rejected_IsConsistent : IsConsistent rejected_db
rejected_IsConsistent = record {
  sound = (ground arith, tt);
  keyed = (tt, tt);
  timeline = (refl, tt);
}

update_claimed-terminal_example :
    update_claimed plain 500 "a" (record { update = start; claim_token = "t1" }) rejected_db
    ≡ err (unauthorized "feedback ticket claim is expired, invalid, or superseded")
update_claimed-terminal_example =
    update_claimed-terminal plain 500 "a" _ rejected_db rejected_row rejected_IsConsistent
      (unfold find in refl) refl
