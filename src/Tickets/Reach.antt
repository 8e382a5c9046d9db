-- ===== src/Tickets/Reach.antt =====
-- The requests of the feedback service as steps, and what holds of every state that they reach.
use hara_control.Common.{
  find, All, All-concat, ℕ, String, ◌≡◌, inl, inr, false, arith, ◌==◌, if◌then◌else◌, Option-cases,
  ok,
}
use hara_control.Host.{Host}
use hara_control.Tickets.Types.{Ticket, Db, IntakeDto, UpdateDto, ClaimedUpdateDto}
use hara_control.Tickets.{
  by_id, moved_event, transition, update, update_claimed, IntakeReply, intake,
}
use hara_control.Tickets.Invariant.{IsSound, transition-IsMove, transition-All}
use hara_control.Tickets.Intake.{
  IsTable, replace-IsTable, IsLegalEvent, intake-All, intake-IsTable, timeline-intake,
}

pub record IsConsistent (db : Db) : Type 0 where
  pub sound : All IsSound db.tickets
  pub keyed : IsTable db.tickets
  pub timeline : All IsLegalEvent db.events

module _ (host : Host) where
  -- A new row gets an id that no stored row has, by the primary key.
  pub data Step (db db' : Db) : Type 0 where
    intake_step :
        (now : ℕ) (token id : String) (number : ℕ) (dto : IntakeDto) (r : IntakeReply)
        → All (λ t. by_id id t ≡ false) db.tickets
        → intake host now token id number dto db ≡ ok (r, db')
        → Step db db'
    update_step :
        (now : ℕ) (id : String) (dto : UpdateDto) (email user_id : String) (t : Ticket)
        → update host now id dto email user_id db ≡ ok (t, db')
        → Step db db'
    claimed_step :
        (now : ℕ) (id : String) (dto : ClaimedUpdateDto) (t : Ticket)
        → update_claimed host now id dto db ≡ ok (t, db')
        → Step db db'

  pub data Reach (db : Db) : Db → Type 0 where
    here : Reach db db
    next : {db' db'' : Db} → Reach db db' → Step db' db'' → Reach db db''

  transition-IsConsistent :
      (now : ℕ) (id : String) (dto : UpdateDto) (actor : String) (db : Db) (t : Ticket) (db' : Db)
      → transition host now id dto actor db ≡ ok (t, db')
      → IsConsistent db
      → IsConsistent db'
  transition-IsConsistent now id dto actor db t db' e c =
      let (from, found, m) = transition-IsMove host now id dto actor db t db' e in
      record {
        sound = (transition-All host now id dto actor db t db' e c.sound).1;
        keyed = rw m.stored (
            replace-IsTable id from t db.tickets m.same_id m.same_key.0 m.same_key.1 found c.keyed);
        timeline = rw m.logged (
            All-concat IsLegalEvent db.events _ c.timeline
              (unfold moved_event in rw (← m.asked) m.legal));
      }

  update_claimed-transition :
      (now : ℕ) (id : String) (dto : ClaimedUpdateDto) (db : Db) (t : Ticket) (db' : Db)
      → update_claimed host now id dto db ≡ ok (t, db')
      → (actor : String) × (transition host now id dto.update actor db ≡ ok (t, db'))
  unfolding update_claimed
  update_claimed-transition now id dto db t db' e =
      elim (Option-cases (find (by_id id) db.tickets)) [
        | inl missing ↦ cc (rw missing at e)
        | inr (row, found) ↦
            (if row.claim_owner == "" then "feedback-monitor" else row.claim_owner, ground arith)
      ]

  Step-IsConsistent : {db db' : Db} → Step db db' → IsConsistent db → IsConsistent db'
  unfolding update
  Step-IsConsistent (update_step now id dto email user_id t e) c =
      transition-IsConsistent now id dto _ _ t _ e c
  Step-IsConsistent (claimed_step now id dto t e) c =
      let (actor, e') = update_claimed-transition now id dto _ t _ e in
      transition-IsConsistent now id dto.update actor _ t _ e' c
  Step-IsConsistent (intake_step now token id number dto r fresh e) c = record {
    sound = intake-All host now token id number dto _ r _ e c.sound;
    keyed = intake-IsTable host now token id number dto _ r _ e fresh c.keyed;
    timeline = timeline-intake host now token id number dto _ r _ e c.timeline;
  }

  -- From consistent tables, every run of intakes, updates by administrators and updates by claim
  -- holders that return leaves consistent tables: each ticket's stamps, fix version, verification
  -- steps and claim fit its status, no two tickets share an id or a source, and every event of the
  -- timeline opens a ticket or records an allowed change of status.
  pub Reach-IsConsistent : {db db' : Db} → Reach db db' → IsConsistent db → IsConsistent db'
  Reach-IsConsistent here c = c
  Reach-IsConsistent (next r s) c = Step-IsConsistent s (Reach-IsConsistent r c)
