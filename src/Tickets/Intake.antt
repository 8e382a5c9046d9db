-- ===== src/Tickets/Intake.antt =====
-- Intake: one ticket for each source reference, and the lease of a claim.
use hara_control.Common.{
  Apart, Apart-concat, Apart-replace, find-Apart, find, update_where, All, All-concat, find-All,
  All-update_where, find-true, ℕ, ◌+◌, String, ◌≡◌, refl, ◌⊎◌, inl, inr, Bool, true, false, ◌||◌,
  Option, none, some, List, [], ◌∷◌, ◌++◌, arith, ◌==◌, eq_iff, eq_refl, Bool-cases, Option-cases,
  ok,
}
use hara_control.Host.{Host}
use hara_control.Redact.{sanitize_control_text}
use hara_control.Tickets.Types.{Source, Status, received, Ticket, TicketEvent, Db, IntakeDto}
use hara_control.Tickets.{
  claim_lease_ms, same_status, is_terminal, is_allowed, by_id, created_event, by_source,
  is_claimable, IntakeReply, claimed, new_ticket, reclaim, admit, intake,
}
use hara_control.Tickets.Invariant.{IsSound}

-- Two rows that the primary key or the unique index on (source, sourceRef) forbids.
abbrev pub clash : Ticket → Ticket → Bool
clash t u = u.id == t.id || by_source t.source t.source_ref u

abbrev pub IsTable : List Ticket → Type 0
IsTable = Apart clash

same_by_id : (id : String) (t y : Ticket) → t.id ≡ id → clash t y ≡ false → by_id id y ≡ false
same_by_id id t y at h = ground (arith, eq_iff y.id t.id, eq_iff y.id id)

pub same_by_id' : (id : String) (t y : Ticket) → t.id ≡ id → clash y t ≡ false → by_id id y ≡ false
same_by_id' id t y at h = ground (arith, eq_iff y.id t.id, eq_iff t.id y.id, eq_iff y.id id)

-- A row with the id and the key of a stored one may take its place.
pub replace-IsTable :
    (id : String) (from to : Ticket) (rows : List Ticket)
    → to.id ≡ from.id
    → to.source ≡ from.source
    → to.source_ref ≡ from.source_ref
    → find (by_id id) rows ≡ some from
    → IsTable rows
    → IsTable (update_where (by_id id) (λ r. to) rows)
replace-IsTable id from to rows i s k found h =
    let at : from.id ≡ id = (eq_iff from.id id).0 (find-true (by_id id) rows found) in
    Apart-replace clash (by_id id) from to rows (λ y. same_by_id id from y at)
      (λ y c. rw (i, s, k) c) (λ y c. rw (i, s, k) c) found h

-- An event of the timeline opens a ticket, or records a legal change.
abbrev pub IsLegalChange : Option Status → Option Status → Type 0
IsLegalChange none to = to ≡ some received
IsLegalChange (some from) none = ⊥
IsLegalChange (some from) (some to) = (same_status to from || is_allowed from to) ≡ true

abbrev pub IsLegalEvent : TicketEvent → Type 0
IsLegalEvent e = IsLegalChange e.from_status e.to_status

module _ (host : Host) where
  new_ticket-IsSound :
      (now : ℕ) (id : String) (number : ℕ) (hash : String) (dto : IntakeDto)
      (source_ref consumer : String)
      → IsSound (new_ticket host now id number hash dto source_ref consumer)
  unfolding new_ticket
  new_ticket-IsSound now id number hash dto source_ref consumer = ground arith

  claimed-IsSound :
      (consumer hash : String) (expires now : ℕ) (t : Ticket)
      → is_terminal t.status ≡ false
      → IsSound t
      → IsSound (claimed consumer hash expires now t)
  claimed-IsSound consumer hash expires now t live h = ground arith

  reclaim-All :
      (now : ℕ) (token consumer : String) (existing : Ticket) (db : Db)
      → IsSound existing
      → All IsSound db.tickets
      → All IsSound (reclaim host now token consumer existing db).1.tickets
  unfolding reclaim is_claimable
  reclaim-All now token consumer existing db k h = elim (Bool-cases (is_terminal existing.status)) [
    | inl over ↦ rw over h
    | inr live ↦ ground (
      arith,
      All-update_where IsSound (by_id existing.id)
          (λ t. claimed consumer (host.sha256 token) (now + claim_lease_ms) now existing) db.tickets
          (λ r _ _.
            claimed-IsSound consumer (host.sha256 token) (now + claim_lease_ms) now existing live k)
          h,
    )
  ]

  module _ (now : ℕ) (token id : String) (number : ℕ) (dto : IntakeDto) (db : Db) where
    abbrev pub intake_ref : String
    intake_ref = sanitize_control_text host dto.source_ref 200

    abbrev pub intake_consumer : String
    intake_consumer = sanitize_control_text host dto.consumer_id 160

    abbrev pub intake_row : Ticket
    intake_row = new_ticket host now id number (host.sha256 token) dto intake_ref intake_consumer

    pub intake_cases :
        (r : IntakeReply) (db' : Db)
        → intake host now token id number dto db ≡ ok (r, db')
        → ((find (by_source dto.source intake_ref) db.tickets ≡ none)
            × (db'.tickets ≡ db.tickets ++ intake_row ∷ [])
            × (db'.events
                ≡ db.events ++ created_event now id intake_row.summary intake_consumer ∷ [])
            × (r.ticket ≡ intake_row)
            × (r.claim_token ≡ some token))
          ⊎ ((existing : Ticket) × (find (by_source dto.source intake_ref) db.tickets
                ≡ some existing)
              × (r ≡ (reclaim host now token intake_consumer existing db).0)
              × (db' ≡ (reclaim host now token intake_consumer existing db).1))
    unfolding intake admit
    intake_cases r db' e = elim (Option-cases (find (by_source dto.source intake_ref) db.tickets)) [
      | inl fresh ↦ inl (ground arith)
      | inr (existing, found) ↦ inr (existing, found, ground arith, ground arith)
    ]

    pub intake-All :
        (r : IntakeReply) (db' : Db)
        → intake host now token id number dto db ≡ ok (r, db')
        → All IsSound db.tickets
        → All IsSound db'.tickets
    intake-All r db' e h = elim (intake_cases r db' e) [
      | inl (fresh, stored, logged, same, given) ↦ rw stored (
          All-concat IsSound db.tickets intake_row h
            (new_ticket-IsSound now id number (host.sha256 token) dto intake_ref intake_consumer))
      | inr (existing, found, same, left) ↦ rw left (
          reclaim-All now token intake_consumer existing db
            (find-All IsSound (by_source dto.source intake_ref) db.tickets found h).0 h)
    ]

  reclaim-IsTable :
      (now : ℕ) (token consumer source_ref : String) (source : Source) (existing : Ticket) (db : Db)
      → find (by_source source source_ref) db.tickets ≡ some existing
      → IsTable db.tickets
      → IsTable (reclaim host now token consumer existing db).1.tickets
  unfolding reclaim
  reclaim-IsTable now token consumer source_ref source existing db found h =
      elim (Bool-cases (is_claimable now consumer existing)) [
        | inl free ↦ rw free (
            replace-IsTable existing.id existing
              (claimed consumer (host.sha256 token) (now + claim_lease_ms) now existing) db.tickets
              refl refl refl
              (find-Apart clash (by_source source source_ref) (by_id existing.id) existing
                db.tickets (λ y. same_by_id' existing.id existing y refl) (eq_refl existing.id)
                found h)
              h)
        | inr held ↦ rw held h
      ]

  events-reclaim :
      (now : ℕ) (token consumer : String) (existing : Ticket) (db : Db)
      → (reclaim host now token consumer existing db).1.events ≡ db.events
  unfolding reclaim
  events-reclaim now token consumer existing db = ground arith

-- A row with a new id and a new key clashes with no stored row.
apart_new :
    (new : Ticket) (rows : List Ticket)
    → All (λ t. by_id new.id t ≡ false) rows
    → find (by_source new.source new.source_ref) rows ≡ none
    → All (λ t. clash t new ≡ false) rows
unfolding find
apart_new new [] _ _ = tt
apart_new new (t ∷ rows) (k, h) e = (
  ground (
    arith,
    eq_iff t.id new.id,
    eq_iff new.id t.id,
    eq_iff t.source_ref new.source_ref,
    eq_iff new.source_ref t.source_ref,
  ),
  apart_new new rows h (ground arith),
)

module _ (host : Host) (now : ℕ) (token id : String) (number : ℕ) (dto : IntakeDto) (db : Db)
    (r : IntakeReply) (db' : Db) (e : intake host now token id number dto db ≡ ok (r, db')) where
  pub intake-IsTable :
      All (λ t. by_id id t ≡ false) db.tickets → IsTable db.tickets → IsTable db'.tickets
  intake-IsTable fresh h = elim (intake_cases host now token id number dto db r db' e) [
    | inl (absent, stored, _, _, _) ↦ rw stored (
        Apart-concat clash db.tickets _ h (
          apart_new (intake_row host now token id number dto db) db.tickets
            (unfold new_ticket in fresh) (unfold new_ticket in absent)))
    | inr (existing, found, _, left) ↦
        rw left (reclaim-IsTable host now token _ _ dto.source existing db found h)
  ]

  pub timeline-intake : All IsLegalEvent db.events → All IsLegalEvent db'.events
  timeline-intake h = elim (intake_cases host now token id number dto db r db' e) [
    | inl (_, _, logged, _, _) ↦
        rw logged (All-concat IsLegalEvent db.events _ h (unfold created_event in refl))
    | inr (existing, _, _, left) ↦ rw (left, events-reclaim host now token _ existing db) h
  ]
