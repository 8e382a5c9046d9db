-- ===== src/Tickets/Exclusion.antt =====
-- A granted claim keeps other consumers out while its lease runs.
use hara_control.Common.{
  find-Apart, find-true, find, All, ℕ, ◌+◌, ◌<◌, String, ◌≡◌, refl, ap, ◌≢◌, inl, inr, true, false,
  none, some, arith, ◌==◌, ◌&&◌, eq_iff, Bool-cases, ok,
}
use hara_control.Host.{Host}
use hara_control.Redact.{sanitize_control_text}
use hara_control.Tickets.Types.{Source, Ticket, Db, IntakeDto}
use hara_control.Tickets.{
  claim_lease_ms, by_id, same_source, by_source, is_claimable, IntakeReply, new_ticket, reclaim,
  admit, intake,
}
use hara_control.Tickets.Intake.{clash, IsTable, intake_ref, intake_consumer, intake_cases}
use hara_control.Tickets.Claims.{granted_row}

module _ (host : Host) where
  -- An intake for a stored ticket, whose lease runs for another owner, is told so.
  leased_lem :
      (now until number : ℕ) (token id : String) (dto : IntakeDto) (db : Db) (t : Ticket)
      → sanitize_control_text host dto.source_ref 200 ≢ ""
      → sanitize_control_text host dto.consumer_id 160 ≢ ""
      → find (by_source dto.source (sanitize_control_text host dto.source_ref 200)) db.tickets
        ≡ some t
      → t.claim_expires_at ≡ some until
      → now < until
      → t.claim_owner ≢ sanitize_control_text host dto.consumer_id 160
      → intake host now token id number dto db
        ≡ ok (record { ticket = t; created = false; claim_granted = false; claim_token = none }, db)
  unfolding intake admit reclaim is_claimable
  leased_lem now until number token id dto db t s c found lease live another = rw found (
      ground (
        arith,
        eq_iff (sanitize_control_text host dto.source_ref 200) "",
        eq_iff (sanitize_control_text host dto.consumer_id 160) "",
        eq_iff t.claim_owner (sanitize_control_text host dto.consumer_id 160),
      ))

  module _ (now number : ℕ) (token id : String) (dto : IntakeDto) (db : Db) (r : IntakeReply)
      (db' : Db) where
    intake_given :
        intake host now token id number dto db ≡ ok (r, db')
        → intake_ref host now token id number dto db ≢ ""
    unfolding intake
    intake_given e = ground (arith, eq_iff (sanitize_control_text host dto.source_ref 200) "")

    reclaimed_owner :
        (existing : Ticket) (consumer : String)
        → r ≡ (reclaim host now token consumer existing db).0
        → r.claim_granted ≡ true
        → (r.ticket.source ≡ existing.source)
          × (r.ticket.source_ref ≡ existing.source_ref)
          × (r.ticket.claim_owner ≡ consumer)
    unfolding reclaim
    reclaimed_owner existing consumer same granted =
        elim (Bool-cases (is_claimable now consumer existing)) [
          | inl free ↦
              let e = rw free at same in
              (
                ap (λ q. q.ticket.source) e,
                ap (λ q. q.ticket.source_ref) e,
                ap (λ q. q.ticket.claim_owner) e,
              )
          | inr held ↦ cc (ap (λ q. q.claim_granted) (rw held at same))
        ]

    -- The key and the owner of a ticket that was claimed.
    granted_owner :
        intake host now token id number dto db ≡ ok (r, db')
        → r.claim_granted ≡ true
        → (by_source dto.source (intake_ref host now token id number dto db) r.ticket ≡ true)
          × (r.ticket.claim_owner ≡ intake_consumer host now token id number dto db)
    unfolding new_ticket
    granted_owner e granted = elim (intake_cases host now token id number dto db r db' e) [
      | inl (absent, stored, logged, same, given) ↦ rw same (own_source dto.source _, refl)
      | inr (existing, found, same, left) ↦
          let (s, k, o) = reclaimed_owner existing _ same granted in
          (rw (s, k) (find-true (by_source dto.source _) db.tickets found), o)
    ]
      where
        own_source :
            (source : Source) (ref : String) → (same_source source source && ref == ref) ≡ true
        own_source source ref = ground (arith, eq_iff ref ref)

    -- If an intake grants a claim, then in all tables that still hold the claimed row, and in which
    -- no two rows share an id or a source, an intake of another consumer for the same source, before
    -- fifteen minutes have passed, returns the ticket without a claim and changes nothing. In the
    -- tables before the first intake no two rows share an id or a source, its new id is unused, and
    -- the other consumer's name is not empty once sanitized.
    pub granted-exclusive :
        IsTable db.tickets
        → All (λ t. by_id id t ≡ false) db.tickets
        → intake host now token id number dto db ≡ ok (r, db')
        → r.claim_granted ≡ true
        → (later number' : ℕ) (token' id' : String) (dto' : IntakeDto) (after : Db)
        → IsTable after.tickets
        → find (by_id r.ticket.id) after.tickets ≡ some r.ticket
        → later < now + claim_lease_ms
        → dto'.source ≡ dto.source
        → sanitize_control_text host dto'.source_ref 200
          ≡ sanitize_control_text host dto.source_ref 200
        → sanitize_control_text host dto'.consumer_id 160 ≢ ""
        → sanitize_control_text host dto'.consumer_id 160
          ≢ sanitize_control_text host dto.consumer_id 160
        → intake host later token' id' number' dto' after
          ≡ ok (
            record {
              ticket = r.ticket;
              created = false;
              claim_granted = false;
              claim_token = none;
            },
            after,
          )
    granted-exclusive h fresh e granted later number' token' id' dto' after table still live source
          ref named other =
        let (_, _, lease) = granted_row host now number token id dto db r db' h fresh e granted in
        let (key, owner) = granted_owner e granted in
        let ref' = sanitize_control_text host dto'.source_ref 200 in
        let mine : by_source dto'.source ref' r.ticket ≡ true = rw (source, ref) key in
        leased_lem later (now + claim_lease_ms) number' token' id' dto' after r.ticket
          (λ empty. intake_given e (cc (ref, empty))) named
          (find-Apart clash (by_id r.ticket.id) (by_source dto'.source ref') r.ticket after.tickets
            (λ y apart. ground (
              arith,
              mine,
              eq_iff y.source_ref ref',
              eq_iff r.ticket.source_ref ref',
              eq_iff r.ticket.source_ref y.source_ref,
            ))
            mine still table)
          lease live (λ same. other (cc (same, owner)))
