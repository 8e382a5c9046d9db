-- ===== src/Tickets/Claims.antt =====
-- Who may move a ticket by a claim, and for how long.
use hara_control.Common.{
  find-Apart, find, update_where, length, All, find-All, find-true, find-concat, find-replace, ℕ,
  ◌+◌, ◌<◌, String, ◌≡◌, refl, ap, ◌≢◌, ◌⊎◌, inl, inr, Bool, true, false, not, ◌&&◌, ◌||◌, some,
  List, [], ◌∷◌, arith, ◌==◌, eq_iff, eq_refl, if◌then◌else◌, Bool-cases, or_else, Fault,
  unauthorized, Outcome, err, ok,
}
use hara_control.Host.{Host}
use hara_control.Redact.{sanitize_control_text}
use hara_control.Tickets.Types.{Source, blocked, Ticket, Db, IntakeDto, UpdateDto, ClaimedUpdateDto}
use hara_control.Tickets.{
  claim_lease_ms, same_status, is_terminal, is_allowed, needs_release, by_id, apply_update,
  same_bytes, edited, move, transition, update, hash_matches, holds_claim, update_claimed,
  by_source, is_claimable, IntakeReply, claimed, new_ticket, reclaim, intake,
}
use hara_control.Tickets.Invariant.{IsSound}
use hara_control.Tickets.Intake.{
  clash, IsTable, same_by_id', intake_ref, intake_consumer, intake_row, intake_cases,
}
use hara_control.Tickets.Reach.{IsConsistent}

-- What is relied on of a SHA-256 digest in hexadecimal: it is a text of 32 bytes.
pub record HasDigests (host : Host) : Type 0 where
  pub digest_text : (s : String) → host.sha256 s ≢ ""
  pub digest_bytes : (s : String) → length (host.from_hex (host.sha256 s)) ≡ 32

same_bytes_refl : (bs : List ℕ) → same_bytes bs bs ≡ true
unfolding same_bytes
same_bytes_refl [] = refl
same_bytes_refl (b ∷ bs) = ground (arith, same_bytes_refl bs)

same_bytes_sound : (as' bs : List ℕ) → same_bytes as' bs ≡ true → as' ≡ bs
unfolding same_bytes
same_bytes_sound [] [] h = refl
same_bytes_sound (a ∷ as') (b ∷ bs) h = ground (arith, same_bytes_sound as' bs)
same_bytes_sound _ _ h = cc

module _ (host : Host) where
  -- On consistent tables, a claim token of any text moves no ticket that is closed or rejected: the
  -- request is refused as unauthorized.
  pub update_claimed-terminal :
      (now : ℕ) (id : String) (dto : ClaimedUpdateDto) (db : Db) (t : Ticket)
      → IsConsistent db
      → find (by_id id) db.tickets ≡ some t
      → is_terminal t.status ≡ true
      → update_claimed host now id dto db
        ≡ err (unauthorized "feedback ticket claim is expired, invalid, or superseded")
  unfolding update_claimed holds_claim
  update_claimed-terminal now id dto db t c found over =
      let sound = (find-All IsSound (by_id id) db.tickets found c.sound).0 in
      let (gone, _, _) = sound.claim_dropped over in rw (found, gone)

  -- The test of a transition: the table of the statuses, the reason of a blocked ticket, and the
  -- version and the steps of a released one.
  abbrev pub is_legal : UpdateDto → Ticket → Bool
  is_legal dto t =
      (same_status dto.status t.status || is_allowed t.status dto.status)
      && (not (
            same_status dto.status blocked
            && sanitize_control_text host (or_else dto.note "") 1200 == "")
          && not (
              needs_release dto.status
              && (edited host dto.fix_version 64 t.fix_version == ""
                  || edited host dto.verification_steps 1200 t.verification_steps == "")))

  -- The answer to a change of a ticket: the stored row has the new status, if the change is legal,
  -- and an exception, if it is not.
  abbrev pub IsAnswer : String → UpdateDto → Ticket → Outcome (Ticket × Db) → Type 0
  IsAnswer id dto t out =
      ((is_legal dto t ≡ true)
        × (moved : Ticket) × (left : Db) × (out ≡ ok (moved, left))
        × (moved.status ≡ dto.status)
        × (find (by_id id) left.tickets ≡ some moved))
      ⊎ ((is_legal dto t ≡ false) × (fault : Fault) × (out ≡ err fault))

  transition-IsAnswer :
      (now : ℕ) (id : String) (dto : UpdateDto) (actor : String) (db : Db) (t : Ticket)
      → find (by_id id) db.tickets ≡ some t
      → IsAnswer id dto t (transition host now id dto actor db)
  unfolding transition move apply_update
  transition-IsAnswer now id dto actor db t found =
      rw found
        (elim (Bool-cases (same_status dto.status t.status || is_allowed t.status dto.status)) [
          | inr off ↦ rw off (inr (refl, _, refl))
          | inl on ↦
              elim (Bool-cases (
                same_status dto.status blocked
                && sanitize_control_text host (or_else dto.note "") 1200 == "")) [
                  | inl silent ↦ rw (on, silent) (inr (refl, _, refl))
                  | inr said ↦
                      elim (Bool-cases (
                        needs_release dto.status
                        && (edited host dto.fix_version 64 t.fix_version == ""
                            || edited host dto.verification_steps 1200 t.verification_steps
                              == ""))) [
                                | inl missing ↦ rw (on, said, missing) (inr (refl, _, refl))
                                | inr given ↦
                                    rw (on, said, given)
                                      (inl (
                                        refl,
                                        _,
                                        _,
                                        refl,
                                        refl,
                                        find-replace (by_id id) _ db.tickets found
                                            (find-true (by_id id) db.tickets found),
                                      ))
                              ]
                ]
        ])

  holds_claim_new :
      (now until : ℕ) (token : String) (t : Ticket)
      → HasDigests host
      → t.claim_token_hash ≡ host.sha256 token
      → t.claim_expires_at ≡ some until
      → now < until
      → holds_claim host now token t ≡ true
  unfolding holds_claim hash_matches
  holds_claim_new now until token t d h e live =
      rw (h, e)
        (ground (
          arith,
          eq_iff (host.sha256 token) "",
          d.digest_text token,
          d.digest_bytes token,
          same_bytes_refl (host.from_hex (host.sha256 token)),
        ))

  -- The token of another claim, with another digest, is refused.
  holds_claim_superseded :
      (now : ℕ) (token newer : String) (t : Ticket)
      → t.claim_token_hash ≡ host.sha256 newer
      → host.from_hex (host.sha256 token) ≢ host.from_hex (host.sha256 newer)
      → holds_claim host now token t ≡ false
  unfolding holds_claim hash_matches
  holds_claim_superseded now token newer t h differ = rw h (
      ground (
        arith,
        same_bytes_sound (host.from_hex (host.sha256 token)) (host.from_hex (host.sha256 newer)),
      ))

  update_claimed_holder :
      (now : ℕ) (id : String) (dto : ClaimedUpdateDto) (db : Db) (t : Ticket)
      → find (by_id id) db.tickets ≡ some t
      → holds_claim host now dto.claim_token t ≡ true
      → update_claimed host now id dto db
        ≡ transition host now id dto.update
            (if t.claim_owner == "" then "feedback-monitor" else t.claim_owner)
            db
  unfolding update_claimed
  update_claimed_holder now id dto db t found holds = rw (found, holds)

  update_claimed_refused :
      (now : ℕ) (id : String) (dto : ClaimedUpdateDto) (db : Db) (t : Ticket)
      → find (by_id id) db.tickets ≡ some t
      → holds_claim host now dto.claim_token t ≡ false
      → update_claimed host now id dto db
        ≡ err (unauthorized "feedback ticket claim is expired, invalid, or superseded")
  unfolding update_claimed
  update_claimed_refused now id dto db t found holds = rw (found, holds)

  module _ (now number : ℕ) (token id : String) (dto : IntakeDto) (db : Db) (r : IntakeReply)
      (db' : Db) where
    reclaimed_row :
        (existing : Ticket) (consumer : String) (source : Source) (source_ref : String)
        → IsTable db.tickets
        → find (by_source source source_ref) db.tickets ≡ some existing
        → r ≡ (reclaim host now token consumer existing db).0
        → db' ≡ (reclaim host now token consumer existing db).1
        → r.claim_granted ≡ true
        → (find (by_id r.ticket.id) db'.tickets ≡ some r.ticket)
          × (r.ticket.claim_token_hash ≡ host.sha256 token)
          × (r.ticket.claim_expires_at ≡ some (now + claim_lease_ms))
    unfolding reclaim
    reclaimed_row existing consumer source source_ref h found same left granted =
        elim (Bool-cases (is_claimable now consumer existing)) [
          | inl free ↦
              let row = claimed consumer (host.sha256 token) (now + claim_lease_ms) now existing in
              let at : find (by_id existing.id) db.tickets ≡ some existing =
                find-Apart clash (by_source source source_ref) (by_id existing.id) existing
                  db.tickets (λ y. same_by_id' existing.id existing y refl) (eq_refl existing.id)
                  found h in
              let same' : r ≡ record {
                ticket = row;
                created = false;
                claim_granted = true;
                claim_token = some token;
              } =
                rw free at same in
              let left' : db'
                  ≡ record db { tickets = update_where (by_id existing.id) (λ t. row) db.tickets } =
                rw free at left in
              rw (same', left')
                (
                  find-replace (by_id existing.id) row db.tickets at (eq_refl existing.id),
                  refl,
                  refl,
                )
          | inr held ↦ cc (ap (λ q. q.claim_granted) (rw held at same))
        ]

    -- The row behind a granted claim.
    pub granted_row :
        IsTable db.tickets
        → All (λ t. by_id id t ≡ false) db.tickets
        → intake host now token id number dto db ≡ ok (r, db')
        → r.claim_granted ≡ true
        → (find (by_id r.ticket.id) db'.tickets ≡ some r.ticket)
          × (r.ticket.claim_token_hash ≡ host.sha256 token)
          × (r.ticket.claim_expires_at ≡ some (now + claim_lease_ms))
    unfolding new_ticket
    granted_row h fresh e granted = elim (intake_cases host now token id number dto db r db' e) [
      | inl (absent, stored, logged, same, given) ↦
          rw (stored, same)
            (
              find-concat (by_id id) db.tickets (intake_row host now token id number dto db) fresh
                  (unfold new_ticket in eq_refl id),
              unfold new_ticket in refl,
              unfold new_ticket in refl,
            )
      | inr (existing, found, same, left) ↦
          reclaimed_row existing (intake_consumer host now token id number dto db) dto.source
            (intake_ref host now token id number dto db) h found same left granted
    ]

    -- If an intake grants a claim, then the stored row is the claimed one, and in all tables that
    -- still hold that row the claim's token, used before fifteen minutes have passed, does what a
    -- transition by the claim's owner does, or by "feedback-monitor" where the owner is empty: the
    -- stored row then has the status that the request names, if the transition is legal, and the
    -- request is refused otherwise. No two rows share an id or a source, the new id is unused, and
    -- digests are 32 bytes that are not empty.
    pub granted_claim :
        IsTable db.tickets
        → All (λ t. by_id id t ≡ false) db.tickets
        → HasDigests host
        → intake host now token id number dto db ≡ ok (r, db')
        → r.claim_granted ≡ true
        → (later : ℕ) (update : UpdateDto) (after : Db) → later < now + claim_lease_ms
        → find (by_id r.ticket.id) after.tickets ≡ some r.ticket
        → (find (by_id r.ticket.id) db'.tickets ≡ some r.ticket)
          × (update_claimed host later r.ticket.id
                (record { update = update; claim_token = token })
                after
              ≡ transition host later r.ticket.id update
                  (if r.ticket.claim_owner == "" then "feedback-monitor" else r.ticket.claim_owner)
                  after)
          × IsAnswer r.ticket.id update r.ticket (
              update_claimed host later r.ticket.id
                (record { update = update; claim_token = token })
                after)
    granted_claim h fresh d e granted later update after live still =
        let (found, hash, lease) = granted_row h fresh e granted in
        let same =
          update_claimed_holder later r.ticket.id (record { update = update; claim_token = token })
            after r.ticket still
            (holds_claim_new later (now + claim_lease_ms) token r.ticket d hash lease live) in
        (
          found,
          same,
          rw same (
              transition-IsAnswer later r.ticket.id update
                (if r.ticket.claim_owner == "" then "feedback-monitor" else r.ticket.claim_owner)
                after r.ticket still),
        )

    -- If an intake grants a claim, then a token whose digest differs from that of the claim's token
    -- is refused at any time. No two rows share an id or a source, and the new id is unused.
    pub superseded_claim :
        IsTable db.tickets
        → All (λ t. by_id id t ≡ false) db.tickets
        → intake host now token id number dto db ≡ ok (r, db')
        → r.claim_granted ≡ true
        → (later : ℕ) (update : UpdateDto) (older : String)
        → host.from_hex (host.sha256 older) ≢ host.from_hex (host.sha256 token)
        → update_claimed host later r.ticket.id
            (record { update = update; claim_token = older })
            db'
          ≡ err (unauthorized "feedback ticket claim is expired, invalid, or superseded")
    superseded_claim h fresh e granted later update older differ =
        let (found, hash, lease) = granted_row h fresh e granted in
        update_claimed_refused later r.ticket.id _ db' r.ticket found
          (holds_claim_superseded later older token r.ticket hash differ)
