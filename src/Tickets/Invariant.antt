-- ===== src/Tickets/Invariant.antt =====
-- What holds of every stored ticket between two requests, and that the operations keep it.
use hara_control.Common.{
  find, update_where, All, find-All, All-update_where, ℕ, String, ◌≡◌, refl, sym, subst, ◌≢◌, inl,
  inr, true, false, ◌&&◌, ◌||◌, none, some, [], ◌∷◌, ◌++◌, arith, ◌==◌, eq_iff, Option-cases,
  is_some, or_else, ok,
}
use hara_control.Host.{Host}
use hara_control.Redact.{sanitize_control_text}
use hara_control.Tickets.Types.{Priority, Status, received, closed, Ticket, Db, UpdateDto}
use hara_control.Tickets.{
  same_status, is_terminal, is_allowed, needs_release, is_started, by_id, apply_update, moved_event,
  edited, move, transition,
}

pub record IsSound (t : Ticket) : Type 0 where
  pub closed_stamped : t.status ≡ closed → is_some t.closed_at ≡ true
  pub open_unstamped : t.status ≢ closed → t.closed_at ≡ none
  pub acknowledged : t.status ≢ received → is_some t.acknowledged_at ≡ true
  pub started : is_started t.status ≡ true → is_some t.started_at ≡ true
  pub released : needs_release t.status ≡ true → is_some t.released_at ≡ true
  pub version_given : needs_release t.status ≡ true → t.fix_version ≢ ""
  pub steps_given : needs_release t.status ≡ true → t.verification_steps ≢ ""
  pub claim_dropped :
      is_terminal t.status ≡ true
      → (t.claim_token_hash ≡ "") × (t.claim_owner ≡ "") × (t.claim_expires_at ≡ none)

apply_update-IsSound :
    (t : Ticket) (to : Status) (priority : Priority) (assignee fix steps : String) (now : ℕ)
    → IsSound t
    → (same_status to t.status || is_allowed t.status to) ≡ true
    → (needs_release to && (fix == "" || steps == "")) ≡ false
    → IsSound (apply_update t to priority assignee fix steps now)
unfolding apply_update
apply_update-IsSound t to priority assignee fix steps now h move given =
    ground (arith, eq_iff fix "", eq_iff steps "")

-- What a transition that returns has done to the row and to the tables.
pub record IsMove (host : Host) (now : ℕ) (id actor : String) (dto : UpdateDto) (db : Db)
    (from to : Ticket) (db' : Db) : Type 0 where
  pub same_id : to.id ≡ from.id
  pub same_key : (to.source ≡ from.source) × (to.source_ref ≡ from.source_ref)
  pub asked : to.status ≡ dto.status
  pub legal : (same_status to.status from.status || is_allowed from.status to.status) ≡ true
  pub sound : IsSound from → IsSound to
  pub stored : db'.tickets ≡ update_where (by_id id) (λ r. to) db.tickets
  pub logged :
      db'.events
      ≡ db.events
        ++ moved_event now id from.status dto.status
            (sanitize_control_text host (or_else dto.note "") 1200)
            (sanitize_control_text host actor 160)
          ∷ []

module _ (host : Host) (now : ℕ) (id : String) (dto : UpdateDto) (actor : String) (db : Db) where
  move_parts :
      (from t : Ticket) (db' : Db)
      → move host now id dto actor db from ≡ ok (t, db')
      → let fix = edited host dto.fix_version 64 from.fix_version in
        let steps = edited host dto.verification_steps 1200 from.verification_steps in
        ((same_status dto.status from.status || is_allowed from.status dto.status) ≡ true)
        × ((needs_release dto.status && (fix == "" || steps == "")) ≡ false)
        × (t
            ≡ apply_update from dto.status
                (or_else dto.priority from.priority)
                (edited host dto.assignee 160 from.assignee)
                fix
                steps
                now)
        × (db'.tickets ≡ update_where (by_id id) (λ r. t) db.tickets)
        × (db'.events
            ≡ db.events
              ++ moved_event now id from.status dto.status
                  (sanitize_control_text host (or_else dto.note "") 1200)
                  (sanitize_control_text host actor 160)
                ∷ [])
  unfolding move
  move_parts from t db' e = ground arith

  pub move-IsMove :
      (from t : Ticket) (db' : Db)
      → move host now id dto actor db from ≡ ok (t, db')
      → IsMove host now id actor dto db from t db'
  move-IsMove from t db' e =
      let (legal, given, same, stored, logged) = move_parts from t db' e in
      subst (λ r. IsMove host now id actor dto db from r db') (sym same)
        record {
          same_id = unfold apply_update in refl;
          same_key = unfold apply_update in (refl, refl);
          asked = unfold apply_update in refl;
          legal = unfold apply_update in legal;
          sound = λ h. apply_update-IsSound from _ _ _ _ _ now h legal given;
          stored = rw same at stored;
          logged = logged;
        }

  -- A transition that returns has moved a stored row.
  pub transition-IsMove :
      (t : Ticket) (db' : Db)
      → transition host now id dto actor db ≡ ok (t, db')
      → (from : Ticket) × (find (by_id id) db.tickets ≡ some from)
        × IsMove host now id actor dto db from t db'
  unfolding transition
  transition-IsMove t db' e = elim (Option-cases (find (by_id id) db.tickets)) [
    | inl missing ↦ cc (rw missing at e)
    | inr (from, found) ↦ (from, found, move-IsMove from t db' (rw found at e))
  ]

  pub transition-All :
      (t : Ticket) (db' : Db)
      → transition host now id dto actor db ≡ ok (t, db')
      → All IsSound db.tickets
      → IsSound t × All IsSound db'.tickets
  transition-All t db' e h =
      let (from, found, m) = transition-IsMove t db' e in
      let sound : IsSound t = m.sound (find-All IsSound (by_id id) db.tickets found h).0 in
      (
        sound,
        rw m.stored (All-update_where IsSound (by_id id) (λ r. t) db.tickets (λ r _ _. sound) h),
      )
