-- ===== src/Audit/Appending.antt =====
-- Appending to an audit log, and cutting rows off its end, as its verification sees them.
use hara_control.Common.{
  ℕ, suc, String, ◌≡◌, refl, ◌∙◌, inl, inr, true, false, List, [], ◌∷◌, ◌++◌, arith, ◌==◌, eq_iff,
  Bool-cases, append,
}
use hara_control.Host.{Host}
use hara_control.Json.{obj}
use hara_control.Crypto.{Script, canonical_json, chain_hash}
use hara_control.Audit.{
  AuditRow, identity, last_row, head_hash, Entry, intact, drafted, sealed, appended, append_row,
  unchained, verify_chain, verify_from, verify,
}
use hara_control.Audit.Chain.{verify_chain-concat, head_hash-last_row}

module _ (script : Script) (host : Host) (iso : ℕ → String) where
  last-IsUnchained :
      (r : AuditRow) (rest : List AuditRow)
      → unchained script host iso r ≡ true
      → head_hash (last_row (r ∷ rest)) ≡ head_hash (last_row rest)
  unfolding unchained last_row head_hash
  last-IsUnchained r [] h = ground (arith, eq_iff r.row_hash "")
  last-IsUnchained r (s ∷ rest) h = refl

  sealed-IsAnchored :
      ((s : String) → (host.sha256 s == "") ≡ false)
      → (r : AuditRow) → unchained script host iso (sealed script host iso r) ≡ false
  unfolding unchained sealed chain_hash
  sealed-IsAnchored full r =
      ground (arith, full (append (canonical_json script (obj (identity iso r))) r.prev_hash))

  -- The induction behind `verify-append_row`, for a row made from the head of all rows.
  unchained_end :
      (n : ℕ) (q : AuditRow) {p l : ℕ}
      → q.prev_hash ≡ ""
      → intact n 0 ≡ intact p l
      → verify_chain script host iso n 0 "" (sealed script host iso q ∷ []) ≡ intact p l
  unfolding verify_chain
  unchained_end n q {p} {l} link h =
      verify_chain-concat script host iso n 0 "" [] q {p = p} {l = l} link h

  verify_from-concat :
      ((s : String) → (host.sha256 s == "") ≡ false)
      → (n : ℕ) (rows : List AuditRow) (q : AuditRow) {p l : ℕ}
      → q.prev_hash ≡ head_hash (last_row rows)
      → verify_from script host iso n rows ≡ intact p l
      → verify_from script host iso n (rows ++ sealed script host iso q ∷ []) ≡ intact p l
  unfolding verify_from head_hash last_row
  verify_from-concat full n [] q {p} {l} link h =
      ground (arith, sealed-IsAnchored full q, unchained_end n q {p = p} {l = l} link h)
  verify_from-concat full n (r ∷ rest) q {p} {l} link h =
      elim (Bool-cases (unchained script host iso r)) [
        | inl bare ↦
            let deep =
              verify_from-concat full (suc n) rest q {p = p} {l = l}
                (link ∙ last-IsUnchained r rest bare) in
            ground arith
        | inr anchored ↦ ground (
          arith,
          verify_chain-concat script host iso n 0 "" (r ∷ rest) q {p = p} {l = l}
              (link ∙ head_hash-last_row script host iso "" r rest),
        )
      ]

  -- If no digest is the empty text, then appending an entry to a log whose verification succeeds
  -- gives a log whose verification succeeds, with the same counts of rows from before the chain
  -- and of rows with the old serialization.
  pub verify-append_row :
      ((s : String) → (host.sha256 s == "") ≡ false)
      → (rows : List AuditRow) (org : String) (e : Entry) {p l : ℕ}
      → verify script host iso rows ≡ intact p l
      → verify script host iso (append_row script host iso org e rows) ≡ intact p l
  unfolding verify append_row appended drafted
  verify-append_row full rows org e {p} {l} h =
      verify_from-concat full 0 rows (drafted org e (last_row rows)) refl h
