-- ===== src/Audit/Chain.antt =====
-- The verification of an audit log: what an intact chain is, and that appending keeps it intact.
use hara_control.Common.{
  ℕ, suc, String, ◌≡◌, refl, sym, ◌⊎◌, inl, inr, true, List, [], ◌∷◌, ◌++◌, arith, ◌==◌, eq_iff,
  eq_refl, Bool-cases,
}
use hara_control.Host.{Host}
use hara_control.Crypto.{Script}
use hara_control.Audit.{
  AuditRow, identity_with, identity, last_row, head_hash, intact, sealed, hashes_to,
  matches_current, matches_legacy, verify_chain,
}

module _ (script : Script) (host : Host) (iso : ℕ → String) where
  -- The row continues the digest `prev`, by its own identity or by the one of an old enrollment.
  abbrev pub IsLinked : String → AuditRow → Type 0
  IsLinked prev r =
      (r.prev_hash ≡ prev)
      × ((matches_current script host iso r prev ≡ true)
          ⊎ (matches_legacy script host iso r prev ≡ true))

  abbrev pub IsChained : String → List AuditRow → Type 0
  IsChained prev [] = Unit
  IsChained prev (r ∷ rest) = IsLinked prev r × IsChained r.row_hash rest

  abbrev pub hash_after : String → List AuditRow → String
  hash_after prev [] = prev
  hash_after prev (r ∷ rest) = hash_after r.row_hash rest

  pub verify_chain-IsChained :
      (n k : ℕ) (prev : String) (rows : List AuditRow) {p l : ℕ}
      → verify_chain script host iso n k prev rows ≡ intact p l
      → (n ≡ p) × IsChained prev rows
  unfolding verify_chain
  verify_chain-IsChained n k prev [] e = (ground arith, tt)
  verify_chain-IsChained n k prev (r ∷ rest) {p} {l} e = elim (Bool-cases (r.prev_hash == prev)) [
    | inr off ↦ ground arith
    | inl on ↦ elim (Bool-cases (matches_current script host iso r prev)) [
      | inl now ↦
          let deep = verify_chain-IsChained n k r.row_hash rest {p = p} {l = l} (ground arith) in
          (deep.0, (((eq_iff r.prev_hash prev).0 on, inl now), deep.1))
      | inr not_now ↦ elim (Bool-cases (matches_legacy script host iso r prev)) [
        | inl old ↦
            let deep =
              verify_chain-IsChained n (suc k) r.row_hash rest {p = p} {l = l} (ground arith) in
            (deep.0, (((eq_iff r.prev_hash prev).0 on, inr old), deep.1))
        | inr not_old ↦ ground arith
      ]
    ]
  ]

  sealed_matches :
      (r : AuditRow) → matches_current script host iso (sealed script host iso r) r.prev_hash ≡ true
  unfolding matches_current hashes_to sealed identity identity_with
  sealed_matches r = eq_refl (sealed script host iso r).row_hash

  sealed-IsLinked :
      (r : AuditRow) (prev : String)
      → r.prev_hash ≡ prev
      → (((sealed script host iso r).prev_hash == prev) ≡ true)
        × (matches_current script host iso (sealed script host iso r) prev ≡ true)
  unfolding sealed
  sealed-IsLinked r prev link = rw (sym link) (eq_refl r.prev_hash, sealed_matches r)

  -- One more sealed row that continues the last digest leaves the verdict as it was.
  pub verify_chain-concat :
      (n k : ℕ) (prev : String) (rows : List AuditRow) (r : AuditRow) {p l : ℕ}
      → r.prev_hash ≡ hash_after prev rows
      → verify_chain script host iso n k prev rows ≡ intact p l
      → verify_chain script host iso n k prev (rows ++ sealed script host iso r ∷ []) ≡ intact p l
  unfolding verify_chain
  verify_chain-concat n k prev [] r link e = ground (arith, sealed-IsLinked r prev link)
  verify_chain-concat n k prev (s ∷ rest) r {p} {l} link e =
      let now = verify_chain-concat n k s.row_hash rest r {p = p} {l = l} link in
      let old = verify_chain-concat n (suc k) s.row_hash rest r {p = p} {l = l} link in
      elim (Bool-cases (s.prev_hash == prev)) [ inr off ↦ ground arith | inl on ↦ ground arith ]

  pub head_hash-last_row :
      (prev : String) (r : AuditRow) (rest : List AuditRow)
      → head_hash (last_row (r ∷ rest)) ≡ hash_after prev (r ∷ rest)
  unfolding head_hash last_row
  head_hash-last_row prev r [] = refl
  head_hash-last_row prev r (s ∷ rest) = head_hash-last_row r.row_hash s rest
