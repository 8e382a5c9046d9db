-- ===== src/Audit/Tamper.antt =====
-- What the verification of an audit log detects: rewritten rows, but not rows cut off the end.
use hara_control.Common.{
  length, ℕ, suc, ◌≤◌, String, ◌≡◌, refl, sym, ◌∙◌, ◌⊎◌, inl, inr, true, false, some, List, [], ◌∷◌,
  ◌++◌, arith, ◌==◌, eq_iff, if◌then◌else◌, Bool-cases, Option-cases, or_else, append,
  append_inj_end, text_length,
}
use hara_control.Host.{Host}
use hara_control.Json.{obj, Fields}
use hara_control.Crypto.{Script, canonical_json, chain_hash}
use hara_control.Audit.{
  AuditRow, identity, last_row, head_hash, Verdict, intact, legacy_identity, hashes_to,
  matches_current, matches_legacy, unchained, verify_chain, verify_from, verify,
}
use hara_control.Audit.Chain.{
  IsLinked, IsChained, hash_after, verify_chain-IsChained, head_hash-last_row,
}

abbrev pub IsIntact : Verdict → Type 0
IsIntact v = (p : ℕ) × (l : ℕ) × (v ≡ intact p l)

module _ (script : Script) (host : Host) (iso : ℕ → String) where
  verify_chain-prefix :
      (n k : ℕ) (prev : String) (rows more : List AuditRow) {p l : ℕ}
      → verify_chain script host iso n k prev (rows ++ more) ≡ intact p l
      → IsIntact (verify_chain script host iso n k prev rows)
  unfolding verify_chain
  verify_chain-prefix n k prev [] more e = (n, k, refl)
  verify_chain-prefix n k prev (r ∷ rest) more {p} {l} e = elim (Bool-cases (r.prev_hash == prev)) [
    | inr off ↦ ground arith
    | inl on ↦ elim (Bool-cases (matches_current script host iso r prev)) [
      | inl now ↦
          let deep = verify_chain-prefix n k r.row_hash rest more {p = p} {l = l} (ground arith) in
          (deep.0, deep.1, ground (arith, deep.2))
      | inr not_now ↦ elim (Bool-cases (matches_legacy script host iso r prev)) [
        | inl old ↦
            let deep =
              verify_chain-prefix n (suc k) r.row_hash rest more {p = p} {l = l} (ground arith) in
            (deep.0, deep.1, ground (arith, deep.2))
        | inr not_old ↦ ground arith
      ]
    ]
  ]

  verify_from-prefix :
      (n : ℕ) (rows more : List AuditRow) {p l : ℕ}
      → verify_from script host iso n (rows ++ more) ≡ intact p l
      → IsIntact (verify_from script host iso n rows)
  unfolding verify_from
  verify_from-prefix n [] more e = (n, 0, refl)
  verify_from-prefix n (r ∷ rest) more {p} {l} e = elim (Bool-cases (unchained script host iso r)) [
    | inl bare ↦
        let deep = verify_from-prefix (suc n) rest more {p = p} {l = l} (ground arith) in
        (deep.0, deep.1, ground (arith, deep.2))
    | inr anchored ↦
        let deep = verify_chain-prefix n 0 "" (r ∷ rest) more {p = p} {l = l} (ground arith) in
        (deep.0, deep.1, ground (arith, deep.2))
  ]

  -- If the verification of a log succeeds, it also succeeds once any number of its last rows are
  -- deleted.
  pub verify-truncated :
      (rows deleted : List AuditRow) {p l : ℕ}
      → verify script host iso (rows ++ deleted) ≡ intact p l
      → IsIntact (verify script host iso rows)
  unfolding verify
  verify-truncated rows deleted {p} {l} h = verify_from-prefix 0 rows deleted {p = p} {l = l} h

  -- The text of the identity by which a row's digest is accepted.
  abbrev pub reading : AuditRow → String → String
  reading r prev = canonical_json script (
      obj (
        if matches_current script host iso r prev
        then identity iso r
        else or_else (legacy_identity script host iso r r.payload) (identity iso r)))

  abbrev pub readings : String → List AuditRow → List String
  readings prev [] = []
  readings prev (r ∷ rest) = reading r prev ∷ readings r.row_hash rest

  -- The text whose digest a row stores.
  abbrev pub hashed : AuditRow → String → String
  hashed r prev = append (reading r prev) prev

  -- At some position, the rows of two logs store one digest for two different texts.
  abbrev pub Collides : String → String → List AuditRow → List AuditRow → Type 0
  Collides p q [] ys = ⊥
  Collides p q (x ∷ xs) [] = ⊥
  Collides p q (x ∷ xs) (y ∷ ys) =
      (((hashed x p == hashed y q) ≡ false) × (host.sha256 (hashed x p) ≡ host.sha256 (hashed y q)))
      ⊎ Collides x.row_hash y.row_hash xs ys

  hashes_to_lem :
      (r : AuditRow) (prev : String) (fields : Fields)
      → hashes_to script host iso r prev (some fields) ≡ true
      → r.row_hash ≡ host.sha256 (append (canonical_json script (obj fields)) prev)
  unfolding hashes_to chain_hash
  hashes_to_lem r prev fields h = sym ((eq_iff _ r.row_hash).0 h)

  matches_current_lem :
      (r : AuditRow) (prev : String)
      → matches_current script host iso r prev ≡ true
      → r.row_hash ≡ host.sha256 (append (canonical_json script (obj (identity iso r))) prev)
  unfolding matches_current
  matches_current_lem r prev h = hashes_to_lem r prev (identity iso r) h

  matches_legacy_lem :
      (r : AuditRow) (prev : String)
      → matches_legacy script host iso r prev ≡ true
      → (fields : Fields) × (legacy_identity script host iso r r.payload ≡ some fields)
        × (matches_current script host iso r prev ≡ false)
        × (hashes_to script host iso r prev (some fields) ≡ true)
  unfolding matches_legacy hashes_to
  matches_legacy_lem r prev h = elim (Option-cases (legacy_identity script host iso r r.payload)) [
    | inl missing ↦ ground arith
    | inr (fields, e) ↦
        let found : hashes_to script host iso r prev (some fields) ≡ true = ground arith in
        (fields, e, ground arith, found)
  ]

  IsLinked-row_hash :
      (r : AuditRow) (prev : String)
      → IsLinked script host iso prev r
      → r.row_hash ≡ host.sha256 (hashed r prev)
  IsLinked-row_hash r prev (_, inl now) = rw now (matches_current_lem r prev now)
  IsLinked-row_hash r prev (_, inr old) =
      let found = matches_legacy_lem r prev old in
      rw (found.2, found.1) (hashes_to_lem r prev found.0 found.3)

  -- Two chains of the same length with the same last digest: either texts of two rows collide, or the rows
  -- agree and so do the digests that they continue.
  chains_agree :
      ((s t : String) → text_length (host.sha256 s) ≡ text_length (host.sha256 t))
      → (p q : String) (xs ys : List AuditRow) → text_length p ≡ text_length q
      → IsChained script host iso p xs
      → IsChained script host iso q ys
      → length xs ≡ length ys
      → hash_after script host iso p xs ≡ hash_after script host iso q ys
      → Collides p q xs ys ⊎ ((readings p xs ≡ readings q ys) × (p ≡ q))
  chains_agree same p q [] [] fit hx hy n e = inr (refl, e)
  chains_agree same p q [] (y ∷ ys) fit hx hy n e = ground (arith, n)
  chains_agree same p q (x ∷ xs) [] fit hx hy n e = ground (arith, n)
  chains_agree same p q (x ∷ xs) (y ∷ ys) fit (lx, hx) (ly, hy) n e =
      let dx = IsLinked-row_hash x p lx in
      let dy = IsLinked-row_hash y q ly in
      let wide : text_length x.row_hash ≡ text_length y.row_hash =
        rw (dx, dy) (same (hashed x p) (hashed y q)) in
      elim (chains_agree same x.row_hash y.row_hash xs ys wide hx hy (omega (arith, n)) e) [
        | inl found ↦ inl (inr found)
        | inr (rest, hash) ↦ elim (Bool-cases (hashed x p == hashed y q)) [
          | inr differ ↦ inl (inl (differ, sym dx ∙ hash ∙ dy))
          | inl agree ↦
              let (first, before) = append_inj_end ((eq_iff _ _).0 agree) fit in
              inr (rw (first, rest), before)
        ]
      ]

  verify_from-bound :
      (n : ℕ) (rows : List AuditRow) {p l : ℕ}
      → verify_from script host iso n rows ≡ intact p l
      → n ≤ p
  unfolding verify_from
  verify_from-bound n [] h = ground arith
  verify_from-bound n (r ∷ rest) {p} {l} h = elim (Bool-cases (unchained script host iso r)) [
    | inl bare ↦
        let deep = verify_from-bound (suc n) rest {p = p} {l = l} (ground arith) in omega arith
    | inr anchored ↦
        let chained =
          verify_chain-IsChained script host iso n 0 "" (r ∷ rest) {p = p} {l = l} (ground arith) in
        ground (arith, chained.0)
  ]

  verify-IsChained :
      (rows : List AuditRow) {l : ℕ}
      → verify script host iso rows ≡ intact 0 l
      → IsChained script host iso "" rows
  unfolding verify verify_from
  verify-IsChained [] h = tt
  verify-IsChained (r ∷ rest) {l} h = elim (Bool-cases (unchained script host iso r)) [
    | inl bare ↦
        let impossible : ⊥ =
          omega (arith, verify_from-bound 1 rest {p = 0} {l = l} (ground arith)) in
        elim impossible [ ]
    | inr anchored ↦
        (verify_chain-IsChained script host iso 0 0 "" (r ∷ rest) {p = 0} {l = l} (ground arith)).1
  ]

  head_hash-hash_after :
      (rows : List AuditRow) → head_hash (last_row rows) ≡ hash_after script host iso "" rows
  unfolding head_hash last_row
  head_hash-hash_after [] = refl
  head_hash-hash_after (r ∷ rest) = head_hash-last_row script host iso "" r rest

  -- If all digests have the same length, and two logs of as many rows have the same last digest,
  -- have no row from before the chain and both verify, then either the logs have, at one position,
  -- two rows whose hashed texts differ and have the same digest, or the two logs hold the same
  -- sequence of hashed identities.
  pub verify_tamper_evident :
      ((s t : String) → text_length (host.sha256 s) ≡ text_length (host.sha256 t))
      → (xs ys : List AuditRow) {k l : ℕ} → verify script host iso xs ≡ intact 0 k
      → verify script host iso ys ≡ intact 0 l
      → length xs ≡ length ys
      → head_hash (last_row xs) ≡ head_hash (last_row ys)
      → Collides "" "" xs ys ⊎ (readings "" xs ≡ readings "" ys)
  verify_tamper_evident same xs ys {k} {l} vx vy n e =
      elim (chains_agree same "" "" xs ys refl (verify-IsChained xs {l = k} vx)
        (verify-IsChained ys {l = l} vy) n
        (sym (head_hash-hash_after xs) ∙ e ∙ head_hash-hash_after ys)) [
          | inl found ↦ inl found
          | inr (agree, _) ↦ inr agree
        ]
