-- ===== src/Audit/Retry.antt =====
-- src/audit/audit.service.ts: `transact`, which commits a mutation with its audit row, and retries
-- on a conflict.
use hara_control.Common.{
  ℕ, zero, suc, ◌+◌, ◌≤◌, ◌<◌, String, ◌≡◌, refl, ◌∙◌, subst, ◌↔◌, ◌⊎◌, inl, inr, Bool, true, false,
  not, ◌||◌, Option, none, some, List, arith, ◌==◌, eqb, if◌then◌else◌, Bool-cases, Fault, failure,
  Outcome, ok, err,
}
use hara_control.Host.{Host}
use hara_control.Crypto.{Script}
use hara_control.Audit.{AuditRow, Entry, append_row}

-- One run of the transaction: what the mutation gives back with the row to append, or an error,
-- thrown at any point up to the commit, with its code. A run that throws is rolled back.
pub data Attempt {ℓ} (A : Type ℓ) : Type ℓ where
  mutated : A → Entry → Attempt A
  thrown : Option String → Fault → Attempt A

unfoldable pub is_conflict : Option String → Bool
is_conflict none = false
is_conflict (some code) = (code == "P2034") || (code == "P2002")

module _ {ℓ} {A : Type ℓ} (script : Script) (host : Host) (iso : ℕ → String) (org : String) where
  -- The body of the loop on one attempt's result; `rows` is the log that the attempt reads.
  unfoldable pub settle :
      List AuditRow → Bool → Outcome (A × List AuditRow) → Attempt A → Outcome (A × List AuditRow)
  settle rows last retried (mutated a e) = ok (a, append_row script host iso org e rows)
  settle rows last retried (thrown code fault) =
      if not (is_conflict code) || last then err fault else retried

  -- The loop from an attempt on, with the attempts that are left; `logs n` is the log that attempt
  -- n reads, and the answer holds the log that the commit leaves.
  unfoldable pub transact_from :
      (ℕ → List AuditRow) → (ℕ → Attempt A) → ℕ → ℕ → Outcome (A × List AuditRow)
  transact_from logs run attempt zero = err (failure "unreachable audited transaction state")
  transact_from logs run attempt (suc left) =
      settle (logs attempt) (eqb attempt 3) (transact_from logs run (suc attempt) left)
        (run attempt)

  unfoldable pub transact : (ℕ → List AuditRow) → (ℕ → Attempt A) → Outcome (A × List AuditRow)
  transact logs run = transact_from logs run 0 4

  pub data IsConflicted : Attempt A → Type ℓ where
    conflicted :
        {code : Option String} {fault : Fault}
        → is_conflict code ≡ true
        → IsConflicted (thrown code fault)

  -- Attempt n commits `a` with the log `rows`.
  abbrev pub Commits : (ℕ → List AuditRow) → (ℕ → Attempt A) → ℕ → A → List AuditRow → Type ℓ
  Commits logs run n a rows =
      (e : Entry) × (run n ≡ mutated a e) × (rows ≡ append_row script host iso org e (logs n))

  settle-eq-ok :
      (rows : List AuditRow) (last : Bool) (retried : Outcome (A × List AuditRow)) (r : Attempt A)
      {a : A} {out : List AuditRow}
      → settle rows last retried r ≡ ok (a, out)
      → ((e : Entry) × (r ≡ mutated a e) × (out ≡ append_row script host iso org e rows))
        ⊎ (IsConflicted r × (retried ≡ ok (a, out)))
  unfolding settle
  settle-eq-ok rows last retried (mutated b e) h = inl (e, cc, cc)
  settle-eq-ok rows last retried (thrown code fault) h = elim (Bool-cases (is_conflict code)) [
    | inr other ↦ ground arith
    | inl again ↦ inr (conflicted again, ground arith)
  ]

  settle-IsConflicted :
      (rows : List AuditRow) (retried : Outcome (A × List AuditRow)) (r : Attempt A)
      → IsConflicted r
      → settle rows false retried r ≡ retried
  unfolding settle
  settle-IsConflicted rows retried (mutated a e) h = elim h [ ]
  settle-IsConflicted rows retried (thrown code fault) (conflicted again) = rw again

  none_before :
      (logs : ℕ → List AuditRow) (run : ℕ → Attempt A) (n : ℕ) (m : ℕ)
      → n ≤ m
      → m < n
      → IsConflicted (run m)
  none_before logs run n m low high = let no : ⊥ = omega arith in elim no [ ]

  also_first :
      (run : ℕ → Attempt A) (first : ℕ) {n : ℕ}
      → IsConflicted (run first)
      → ((m : ℕ) → suc first ≤ m → m < n → IsConflicted (run m))
      → (m : ℕ) → first ≤ m
      → m < n
      → IsConflicted (run m)
  also_first run first lost before m low high = elim (Bool-cases (eqb first m)) [
    | inl here ↦ let e : first ≡ m = ground arith in subst (λ k. IsConflicted (run k)) e lost
    | inr past ↦ before m (ground arith) high
  ]

  transact_from-Commits :
      (logs : ℕ → List AuditRow) (run : ℕ → Attempt A) (attempt left : ℕ) {a : A}
      {rows : List AuditRow}
      → transact_from logs run attempt left ≡ ok (a, rows)
      → (n : ℕ) × (attempt ≤ n)
        × (n < attempt + left)
        × ((m : ℕ) → attempt ≤ m → m < n → IsConflicted (run m))
        × Commits logs run n a rows
  unfolding transact_from
  transact_from-Commits logs run attempt zero h = cc
  transact_from-Commits logs run attempt (suc left) {a} {rows} h =
      elim (settle-eq-ok (logs attempt) _ _ (run attempt) h) [
        | inl now ↦ (attempt, omega arith, omega arith, none_before logs run attempt, now)
        | inr (lost, later) ↦
            let (n, low, high, before, commit) =
              transact_from-Commits logs run (suc attempt) left {a = a} {rows = rows} later in
            (n, omega arith, omega arith, also_first run attempt lost before, commit)
      ]

  Commits-transact_from :
      (logs : ℕ → List AuditRow) (run : ℕ → Attempt A) (n attempt left : ℕ) {a : A}
      {rows : List AuditRow}
      → attempt + left ≡ 4
      → attempt ≤ n
      → n < 4
      → ((m : ℕ) → attempt ≤ m → m < n → IsConflicted (run m))
      → Commits logs run n a rows
      → transact_from logs run attempt left ≡ ok (a, rows)
  unfolding transact_from settle
  Commits-transact_from logs run n attempt zero fuel low high before commit = ground arith
  Commits-transact_from logs run n attempt (suc left) {a} {rows} fuel low high before (e, now, is) =
      elim (Bool-cases (eqb attempt n)) [
        | inl here ↦ let at : attempt ≡ n = ground arith in rw (at, now, is) refl
        | inr past ↦
            let early : eqb attempt 3 ≡ false = ground arith in
            rw early (
              settle-IsConflicted (logs attempt) (transact_from logs run (suc attempt) left)
                (run attempt) (before attempt (omega arith) (ground arith))
              ∙ Commits-transact_from logs run n (suc attempt) left {a = a} {rows = rows}
                  (omega arith) (ground arith) high (λ m l h. before m (omega arith) h)
                  (e, now, is))
      ]

  -- A transaction succeeds with the result `a` and the log `rows` exactly when, for one of its first
  -- four attempts, all earlier attempts end in a conflict and that attempt's mutation gives `a`
  -- with an entry whose row, appended to the log that the attempt reads, makes `rows`.
  pub transact_iff :
      (logs : ℕ → List AuditRow) (run : ℕ → Attempt A) (a : A) (rows : List AuditRow)
      → (transact logs run ≡ ok (a, rows))
        ↔ ((n : ℕ) × (n < 4) × ((m : ℕ) → m < n → IsConflicted (run m)) × Commits logs run n a rows)
  unfolding transact
  transact_iff logs run a rows = (
    (λ h.
        let (n, low, high, before, commit) =
          transact_from-Commits logs run 0 4 {a = a} {rows = rows} h in
        (n, high, (λ m l. before m (omega arith) l), commit)),
    (λ (n, high, before, commit).
        Commits-transact_from logs run n 0 4 {a = a} {rows = rows} (omega arith) (omega arith) high
          (λ m l h. before m h) commit),
  )
