-- ===== src/Audit/Examples.antt =====
-- Small audit logs, sealed, extended, cut and checked.
use hara_control.Audit.Retry.{
  Attempt, mutated, thrown, is_conflict, settle, transact_from, transact, IsConflicted, Commits,
  transact_iff,
}
use hara_control.Common.{
  ok, zero, suc, failure, ◌↔◌, ◌<◌, ℕ, String, ◌≡◌, refl, sym, ◌∙◌, ◌⊎◌, inl, inr, true, false,
  none, some, List, [], ◌∷◌, ◌==◌, eqb, if◌then◌else◌, Bool-cases, text_length,
}
use hara_control.Host.Plain.{plain}
use hara_control.Json.{bool}
use hara_control.Crypto.{
  Script, join_comma, insert_member, sort_members, member_text, canonical_json, chain_hash,
}
use hara_control.Audit.{
  AuditRow, persisted_payload, or_empty, identity_with, identity, last_row, next_seq, head_hash,
  Entry, intact, drafted, sealed, appended, append_row, hashes_to, matches_current, unchained,
  verify_chain, verify_from, verify,
}
use hara_control.Audit.Appending.{verify-append_row}
use hara_control.Audit.Tamper.{
  IsIntact, verify-truncated, readings, Collides, verify_tamper_evident,
}

abbrev script : Script
script = record {
  quote = λ s. s;
  decimal = λ n. if eqb n 0 then "0" else "1";
  before = λ k l. false;
}

abbrev iso : ℕ → String
iso t = "now"

abbrev entry : Entry
entry = record {
  entry_id = "r";
  entry_action = "device.enroll";
  entry_actor_type = "device";
  entry_actor_id = "d";
  entry_payload = ("personId", none) ∷ ("ok", some (bool true)) ∷ [];
  entry_at = 5;
}

abbrev extend : List AuditRow → List AuditRow
extend rows = append_row script plain iso "org" entry rows

abbrev one_row : List AuditRow
one_row = extend []

-- The same log with a rewritten action, under a host whose digests collide.
abbrev rewritten : List AuditRow
rewritten = append_row script plain iso "org" (record entry { entry_action = "device.remove" }) []

rewritten-IsIntact : verify script plain iso rewritten ≡ intact 0 0
unfolding verify verify_from verify_chain unchained append_row appended drafted sealed chain_hash
    head_hash last_row canonical_json join_comma sort_members identity identity_with insert_member
    member_text or_empty persisted_payload next_seq matches_current hashes_to
rewritten-IsIntact = refl

one_row-IsIntact : verify script plain iso one_row ≡ intact 0 0
unfolding verify verify_from verify_chain unchained append_row appended drafted sealed chain_hash
    head_hash last_row canonical_json join_comma sort_members identity identity_with insert_member
    member_text or_empty persisted_payload next_seq matches_current hashes_to
one_row-IsIntact = refl

one_row-head : "bb" ≡ head_hash (last_row one_row)
unfolding append_row appended drafted sealed chain_hash head_hash last_row next_seq canonical_json
    join_comma sort_members identity identity_with insert_member member_text or_empty
    persisted_payload
one_row-head = refl

rewritten-head : "bb" ≡ head_hash (last_row rewritten)
unfolding append_row appended drafted sealed chain_hash head_hash last_row next_seq canonical_json
    join_comma sort_members identity identity_with insert_member member_text or_empty
    persisted_payload
rewritten-head = refl

full : (s : String) → (plain.sha256 s == "") ≡ false
full s = elim (Bool-cases (s == "t1")) [ inl e ↦ rw e refl | inr e ↦ rw e refl ]

same : (s t : String) → text_length (plain.sha256 s) ≡ text_length (plain.sha256 t)
same s t = elim (Bool-cases (s == "t1")) [
  | inl a ↦ elim (Bool-cases (t == "t1")) [ inl b ↦ rw (a, b) refl | inr b ↦ rw (a, b) refl ]
  | inr a ↦ elim (Bool-cases (t == "t1")) [ inl b ↦ rw (a, b) refl | inr b ↦ rw (a, b) refl ]
]

verify-append_row_example : verify script plain iso (extend one_row) ≡ intact 0 0
verify-append_row_example =
    verify-append_row script plain iso full one_row "org" entry one_row-IsIntact

verify-truncated_example : IsIntact (verify script plain iso one_row)
unfolding verify append_row
verify-truncated_example =
    verify-truncated script plain iso one_row
      (appended script plain iso "org" entry (last_row one_row) ∷ []) verify-append_row_example

verify_tamper_evident_example :
    Collides script plain iso "" "" one_row rewritten
    ⊎ (readings script plain iso "" one_row ≡ readings script plain iso "" rewritten)
unfolding append_row
verify_tamper_evident_example =
    verify_tamper_evident script plain iso same one_row rewritten one_row-IsIntact
      rewritten-IsIntact refl (sym one_row-head ∙ rewritten-head)

-- A first attempt that loses the race for its sequence number, and a second one that commits.
abbrev racing : ℕ → Attempt ℕ
racing zero = thrown (some "P2002") (failure "unique constraint")
racing (suc n) = mutated 7 entry

abbrev racing_logs : ℕ → List AuditRow
racing_logs zero = []
racing_logs (suc n) = one_row

transact_iff_example :
    (transact script plain iso "org" racing_logs racing ≡ ok (7, extend one_row)) ↔ (
      (n : ℕ) × (n < 4)
      × ((m : ℕ) → m < n → IsConflicted script plain iso "org" (racing m))
      × Commits script plain iso "org" racing_logs racing n 7 (extend one_row))
transact_iff_example = transact_iff script plain iso "org" racing_logs racing 7 (extend one_row)

transact_second : transact script plain iso "org" racing_logs racing ≡ ok (7, extend one_row)
unfolding transact transact_from settle is_conflict
transact_second = refl
