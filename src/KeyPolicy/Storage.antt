-- ===== src/KeyPolicy/Storage.antt =====
-- From a request to the stored policy, and back from its columns.
use hara_control.Common.{
  length, ℕ, suc, ◌≤◌, ◌≡◌, refl, ap, inl, inr, Bool, true, false, Option, none, some, List, [],
  ◌∷◌, map, arith, leb, if◌then◌else◌, Bool-cases, or_else, ok, Outcome-cases,
}
use hara_control.Host.Numbers.{Number, finite}
use hara_control.KeyPolicy.{
  window_text, StoredBudgetLimit, PolicyInput, StoredPolicy, min_token_ttl_minutes,
  max_token_ttl_minutes, max_rpm_limit, max_tpm_limit, max_safe_integer, finite_integer,
  normalize_limits, is_true, normalize_ttl, normalize_access_key_policy, RawLimit, row,
  StoredColumns, read_limits, parse_stored_access_key_policy,
}
use hara_control.KeyPolicy.Laws.{
  IsLimit, IsLifetime, IsValid, whole_between_complete, normalize_limits_sound, limit_input,
  normalize_limits_complete, normalize_ttl_sound, finite_integer_sound,
}

-- Every policy that normalisation returns is valid: its lifetime is whole and in range, or absent for
-- a key that never expires; its budgets are at most three, for different windows, in range and in
-- whole millionths, with the windows' durations; its rates are whole and in range.
pub normalize-IsValid :
    (input : PolicyInput) (fallback : ℕ) (p : StoredPolicy)
    → normalize_access_key_policy input fallback ≡ ok p
    → IsValid p
unfolding normalize_access_key_policy
normalize-IsValid input fallback p e =
    let never = is_true input.token_never_expires in
    let source = or_else input.budget_limits [] in
    elim (Outcome-cases (normalize_ttl never input.token_ttl_minutes fallback)) [
      | inr (f, a) ↦ ground arith
      | inl (ttl, a) ↦ elim (Bool-cases (leb (length source) 3)) [
        | inr long ↦ ground arith
        | inl short ↦ elim (Outcome-cases (normalize_limits [] source)) [
          | inr (f, b) ↦ ground arith
          | inl (limits, b) ↦ elim (Outcome-cases (finite_integer input.rpm_limit max_rpm_limit)) [
            | inr (f, c) ↦ ground arith
            | inl (rpm, c) ↦ elim (Outcome-cases (finite_integer input.tpm_limit max_tpm_limit)) [
              | inr (f, d) ↦ ground arith
              | inl (tpm, d) ↦
                  let (budgets, distinct, count) = normalize_limits_sound [] source limits b in
                  let whole : p ≡ record {
                    token_ttl_minutes = ttl;
                    token_never_expires = never;
                    budget_limits = limits;
                    rpm_limit = rpm;
                    tpm_limit = tpm;
                  } =
                    ground arith in
                  rw whole record {
                    lifetime = normalize_ttl_sound never input.token_ttl_minutes fallback ttl a;
                    at_most_three = ground arith;
                    budgets = budgets;
                    distinct = distinct;
                    rpm = finite_integer_sound input.rpm_limit max_rpm_limit rpm c;
                    tpm = finite_integer_sound input.tpm_limit max_tpm_limit tpm d;
                  }
            ]
          ]
        ]
      ]
    ]

-- The columns in which a policy is stored.
abbrev pub raw_limit : StoredBudgetLimit → RawLimit
raw_limit l = row (some (window_text l.window)) (finite l.max_usd)

abbrev pub number_of : Option ℕ → Option Number
number_of none = none
number_of (some n) = some (finite n)

pub columns : StoredPolicy → StoredColumns
columns p = record {
  token_ttl_minutes = number_of p.token_ttl_minutes;
  token_never_expires = p.token_never_expires;
  budget_limits = some (map raw_limit p.budget_limits);
  rpm_limit = number_of p.rpm_limit;
  tpm_limit = number_of p.tpm_limit;
}

read_limits-map :
    (ls : List StoredBudgetLimit) → read_limits (map raw_limit ls) ≡ ok (map limit_input ls)
unfolding read_limits
read_limits-map [] = refl
read_limits-map (l ∷ ls) = rw (read_limits-map ls)

finite_integer_complete :
    (max : ℕ) (n : Option ℕ)
    → max ≤ max_safe_integer
    → IsLimit max n
    → finite_integer (number_of n) max ≡ ok n
unfolding finite_integer
finite_integer_complete max none small h = refl
finite_integer_complete max (some n) small h = rw (whole_between_complete 1 max n small h)

length-limit_input : (ls : List StoredBudgetLimit) → length (map limit_input ls) ≡ length ls
length-limit_input [] = refl
length-limit_input (l ∷ ls) = ap suc (length-limit_input ls)

normalize_ttl_complete :
    (never : Bool) (ttl : Option ℕ) (fallback : ℕ)
    → IsLifetime never ttl
    → normalize_ttl never
        (if never then none else some (or_else (number_of ttl) (finite fallback)))
        fallback
      ≡ ok ttl
unfolding normalize_ttl
normalize_ttl_complete true ttl fallback h = rw h
normalize_ttl_complete false none fallback h = absurd h
normalize_ttl_complete false (some n) fallback h =
    rw (whole_between_complete min_token_ttl_minutes max_token_ttl_minutes n (omega arith) h)

is_true-stored : (never : Bool) → is_true (if never then some true else none) ≡ never
is_true-stored true = refl
is_true-stored false = refl

-- A valid policy is read back from its columns as it was stored, whatever the default lifetime is
-- by then.
pub parse_stored-columns :
    (p : StoredPolicy) (fallback : ℕ)
    → IsValid p
    → parse_stored_access_key_policy (columns p) fallback ≡ ok p
unfolding parse_stored_access_key_policy normalize_access_key_policy columns
parse_stored-columns p fallback v =
    rw
      (
        read_limits-map p.budget_limits,
        is_true-stored p.token_never_expires,
        normalize_ttl_complete p.token_never_expires p.token_ttl_minutes fallback v.lifetime,
        length-limit_input p.budget_limits,
      )
      (rw
        (
          normalize_limits_complete [] p.budget_limits v.budgets v.distinct,
          finite_integer_complete max_rpm_limit p.rpm_limit (omega arith) v.rpm,
          finite_integer_complete max_tpm_limit p.tpm_limit (omega arith) v.tpm,
        )
        (ground (arith, v.at_most_three)))

-- What an administrator's accepted request is stored as is what enrollment reads back, even where
-- the default lifetime has changed since.
pub policy_round_trip :
    (input : PolicyInput) (fallback later : ℕ) (p : StoredPolicy)
    → normalize_access_key_policy input fallback ≡ ok p
    → parse_stored_access_key_policy (columns p) later ≡ ok p
policy_round_trip input fallback later p e =
    parse_stored-columns p later (normalize-IsValid input fallback p e)
