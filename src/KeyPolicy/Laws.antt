-- ===== src/KeyPolicy/Laws.antt =====
-- A normalised policy is valid, and a valid policy survives its storage.
use hara_control.Common.{
  any, length, All, ℕ, suc, ◌*◌, ◌%◌, ◌≤◌, ◌≡◌, refl, ap, inl, inr, Bool, true, false, Option, none,
  some, List, [], ◌∷◌, map, arith, Bool-cases, Option-cases, or_else, ok, Outcome-cases,
}
use hara_control.Host.Numbers.{Number, not_a_number, finite, unit}
use hara_control.KeyPolicy.{
  Window, five_hours, week, month, parse_window, window_text, window_duration, BudgetLimitInput,
  StoredBudgetLimit, StoredPolicy, min_token_ttl_minutes, max_token_ttl_minutes, max_budget_usd,
  max_rpm_limit, max_tpm_limit, max_safe_integer, whole_between, finite_integer, round_micros,
  min_budget, budget_amount, same_window, normalize_limits, normalize_ttl,
}

-- A whole count of `unit` between two bounds.
abbrev pub IsWhole : ℕ → ℕ → ℕ → Type 0
IsWhole low high n = (n % unit ≡ 0) × (low * unit ≤ n) × (n ≤ high * unit)

abbrev pub IsLimit : ℕ → Option ℕ → Type 0
IsLimit max none = Unit
IsLimit max (some n) = IsWhole 1 max n

-- Amounts in whole millionths, between one cent and the maximum.
pub record IsBudget (l : StoredBudgetLimit) : Type 0 where
  pub micros : l.max_usd % 1000 ≡ 0
  pub at_least_cent : min_budget ≤ l.max_usd
  pub at_most : l.max_usd ≤ max_budget_usd * unit
  pub duration : l.budget_duration ≡ window_duration l.window

-- No window stands twice, and none that was seen before.
abbrev pub AreDistinct : List Window → List StoredBudgetLimit → Type 0
AreDistinct seen [] = Unit
AreDistinct seen (l ∷ ls) =
    (any (same_window l.window) seen ≡ false) × AreDistinct (l.window ∷ seen) ls

-- The lifetime: none exactly for a key that never expires.
abbrev pub IsLifetime : Bool → Option ℕ → Type 0
IsLifetime true ttl = ttl ≡ none
IsLifetime false none = ⊥
IsLifetime false (some n) = IsWhole min_token_ttl_minutes max_token_ttl_minutes n

pub record IsValid (p : StoredPolicy) : Type 0 where
  pub lifetime : IsLifetime p.token_never_expires p.token_ttl_minutes
  pub at_most_three : length p.budget_limits ≤ 3
  pub budgets : All IsBudget p.budget_limits
  pub distinct : AreDistinct [] p.budget_limits
  pub rpm : IsLimit max_rpm_limit p.rpm_limit
  pub tpm : IsLimit max_tpm_limit p.tpm_limit

pub whole_between_sound :
    (low high : ℕ) (v : Number) (n : ℕ)
    → whole_between low high v ≡ some n
    → (v ≡ finite n) × IsWhole low high n
unfolding whole_between
whole_between_sound low high (finite m) n h = ground arith
whole_between_sound low high not_a_number n h = cc
whole_between_sound low high _ n h = cc

pub whole_between_complete :
    (low high n : ℕ)
    → high ≤ max_safe_integer
    → IsWhole low high n
    → whole_between low high (finite n) ≡ some n
unfolding whole_between
whole_between_complete low high n small h = ground arith

round_micros-fixed : (n : ℕ) → n % 1000 ≡ 0 → round_micros n ≡ n
unfolding round_micros
round_micros-fixed n h = omega arith

budget_amount_sound :
    (v : Number) (n : ℕ)
    → budget_amount v ≡ some n
    → (n % 1000 ≡ 0) × (min_budget ≤ n) × (n ≤ max_budget_usd * unit)
unfolding budget_amount
budget_amount_sound (finite m) n h = ground arith
budget_amount_sound not_a_number n h = cc
budget_amount_sound _ n h = cc

budget_amount_complete :
    (n : ℕ)
    → n % 1000 ≡ 0
    → min_budget ≤ n
    → n ≤ max_budget_usd * unit
    → budget_amount (finite n) ≡ some n
unfolding budget_amount
budget_amount_complete n m low high = ground (arith, round_micros-fixed n)

parse_window-window_text : (w : Window) → parse_window (some (window_text w)) ≡ some w
unfolding parse_window window_text
parse_window-window_text five_hours = refl
parse_window-window_text week = refl
parse_window-window_text month = refl

pub normalize_limits_sound :
    (seen : List Window) (entries : List BudgetLimitInput) (ls : List StoredBudgetLimit)
    → normalize_limits seen entries ≡ ok ls
    → All IsBudget ls × AreDistinct seen ls × (length ls ≡ length entries)
unfolding normalize_limits
normalize_limits_sound seen [] ls e = ground arith
normalize_limits_sound seen (entry ∷ entries) ls e =
    elim (Option-cases (parse_window entry.window)) [
      | inl unknown ↦ ground arith
      | inr (w, known) ↦ elim (Bool-cases (any (same_window w) seen)) [
        | inl again ↦ ground arith
        | inr new ↦ elim (Option-cases (budget_amount entry.max_usd)) [
          | inl bad ↦ ground arith
          | inr (n, good) ↦ elim (Outcome-cases (normalize_limits (w ∷ seen) entries)) [
            | inr (f, failed) ↦ ground arith
            | inl (rest, done) ↦
                let (m, low, high) = budget_amount_sound entry.max_usd n good in
                let (budgets, distinct, count) =
                  normalize_limits_sound (w ∷ seen) entries rest done in
                let whole : ls
                    ≡ record { window = w; max_usd = n; budget_duration = window_duration w }
                      ∷ rest =
                  ground arith in
                rw whole (
                  (
                    record { micros = m; at_least_cent = low; at_most = high; duration = refl },
                    budgets,
                  ),
                  (new, distinct),
                  ap suc count,
                )
          ]
        ]
      ]
    ]

abbrev pub limit_input : StoredBudgetLimit → BudgetLimitInput
limit_input l = record { window = some (window_text l.window); max_usd = finite l.max_usd }

pub normalize_limits_complete :
    (seen : List Window) (ls : List StoredBudgetLimit)
    → All IsBudget ls
    → AreDistinct seen ls
    → normalize_limits seen (map limit_input ls) ≡ ok ls
unfolding normalize_limits
normalize_limits_complete seen [] h d = refl
normalize_limits_complete seen (l ∷ ls) (h, hs) (new, d) = ground (
  arith,
  parse_window-window_text l.window,
  budget_amount_complete l.max_usd h.micros h.at_least_cent h.at_most,
  h.duration,
  normalize_limits_complete (l.window ∷ seen) ls hs d,
)

pub normalize_ttl_sound :
    (never : Bool) (ttl : Option Number) (fallback : ℕ) (out : Option ℕ)
    → normalize_ttl never ttl fallback ≡ ok out
    → IsLifetime never out
unfolding normalize_ttl
normalize_ttl_sound true (some ttl) fallback out e = cc
normalize_ttl_sound true none fallback out e = ground arith
normalize_ttl_sound false ttl fallback out e =
    elim (Option-cases
      (whole_between min_token_ttl_minutes max_token_ttl_minutes (or_else ttl (finite fallback)))) [
        | inl bad ↦ ground arith
        | inr (n, good) ↦
            let same : out ≡ some n = ground arith in rw same (whole_between_sound _ _ _ n good).1
      ]

pub finite_integer_sound :
    (v : Option Number) (max : ℕ) (out : Option ℕ) → finite_integer v max ≡ ok out → IsLimit max out
unfolding finite_integer
finite_integer_sound none max out e = let same : out ≡ none = ground arith in rw same tt
finite_integer_sound (some v) max out e = elim (Option-cases (whole_between 1 max v)) [
  | inl bad ↦ ground arith
  | inr (n, good) ↦
      let same : out ≡ some n = ground arith in rw same (whole_between_sound 1 max v n good).1
]
