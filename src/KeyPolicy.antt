-- ===== src/KeyPolicy.antt =====
-- src/gateway/key-policy.ts: what an administrator may ask of a device key, and the form in which it
-- is stored with an enrollment code. Amounts are finite counts of billionths; a product and a
-- quotient of doubles by a power of ten is taken as exact.
pub mod Laws
pub mod Storage
mod Examples
use hara_control.Common.{
  any, length, ℕ, ◌+◌, ◌*◌, ◌/◌, ◌%◌, String, Bool, true, false, not, ◌&&◌, Option, none, some,
  List, [], ◌∷◌, map, ◌==◌, leb, eqb, if◌then◌else◌, does, or_else, failure, Outcome, ok, err,
  ◌>>=◌, ◌>>◌, ensure, require,
}
use hara_control.Host.Numbers.{Number, finite, unit}

pub data Window : Type 0 where
  five_hours week month : Window

pub Window-discrete : Discrete Window
Window-discrete = hlevel

pub data Duration : Type 0 where
  h5 d7 d30 : Duration

-- ACCESS_BUDGET_WINDOWS.includes; what is no text is `none`
pub parse_window : Option String → Option Window
parse_window none = none
parse_window (some text) =
    if text == "5h"
    then some five_hours
    else if text == "week"
    then some week
    else if text == "month"
    then some month
    else none

pub window_text : Window → String
window_text five_hours = "5h"
window_text week = "week"
window_text month = "month"

-- WINDOW_DURATION
pub window_duration : Window → Duration
window_duration five_hours = h5
window_duration week = d7
window_duration month = d30

pub record BudgetLimitInput : Type 0 where
  pub window : Option String
  pub max_usd : Number

pub record StoredBudgetLimit : Type 0 where
  pub window : Window
  pub max_usd : ℕ
  pub budget_duration : Duration

pub record PolicyInput : Type 0 where
  pub token_ttl_minutes : Option Number
  pub token_never_expires : Option Bool
  pub budget_limits : Option (List BudgetLimitInput)
  pub rpm_limit : Option Number
  pub tpm_limit : Option Number

pub record StoredPolicy : Type 0 where
  pub token_ttl_minutes : Option ℕ
  pub token_never_expires : Bool
  pub budget_limits : List StoredBudgetLimit
  pub rpm_limit : Option ℕ
  pub tpm_limit : Option ℕ

abbrev pub min_token_ttl_minutes : ℕ
min_token_ttl_minutes = 5

abbrev pub max_token_ttl_minutes : ℕ
max_token_ttl_minutes = 365 * 24 * 60

abbrev pub max_budget_usd : ℕ
max_budget_usd = 1000000

abbrev pub max_rpm_limit : ℕ
max_rpm_limit = 1000000

abbrev pub max_tpm_limit : ℕ
max_tpm_limit = 1000000000

abbrev pub max_safe_integer : ℕ
max_safe_integer = 9007199254740991

-- Number.isSafeInteger(v) && low <= v && v <= high, for low above 0
pub whole_between : ℕ → ℕ → Number → Option ℕ
whole_between low high (finite n) =
    if eqb (n % unit) 0
      && leb n (max_safe_integer * unit)
      && (leb (low * unit) n && leb n (high * unit))
    then some n
    else none
whole_between low high _ = none

unfoldable pub finite_integer : Option Number → ℕ → Outcome (Option ℕ)
finite_integer none max = ok none
finite_integer (some value) max = do
  n ← require (whole_between 1 max value) (failure "must be a whole number in range")
  ok (some n)

-- Math.round(v * 1_000_000) / 1_000_000
pub round_micros : ℕ → ℕ
round_micros n = (n + 500) / 1000 * 1000

abbrev pub min_budget : ℕ
min_budget = 10000000

pub budget_amount : Number → Option ℕ
unfolding round_micros
budget_amount (finite n) =
    if leb min_budget n && leb n (max_budget_usd * unit) then some (round_micros n) else none
budget_amount _ = none

abbrev pub same_window : Window → Window → Bool
same_window a b = does (Window-discrete a b)

abbrev pub has_window : Window → StoredBudgetLimit → Bool
has_window w l = same_window l.window w

-- The loop over the requested limits; `seen` holds those accepted so far.
unfoldable pub normalize_limits :
    List Window → List BudgetLimitInput → Outcome (List StoredBudgetLimit)
normalize_limits seen [] = ok []
normalize_limits seen (entry ∷ entries) = elim (parse_window entry.window) [
  | none ↦ err (failure "budget window must be one of: 5h, week, month")
  | some w ↦ do
    ensure (not (any (same_window w) seen)) (failure "duplicate budget window")
    amount ← require (budget_amount entry.max_usd) (failure "budget maxUsd out of range")
    rest ← normalize_limits (w ∷ seen) entries
    ok (record { window = w; max_usd = amount; budget_duration = window_duration w } ∷ rest)
]

abbrev pub is_true : Option Bool → Bool
is_true (some true) = true
is_true _ = false

-- The lifetime of the token; the default is a finite count of billionths of a minute.
unfoldable pub normalize_ttl : Bool → Option Number → ℕ → Outcome (Option ℕ)
normalize_ttl true (some ttl) fallback =
    err (failure "tokenNeverExpires cannot be combined with tokenTtlMinutes")
normalize_ttl true none fallback = ok none
normalize_ttl false ttl fallback = do
  n ←
      require
        (whole_between min_token_ttl_minutes max_token_ttl_minutes (or_else ttl (finite fallback)))
        (failure "tokenTtlMinutes must be a whole number in range")
  ok (some n)

unfoldable pub normalize_access_key_policy : PolicyInput → ℕ → Outcome StoredPolicy
normalize_access_key_policy input fallback = do
  let never = is_true input.token_never_expires
  ttl ← normalize_ttl never input.token_ttl_minutes fallback
  let source = or_else input.budget_limits []
  ensure (leb (length source) 3)
      (failure "budgetLimits may contain at most one 5h, week, and month window")
  limits ← normalize_limits [] source
  rpm ← finite_integer input.rpm_limit max_rpm_limit
  tpm ← finite_integer input.tpm_limit max_tpm_limit
  ok record {
    token_ttl_minutes = ttl;
    token_never_expires = never;
    budget_limits = limits;
    rpm_limit = rpm;
    tpm_limit = tpm;
  }

pub record GatewayBudgetLimit : Type 0 where
  pub budget_duration : Duration
  pub max_budget_usd : ℕ

pub record GatewayKeyLimits : Type 0 where
  pub budget_limits : List GatewayBudgetLimit
  pub rpm_limit : Option ℕ
  pub tpm_limit : Option ℕ

pub gateway_limits : StoredPolicy → GatewayKeyLimits
gateway_limits policy = record {
  budget_limits =
      map (λ l. record { budget_duration = l.budget_duration; max_budget_usd = l.max_usd })
        policy.budget_limits;
  rpm_limit = policy.rpm_limit;
  tpm_limit = policy.tpm_limit;
}

-- An entry of the stored JSON: an object's window and Number(maxUsd), or no object.
pub data RawLimit : Type 0 where
  malformed : RawLimit
  row : Option String → Number → RawLimit

-- The columns as they are read back; `none` for limits that are no array.
pub record StoredColumns : Type 0 where
  pub token_ttl_minutes : Option Number
  pub token_never_expires : Bool
  pub budget_limits : Option (List RawLimit)
  pub rpm_limit : Option Number
  pub tpm_limit : Option Number

unfoldable pub read_limits : List RawLimit → Outcome (List BudgetLimitInput)
read_limits [] = ok []
read_limits (malformed ∷ rows) = err (failure "stored budget limit is malformed")
read_limits (row window max_usd ∷ rows) = do
  rest ← read_limits rows
  ok (record { window = window; max_usd = max_usd } ∷ rest)

unfoldable pub parse_stored_access_key_policy : StoredColumns → ℕ → Outcome StoredPolicy
parse_stored_access_key_policy input fallback = do
  limits ← read_limits (or_else input.budget_limits [])
  normalize_access_key_policy
      (record {
        token_ttl_minutes =
            if input.token_never_expires
            then none
            else some (or_else input.token_ttl_minutes (finite fallback));
        token_never_expires = if input.token_never_expires then some true else none;
        budget_limits = some limits;
        rpm_limit = input.rpm_limit;
        tpm_limit = input.tpm_limit;
      })
      fallback
