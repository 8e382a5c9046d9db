-- ===== src/KeyPolicy/Examples.antt =====
-- Key policies at concrete requests.
use hara_control.Common.{any, ℕ, ◌*◌, ◌≡◌, refl, false, none, some, [], ◌∷◌, ok}
use hara_control.Host.Numbers.{finite, unit}
use hara_control.KeyPolicy.{
  five_hours, week, Window-discrete, h5, d7, parse_window, window_duration, PolicyInput,
  StoredPolicy, whole_between, finite_integer, budget_amount, normalize_limits, normalize_ttl,
  normalize_access_key_policy, parse_stored_access_key_policy,
}
use hara_control.KeyPolicy.Laws.{IsValid}
use hara_control.KeyPolicy.Storage.{normalize-IsValid, columns, policy_round_trip}

-- One week by default, 1.2345678 dollars in five hours and 20 dollars in a week.
abbrev request : PolicyInput
request = record {
  token_ttl_minutes = none;
  token_never_expires = none;
  budget_limits = some (
      record { window = some "5h"; max_usd = finite 1234567800 }
      ∷ record { window = some "week"; max_usd = finite (20 * unit) }
      ∷ []);
  rpm_limit = some (finite (60 * unit));
  tpm_limit = none;
}

abbrev default_ttl : ℕ
default_ttl = 7 * 24 * 60 * unit

abbrev stored : StoredPolicy
stored = record {
  token_ttl_minutes = some (7 * 24 * 60 * unit);
  token_never_expires = false;
  budget_limits =
      record { window = five_hours; max_usd = 1234568000; budget_duration = h5 }
      ∷ record { window = week; max_usd = 20 * unit; budget_duration = d7 }
      ∷ [];
  rpm_limit = some (60 * unit);
  tpm_limit = none;
}

request_stored : normalize_access_key_policy request default_ttl ≡ ok stored
unfolding normalize_access_key_policy normalize_ttl whole_between normalize_limits parse_window
    budget_amount window_duration finite_integer Window-discrete any
request_stored = refl

normalize-IsValid_example : IsValid stored
normalize-IsValid_example = normalize-IsValid request default_ttl stored request_stored

policy_round_trip_example : parse_stored_access_key_policy (columns stored) 0 ≡ ok stored
policy_round_trip_example = policy_round_trip request default_ttl 0 stored request_stored
