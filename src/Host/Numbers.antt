-- ===== src/Host/Numbers.antt =====
-- JavaScript numbers, as far as the services look at them: a finite one is a count of billionths.
use hara_control.Common.{ℕ, suc, Bool, true, false, leb}

pub data Number : Type 0 where
  not_a_number infinite minus_infinite : Number
  -- negative n is -(n + 1) billionths
  negative : ℕ → Number
  finite : ℕ → Number

abbrev pub unit : ℕ
unit = 1000000000

-- Number.isFinite(v) && v > 0 ? v : fallback
unfoldable pub positive_or : ℕ → Number → ℕ
positive_or fallback (finite (suc n)) = suc n
positive_or fallback _ = fallback

-- v >= bound, for a bound that is not negative
unfoldable pub at_least : Number → ℕ → Bool
at_least (finite n) bound = leb bound n
at_least infinite bound = true
at_least _ bound = false
