-- ===== src/Tokens.antt =====
-- src/security/token-discipline.ts: the one check that every use of a device token passes.
-- Times are milliseconds since the epoch; spend and caps are billionths of a dollar.
pub mod Laws
mod Examples
use hara_control.Common.{
  ℕ, ◌+◌, ◌*◌, ◌/◌, String, Bool, false, not, ◌&&◌, Option, none, some, ltb, leb, is_some,
  unauthorized, forbidden, Outcome, err, ◌>>=◌, ◌>>◌, ensure,
}
use hara_control.Host.{Host}
use hara_control.Host.Numbers.{Number, unit, positive_or, at_least}

pub record ValidatableToken : Type 0 where
  pub revoked_at : Option ℕ
  pub expires_at : Option ℕ
  pub device_id : String
  pub gateway_key_id : String

-- process.env
abbrev pub Env : Type 0
Env = String → Option String

-- 7 days, in billionths of a minute
abbrev pub default_device_token_ttl_minutes : ℕ
default_device_token_ttl_minutes = 7 * 24 * 60 * unit

unfoldable pub device_token_ttl_minutes : Host → Env → ℕ
unfolding positive_or
device_token_ttl_minutes host env =
    positive_or default_device_token_ttl_minutes (host.number (env "HARA_DEVICE_TOKEN_TTL_MINUTES"))

-- A `Date` drops the fraction of a millisecond.
pub device_token_expiry : ℕ → ℕ → ℕ
device_token_expiry now ttl_minutes = now + ttl_minutes * 60000 / unit

-- 0 is uncapped
unfoldable pub device_spend_cap_usd : Host → Env → ℕ
unfolding positive_or
device_spend_cap_usd host env = positive_or 0 (host.number (env "HARA_DEVICE_SPEND_CAP_USD"))

abbrev pub expired : ℕ → Option ℕ → Bool
expired now none = false
expired now (some at) = leb at now

-- The spend hook: it acts only with a cap and a checker.
unfoldable pub over_cap : ℕ → Option (ValidatableToken → Number) → ValidatableToken → Bool
unfolding at_least
over_cap cap none token = false
over_cap cap (some spent) token = ltb 0 cap && at_least (spent token) cap

unfoldable pub assert_token_usable :
    Host
    → Env
    → Option (ValidatableToken → Number)
    → ℕ
    → Option ValidatableToken
    → Outcome (Unit {0})
assert_token_usable host env checker now none = err (unauthorized "revoked or unknown token")
assert_token_usable host env checker now (some token) = do
  ensure (not (is_some token.revoked_at)) (unauthorized "revoked or unknown token")
  ensure (not (expired now token.expires_at)) (unauthorized "token expired — re-enroll the device")
  ensure (not (over_cap (device_spend_cap_usd host env) checker token))
      (forbidden "device spend cap reached")
