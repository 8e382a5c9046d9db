-- ===== src/Tokens/Examples.antt =====
-- The token check at a concrete token.
use hara_control.Common.{◌*◌, ◌≡◌, refl, ◌↔◌, none, some, unauthorized, forbidden, ok, err}
use hara_control.Host.Plain.{plain}
use hara_control.Host.Numbers.{finite, unit, positive_or, at_least}
use hara_control.Tokens.{ValidatableToken, Env, device_spend_cap_usd, over_cap, assert_token_usable}
use hara_control.Tokens.Laws.{IsUsable, assert_token_usable_iff}

abbrev capped_env : Env
capped_env name = some "9"

abbrev token : ValidatableToken
token = record { revoked_at = none; expires_at = some 50; device_id = "d"; gateway_key_id = "k" }

assert_token_usable_iff_example :
    (assert_token_usable plain capped_env (some (λ t. finite 5)) 49 (some token) ≡ ok tt) ↔ (
      (t : ValidatableToken) × (some token ≡ some t)
      × IsUsable (device_spend_cap_usd plain capped_env) (some (λ t. finite 5)) 49 t)
assert_token_usable_iff_example =
    assert_token_usable_iff plain capped_env (some (λ t. finite 5)) 49 (some token)

usable_before_expiry :
    assert_token_usable plain capped_env (some (λ t. finite 5)) 49 (some token) ≡ ok tt
unfolding assert_token_usable over_cap device_spend_cap_usd at_least positive_or
usable_before_expiry = refl

refused_at_expiry :
    assert_token_usable plain capped_env none 50 (some token)
    ≡ err (unauthorized "token expired — re-enroll the device")
unfolding assert_token_usable
refused_at_expiry = refl

refused_at_cap :
    assert_token_usable plain capped_env (some (λ t. finite (9 * unit))) 49 (some token)
    ≡ err (forbidden "device spend cap reached")
unfolding assert_token_usable over_cap device_spend_cap_usd at_least positive_or
refused_at_cap = refl
