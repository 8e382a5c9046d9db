-- ===== src/Tokens/Laws.antt =====
-- When a device token is usable.
use hara_control.Common.{
  ℕ, ◌<◌, ◌≡◌, refl, ◌↔◌, inl, inr, false, Option, none, some, arith, Option-cases, ok,
}
use hara_control.Host.{Host}
use hara_control.Host.Numbers.{Number, at_least}
use hara_control.Tokens.{ValidatableToken, Env, device_spend_cap_usd, over_cap, assert_token_usable}

-- What a usable token is, apart from the order of the checks.
pub record IsUsable (cap : ℕ) (checker : Option (ValidatableToken → Number)) (now : ℕ)
    (token : ValidatableToken) : Type 0 where
  pub not_revoked : token.revoked_at ≡ none
  pub not_expired : (at : ℕ) → token.expires_at ≡ some at → now < at
  pub under_cap :
      (spent : ValidatableToken → Number)
      → checker ≡ some spent
      → 0 < cap
      → at_least (spent token) cap ≡ false

module _ (host : Host) (env : Env) (checker : Option (ValidatableToken → Number)) (now : ℕ) where
  assert_token_usable_sound :
      (token : ValidatableToken)
      → assert_token_usable host env checker now (some token) ≡ ok tt
      → IsUsable (device_spend_cap_usd host env) checker now token
  unfolding assert_token_usable over_cap
  assert_token_usable_sound token h = record {
    not_revoked = ground arith;
    not_expired = λ at e. ground arith;
    under_cap = λ spent e positive. ground arith;
  }

  assert_token_usable_complete :
      (token : ValidatableToken)
      → IsUsable (device_spend_cap_usd host env) checker now token
      → assert_token_usable host env checker now (some token) ≡ ok tt
  unfolding assert_token_usable over_cap
  assert_token_usable_complete token u = elim (Option-cases token.expires_at) [
    | inl forever ↦ elim (Option-cases checker) [
      | inl off ↦ rw (u.not_revoked, forever, off)
      | inr (spent, hooked) ↦
          rw (u.not_revoked, forever, hooked) (ground (arith, u.under_cap spent hooked))
    ]
    | inr (at, until) ↦ elim (Option-cases checker) [
      | inl off ↦ rw (u.not_revoked, until, off) (ground (arith, u.not_expired at until))
      | inr (spent, hooked) ↦
          rw (u.not_revoked, until, hooked)
            (ground (arith, u.not_expired at until, u.under_cap spent hooked))
    ]
  ]

  -- A token passes exactly when it is stored, not revoked, not expired, and below a cap that is
  -- configured with a checker.
  pub assert_token_usable_iff :
      (token : Option ValidatableToken)
      → (assert_token_usable host env checker now token ≡ ok tt) ↔ (
          (t : ValidatableToken) × (token ≡ some t)
          × IsUsable (device_spend_cap_usd host env) checker now t)
  unfolding assert_token_usable
  assert_token_usable_iff none = (λ h. cc, λ (t, e, u). cc)
  assert_token_usable_iff (some token) = (
    λ h. (token, refl, assert_token_usable_sound token h),
    λ (t, e, u). let same : token ≡ t = cc in rw same (assert_token_usable_complete t u),
  )
