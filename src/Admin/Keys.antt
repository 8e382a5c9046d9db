-- ===== src/Admin/Keys.antt =====
-- The keys that a revocation asks the gateway to revoke.
use hara_control.Common.{
  any-keep, any, keep, All, String, ◌≡◌, refl, sym, subst, inl, inr, Bool, false, Option, none,
  List, [], ◌∷◌, ◌==◌, Bool-cases, is_some, Fault,
}
use hara_control.Enroll.Exchange.{TokenRow}
use hara_control.Enroll.Saga.{other_key}
use hara_control.Admin.{revoke_keys}

-- The key of the token is none that the gateway honours.
abbrev pub is_key_of : TokenRow → String → Bool
is_key_of t k = k == t.gateway_key_id

abbrev pub IsGone : List String → TokenRow → Type 0
IsGone keys t = any (is_key_of t) keys ≡ false

dropped_key :
    (t : TokenRow) (keys : List String)
    → any (is_key_of t) (keep (other_key t.gateway_key_id) keys) ≡ false
unfolding any keep
dropped_key t [] = refl
dropped_key t (k ∷ keys) = elim (Bool-cases (k == t.gateway_key_id)) [
  | inl same ↦ rw same (dropped_key t keys)
  | inr other ↦ rw (other, other) (dropped_key t keys)
]

still-IsGone :
    (faults : String → Option Fault) (s : TokenRow) (tokens : List TokenRow) (keys : List String)
    → IsGone keys s
    → IsGone (revoke_keys faults tokens keys).1 s
unfolding revoke_keys
still-IsGone faults s [] keys h = h
still-IsGone faults s (t ∷ tokens) keys h = elim (Bool-cases (is_some (faults t.gateway_key_id))) [
  | inl thrown ↦ rw thrown h
  | inr passed ↦
      rw passed (
        still-IsGone faults s tokens _ (any-keep (is_key_of s) (other_key t.gateway_key_id) keys h))
]

pub revoke_keys-IsGone :
    (faults : String → Option Fault) (tokens : List TokenRow) (keys : List String)
    → (revoke_keys faults tokens keys).0 ≡ none
    → All (IsGone (revoke_keys faults tokens keys).1) tokens
unfolding revoke_keys
revoke_keys-IsGone faults [] keys e = tt
revoke_keys-IsGone faults (t ∷ tokens) keys e =
    elim (Bool-cases (is_some (faults t.gateway_key_id))) [
      | inl thrown ↦
          let no : faults t.gateway_key_id ≡ none = rw thrown at e in cc (rw no at thrown)
      | inr passed ↦
          let step : revoke_keys faults (t ∷ tokens) keys
              ≡ revoke_keys faults tokens (keep (other_key t.gateway_key_id) keys) =
            rw passed refl in
          subst (λ r. All (IsGone r.1) (t ∷ tokens)) (sym step)
            (
              still-IsGone faults t tokens _ (dropped_key t keys),
              revoke_keys-IsGone faults tokens _ (rw passed at e),
            )
    ]
