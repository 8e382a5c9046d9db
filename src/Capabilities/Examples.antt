-- ===== src/Capabilities/Examples.antt =====
-- Capabilities of a skill, under a host whose name pattern fits every text.
use hara_control.Common.{any, all, has, ◌≡◌, refl, true, [], ◌∷◌, ◌==◌, bad_request, ok, err}
use hara_control.Host.{Host}
use hara_control.Host.Plain.{plain}
use hara_control.Crypto.{Script}
use hara_control.Capabilities.{
  skill, is_capability_name, add_name, add_names, insert_name, sort_names,
  normalize_capability_names, normalize_required_capabilities, normalize_granted_capabilities,
  assert_approved, assert_skill_capabilities_granted,
}
use hara_control.Capabilities.Approval.{
  assert_skill_capabilities_granted-approved, normalize_granted-declared,
}

abbrev script : Script
script = record { quote = λ s. s; decimal = λ n. "0"; before = λ k l. k == "a" }

abbrev matching : Host
matching = record plain { matches = λ p s. true }

granted_one :
    assert_skill_capabilities_granted script matching ("b" ∷ "a" ∷ []) ("a" ∷ "b" ∷ []) ("b" ∷ [])
    ≡ ok ("b" ∷ [])
unfolding assert_skill_capabilities_granted normalize_capability_names add_names add_name
    is_capability_name sort_names insert_name assert_approved has any
granted_one = refl

assert_skill_capabilities_granted-approved_example :
    (has ("b" ∷ []) "b" ≡ true)
    × (has ("b" ∷ "a" ∷ []) "b" ≡ true)
    × (has ("a" ∷ "b" ∷ []) "b" ≡ true)
unfolding has any
assert_skill_capabilities_granted-approved_example =
    assert_skill_capabilities_granted-approved script matching ("b" ∷ "a" ∷ []) ("a" ∷ "b" ∷ [])
      ("b" ∷ []) granted_one "b" refl

reviewed :
    normalize_granted_capabilities script matching skill ("b" ∷ "a" ∷ []) ("b" ∷ "b" ∷ [])
    ≡ ok ("b" ∷ [])
unfolding normalize_granted_capabilities normalize_required_capabilities normalize_capability_names
    add_names add_name is_capability_name sort_names insert_name has any all
reviewed = refl

normalize_granted-declared_example :
    (has ("b" ∷ "b" ∷ []) "b" ≡ true) × (has ("b" ∷ "a" ∷ []) "b" ≡ true) × (skill ≡ skill)
unfolding has any
normalize_granted-declared_example =
    normalize_granted-declared script matching skill ("b" ∷ "a" ∷ []) ("b" ∷ "b" ∷ []) reviewed "b"
      refl

refused :
    normalize_granted_capabilities script matching skill ("a" ∷ []) ("b" ∷ [])
    ≡ err (bad_request "A reviewed skill may only receive capabilities it declared")
unfolding normalize_granted_capabilities normalize_required_capabilities normalize_capability_names
    add_names add_name is_capability_name sort_names insert_name has any all
refused = refl
