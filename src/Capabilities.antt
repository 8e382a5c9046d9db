-- ===== src/Capabilities.antt =====
-- src/assets/skill-capabilities.ts: the capabilities that a skill declares, is granted and asks for.
pub mod Approval
mod Examples
use hara_control.Common.{
  all, has, length, ℕ, String, Bool, true, false, ◌&&◌, ◌||◌, List, [], ◌∷◌, ◌++◌, leb, eqb,
  if◌then◌else◌, forbidden, bad_request, Outcome, ok, ◌>>=◌, ◌>>◌, ensure, text_length,
}
use hara_control.Host.{capability_name, Host}
use hara_control.Crypto.{Script}

pub data AssetKind : Type 0 where
  skill snippet playbook convention knowledge : AssetKind

pub data AssetLifecycle : Type 0 where
  draft in_review published deprecated : AssetLifecycle

abbrev pub max_skill_capabilities : ℕ
max_skill_capabilities = 64

abbrev pub max_skill_capability_length : ℕ
max_skill_capability_length = 160

abbrev pub is_skill : AssetKind → Bool
is_skill skill = true
is_skill _ = false

abbrev pub lifecycle_eqb : AssetLifecycle → AssetLifecycle → Bool
lifecycle_eqb draft draft = true
lifecycle_eqb in_review in_review = true
lifecycle_eqb published published = true
lifecycle_eqb deprecated deprecated = true
lifecycle_eqb _ _ = false

pub assert_asset_lifecycle_state : AssetLifecycle → AssetLifecycle → String → Outcome (Unit {0})
assert_asset_lifecycle_state actual expected operation =
    ensure (lifecycle_eqb actual expected) (bad_request operation)

module _ (script : Script) (host : Host) where
  -- The comparison of the loop; a name of the pattern is ASCII, so its length is its characters'.
  unfoldable pub is_capability_name : String → Bool
  is_capability_name value =
      leb (text_length value) max_skill_capability_length && host.matches capability_name value

  -- normalized.add(value)
  unfoldable pub add_name : List String → String → List String
  add_name seen value = if has seen value then seen else seen ++ value ∷ []

  -- The loop over the values, with the set of the names so far.
  unfoldable pub add_names : String → List String → List String → Outcome (List String)
  add_names label seen [] = ok seen
  add_names label seen (value ∷ values) = do
    ensure (is_capability_name value) (bad_request label)
    add_names label (add_name seen value) values

  unfoldable pub insert_name : String → List String → List String
  insert_name name [] = name ∷ []
  insert_name name (n ∷ rest) =
      let later = insert_name name rest in
      if script.before n name then n ∷ later else name ∷ n ∷ rest

  -- Array.prototype.sort, on distinct texts
  unfoldable pub sort_names : List String → List String
  sort_names [] = []
  sort_names (name ∷ rest) = insert_name name (sort_names rest)

  -- The texts of the errors are cut to the label.
  unfoldable pub normalize_capability_names : List String → String → Outcome (List String)
  normalize_capability_names values label = do
    ensure (leb (length values) max_skill_capabilities) (bad_request label)
    normalized ← add_names label [] values
    ok (sort_names normalized)

  unfoldable pub normalize_required_capabilities : AssetKind → List String → Outcome (List String)
  normalize_required_capabilities kind values = do
    normalized ← normalize_capability_names values "requiredCapabilities"
    ensure (is_skill kind || eqb (length normalized) 0)
        (bad_request "Only SKILL assets may declare execution capabilities")
    ok normalized

  unfoldable pub normalize_granted_capabilities :
      AssetKind → List String → List String → Outcome (List String)
  normalize_granted_capabilities kind required_values granted_values = do
    required ← normalize_required_capabilities kind required_values
    granted ← normalize_capability_names granted_values "grantedCapabilities"
    ensure (is_skill kind || eqb (length granted) 0)
        (bad_request "Only SKILL assets may receive execution capabilities")
    ensure (all (has required) granted)
        (bad_request "A reviewed skill may only receive capabilities it declared")
    ok granted

  -- The loop that refuses the first capability that is not in both sets.
  unfoldable pub assert_approved : List String → List String → List String → Outcome (Unit {0})
  assert_approved required granted [] = ok tt
  assert_approved required granted (capability ∷ rest) = do
    ensure (has required capability && has granted capability) (forbidden capability)
    assert_approved required granted rest

  unfoldable pub assert_skill_capabilities_granted :
      List String → List String → List String → Outcome (List String)
  assert_skill_capabilities_granted required_values granted_values requested_values = do
    required ← normalize_capability_names required_values "requiredCapabilities"
    granted ← normalize_capability_names granted_values "grantedCapabilities"
    requested ← normalize_capability_names requested_values "requestedCapabilities"
    assert_approved required granted requested
    ok requested
