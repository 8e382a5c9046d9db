-- ===== src/Models.antt =====
-- src/providers/model-policy.ts: the models that a deployment offers to the enrolled devices.
pub mod Laws
mod Examples
use hara_control.Common.{
  find, any, all, keep, has, ℕ, String, Bool, true, false, not, ◌&&◌, Option, none, some, List, [],
  ◌∷◌, ◌++◌, map, ◌==◌, if◌then◌else◌, or_else, failure, Outcome, ok, ensure, ◌>>=◌, ◌>>◌,
}
use hara_control.Host.{safe_model_id, Host}
use hara_control.Tokens.{Env}

abbrev pub default_managed_models : List String
default_managed_models =
    "deepseek-v4-flash" ∷ "deepseek-v4-pro" ∷ "deepseek-v4-flash-vision-exp" ∷ []

-- What every object literal inherits: the names of Object.prototype, each with the text that its
-- value prints as, which is what SAFE_MODEL_ID tests.
abbrev pub inherited_members : List (String × String)
inherited_members =
    ("constructor", "function Object() { [native code] }")
    ∷ ("hasOwnProperty", "function hasOwnProperty() { [native code] }")
    ∷ ("isPrototypeOf", "function isPrototypeOf() { [native code] }")
    ∷ ("propertyIsEnumerable", "function propertyIsEnumerable() { [native code] }")
    ∷ ("toString", "function toString() { [native code] }")
    ∷ ("valueOf", "function valueOf() { [native code] }")
    ∷ ("toLocaleString", "function toLocaleString() { [native code] }")
    ∷ ("__defineGetter__", "function __defineGetter__() { [native code] }")
    ∷ ("__defineSetter__", "function __defineSetter__() { [native code] }")
    ∷ ("__lookupGetter__", "function __lookupGetter__() { [native code] }")
    ∷ ("__lookupSetter__", "function __lookupSetter__() { [native code] }")
    ∷ ("__proto__", "[object Object]")
    ∷ []

abbrev pub value_or : String → Option (String × String) → String
value_or model none = model
value_or model (some (name, value)) = value

-- LEGACY_MANAGED_MODEL_ALIASES[model] ?? model
unfoldable pub legacy_alias : String → String
legacy_alias model =
    if model == "deepseek-chat"
    then "deepseek-v4-flash"
    else if model == "deepseek-pro"
    then "deepseek-v4-pro"
    else value_or model (find (λ m. m.0 == model) inherited_members)

pub record Details : Type 0 where
  pub provider : String
  pub family : String
  pub tier : String
  pub context_window_tokens : Option ℕ
  pub max_output_tokens : Option ℕ
  pub thinking_efforts : List String
  pub input_modalities : List String

abbrev pub deepseek_v4 : String → List String → Details
deepseek_v4 tier modalities = record {
  provider = "deepseek";
  family = "deepseek-v4";
  tier = tier;
  context_window_tokens = some 1000000;
  max_output_tokens = some 384000;
  thinking_efforts = "off" ∷ "low" ∷ "high" ∷ "max" ∷ [];
  input_modalities = modalities;
}

-- DEEPSEEK_V4_DETAILS[model]
unfoldable pub deepseek_v4_details : String → Option Details
deepseek_v4_details model =
    if model == "deepseek-v4-flash"
    then some (deepseek_v4 "flash" ("text" ∷ []))
    else if model == "deepseek-v4-pro"
    then some (deepseek_v4 "pro" ("text" ∷ []))
    else if model == "deepseek-v4-flash-vision-exp"
    then some (deepseek_v4 "vision" ("text" ∷ "image" ∷ []))
    else none

abbrev pub custom : Details
custom = record {
  provider = "custom";
  family = "custom";
  tier = "custom";
  context_window_tokens = none;
  max_output_tokens = none;
  thinking_efforts = [];
  input_modalities = "text" ∷ [];
}

pub record ManagedModelOption : Type 0 where
  pub id : String
  pub details : Details
  pub is_default : Bool

-- [...new Set(values)], the values not yet `seen`
unfoldable pub distinct_from : List String → List String → List String
distinct_from seen [] = []
distinct_from seen (v ∷ values) =
    let rest = distinct_from (v ∷ seen) values in
    if has seen v then distinct_from seen values else v ∷ rest

abbrev pub first_or : String → List String → String
first_or other [] = other
first_or other (s ∷ rest) = s

-- value || other, of a text that may be absent
abbrev pub text_or : Option String → String → String
text_or none other = other
text_or (some s) other = if s == "" then other else s

unfoldable pub thinking_of : Option Details → List String
thinking_of none = []
thinking_of (some details) = details.thinking_efforts

abbrev pub is_empty : List String → Bool
is_empty [] = true
is_empty (e ∷ rest) = false

module _ (host : Host) where
  unfoldable pub canonical_managed_model_id : String → String
  canonical_managed_model_id model = legacy_alias (host.trim model)

  unfoldable pub managed_model_thinking_efforts : String → List String
  managed_model_thinking_efforts model =
      thinking_of (deepseek_v4_details (canonical_managed_model_id model))

  unfoldable pub managed_model_capabilities : List String → List (String × List String)
  managed_model_capabilities models = map (λ m. (m, managed_model_thinking_efforts m)) models

  unfoldable pub resolve_enrollment_reasoning_effort : Option String → String → Outcome String
  resolve_enrollment_reasoning_effort requested model =
      let effort = host.trim (or_else requested "") in
      if effort == "" then ok "" else do
        ensure (has (managed_model_thinking_efforts model) effort)
            (failure "model does not support reasoning effort")
        ok effort

  -- Every model's efforts are there, and each of the later models has the effort.
  abbrev pub shared_by : List String → String → Bool
  shared_by models effort = all (λ m. has (managed_model_thinking_efforts m) effort) models

  unfoldable pub managed_models_thinking_efforts : List String → List String
  managed_models_thinking_efforts [] = []
  managed_models_thinking_efforts (m ∷ models) =
      if any (λ x. is_empty (managed_model_thinking_efforts x)) (m ∷ models)
      then []
      else keep (shared_by models) (managed_model_thinking_efforts m)

  module _ (env : Env) where
    unfoldable pub configured_models : List String
    configured_models =
        keep (λ m. not (m == ""))
          (map canonical_managed_model_id (host.split "," (or_else (env "HARA_ALLOWED_MODELS") "")))

    unfoldable pub models_or_default : List String → List String
    models_or_default [] = default_managed_models
    models_or_default (m ∷ models) = distinct_from [] (m ∷ models)

    unfoldable pub allowed_managed_models : Outcome (List String)
    allowed_managed_models = do
      let models = models_or_default configured_models
      ensure (all (host.matches safe_model_id) models)
          (failure "HARA_ALLOWED_MODELS contains an invalid model id")
      ok models

    unfoldable pub default_managed_model : Outcome String
    default_managed_model = do
      allowed ← allowed_managed_models
      let model =
          canonical_managed_model_id (text_or (env "HARA_DEFAULT_MODEL") (first_or "" allowed))
      ensure (has allowed model)
          (failure "HARA_DEFAULT_MODEL must be present in HARA_ALLOWED_MODELS")
      ok model

    abbrev pub option_of : String → String → ManagedModelOption
    unfolding deepseek_v4_details
    option_of selected id = record {
      id = id;
      details = or_else (deepseek_v4_details id) custom;
      is_default = id == selected;
    }

    pub managed_model_options : Outcome (List ManagedModelOption)
    managed_model_options = do
      selected ← default_managed_model
      allowed ← allowed_managed_models
      ok (map (option_of selected) allowed)

    -- env.GATEWAY_ADAPTER === "litellm"
    abbrev pub is_litellm : Bool
    is_litellm = or_else (env "GATEWAY_ADAPTER") "" == "litellm"

    -- model || defaultManagedModel(env)
    unfoldable pub or_default_model : String → Outcome String
    or_default_model model = if model == "" then default_managed_model else ok model

    unfoldable pub resolve_enrollment_model : Option String → Outcome String
    resolve_enrollment_model requested =
        let requested_model = host.trim (or_else requested "") in
        if not is_litellm then ok requested_model else do
          allowed ← allowed_managed_models
          resolved ← or_default_model (canonical_managed_model_id requested_model)
          ensure (has allowed resolved) (failure "model is not allowed by this Hara deployment")
          ok resolved

    -- selected ? [selected] : []
    abbrev pub single : String → List String
    single selected = if selected == "" then [] else selected ∷ []

    unfoldable pub enrollment_managed_models : String → Outcome (List String)
    enrollment_managed_models selected = if not is_litellm then ok (single selected) else do
      models ← allowed_managed_models
      resolved ← resolve_enrollment_model (some selected)
      ensure (has models resolved) (failure "model is not allowed by this Hara deployment")
      ok models

    pub managed_models_for_recorded_token : String → Outcome (List String)
    managed_models_for_recorded_token selected = if not is_litellm then ok (single selected) else do
      models ← allowed_managed_models
      resolved ← or_default_model (canonical_managed_model_id selected)
      ok (if has models resolved then models else [])

  unfoldable pub managed_key_authorization_models : String → List String → List String
  managed_key_authorization_models stored_model catalog =
      let models = distinct_from [] catalog in
      let legacy = host.trim stored_model in
      if (not (legacy == "") && not (canonical_managed_model_id legacy == legacy))
        && not (has models legacy)
      then models ++ legacy ∷ []
      else models
