-- ===== src/Models/Examples.antt =====
-- A deployment with its two canonical models, and a code with the name of an older one.
use hara_control.Common.{
  find, any, all, keep, has, String, ◌≡◌, refl, true, none, some, List, ◌==◌, if◌then◌else◌, ok,
}
use hara_control.Host.{Host}
use hara_control.Host.Plain.{plain}
use hara_control.Tokens.{Env}
use hara_control.Models.{
  legacy_alias, canonical_managed_model_id, configured_models, models_or_default,
  allowed_managed_models, or_default_model, resolve_enrollment_model, enrollment_managed_models,
}
use hara_control.Models.Laws.{HasTrim, resolve_enrollment_model-carried}

-- A host that accepts every model id and splits nothing.
abbrev accepting : Host
accepting = record plain { matches = λ p s. true }

accepting-HasTrim : HasTrim accepting
accepting-HasTrim = record {
  again = λ s. refl;
  flash = refl;
  pro = refl;
  inherited = (
    refl,
    (refl, (refl, (refl, (refl, (refl, (refl, (refl, (refl, (refl, (refl, (refl, tt))))))))))),
  );
}

abbrev litellm : Env
litellm = λ name. if name == "GATEWAY_ADAPTER" then some "litellm" else none

chat_resolves :
    resolve_enrollment_model accepting litellm (some "deepseek-chat") ≡ ok "deepseek-v4-flash"
unfolding resolve_enrollment_model allowed_managed_models configured_models models_or_default
    canonical_managed_model_id legacy_alias or_default_model has any all keep find
chat_resolves = refl

resolve_enrollment_model-carried_example :
    (models : List String) × (enrollment_managed_models accepting litellm "deepseek-v4-flash"
      ≡ ok models)
    × (has models "deepseek-v4-flash" ≡ true)
resolve_enrollment_model-carried_example =
    resolve_enrollment_model-carried accepting accepting-HasTrim litellm (some "deepseek-chat")
      "deepseek-v4-flash" chat_resolves refl
