-- ===== src/Models/Laws.antt =====
-- The model that an enrollment resolves is one that its connection carries, and the dial that the
-- connection shows works for each of its models.
use hara_control.Common.{
  All-map, All-both, find, any, all, keep, has, All, find-All, All-keep, keep-true, String, ◌≡◌,
  refl, ap, ◌∙◌, inl, inr, Bool, true, false, Option, some, List, [], ◌∷◌, arith, ◌==◌, eq_refl,
  if◌then◌else◌, Bool-cases, Option-cases, or_else, failure, ok, ensure, >>=-eq-ok, ensure_lem,
}
use hara_control.Host.{Host}
use hara_control.Tokens.{Env}
use hara_control.Models.{
  inherited_members, legacy_alias, first_or, text_or, is_empty, canonical_managed_model_id,
  managed_model_thinking_efforts, shared_by, managed_models_thinking_efforts,
  allowed_managed_models, default_managed_model, is_litellm, or_default_model,
  resolve_enrollment_model, enrollment_managed_models,
}

-- What `trim` does: it leaves no padding, and names without padding alone.
pub record HasTrim (host : Host) : Type 0 where
  pub again : (s : String) → host.trim (host.trim s) ≡ host.trim s
  pub flash : host.trim "deepseek-v4-flash" ≡ "deepseek-v4-flash"
  pub pro : host.trim "deepseek-v4-pro" ≡ "deepseek-v4-pro"
  pub inherited : All (λ m. host.trim m.1 ≡ m.1) inherited_members

-- No inherited value is an alias.
inherited-alias : All (λ m. legacy_alias m.1 ≡ m.1) inherited_members
unfolding legacy_alias find
inherited-alias = (
  refl,
  (refl, (refl, (refl, (refl, (refl, (refl, (refl, (refl, (refl, (refl, (refl, tt))))))))))),
)

flash-alias : legacy_alias "deepseek-v4-flash" ≡ "deepseek-v4-flash"
unfolding legacy_alias find
flash-alias = refl

pro-alias : legacy_alias "deepseek-v4-pro" ≡ "deepseek-v4-pro"
unfolding legacy_alias find
pro-alias = refl

module _ (host : Host) (trims : HasTrim host) where
  canonical_again :
      (s : String)
      → canonical_managed_model_id host (canonical_managed_model_id host s)
        ≡ canonical_managed_model_id host s
  unfolding canonical_managed_model_id legacy_alias
  canonical_again s = elim (Bool-cases (host.trim s == "deepseek-chat")) [
    | inl chat ↦ rw (chat, trims.flash) flash-alias
    | inr other ↦ elim (Bool-cases (host.trim s == "deepseek-pro")) [
      | inl pro ↦ rw (other, pro, trims.pro) pro-alias
      | inr unlisted ↦ elim (Option-cases (find (λ m. m.0 == host.trim s) inherited_members)) [
        | inl own ↦ rw (other, unlisted, own, trims.again s, other, unlisted, own) refl
        | inr (m, found) ↦
            let (fixed, _) =
              find-All (λ x. legacy_alias x.1 ≡ x.1) (λ x. x.0 == host.trim s) inherited_members
                found inherited-alias in
            let (padless, _) =
              find-All (λ x. host.trim x.1 ≡ x.1) (λ x. x.0 == host.trim s) inherited_members found
                trims.inherited in
            rw (other, unlisted, found) (ap legacy_alias padless ∙ fixed)
      ]
    ]
  ]

  canonical_trim :
      (s : String)
      → canonical_managed_model_id host (host.trim s) ≡ canonical_managed_model_id host s
  unfolding canonical_managed_model_id
  canonical_trim s = ap legacy_alias (trims.again s)

  -- A model that is its own canonical name resolves to itself, if the deployment allows it.
  resolved_again :
      (env : Env) (m : String) (allowed : List String)
      → is_litellm host env ≡ true
      → allowed_managed_models host env ≡ ok allowed
      → or_default_model host env (canonical_managed_model_id host m) ≡ ok m
      → has allowed m ≡ true
      → resolve_enrollment_model host env (some m) ≡ ok m
  unfolding resolve_enrollment_model
  resolved_again env m allowed lite a e h = rw (lite, a, canonical_trim m, e) (rw h refl)

  default_canonical :
      (env : Env) (m : String)
      → default_managed_model host env ≡ ok m
      → canonical_managed_model_id host m ≡ m
  unfolding default_managed_model
  default_canonical env m e =
      let (allowed, _, e1) = >>=-eq-ok (allowed_managed_models host env) _ e in
      let model =
        canonical_managed_model_id host
          (text_or (env "HARA_DEFAULT_MODEL") (first_or "" allowed)) in
      let (_, _, e2) =
        >>=-eq-ok
          (ensure (has allowed model)
            (failure "HARA_DEFAULT_MODEL must be present in HARA_ALLOWED_MODELS"))
          _ e1 in
      let same : model ≡ m = cc e2 in rw (← same) (canonical_again _)

  or_default_again :
      (env : Env) (s m : String)
      → or_default_model host env (canonical_managed_model_id host s) ≡ ok m
      → or_default_model host env (canonical_managed_model_id host m) ≡ ok m
  unfolding or_default_model
  or_default_again env s m e = elim (Bool-cases (canonical_managed_model_id host s == "")) [
    | inl empty ↦
        let chosen : default_managed_model host env ≡ ok m = rw empty at e in
        rw (default_canonical env m chosen) (elim (Bool-cases (m == "")) [
          | inl blank ↦ rw (blank, chosen) refl
          | inr named ↦ rw named refl
        ])
    | inr named ↦
        let same : canonical_managed_model_id host s ≡ m = cc (rw named at e) in
        let fixed : canonical_managed_model_id host m ≡ canonical_managed_model_id host s =
          rw (← same) (canonical_again s) in
        rw (fixed, named, same) refl
  ]

  carried_again :
      (env : Env) (m : String) (allowed : List String)
      → is_litellm host env ≡ true
      → allowed_managed_models host env ≡ ok allowed
      → resolve_enrollment_model host env (some m) ≡ ok m
      → has allowed m ≡ true
      → enrollment_managed_models host env m ≡ ok allowed
  unfolding enrollment_managed_models
  carried_again env m allowed lite a again h = rw (lite, a, again) (rw h refl)

  -- Whenever the model of an enrollment code resolves, the catalog of the connection is there too,
  -- and has that model, unless it is the empty name that a deployment without LiteLLM may keep: the
  -- second lookup of an enrollment never refuses what the first one chose.
  pub resolve_enrollment_model-carried :
      (env : Env) (requested : Option String) (m : String)
      → resolve_enrollment_model host env requested ≡ ok m
      → (m == "") ≡ false
      → (models : List String) × (enrollment_managed_models host env m ≡ ok models)
        × (has models m ≡ true)
  unfolding resolve_enrollment_model enrollment_managed_models has any
  resolve_enrollment_model-carried env requested m e named =
      elim (Bool-cases (is_litellm host env)) [
        | inr mock ↦ (m ∷ [], rw (mock, named) refl, rw (eq_refl m) refl)
        | inl lite ↦
            let asked = canonical_managed_model_id host (host.trim (or_else requested "")) in
            let (allowed, a, e1) = >>=-eq-ok (allowed_managed_models host env) _ (rw lite at e) in
            let (resolved, b, e2) = >>=-eq-ok (or_default_model host env asked) _ e1 in
            let (_, c, e3) =
              >>=-eq-ok
                (ensure (has allowed resolved)
                  (failure "model is not allowed by this Hara deployment"))
                _ e2 in
            let same : resolved ≡ m = cc e3 in
            let carried : has allowed m ≡ true =
              rw (← same) (ensure_lem (has allowed resolved) _ c) in
            let chosen : or_default_model host env asked ≡ ok m = b ∙ ap (λ x. ok x) same in
            (
              allowed,
              carried_again env m allowed lite a
                  (resolved_again env m allowed lite a (or_default_again env _ m chosen) carried)
                  carried,
              carried,
            )
      ]

all-All : {A : Type 0} (p : A → Bool) (xs : List A) → all p xs ≡ true → All (λ x. p x ≡ true) xs
unfolding all
all-All p [] e = tt
all-All p (x ∷ xs) e = (ground arith, all-All p xs (ground arith))

has_self : (xs : List String) → All (λ x. has xs x ≡ true) xs
unfolding has any
has_self [] = tt
has_self (x ∷ xs) = (
  rw (eq_refl x) refl,
  All-map (λ y. has xs y ≡ true) (λ y. has (x ∷ xs) y ≡ true) xs (λ y h. ground arith)
      (has_self xs),
)

unless_empty :
    (host : Host) (models : List String) (P : String → Type 0) (efforts : List String)
    → All P efforts
    → All P
        (if any (λ x. is_empty (managed_model_thinking_efforts host x)) models then [] else efforts)
unless_empty host models P efforts h =
    elim (Bool-cases (any (λ x. is_empty (managed_model_thinking_efforts host x)) models)) [
      | inl missing ↦ rw missing tt
      | inr known ↦ rw known h
    ]

-- Every effort that a connection of several models advertises is supported by each of its models.
pub managed_models_thinking_efforts-shared :
    (host : Host) (models : List String)
    → All
        (λ e. All (λ m. has (managed_model_thinking_efforts host m) e ≡ true) models)
        (managed_models_thinking_efforts host models)
unfolding managed_models_thinking_efforts
managed_models_thinking_efforts-shared host [] = tt
managed_models_thinking_efforts-shared host (m ∷ models) =
    let efforts = managed_model_thinking_efforts host m in
    let own =
      All-keep (λ e. has efforts e ≡ true) (shared_by host models) efforts (has_self efforts) in
    let kept = keep-true (shared_by host models) efforts in
    let both =
      All-both (λ e. has efforts e ≡ true) (λ e. shared_by host models e ≡ true)
        (λ e. All (λ x. has (managed_model_thinking_efforts host x) e ≡ true) (m ∷ models))
        (keep (shared_by host models) efforts) (λ e h k. (h, all-All _ models k)) own kept in
    unless_empty host (m ∷ models)
      (λ e. All (λ x. has (managed_model_thinking_efforts host x) e ≡ true) (m ∷ models)) _ both
