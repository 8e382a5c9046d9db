-- ===== src/Capabilities/Approval.antt =====
-- A capability that a skill may use is one that it declared and that its review granted.
use hara_control.Common.{
  any, all, has, length, String, ◌≡◌, refl, sym, ◌∙◌, subst, inl, inr, Bool, true, false, ◌&&◌,
  ◌||◌, List, [], ◌∷◌, ◌++◌, arith, ◌==◌, eq_iff, leb, eqb, Bool-cases, bad_request, ok, ensure,
  >>=-eq-ok,
}
use hara_control.Host.{Host}
use hara_control.Crypto.{Script}
use hara_control.Capabilities.{
  AssetKind, skill, snippet, playbook, convention, knowledge, is_skill, is_capability_name,
  add_name, add_names, insert_name, sort_names, normalize_capability_names,
  normalize_required_capabilities, normalize_granted_capabilities, assert_approved,
  assert_skill_capabilities_granted,
}

has-concat : (xs : List String) (y c : String) → has (xs ++ y ∷ []) c ≡ (has xs c || (y == c))
unfolding has any
has-concat [] y c = ground arith
has-concat (x ∷ xs) y c = ground (arith, has-concat xs y c)

is_skill_lem : (kind : AssetKind) → is_skill kind ≡ true → kind ≡ skill
is_skill_lem skill h = refl
is_skill_lem snippet h = ground arith
is_skill_lem playbook h = ground arith
is_skill_lem convention h = ground arith
is_skill_lem knowledge h = ground arith

module _ (script : Script) (host : Host) where
  has-insert_name :
      (name c : String) (xs : List String)
      → has (insert_name script host name xs) c ≡ ((name == c) || has xs c)
  unfolding insert_name has any
  has-insert_name name c [] = ground arith
  has-insert_name name c (x ∷ xs) = ground (arith, has-insert_name name c xs)

  has-sort_names : (c : String) (xs : List String) → has (sort_names script host xs) c ≡ has xs c
  unfolding sort_names has any
  has-sort_names c [] = refl
  has-sort_names c (x ∷ xs) =
      has-insert_name x c (sort_names script host xs) ∙ ground (arith, has-sort_names c xs)

  has-add_name :
      (seen : List String) (value c : String)
      → has (add_name script host seen value) c ≡ (has seen c || (value == c))
  unfolding add_name
  has-add_name seen value c = ground (arith, has-concat seen value c, eq_iff value c)

  add_names-has :
      (label : String) (seen values : List String) {out : List String}
      → add_names script host label seen values ≡ ok out
      → (c : String) → has out c ≡ (has seen c || has values c)
  unfolding add_names has any
  add_names-has label seen [] h c = ground arith
  add_names-has label seen (value ∷ values) {out} h c =
      elim (Bool-cases (is_capability_name script host value)) [
        | inr bad ↦ ground arith
        | inl good ↦
            let rest = add_names-has label (add_name script host seen value) values {out = out} in
            ground (arith, rest (ground arith) c, has-add_name seen value c)
      ]

  normalize-has :
      (values : List String) (label : String) {out : List String}
      → normalize_capability_names script host values label ≡ ok out
      → (c : String) → has out c ≡ has values c
  unfolding normalize_capability_names has any
  normalize-has values label {out} h c =
      let (_, few, h1) = >>=-eq-ok (ensure (leb (length values) 64) (bad_request label)) _ h in
      let (names, added, h2) = >>=-eq-ok (add_names script host label [] values) _ h1 in
      let sorted : sort_names script host names ≡ out = ground arith in
      rw (sym sorted) (has-sort_names c names ∙ add_names-has label [] values {out = names} added c)

  assert_approved-has :
      (required granted requested : List String)
      → assert_approved script host required granted requested ≡ ok tt
      → (c : String) → has requested c ≡ true
      → (has required c ≡ true) × (has granted c ≡ true)
  unfolding assert_approved has any
  assert_approved-has required granted [] h c asked = cc
  assert_approved-has required granted (x ∷ rest) h c asked =
      elim (Bool-cases (has required x && has granted x)) [
        | inr denied ↦ ground arith
        | inl approved ↦ elim (Bool-cases (x == c)) [
          | inl here ↦ rw (sym ((eq_iff x c).0 here)) (ground arith, ground arith)
          | inr later ↦ assert_approved-has required granted rest (ground arith) c (ground arith)
        ]
      ]

  all-has :
      (p : String → Bool) (xs : List String)
      → all p xs ≡ true
      → (c : String) → has xs c ≡ true
      → p c ≡ true
  unfolding all has any
  all-has p [] h c asked = cc
  all-has p (x ∷ xs) h c asked = elim (Bool-cases (x == c)) [
    | inl here ↦ let e : x ≡ c = (eq_iff x c).0 here in subst (λ t. p t ≡ true) e (ground arith)
    | inr later ↦ all-has p xs (ground arith) c (ground arith)
  ]

  -- If the check of the requested capabilities succeeds, then every capability that was requested
  -- is one of the names that the check returns, of the required ones and of the granted ones.
  pub assert_skill_capabilities_granted-approved :
      (required granted requested : List String) {out : List String}
      → assert_skill_capabilities_granted script host required granted requested ≡ ok out
      → (c : String) → has requested c ≡ true
      → (has out c ≡ true) × (has required c ≡ true) × (has granted c ≡ true)
  unfolding assert_skill_capabilities_granted
  assert_skill_capabilities_granted-approved required granted requested {out} h c asked =
      let (r, er, h1) =
        >>=-eq-ok (normalize_capability_names script host required "requiredCapabilities") _ h in
      let (g, eg, h2) =
        >>=-eq-ok (normalize_capability_names script host granted "grantedCapabilities") _ h1 in
      let (q, eq, h3) =
        >>=-eq-ok (normalize_capability_names script host requested "requestedCapabilities") _ h2 in
      let (_, fine, h4) = >>=-eq-ok (assert_approved script host r g q) _ h3 in
      let same : q ≡ out = ground arith in
      let kept = normalize-has requested "requestedCapabilities" {out = q} eq c ∙ asked in
      let both = assert_approved-has r g q fine c kept in
      (
        subst (λ t. has t c ≡ true) same kept,
        sym (normalize-has required "requiredCapabilities" {out = r} er c) ∙ both.0,
        sym (normalize-has granted "grantedCapabilities" {out = g} eg c) ∙ both.1,
      )

  normalize_required-has :
      (kind : AssetKind) (values : List String) {out : List String}
      → normalize_required_capabilities script host kind values ≡ ok out
      → (c : String) → has out c ≡ has values c
  unfolding normalize_required_capabilities
  normalize_required-has kind values {out} h c =
      let (r, er, h1) =
        >>=-eq-ok (normalize_capability_names script host values "requiredCapabilities") _ h in
      let (_, fine, h2) = >>=-eq-ok (ensure (is_skill kind || eqb (length r) 0) _) _ h1 in
      let same : r ≡ out = ground arith in
      rw (sym same) (normalize-has values "requiredCapabilities" {out = r} er c)

  has_none : (xs : List String) (c : String) → has xs c ≡ true → eqb (length xs) 0 ≡ false
  unfolding has any
  has_none [] c h = cc
  has_none (x ∷ xs) c h = ground arith

  -- A review that grants capabilities to an asset grants only names that it was asked to grant, and
  -- that the asset declares; an asset to which it grants any is a skill.
  pub normalize_granted-declared :
      (kind : AssetKind) (required granted : List String) {out : List String}
      → normalize_granted_capabilities script host kind required granted ≡ ok out
      → (c : String) → has out c ≡ true
      → (has granted c ≡ true) × (has required c ≡ true) × (kind ≡ skill)
  unfolding normalize_granted_capabilities
  normalize_granted-declared kind required granted {out} h c given =
      let (r, er, h1) = >>=-eq-ok (normalize_required_capabilities script host kind required) _ h in
      let (g, eg, h2) =
        >>=-eq-ok (normalize_capability_names script host granted "grantedCapabilities") _ h1 in
      let (_, allowed, h3) = >>=-eq-ok (ensure (is_skill kind || eqb (length g) 0) _) _ h2 in
      let (_, declared, h4) = >>=-eq-ok (ensure (all (has r) g) _) _ h3 in
      let same : g ≡ out = ground arith in
      let kept : has g c ≡ true = rw same given in
      (
        sym (normalize-has granted "grantedCapabilities" {out = g} eg c) ∙ kept,
        sym (normalize_required-has kind required {out = r} er c)
            ∙ all-has (has r) g (ground arith) c kept,
        ground (arith, has_none g c kept, is_skill_lem kind),
      )
