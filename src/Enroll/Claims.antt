-- ===== src/Enroll/Claims.antt =====
-- The claim of a one-time code, and its release.
use hara_control.Common.{
  update_where_none, any_none, All-map, Apart, any, update_where, All, ℕ, String, ◌≡◌, refl, sym,
  ap, inl, inr, Bool, true, false, not, ◌&&◌, none, List, [], ◌∷◌, arith, ◌==◌, eq_iff, eqb,
  Bool-cases, is_some,
}
use hara_control.Enroll.Exchange.{
  EnrollCode, is_claimable, used, is_claimed_at, unused, release_claim,
}

-- The primary key of the codes.
abbrev pub same_code : EnrollCode → EnrollCode → Bool
same_code c d = d.id == c.id

-- A row that a further exchange of the code would accept, if it is not expired.
abbrev pub is_reusable : String → EnrollCode → Bool
is_reusable id c = (c.id == id) && not (is_some c.used_at)

not_claimable :
    (id : String) (now : ℕ) (c : EnrollCode) (cs : List EnrollCode)
    → (c.id == id) ≡ true
    → All (λ d. same_code c d ≡ false) cs
    → All (λ d. (d.id == id) ≡ false) cs
not_claimable id now c cs hit h =
    All-map (λ d. same_code c d ≡ false) (λ d. (d.id == id) ≡ false) cs
      (λ d apart. ground (arith, eq_iff c.id id, eq_iff d.id id, eq_iff d.id c.id)) h

same_unused : (c : EnrollCode) → c.used_at ≡ none → unused c ≡ c
same_unused c e = ap (λ u. record c { used_at = u }) (sym e)

module _ (id : String) (now : ℕ) where
  no_id :
      (p : EnrollCode → Bool) (cs : List EnrollCode)
      → ((c : EnrollCode) → (c.id == id) ≡ false → p c ≡ false)
      → All (λ d. (d.id == id) ≡ false) cs
      → All (λ d. p d ≡ false) cs
  no_id p cs f h = All-map (λ d. (d.id == id) ≡ false) (λ d. p d ≡ false) cs f h

  -- A tail with a claimable row: the row before it has another id.
  other_id :
      (c : EnrollCode) (cs : List EnrollCode)
      → All (λ d. same_code c d ≡ false) cs
      → any (is_claimable id now) cs ≡ true
      → (c.id == id) ≡ false
  other_id c cs h e = elim (Bool-cases (c.id == id)) [
    | inr other ↦ other
    | inl hit ↦
        let none_there = any_none (is_claimable id now) cs (
          no_id (is_claimable id now) cs (λ d miss. rw miss refl)
            (not_claimable id now c cs hit h)) in
        cc (none_there, e)
  ]

  pub release_used :
      (cs : List EnrollCode)
      → Apart same_code cs
      → any (is_claimable id now) cs ≡ true
      → release_claim id now (update_where (is_claimable id now) (used now) cs) ≡ cs
  unfolding release_claim update_where any
  release_used [] h e = refl
  release_used (c ∷ cs) (k, h) e = elim (Bool-cases (is_claimable id now c)) [
    | inl hit ↦
        let mine : (c.id == id) ≡ true = ground arith in
        let free : c.used_at ≡ none = ground arith in
        let rest = not_claimable id now c cs mine k in
        let now_is : eqb now now ≡ true = ground arith in
        rw
          (
            hit,
            mine,
            now_is,
            update_where_none (is_claimable id now) (used now) cs
                (no_id (is_claimable id now) cs (λ d miss. rw miss refl) rest),
            update_where_none (is_claimed_at id now) unused cs
                (no_id (is_claimed_at id now) cs (λ d miss. rw miss refl) rest),
          )
          (ap (λ r. r ∷ cs) (same_unused c free))
    | inr miss ↦
        let later : any (is_claimable id now) cs ≡ true = ground arith in
        rw (miss, other_id c cs k later) (ap (λ r. c ∷ r) (release_used cs h later))
  ]

  pub claimed_unusable :
      (cs : List EnrollCode)
      → Apart same_code cs
      → any (is_claimable id now) cs ≡ true
      → any (is_reusable id) (update_where (is_claimable id now) (used now) cs) ≡ false
  unfolding update_where any
  claimed_unusable [] h e = refl
  claimed_unusable (c ∷ cs) (k, h) e = elim (Bool-cases (is_claimable id now c)) [
    | inl hit ↦
        let mine : (c.id == id) ≡ true = ground arith in
        let rest = not_claimable id now c cs mine k in
        rw
          (
            hit,
            mine,
            update_where_none (is_claimable id now) (used now) cs
                (no_id (is_claimable id now) cs (λ d miss. rw miss refl) rest),
          )
          (any_none (is_reusable id) cs (no_id (is_reusable id) cs (λ d miss. rw miss refl) rest))
    | inr miss ↦
        let later : any (is_claimable id now) cs ≡ true = ground arith in
        rw (miss, other_id c cs k later) (claimed_unusable cs h later)
  ]
