-- ===== src/Common/Searches.antt =====
-- Searches in a list that a row was added to or replaced in.
use mathlib.Core.Path.{◌≡◌, refl}
use mathlib.Core.Logic.{inl, inr}
use mathlib.Core.Bool.{Bool, true, false}
use mathlib.Core.List.{List, [], ◌∷◌, ◌++◌}
use mathlib.Core.Option.{some}
use native.Mathlib.Omega.{arith}
use hara_control.Common.Tests.{if◌then◌else◌, Bool-cases}
use hara_control.Common.Lists.{All, find, any, keep, update_where}

pub true-false : {b : Bool} → b ≡ true → b ≡ false → ⊥
true-false e f = cc (e, f)

module _ {ℓ} {A : Type ℓ} where
  pub All-map {κ μ} :
      (P : A → Type κ) (Q : A → Type μ) (xs : List A) → ((x : A) → P x → Q x) → All P xs → All Q xs
  All-map P Q [] f h = tt
  All-map P Q (x ∷ xs) f (k, h) = (f x k, All-map P Q xs f h)

  -- A search that neither the replaced row nor its replacement answers.
  pub find-update_other :
      (p q : A → Bool) (to : A) (xs : List A)
      → ((x : A) → q x ≡ true → p x ≡ false)
      → p to ≡ false
      → find p (update_where q (λ x. to) xs) ≡ find p xs
  unfolding find update_where
  find-update_other p q to [] apart miss = refl
  find-update_other p q to (x ∷ xs) apart miss = elim (Bool-cases (q x)) [
    | inl hit ↦ rw (hit, miss, apart x hit) (find-update_other p q to xs apart miss)
    | inr other ↦ rw (other, find-update_other p q to xs apart miss) refl
  ]

  pub find-append :
      (p : A → Bool) (xs ys : List A) {x : A} → find p xs ≡ some x → find p (xs ++ ys) ≡ some x
  unfolding find
  find-append p [] ys e = cc e
  find-append p (y ∷ xs) ys {x} e = ground (arith, find-append p xs ys {x = x})

  pub any-All : (p : A → Bool) (xs : List A) → any p xs ≡ false → All (λ x. p x ≡ false) xs
  unfolding any
  any-All p [] e = tt
  any-All p (x ∷ xs) e = (ground arith, any-All p xs (ground arith))

  pub All-both {κ μ ν} :
      (P : A → Type κ) (Q : A → Type μ) (R : A → Type ν) (xs : List A)
      → ((x : A) → P x → Q x → R x)
      → All P xs
      → All Q xs
      → All R xs
  All-both P Q R [] f h k = tt
  All-both P Q R (x ∷ xs) f (p, h) (q, k) = (f x p q, All-both P Q R xs f h k)

  -- Rows that a filter drops before and after a change do not show in what it keeps.
  pub keep-update_where :
      (q p : A → Bool) (f : A → A) (xs : List A)
      → ((x : A) → p x ≡ true → (q x ≡ false) × (q (f x) ≡ false))
      → keep q (update_where p f xs) ≡ keep q xs
  unfolding keep update_where
  keep-update_where q p f [] h = refl
  keep-update_where q p f (x ∷ xs) h = elim (Bool-cases (p x)) [
    | inl hit ↦ rw (hit, (h x hit).0, (h x hit).1) (keep-update_where q p f xs h)
    | inr miss ↦ rw (miss, keep-update_where q p f xs h) refl
  ]

  pub keep_all : (q : A → Bool) (xs : List A) → All (λ x. q x ≡ true) xs → keep q xs ≡ xs
  unfolding keep
  keep_all q [] h = refl
  keep_all q (x ∷ xs) (e, h) = rw (e, keep_all q xs h) refl

  pub keep-concat_none :
      (q : A → Bool) (xs : List A) (x : A) → q x ≡ false → keep q (xs ++ x ∷ []) ≡ keep q xs
  unfolding keep
  keep-concat_none q [] x e = rw e refl
  keep-concat_none q (y ∷ xs) x e = rw (keep-concat_none q xs x e) refl

  pub update_where_none :
      (p : A → Bool) (f : A → A) (xs : List A)
      → All (λ x. p x ≡ false) xs
      → update_where p f xs ≡ xs
  unfolding update_where
  update_where_none p f [] h = refl
  update_where_none p f (x ∷ xs) (e, h) = rw (e, update_where_none p f xs h)

  pub any_none : (p : A → Bool) (xs : List A) → All (λ x. p x ≡ false) xs → any p xs ≡ false
  unfolding any
  any_none p [] h = refl
  any_none p (x ∷ xs) (e, h) = rw (e, any_none p xs h) refl

  pub All-unkeep {κ} :
      (P : A → Type κ) (q : A → Bool) (xs : List A)
      → All P (keep q xs)
      → All (λ x. q x ≡ true → P x) xs
  unfolding keep
  All-unkeep P q [] h = tt
  All-unkeep P q (x ∷ xs) h = elim (Bool-cases (q x)) [
    | inl hit ↦ let (p, k) : P x × All P (keep q xs) = rw hit at h in (λ _. p, All-unkeep P q xs k)
    | inr miss ↦
        let k : All P (keep q xs) = rw miss at h in
        (λ hit. elim (true-false hit miss) [ ], All-unkeep P q xs k)
  ]

  -- The row that a key finds, after a change that keeps the keys.
  pub find-update_where :
      (p q : A → Bool) (f : A → A) (xs : List A) {x : A}
      → ((y : A) → p (f y) ≡ p y)
      → find p xs ≡ some x
      → find p (update_where q f xs) ≡ some (if q x then f x else x)
  unfolding find update_where
  find-update_where p q f [] key e = cc e
  find-update_where p q f (y ∷ ys) {x} key e = elim (Bool-cases (p y)) [
    | inl hit ↦
        let same : y ≡ x = cc (rw hit at e) in
        elim (Bool-cases (q y)) [
          | inl changed ↦ rw (← same, changed, key y, hit) refl
          | inr kept ↦ rw (← same, kept, hit) refl
        ]
    | inr miss ↦
        let later = find-update_where p q f ys key (rw miss at e) in
        elim (Bool-cases (q y)) [
          | inl changed ↦ rw (changed, key y, miss) later
          | inr kept ↦ rw (kept, miss) later
        ]
  ]

  pub any-keep : (p q : A → Bool) (xs : List A) → any p xs ≡ false → any p (keep q xs) ≡ false
  unfolding any keep
  any-keep p q [] e = refl
  any-keep p q (x ∷ xs) e = ground (arith, any-keep p q xs)
