-- ===== src/Common/Lists.antt =====
-- Lists measured by native numbers, and predicates on all their members.
use Prim.Native.String.{String}
use text.Mathlib.Text.{◌==◌}
use Prim.Native.Nat.{ℕ, zero, suc, ◌+◌, ◌≤◌}
use mathlib.Core.Path.{◌≡◌}
use mathlib.Core.Bool.{Bool, true, false, ◌&&◌, ◌||◌}
use mathlib.Core.List.{List, [], ◌∷◌, ◌++◌}
use mathlib.Core.Option.{Option, none, some}
use native.Mathlib.Omega.{arith}
use mathlib.Core.Logic.{inl, inr}
use hara_control.Common.Tests.{if◌then◌else◌, Bool-cases}

module _ {ℓ} {A : Type ℓ} where
  abbrev pub length : List A → ℕ
  length [] = 0
  length (x ∷ xs) = suc (length xs)

  abbrev pub take : ℕ → List A → List A
  take zero xs = []
  take (suc n) [] = []
  take (suc n) (x ∷ xs) = x ∷ take n xs

  -- Array.prototype.find, some, every and filter
  unfoldable pub find : (A → Bool) → List A → Option A
  find p [] = none
  find p (x ∷ xs) = if p x then some x else find p xs

  unfoldable pub any : (A → Bool) → List A → Bool
  any p [] = false
  any p (x ∷ xs) = p x || any p xs

  unfoldable pub all : (A → Bool) → List A → Bool
  all p [] = true
  all p (x ∷ xs) = p x && all p xs

  unfoldable pub keep : (A → Bool) → List A → List A
  keep p [] = []
  keep p (x ∷ xs) = let rest = keep p xs in if p x then x ∷ rest else rest

  -- What `UPDATE … WHERE p` does to the rows of a table.
  unfoldable pub update_where : (A → Bool) → (A → A) → List A → List A
  update_where p f [] = []
  update_where p f (x ∷ xs) = (if p x then f x else x) ∷ update_where p f xs

  pub length-append : (xs ys : List A) → length (xs ++ ys) ≡ length xs + length ys
  length-append [] ys = omega arith
  length-append (x ∷ xs) ys = omega (arith, length-append xs ys)

  pub length-take : (n : ℕ) (xs : List A) → length (take n xs) ≤ n
  length-take zero xs = omega arith
  length-take (suc n) [] = omega arith
  length-take (suc n) (x ∷ xs) = omega (arith, length-take n xs)

module _ {ℓ κ} {A : Type ℓ} (P : A → Type κ) where
  abbrev pub All : List A → Type κ
  All [] = Unit
  All (x ∷ xs) = P x × All xs

  pub All-append : (xs ys : List A) → All xs → All ys → All (xs ++ ys)
  All-append [] ys _ k = k
  All-append (x ∷ xs) ys (p, h) k = (p, All-append xs ys h k)

  pub All-concat : (xs : List A) (y : A) → All xs → P y → All (xs ++ y ∷ [])
  All-concat [] y _ k = (k, tt)
  All-concat (x ∷ xs) y (p, h) k = (p, All-concat xs y h k)

  pub All-take : (n : ℕ) (xs : List A) → All xs → All (take n xs)
  All-take zero xs h = tt
  All-take (suc n) [] h = tt
  All-take (suc n) (x ∷ xs) (p, h) = (p, All-take n xs h)

  -- The row that a search returns passes the test, and has what holds of all rows.
  pub find-All :
      (p : A → Bool) (xs : List A) {x : A} → find p xs ≡ some x → All xs → P x × (p x ≡ true)
  unfolding find
  find-All p [] e h = ground arith
  find-All p (y ∷ xs) {x} e (k, h) = ground (arith, find-All p xs {x = x})

  pub All-update_where :
      (p : A → Bool) (f : A → A) (xs : List A)
      → ((x : A) → p x ≡ true → P x → P (f x))
      → All xs
      → All (update_where p f xs)
  unfolding update_where
  All-update_where p f [] step h = tt
  All-update_where p f (x ∷ xs) step (k, h) =
      (ground (arith, step x), All-update_where p f xs step h)

  pub All-keep : (p : A → Bool) (xs : List A) → All xs → All (keep p xs)
  unfolding keep
  All-keep p [] h = tt
  All-keep p (x ∷ xs) (k, h) = ground (arith, All-keep p xs h)

module _ {ℓ} {A : Type ℓ} where
  pub find-true : (p : A → Bool) (xs : List A) {x : A} → find p xs ≡ some x → p x ≡ true
  unfolding find
  find-true p [] e = ground arith
  find-true p (y ∷ xs) {x} e = ground (arith, find-true p xs {x = x})

  pub keep-true : (p : A → Bool) (xs : List A) → All (λ x. p x ≡ true) (keep p xs)
  unfolding keep
  keep-true p [] = tt
  keep-true p (x ∷ xs) = ground (arith, keep-true p xs)

  pub find-concat :
      (p : A → Bool) (xs : List A) (y : A)
      → All (λ x. p x ≡ false) xs
      → p y ≡ true
      → find p (xs ++ y ∷ []) ≡ some y
  unfolding find
  find-concat p [] y h e = ground arith
  find-concat p (x ∷ xs) y (k, h) e = rw k (find-concat p xs y h e)

  pub find-replace :
      (p : A → Bool) (to : A) (xs : List A) {x : A}
      → find p xs ≡ some x
      → p to ≡ true
      → find p (update_where p (λ r. to) xs) ≡ some to
  unfolding find update_where
  find-replace p to [] e h = cc
  find-replace p to (y ∷ ys) {x} e h = ground (arith, find-replace p to ys {x = x})

module _ {ℓ} {A : Type ℓ} where
  -- A search that finds nothing: no row passes the test.
  pub find-none : (p : A → Bool) (xs : List A) → find p xs ≡ none → All (λ x. p x ≡ false) xs
  unfolding find
  find-none p [] e = tt
  find-none p (x ∷ xs) e = elim (Bool-cases (p x)) [
    | inl hit ↦ ground arith
    | inr miss ↦ (miss, find-none p xs (ground arith))
  ]

-- Set.prototype.has and Array.prototype.includes on texts
unfoldable pub has : List String → String → Bool
has seen key = any (λ s. s == key) seen
