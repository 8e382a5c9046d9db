-- ===== src/Common/Distinct.antt =====
-- Rows of which no two clash, as under a unique index.
use mathlib.Core.Path.{◌≡◌, refl, ◌∙◌, ap}
use mathlib.Core.Logic.{inl, inr}
use mathlib.Core.Bool.{Bool, true, false}
use mathlib.Core.List.{List, [], ◌∷◌, ◌++◌, filter_map}
use mathlib.Core.Option.{Option, none, some}
use native.Mathlib.Omega.{arith}
use hara_control.Common.Tests.{Bool-cases}
use hara_control.Common.Searches.{All-map, update_where_none, true-false}
use hara_control.Common.Lists.{All, All-concat, All-update_where, find-All, find, update_where}

module _ {ℓ} {A : Type ℓ} (clash : A → A → Bool) where
  abbrev pub Apart : List A → Type ℓ
  Apart [] = Unit
  Apart (x ∷ xs) = All (λ y. clash x y ≡ false) xs × Apart xs

  pub Apart-concat :
      (xs : List A) (y : A) → Apart xs → All (λ x. clash x y ≡ false) xs → Apart (xs ++ y ∷ [])
  Apart-concat [] y _ _ = (tt, tt)
  Apart-concat (x ∷ xs) y (k, h) (q, qs) =
      (All-concat (λ z. clash x z ≡ false) xs y k q, Apart-concat xs y h qs)

  -- Replacing the row that a key finds by one with the same key keeps the rows apart.
  pub Apart-replace :
      (p : A → Bool) (from to : A) (xs : List A)
      → ((y : A) → clash from y ≡ false → p y ≡ false)
      → ((y : A) → clash from y ≡ false → clash to y ≡ false)
      → ((y : A) → clash y from ≡ false → clash y to ≡ false)
      → find p xs ≡ some from
      → Apart xs
      → Apart (update_where p (λ r. to) xs)
  unfolding update_where find
  Apart-replace p from to [] key left right e h = tt
  Apart-replace p from to (x ∷ xs) key left right e (k, h) = elim (Bool-cases (p x)) [
    | inl hit ↦
        let same : x ≡ from = ground arith in
        let k' : All (λ y. clash from y ≡ false) xs = rw same at k in
        rw
          (
            hit,
            update_where_none p (λ r. to) xs
                (All-map (λ y. clash from y ≡ false) (λ y. p y ≡ false) xs key k'),
          )
          (All-map (λ y. clash from y ≡ false) (λ y. clash to y ≡ false) xs left k', h)
    | inr miss ↦
        let later : find p xs ≡ some from = ground arith in
        rw miss (
          All-update_where (λ y. clash x y ≡ false) p (λ r. to) xs
              (λ y _ _. right x (find-All (λ y. clash x y ≡ false) p xs later k).0) k,
          Apart-replace p from to xs key left right later h,
        )
  ]

  -- A row that one key finds is the row that any other of its keys finds.
  pub find-Apart :
      (q p : A → Bool) (x : A) (xs : List A)
      → ((y : A) → clash y x ≡ false → p y ≡ false)
      → p x ≡ true
      → find q xs ≡ some x
      → Apart xs
      → find p xs ≡ some x
  unfolding find
  find-Apart q p x [] other hit e h = cc
  find-Apart q p x (y ∷ ys) other hit e (k, h) = elim (Bool-cases (q y)) [
    | inl found ↦ let same : y ≡ x = ground arith in rw (same, hit)
    | inr miss ↦
        let later : find q ys ≡ some x = ground arith in
        let apart = (find-All (λ z. clash y z ≡ false) q ys later k).0 in
        rw (other y apart) (find-Apart q p x ys other hit later h)
  ]

  -- Only the row that a unique key finds has the key.
  pub only-Apart :
      (p : A → Bool) (xs : List A) {x : A}
      → ((y z : A) → p y ≡ true → p z ≡ true → clash y z ≡ true)
      → find p xs ≡ some x
      → Apart xs
      → All (λ y. p y ≡ true → y ≡ x) xs
  unfolding find
  only-Apart p [] key e h = tt
  only-Apart p (y ∷ ys) {x} key e (k, h) = elim (Bool-cases (p y)) [
    | inl hit ↦
        let same : y ≡ x = ground arith in
        (
          λ _. same,
          All-map (λ z. clash y z ≡ false) (λ z. p z ≡ true → z ≡ x) ys
              (λ z apart hit'. elim (true-false (key y z hit hit') apart) [ ]) k,
        )
    | inr miss ↦ (λ hit. elim (true-false hit miss) [ ], only-Apart p ys key (ground arith) h)
  ]

-- A projection that a replaced row keeps is kept of the whole table.
module _ {ℓ κ} {A : Type ℓ} {B : Type κ} (clash : A → A → Bool) (view : A → Option B) where
  filter_map-cong_head :
      (x y : A) (xs ys : List A)
      → view x ≡ view y
      → filter_map view xs ≡ filter_map view ys
      → filter_map view (x ∷ xs) ≡ filter_map view (y ∷ ys)
  unfolding filter_map
  filter_map-cong_head x y xs ys e h = rw (e, h)

  pub filter_map-replace :
      (p : A → Bool) (from to : A) (xs : List A)
      → ((y : A) → clash from y ≡ false → p y ≡ false)
      → view to ≡ view from
      → find p xs ≡ some from
      → Apart clash xs
      → filter_map view (update_where p (λ r. to) xs) ≡ filter_map view xs
  unfolding update_where find
  filter_map-replace p from to [] key same e h = refl
  filter_map-replace p from to (x ∷ xs) key same e (k, h) = elim (Bool-cases (p x)) [
    | inl hit ↦
        let at : from ≡ x = ground arith in
        let k' : All (λ y. clash from y ≡ false) xs = rw at k in
        rw
          (
            hit,
            update_where_none p (λ r. to) xs
                (All-map (λ y. clash from y ≡ false) (λ y. p y ≡ false) xs key k'),
          )
          (filter_map-cong_head to x xs xs (same ∙ ap view at) refl)
    | inr miss ↦
        let later : find p xs ≡ some from = ground arith in
        rw miss
          (filter_map-cong_head x x _ xs refl (filter_map-replace p from to xs key same later h))
  ]

  pub filter_map-concat_none :
      (xs : List A) (y : A) → view y ≡ none → filter_map view (xs ++ y ∷ []) ≡ filter_map view xs
  unfolding filter_map
  filter_map-concat_none [] y e = rw e
  filter_map-concat_none (x ∷ xs) y e =
      filter_map-cong_head x x _ xs refl (filter_map-concat_none xs y e)
