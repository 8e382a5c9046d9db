-- ===== src/Secrets/Laws.antt =====
-- Putting, getting and removing secrets.
use hara_control.Common.{
  find, keep, update_where, find-concat, find-none, ℕ, String, ◌≡◌, refl, sym, subst, inl, inr,
  true, Option, none, some, List, [], ◌∷◌, arith, eq_refl, Bool-cases, ok, >>=-eq-ok,
}
use hara_control.Secrets.{
  Envelope, Kms, Secret, same_org, is_secret, secret_by_id, rotated, store_secret, put, open_secret,
  get_versioned, get, remove,
}

-- What is relied on of a KMS: it decrypts what it encrypted, in the same context.
pub record IsFaithful (kms : Kms) : Type 0 where
  pub decrypt_encrypt :
      (seed : ℕ) (plaintext : List ℕ) (org_id : Option String) (e : Envelope)
      → kms.encrypt seed plaintext org_id ≡ ok e
      → kms.decrypt e org_id ≡ ok plaintext

same_org_refl : (o : Option String) → same_org o o ≡ true
same_org_refl none = refl
same_org_refl (some a) = eq_refl a

rotated-is_secret :
    (now : ℕ) (envelope : Envelope) (org_id : Option String) (name : String) (s : Secret)
    → is_secret org_id name (rotated now envelope s) ≡ is_secret org_id name s
rotated-is_secret now envelope org_id name s = refl

find-rotated :
    (now : ℕ) (envelope : Envelope) (org_id : Option String) (name : String) (rows : List Secret)
    (s : Secret)
    → find (is_secret org_id name) rows ≡ some s
    → find (is_secret org_id name) (update_where (secret_by_id s.id) (rotated now envelope) rows)
      ≡ some (rotated now envelope s)
unfolding find update_where
find-rotated now envelope org_id name [] s e = cc
find-rotated now envelope org_id name (r ∷ rows) s e = elim (Bool-cases (is_secret org_id name r)) [
  | inl hit ↦
      let same : r ≡ s = ground arith in
      let hit' : is_secret org_id name s ≡ true =
        subst (λ t. is_secret org_id name t ≡ true) same hit in
      rw (same, eq_refl s.id) (ground (arith, hit'))
  | inr miss ↦
      let later : find (is_secret org_id name) rows ≡ some s = ground arith in
      ground (arith, miss, find-rotated now envelope org_id name rows s later)
]

find-store_secret :
    (now : ℕ) (new_id : String) (org_id : Option String) (name : String) (envelope : Envelope)
    (o : Option Secret) (rows : List Secret)
    → find (is_secret org_id name) rows ≡ o
    → (s : Secret) × (s.envelope ≡ envelope)
      × (find (is_secret org_id name) (store_secret now new_id org_id name envelope o rows)
          ≡ some s)
unfolding store_secret
find-store_secret now new_id org_id name envelope none rows e = (
  _,
  refl,
  find-concat (is_secret org_id name) rows _ (find-none (is_secret org_id name) rows e)
      (ground (arith, same_org_refl org_id, eq_refl name)),
)
find-store_secret now new_id org_id name envelope (some s) rows e =
    (rotated now envelope s, refl, find-rotated now envelope org_id name rows s e)

module _ (kms : Kms) where
  -- Under a KMS that decrypts what it encrypted, a secret that was put is what `get` returns for the
  -- same organization and name.
  pub get-put :
      IsFaithful kms
      → (seed now : ℕ) (new_id : String) (org_id : Option String) (name : String)
        (plaintext : List ℕ) (rows rows' : List Secret)
      → put kms seed now new_id org_id name plaintext rows ≡ ok rows'
      → get kms org_id name rows' ≡ ok (some plaintext)
  unfolding put get get_versioned open_secret
  get-put faithful seed now new_id org_id name plaintext rows rows' e =
      let (envelope, sealed, e1) = >>=-eq-ok (kms.encrypt seed plaintext org_id) _ e in
      let (s, at, found) =
        find-store_secret now new_id org_id name envelope (find (is_secret org_id name) rows) rows
          refl in
      let opened = faithful.decrypt_encrypt seed plaintext org_id envelope sealed in
      let same : store_secret now new_id org_id name envelope (find (is_secret org_id name) rows)
            rows
          ≡ rows' =
        cc e1 in
      rw (sym same, found, at, opened) refl

  -- Removed secrets are gone, and all others stay.
  pub get-remove :
      (org_id : Option String) (name : String) (rows : List Secret)
      → find (is_secret org_id name) (remove org_id name rows) ≡ none
  unfolding remove keep find
  get-remove org_id name [] = refl
  get-remove org_id name (s ∷ rows) = ground (arith, get-remove org_id name rows)
