-- ===== src/Secrets/Marking.antt =====
-- A key management that adds a mark in front of the bytes.
use hara_control.Common.{ℕ, ◌≡◌, refl, sym, none, List, [], ◌∷◌, failure, err, ok}
use hara_control.Secrets.{Envelope, Kms}
use hara_control.Secrets.Laws.{IsFaithful}

abbrev pub marking : Kms
marking = record {
  encrypt =
      λ seed bytes org. ok (record { ciphertext = seed ∷ bytes; wrapped_dek = []; key_ref = "k" });
  decrypt = λ e org. elim e.ciphertext [ [] ↦ err (failure "tampered") | seed ∷ bytes ↦ ok bytes ];
  utf8 = λ s. 1 ∷ [];
}

pub marking-IsFaithful : IsFaithful marking
marking-IsFaithful = record {
  decrypt_encrypt = λ seed plaintext org_id e h. rw (sym (sealed seed plaintext e h)) refl;
}
  where
    sealed :
        (seed : ℕ) (plaintext : List ℕ) (e : Envelope)
        → marking.encrypt seed plaintext none ≡ ok e
        → record { ciphertext = seed ∷ plaintext; wrapped_dek = []; key_ref = "k" } ≡ e
    sealed seed plaintext e h = cc
