-- ===== src/Secrets/Examples.antt =====
-- A secret put twice, under a key management that adds a mark.
use hara_control.Common.{find, ◌≡◌, refl, some, List, [], ◌∷◌, ok}
use hara_control.Secrets.{Secret, is_secret, store_secret, put, get}
use hara_control.Secrets.Laws.{get-put}
use hara_control.Secrets.Marking.{marking, marking-IsFaithful}

abbrev old_rows : List Secret
old_rows =
    record {
      id = "s1";
      org_id = some "o1";
      name = "desk";
      envelope = record { ciphertext = 1 ∷ 9 ∷ []; wrapped_dek = []; key_ref = "k" };
      version = 1;
      created_at = 3;
      updated_at = 3;
    }
    ∷ []

get-put_example :
    get marking (some "o1") "desk" (
      store_secret 8 "s2"
        (some "o1")
        "desk"
        (record { ciphertext = 2 ∷ 7 ∷ []; wrapped_dek = []; key_ref = "k" })
        (find (is_secret (some "o1") "desk") old_rows)
        old_rows)
    ≡ ok (some (7 ∷ []))
unfolding put
get-put_example =
    get-put marking marking-IsFaithful 2 8 "s2" (some "o1") "desk" (7 ∷ []) old_rows _ refl
