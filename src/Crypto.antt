-- ===== src/Crypto.antt =====
-- src/common/crypto.ts: the canonical text of a JSON value, and the link of a hash chain.
use hara_control.Common.{ℕ, String, Bool, true, false, List, [], ◌∷◌, map, if◌then◌else◌, append}
use hara_control.Host.{Host}
use hara_control.Json.{Json, null, bool, num, str, arr, obj, Items, nil, cons, Fields, end, field}

-- What the canonical text takes from JavaScript: JSON.stringify of a text and of a number, and the
-- comparison `k < l` by which `sort` orders texts.
pub record Script : Type 0 where
  pub quote : String → String
  pub decimal : ℕ → String
  pub before : String → String → Bool

abbrev pub bool_text : Bool → String
bool_text true = "true"
bool_text false = "false"

-- texts.join(",")
unfoldable pub join_comma : List String → String
join_comma [] = ""
join_comma (s ∷ []) = s
join_comma (s ∷ t ∷ rest) = append s (append "," (join_comma (t ∷ rest)))

-- A member of an object with its rendering; `sort` of the keys, which are distinct.
module _ (script : Script) where
  unfoldable pub insert_member : String × String → List (String × String) → List (String × String)
  insert_member m [] = m ∷ []
  insert_member m (n ∷ rest) =
      let later = insert_member m rest in if script.before n.0 m.0 then n ∷ later else m ∷ n ∷ rest

  unfoldable pub sort_members : List (String × String) → List (String × String)
  sort_members [] = []
  sort_members (m ∷ rest) = insert_member m (sort_members rest)

  unfoldable pub member_text : String × String → String
  member_text m = append (script.quote m.0) (append ":" m.1)

  unfoldable mutual
    pub canonical_json : Json → String
    canonical_json null = "null"
    canonical_json (bool b) = bool_text b
    canonical_json (num n) = script.decimal n
    canonical_json (str s) = script.quote s
    canonical_json (arr items) = append "[" (append (join_comma (canonical_items items)) "]")
    canonical_json (obj fields) =
        append "{" (append (join_comma (map member_text (sort_members (members fields)))) "}")

    pub canonical_items : Items → List String
    canonical_items nil = []
    canonical_items (cons v rest) = canonical_json v ∷ canonical_items rest

    pub members : Fields → List (String × String)
    members end = []
    members (field k v rest) = (k, canonical_json v) ∷ members rest

  unfoldable pub chain_hash : Host → Fields → String → String
  chain_hash host fields prev = host.sha256 (append (canonical_json (obj fields)) prev)
