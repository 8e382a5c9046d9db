-- ===== src/Secrets.antt =====
-- src/security/secrets.service.ts: the encrypted secrets of an organization, or of the whole
-- control plane. A buffer is the list of its bytes.
pub mod Laws
pub mod Marking
mod Examples
use hara_control.Common.{
  find, keep, update_where, ℕ, ◌+◌, String, Bool, true, false, not, ◌&&◌, Option, none, some, List,
  [], ◌∷◌, ◌++◌, ◌==◌, Outcome, ok, ◌>>=◌, ◌>>◌,
}
use hara_control.Audit.{SystemAuditRow, log_system}

pub record Envelope : Type 0 where
  pub ciphertext : List ℕ
  pub wrapped_dek : List ℕ
  pub key_ref : String

-- The KMS adapter, with the organization as its context; `seed` stands for its random bytes.
pub record Kms : Type 0 where
  pub encrypt : ℕ → List ℕ → Option String → Outcome Envelope
  pub decrypt : Envelope → Option String → Outcome (List ℕ)
  -- Buffer.from(text, "utf8")
  pub utf8 : String → List ℕ

pub record Secret : Type 0 where
  pub id : String
  pub org_id : Option String
  pub name : String
  pub envelope : Envelope
  pub version : ℕ
  pub created_at : ℕ
  pub updated_at : ℕ

abbrev pub same_org : Option String → Option String → Bool
same_org none none = true
same_org (some a) (some b) = a == b
same_org _ _ = false

abbrev pub is_secret : Option String → String → Secret → Bool
is_secret org_id name s = same_org s.org_id org_id && (s.name == name)

abbrev pub secret_by_id : String → Secret → Bool
secret_by_id id s = s.id == id

abbrev pub rotated : ℕ → Envelope → Secret → Secret
rotated now envelope s = record s { envelope = envelope; version = s.version + 1; updated_at = now }

-- The rows after the find, and the update or the create that follows it.
unfoldable pub store_secret :
    ℕ → String → Option String → String → Envelope → Option Secret → List Secret → List Secret
store_secret now new_id org_id name envelope none rows =
    rows
    ++ record {
      id = new_id;
      org_id = org_id;
      name = name;
      envelope = envelope;
      version = 1;
      created_at = now;
      updated_at = now;
    }
      ∷ []
store_secret now new_id org_id name envelope (some existing) rows =
    update_where (secret_by_id existing.id) (rotated now envelope) rows

module _ (kms : Kms) where
  unfoldable pub put :
      ℕ → ℕ → String → Option String → String → List ℕ → List Secret → Outcome (List Secret)
  put seed now new_id org_id name plaintext rows = do
    envelope ← kms.encrypt seed plaintext org_id
    ok (store_secret now new_id org_id name envelope (find (is_secret org_id name) rows) rows)

  unfoldable pub open_secret : Option String → Option Secret → Outcome (Option (List ℕ × ℕ × ℕ))
  open_secret org_id none = ok none
  open_secret org_id (some row) = do
    value ← kms.decrypt row.envelope org_id
    ok (some (value, row.version, row.updated_at))

  unfoldable pub get_versioned :
      Option String → String → List Secret → Outcome (Option (List ℕ × ℕ × ℕ))
  get_versioned org_id name rows = open_secret org_id (find (is_secret org_id name) rows)

  abbrev pub value_of : Option (List ℕ × ℕ × ℕ) → Option (List ℕ)
  value_of none = none
  value_of (some (value, version, at)) = some value

  unfoldable pub get : Option String → String → List Secret → Outcome (Option (List ℕ))
  get org_id name rows = do found ← get_versioned org_id name rows; ok (value_of found)

module _ (kms : Kms) where
  -- putWithSystemAudit: the secret and the row of the system log are written together.
  unfoldable pub put_with_system_audit :
      ℕ
      → ℕ
      → String
      → Option String
      → String
      → List ℕ
      → SystemAuditRow
      → List Secret × List SystemAuditRow
      → Outcome (List Secret × List SystemAuditRow)
  put_with_system_audit seed now new_id org_id name plaintext audit (rows, log) = do
    stored ← put kms seed now new_id org_id name plaintext rows
    ok (
      stored,
      log_system audit.system_action audit.system_actor_type audit.system_actor_id
          audit.system_payload log,
    )

  abbrev pub decoded : (List ℕ → String) → Option (List ℕ) → Option String
  decoded decode none = none
  decoded decode (some value) = some (decode value)

  -- getString; `decode` is the reading of the bytes as UTF-8.
  unfoldable pub get_string :
      (List ℕ → String) → Option String → String → List Secret → Outcome (Option String)
  get_string decode org_id name rows = do
    found ← get kms org_id name rows
    ok (decoded decode found)

unfoldable pub remove : Option String → String → List Secret → List Secret
remove org_id name rows = keep (λ s. not (is_secret org_id name s)) rows

pub record Description : Type 0 where
  pub exists : Bool
  pub at_version : Option ℕ
  pub added_at : Option ℕ
  pub changed_at : Option ℕ

pub describe : Option String → String → List Secret → Description
describe org_id name rows = elim (find (is_secret org_id name) rows) [
  | none ↦ record { exists = false; at_version = none; added_at = none; changed_at = none }
  | some row ↦ record {
    exists = true;
    at_version = some row.version;
    added_at = some row.created_at;
    changed_at = some row.updated_at;
  }
]
