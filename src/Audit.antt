-- ===== src/Audit.antt =====
-- src/audit/audit.service.ts: the append-only audit log of an organization, as a hash chain, and
-- its verification. A log is the organization's rows in the order of `seq`, as the service's
-- queries read them.
pub mod Call
pub mod Chain
pub mod Appending
pub mod Tamper
pub mod Retry
mod Examples
use hara_control.Common.{
  ℕ, suc, ◌+◌, String, Bool, false, not, ◌&&◌, ◌||◌, Option, none, some, List, [], ◌∷◌, ◌++◌, ◌==◌,
  if◌then◌else◌,
}
use hara_control.Host.{Host}
use hara_control.Json.{Json, null, num, str, obj, Fields, end, field}
use hara_control.Crypto.{Script, chain_hash}

-- A row of the table; its two digests are "" in a row from before the chain.
pub record AuditRow : Type 0 where
  pub id : String
  pub org_id : String
  pub action : String
  pub actor_type : String
  pub actor_id : String
  pub payload : Json
  pub seq : ℕ
  pub at : ℕ
  pub prev_hash : String
  pub row_hash : String

-- A payload as a caller hands it over: a member may be `undefined`, which JSON leaves out.
unfoldable pub persisted_payload : List (String × Option Json) → Fields
persisted_payload [] = end
persisted_payload ((k, none) ∷ rest) = persisted_payload rest
persisted_payload ((k, some v) ∷ rest) = field k v (persisted_payload rest)

-- payload ?? {}
unfoldable pub or_empty : Json → Json
or_empty null = obj end
or_empty v = v

-- The host's `date.toISOString()` stands among the parameters.
unfoldable pub identity_with : (ℕ → String) → AuditRow → Json → Fields
identity_with iso r payload = field "orgId" (str r.org_id) (
    field "action" (str r.action) (
      field "actorType" (str r.actor_type) (
        field "actorId" (str r.actor_id)
          (field "payload" payload (field "seq" (num r.seq) (field "at" (str (iso r.at)) end))))))

unfoldable pub identity : (ℕ → String) → AuditRow → Fields
identity iso r = identity_with iso r (or_empty r.payload)

unfoldable pub last_row : List AuditRow → Option AuditRow
last_row [] = none
last_row (r ∷ []) = some r
last_row (r ∷ s ∷ rest) = last_row (s ∷ rest)

unfoldable pub next_seq : Option AuditRow → ℕ
next_seq none = 0
next_seq (some r) = r.seq + 1

unfoldable pub head_hash : Option AuditRow → String
head_hash none = ""
head_hash (some r) = r.row_hash

unfoldable pub has_field : String → Fields → Bool
has_field k end = false
has_field k (field l v rest) = (l == k) || has_field k rest

-- `{ ...payload, [k]: v }`, for a key that the payload does not have
unfoldable pub add_field : String → Json → Fields → Fields
add_field k v end = field k v end
add_field k v (field l w rest) = field l w (add_field k v rest)

-- What a log records besides the rows' own identity.
pub record Entry : Type 0 where
  pub entry_id : String
  pub entry_action : String
  pub entry_actor_type : String
  pub entry_actor_id : String
  pub entry_payload : List (String × Option Json)
  pub entry_at : ℕ

-- The control-plane-wide log, which has no chain.
pub record SystemAuditRow : Type 0 where
  pub system_action : String
  pub system_actor_type : String
  pub system_actor_id : String
  pub system_payload : Fields

pub log_system : String → String → String → Fields → List SystemAuditRow → List SystemAuditRow
log_system action actor_type actor_id payload rows =
    rows
    ++ record {
      system_action = action;
      system_actor_type = actor_type;
      system_actor_id = actor_id;
      system_payload = payload;
    }
      ∷ []

pub data Verdict : Type 0 where
  -- ok, with legacyPrefix and legacySerializationRows
  intact : ℕ → ℕ → Verdict
  -- brokenAt, by its `seq`, with legacyPrefix and the reason
  broken : ℕ → ℕ → String → Verdict

unfoldable pub drafted : String → Entry → Option AuditRow → AuditRow
drafted org e prev = record {
  id = e.entry_id;
  org_id = org;
  action = e.entry_action;
  actor_type = e.entry_actor_type;
  actor_id = e.entry_actor_id;
  payload = obj (persisted_payload e.entry_payload);
  seq = next_seq prev;
  at = e.entry_at;
  prev_hash = head_hash prev;
  row_hash = "";
}

module _ (script : Script) (host : Host) (iso : ℕ → String) where
  unfoldable pub sealed : AuditRow → AuditRow
  sealed r = record r { row_hash = chain_hash script host (identity iso r) r.prev_hash }

  -- The row that `append` creates after the row `prev`: drafted, then sealed by its digest.
  unfoldable pub appended : String → Entry → Option AuditRow → AuditRow
  appended org e prev = sealed (drafted org e prev)

  unfoldable pub append_row : String → Entry → List AuditRow → List AuditRow
  append_row org e rows = rows ++ appended org e (last_row rows) ∷ []

  -- `legacyEnrollmentIdentity`
  unfoldable pub legacy_identity : AuditRow → Json → Option Fields
  legacy_identity r (obj fields) =
      if (r.action == "enroll_code.create") && not (has_field "personId" fields)
      then some (identity_with iso r (obj (add_field "personId" null fields)))
      else none
  legacy_identity r _ = none

  -- Whether the row's digest is that of an identity, if there is one.
  unfoldable pub hashes_to : AuditRow → String → Option Fields → Bool
  hashes_to r prev none = false
  hashes_to r prev (some fields) = chain_hash script host fields prev == r.row_hash

  unfoldable pub matches_current : AuditRow → String → Bool
  matches_current r prev = hashes_to r prev (some (identity iso r))

  unfoldable pub matches_legacy : AuditRow → String → Bool
  matches_legacy r prev =
      not (matches_current r prev) && hashes_to r prev (legacy_identity r r.payload)

  unfoldable pub unchained : AuditRow → Bool
  unchained r = (r.prev_hash == "") && (r.row_hash == "")

  -- The loop once a row is anchored: the counts so far, the digest of the row before, the rows.
  unfoldable pub verify_chain : ℕ → ℕ → String → List AuditRow → Verdict
  verify_chain prefix legacy prev [] = intact prefix legacy
  verify_chain prefix legacy prev (r ∷ rest) =
      let old = verify_chain prefix (suc legacy) r.row_hash rest in
      let current = verify_chain prefix legacy r.row_hash rest in
      if not (r.prev_hash == prev)
      then broken r.seq prefix "prevHash linkage mismatch"
      else if matches_current r prev
      then current
      else if matches_legacy r prev
      then old
      else broken r.seq prefix "rowHash mismatch (row tampered)"

  -- The loop before that, over the rows from before the chain.
  unfoldable pub verify_from : ℕ → List AuditRow → Verdict
  verify_from prefix [] = intact prefix 0
  verify_from prefix (r ∷ rest) =
      let later = verify_from (suc prefix) rest in
      if unchained r then later else verify_chain prefix 0 "" (r ∷ rest)

  unfoldable pub verify : List AuditRow → Verdict
  verify rows = verify_from 0 rows
