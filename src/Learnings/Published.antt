-- ===== src/Learnings/Published.antt =====
-- What an organization's devices are told: the approved texts, and the version that stands for them.
use hara_control.Common.{
  Apart, Apart-replace, filter_map-replace, find, update_where, find-true, ℕ, String, ◌≡◌, Bool,
  false, ◌||◌, Option, none, some, List, filter_map, arith, ◌==◌, eq_iff, if◌then◌else◌,
}
use hara_control.Learnings.Types.{Candidate, Db}
use hara_control.Learnings.{by_key, by_id, propose}
use hara_control.Learnings.Review.{org_by_id, version_of, in_bundle}

-- The approved text of a candidate, for its organization.
abbrev pub view : String → Candidate → Option (String × String × Option String)
view org_id c = if in_bundle org_id c then some (c.id, c.summary, c.rationale) else none

abbrev pub published : String → Db → List (String × String × Option String)
published org_id db = filter_map (view org_id) db.candidates

abbrev pub version_at : String → Db → ℕ
version_at org_id db = version_of (find (org_by_id org_id) db.organizations)

-- Two rows that the primary key or the unique index on (orgId, patternKey, kind) forbids.
abbrev pub clash : Candidate → Candidate → Bool
clash c d = d.id == c.id || by_key c.org_id c.pattern_key c.kind d

abbrev pub IsTable : List Candidate → Type 0
IsTable = Apart clash

pub not_by_id : (id : String) (c d : Candidate) → c.id ≡ id → clash c d ≡ false → by_id id d ≡ false
not_by_id id c d at h = ground (arith, eq_iff d.id c.id, eq_iff d.id id)

pub not_by_id' :
    (id : String) (c d : Candidate) → c.id ≡ id → clash d c ≡ false → by_id id d ≡ false
not_by_id' id c d at h = ground (arith, eq_iff d.id c.id, eq_iff c.id d.id, eq_iff d.id id)

-- What an update leaves of a row: its keys.
pub record SameKeys (from to : Candidate) : Type 0 where
  pub same_id : to.id ≡ from.id
  pub same_org : to.org_id ≡ from.org_id
  pub same_pattern : to.pattern_key ≡ from.pattern_key
  pub same_kind_of : to.kind ≡ from.kind

pub replace-IsTable :
    (id : String) (from to : Candidate) (rows : List Candidate)
    → SameKeys from to
    → find (by_id id) rows ≡ some from
    → IsTable rows
    → IsTable (update_where (by_id id) (λ c. to) rows)
replace-IsTable id from to rows s found h =
    let at : from.id ≡ id = (eq_iff from.id id).0 (find-true (by_id id) rows found) in
    Apart-replace clash (by_id id) from to rows (λ d. not_by_id id from d at)
      (λ d c. rw (s.same_id, s.same_org, s.same_pattern, s.same_kind_of) c)
      (λ d c. rw (s.same_id, s.same_org, s.same_pattern, s.same_kind_of) c) found h

pub replace-published :
    (org_id id : String) (from to : Candidate) (rows : List Candidate)
    → view org_id to ≡ view org_id from
    → find (by_id id) rows ≡ some from
    → IsTable rows
    → filter_map (view org_id) (update_where (by_id id) (λ c. to) rows)
      ≡ filter_map (view org_id) rows
replace-published org_id id from to rows same found h =
    let at : from.id ≡ id = (eq_iff from.id id).0 (find-true (by_id id) rows found) in
    filter_map-replace clash (view org_id) (by_id id) from to rows (λ d. not_by_id id from d at)
      same found h

pub propose-view :
    (now : ℕ) (summary : String) (rationale : Option String) (version org_id : String)
    (c : Candidate)
    → view org_id (propose now summary rationale version c) ≡ view org_id c
unfolding propose
propose-view now summary rationale version org_id c = ground arith

pub propose-SameKeys :
    (now : ℕ) (summary : String) (rationale : Option String) (version : String) (c : Candidate)
    → SameKeys c (propose now summary rationale version c)
unfolding propose
propose-SameKeys now summary rationale version c = ground arith

pub propose-revision :
    (now : ℕ) (summary : String) (rationale : Option String) (version : String) (c : Candidate)
    → (propose now summary rationale version c).revision ≡ c.revision
unfolding propose
propose-revision now summary rationale version c = ground arith
