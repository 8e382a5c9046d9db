-- ===== src/Learnings/Decisions.antt =====
-- What a review changes.
use hara_control.Common.{
  find, update_where, find-true, find-replace, ℕ, suc, ◌+◌, ◌≤◌, String, ◌≡◌, refl, sym, ap, ◌∙◌,
  ◌⊎◌, inl, inr, Bool, true, false, Option, none, some, List, [], ◌∷◌, arith, ◌==◌, eq_iff, eq_refl,
  if◌then◌else◌, Bool-cases, Option-cases, or_else, ok, Outcome-cases,
}
use hara_control.Host.{Host}
use hara_control.Learnings.Types.{
  Decision, approve, reject, revoke, Candidate, Organization, Db, ReviewDto,
}
use hara_control.Learnings.{same_text, by_id}
use hara_control.Learnings.Review.{
  is_truthy, decide, org_by_id, bumped, version_of, raise_version, signed, apply_review,
}
use hara_control.Learnings.Published.{
  view, published, version_at, IsTable, SameKeys, replace-IsTable, replace-published,
}

same_text_sound : (a b : Option String) → same_text a b ≡ true → a ≡ b
same_text_sound none none h = refl
same_text_sound (some a) (some b) h = ground (arith, eq_iff a b)
same_text_sound _ _ h = cc

decide-SameKeys :
    (d : Decision) (c to : Candidate) (active : Bool) → decide d c ≡ ok (to, active) → SameKeys c to
unfolding decide
decide-SameKeys approve c to active e = ground arith
decide-SameKeys reject c to active e = ground arith
decide-SameKeys revoke c to active e = ground arith

decide-revision :
    (d : Decision) (c to : Candidate) (active : Bool)
    → decide d c ≡ ok (to, active)
    → to.revision ≡ c.revision
unfolding decide
decide-revision approve c to active e = ground arith
decide-revision reject c to active e = ground arith
decide-revision revoke c to active e = ground arith

-- A decision that is not active leaves the approved text.
decide-view :
    (org_id : String) (d : Decision) (c to : Candidate)
    → decide d c ≡ ok (to, false)
    → view org_id to ≡ view org_id c
unfolding decide
decide-view org_id approve c to e = ground (
  arith,
  eq_iff (or_else c.pending_summary c.summary) c.summary,
  same_text_sound (if is_truthy c.pending_summary then c.pending_rationale else c.rationale)
      c.rationale,
)
decide-view org_id reject c to e = ground arith
decide-view org_id revoke c to e = ground arith

-- Another organization's devices see nothing of a candidate.
view-other :
    (org_id : String) (c to : Candidate)
    → SameKeys c to
    → (c.org_id == org_id) ≡ false
    → view org_id to ≡ view org_id c
view-other org_id c to s h = rw (s.same_org, h)

raise_version_cases :
    (org_id : String) (active : Bool) (rows rows' : List Organization) (version : ℕ)
    → raise_version org_id active rows ≡ ok (version, rows')
    → ((active ≡ false) × (rows' ≡ rows) × (version ≡ version_of (find (org_by_id org_id) rows)))
      ⊎ ((active ≡ true)
          × (o : Organization) × (find (org_by_id org_id) rows ≡ some o)
          × (version ≡ o.learning_version + 1)
          × (rows' ≡ update_where (org_by_id org_id) bumped rows))
unfolding raise_version
raise_version_cases org_id false rows rows' version e = inl (refl, ground arith, ground arith)
raise_version_cases org_id true rows rows' version e =
    elim (Option-cases (find (org_by_id org_id) rows)) [
      | inl missing ↦ cc (rw missing at e)
      | inr (o, found) ↦ let e' = rw found at e in inr (refl, o, found, ground arith, ground arith)
    ]

-- The version of an organization after its rows are raised.
find-bumped :
    (org_id other : String) (rows : List Organization)
    → version_of (find (org_by_id other) (update_where (org_by_id org_id) bumped rows)) ≡ (
        if org_id == other
        then (elim (find (org_by_id other) rows) [ none ↦ 0 | some o ↦ o.learning_version + 1 ])
        else version_of (find (org_by_id other) rows))
unfolding find update_where
find-bumped org_id other [] = ground arith
find-bumped org_id other (o ∷ rows) = ground (
  arith,
  find-bumped org_id other rows,
  eq_iff o.id org_id,
  eq_iff o.id other,
  eq_iff org_id other,
)

find-bumped_self :
    (org_id : String) (rows : List Organization) {o : Organization}
    → find (org_by_id org_id) rows ≡ some o
    → version_of (find (org_by_id org_id) (update_where (org_by_id org_id) bumped rows))
      ≡ o.learning_version + 1
find-bumped_self org_id rows found = find-bumped org_id org_id rows ∙ rw (eq_refl org_id, found)

find-bumped_other :
    (org_id other : String) (rows : List Organization)
    → (org_id == other) ≡ false
    → version_of (find (org_by_id other) (update_where (org_by_id org_id) bumped rows))
      ≡ version_of (find (org_by_id other) rows)
find-bumped_other org_id other rows foreign = find-bumped org_id other rows ∙ rw foreign

-- What a review that returns has done.
pub record IsReviewed (dto : ReviewDto) (id : String) (db : Db) (c : Candidate) (version : ℕ)
    (db' : Db) : Type 0 where
  pub from : Candidate
  pub found : find (by_id id) db.candidates ≡ some from
  pub expected : from.revision ≡ dto.expected_revision
  pub advanced : c.revision ≡ suc from.revision
  pub replaced : find (by_id id) db'.candidates ≡ some c
  -- No organization's version falls, and the texts of one whose version stays are the same.
  pub versions : (org_id : String) → version_at org_id db ≤ version_at org_id db'
  pub texts :
      (org_id : String)
      → version_at org_id db' ≡ version_at org_id db
      → published org_id db' ≡ published org_id db
  pub keyed : IsTable db'.candidates
  pub reported : version ≡ version_at from.org_id db'

module _ (host : Host) (now : ℕ) (id : String) (dto : ReviewDto) (email : String) (db : Db)
    (from : Candidate) where
  apply_review_parts :
      (c : Candidate) (version : ℕ) (active : Bool) (db' : Db)
      → apply_review host now id dto email from db ≡ ok (c, version, active, db')
      → (from.revision ≡ dto.expected_revision)
        × (to : Candidate) × (decide dto.decision from ≡ ok (to, active))
        × (c ≡ signed host now email dto.note to)
        × (raise_version from.org_id active db.organizations ≡ ok (version, db'.organizations))
        × (db'.candidates ≡ update_where (by_id id) (λ r. c) db.candidates)
  unfolding apply_review
  apply_review_parts c version active db' e = elim (Outcome-cases (decide dto.decision from)) [
    | inr (f, d) ↦ ground arith
    | inl ((to, act), d) ↦ elim (Outcome-cases (raise_version from.org_id act db.organizations)) [
      | inr (f, r) ↦ ground arith
      | inl ((v, rows), r) ↦
          (ground arith, to, ground arith, ground arith, ground arith, ground arith)
    ]
  ]

  signed-view :
      (org_id : String) (c : Candidate)
      → view org_id (signed host now email dto.note c) ≡ view org_id c
  unfolding signed
  signed-view org_id c = refl

  signed-SameKeys : (c : Candidate) → SameKeys c (signed host now email dto.note c)
  unfolding signed
  signed-SameKeys c = record {
    same_id = refl;
    same_org = refl;
    same_pattern = refl;
    same_kind_of = refl;
  }

  decided-SameKeys :
      (to : Candidate) (active : Bool)
      → decide dto.decision from ≡ ok (to, active)
      → SameKeys from (signed host now email dto.note to)
  decided-SameKeys to active d =
      let h = decide-SameKeys dto.decision from to active d in
      let k = signed-SameKeys to in
      record {
        same_id = k.same_id ∙ h.same_id;
        same_org = k.same_org ∙ h.same_org;
        same_pattern = k.same_pattern ∙ h.same_pattern;
        same_kind_of = k.same_kind_of ∙ h.same_kind_of;
      }

  decided-revision :
      (to : Candidate) (active : Bool)
      → decide dto.decision from ≡ ok (to, active)
      → (signed host now email dto.note to).revision ≡ suc from.revision
  unfolding signed
  decided-revision to active d = omega (arith, decide-revision dto.decision from to active d)

  -- The versions and the texts after the organization's rows and the candidate's row are written.
  version_texts :
      (to : Candidate) (active : Bool) (version : ℕ) (db' : Db)
      → decide dto.decision from ≡ ok (to, active)
      → raise_version from.org_id active db.organizations ≡ ok (version, db'.organizations)
      → (org_id : String)
      → (version_at org_id db ≤ version_at org_id db')
        × (version_at org_id db' ≡ version_at org_id db
            → view org_id (signed host now email dto.note to) ≡ view org_id from)
        × (version ≡ version_at from.org_id db')
  version_texts to false version db' d r org_id =
      elim (raise_version_cases from.org_id false db.organizations db'.organizations version r) [
        | inl (_, same, v) ↦ (
          rw same (omega arith),
          λ e. signed-view org_id to ∙ decide-view org_id dto.decision from to d,
          rw same v,
        )
        | inr (h, _, _, _, _) ↦ cc
      ]
  version_texts to true version db' d r org_id =
      elim (raise_version_cases from.org_id true db.organizations db'.organizations version r) [
        | inl (h, _, _) ↦ cc
        | inr (_, o, found, v, rows) ↦ elim (Bool-cases (from.org_id == org_id)) [
          | inl own ↦
              let same : from.org_id ≡ org_id = (eq_iff from.org_id org_id).0 own in
              let up : version_at org_id db' ≡ version_at org_id db + 1 =
                rw (rows, ← same)
                  (find-bumped_self from.org_id db.organizations found
                    ∙ ap (λ w. version_of w + 1) (sym found)) in
              (
                omega arith,
                λ e. absurd (omega arith),
                v ∙ sym (rw rows (find-bumped_self from.org_id db.organizations found)),
              )
          | inr foreign ↦
              let kept : version_at org_id db' ≡ version_at org_id db =
                rw rows (find-bumped_other from.org_id org_id db.organizations foreign) in
              (
                omega arith,
                λ e.
                    view-other org_id from (signed host now email dto.note to)
                      (decided-SameKeys to true d) foreign,
                v ∙ sym (rw rows (find-bumped_self from.org_id db.organizations found)),
              )
        ]
      ]

  -- A review that returns saw the expected revision and advances it. No version falls by it, and an
  -- organization whose version stays has the same approved texts.
  pub apply_review-IsReviewed :
      (c : Candidate) (version : ℕ) (active : Bool) (db' : Db)
      → apply_review host now id dto email from db ≡ ok (c, version, active, db')
      → find (by_id id) db.candidates ≡ some from
      → IsTable db.candidates
      → IsReviewed dto id db c version db'
  apply_review-IsReviewed c version active db' e found h =
      let (expected, to, d, row, r, stored) = apply_review_parts c version active db' e in
      let keys : SameKeys from c = rw row (decided-SameKeys to active d) in
      record {
        from = from;
        found = found;
        expected = expected;
        advanced = rw row (decided-revision to active d);
        replaced = rw stored (
            find-replace (by_id id) c db.candidates found
              (rw keys.same_id (find-true (by_id id) db.candidates found)));
        versions = λ org_id. (version_texts to active version db' d r org_id).0;
        texts = λ org_id same. rw stored (
            replace-published org_id id from c db.candidates
              (rw row ((version_texts to active version db' d r org_id).1 same)) found h);
        keyed = rw stored (replace-IsTable id from c db.candidates keys found h);
        reported = (version_texts to active version db' d r from.org_id).2;
      }
