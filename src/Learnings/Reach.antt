-- ===== src/Learnings/Reach.antt =====
-- Submissions and reviews as steps: the version of an organization stands for its approved texts.
use hara_control.Common.{
  find, All, ℕ, ◌/◌, ◌≤◌, String, ◌≡◌, refl, ◌∙◌, inl, inr, true, false, Option, arith, eqb,
  Option-cases, conflict, ok, err, Outcome-cases,
}
use hara_control.Host.{Host}
use hara_control.Tokens.{Env}
use hara_control.License.{LicenseService, has_feature, assert_feature}
use hara_control.Learnings.Types.{Candidate, Db, SubmitDto, ReviewDto}
use hara_control.Learnings.{by_id, submit}
use hara_control.Learnings.Review.{apply_review, review}
use hara_control.Learnings.Published.{published, version_at, IsTable}
use hara_control.Learnings.Submission.{submit-IsQuiet}
use hara_control.Learnings.Decisions.{IsReviewed, apply_review-IsReviewed}

module _ (host : Host) (license : LicenseService) where
  -- What a review that returns has done to the tables, on candidates with different ids and keys.
  pub review-IsReviewed :
      (now : ℕ) (id : String) (dto : ReviewDto) (actor_id email : String) (db : Db) (c : Candidate)
      (version : ℕ) (db' : Db)
      → review host license now id dto actor_id email db ≡ ok (c, version, db')
      → IsTable db.candidates
      → IsReviewed dto id db c version db'
  unfolding review
  review-IsReviewed now id dto actor_id email db c version db' e h =
      elim (Option-cases (find (by_id id) db.candidates)) [
        | inl missing ↦ ground arith
        | inr (from, found) ↦ elim (Outcome-cases (apply_review host now id dto email from db)) [
          | inr (f, bad) ↦ ground arith
          | inl ((row, v, active, after), done) ↦
              let r =
                apply_review-IsReviewed host now id dto email db from row v active after done found
                  h in
              let one : c ≡ row = ground arith in
              let two : version ≡ v = ground arith in
              let rows : db'.candidates ≡ after.candidates = ground arith in
              let orgs : db'.organizations ≡ after.organizations = ground arith in
              record {
                from = r.from;
                found = r.found;
                expected = r.expected;
                advanced = rw one r.advanced;
                replaced = rw (rows, one) r.replaced;
                versions = λ org_id. rw orgs (r.versions org_id);
                texts = λ org_id. rw (orgs, rows) (r.texts org_id);
                keyed = rw rows r.keyed;
                reported = rw (two, orgs) r.reported;
              }
        ]
      ]

  -- After a review that returns, on candidates with different ids and keys, a second review of the
  -- same candidate that expects the same revision is refused as a conflict, whatever it decides, if
  -- the feature is licensed at its time.
  pub stale_review :
      (now later : ℕ) (id : String) (dto dto' : ReviewDto)
      (actor_id email actor_id' email' : String) (db : Db) (c : Candidate) (version : ℕ) (db' : Db)
      → IsTable db.candidates
      → review host license now id dto actor_id email db ≡ ok (c, version, db')
      → has_feature license "agent-org" (later / 1000) ≡ true
      → dto'.expected_revision ≡ dto.expected_revision
      → review host license later id dto' actor_id' email' db'
        ≡ err (conflict "learning candidate changed")
  unfolding review apply_review assert_feature
  stale_review now later id dto dto' actor_id email actor_id' email' db c version db' h e licensed
        same =
      let r = review-IsReviewed now id dto actor_id email db c version db' e h in
      let stale : eqb c.revision dto'.expected_revision ≡ false =
        ground (arith, r.advanced, r.expected) in
      rw (licensed, r.replaced, stale)

-- A submission gets an id that no stored row has, by the primary key.
pub data Step (host : Host) (env : Env) (license : LicenseService) (db db' : Db) : Type 0 where
  submit_step :
      (now : ℕ) (id : String) (bearer : Option String) (dto : SubmitDto) (c : Candidate)
      → All (λ d. by_id id d ≡ false) db.candidates
      → submit host env license now id bearer dto db ≡ ok (c, db')
      → Step host env license db db'
  review_step :
      (now : ℕ) (id : String) (dto : ReviewDto) (actor_id email : String) (c : Candidate)
      (version : ℕ)
      → review host license now id dto actor_id email db ≡ ok (c, version, db')
      → Step host env license db db'

pub data Reach (host : Host) (env : Env) (license : LicenseService) (db : Db) : Db → Type 0 where
  here : Reach host env license db db
  next :
      {db' db'' : Db}
      → Reach host env license db db'
      → Step host env license db' db''
      → Reach host env license db db''

-- What a run of requests leaves of an organization's version and texts.
pub record IsVersioned (org_id : String) (db db' : Db) : Type 0 where
  pub rises : version_at org_id db ≤ version_at org_id db'
  pub stands_for :
      version_at org_id db' ≡ version_at org_id db → published org_id db' ≡ published org_id db
  pub keyed : IsTable db'.candidates

module _ {host : Host} {env : Env} {license : LicenseService} (org_id : String) where
  Step-IsVersioned :
      {db db' : Db}
      → Step host env license db db'
      → IsTable db.candidates
      → IsVersioned org_id db db'
  Step-IsVersioned (submit_step now id bearer dto c fresh e) h =
      let q = submit-IsQuiet host env license now id bearer dto _ c _ e fresh h in
      record {
        rises = rw q.same_versions (omega arith);
        stands_for = λ same. q.same_texts org_id;
        keyed = q.keyed;
      }
  Step-IsVersioned (review_step now id dto actor_id email c version e) h =
      let r = review-IsReviewed host license now id dto actor_id email _ c version _ e h in
      record { rises = r.versions org_id; stands_for = r.texts org_id; keyed = r.keyed }

  pub Reach-IsVersioned :
      {db db' : Db}
      → Reach host env license db db'
      → IsTable db.candidates
      → IsVersioned org_id db db'
  Reach-IsVersioned here h = record { rises = omega arith; stands_for = λ same. refl; keyed = h }
  Reach-IsVersioned (next r s) h =
      let a = Reach-IsVersioned r h in
      let b = Step-IsVersioned s a.keyed in
      record {
        rises = omega (arith, a.rises, b.rises);
        stands_for = λ same.
            b.stands_for (omega (arith, a.rises, b.rises))
            ∙ a.stands_for (omega (arith, a.rises, b.rises));
        keyed = b.keyed;
      }

  -- After any run of accepted submissions and reviews that starts from candidates with different ids
  -- and keys, an organization whose learning version is what it was has the approved texts that it
  -- had: a client that knows the version misses no change of them.
  pub Reach-texts :
      {db db' : Db}
      → Reach host env license db db'
      → IsTable db.candidates
      → version_at org_id db' ≡ version_at org_id db
      → published org_id db' ≡ published org_id db
  Reach-texts r h same = (Reach-IsVersioned r h).stands_for same

  -- After any run of accepted submissions and reviews that starts from candidates with different ids
  -- and keys, an organization's learning version is at least what it was.
  pub Reach-version_at :
      {db db' : Db}
      → Reach host env license db db'
      → IsTable db.candidates
      → version_at org_id db ≤ version_at org_id db'
  Reach-version_at r h = (Reach-IsVersioned r h).rises
