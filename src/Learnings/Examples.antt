-- ===== src/Learnings/Examples.antt =====
-- The learning service at concrete requests.
use hara_control.Common.{
  find, any, keep, update_where, ◌≤◌, ◌≡◌, refl, true, false, none, some, [], ◌∷◌, ◌++◌, arith,
  conflict, ok, err,
}
use hara_control.Host.Plain.{plain}
use hara_control.Tokens.{Env, device_spend_cap_usd, over_cap, assert_token_usable}
use hara_control.License.{LicenseService, claims_feature, has_feature, assert_feature}
use hara_control.Devices.{Device, row_token, row_device, device_identity}
use hara_control.Json.{bool, num, str, obj, end, field}
use hara_control.Learnings.Types.{
  workflow, pending, approved, approve, reject, Candidate, Db, SubmitDto, ReviewDto,
}
use hara_control.Learnings.{
  Kind-discrete, Status-discrete, max_observations_per_candidate, is_unsafe, safe_text,
  required_safe_text, safe_evidence, add_observations, distinct_tasks, propose, counted,
  store_evidence, store_candidate, submitted_audit, submit,
}
use hara_control.Learnings.Review.{
  decide, raise_version, reviewed_audit, signed, apply_review, review,
}
use hara_control.Learnings.Published.{published, version_at}
use hara_control.Learnings.Submission.{IsQuiet, submit-IsQuiet}
use hara_control.Learnings.Reach.{
  stale_review, submit_step, review_step, Reach, here, next, Reach-texts, Reach-version_at,
}
use hara_control.Learnings.Capacity.{evidence_of, submit-capacity}

abbrev empty_env : Env
empty_env name = none

abbrev dev_license : LicenseService
dev_license = record { claims = none; dev_bypass = true; is_saas = false }

abbrev laptop : Device
laptop = record { id = "d1"; org_id = "o1" }

abbrev rule : Candidate
rule = record {
  id = "c1";
  org_id = "o1";
  pattern_key = "deploy";
  kind = workflow;
  summary = "run the tests";
  rationale = none;
  pending_summary = none;
  pending_rationale = none;
  pending_at = none;
  status = pending;
  occurrence_count = 0;
  distinct_task_count = 0;
  revision = 1;
  source_version = "1";
  reviewed_at = none;
  reviewed_by = none;
  review_note = none;
  created_at = 0;
  updated_at = 0;
}

abbrev start_db : Db
start_db = record {
  candidates = rule ∷ [];
  observations = [];
  organizations = record { id = "o1"; learning_version = 4 } ∷ [];
  device_tokens =
      record {
        token_hash = "aa";
        token = record {
          revoked_at = none;
          expires_at = none;
          device_id = "d1";
          gateway_key_id = "k";
        };
        device = some laptop;
      }
      ∷ [];
  audits = [];
}

abbrev approval : ReviewDto
approval = record { decision = approve; expected_revision = 1; note = none }

abbrev approved_rule : Candidate
approved_rule = record rule {
  status = approved;
  revision = 2;
  reviewed_at = some 50;
  reviewed_by = some "ann@x";
  updated_at = 50;
}

abbrev approved_db : Db
approved_db = record start_db {
  candidates = approved_rule ∷ [];
  organizations = record { id = "o1"; learning_version = 5 } ∷ [];
  audits =
      record {
        org_id = "o1";
        action = "learning.candidate.approve";
        actor_type = "admin";
        actor_id = "u1";
        payload = obj (
            field "candidateId" (str "c1") (
              field "revision" (num 2)
                (field "activeChanged" (bool true) (field "learningVersion" (num 5) end))));
      }
      ∷ [];
}

first_review :
    review plain dev_license 50 "c1" approval "u1" "ann@x" start_db
    ≡ ok (approved_rule, 5, approved_db)
unfolding review apply_review assert_feature has_feature claims_feature decide signed raise_version
    reviewed_audit find update_where Status-discrete
first_review = refl

abbrev proposal : SubmitDto
proposal = record {
  client_id = "cli";
  pattern_key = "deploy";
  kind = workflow;
  summary = "skip the tests";
  rationale = none;
  source_version = "2";
  evidence =
      record {
        task_hash = "t";
        fingerprint = "f";
        summary = "seen";
        source = "runtime_guard";
        source_version = "2";
        observed_at = 55;
      }
      ∷ [];
}

abbrev proposed_rule : Candidate
proposed_rule = record approved_rule {
  pending_summary = some "skip the tests";
  pending_at = some 60;
  source_version = "2";
  occurrence_count = 1;
  distinct_task_count = 1;
  updated_at = 60;
}

abbrev proposed_db : Db
proposed_db = record approved_db {
  candidates = proposed_rule ∷ [];
  observations =
      record {
        candidate_id = "c1";
        org_id = "o1";
        device_id = "d1";
        client_id = "cli";
        task_hash = "t";
        fingerprint = "f";
        summary = "seen";
        source = "runtime_guard";
        source_version = "2";
        observed_at = 55;
      }
      ∷ [];
  audits =
      approved_db.audits
      ++ record {
        org_id = "o1";
        action = "learning.candidate.submit";
        actor_type = "device";
        actor_id = "d1";
        payload = obj (
            field "candidateId" (str "c1") (
              field "occurrenceCount" (num 1)
                (field "distinctTaskCount" (num 1) (field "hasPendingUpdate" (bool true) end))));
      }
        ∷ [];
}

first_submit :
    submit plain empty_env dev_license 60 "c2" (some "t1") proposal approved_db
    ≡ ok (proposed_rule, proposed_db)
unfolding submit device_identity row_token row_device assert_token_usable over_cap
    device_spend_cap_usd assert_feature has_feature required_safe_text safe_text is_unsafe
    safe_evidence store_candidate store_evidence propose counted add_observations distinct_tasks
    submitted_audit find any keep update_where Status-discrete Kind-discrete
first_submit = refl

two_steps : Reach plain empty_env dev_license start_db proposed_db
two_steps =
    next (next here (review_step 50 "c1" approval "u1" "ann@x" _ _ first_review))
      (submit_step 60 "c2" (some "t1") proposal _ (refl, tt) first_submit)

only_submit : Reach plain empty_env dev_license approved_db proposed_db
only_submit = next here (submit_step 60 "c2" (some "t1") proposal _ (refl, tt) first_submit)

Reach-texts_example : published "o1" proposed_db ≡ published "o1" approved_db
Reach-texts_example = Reach-texts "o1" only_submit (tt, tt) refl

Reach-version_at_example : version_at "o1" start_db ≤ version_at "o1" proposed_db
Reach-version_at_example = Reach-version_at "o1" two_steps (tt, tt)

submit-IsQuiet_example : IsQuiet approved_db proposed_db
submit-IsQuiet_example =
    submit-IsQuiet plain empty_env dev_license 60 "c2" (some "t1") proposal approved_db
      proposed_rule proposed_db first_submit (refl, tt) (tt, tt)

stale_review_example :
    review plain dev_license 70 "c1"
      (record approval { decision = reject })
      "u2"
      "bob@x"
      approved_db
    ≡ err (conflict "learning candidate changed")
stale_review_example =
    stale_review plain dev_license 50 70 "c1" approval (record approval { decision = reject }) "u1"
      "ann@x" "u2" "bob@x" start_db approved_rule 5 approved_db (tt, tt) first_review
      (unfold has_feature in refl) refl

submit-capacity_example : evidence_of "c1" proposed_db.observations ≤ max_observations_per_candidate
submit-capacity_example =
    submit-capacity plain empty_env dev_license 60 "c2" (some "t1") proposal approved_db
      proposed_rule proposed_db first_submit "c1" (unfold keep in omega arith)
