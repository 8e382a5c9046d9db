-- ===== src/Bindings/Fenced.antt =====
-- Every attached device stays at the origin of its organization's binding, in every reachable state.
use hara_control.Common.{
  All-map, update_where, All, All-concat, find-All, All-update_where, All-keep, ℕ, String, ◌≡◌,
  refl, sym, ap, ◌∙◌, inl, inr, true, not, some, List, [], ◌∷◌, arith, Bool-cases,
}
use hara_control.Fleet.{DeviceRow, device_by_id, is_attached, reserved, desk_provisioned, revoked}
use hara_control.Bindings.Types.{desk_tasks, Binding, Db, by_service}
use hara_control.Bindings.{
  commit_verification_result, reserve_locked, is_reserved, detached, clear_reservation,
}
use hara_control.Bindings.Steps.{
  IsTable, Step, upsert_step, disable_step, verify_step, reserve_step, clear_step, enroll_step,
  provision_step, detach_step, delete_step, other_step, Reach, here, next, IsTimely, IsTimelyRun,
  Change,
}
use hara_control.Bindings.Changes.{upsert-Change, disable-Change, judge-Change, Step-Change}
use hara_control.Bindings.Provenance.{
  Matches, IsFenced, unattached-Matches, Change-IsTable, Change-All,
}
use hara_control.Bindings.Reservation.{Reserves, untouched, taken, reserve-Reserves}

provision-Matches :
    (now : ℕ) (device_id owner origin : String) (rows : List Binding) (devices : List DeviceRow)
    → All
        (λ d.
          device_by_id device_id d ≡ true → (is_attached d ≡ true) × (d.desk_origin ≡ some origin))
        devices
    → All (λ d. All (Matches d) rows) devices
    → All
        (λ d. All (Matches d) rows)
        (update_where (device_by_id device_id) (desk_provisioned now owner origin) devices)
unfolding update_where
provision-Matches now device_id owner origin rows [] _ _ = tt
provision-Matches now device_id owner origin rows (d ∷ devices) (held, k) (m, h) =
    elim (Bool-cases (device_by_id device_id d)) [
      | inl hit ↦ rw hit (
        All-map (Matches d) (Matches (desk_provisioned now owner origin d)) rows
            (λ b n _ mine. sym (held hit).1 ∙ n (held hit).0 mine) m,
        provision-Matches now device_id owner origin rows devices k h,
      )
      | inr miss ↦ rw miss (m, provision-Matches now device_id owner origin rows devices k h)
    ]

reserved-Matches :
    (at : ℕ) (org_id owner origin : String) (found : DeviceRow) (rows : List Binding)
    → found.org_id ≡ org_id
    → All (λ b. by_service org_id desk_tasks b ≡ true → b.config.api_origin ≡ origin) rows
    → All (Matches (reserved at owner origin found)) rows
reserved-Matches at org_id owner origin found rows o named =
    All-map (λ b. by_service org_id desk_tasks b ≡ true → b.config.api_origin ≡ origin)
      (Matches (reserved at owner origin found)) rows
      (λ b name held mine. ap some (sym (name (rw (← o) mine)))) named

reserve-IsFenced :
    (at : ℕ) (org_id device_id owner : String) (db db' : Db)
    → All (λ d. device_by_id device_id d ≡ true → d.org_id ≡ org_id) db.devices
    → Reserves at org_id device_id owner db db'
    → IsFenced db
    → IsFenced db'
reserve-IsFenced at org_id device_id owner db db' mine (untouched e) h = rw e h
reserve-IsFenced at org_id device_id owner db db' mine (taken found origin e named left) h =
    rw (← left) (
      let (o, hit) =
        find-All (λ d. device_by_id device_id d ≡ true → d.org_id ≡ org_id) (device_by_id device_id)
          db.devices e mine in
      record {
        table = h.table;
        matched =
            All-update_where (λ d. All (Matches d) db.bindings) (device_by_id device_id)
              (λ d. reserved at owner origin found) db.devices
              (λ d _ _. reserved-Matches at org_id owner origin found db.bindings (o hit) named)
              h.matched;
      })

Change-IsFenced :
    (db db' : Db)
    → Change db.devices db.bindings db'.bindings × (db'.devices ≡ db.devices)
    → IsFenced db
    → IsFenced db'
Change-IsFenced db db' (change, same) h = record {
  table = Change-IsTable db.devices db.bindings db'.bindings change h.table;
  matched = rw same (Change-All db.devices db.bindings db'.bindings change h.matched);
}

pub Step-IsFenced : {db db' : Db} (s : Step db db') → IsTimely s → IsFenced db → IsFenced db'
unfolding commit_verification_result reserve_locked clear_reservation
Step-IsFenced {db} {db'}
      (upsert_step now new_id org_id service config capabilities new_ref row retired fresh e) _ h =
    Change-IsFenced db db'
      (upsert-Change now new_id org_id service config capabilities new_ref db row retired db' fresh
        e)
      h
Step-IsFenced {db} {db'} (disable_step now org_id service row e) _ h =
    Change-IsFenced db db' (disable-Change now org_id service db row db' e) h
Step-IsFenced {db} {db'} (verify_step now probed status verified_at row e) _ h =
    rw (← ap (λ x. x.1) e)
      (Change-IsFenced db _ (judge-Change now probed status verified_at db _ refl) h)
Step-IsFenced {db} {db'} (reserve_step at org_id device_id owner legacy captured mine e) _ h =
    reserve-IsFenced at org_id device_id owner db db' mine
      (reserve-Reserves at org_id device_id owner db legacy _ captured db' refl h.table e) h
Step-IsFenced {db} {db'} (clear_step org_id device_id owner origin e) _ h = rw (← e) record {
  table = h.table;
  matched =
      All-update_where (λ d. All (Matches d) db.bindings)
        (is_reserved org_id device_id owner origin) detached db.devices
        (λ d hit _. unattached-Matches (detached d) db.bindings (ground arith)) h.matched;
}
Step-IsFenced {db} {db'} (enroll_step d e1 e) _ h = rw (← e) record {
  table = h.table;
  matched =
      All-concat (λ d. All (Matches d) db.bindings) db.devices d h.matched
        (unattached-Matches d db.bindings e1);
}
Step-IsFenced {db} {db'} (provision_step now device_id owner origin e) mine h = rw (← e) record {
  table = h.table;
  matched = provision-Matches now device_id owner origin db.bindings db.devices mine h.matched;
}
Step-IsFenced {db} {db'} (detach_step now device_id e) _ h = rw (← e) record {
  table = h.table;
  matched =
      All-update_where (λ d. All (Matches d) db.bindings) (device_by_id device_id)
        (revoked now true) db.devices
        (λ d _ _. unattached-Matches (revoked now true d) db.bindings refl) h.matched;
}
Step-IsFenced {db} {db'} (delete_step device_id e) _ h = rw (← e) record {
  table = h.table;
  matched =
      All-keep (λ d. All (Matches d) db.bindings) (λ d. not (device_by_id device_id d)) db.devices
        h.matched;
}
Step-IsFenced {db} {db'} (other_step e e1) _ h = record {
  table = rw e h.table;
  matched = rw (e, e1) h.matched;
}

-- From tables in which every device that holds on to a Desk installation is at the origin that
-- its organization's Desk binding names, and the bindings' keys are unique, every run of
-- upserts, disablings, verifications, reservations and their clearing, enrollments,
-- provisionings, completed revocations and removals leaves such tables, if each provisioning
-- in it finds its device still reserved at the origin.
pub Reach-IsFenced : {db db' : Db} (r : Reach db db') → IsTimelyRun r → IsFenced db → IsFenced db'
Reach-IsFenced here _ h = h
Reach-IsFenced (next r s) (early, timely) h = Step-IsFenced s timely (Reach-IsFenced r early h)

-- The keys of the table of bindings stay unique over every run.
pub Reach-IsTable : {db db' : Db} → Reach db db' → IsTable db.bindings → IsTable db'.bindings
Reach-IsTable here h = h
Reach-IsTable (next {db'} {db''} r s) h =
    Change-IsTable db'.devices db'.bindings db''.bindings (Step-Change s) (Reach-IsTable r h)
