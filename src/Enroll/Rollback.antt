-- ===== src/Enroll/Rollback.antt =====
-- A failed enrollment: a code that can be used again, and all that must be undone for it.
use hara_control.Common.{
  Apart, any, update_where, ℕ, String, ◌≡◌, refl, ap, ◌∙◌, subst, ◌⊎◌, inl, inr, Bool, true, false,
  not, ◌&&◌, Option, none, List, arith, Bool-cases, Fault, Outcome, err, ok,
}
use hara_control.Host.{Host}
use hara_control.Tokens.{Env}
use hara_control.License.{LicenseService}
use hara_control.Secrets.{Kms}
use hara_control.Bindings.Requests.{ParseUrl}
use hara_control.Bindings.Probe.{Reader}
use hara_control.Enroll.Provisioner.{Target, read_revocation, accepts}
use hara_control.Enroll.Registration.{stop}
use hara_control.Enroll.Exchange.{World, Admitted, is_claimable, used, claim, release_claim, admit}
use hara_control.Enroll.Cleanup.{
  Cleaned, is_confirmed, succeeds, restore_code, log_rollback, cleanup, concluded, enroll_claimed,
  enroll_admitted, enroll,
}
use hara_control.Enroll.Partial.{IsFreshId, IsPartial, Ends, desk_accepts, try_enroll-Ends}
use hara_control.Enroll.Claims.{same_code, is_reusable, release_used, claimed_unusable}
use hara_control.Enroll.Stages.{
  IsRemoved, start-IsCleaning, mark-IsCleaning, compensate-IsCleaning, revoke-IsCleaning,
  remove-IsRemoved,
}
use hara_control.Enroll.Flags.{IsCompensating, removal, removal_flags}
use hara_control.Enroll.Saga.{orphaned}
use hara_control.Enroll.Progress.{IssuedKey, DeviceInfo, Events, Progress, Stop, Run, done, stopped}

-- The tables and the gateway's keys are what they were.
pub record IsRestored (w left : World) : Type 0 where
  pub codes : left.codes ≡ w.codes
  pub devices : left.db.devices ≡ w.db.devices
  pub tokens : left.tokens ≡ w.tokens
  pub keys : left.keys ≡ w.keys

abbrev pub IsOutcome : String → World → World → Type 0
IsOutcome code_id w left = IsRestored w left ⊎ (any (is_reusable code_id) left.codes ≡ false)

-- An outcome, but for the key that stays live where the gateway fails to issue one.
abbrev pub IsOutcomeOf : Events → String → World → World → Type 0
IsOutcomeOf events code_id w left =
    IsOutcome code_id w left ⊎ IsOutcome code_id (orphaned events.orphan events.issue w) left

orphaned-none :
    (orphan : Option String) (issue : Outcome IssuedKey) (w : World)
    → orphan ≡ none
    → orphaned orphan issue w ≡ w
orphaned-none orphan issue w e = rw e refl

removal-IsRemoved :
    (reader : Reader) (now : ℕ) (events : Events) (a : Admitted) (stop : Stop) (p : Progress)
    (w : World)
    → IsPartial events.device_id w p
    → IsRemoved w (removal reader now events a stop p)
removal-IsRemoved reader now events a stop p w h =
    let id = events.device_id in
    remove-IsRemoved id w p events _ (
      revoke-IsCleaning id w p events p.issued _ refl h.fresh (
        compensate-IsCleaning id w p reader events p.receipt _ (
          mark-IsCleaning id w p now events a.owner stop.desk_failure p.device p.prepared _ refl
            (start-IsCleaning id w p stop h))))

module _ (now : ℕ) (events : Events) (code_id : String) (w : World)
    (apart : Apart same_code w.codes) (free : any (is_claimable code_id now) w.codes ≡ true) where
  abbrev claimed : World
  claimed = record w { codes = update_where (is_claimable code_id now) (used now) w.codes }

  restored :
      (c : Cleaned)
      → IsRemoved claimed c
      → (c.gateway_revoked && (c.desk_revoked && c.device_removed)) ≡ true
      → IsRestored w (record c.world { codes = release_claim code_id now c.world.codes })
  restored c h flags = record {
    codes = ap (release_claim code_id now) h.codes ∙ release_used code_id now w.codes apart free;
    devices = h.devices (ground arith);
    tokens = h.tokens (ground arith);
    keys = h.keys (ground arith);
  }

  restore-IsOutcome :
      (c : Cleaned)
      → IsRemoved claimed c
      → IsOutcome code_id w (restore_code now events code_id c).world
  unfolding restore_code
  restore-IsOutcome c h =
      elim (Bool-cases (
        not (
          (c.gateway_revoked && (c.desk_revoked && c.device_removed))
          && succeeds events.restore))) [
            | inl kept ↦ rw kept (
                inr (
                  ap (any (is_reusable code_id)) h.codes
                  ∙ claimed_unusable code_id now w.codes apart free))
            | inr passed ↦ rw passed (inl (restored c h (ground arith)))
          ]

restore-IsRestored :
    (now : ℕ) (events : Events) (code_id : String) (w : World) (apart : Apart same_code w.codes)
    (free : any (is_claimable code_id now) w.codes ≡ true) (c : Cleaned)
    → IsRemoved (claimed now events code_id w apart free) c
    → events.restore ≡ none
    → (c.gateway_revoked && (c.desk_revoked && c.device_removed)) ≡ true
    → IsRestored w (restore_code now events code_id c).world
unfolding restore_code
restore-IsRestored now events code_id w apart free c h r flags =
    rw (flags, r) (restored now events code_id w apart free c h flags)

log-IsRestored :
    (events : Events) (org_id : String) (logged : Bool) (device : Option String) (c : Cleaned)
    (w : World)
    → IsRestored w c.world
    → IsRestored w (log_rollback events org_id logged device c).world
unfolding log_rollback
log-IsRestored events org_id logged device c w r =
    elim (Bool-cases (not (logged && succeeds events.log_rollback))) [
      | inl silent ↦ rw silent r
      | inr written ↦
          rw written
            (record { codes = r.codes; devices = r.devices; tokens = r.tokens; keys = r.keys })
    ]

log-IsOutcome :
    (events : Events) (org_id : String) (logged : Bool) (device : Option String) (c : Cleaned)
    (code_id : String) (w : World)
    → IsOutcome code_id w c.world
    → IsOutcome code_id w (log_rollback events org_id logged device c).world
unfolding log_rollback
log-IsOutcome events org_id logged device c code_id w h =
    elim (Bool-cases (not (logged && succeeds events.log_rollback))) [
      | inl silent ↦ rw silent h
      | inr written ↦ rw written (elim h [
        | inl r ↦
            inl (record { codes = r.codes; devices = r.devices; tokens = r.tokens; keys = r.keys })
        | inr held ↦ inr held
      ])
    ]

module _ (host : Host) (parse_url : ParseUrl) (reader : Reader) (stringify : List String → String)
    (kms : Kms) (legacy : List (String × Target)) (env : Env) (license : LicenseService) (now : ℕ)
    (events : Events) (code : String) (info : DeviceInfo) (read w left : World) (a : Admitted)
    (fault : Fault) where
  failed_run :
      (P : World → Type 0) (w' : World) (run : Run)
      → Ends events.device_id w'
          (orphaned events.orphan events.issue w')
          (desk_accepts host parse_url reader stringify kms legacy now events info a w'
            (orphaned events.orphan events.issue w'))
          run
      → ((stop : Stop) (p : Progress)
          → (IsPartial events.device_id w' p
              ⊎ IsPartial events.device_id (orphaned events.orphan events.issue w') p)
          → (accepts (read_revocation reader true events.desk.revoke) ≡ true
              → is_confirmed stop.desk_failure ≡ true)
          → P (cleanup reader now events a stop p).world)
      → concluded reader now events a run ≡ (err fault, left)
      → P left
  unfolding concluded
  failed_run P w' (done reply end) ends clean e = cc e
  failed_run P w' (stopped stop p) ends clean e =
      subst P (ap (λ x. x.1) e) (clean stop p ends.0 ends.1)

  cleaned-IsOutcome :
      (x : World) (apart : Apart same_code x.codes)
      (free : any (is_claimable a.code.id now) x.codes ≡ true) (stop : Stop) (p : Progress)
      → IsPartial events.device_id (claimed now events a.code.id x apart free) p
      → IsOutcome a.code.id x (cleanup reader now events a stop p).world
  unfolding cleanup
  cleaned-IsOutcome x apart free stop p h =
      log-IsOutcome events a.code.org_id p.logged p.device _ a.code.id x (
        restore-IsOutcome now events a.code.id x apart free _
          (removal-IsRemoved reader now events a stop p _ h))

  cleaned-IsRestored :
      IsCompensating reader events
      → (x : World) (apart : Apart same_code x.codes)
        (free : any (is_claimable a.code.id now) x.codes ≡ true) (stop : Stop) (p : Progress)
      → IsPartial events.device_id (claimed now events a.code.id x apart free) p
      → (accepts (read_revocation reader true events.desk.revoke) ≡ true
          → is_confirmed stop.desk_failure ≡ true)
      → IsRestored x (cleanup reader now events a stop p).world
  unfolding cleanup
  cleaned-IsRestored good x apart free stop p h known =
      log-IsRestored events a.code.org_id p.logged p.device _ x (
        restore-IsRestored now events a.code.id x apart free _
          (removal-IsRemoved reader now events a stop p _ h) good.restores
          (removal_flags reader now events a stop p good (known good.confirms_failed)))

  -- An enrollment that throws after its checks, wherever it breaks, leaves its one-time code
  -- usable only if it leaves nothing of itself but a key that it never got: either the codes, the
  -- devices and the tokens are what they were before, and so are the keys of the gateway or, if
  -- the gateway failed to issue the key, the keys and the one that this failure left live; or no
  -- row with the id of the code is unused. No two codes have one id, and the device and the key
  -- of the enrollment are new.
  pub enroll-IsOutcome :
      admit host env license now code read ≡ ok a
      → Apart same_code w.codes
      → IsFreshId events.device_id events.issue w
      → enroll host parse_url reader stringify kms legacy env license now events code info read w
        ≡ (err fault, left)
      → IsOutcomeOf events a.code.id w left
  unfolding enroll enroll_admitted enroll_claimed claim
  enroll-IsOutcome admitted apart fresh e =
      elim (Bool-cases (any (is_claimable a.code.id now) w.codes)) [
        | inr lost ↦
            let same : w ≡ left = ap (λ x. x.1) (rw (admitted, lost) at e) in
            inl (
              inl (rw (← same) record { codes = refl; devices = refl; tokens = refl; keys = refl }))
        | inl free ↦
            let w' = record w {
              codes = update_where (is_claimable a.code.id now) (used now) w.codes;
            } in
            failed_run (IsOutcomeOf events a.code.id w) w' _
              (try_enroll-Ends host parse_url reader stringify kms legacy now events info a w' _
                (record { key = fresh.key; device = fresh.device; token = fresh.token }) refl)
              (λ stop p h _. elim h [
                | inl mine ↦ inl (cleaned-IsOutcome w apart free stop p mine)
                | inr orphan ↦ inr (
                    cleaned-IsOutcome (orphaned events.orphan events.issue w) apart free stop p
                      orphan)
              ])
              (rw (admitted, free) at e)
      ]

  -- An enrollment that throws after its checks, whatever failed, undoes itself if every
  -- compensation succeeds: the gateway revokes the key, or leaves none that it failed to issue,
  -- Desk confirms that the installation is
  -- revoked, and the device and the claim can be written. The codes, the devices, the tokens and
  -- the gateway's keys are then what they were before. No two codes have one id, and the device
  -- and the key of the enrollment are new.
  pub enroll-IsRestored :
      IsCompensating reader events
      → admit host env license now code read ≡ ok a
      → Apart same_code w.codes
      → IsFreshId events.device_id events.issue w
      → enroll host parse_url reader stringify kms legacy env license now events code info read w
        ≡ (err fault, left)
      → IsRestored w left
  unfolding enroll enroll_admitted enroll_claimed claim
  enroll-IsRestored good admitted apart fresh e =
      elim (Bool-cases (any (is_claimable a.code.id now) w.codes)) [
        | inr lost ↦
            let same : w ≡ left = ap (λ x. x.1) (rw (admitted, lost) at e) in
            rw (← same) record { codes = refl; devices = refl; tokens = refl; keys = refl }
        | inl free ↦
            let w' = record w {
              codes = update_where (is_claimable a.code.id now) (used now) w.codes;
            } in
            failed_run (IsRestored w) w' _
              (try_enroll-Ends host parse_url reader stringify kms legacy now events info a w' _
                (record { key = fresh.key; device = fresh.device; token = fresh.token }) refl)
              (λ stop p h known. elim h [
                | inl mine ↦ cleaned-IsRestored good w apart free stop p mine known
                | inr orphan ↦
                    subst (λ x. IsRestored x (cleanup reader now events a stop p).world)
                      (orphaned-none events.orphan events.issue w good.clears)
                      (cleaned-IsRestored good (orphaned events.orphan events.issue w) apart free
                        stop p orphan known)
              ])
              (rw (admitted, free) at e)
      ]
