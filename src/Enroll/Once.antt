-- ===== src/Enroll/Once.antt =====
-- A one-time code buys one device.
use hara_control.Common.{
  Apart, any, update_where, ℕ, String, ◌≡◌, refl, ap, ◌∙◌, inl, inr, Bool, false, List, [], ◌∷◌,
  arith, Bool-cases, err, ok,
}
use hara_control.Host.{Host}
use hara_control.Tokens.{Env}
use hara_control.License.{LicenseService}
use hara_control.Secrets.{Kms}
use hara_control.Bindings.Requests.{ParseUrl}
use hara_control.Bindings.Probe.{Reader}
use hara_control.Enroll.Provisioner.{Target}
use hara_control.Enroll.Registration.{stop}
use hara_control.Enroll.Exchange.{
  EnrollCode, World, Admitted, bad_code, is_claimable, used, claim, admit,
}
use hara_control.Enroll.Cleanup.{concluded, enroll_claimed, enroll_admitted, enroll}
use hara_control.Enroll.Partial.{IsFreshId, Ends, try_enroll-Ends}
use hara_control.Enroll.Claims.{same_code, is_reusable, claimed_unusable}
use hara_control.Enroll.Progress.{DeviceInfo, Events, Reply, Run, done, stopped}

-- A code that is used cannot be claimed.
claim_used :
    (id : String) (now : ℕ) (codes : List EnrollCode)
    → any (is_reusable id) codes ≡ false
    → claim id now codes ≡ err bad_code
unfolding claim any
claim_used id now codes e = rw (unclaimable codes e) refl
  where
    unclaimable :
        (codes : List EnrollCode)
        → any (is_reusable id) codes ≡ false
        → any (is_claimable id now) codes ≡ false
    unclaimable [] e = refl
    unclaimable (c ∷ codes) e = ground (arith, unclaimable codes)

module _ (host : Host) (parse_url : ParseUrl) (reader : Reader) (stringify : List String → String)
    (kms : Kms) (legacy : List (String × Target)) (env : Env) (license : LicenseService) where
  concluded_codes :
      (id : String) (w2 : World) (accepted : Bool) (now : ℕ) (events : Events) (a : Admitted)
      (w left : World) (run : Run) {reply : Reply}
      → Ends id w w2 accepted run
      → concluded reader now events a run ≡ (ok reply, left)
      → left.codes ≡ w.codes
  unfolding concluded
  concluded_codes id w2 accepted now events a w left (done r end) ends e =
      let same : end ≡ left = cc e in rw (← same) ends
  concluded_codes id w2 accepted now events a w left (stopped stop p) ends e = cc e

  enrolled_unusable :
      (now : ℕ) (events : Events) (code : String) (info : DeviceInfo) (read w left : World)
      (a : Admitted) (reply : Reply)
      → admit host env license now code read ≡ ok a
      → Apart same_code w.codes
      → IsFreshId events.device_id events.issue w
      → enroll host parse_url reader stringify kms legacy env license now events code info read w
        ≡ (ok reply, left)
      → any (is_reusable a.code.id) left.codes ≡ false
  unfolding enroll enroll_admitted enroll_claimed claim
  enrolled_unusable now events code info read w left a reply admitted apart fresh e =
      elim (Bool-cases (any (is_claimable a.code.id now) w.codes)) [
        | inr lost ↦ cc (rw (admitted, lost) at e)
        | inl free ↦
            let w' = record w {
              codes = update_where (is_claimable a.code.id now) (used now) w.codes;
            } in
            ap (any (is_reusable a.code.id)) (
              concluded_codes events.device_id _ _ now events a w' left _
                (try_enroll-Ends host parse_url reader stringify kms legacy now events info a w' _
                  (record { key = fresh.key; device = fresh.device; token = fresh.token }) refl)
                (rw (admitted, free) at e))
            ∙ claimed_unusable a.code.id now w.codes apart free
      ]

  -- Once an enrollment has returned a reply, every further one with the same code is refused and
  -- changes nothing, whatever it meets, and also if it read the tables before the first one
  -- claimed the code. No two codes have one id, and the device and the key of the first
  -- enrollment are new.
  pub enroll-once :
      (now : ℕ) (events : Events) (code : String) (info : DeviceInfo) (read w left : World)
      (a : Admitted) (reply : Reply)
      → admit host env license now code read ≡ ok a
      → Apart same_code w.codes
      → IsFreshId events.device_id events.issue w
      → enroll host parse_url reader stringify kms legacy env license now events code info read w
        ≡ (ok reply, left)
      → (later : ℕ) (events' : Events) (code' : String) (info' : DeviceInfo) (read' : World)
        (a' : Admitted)
      → admit host env license later code' read' ≡ ok a'
      → a'.code.id ≡ a.code.id
      → enroll host parse_url reader stringify kms legacy env license later events' code' info'
          read' left
        ≡ (err bad_code, left)
  unfolding enroll enroll_admitted enroll_claimed
  enroll-once now events code info read w left a reply admitted apart fresh e later events' code'
        info' read' a' again same =
      let spent =
        enrolled_unusable now events code info read w left a reply admitted apart fresh e in
      rw
        (
          again,
          claim_used a'.code.id later left.codes
              (ap (λ i. any (is_reusable i) left.codes) same ∙ spent),
        )
        refl
