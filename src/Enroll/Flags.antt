-- ===== src/Enroll/Flags.antt =====
-- What the catch block of `enroll` knows to be undone, when every compensation succeeds.
use hara_control.Common.{
  ℕ, String, ◌≡◌, refl, ap, ◌∙◌, inl, inr, Bool, true, false, not, ◌&&◌, ◌||◌, Option, none, some,
  Bool-cases, is_some,
}
use hara_control.Bindings.Probe.{Reader}
use hara_control.Enroll.Provisioner.{read_revocation, accepts}
use hara_control.Enroll.Registration.{Receipt, stop}
use hara_control.Enroll.Exchange.{Admitted}
use hara_control.Enroll.Cleanup.{
  Cleaned, is_confirmed, cleanup_start, succeeds, mark_pending, compensate_desk, revoke_issued,
  remove_device,
}
use hara_control.Enroll.Progress.{IssuedKey, Events, Progress, Stop}

-- Every compensation succeeds, that of the gateway's adapter for a key it failed to issue included.
pub record IsCompensating (reader : Reader) (events : Events) : Type 0 where
  pub clears : events.orphan ≡ none
  pub revokes : events.revoke ≡ none
  pub deletes : events.delete ≡ none
  pub restores : events.restore ≡ none
  pub confirms_failed : accepts (read_revocation reader true events.desk.revoke) ≡ true
  pub confirms_receipt : accepts (read_revocation reader false events.compensate) ≡ true

-- The catch block up to the removal of the device.
abbrev pub removal : Reader → ℕ → Events → Admitted → Stop → Progress → Cleaned
removal reader now events a stop p = remove_device events p.device (
    revoke_issued events p.issued (
      compensate_desk reader events p.receipt (
        mark_pending now events a.owner stop.desk_failure p.device p.prepared
          (cleanup_start stop p))))

abbrev pub HasFlags : Cleaned → Bool → Bool → Bool → Type 0
HasFlags c gateway desk device =
    (c.gateway_revoked ≡ gateway) × (c.desk_revoked ≡ desk) × (c.device_removed ≡ device)

mark_flags :
    (now : ℕ) (events : Events) (owner : String) (failure : Option (Bool × String))
    (device : Option String) (prepared : Bool) (c : Cleaned)
    → HasFlags
        (mark_pending now events owner failure device prepared c)
        c.gateway_revoked
        c.desk_revoked
        c.device_removed
unfolding mark_pending
mark_flags now events owner none device prepared c = (refl, refl, refl)
mark_flags now events owner (some (true, url)) device prepared c = (refl, refl, refl)
mark_flags now events owner (some (false, url)) none prepared c = (refl, refl, refl)
mark_flags now events owner (some (false, url)) (some own) true c = (refl, refl, refl)
mark_flags now events owner (some (false, url)) (some own) false c =
    elim (Bool-cases (not (succeeds events.mark))) [
      | inl refused ↦ rw refused (refl, refl, refl)
      | inr marked ↦ rw marked (refl, refl, refl)
    ]

compensate_flags :
    (reader : Reader) (events : Events) (receipt : Option Receipt) (c : Cleaned)
    → accepts (read_revocation reader false events.compensate) ≡ true
    → HasFlags
        (compensate_desk reader events receipt c)
        c.gateway_revoked
        (is_some receipt || c.desk_revoked)
        c.device_removed
unfolding compensate_desk
compensate_flags reader events none c e = (refl, refl, refl)
compensate_flags reader events (some receipt) c e = rw e (refl, refl, refl)

revoke_flags :
    (events : Events) (issued : Option IssuedKey) (c : Cleaned)
    → events.revoke ≡ none
    → HasFlags
        (revoke_issued events issued c)
        (is_some issued || c.gateway_revoked)
        c.desk_revoked
        c.device_removed
unfolding revoke_issued
revoke_flags events none c e = (refl, refl, refl)
revoke_flags events (some key) c e = rw e (refl, refl, refl)

remove_flags :
    (events : Events) (device : Option String) (c : Cleaned)
    → events.delete ≡ none
    → HasFlags c true true (not (is_some device))
    → (let r = remove_device events device c in
        r.gateway_revoked && (r.desk_revoked && r.device_removed))
      ≡ true
unfolding remove_device
remove_flags events none c e (g, d, r) = rw (g, d, r) refl
remove_flags events (some id) c e (g, d, r) = rw (g, d, e) refl

pub removal_flags :
    (reader : Reader) (now : ℕ) (events : Events) (a : Admitted) (stop : Stop) (p : Progress)
    → IsCompensating reader events
    → is_confirmed stop.desk_failure ≡ true
    → (let r = removal reader now events a stop p in
        r.gateway_revoked && (r.desk_revoked && r.device_removed))
      ≡ true
unfolding cleanup_start
removal_flags reader now events a stop p good known =
    let c0 = cleanup_start stop p in
    let (g1, d1, r1) = mark_flags now events a.owner stop.desk_failure p.device p.prepared c0 in
    let c1 = mark_pending now events a.owner stop.desk_failure p.device p.prepared c0 in
    let (g2, d2, r2) = compensate_flags reader events p.receipt c1 good.confirms_receipt in
    let c2 = compensate_desk reader events p.receipt c1 in
    let (g3, d3, r3) = revoke_flags events p.issued c2 good.revokes in
    remove_flags events p.device _ good.deletes (
      g3 ∙ (ap (λ b. is_some p.issued || b) (g2 ∙ g1) ∙ either (is_some p.issued)),
      d3
          ∙ (d2
              ∙ (ap (λ b. is_some p.receipt || b)
                    (d1 ∙ ap (λ b. not (is_some p.receipt) && b) known)
                  ∙ either_and (is_some p.receipt))),
      r3 ∙ (r2 ∙ r1),
    )
  where
    either : (b : Bool) → (b || not b) ≡ true
    either true = refl
    either false = refl

    either_and : (b : Bool) → (b || (not b && true)) ≡ true
    either_and true = refl
    either_and false = refl
