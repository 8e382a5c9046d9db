-- ===== src/Admin/Revocation.antt =====
-- What a revocation leaves: no usable token, and no key that the gateway still honours.
use hara_control.Common.{
  All-unkeep, find-update_where, find, keep, update_where, All, ℕ, String, ◌≡◌, refl, sym, ap, ◌∙◌,
  subst, inl, inr, Bool, true, false, Option, none, some, List, [], ◌∷◌, arith, Bool-cases, is_some,
  Fault, failure, Outcome, err, ok, require, >>=-eq-ok, Outcome-cases,
}
use hara_control.Host.{Host}
use hara_control.Ssrf.{Response}
use hara_control.Fleet.{DeviceRow, device_by_id, is_attached}
use hara_control.Secrets.{Kms}
use hara_control.Bindings.Types.{Db}
use hara_control.Bindings.Requests.{ParseUrl}
use hara_control.Bindings.Probe.{Reader}
use hara_control.Enroll.Provisioner.{Target, target_of}
use hara_control.Enroll.Exchange.{TokenRow, World}
use hara_control.Admin.{
  of_device, is_live_token, revoked_token, is_unrequested, requested, request_revocation,
  ensure_requested, revoke_keys, RevokeReply, complete_revocation, desk_revocation, revoke_desk,
  desk_revoked_reply, keys_revoked, finish_revocation, revoke_found, revoke_row, revoke_device,
}
use hara_control.Enroll.Installation.{given, revoke_installation}
use hara_control.Admin.Keys.{IsGone, revoke_keys-IsGone}
use hara_control.Admin.Access.{AuthedUser, assert_admin_org_access}

-- Every token of the device is revoked.
abbrev pub IsClosed : String → TokenRow → Type 0
IsClosed id t = of_device id t ≡ true → is_some t.revoked_at ≡ true

revoke_tokens-IsClosed :
    (id : String) (now : ℕ) (tokens : List TokenRow)
    → All (IsClosed id) (update_where (is_live_token id) (revoked_token now) tokens)
unfolding update_where
revoke_tokens-IsClosed id now [] = tt
revoke_tokens-IsClosed id now (t ∷ tokens) = elim (Bool-cases (is_live_token id t)) [
  | inl live ↦ rw live (λ _. refl, revoke_tokens-IsClosed id now tokens)
  | inr other ↦ rw other (λ mine. ground arith, revoke_tokens-IsClosed id now tokens)
]

-- A device whose revocation was requested has no usable token.
abbrev pub IsStopped : DeviceRow → World → Type 0
IsStopped d w = is_some d.revocation_requested_at ≡ true → All (IsClosed d.id) w.tokens

ensure_requested-IsClosed :
    (now : ℕ) (user : AuthedUser) (d : DeviceRow) (w : World)
    → IsStopped d w
    → All (IsClosed d.id) (ensure_requested now user d w).tokens
unfolding ensure_requested request_revocation
ensure_requested-IsClosed now user d w h = elim (Bool-cases (is_some d.revocation_requested_at)) [
  | inl before ↦ rw before (h before)
  | inr first ↦ rw first (revoke_tokens-IsClosed d.id now w.tokens)
]

module _ (host : Host) (parse_url : ParseUrl) (reader : Reader) (kms : Kms)
    (legacy : List (String × Target)) (now : ℕ) (user : AuthedUser) (faults : String → Option Fault)
    (answer : Outcome Response) where
  desk-tokens :
      (d : DeviceRow) (n : ℕ) (w : World) (o : Outcome Bool)
      → (desk_revoked_reply host parse_url reader kms legacy now user d n w o).1.tokens ≡ w.tokens
  unfolding desk_revoked_reply complete_revocation
  desk-tokens d n w (err fault) = refl
  desk-tokens d n w (ok desk) = refl

  keys-tokens :
      (d : DeviceRow) (n : ℕ) (w : World) (o : Option Fault × List String)
      → (keys_revoked host parse_url reader kms legacy now user answer d n w o).1.tokens ≡ w.tokens
  unfolding keys_revoked
  keys-tokens d n w (some fault, keys) = refl
  keys-tokens d n w (none, keys) = desk-tokens d n _ _

  finish-tokens :
      (o : Option DeviceRow) (w : World)
      → (finish_revocation host parse_url reader kms legacy now user faults answer o w).1.tokens
        ≡ w.tokens
  unfolding finish_revocation
  finish-tokens none w = refl
  finish-tokens (some d) w = elim (Bool-cases (is_some d.revocation_completed_at)) [
    | inl before ↦ rw before refl
    | inr standing ↦ rw standing (keys-tokens d _ w _)
  ]

  -- A revocation by an administrator with access to the device's organization leaves every token
  -- of the device revoked, however the gateway and Desk answer, if a device whose revocation was
  -- requested before has no usable token.
  pub revoke_device-IsClosed :
      (id : String) (w : World) (d : DeviceRow)
      → find (device_by_id id) w.db.devices ≡ some d
      → assert_admin_org_access user d.org_id ≡ ok tt
      → IsStopped d w
      → All
          (IsClosed d.id)
          (revoke_device host parse_url reader kms legacy now user faults answer id w).1.tokens
  unfolding revoke_device revoke_row revoke_found
  revoke_device-IsClosed id w d found access h =
      rw
        (
          found,
          access,
          finish-tokens (find (device_by_id d.id) (ensure_requested now user d w).db.devices)
              (ensure_requested now user d w),
        )
        (ensure_requested-IsClosed now user d w h)

  revoke_desk_flag :
      (d : DeviceRow) (db : Db) {desk : Bool}
      → revoke_desk host parse_url reader kms legacy answer d db ≡ ok desk
      → desk ≡ is_attached d
  unfolding revoke_desk
  revoke_desk_flag d db e = elim (Bool-cases (is_attached d)) [
    | inr free ↦ cc (rw free at e, free)
    | inl held ↦
        let message : Fault =
          failure "Hara Desk revocation is unavailable for this provisioned device" in
        let (owner, _, e1) = >>=-eq-ok (require (given d.desk_owner) message) _ (rw held at e) in
        let (origin, _, e2) = >>=-eq-ok (require (given d.desk_origin) message) _ e1 in
        let (answered, _, e3) =
          >>=-eq-ok
            (revoke_installation kms host parse_url reader answer (target_of legacy d.org_id)
              (desk_revocation d owner origin) db)
            _ e2 in
        cc (e3, held)
  ]

  keys_revoked_ok :
      (d : DeviceRow) (n : ℕ) (w : World) (o : Option Fault × List String) (reply : RevokeReply)
      (left : World)
      → keys_revoked host parse_url reader kms legacy now user answer d n w o ≡ (ok reply, left)
      → (o.0 ≡ none) × (left.keys ≡ o.1) × (reply.desk_revoked ≡ is_attached d)
  unfolding keys_revoked desk_revoked_reply complete_revocation
  keys_revoked_ok d n w (some fault, keys) reply left e = cc e
  keys_revoked_ok d n w (none, keys) reply left e =
      elim (Outcome-cases (revoke_desk host parse_url reader kms legacy answer d w.db)) [
        | inr (fault, refused) ↦ cc (rw refused at e)
        | inl (desk, agreed) ↦
            let left_is : complete_revocation now user d n desk (record w { keys = keys }) ≡ left =
              ap (λ x. x.1) (rw agreed at e) in
            let replied : record { count_revoked = n; desk_revoked = desk } ≡ reply =
              cc (rw agreed at e) in
            (
              refl,
              ap (λ x. x.keys) (sym left_is),
              ap (λ r. r.desk_revoked) (sym replied) ∙ revoke_desk_flag d w.db agreed,
            )
      ]

  finish_ok :
      (d : DeviceRow) (w : World) (reply : RevokeReply) (left : World)
      → finish_revocation host parse_url reader kms legacy now user faults answer (some d) w
        ≡ (ok reply, left)
      → d.revocation_completed_at ≡ none
      → All (λ t. of_device d.id t ≡ true → IsGone left.keys t) w.tokens
        × (reply.desk_revoked ≡ is_attached d)
  unfolding finish_revocation
  finish_ok d w reply left e first =
      let standing : is_some d.revocation_completed_at ≡ false = ap is_some first in
      let (sent, keys, desk) = keys_revoked_ok d _ w _ reply left (rw standing at e) in
      (
        rw keys (
            All-unkeep (IsGone (revoke_keys faults (keep (of_device d.id) w.tokens) w.keys).1)
              (of_device d.id) w.tokens
              (revoke_keys-IsGone faults (keep (of_device d.id) w.tokens) w.keys sent)),
        desk,
      )

  -- The row that is read again after the request.
  reread :
      (d : DeviceRow) (w : World)
      → find (device_by_id d.id) w.db.devices ≡ some d
      → (again : DeviceRow) × (find (device_by_id d.id) (ensure_requested now user d w).db.devices
          ≡ some again)
        × (again.id ≡ d.id)
        × (again.revocation_completed_at ≡ d.revocation_completed_at)
        × (is_attached again ≡ is_attached d)
  unfolding ensure_requested request_revocation
  reread d w found = elim (Bool-cases (is_some d.revocation_requested_at)) [
    | inl before ↦ rw before (d, found, refl, refl, refl)
    | inr first ↦ rw first (elim (Bool-cases (is_unrequested d.id d)) [
      | inl open_row ↦ (
        requested now d,
        find-update_where (device_by_id d.id) (is_unrequested d.id) (requested now) w.db.devices
              (λ y. refl) found
            ∙ rw open_row refl,
        refl,
        refl,
        refl,
      )
      | inr other ↦ (
        d,
        find-update_where (device_by_id d.id) (is_unrequested d.id) (requested now) w.db.devices
              (λ y. refl) found
            ∙ rw other refl,
        refl,
        refl,
        refl,
      )
    ])
  ]

  -- A revocation that returns, of a device that was not completely revoked before, leaves no key of
  -- the device's tokens honoured by the gateway, and tells that Desk has revoked the installation
  -- exactly when the device held on to one.
  pub revoke_device-IsGone :
      (w : World) (d : DeviceRow) (reply : RevokeReply) (left : World)
      → find (device_by_id d.id) w.db.devices ≡ some d
      → d.revocation_completed_at ≡ none
      → revoke_device host parse_url reader kms legacy now user faults answer d.id w
        ≡ (ok reply, left)
      → All (λ t. of_device d.id t ≡ true → IsGone left.keys t) left.tokens
        × (reply.desk_revoked ≡ is_attached d)
  unfolding revoke_device revoke_row revoke_found
  revoke_device-IsGone w d reply left found first e =
      elim (Outcome-cases (assert_admin_org_access user d.org_id)) [
        | inr (fault, refused) ↦ cc (rw (found, refused) at e)
        | inl (_, access) ↦
            let w' = ensure_requested now user d w in
            let (again, found', same, completed, held) = reread d w found in
            let e1 : finish_revocation host parse_url reader kms legacy now user faults answer
                  (some again) w'
                ≡ (ok reply, left) =
              rw (found, access, found') at e in
            let (gone, desk) = finish_ok again w' reply left e1 (completed ∙ first) in
            let tokens : left.tokens ≡ w'.tokens =
              ap (λ x. x.1.tokens) (sym e1) ∙ finish-tokens (some again) w' in
            (
              rw tokens (
                  subst (λ i. All (λ t. of_device i t ≡ true → IsGone left.keys t) w'.tokens) same
                    gone),
              desk ∙ held,
            )
      ]
