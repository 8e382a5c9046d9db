-- ===== src/Enroll/Partial.antt =====
-- What an enrollment that stops has written: rows of its own device, and at most the key that the
-- gateway issued, or the one that it left where it failed to issue a key.
use hara_control.Common.{
  keep_all, keep-concat_none, keep, All, ℕ, String, ◌≡◌, refl, ap, ◌∙◌, ◌⊎◌, inl, inr, Bool, true,
  not, Option, none, some, List, [], ◌∷◌, ◌++◌, eq_refl, Fault, Outcome, err, ok,
}
use hara_control.Host.{Host}
use hara_control.Secrets.{Kms}
use hara_control.Bindings.Types.{Binding}
use hara_control.Bindings.Requests.{ParseUrl}
use hara_control.Bindings.Probe.{Reader}
use hara_control.Enroll.Provisioner.{Target, target_of, read_revocation, accepts}
use hara_control.Enroll.Registration.{Attempt, unprovisioned, provisioned, thrown, failed, stop}
use hara_control.Enroll.Exchange.{World, Admitted}
use hara_control.Enroll.Saga.{
  other_key, other_device, token_of_other, orphaned_keys, orphaned, desk_input, finish_desk,
  desk_result, desk_step, new_token, log_step, token_step, issue_step, try_enroll,
}
use hara_control.Enroll.Cleanup.{is_confirmed}
use hara_control.Enroll.Elsewhere.{Confirms, provision-IsLocal}
use hara_control.Enroll.Progress.{
  IssuedKey, DeviceInfo, Events, Progress, Run, done, stopped, guarded,
}

abbrev pub with_issued : Option IssuedKey → List String → List String
with_issued none keys = keys
with_issued (some key) keys = keys ++ key.key_id ∷ []

-- No key of the gateway has the id of the one that was issued.
abbrev pub HasFreshKey : Option IssuedKey → List String → Type 0
HasFreshKey none keys = Unit
HasFreshKey (some key) keys = All (λ k. other_key key.key_id k ≡ true) keys

abbrev pub issued_key : Outcome IssuedKey → Option IssuedKey
issued_key (ok key) = some key
issued_key (err fault) = none

-- No row has the id that the new device gets, and no key the one that the gateway issues.
pub record IsFreshId (id : String) (issue : Outcome IssuedKey) (w : World) : Type 0 where
  pub key : HasFreshKey (issued_key issue) w.keys
  pub device : All (λ d. other_device id d ≡ true) w.db.devices
  pub token : All (λ t. token_of_other id t ≡ true) w.tokens

pub record IsPartial (id : String) (w : World) (p : Progress) : Type 0 where
  pub devices : keep (other_device id) p.world.db.devices ≡ w.db.devices
  pub tokens : keep (token_of_other id) p.world.tokens ≡ w.tokens
  pub keys : p.world.keys ≡ with_issued p.issued w.keys
  pub codes : p.world.codes ≡ w.codes
  pub fresh : HasFreshKey p.issued w.keys
  pub created :
      (p.device ≡ some id)
      ⊎ ((p.device ≡ none) × (p.world.db.devices ≡ w.db.devices) × (p.world.tokens ≡ w.tokens))

-- How a run ends: with a reply, or stopped after partial writes to the tables and the keys of `w`,
-- or to those of `w2`, where a key is left that was never returned. `accepted` tells whether Desk
-- confirmed the revocation of a registration that failed.
abbrev pub Ends : String → World → World → Bool → Run → Type 0
Ends id w w2 accepted (done reply left) = left.codes ≡ w.codes
Ends id w w2 accepted (stopped stop p) =
    (IsPartial id w p ⊎ IsPartial id w2 p)
    × (accepted ≡ true → is_confirmed stop.desk_failure ≡ true)

guarded-Ends :
    (id : String) (w w2 : World) (accepted : Bool) (fault : Option Fault) (p : Progress)
    (next : Run)
    → IsPartial id w p
    → Ends id w w2 accepted next
    → Ends id w w2 accepted (guarded fault p next)
guarded-Ends id w w2 accepted none p next h k = k
guarded-Ends id w w2 accepted (some fault) p next h k = (inl h, λ _. refl)

module _ (host : Host) (parse_url : ParseUrl) (reader : Reader) (stringify : List String → String)
    (kms : Kms) (legacy : List (String × Target)) (now : ℕ) (events : Events) (info : DeviceInfo)
    (a : Admitted) (w w2 : World) where
  abbrev pub desk_accepts : Bool
  desk_accepts = accepts (read_revocation reader true events.desk.revoke)

  finish-Ends :
      (key : IssuedKey) (services : List Binding) (attempt : Attempt) (p : Progress)
      → Confirms desk_accepts attempt
      → IsPartial events.device_id w p
      → Ends events.device_id w w2 desk_accepts (
          finish_desk host parse_url reader stringify kms legacy now events a key services attempt
            p)
  unfolding finish_desk
  finish-Ends key services unprovisioned p c h = h.codes
  finish-Ends key services (provisioned receipt) p c h =
      guarded-Ends events.device_id w w2 desk_accepts events.finish
        (record p { receipt = some receipt }) _
        (record {
          devices = h.devices;
          tokens = h.tokens;
          keys = h.keys;
          codes = h.codes;
          fresh = h.fresh;
          created = h.created;
        })
        h.codes
  finish-Ends key services (thrown fault) p c h = (inl h, λ _. refl)
  finish-Ends key services (failed confirmed url) p c h = (inl h, λ accepted. c ∙ accepted)

  desk-Ends :
      (key : IssuedKey) (p : Progress)
      → p.device ≡ some events.device_id
      → IsPartial events.device_id w p
      → Ends events.device_id w w2 desk_accepts
          (desk_step host parse_url reader stringify kms legacy now events info a key p)
  unfolding desk_step desk_result
  desk-Ends key p d h =
      let out =
        provision-IsLocal host reader stringify events.desk kms parse_url
          (target_of legacy a.code.org_id)
          (desk_input host parse_url reader stringify kms legacy events info a) events.device_id now
          p.world.db in
      finish-Ends key _ _ _ out.confirmed record {
        devices = out.elsewhere ∙ h.devices;
        tokens = h.tokens;
        keys = h.keys;
        codes = h.codes;
        fresh = h.fresh;
        created = inl d;
      }

  issue-Ends :
      (o : Outcome IssuedKey) (p : Progress)
      → p.device ≡ some events.device_id
      → p.issued ≡ none
      → HasFreshKey (issued_key o) w.keys
      → IsPartial events.device_id w p
      → w2 ≡ orphaned events.orphan o w
      → Ends events.device_id w w2 desk_accepts
          (issue_step host parse_url reader stringify kms legacy now events info a o p)
  unfolding issue_step token_step log_step
  issue-Ends (err fault) p d i f h e = (
    inr (
        rw (e, i)
          record {
            devices = h.devices;
            tokens = h.tokens;
            keys = ap (orphaned_keys events.orphan (err fault)) (rw i at h.keys);
            codes = h.codes;
            fresh = tt;
            created = inl d;
          }),
    λ _. refl,
  )
  issue-Ends (ok key) p d i f h e =
      let keyed : p.world.keys ++ key.key_id ∷ [] ≡ w.keys ++ key.key_id ∷ [] =
        ap (λ k. k ++ key.key_id ∷ []) (rw i at h.keys) in
      let stored : keep (token_of_other events.device_id) (
            p.world.tokens
            ++ new_token host parse_url reader stringify kms legacy events a key ∷ [])
          ≡ w.tokens =
        keep-concat_none (token_of_other events.device_id) p.world.tokens _
          (ap not (eq_refl events.device_id))
        ∙ h.tokens in
      guarded-Ends events.device_id w w2 desk_accepts events.store_token _ _
        (record {
          devices = h.devices;
          tokens = h.tokens;
          keys = keyed;
          codes = h.codes;
          fresh = f;
          created = inl d;
        })
        (guarded-Ends events.device_id w w2 desk_accepts events.log _ _
          (record {
            devices = h.devices;
            tokens = stored;
            keys = keyed;
            codes = h.codes;
            fresh = f;
            created = inl d;
          })
          (desk-Ends key _ d (record {
            devices = h.devices;
            tokens = stored;
            keys = keyed;
            codes = h.codes;
            fresh = f;
            created = inl d;
          })))

  pub try_enroll-Ends :
      IsFreshId events.device_id events.issue w
      → w2 ≡ orphaned events.orphan events.issue w
      → Ends events.device_id w w2 desk_accepts
          (try_enroll host parse_url reader stringify kms legacy now events info a w)
  unfolding try_enroll
  try_enroll-Ends fresh left =
      let devices = keep_all (other_device events.device_id) w.db.devices fresh.device in
      let tokens = keep_all (token_of_other events.device_id) w.tokens fresh.token in
      guarded-Ends events.device_id w w2 desk_accepts events.create _ _
        (record {
          devices = devices;
          tokens = tokens;
          keys = refl;
          codes = refl;
          fresh = tt;
          created = inr (refl, refl, refl);
        })
        (issue-Ends events.issue _ refl refl fresh.key
          (record {
            devices =
                keep-concat_none (other_device events.device_id) w.db.devices _
                  (ap not (eq_refl events.device_id))
                ∙ devices;
            tokens = tokens;
            keys = refl;
            codes = refl;
            fresh = tt;
            created = inl refl;
          })
          left)
