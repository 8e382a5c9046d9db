-- ===== src/Enroll/Stages.antt =====
-- The compensations of an enrollment one after the other, and what each leaves undone.
use hara_control.Common.{
  keep-update_where, keep_all, keep-concat_none, keep, update_where, ℕ, String, ◌≡◌, refl, ap, ◌∙◌,
  ◌⊎◌, inl, inr, Bool, true, false, not, ◌&&◌, Option, none, some, List, eq_refl, Bool-cases,
  is_some,
}
use hara_control.Fleet.{DeviceRow, device_by_id, reserved}
use hara_control.Bindings.Probe.{Reader}
use hara_control.Enroll.Provisioner.{read_revocation, accepts}
use hara_control.Enroll.Registration.{Receipt, stop}
use hara_control.Enroll.Exchange.{World}
use hara_control.Enroll.Saga.{other_key, other_device, token_of_other, delete_device}
use hara_control.Enroll.Cleanup.{
  Cleaned, cleanup_start, succeeds, mark_pending, compensate_desk, revoke_issued, remove_device,
}
use hara_control.Enroll.Partial.{with_issued, HasFreshKey, IsPartial}
use hara_control.Enroll.Progress.{IssuedKey, Events, Progress, Stop}

-- Before the removal of the device.
pub record IsCleaning (id : String) (w : World) (p : Progress) (c : Cleaned) : Type 0 where
  pub devices : keep (other_device id) c.world.db.devices ≡ w.db.devices
  pub tokens : keep (token_of_other id) c.world.tokens ≡ w.tokens
  pub codes : c.world.codes ≡ w.codes
  pub unremoved : c.device_removed ≡ not (is_some p.device)
  pub created :
      (p.device ≡ some id)
      ⊎ ((p.device ≡ none) × (c.world.db.devices ≡ w.db.devices) × (c.world.tokens ≡ w.tokens))

-- Before the revocation of the key, too.
pub record IsIssued (w : World) (p : Progress) (c : Cleaned) : Type 0 where
  pub keys : c.world.keys ≡ with_issued p.issued w.keys
  pub unrevoked : c.gateway_revoked ≡ not (is_some p.issued)

-- What is left of the gateway and of the device, once the flags say that they are gone.
pub record IsRemoved (w : World) (c : Cleaned) : Type 0 where
  pub codes : c.world.codes ≡ w.codes
  pub keys : c.gateway_revoked ≡ true → c.world.keys ≡ w.keys
  pub devices : c.device_removed ≡ true → c.world.db.devices ≡ w.db.devices
  pub tokens : c.device_removed ≡ true → c.world.tokens ≡ w.tokens

module _ (id : String) (w : World) (p : Progress) where
  pub start-IsCleaning :
      (stop : Stop)
      → IsPartial id w p
      → IsCleaning id w p (cleanup_start stop p) × IsIssued w p (cleanup_start stop p)
  unfolding cleanup_start
  start-IsCleaning stop h = (
    record {
      devices = h.devices;
      tokens = h.tokens;
      codes = h.codes;
      unremoved = refl;
      created = h.created;
    },
    record { keys = h.keys; unrevoked = refl },
  )

  marked_devices :
      (now : ℕ) (owner url : String) (rows : List DeviceRow)
      → keep (other_device id) (update_where (device_by_id id) (reserved now owner url) rows)
        ≡ keep (other_device id) rows
  marked_devices now owner url rows =
      keep-update_where (other_device id) (device_by_id id) (reserved now owner url) rows
        (λ d mine. (ap not mine, ap not mine))

  pub mark-IsCleaning :
      (now : ℕ) (events : Events) (owner : String) (failure : Option (Bool × String))
      (device : Option String) (prepared : Bool) (c : Cleaned)
      → p.device ≡ device
      → IsCleaning id w p c × IsIssued w p c
      → IsCleaning id w p (mark_pending now events owner failure device prepared c)
        × IsIssued w p (mark_pending now events owner failure device prepared c)
  unfolding mark_pending
  mark-IsCleaning now events owner none device prepared c e h = h
  mark-IsCleaning now events owner (some (true, url)) device prepared c e h = h
  mark-IsCleaning now events owner (some (false, url)) none prepared c e h = h
  mark-IsCleaning now events owner (some (false, url)) (some own) true c e h = h
  mark-IsCleaning now events owner (some (false, url)) (some own) false c e (h, k) =
      elim (Bool-cases (not (succeeds events.mark))) [
        | inl refused ↦ rw refused (h, k)
        | inr marked ↦ rw marked (
          record {
            devices =
                rw (same_device own e h.created) (marked_devices now owner url c.world.db.devices)
                ∙ h.devices;
            tokens = h.tokens;
            codes = h.codes;
            unremoved = h.unremoved;
            created = inl (e ∙ ap (λ x. some x) (same_device own e h.created));
          },
          record { keys = k.keys; unrevoked = k.unrevoked },
        )
      ]
    where
      same_device :
          (own : String) {D E : Type 0}
          → p.device ≡ some own
          → (p.device ≡ some id) ⊎ ((p.device ≡ none) × D × E)
          → own ≡ id
      same_device own e (inl there) = cc (e, there)
      same_device own e (inr (absent, d, t)) = cc (e, absent)

  pub compensate-IsCleaning :
      (reader : Reader) (events : Events) (receipt : Option Receipt) (c : Cleaned)
      → IsCleaning id w p c × IsIssued w p c
      → IsCleaning id w p (compensate_desk reader events receipt c)
        × IsIssued w p (compensate_desk reader events receipt c)
  unfolding compensate_desk
  compensate-IsCleaning reader events none c h = h
  compensate-IsCleaning reader events (some receipt) c (h, k) =
      elim (Bool-cases (accepts (read_revocation reader false events.compensate))) [
        | inl passed ↦ rw passed (
          record {
            devices = h.devices;
            tokens = h.tokens;
            codes = h.codes;
            unremoved = h.unremoved;
            created = h.created;
          },
          record { keys = k.keys; unrevoked = k.unrevoked },
        )
        | inr refused ↦ rw refused (h, k)
      ]

  -- Once the key is revoked, the gateway has the keys that it had before.
  abbrev pub HasKeys : Cleaned → Type 0
  HasKeys c = c.gateway_revoked ≡ true → c.world.keys ≡ w.keys

  pub revoke-IsCleaning :
      (events : Events) (issued : Option IssuedKey) (c : Cleaned)
      → p.issued ≡ issued
      → HasFreshKey issued w.keys
      → IsCleaning id w p c × IsIssued w p c
      → IsCleaning id w p (revoke_issued events issued c) × HasKeys (revoke_issued events issued c)
  unfolding revoke_issued
  revoke-IsCleaning events none c i f (h, k) = (h, λ _. k.keys ∙ ap (λ x. with_issued x w.keys) i)
  revoke-IsCleaning events (some key) c i f (h, k) =
      elim (Bool-cases (not (succeeds events.revoke))) [
        | inl refused ↦ rw refused (h, λ revoked. cc (k.unrevoked, i, revoked))
        | inr passed ↦ rw passed (
          record {
            devices = h.devices;
            tokens = h.tokens;
            codes = h.codes;
            unremoved = h.unremoved;
            created = h.created;
          },
          λ _.
              ap (keep (other_key key.key_id)) (k.keys ∙ ap (λ x. with_issued x w.keys) i)
              ∙ (keep-concat_none (other_key key.key_id) w.keys key.key_id
                    (ap not (eq_refl key.key_id))
                  ∙ keep_all (other_key key.key_id) w.keys f),
        )
      ]

  pub remove-IsRemoved :
      (events : Events) (c : Cleaned)
      → IsCleaning id w p c × HasKeys c
      → IsRemoved w (remove_device events p.device c)
  unfolding remove_device delete_device
  remove-IsRemoved events c (h, k) = elim h.created [
    | inr (absent, d, t) ↦
        rw absent record { codes = h.codes; keys = k; devices = λ _. d; tokens = λ _. t }
    | inl there ↦
        elim (Bool-cases (not ((c.gateway_revoked && c.desk_revoked) && succeeds events.delete))) [
          | inl kept ↦
              rw (there, kept)
                record {
                  codes = h.codes;
                  keys = k;
                  devices = λ gone. cc (h.unremoved, there, gone);
                  tokens = λ gone. cc (h.unremoved, there, gone);
                }
          | inr gone ↦
              rw (there, gone)
                record {
                  codes = h.codes;
                  keys = k;
                  devices = λ _. h.devices;
                  tokens = λ _. h.tokens;
                }
        ]
  ]
