-- ===== src/Bindings/Provenance.antt =====
-- The devices that hold on to a Desk installation, and the binding that they were registered with.
use hara_control.Common.{
  All-map, All-both, any-All, Apart-concat, Apart-replace, find-Apart, find, update_where, All,
  All-concat, find-All, All-update_where, find-none, ◌≡◌, sym, ap, ◌∙◌, inl, inr, true, false, ◌&&◌,
  some, List, [], ◌∷◌, ◌++◌, arith, ◌==◌, eq_iff, eq_refl, Bool-cases,
}
use hara_control.Fleet.{DeviceRow, is_attached}
use hara_control.Bindings.Types.{desk_tasks, Binding, Db, kind_eqb, by_id, by_service}
use hara_control.Bindings.{binding_of, has_provisioned_desk_devices}
use hara_control.Bindings.Steps.{
  clash, IsTable, IsFree, IsSuccessor, Change, kept, created, replaced,
}
use hara_control.Bindings.Changes.{kind_eqb-eq, kind_eqb_refl}

-- An attached device was registered at the origin that its organization's binding names.
abbrev pub Matches : DeviceRow → Binding → Type 0
Matches d b =
    is_attached d ≡ true
    → by_service d.org_id desk_tasks b ≡ true
    → d.desk_origin ≡ some b.config.api_origin

pub record IsFenced (db : Db) : Type 0 where
  pub table : IsTable db.bindings
  pub matched : All (λ d. All (Matches d) db.bindings) db.devices

pub unattached-Matches :
    (d : DeviceRow) (rows : List Binding) → is_attached d ≡ false → All (Matches d) rows
unattached-Matches d [] e = tt
unattached-Matches d (b ∷ rows) e = (λ h. cc (h, e), unattached-Matches d rows e)

-- A row whose organization has no attached device matches every device.
free-Matches :
    (row : Binding) (devices : List DeviceRow)
    → IsFree row.org_id row.service devices
    → All (λ d. Matches d row) devices
unfolding has_provisioned_desk_devices
free-Matches row devices free = elim (Bool-cases (kind_eqb row.service desk_tasks)) [
  | inl desk ↦
      All-map (λ d. ((d.org_id == row.org_id) && is_attached d) ≡ false) (λ d. Matches d row)
        devices
        (λ d apart held mine.
          ground (arith, eq_iff d.org_id row.org_id, eq_iff row.org_id d.org_id))
        (any-All (λ d. (d.org_id == row.org_id) && is_attached d) devices (free desk))
  | inr other ↦
      All-map (λ d. Unit {0}) (λ d. Matches d row) devices (λ d _ held mine. ground arith)
        (everywhere devices)
]
  where
    everywhere : (devices : List DeviceRow) → All (λ d. Unit {0}) devices
    everywhere [] = tt
    everywhere (d ∷ devices) = (tt, everywhere devices)

pub own_id :
    (from : Binding) (rows : List Binding)
    → binding_of from.org_id from.service rows ≡ some from
    → IsTable rows
    → find (by_id from.id) rows ≡ some from
unfolding binding_of
own_id from rows found h =
    find-Apart clash (by_service from.org_id from.service) (by_id from.id) from rows
      (λ y c. ground (arith, eq_iff y.id from.id, eq_iff from.id y.id)) (eq_refl from.id) found h

pub Change-IsTable :
    (devices : List DeviceRow) (rows rows' : List Binding)
    → Change devices rows rows'
    → IsTable rows
    → IsTable rows'
unfolding binding_of
Change-IsTable devices rows rows' (kept e) h = rw e h
Change-IsTable devices rows rows' (created row fresh absent free e) h = rw e (
    Apart-concat clash rows row h (
      All-both (λ b. by_id row.id b ≡ false) (λ b. by_service row.org_id row.service b ≡ false)
        (λ b. clash b row ≡ false) rows (λ b i k. apart_row b row i k) fresh
        (find-none (by_service row.org_id row.service) rows absent)))
  where
    apart_row :
        (b row : Binding)
        → by_id row.id b ≡ false
        → by_service row.org_id row.service b ≡ false
        → clash b row ≡ false
    apart_row b row i k = ground (
      arith,
      eq_iff b.id row.id,
      eq_iff row.id b.id,
      eq_iff b.org_id row.org_id,
      eq_iff row.org_id b.org_id,
      kind_eqb-eq row.service b.service,
      kind_eqb_refl b.service,
    )
Change-IsTable devices rows rows' (replaced from to found succ e) h = rw e (
    Apart-replace clash (by_id from.id) from to rows (λ y c. ground arith)
      (λ y c. rw (succ.same_id, succ.same_org, succ.same_service) c)
      (λ y c. rw (succ.same_id, succ.same_org, succ.same_service) c) (own_id from rows found h) h)

successor-Matches :
    (devices : List DeviceRow) (from to : Binding)
    → IsSuccessor devices from to
    → All (λ d. Matches d from) devices
    → All (λ d. Matches d to) devices
successor-Matches devices from to succ h = elim succ.fenced [
  | inl free ↦
      free-Matches to devices (λ desk. rw succ.same_org (free (rw (← succ.same_service) desk)))
  | inr same ↦
      All-map (λ d. Matches d from) (λ d. Matches d to) devices
        (λ d m held mine.
          m held (rw (← succ.same_org, ← succ.same_service) mine)
          ∙ ap (λ c. some c.api_origin) (sym same))
        h
]

pub Change-All :
    (devices : List DeviceRow) (rows rows' : List Binding)
    → Change devices rows rows'
    → All (λ d. All (Matches d) rows) devices
    → All (λ d. All (Matches d) rows') devices
unfolding binding_of
Change-All devices rows rows' (kept e) h = rw e h
Change-All devices rows rows' (created row fresh absent free e) h = rw e (
    All-both (λ d. All (Matches d) rows) (λ d. Matches d row)
      (λ d. All (Matches d) (rows ++ row ∷ [])) devices
      (λ d m k. All-concat (Matches d) rows row m k) h (free-Matches row devices free))
Change-All devices rows rows' (replaced from to found succ e) h = rw e (
    All-both (λ d. All (Matches d) rows) (λ d. Matches d to)
      (λ d. All (Matches d) (update_where (by_id from.id) (λ b. to) rows)) devices
      (λ d m k. All-update_where (Matches d) (by_id from.id) (λ b. to) rows (λ b _ _. k) m) h
      (successor-Matches devices from to succ (
        All-map (λ d. All (Matches d) rows) (λ d. Matches d from) devices
          (λ d m. (find-All (Matches d) (by_service from.org_id from.service) rows found m).0) h)))
