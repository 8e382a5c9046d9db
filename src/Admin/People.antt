-- ===== src/Admin/People.antt =====
-- src/admin/admin.service.ts: the binding of a device to a person.
use hara_control.Common.{
  find, any, update_where, String, Bool, not, ◌&&◌, Option, none, some, ◌==◌, if◌then◌else◌,
  is_some, bad_request, not_found, Outcome, err, ok, ensure, require, ◌>>=◌, ◌>>◌,
}
use hara_control.Json.{str, end, field}
use hara_control.Fleet.{DeviceRow, device_by_id}
use hara_control.Enroll.Installation.{given}
use hara_control.Enroll.Exchange.{EnrollCode, World}
use hara_control.Enroll.Saga.{with_devices, with_audit}
use hara_control.Admin.Access.{AuthedUser, assert_admin_org_access}
use hara_control.Admin.{revocation_audit}

abbrev pub set_person : String → DeviceRow → DeviceRow
set_person person_id d = record d { person_id = some person_id }

abbrev pub is_unbound : String → String → DeviceRow → Bool
is_unbound id org_id d = device_by_id id d && ((d.org_id == org_id) && not (is_some d.person_id))

abbrev pub is_code_of : String → String → EnrollCode → Bool
is_code_of id org_id c = (c.id == id) && ((c.org_id == org_id) && not (is_some c.person_id))

abbrev pub set_code_person : String → EnrollCode → EnrollCode
set_code_person person_id c = record c { person_id = some person_id }

unfoldable pub bind_code : Option String → String → String → World → World
bind_code none org_id person_id w = w
bind_code (some code_id) org_id person_id w = record w {
  codes = update_where (is_code_of code_id org_id) (set_code_person person_id) w.codes;
}

-- The transaction "device.person.bind".
unfoldable pub bind_unbound : AuthedUser → DeviceRow → String → World → Outcome World
bind_unbound user d person_id w = do
  ensure (any (is_unbound d.id d.org_id) w.db.devices)
      (bad_request "device identity was bound concurrently; refresh and retry")
  ok (
      with_audit
        (revocation_audit "device.person.bind" user d (field "personId" (str person_id) end))
        (bind_code d.enroll_code_id d.org_id person_id
          (with_devices (update_where (is_unbound d.id d.org_id) (set_person person_id)) w)))

-- Whether the device has this person already, or another one.
unfoldable pub bind_row : AuthedUser → DeviceRow → String → Option String → World → Outcome World
bind_row user d person_id none w = bind_unbound user d person_id w
bind_row user d person_id (some bound) w =
    if bound == person_id
    then ok w
    else err (bad_request "device identity is already bound; revoke and re-enroll to change people")

-- bindDevicePerson reads the tables `read`, and binds in the tables `w`.
unfoldable pub bind_device_person : AuthedUser → String → String → World → World → Outcome World
bind_device_person user device_id person_id read w = do
  d ← require (find (device_by_id device_id) read.db.devices) (not_found "device not found")
  assert_admin_org_access user d.org_id
  person ← require (find (λ p. p.id == person_id) read.people) (not_found "person not found")
  ensure (person.org_id == d.org_id)
      (bad_request "person and device must belong to the same organization")
  bind_row user d person_id (given d.person_id) w
