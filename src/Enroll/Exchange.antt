-- ===== src/Enroll/Exchange.antt =====
-- src/enroll/enroll.service.ts: the rows of an enrollment, and what it checks and claims before it
-- crosses the boundary to the gateway.
use hara_control.Common.{
  find, any, keep, update_where, length, ℕ, String, Bool, false, not, ◌&&◌, Option, none, some,
  List, ◌==◌, leb, eqb, is_some, Fault, unauthorized, Outcome, ok, ensure, require, ◌>>=◌, ◌>>◌,
}
use hara_control.Host.{Host}
use hara_control.Tokens.{Env, device_token_ttl_minutes}
use hara_control.KeyPolicy.{StoredPolicy, StoredColumns, parse_stored_access_key_policy}
use hara_control.License.{LicenseService, seat_check}
use hara_control.Models.{resolve_enrollment_model, enrollment_managed_models}
use hara_control.Bindings.Types.{Db}

pub record EnrollCode : Type 0 where
  pub id : String
  pub org_id : String
  pub code : String
  pub model : String
  pub reasoning_effort : String
  pub base_url : Option String
  pub expires_at : ℕ
  pub used_at : Option ℕ
  pub policy : StoredColumns
  pub person_id : Option String

pub record Person : Type 0 where
  pub id : String
  pub org_id : String
  pub email : String

pub record Organization : Type 0 where
  pub id : String
  pub name : String

pub record TokenRow : Type 0 where
  pub device_id : String
  pub token_hash : String
  pub gateway_key_id : String
  pub model : String
  pub reasoning_effort : String
  pub expires_at : Option ℕ
  pub revoked_at : Option ℕ
  pub policy : StoredPolicy

-- The tables that an enrollment uses, and the ids of the keys that the gateway honours.
pub record World : Type 0 where
  pub codes : List EnrollCode
  pub people : List Person
  pub organizations : List Organization
  pub tokens : List TokenRow
  pub keys : List String
  pub db : Db

-- What the checks before the claim give.
pub record Admitted : Type 0 where
  pub code : EnrollCode
  pub organization : Organization
  pub owner : String
  pub model : String
  pub models : List String
  pub policy : StoredPolicy

abbrev pub bad_code : Fault
bad_code = unauthorized "bad or expired code"

abbrev pub is_fresh : ℕ → EnrollCode → Bool
is_fresh now c = not (is_some c.used_at) && leb now c.expires_at

unfoldable pub person_of : Option String → List Person → Option Person
person_of none people = none
person_of (some id) people = find (λ p. p.id == id) people

-- entitlement.seatCheck
unfoldable pub seats : String → World → ℕ
seats org_id w = length (keep (λ d. d.org_id == org_id) w.db.devices)

-- enrollCode.updateMany, where the row is still unused and not expired.
abbrev pub is_claimable : String → ℕ → EnrollCode → Bool
is_claimable id now c = (c.id == id) && is_fresh now c

abbrev pub used : ℕ → EnrollCode → EnrollCode
used now c = record c { used_at = some now }

unfoldable pub claim : String → ℕ → List EnrollCode → Outcome (List EnrollCode)
claim id now codes = do
  ensure (any (is_claimable id now) codes) bad_code
  ok (update_where (is_claimable id now) (used now) codes)

-- The rows that a clean-up releases: those with this very claim.
abbrev pub is_claimed_at : String → ℕ → EnrollCode → Bool
is_claimed_at id now c = (c.id == id) && stamp_eqb c.used_at now
  where
    stamp_eqb : Option ℕ → ℕ → Bool
    stamp_eqb none now = false
    stamp_eqb (some at) now = eqb at now

abbrev pub unused : EnrollCode → EnrollCode
unused c = record c { used_at = none }

unfoldable pub release_claim : String → ℕ → List EnrollCode → List EnrollCode
release_claim id now codes = update_where (is_claimed_at id now) unused codes

module _ (host : Host) (env : Env) (license : LicenseService) where
  unfoldable pub admit : ℕ → String → World → Outcome Admitted
  admit now code w = do
    ec ← require (find (λ c. c.code == code) w.codes) bad_code
    ensure (is_fresh now ec) bad_code
    organization ← require (find (λ o. o.id == ec.org_id) w.organizations) bad_code
    person ← require (person_of ec.person_id w.people) bad_code
    ensure (person.org_id == ec.org_id) bad_code
    seat_check license (seats ec.org_id w)
    model ← resolve_enrollment_model host env (some ec.model)
    models ← enrollment_managed_models host env model
    policy ← parse_stored_access_key_policy ec.policy (device_token_ttl_minutes host env)
    ok record {
      code = ec;
      organization = organization;
      owner = person.email;
      model = model;
      models = models;
      policy = policy;
    }
