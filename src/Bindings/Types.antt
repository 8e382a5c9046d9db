-- ===== src/Bindings/Types.antt =====
-- The rows and requests of src/service-bindings (prisma/schema.prisma and dto.ts), and the tables
-- that its service changes.
use hara_control.Common.{ℕ, String, Bool, true, false, ◌&&◌, Option, List, ◌==◌}
use hara_control.Fleet.{DeviceRow}
use hara_control.Secrets.{Secret}
use hara_control.Audit.Call.{AuditCall}

pub data ServiceKind : Type 0 where
  model_control desk_tasks collab extension_catalog : ServiceKind

pub data ServiceMode : Type 0 where
  hara_hosted customer_hosted : ServiceMode

pub data Region : Type 0 where
  cn global : Region

pub data BindingStatus : Type 0 where
  pending_verification active degraded disabled : BindingStatus

-- What a request configures, once it is normalised.
pub record Config : Type 0 where
  pub mode : ServiceMode
  pub account_region : Region
  pub api_origin : String
  pub issuer : Option String
  pub jwks_uri : Option String
  pub audience : Option String

pub record Binding : Type 0 where
  pub id : String
  pub org_id : String
  pub service : ServiceKind
  pub config : Config
  pub credential_ref : Option String
  pub status : BindingStatus
  pub capabilities_version : ℕ
  pub config_version : ℕ
  pub verified_at : Option ℕ
  pub created_at : ℕ
  pub updated_at : ℕ

-- The service of a request is the text of its path.
pub record UpsertDto : Type 0 where
  pub mode : ServiceMode
  pub account_region : Region
  pub api_origin : Option String
  pub issuer : Option String
  pub jwks_uri : Option String
  pub audience : Option String
  pub credential : Option String
  pub capabilities_version : Option ℕ

pub record Db : Type 0 where
  pub bindings : List Binding
  pub devices : List DeviceRow
  pub secrets : List Secret
  pub organizations : List String
  pub audits : List AuditCall

abbrev pub kind_eqb : ServiceKind → ServiceKind → Bool
kind_eqb model_control model_control = true
kind_eqb desk_tasks desk_tasks = true
kind_eqb collab collab = true
kind_eqb extension_catalog extension_catalog = true
kind_eqb _ _ = false

abbrev pub is_active : BindingStatus → Bool
is_active active = true
is_active _ = false

abbrev pub by_id : String → Binding → Bool
by_id id b = b.id == id

-- where: { orgId_service: { orgId, service } }
abbrev pub by_service : String → ServiceKind → Binding → Bool
by_service org_id service b = (b.org_id == org_id) && kind_eqb b.service service
