-- ===== src/Audit/Call.antt =====
-- A call of the audit log, as the services make it.
use hara_control.Common.{String}
use hara_control.Json.{Json}

pub record AuditCall : Type 0 where
  pub org_id : String
  pub action : String
  pub actor_type : String
  pub actor_id : String
  pub payload : Json
