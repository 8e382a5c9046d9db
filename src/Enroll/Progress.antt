-- ===== src/Enroll/Progress.antt =====
-- src/enroll/enroll.service.ts: what an enrollment meets, keeps track of and answers.
use hara_control.Common.{ℕ, String, Bool, Option, none, some, List, Fault, Outcome}
use hara_control.Ssrf.{Response}
use hara_control.KeyPolicy.{StoredPolicy}
use hara_control.Bindings.Types.{Binding}
use hara_control.Enroll.Provisioner.{ProvisionedDesk}
use hara_control.Enroll.Registration.{Receipt, Answers}
use hara_control.Enroll.Exchange.{World}

pub record IssuedKey : Type 0 where
  pub key : String
  pub key_id : String
  pub expires_at : Option ℕ

-- DeviceInfoDto; an absent text is the empty one.
pub record DeviceInfo : Type 0 where
  pub name : String
  pub os : String
  pub hara_version : String
  pub client_kind : String

-- What the environment does to one enrollment: the id of the new device, and for each write or
-- remote call the exception that it throws, or its answer. `orphan` is the alias of the key that
-- stays live where the gateway's adapter fails to issue one and to clean up after that.
pub record Events : Type 0 where
  pub device_id : String
  pub create : Option Fault
  pub issue : Outcome IssuedKey
  pub orphan : Option String
  pub store_token : Option Fault
  pub log : Option Fault
  pub desk : Answers
  pub finish : Option Fault
  pub mark : Option Fault
  pub compensate : Outcome Response
  pub revoke : Option Fault
  pub delete : Option Fault
  pub restore : Option Fault
  pub log_rollback : Option Fault

pub record Reply : Type 0 where
  pub device_token : String
  pub device_id : String
  pub tenant_id : String
  pub tenant_name : String
  pub model : String
  pub available_models : List String
  pub model_capabilities : List (String × List String)
  pub thinking_efforts : List String
  pub default_reasoning_effort : Option String
  pub base_url : Option String
  pub expires_at : Option ℕ
  pub access_policy : StoredPolicy
  pub service_bindings : List Binding
  pub desk : Option ProvisionedDesk

-- The variables of `enroll` that its catch block reads, with the tables.
pub record Progress : Type 0 where
  pub device : Option String
  pub issued : Option IssuedKey
  pub logged : Bool
  pub receipt : Option Receipt
  pub prepared : Bool
  pub world : World

-- The exception, and the parts of a DeskProvisioningFailure.
pub record Stop : Type 0 where
  pub fault : Fault
  pub desk_failure : Option (Bool × String)

pub data Run : Type 0 where
  done : Reply → World → Run
  stopped : Stop → Progress → Run

abbrev pub plain : Fault → Stop
plain fault = record { fault = fault; desk_failure = none }

abbrev pub guarded : Option Fault → Progress → Run → Run
guarded none progress next = next
guarded (some fault) progress next = stopped (plain fault) progress
