-- ===== src/Devices.antt =====
-- The bearer checks at the head of every device endpoint: `deviceIdentity` of
-- src/learnings/learnings.service.ts and `deviceFromBearer` of src/assets/assets.service.ts.
use hara_control.Common.{
  find, ℕ, String, Bool, Option, none, some, List, ◌==◌, if◌then◌else◌, unauthorized, Outcome, err,
  ◌>>◌, require,
}
use hara_control.Host.{Host}
use hara_control.Tokens.{ValidatableToken, Env, assert_token_usable}

pub record Device : Type 0 where
  pub id : String
  pub org_id : String

-- A row of DeviceToken with its device.
pub record DeviceToken : Type 0 where
  pub token_hash : String
  pub token : ValidatableToken
  pub device : Option Device

abbrev pub by_hash : String → DeviceToken → Bool
by_hash hash row = row.token_hash == hash

unfoldable pub row_token : Option DeviceToken → Option ValidatableToken
row_token none = none
row_token (some row) = some row.token

unfoldable pub row_device : Option DeviceToken → Option Device
row_device none = none
row_device (some row) = row.device

unfoldable pub device_identity : Host → Env → ℕ → Option String → List DeviceToken → Outcome Device
device_identity host env now none tokens = err (unauthorized "missing token")
device_identity host env now (some bearer) tokens =
    if bearer == "" then err (unauthorized "missing token") else do
      let row = find (by_hash (host.sha256 bearer)) tokens
      assert_token_usable host env none now (row_token row)
      require (row_device row) (unauthorized "device identity is unavailable")
