-- ===== src/Host.antt =====
-- What the services take from Node and from its crypto module: text operations, the regular
-- expressions that the sources name, hashing and decoding. None of it is defined here.
pub mod Numbers
pub mod Plain
use hara_control.Common.{ℕ, String, Bool, Option, List}
use Numbers.{Number}

-- The regular expressions of the sources, by their names or by what they look for: those of
-- common/redact.ts, of UNSAFE_TEXT in learnings/learnings.service.ts, of assets/guard.ts and of
-- assets/skill-capabilities.ts; `whitespace` is /\s+/gu and `carriage_return` is /\r\n?/g.
pub data Pattern : Type 0 where
  control_characters credential_assignment bearer_credential common_secret : Pattern
  windows_home_path posix_home_path url_secret whitespace carriage_return : Pattern
  sk_credential authorization_credential private_key_header inline_credential : Pattern
  macos_user_path linux_user_path windows_user_path contact_data : Pattern
  ignore_instructions disregard_instructions file_url control_character : Pattern
  sk_token aws_key github_token private_key_block capability_name : Pattern
  any_control_character safe_audience trailing_slash desk_instance safe_model_id : Pattern

pub record Host : Type 0 where
  -- value.replace(pattern, replacement)
  pub replace : Pattern → String → String → String
  -- pattern.test(value)
  pub matches : Pattern → String → Bool
  -- The number of times that value.replace(pattern, …) calls its function, with a global pattern
  pub occurrences : Pattern → String → ℕ
  -- value.trim()
  pub trim : String → String
  -- value.split(separator)
  pub split : String → String → List String
  -- value.toLowerCase()
  pub to_lower : String → String
  -- value.slice(0, n)
  pub prefix : ℕ → String → String
  -- createHash("sha256").update(value, "utf8").digest("hex")
  pub sha256 : String → String
  -- Buffer.from(value, "hex")
  pub from_hex : String → List ℕ
  -- Number(value), of a text or of `undefined`
  pub number : Option String → Number
