-- ===== src/Redact.antt =====
-- src/common/redact.ts
use hara_control.Common.{ℕ, String}
use hara_control.Host.{
  Host, control_characters, credential_assignment, bearer_credential, common_secret,
  windows_home_path, posix_home_path, url_secret, whitespace,
}

module _ (host : Host) where
  open host use {replace, trim, prefix}

  unfoldable pub sanitize_control_text : String → ℕ → String
  sanitize_control_text value max =
      let plain = replace control_characters " " value in
      let assigned = replace credential_assignment "credential=***" plain in
      let borne = replace bearer_credential "Bearer ***" assigned in
      let hidden = replace common_secret "<secret>" borne in
      let windows = replace windows_home_path "<local-path>" hidden in
      let posix = replace posix_home_path "<local-path>" windows in
      let linked = replace url_secret "$1***" posix in
      prefix max (trim (replace whitespace " " linked))
