-- ===== src/Assets/Guard.antt =====
-- src/assets/guard.ts: the redaction of secrets, and the scan for injected instructions.
use hara_control.Common.{any, ℕ, zero, suc, String, Bool, not, List, [], ◌∷◌, ◌++◌, append}
use hara_control.Host.{
  Pattern, ignore_instructions, disregard_instructions, file_url, sk_token, aws_key, github_token,
  private_key_block, Host,
}

-- SECRETS and INJECTION, with their labels
abbrev pub secrets : List (Pattern × String)
secrets =
    (sk_token, "sk-key")
    ∷ (aws_key, "aws-key")
    ∷ (github_token, "github-token")
    ∷ (private_key_block, "private-key")
    ∷ []

abbrev pub injection : List (Pattern × String)
injection =
    (ignore_instructions, "prompt-injection phrase")
    ∷ (disregard_instructions, "prompt-injection phrase")
    ∷ (file_url, "file:// URL")
    ∷ []

abbrev pub repeat : ℕ → String → List String
repeat zero label = []
repeat (suc n) label = label ∷ repeat n label

module _ (host : Host) where
  -- The loop over the secrets, with the text and the labels so far.
  unfoldable pub redact_from : List (Pattern × String) → String → List String → String × List String
  redact_from [] out redactions = (out, redactions)
  redact_from ((re, label) ∷ rest) out redactions =
      redact_from rest (host.replace re (append "<REDACTED:" (append label ">")) out)
        (redactions ++ repeat (host.occurrences re out) label)

  unfoldable pub redact_secrets : String → String × List String
  redact_secrets text = redact_from secrets text []

  -- `ok` of the scan
  unfoldable pub scan_for_injection : String → Bool
  scan_for_injection text = not (any (λ r. host.matches r.0 text) injection)
