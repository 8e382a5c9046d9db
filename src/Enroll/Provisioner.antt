-- ===== src/Enroll/Provisioner.antt =====
-- src/enroll/desk-provisioner.ts: the operator's targets, and what Desk's answers must prove.
use hara_control.Common.{
  ℕ, ◌*◌, String, Bool, true, false, not, ◌&&◌, ◌||◌, Option, none, some, List, [], ◌∷◌, ◌==◌, leb,
  eqb, if◌then◌else◌, or_else, failure, Outcome, err, ok, ensure, require, ◌>>=◌, ◌>>◌, text_length,
}
use hara_control.Host.{any_control_character, Host}
use hara_control.Json.{Json, bool, num, str, obj, Fields, end, field}
use hara_control.Ssrf.{Response}
use hara_control.Bindings.Requests.{Url, ParseUrl, is_bare}
use hara_control.Bindings.Probe.{Reader, member, is_text, too_large, is_success}

-- DeskProvisioningTarget; `enroll_key` has the bytes of the secret.
pub record Target : Type 0 where
  pub url : String
  pub enroll_key : List ℕ

pub record ProvisionedDesk : Type 0 where
  pub url : String
  pub agent_id : String
  pub owner : String
  pub token : String
  pub credential_generation : ℕ

pub record ProvisioningInput : Type 0 where
  pub org_id : String
  pub owner : String
  pub device_name : String
  pub installation_id : String
  pub platform : String
  pub version : String
  pub client_kind : String
  pub instance_id : Option String
  pub agent_name : Option String
  pub expected_url : Option String

abbrev pub max_config_bytes : ℕ
max_config_bytes = 64 * 1024

abbrev pub max_response_bytes : ℕ
max_response_bytes = 64 * 1024

abbrev pub max_desk_token_bytes : ℕ
max_desk_token_bytes = 4096

-- value || other
abbrev pub given_or : Option String → String → String
given_or none other = other
given_or (some s) other = if s == "" then other else s

abbrev pub is_origin_path : Url → Bool
is_origin_path url = url.pathname == "/" || url.pathname == ""

abbrev pub text_of : Option Json → Option String
text_of (some (str s)) = some s
text_of _ = none

abbrev pub number_of : Option Json → Option ℕ
number_of (some (num n)) = some n
number_of _ = none

abbrev pub is_number : Option Json → ℕ → Bool
is_number (some (num n)) m = eqb n m
is_number _ m = false

abbrev pub is_false : Option Json → Bool
is_false (some (bool b)) = not b
is_false _ = false

abbrev pub flag_of : Option Json → Option Bool
flag_of (some (bool b)) = some b
flag_of _ = none

module _ (host : Host) where
  -- boundedIdentity; a value that is no text counts as the empty one.
  unfoldable pub bounded_identity : Option String → ℕ → Outcome String
  bounded_identity value max_length =
      let normalized = host.trim (or_else value "") in
      do
        ensure
            (not (normalized == "")
              && (leb (text_length normalized) max_length
                  && not (host.matches any_control_character normalized)))
            (failure "Hara Desk returned an invalid field")
        ok normalized

  module _ (parse_url : ParseUrl) where
    -- The protocol and the host name of a Desk origin, with the exact spellings of loopback.
    abbrev pub is_desk_secure : Url → Bool
    is_desk_secure url =
        url.protocol == "https:"
        || (url.protocol == "http:"
            && (url.hostname == "localhost"
                || (url.hostname == "127.0.0.1" || url.hostname == "[::1]")))

    unfoldable pub desk_origin : Option String → Outcome String
    desk_origin value = do
      text ← require value (failure "invalid Desk URL")
      ensure (not (host.trim text == "") && leb (text_length text) 2048)
          (failure "invalid Desk URL")
      parsed ← require (parse_url (host.trim text)) (failure "invalid Desk URL")
      ensure (is_desk_secure parsed && (is_bare host parse_url parsed && is_origin_path parsed))
          (failure "Desk URLs must be HTTPS origins")
      ok parsed.origin

    unfoldable pub is_enroll_key : Option String → Bool
    is_enroll_key none = false
    is_enroll_key (some key) =
        not (key == "")
        && (leb (text_length key) 4096 && not (host.matches any_control_character key))

    -- One entry of the operator's map; `utf8` gives the bytes of a text.
    unfoldable pub target_entry : (String → List ℕ) → String → Json → Outcome Target
    target_entry utf8 org_id (obj entry) = do
      ensure
          (not (org_id == "")
            && (leb (text_length org_id) 128 && not (host.matches any_control_character org_id)))
          (failure "invalid organization entry")
      ensure (is_enroll_key (text_of (member "enrollKey" entry)))
          (failure "invalid enrollment secret")
      url ← desk_origin (text_of (member "url" entry))
      ok (record { url = url; enroll_key = utf8 (or_else (text_of (member "enrollKey" entry)) "") })
    target_entry utf8 org_id _ = err (failure "invalid organization entry")

    unfoldable pub target_entries : (String → List ℕ) → Fields → Outcome (List (String × Target))
    target_entries utf8 end = ok []
    target_entries utf8 (field org_id value rest) = do
      target ← target_entry utf8 org_id value
      targets ← target_entries utf8 rest
      ok ((org_id, target) ∷ targets)

    abbrev pub targets_of : (String → List ℕ) → Option Json → Outcome (List (String × Target))
    unfolding target_entries
    targets_of utf8 (some (obj entries)) = target_entries utf8 entries
    targets_of utf8 (some _) = err (failure "must be an organization map")
    targets_of utf8 none = err (failure "must be valid JSON")

    pub parse_desk_provisioning :
        Reader → (String → List ℕ) → Option String → Outcome (List (String × Target))
    parse_desk_provisioning reader utf8 none = ok []
    parse_desk_provisioning reader utf8 (some raw) = if host.trim raw == "" then ok [] else do
      ensure (leb (reader.byte_length raw) max_config_bytes) (failure "is too large")
      targets_of utf8 (reader.parse_json raw)

-- this.targets.get(orgId)
unfoldable pub target_of : List (String × Target) → String → Option Target
target_of [] org_id = none
target_of ((id, target) ∷ targets) org_id =
    if id == org_id then some target else target_of targets org_id

module _ (reader : Reader) where
  -- The body of an answer of Desk, as an object.
  unfoldable pub read_body : Response → Outcome Fields
  read_body response = do
    ensure (is_success response) (failure "Desk rejected the request")
    ensure (not (too_large max_response_bytes response.content_length))
        (failure "Desk returned an oversized response")
    raw ← require response.body (failure "Desk returned an unreadable response")
    ensure (leb (reader.byte_length raw) max_response_bytes)
        (failure "Desk returned an oversized response")
    require (fields_of (reader.parse_json raw)) (failure "Desk returned an invalid response")
    where
      fields_of : Option Json → Option Fields
      fields_of (some (obj fields)) = some fields
      fields_of _ = none

  -- revokeAtTarget, of what the request gave back.
  unfoldable pub read_revocation : Bool → Outcome Response → Outcome (Unit {0})
  read_revocation allow_missing answer = do
    response ← answer
    body ← read_body response
    revoked ← require (flag_of (member "revoked" body)) (failure "revocation response is invalid")
    already ←
        require (flag_of (member "alreadyRevoked" body)) (failure "revocation response is invalid")
    ensure (revoked || allow_missing) (failure "Hara Desk did not find the installation to revoke")

-- Whether a request was confirmed.
abbrev pub accepts : Outcome (Unit {0}) → Bool
accepts (ok _) = true
accepts (err fault) = false

-- What Control asked Desk to register.
pub record Asked : Type 0 where
  pub url : String
  pub org_id : String
  pub provisioning_id : String
  pub owner : String
  pub client_kind : String
  pub installation_id : String

module _ (host : Host) where
  unfoldable pub is_asked_device : Asked → Option Json → Outcome (Unit {0})
  is_asked_device asked (some (obj device)) = do
    id ← bounded_identity host (text_of (member "installationId" device)) 160
    ensure (id == asked.installation_id && is_false (member "revoked" device))
        (failure "Desk returned a different or revoked Control installation")
  is_asked_device asked _ = err (failure "Desk did not bind the Agent to the Control installation")

  module _ (reader : Reader) where
    -- The checks of the registration's answer.
    unfoldable pub read_registration : Asked → Outcome Response → Outcome ProvisionedDesk
    read_registration asked answer = do
      response ← answer
      body ← read_body reader response
      ensure
          (is_text (member "realmId" body) asked.org_id
            && (is_text (member "provisioningId" body) asked.provisioning_id
                && is_number (member "protocolVersion" body) 1))
          (failure "Desk did not prove the requested organization provisioning identity")
      owner ← bounded_identity host (text_of (member "owner" body)) 256
      ensure (owner == asked.owner)
          (failure "Desk returned a different owner than Control authenticated")
      client ← bounded_identity host (text_of (member "client" body)) 80
      ensure (client == asked.client_kind)
          (failure "Desk returned a different client than Control requested")
      is_asked_device asked (member "device" body)
      token ← bounded_identity host (text_of (member "token" body)) max_desk_token_bytes
      ensure (leb (reader.byte_length token) max_desk_token_bytes)
          (failure "Hara Desk returned an invalid Desk token")
      generation ←
          require (number_of (member "credentialGeneration" body))
            (failure "Hara Desk returned an invalid credential generation")
      ensure (leb 1 generation && leb generation 9007199254740991)
          (failure "Hara Desk returned an invalid credential generation")
      agent_id ← bounded_identity host (text_of (member "agentId" body)) 256
      ok (record {
        url = asked.url;
        agent_id = agent_id;
        owner = owner;
        token = token;
        credential_generation = generation;
      })
