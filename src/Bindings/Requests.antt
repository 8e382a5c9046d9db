-- ===== src/Bindings/Requests.antt =====
-- src/service-bindings/service-bindings.service.ts: the normalisation of a request.
use hara_control.Common.{
  String, Bool, true, false, not, ◌&&◌, ◌||◌, Option, none, some, ◌==◌, leb, if◌then◌else◌, is_some,
  bad_request, Outcome, err, ok, ensure, require, ◌>>=◌, ◌>>◌, text_length,
}
use hara_control.Host.{any_control_character, safe_audience, trailing_slash, Host}
use hara_control.Bindings.Types.{
  ServiceKind, model_control, desk_tasks, collab, extension_catalog, Config, UpsertDto, kind_eqb,
}

-- new URL(text), as far as the service looks at it; `href` is its `toString()`.
pub record Url : Type 0 where
  pub protocol : String
  pub hostname : String
  pub username : String
  pub password : String
  pub search : String
  pub hash : String
  pub pathname : String
  pub origin : String
  pub href : String

abbrev pub ParseUrl : Type 0
ParseUrl = String → Option Url

unfoldable pub service_kind : String → Outcome ServiceKind
service_kind value =
    if value == "MODEL_CONTROL"
    then ok model_control
    else if value == "DESK_TASKS"
    then ok desk_tasks
    else if value == "COLLAB"
    then ok collab
    else if value == "EXTENSION_CATALOG"
    then ok extension_catalog
    else err (bad_request "unknown organization service")

module _ (host : Host) (parse_url : ParseUrl) where
  unfoldable pub is_loopback : String → Bool
  is_loopback hostname =
      let normalized = host.to_lower hostname in
      (normalized == "localhost" || normalized == "127.0.0.1")
      || (normalized == "[::1]" || normalized == "::1")

  abbrev pub is_secure : Url → Bool
  unfolding is_loopback
  is_secure url = url.protocol == "https:" || (url.protocol == "http:" && is_loopback url.hostname)

  abbrev pub is_bare : Url → Bool
  is_bare url = (url.username == "" && url.password == "") && (url.search == "" && url.hash == "")

  -- The checks of a value that is there, and what is stored of it.
  unfoldable pub normalize_present : String → Bool → Outcome String
  normalize_present value origin_only = do
    ensure (leb (text_length value) 2048 && not (host.matches any_control_character value))
        (bad_request "is invalid")
    parsed ← require (parse_url (host.trim value)) (bad_request "must be an absolute URL")
    ensure
        (is_secure parsed
          && (is_bare parsed
              && (not origin_only || (parsed.pathname == "/" || parsed.pathname == ""))))
        (bad_request "must use HTTPS and must not contain credentials, query, or fragment data")
    ok (if origin_only then parsed.origin else host.replace trailing_slash "" parsed.href)

  unfoldable pub normalize_url : Option String → Bool → Outcome (Option String)
  normalize_url none origin_only = ok none
  normalize_url (some value) origin_only =
      if host.trim value == ""
      then ok none
      else do normalized ← normalize_present value origin_only; ok (some normalized)

  unfoldable pub normalize_audience : Option String → Outcome (Option String)
  normalize_audience none = ok none
  normalize_audience (some value) = if host.trim value == "" then ok none else do
    ensure ((value == host.trim value) && host.matches safe_audience value)
        (bad_request "audience is invalid")
    ok (some value)

  unfoldable pub is_credential : String → Bool
  is_credential credential =
      (not (credential == "") && leb (text_length credential) 4096)
      && ((credential == host.trim credential)
          && not (host.matches any_control_character credential))

  abbrev pub credential_checked : ServiceKind → Option String → Outcome (Unit {0})
  unfolding is_credential
  credential_checked service none = ok tt
  credential_checked service (some credential) = do
    ensure (is_credential credential)
        (bad_request "credential must be 1 to 4096 printable non-padding characters")
    ensure (kind_eqb service desk_tasks)
        (bad_request "only DESK_TASKS accepts an enrollment credential")

  -- The part of `upsert` before any write.
  unfoldable pub checked_config : String → UpsertDto → Outcome (ServiceKind × Config)
  checked_config raw_service input = do
    service ← service_kind raw_service
    origin ← normalize_url input.api_origin true
    api_origin ← require origin (bad_request "apiOrigin is required")
    issuer ← normalize_url input.issuer false
    jwks_uri ← normalize_url input.jwks_uri false
    audience ← normalize_audience input.audience
    ensure
        (not (kind_eqb service collab)
          || (is_some issuer && (is_some jwks_uri && is_some audience)))
        (bad_request "COLLAB requires issuer, jwksUri, and audience")
    credential_checked service input.credential
    ok (
      service,
      record {
        mode = input.mode;
        account_region = input.account_region;
        api_origin = api_origin;
        issuer = issuer;
        jwks_uri = jwks_uri;
        audience = audience;
      },
    )
