-- ===== src/Bindings/Probe.antt =====
-- src/service-bindings/service-bindings.service.ts: the readiness checks of a configured service.
use hara_control.Common.{
  ℕ, suc, ◌*◌, String, Bool, true, false, not, ◌&&◌, ◌||◌, Option, none, some, [], ◌∷◌, ◌==◌, ltb,
  leb, if◌then◌else◌, is_some, Fault, bad_request, failure, Outcome, err, ok, ensure, require,
  ◌>>=◌, ◌>>◌, append,
}
use hara_control.Host.{Host}
use hara_control.Json.{Json, bool, str, arr, obj, Items, nil, cons, Fields, end, field}
use hara_control.Ssrf.{SsrfPolicy, Response, Network, safe_fetch}
use hara_control.Bindings.Types.{ServiceKind, desk_tasks, collab, extension_catalog, Binding}
use hara_control.Bindings.Requests.{Url, ParseUrl}

abbrev pub max_health_response_bytes : ℕ
max_health_response_bytes = 64 * 1024

abbrev pub max_jwks_response_bytes : ℕ
max_jwks_response_bytes = 256 * 1024

-- The rest of what a probe takes from Node: JSON.parse and Buffer.byteLength(text, "utf8").
pub record Reader : Type 0 where
  pub parse_json : String → Option Json
  pub byte_length : String → ℕ

unfoldable pub health_path : ServiceKind → String
health_path desk_tasks = "/health"
health_path extension_catalog = "/health"
health_path _ = "/health/ready"

-- A member of an object that JSON.parse made; its keys are distinct.
unfoldable pub member : String → Fields → Option Json
member k end = none
member k (field l v rest) = if l == k then some v else member k rest

abbrev pub is_text : Option Json → String → Bool
is_text (some (str s)) t = s == t
is_text _ t = false

abbrev pub is_true : Option Json → Bool
is_true (some (bool b)) = b
is_true _ = false

-- body.deployment, if it is an object
abbrev pub object_of : Option Json → Fields
object_of (some (obj fields)) = fields
object_of _ = end

abbrev pub too_large : ℕ → Option ℕ → Bool
too_large maximum none = false
too_large maximum (some n) = ltb maximum n

abbrev pub is_success : Response → Bool
is_success response = leb 200 response.status && ltb response.status 300

-- Whether a key of a JWKS is refused: it is no object, or it has the private part "d".
abbrev pub is_bad_key : Json → Bool
unfolding member
is_bad_key (obj fields) = is_some (member "d" fields)
is_bad_key _ = true

unfoldable pub any_bad_key : Items → Bool
any_bad_key nil = false
any_bad_key (cons v rest) = is_bad_key v || any_bad_key rest

unfoldable pub item_count : Items → ℕ
item_count nil = 0
item_count (cons v rest) = suc (item_count rest)

abbrev pub is_key_set : Option Json → Bool
unfolding any_bad_key item_count
is_key_set (some (arr keys)) =
    (leb 1 (item_count keys) && leb (item_count keys) 20) && not (any_bad_key keys)
is_key_set _ = false

unfoldable pub is_healthy : ServiceKind → String → Fields → Bool
unfolding member
is_healthy desk_tasks org_id body =
    is_true (member "ok" body)
    && (is_text (member "mode" (object_of (member "deployment" body))) "self-hosted"
        && (is_text (member "tenancy" (object_of (member "deployment" body))) "single-organization"
            && is_text (member "realmId" (object_of (member "deployment" body))) org_id))
is_healthy collab org_id body =
    is_text (member "status" body) "ready" && is_text (member "service" body) "hara-collab"
is_healthy _ org_id body =
    is_text (member "status" body) "ok"
    || (is_text (member "status" body) "ready" || is_true (member "ok" body))

module _ (host : Host) (parse_url : ParseUrl) (net : Network) (reader : Reader) where
  -- The policy of a probe: only the host of its own URL, and no redirection.
  abbrev pub probe_policy : Url → SsrfPolicy
  probe_policy target = record {
    allow_hosts = host.to_lower target.hostname ∷ [];
    block_private_when_open = false;
    max_redirects = 0;
  }

  abbrev pub fetched : Outcome Response → Outcome Response
  fetched (ok response) = ok response
  fetched (err fault) = err (failure "organization service readiness check failed")

  unfoldable pub probe : String → ℕ → Outcome Response
  probe url maximum = do
    target ← require (parse_url url) (bad_request "organization service URL is invalid")
    response ← fetched (safe_fetch net (probe_policy target) target.href).0
    ensure (not (too_large maximum response.content_length))
        (failure "organization service response is too large")
    ok response

  abbrev pub object_or : Fault → Option Json → Outcome Fields
  object_or fault (some (obj fields)) = ok fields
  object_or fault _ = err fault

  unfoldable pub read_json : Response → ℕ → Fault → Outcome Fields
  read_json response maximum fault = do
    text ← require response.body fault
    ensure (leb (reader.byte_length text) maximum) fault
    object_or fault (reader.parse_json text)

  unfoldable pub verify_health : Binding → Outcome (Unit {0})
  verify_health row = do
    response ←
        probe (append row.config.api_origin (health_path row.service)) max_health_response_bytes
    ensure (is_success response) (failure "organization service readiness check failed")
    body ←
        read_json response max_health_response_bytes
          (failure "organization service readiness check failed")
    ensure (is_healthy row.service row.org_id body)
        (failure "organization service readiness check failed")

  unfoldable pub verify_jwks : String → Outcome (Unit {0})
  verify_jwks url = do
    response ← probe url max_jwks_response_bytes
    ensure (is_success response) (failure "organization service JWKS check failed")
    body ←
        read_json response max_jwks_response_bytes
          (failure "organization service JWKS check failed")
    ensure (is_key_set (member "keys" body)) (failure "organization service JWKS check failed")
