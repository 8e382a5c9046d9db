-- ===== src/Ssrf/Examples.antt =====
-- A redirection into the link-local range, which the second check refuses.
use hara_control.Common.{
  has, length, All, ◌≤◌, String, ◌≡◌, refl, true, false, ◌||◌, none, some, List, [], ◌∷◌, ◌==◌,
  if◌then◌else◌, failure, err, ok,
}
use hara_control.Ssrf.{
  SsrfPolicy, V4, v4, no_ip, is_blocked_ipv4, is_always_blocked_ip, Network, is_open,
  check_addresses, addresses, assert_url_allowed, fetch_hop, fetch_hops, safe_fetch,
}
use hara_control.Ssrf.Hops.{safe_fetch-allowed, assert_url_allowed-unblocked}

abbrev metadata : V4
metadata = record { a = 169; b = 254; c = 169; d = 254 }

abbrev upstream : V4
upstream = record { a = 10; b = 1; c = 2; d = 3 }

abbrev net : Network
net = record {
  parse_url = λ u. if u == "bad" then none else some ("http:", u);
  read_ip = λ t. if t == "meta" then v4 metadata else if t == "up" then v4 upstream else no_ip;
  lookup = λ h. ok ("up" ∷ []);
  resolve = λ loc url. loc;
  fetch = λ u. record { status = 302; location = some "meta"; content_length = none; body = none };
}

abbrev policy : SsrfPolicy
policy = record { allow_hosts = []; block_private_when_open = false; max_redirects = 5 }

safe_fetch-allowed_example :
    All (λ u. assert_url_allowed net policy u ≡ ok tt) (safe_fetch net policy "gateway").1
    × (length (safe_fetch net policy "gateway").1 ≤ 6)
safe_fetch-allowed_example = safe_fetch-allowed net policy "gateway"

stopped_at_metadata :
    safe_fetch net policy "gateway" ≡ (err (failure "resolves to blocked address"), "gateway" ∷ [])
unfolding safe_fetch fetch_hops fetch_hop assert_url_allowed addresses check_addresses
    is_always_blocked_ip is_blocked_ipv4
stopped_at_metadata = refl

gateway_passes : assert_url_allowed net policy "gateway" ≡ ok tt
unfolding assert_url_allowed addresses check_addresses is_always_blocked_ip is_blocked_ipv4
gateway_passes = refl

assert_url_allowed-unblocked_example :
    (url : String × String) × (addrs : List String) × (net.parse_url "gateway" ≡ some url)
    × ((is_open net policy || has policy.allow_hosts url.1) ≡ true)
    × (addresses net policy url.1 ≡ ok addrs)
    × All (λ ip. is_always_blocked_ip (net.read_ip ip) ≡ false) addrs
assert_url_allowed-unblocked_example =
    assert_url_allowed-unblocked net policy "gateway" gateway_passes
