-- ===== src/Ssrf.antt =====
-- src/security/ssrf.ts: the check of a URL before an outbound request, and the fetch that checks
-- every hop of a redirection.
pub mod Hops
mod Examples
use hara_control.Common.{
  has, length, ℕ, zero, suc, ◌/◌, ◌%◌, String, Bool, true, false, not, ◌&&◌, ◌||◌, Option, none,
  some, List, [], ◌∷◌, ◌==◌, ltb, leb, eqb, if◌then◌else◌, failure, Outcome, err, ok, ensure,
  require, ◌>>=◌, ◌>>◌,
}

pub record SsrfPolicy : Type 0 where
  pub allow_hosts : List String
  pub block_private_when_open : Bool
  pub max_redirects : ℕ

pub record V4 : Type 0 where
  pub a : ℕ
  pub b : ℕ
  pub c : ℕ
  pub d : ℕ

-- An IPv6 text without its brackets, in lower case, with what the code reads from it: its first
-- hextet, if it has one, whether it starts with "fc" or "fd", and an IPv4 address at its end.
pub record V6 : Type 0 where
  pub text : String
  pub first_hextet : Option ℕ
  pub starts_ula : Bool
  pub mapped : Option V4

-- An address text, by its family.
pub data Address : Type 0 where
  v4 : V4 → Address
  v6 : V6 → Address
  no_ip : Address

abbrev pub between : ℕ → ℕ → ℕ → Bool
between low high n = leb low n && leb n high

unfoldable pub is_private_ipv4 : V4 → Bool
is_private_ipv4 ip =
    eqb ip.a 0
    || (eqb ip.a 10
        || (eqb ip.a 127
            || ((eqb ip.a 169 && eqb ip.b 254)
                || ((eqb ip.a 172 && between 16 31 ip.b)
                    || ((eqb ip.a 192 && eqb ip.b 168) || (eqb ip.a 100 && between 64 127 ip.b))))))

-- (first & 0xffc0) === 0xfe80: bits 6 to 15 are those of 0xfe80
unfoldable pub is_ipv6_link_local : V6 → Bool
is_ipv6_link_local ip = elim ip.first_hextet [
  | none ↦ false
  | some first ↦ eqb (first / 64 % 1024) 1018
]

unfoldable pub is_private_ipv6 : V6 → Bool
is_private_ipv6 ip =
    (ip.text == "::1" || ip.text == "::")
    || (is_ipv6_link_local ip
        || (ip.starts_ula || elim ip.mapped [ none ↦ false | some m ↦ is_private_ipv4 m ]))

-- Link-local, with the metadata endpoint, and 0.0.0.0/8
unfoldable pub is_blocked_ipv4 : V4 → Bool
is_blocked_ipv4 ip = (eqb ip.a 169 && eqb ip.b 254) || eqb ip.a 0

unfoldable pub is_always_blocked_ip : Address → Bool
is_always_blocked_ip (v4 ip) = is_blocked_ipv4 ip
is_always_blocked_ip (v6 ip) =
    (ip.text == "::" || is_ipv6_link_local ip)
    || elim ip.mapped [ none ↦ false | some m ↦ is_blocked_ipv4 m ]
is_always_blocked_ip no_ip = false

unfoldable pub is_private_ip : Address → Bool
is_private_ip (v4 ip) = is_private_ipv4 ip
is_private_ip (v6 ip) = is_private_ipv6 ip
is_private_ip no_ip = false

-- A response; the length is what its header reads as, if that is finite, and the body is none where
-- reading it fails.
pub record Response : Type 0 where
  pub status : ℕ
  pub location : Option String
  pub content_length : Option ℕ
  pub body : Option String

-- What the file takes from Node: new URL(url), as its protocol and its host name in lower case,
-- isIP with the reading of an address, the DNS lookup, new URL(location, url), and fetch with
-- manual redirects.
pub record Network : Type 0 where
  pub parse_url : String → Option (String × String)
  pub read_ip : String → Address
  pub lookup : String → Outcome (List String)
  pub resolve : String → String → String
  pub fetch : String → Response

abbrev pub is_ip : Address → Bool
is_ip no_ip = false
is_ip _ = true

module _ (net : Network) (policy : SsrfPolicy) where
  abbrev pub is_open : Bool
  is_open = eqb (length policy.allow_hosts) 0

  -- The loop over the addresses.
  unfoldable pub check_addresses : List String → Outcome (Unit {0})
  check_addresses [] = ok tt
  check_addresses (ip ∷ rest) = do
    ensure (not (is_always_blocked_ip (net.read_ip ip))) (failure "resolves to blocked address")
    ensure (not (is_open && (policy.block_private_when_open && is_private_ip (net.read_ip ip))))
        (failure "resolves to private address")
    check_addresses rest

  -- The literal address, or every DNS answer; a failed lookup is the network's error.
  unfoldable pub addresses : String → Outcome (List String)
  addresses host = if is_ip (net.read_ip host) then ok (host ∷ []) else do
    addrs ← net.lookup host
    ensure (not (eqb (length addrs) 0)) (failure "no addresses")
    ok addrs

  unfoldable pub assert_url_allowed : String → Outcome (Unit {0})
  assert_url_allowed raw_url = do
    url ← require (net.parse_url raw_url) (failure "unparseable url")
    ensure (url.0 == "http:" || url.0 == "https:") (failure "scheme not allowed")
    ensure (is_open || has policy.allow_hosts url.1) (failure "host not on HARA_SSRF_ALLOW_HOSTS")
    addrs ← addresses url.1
    check_addresses addrs

  abbrev pub next_hop : String → Response → Option String
  next_hop url res =
      if leb 300 res.status && ltb res.status 400
      then elim res.location [ none ↦ none | some loc ↦ some (net.resolve loc url) ]
      else none

  -- One hop, with the rest of the loop, the result of the check and the URL that comes next; beside
  -- the result, the URLs that were fetched.
  unfoldable pub fetch_hop :
      (String → Outcome Response × List String)
      → String
      → Outcome (Unit {0})
      → Option String
      → Outcome Response × List String
  fetch_hop again url (err fault) next = (err fault, [])
  fetch_hop again url (ok _) none = (ok (net.fetch url), url ∷ [])
  fetch_hop again url (ok _) (some next) = ((again next).0, url ∷ (again next).1)

  -- The loop, with the hops that are left.
  unfoldable pub fetch_hops : ℕ → String → Outcome Response × List String
  fetch_hops zero url = (err (failure "too many redirects"), [])
  fetch_hops (suc left) url =
      fetch_hop (fetch_hops left) url (assert_url_allowed url) (next_hop url (net.fetch url))

  unfoldable pub safe_fetch : String → Outcome Response × List String
  safe_fetch input = fetch_hops (suc policy.max_redirects) input
