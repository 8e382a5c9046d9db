-- ===== src/Ssrf/Hops.antt =====
-- Every URL that is fetched passed the check, and what the check lets through.
use hara_control.Common.{
  has, length, All, ℕ, zero, suc, ◌≤◌, String, ◌≡◌, refl, inl, inr, true, false, ◌||◌, Option, none,
  some, List, [], ◌∷◌, arith, Bool-cases, Option-cases, Outcome, err, ok, Outcome-cases,
}
use hara_control.Ssrf.{
  SsrfPolicy, is_always_blocked_ip, Response, Network, is_open, check_addresses, addresses,
  assert_url_allowed, fetch_hop, fetch_hops, safe_fetch,
}

module _ (net : Network) (policy : SsrfPolicy) where
  abbrev pub IsChecked : ℕ → Outcome Response × List String → Type 0
  IsChecked bound result =
      All (λ u. assert_url_allowed net policy u ≡ ok tt) result.1 × (length result.1 ≤ bound)

  fetch_hop-IsChecked :
      (again : String → Outcome Response × List String) (bound : ℕ) (url : String)
      (check : Outcome (Unit {0})) (next : Option String)
      → ((u : String) → IsChecked bound (again u))
      → assert_url_allowed net policy url ≡ check
      → IsChecked (suc bound) (fetch_hop net policy again url check next)
  unfolding fetch_hop
  fetch_hop-IsChecked again bound url (err fault) next rest e = (tt, omega arith)
  fetch_hop-IsChecked again bound url (ok _) none rest e = ((e, tt), omega arith)
  fetch_hop-IsChecked again bound url (ok _) (some next) rest e =
      ((e, (rest next).0), omega (arith, (rest next).1))

  fetch_hops-IsChecked : (left : ℕ) (url : String) → IsChecked left (fetch_hops net policy left url)
  unfolding fetch_hops
  fetch_hops-IsChecked zero url = (tt, omega arith)
  fetch_hops-IsChecked (suc left) url =
      fetch_hop-IsChecked (fetch_hops net policy left) left url _ _ (fetch_hops-IsChecked left) refl

  -- Whatever the network answers, every URL that a fetch requests, at the first hop and at each
  -- redirection, passed the check of its URL, and no more than one request more than the permitted
  -- redirections is made.
  pub safe_fetch-allowed :
      (input : String)
      → All (λ u. assert_url_allowed net policy u ≡ ok tt) (safe_fetch net policy input).1
        × (length (safe_fetch net policy input).1 ≤ suc policy.max_redirects)
  unfolding safe_fetch
  safe_fetch-allowed input = fetch_hops-IsChecked (suc policy.max_redirects) input

  check_addresses-All :
      (addrs : List String)
      → check_addresses net policy addrs ≡ ok tt
      → All (λ ip. is_always_blocked_ip (net.read_ip ip) ≡ false) addrs
  unfolding check_addresses
  check_addresses-All [] e = tt
  check_addresses-All (ip ∷ rest) e = elim (Bool-cases (is_always_blocked_ip (net.read_ip ip))) [
    | inl bad ↦ ground arith
    | inr fine ↦ (fine, check_addresses-All rest (ground arith))
  ]

  -- A URL that passes the check has a host that is on the allow-list, if there is one, and whose
  -- addresses, literal or looked up, include none that is always blocked.
  pub assert_url_allowed-unblocked :
      (raw_url : String)
      → assert_url_allowed net policy raw_url ≡ ok tt
      → (url : String × String) × (addrs : List String) × (net.parse_url raw_url ≡ some url)
        × ((is_open net policy || has policy.allow_hosts url.1) ≡ true)
        × (addresses net policy url.1 ≡ ok addrs)
        × All (λ ip. is_always_blocked_ip (net.read_ip ip) ≡ false) addrs
  unfolding assert_url_allowed
  assert_url_allowed-unblocked raw_url e = elim (Option-cases (net.parse_url raw_url)) [
    | inl bad ↦ ground arith
    | inr (url, parsed) ↦ elim (Outcome-cases (addresses net policy url.1)) [
      | inr (fault, failed) ↦ ground arith
      | inl (addrs, found) ↦
          (url, addrs, parsed, ground arith, found, check_addresses-All addrs (ground arith))
    ]
  ]
