-- ===== src/NetSafety/Sound.antt =====
-- What is known of a URL that the check lets pass.
use ipointel.Base.{
  String, ◌≡◌, refl, ◌⊎◌, Bool, false, Option, none, some, List, [], ◌∷◌, arith, any, All, eq_iff,
}
use ipointel.NetSafety.{
  Net, Url, Address, is_blocked_ip, is_blocked_hostname, is_outside, port_of, check_resolved,
  check_address, check_host, validate_outbound_url,
}

-- No address that the host stands for is blocked: the host is an address itself, or it resolves, and
-- every address of the answer may be fetched.
pub data IsReachable (net : Net) (url : Url) (host : String) : Type 0 where
  is_literal :
      (ip : Address)
      → net.literal host ≡ some ip
      → is_blocked_ip net ip ≡ false
      → IsReachable net url host
  resolves :
      (infos : List Address)
      → net.resolve host (port_of url) ≡ some infos
      → All (λ ip. is_blocked_ip net ip ≡ false) infos
      → IsReachable net url host

pub record IsSafe (net : Net) (url : Url) (allowed : Option (List String)) (host : String)
    : Type 0 where
  pub is_web : (url.scheme ≡ "http") ⊎ (url.scheme ≡ "https")
  pub has_host : url.hostname ≡ some host
  pub is_public : is_blocked_hostname (net.lower host) ≡ false
  pub is_listed : is_outside allowed (net.lower host) ≡ false
  pub reachable : IsReachable net url host

none_blocked :
    (test : Address → Bool) (infos : List Address)
    → any test infos ≡ false
    → All (λ ip. test ip ≡ false) infos
none_blocked test [] h = tt
none_blocked test (ip ∷ infos) h = (ground arith, none_blocked test infos (ground arith))

resolved-IsReachable :
    (net : Net) (url : Url) (host : String) (answer : Option (List Address))
    → net.resolve host (port_of url) ≡ answer
    → check_resolved net answer ≡ none
    → IsReachable net url host
unfolding check_resolved
resolved-IsReachable net url host none e h = cc
resolved-IsReachable net url host (some infos) e h =
    resolves infos e (none_blocked _ infos (ground arith))

address-IsReachable :
    (net : Net) (url : Url) (host : String) (literal : Option Address)
    → net.literal host ≡ literal
    → check_address net url host literal ≡ none
    → IsReachable net url host
unfolding check_address
address-IsReachable net url host none e h = resolved-IsReachable net url host _ refl h
address-IsReachable net url host (some ip) e h = is_literal ip e (ground arith)

host_passes :
    (net : Net) (url : Url) (allowed : Option (List String)) (found : Option String)
    → check_host net url allowed found ≡ none
    → (host : String) × (found ≡ some host)
      × (is_blocked_hostname (net.lower host) ≡ false)
      × (is_outside allowed (net.lower host) ≡ false)
      × (check_address net url host (net.literal host) ≡ none)
unfolding check_host
host_passes net url allowed none h = cc
host_passes net url allowed (some host) h = (host, refl, ground arith, ground arith, ground arith)

-- A URL that is let pass has the scheme http or https and a host whose name is not blocked and, where
-- there is an allowlist, stands in it; and every address that the host is, or resolved to in the check,
-- is outside the blocked ranges.
pub validate_outbound_url-IsSafe :
    (net : Net) (url : Url) (allowed : Option (List String))
    → validate_outbound_url net url allowed ≡ none
    → (host : String) × IsSafe net url allowed host
unfolding validate_outbound_url
validate_outbound_url-IsSafe net url allowed h =
    let web : (url.scheme ≡ "http") ⊎ (url.scheme ≡ "https") =
      ground (arith, eq_iff url.scheme "http", eq_iff url.scheme "https") in
    let (host, found, public, listed, address) =
      host_passes net url allowed url.hostname (ground arith) in
    (
      host,
      record {
        is_web = web;
        has_host = found;
        is_public = public;
        is_listed = listed;
        reachable = address-IsReachable net url host _ refl address;
      },
    )
