-- ===== src/NetSafety.antt =====
-- app/services/net_safety.py: which URLs may be fetched. The parser of URLs, the class of an address and
-- the resolver are parameters: they come from `urllib`, `ipaddress` and `socket`.
pub mod Sound
mod Tests
use text.Mathlib.Text.{◌==◌ as str_eq}
use ipointel.Base.{
  ℕ, String, Bool, true, false, not, ◌&&◌, ◌||◌, Option, none, some, List, [], ◌∷◌, ◌==◌,
  if◌then◌else◌, any, is_empty,
}
use ipointel.Base.Text.{ends_with, begins, codes}

-- What `ipaddress` says of an address.
pub record Address : Type 0 where
  pub text : String
  pub is_loopback : Bool
  pub is_private : Bool
  pub is_link_local : Bool
  pub is_multicast : Bool
  pub is_reserved : Bool
  pub is_unspecified : Bool

-- A parsed URL; the port is none where it has none.
pub record Url : Type 0 where
  pub scheme : String
  pub hostname : Option String
  pub port : Option ℕ

-- The messages of `UnsafeUrlError`.
pub data Refusal : Type 0 where
  bad_scheme no_hostname blocked_hostname not_allowed : Refusal
  blocked_literal unresolved blocked_address : Refusal

-- What the check takes from the runtime: `str.lower`, `ip_address` of a text, and `getaddrinfo`, which
-- is none where it raises.
pub record Net : Type 0 where
  pub lower : String → String
  pub literal : String → Option Address
  pub resolve : String → ℕ → Option (List Address)

unfoldable pub is_blocked_ip : Net → Address → Bool
is_blocked_ip net ip =
    (ip.is_loopback
      || (ip.is_private
          || (ip.is_link_local || (ip.is_multicast || (ip.is_reserved || ip.is_unspecified)))))
    || (str_eq ip.text "169.254.169.254"
        || begins (codes (net.lower ip.text)) (codes "fd00:ec2::254"))

-- `_BLOCKED_HOSTNAMES` and `_BLOCKED_HOSTNAME_SUFFIXES`, of a host in lower case
unfoldable pub is_blocked_hostname : String → Bool
is_blocked_hostname host =
    (str_eq host "localhost" || str_eq host "metadata.google.internal")
    || (ends_with ".internal" host || ends_with ".local" host)

-- `allowed_hosts is not None and host_lower not in allowed_hosts`
abbrev pub is_outside : Option (List String) → String → Bool
is_outside none host = false
is_outside (some hosts) host = not (any (λ h. str_eq h host) hosts)

-- `parsed.port or (443 if ... else 80)`
abbrev pub port_of : Url → ℕ
port_of url =
    let standard : ℕ = if str_eq url.scheme "https" then 443 else 80 in
    elim url.port [ none ↦ standard | some p ↦ if p == 0 then standard else p ]

module _ (net : Net) where
  -- From the resolver's answer on.
  unfoldable pub check_resolved : Option (List Address) → Option Refusal
  check_resolved none = some unresolved
  check_resolved (some infos) = if any (is_blocked_ip net) infos then some blocked_address else none

  -- From the test for a literal address on.
  unfoldable pub check_address : Url → String → Option Address → Option Refusal
  unfolding check_resolved
  check_address url host (some ip) = if is_blocked_ip net ip then some blocked_literal else none
  check_address url host none = check_resolved (net.resolve host (port_of url))

  unfoldable pub check_host : Url → Option (List String) → Option String → Option Refusal
  unfolding check_address
  check_host url allowed none = some no_hostname
  check_host url allowed (some host) =
      if is_empty host
      then some no_hostname
      else if is_blocked_hostname (net.lower host)
      then some blocked_hostname
      else if is_outside allowed (net.lower host)
      then some not_allowed
      else check_address url host (net.literal host)

  -- `validate_outbound_url`: none where it returns, or what it raises
  unfoldable pub validate_outbound_url : Url → Option (List String) → Option Refusal
  unfolding check_host
  validate_outbound_url url allowed =
      if not (str_eq url.scheme "http" || str_eq url.scheme "https")
      then some bad_scheme
      else check_host url allowed url.hostname
