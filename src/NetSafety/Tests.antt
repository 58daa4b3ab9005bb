-- ===== src/NetSafety/Tests.antt =====
-- URLs that pass and URLs that are refused.
use ipointel.Base.{String, ◌≡◌, refl, false, none, some, [], ◌∷◌}
use ipointel.NetSafety.{
  Address, Url, Net, is_blocked_hostname, is_blocked_ip, validate_outbound_url, bad_scheme,
  blocked_hostname, blocked_address, not_allowed,
}
use ipointel.NetSafety.Sound.{IsSafe, validate_outbound_url-IsSafe}

abbrev public_address : Address
public_address = record {
  text = "93.184.216.34";
  is_loopback = false;
  is_private = false;
  is_link_local = false;
  is_multicast = false;
  is_reserved = false;
  is_unspecified = false;
}

-- A network in which every name resolves to the one address.
abbrev world : Address → Net
world ip = record { lower = λ s. s; literal = λ s. none; resolve = λ host port. some (ip ∷ []) }

abbrev url : String → String → Url
url scheme host = record { scheme = scheme; hostname = some host; port = none }

passes : validate_outbound_url (world public_address) (url "https" "www.sec.gov") none ≡ none
unfolding validate_outbound_url is_blocked_hostname is_blocked_ip
passes = refl

refused_scheme :
    validate_outbound_url (world public_address) (url "file" "www.sec.gov") none ≡ some bad_scheme
unfolding validate_outbound_url is_blocked_hostname is_blocked_ip
refused_scheme = refl

refused_name :
    validate_outbound_url (world public_address) (url "http" "db.internal") none
    ≡ some blocked_hostname
unfolding validate_outbound_url is_blocked_hostname is_blocked_ip
refused_name = refl

refused_host :
    validate_outbound_url
      (world public_address)
      (url "http" "example.org")
      (some ("www.sec.gov" ∷ []))
    ≡ some not_allowed
unfolding validate_outbound_url is_blocked_hostname is_blocked_ip
refused_host = refl

refused_address :
    validate_outbound_url
      (world (record public_address { text = "169.254.169.254" }))
      (url "http" "example.org")
      none
    ≡ some blocked_address
unfolding validate_outbound_url is_blocked_hostname is_blocked_ip
refused_address = refl

validate_outbound_url-IsSafe_example :
    (host : String) × IsSafe (world public_address) (url "https" "www.sec.gov") none host
validate_outbound_url-IsSafe_example =
    validate_outbound_url-IsSafe (world public_address) (url "https" "www.sec.gov") none passes
