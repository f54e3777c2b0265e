-- ===== src/Net/Tests.antt =====
-- Comparisons of concrete addresses.
use wgtcp.Base.{ℕ, ◌≡◌, ◌≢◌, ◌↔◌, ◌&&◌, ◌==◌, ◌%◌, true, false, none, Bool, refl}
use wgtcp.Net.{
  SockAddr, Endpoint, inet6, sockaddrs_match, sockaddrs_same_host, endpoint_eq, dial_target_eq,
}
use wgtcp.Net.Hosts.{host, same_host_iff, match-same_host}

-- Even addresses are local to a link.
abbrev even_local : ℕ → Bool
even_local a = a % 2 == 0

abbrev a : SockAddr
a = record { family = inet6; address = 2; port = 2; scope_id = 0 }

abbrev b : SockAddr
b = record { family = inet6; address = 2; port = 2; scope_id = 7 }

abbrev e : Endpoint
e = record { addr = a; src = 9; src_if4 = 0 }

abbrev other_source : Endpoint
other_source = record { addr = a; src = 8; src_if4 = 0 }

-- A new source address makes another endpoint, and the same target.
sources_differ : endpoint_eq e other_source ≡ false
unfolding endpoint_eq
sources_differ = refl

one_target : dial_target_eq e other_source ≡ true
unfolding dial_target_eq
one_target = refl

same_host_iff_example :
    (sockaddrs_same_host even_local a b ≡ true)
    ↔ ((host even_local a ≢ none) × (host even_local a ≡ host even_local b))
same_host_iff_example = same_host_iff even_local a b

match-same_host_example :
    sockaddrs_match even_local a b ≡ (sockaddrs_same_host even_local a b && a.port == b.port)
match-same_host_example = match-same_host even_local a b
