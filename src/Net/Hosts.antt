-- ===== src/Net/Hosts.antt =====
-- The address comparisons of kernel/wg_tcp.c: what they compare.
use wgtcp.Base.{
  not, ◌||◌, ℕ, ◌≡◌, ◌≢◌, ◌↔◌, refl, ap, Bool, true, false, ◌&&◌, ◌==◌, ==_iff, if◌then◌else◌,
  Option, none, some, arith,
}
use wgtcp.Net.{Family, unspec, inet, inet6, other, SockAddr, sockaddrs_match, sockaddrs_same_host}

-- A host: an IPv4 address, or an IPv6 address with its interface if it is local to a link, and with
-- interface 0 if it is not.
pub data Host : Type 0 where
  of_v4 : ℕ → Host
  of_v6 : ℕ → ℕ → Host

abbrev address_of : Option Host → ℕ
address_of none = 0
address_of (some (of_v4 x)) = x
address_of (some (of_v6 x z)) = x

abbrev scope_of : Option Host → ℕ
scope_of none = 0
scope_of (some (of_v4 x)) = 0
scope_of (some (of_v6 x z)) = z

false_ne : false ≡ true → ⊥
false_ne e = cc

module _ (link_local : ℕ → Bool) where
  abbrev pub host_of : Family → ℕ → ℕ → Option Host
  host_of inet address scope_id = some (of_v4 address)
  host_of inet6 address scope_id = some (of_v6 address (if link_local address then scope_id else 0))
  host_of _ address scope_id = none

  abbrev pub host : SockAddr → Option Host
  host a = host_of a.family a.address a.scope_id

  abbrev IsHost : Option Host → Option Host → Type 0
  IsHost h k = (h ≢ none) × (h ≡ k)

  apart : (h k : Option Host) → (IsHost h k → ⊥) → (false ≡ true) ↔ IsHost h k
  apart h k differ = (λ e. absurd (false_ne e), λ same. absurd (differ same))

  v4_iff : (x y : ℕ) → ((x == y) ≡ true) ↔ IsHost (some (of_v4 x)) (some (of_v4 y))
  v4_iff x y = (
    λ e. (λ nothing. cc, ap (λ (n : ℕ). some (of_v4 n)) ((==_iff x y).0 e)),
    λ same. (==_iff x y).1 (ap address_of same.1),
  )

  v6_iff :
      (x z y w : ℕ)
      → ((x == y && (not (link_local x) || z == w)) ≡ true)
        ↔ IsHost
            (some (of_v6 x (if link_local x then z else 0)))
            (some (of_v6 y (if link_local y then w else 0)))
  v6_iff x z y w = (
    λ e.
        let same : x ≡ y = ground (arith, e) in
        let scopes : (if link_local x then z else 0) ≡ (if link_local y then w else 0) =
          ground (arith, e, ap link_local same) in
        (λ nothing. cc, cc),
    λ both.
        let same : x ≡ y = ap address_of both.1 in
        let scopes : (if link_local x then z else 0) ≡ (if link_local y then w else 0) =
          ap scope_of both.1 in
        ground (arith, same, scopes, ap link_local same),
  )

  compared_lem :
      (f : Family) (x z p : ℕ) (g : Family) (y w q : ℕ)
      → (sockaddrs_same_host link_local
            (record { family = f; address = x; port = p; scope_id = z })
            (record { family = g; address = y; port = q; scope_id = w })
          ≡ true)
        ↔ IsHost (host_of f x z) (host_of g y w)
  unfolding sockaddrs_same_host
  compared_lem inet x z p inet y w q = v4_iff x y
  compared_lem inet6 x z p inet6 y w q = v6_iff x z y w
  compared_lem unspec x z p unspec y w q = apart _ _ (λ same. same.0 refl)
  compared_lem unspec x z p inet y w q = apart _ _ (λ same. same.0 refl)
  compared_lem unspec x z p inet6 y w q = apart _ _ (λ same. same.0 refl)
  compared_lem unspec x z p other y w q = apart _ _ (λ same. same.0 refl)
  compared_lem other x z p unspec y w q = apart _ _ (λ same. same.0 refl)
  compared_lem other x z p inet y w q = apart _ _ (λ same. same.0 refl)
  compared_lem other x z p inet6 y w q = apart _ _ (λ same. same.0 refl)
  compared_lem other x z p other y w q = apart _ _ (λ same. same.0 refl)
  compared_lem inet x z p unspec y w q = apart _ _ (λ same. cc)
  compared_lem inet x z p inet6 y w q = apart _ _ (λ same. cc)
  compared_lem inet x z p other y w q = apart _ _ (λ same. cc)
  compared_lem inet6 x z p unspec y w q = apart _ _ (λ same. cc)
  compared_lem inet6 x z p inet y w q = apart _ _ (λ same. cc)
  compared_lem inet6 x z p other y w q = apart _ _ (λ same. cc)

  -- wg_sockaddrs_same_host holds exactly of two IPv4 or IPv6 addresses of one host: of equal addresses of
  -- one family, whose interfaces are equal too if the address is local to a link.
  pub same_host_iff :
      (a b : SockAddr)
      → (sockaddrs_same_host link_local a b ≡ true) ↔ ((host a ≢ none) × (host a ≡ host b))
  same_host_iff a b =
      compared_lem a.family a.address a.scope_id a.port b.family b.address b.scope_id b.port

  -- wg_sockaddrs_match tells apart what wg_sockaddrs_same_host tells apart, and the ports of one host.
  pub match-same_host :
      (a b : SockAddr)
      → sockaddrs_match link_local a b ≡ (sockaddrs_same_host link_local a b && a.port == b.port)
  unfolding sockaddrs_match sockaddrs_same_host
  match-same_host a b = ground arith

  -- Two addresses of one host are of the same host as any third address, or both are not.
  pub same_host-congruent :
      (a b c : SockAddr)
      → sockaddrs_same_host link_local a b ≡ true
      → sockaddrs_same_host link_local a c ≡ sockaddrs_same_host link_local b c
  unfolding sockaddrs_same_host
  same_host-congruent a b c h = ground (arith, h)
