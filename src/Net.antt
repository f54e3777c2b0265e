-- ===== src/Net.antt =====
-- Socket addresses (struct sockaddr_in and sockaddr_in6), struct endpoint of kernel/device.h, and the
-- comparisons of kernel/wg_tcp.c and kernel/socket.c. An address is the number that its bytes stand for.
-- The unions are read by family only, so one record serves both families.
pub mod Hosts
mod Tests
use wgtcp.Base.{ℕ, Bool, true, false, ◌&&◌, ◌||◌, not, ◌==◌, leb, if◌then◌else◌}

-- sa_family_t: AF_UNSPEC is zero, and `other` is any family that the module does not handle.
pub data Family : Type 0 where
  unspec inet inet6 other : Family

abbrev pub same_family : Family → Family → Bool
same_family unspec unspec = true
same_family inet inet = true
same_family inet6 inet6 = true
same_family other other = true
same_family _ _ = false

abbrev pub is_inet : Family → Bool
is_inet inet = true
is_inet _ = false

abbrev pub is_inet6 : Family → Bool
is_inet6 inet6 = true
is_inet6 _ = false

abbrev pub is_unspec : Family → Bool
is_unspec unspec = true
is_unspec _ = false

pub record SockAddr : Type 0 where
  pub family : Family
  pub address : ℕ
  pub port : ℕ
  pub scope_id : ℕ

-- struct endpoint: `src` is src4 or src6, by the family of `addr`.
pub record Endpoint : Type 0 where
  pub addr : SockAddr
  pub src : ℕ
  pub src_if4 : ℕ

-- sizeof(struct sockaddr_in) and sizeof(struct sockaddr_in6)
abbrev pub sockaddr_in_size : ℕ
sockaddr_in_size = 16

abbrev pub sockaddr_in6_size : ℕ
sockaddr_in6_size = 28

-- wg_sockaddr_length_valid; `length` is a non-negative result of getname
pub sockaddr_length_valid : SockAddr → ℕ → Bool
sockaddr_length_valid a n = elim a.family [
  | inet ↦ leb sockaddr_in_size n
  | inet6 ↦ leb sockaddr_in6_size n
  | _ ↦ false
]

-- endpoint_eq
pub endpoint_eq : Endpoint → Endpoint → Bool
endpoint_eq a b =
    (is_inet a.addr.family
      && is_inet b.addr.family
      && a.addr.port == b.addr.port
      && a.addr.address == b.addr.address
      && a.src == b.src
      && a.src_if4 == b.src_if4)
    || (is_inet6 a.addr.family
        && is_inet6 b.addr.family
        && a.addr.port == b.addr.port
        && a.addr.address == b.addr.address
        && a.addr.scope_id == b.addr.scope_id
        && a.src == b.src)
    || (is_unspec a.addr.family && is_unspec b.addr.family)

-- wg_tcp_dial_target_eq
pub dial_target_eq : Endpoint → Endpoint → Bool
dial_target_eq a b =
    if not (same_family a.addr.family b.addr.family)
    then false
    else if is_inet a.addr.family
    then a.addr.port == b.addr.port && a.addr.address == b.addr.address
    else if is_inet6 a.addr.family
    then a.addr.port == b.addr.port
      && a.addr.address == b.addr.address
      && a.addr.scope_id == b.addr.scope_id
    else false

-- `link_local` is the kernel's ipv6_addr_type(…) & IPV6_ADDR_LINKLOCAL.
module _ (link_local : ℕ → Bool) where
  -- wg_sockaddrs_match
  pub sockaddrs_match : SockAddr → SockAddr → Bool
  sockaddrs_match a b =
      if not (same_family a.family b.family)
      then false
      else if is_inet a.family
      then a.port == b.port && a.address == b.address
      else if is_inet6 a.family
      then a.port == b.port
        && a.address == b.address
        && (not (link_local a.address) || not (link_local b.address) || a.scope_id == b.scope_id)
      else false

  -- wg_sockaddrs_same_host
  pub sockaddrs_same_host : SockAddr → SockAddr → Bool
  sockaddrs_same_host a b =
      if not (same_family a.family b.family)
      then false
      else if is_inet a.family
      then a.address == b.address
      else if is_inet6 a.family
      then a.address == b.address && (not (link_local a.address) || a.scope_id == b.scope_id)
      else false
