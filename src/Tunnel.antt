-- ===== src/Tunnel.antt =====
-- wg_tcp_build_fake_headers of kernel/wg_tcp.c: the IP and UDP headers that a record's payload gets before
-- it enters the ordinary receive path. The kernel's buffers of one allocation are linear, so
-- skb_linearize is not reached; the checksums are the kernel library's.
pub mod Lengths
mod Tests
use wgtcp.Base.{
  ℕ, ◌+◌, ◌==◌, List, Bool, true, false, Option, none, some, Result, ok, err, enotconn,
  eafnosupport, length, if◌then◌else◌, u16,
}
use wgtcp.Net.{Family, inet, inet6, SockAddr}

-- What is read of the peer and of the pinned socket.
pub record Carrier : Type 0 where
  pub is_inbound : Bool
  pub inbound_source : SockAddr
  pub inbound_dest : SockAddr
  pub sk_family : Family
  pub local : SockAddr
  pub remote : SockAddr
  pub bound_dev_if : ℕ

-- The headers; `ip_length` is tot_len in IPv4 and payload_len in IPv6.
pub record FakeHeaders : Type 0 where
  pub family : Family
  pub source : SockAddr
  pub dest : SockAddr
  pub udp_length : ℕ
  pub ip_length : ℕ
  pub skb_iif : ℕ

abbrev pub udphdr_size : ℕ
udphdr_size = 8

abbrev pub iphdr_size : ℕ
iphdr_size = 20

abbrev pub headers4 : SockAddr → SockAddr → ℕ → FakeHeaders
headers4 source dest payload_len = record {
  family = inet;
  source = source;
  dest = dest;
  udp_length = u16 (udphdr_size + payload_len);
  ip_length = u16 (iphdr_size + udphdr_size + payload_len);
  skb_iif = 0;
}

abbrev headers6 : SockAddr → SockAddr → ℕ → ℕ → FakeHeaders
headers6 source dest bound payload_len = record {
  family = inet6;
  source = source;
  dest = dest;
  udp_length = u16 (udphdr_size + payload_len);
  ip_length = u16 (udphdr_size + payload_len);
  skb_iif = if source.scope_id == 0 then bound else source.scope_id;
}

-- the headers of a family
abbrev headers_for : Family → SockAddr → SockAddr → ℕ → ℕ → Result FakeHeaders
headers_for inet source dest bound payload_len = ok (headers4 source dest payload_len)
headers_for inet6 source dest bound payload_len = ok (headers6 source dest bound payload_len)
headers_for _ source dest bound payload_len = err eafnosupport

-- The tuple of a connected socket is copied without a scope.
abbrev no_scope : SockAddr → SockAddr
no_scope a = record a { scope_id = 0 }

-- The source of the synthetic datagram is the remote end of the stream. For an accepted stream the
-- recorded tuple is used, else the connected socket's; a socket that is gone gives -ENOTCONN.
unfoldable pub build_fake_headers : Option Carrier → ℕ → Result FakeHeaders
build_fake_headers none payload_len = err enotconn
build_fake_headers (some c) payload_len =
    if c.is_inbound
    then headers_for c.inbound_source.family c.inbound_dest c.inbound_source c.bound_dev_if
        payload_len
    else headers_for c.sk_family (no_scope c.remote) (no_scope c.local) c.bound_dev_if payload_len
