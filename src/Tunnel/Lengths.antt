-- ===== src/Tunnel/Lengths.antt =====
-- The 16-bit length fields of the synthetic headers.
use wgtcp.Base.{
  ℕ, ◌+◌, ◌≤◌, ◌≡◌, ◌↔◌, inl, inr, some, ok, err, Result, subst, ap, arith, Bool-cases,
}
use wgtcp.Net.{Family, unspec, inet, inet6, other, SockAddr}
use wgtcp.Tunnel.{
  Carrier, FakeHeaders, build_fake_headers, udphdr_size, iphdr_size, headers4, headers6,
  headers_for, no_scope,
}

-- what the IP length counts besides the UDP datagram: its own header in IPv4, nothing in IPv6
abbrev pub own_length : Family → ℕ
own_length inet = iphdr_size
own_length _ = 0

-- The lengths are those of the payload.
pub record IsExact (n : ℕ) (h : FakeHeaders) : Type 0 where
  pub udp_exact : h.udp_length ≡ udphdr_size + n
  pub ip_exact : h.ip_length ≡ own_length h.family + udphdr_size + n

headers4_iff :
    (s d : SockAddr) (n : ℕ) → IsExact n (headers4 s d n) ↔ (iphdr_size + udphdr_size + n ≤ 65535)
headers4_iff s d n = (
  λ h. omega (arith, h.ip_exact),
  λ le. record { udp_exact = omega arith; ip_exact = omega arith },
)

headers6_iff : (s d : SockAddr) (b n : ℕ) → IsExact n (headers6 s d b n) ↔ (udphdr_size + n ≤ 65535)
headers6_iff s d b n = (
  λ h. omega (arith, h.ip_exact),
  λ le. record { udp_exact = omega arith; ip_exact = omega arith },
)

from_ok : FakeHeaders → Result FakeHeaders → FakeHeaders
from_ok d (ok h) = h
from_ok d (err e) = d

headers_for_iff :
    (f : Family) (s d : SockAddr) (b n : ℕ) (h : FakeHeaders)
    → headers_for f s d b n ≡ ok h
    → IsExact n h ↔ (own_length h.family + udphdr_size + n ≤ 65535)
unfolding from_ok
headers_for_iff inet s d b n h e =
    subst (λ h. IsExact n h ↔ (own_length h.family + udphdr_size + n ≤ 65535)) (ap (from_ok h) e)
      (headers4_iff s d n)
headers_for_iff inet6 s d b n h e =
    subst (λ h. IsExact n h ↔ (own_length h.family + udphdr_size + n ≤ 65535)) (ap (from_ok h) e)
      (headers6_iff s d b n)
headers_for_iff unspec s d b n h e = absurd (ground (arith, e))
headers_for_iff other s d b n h e = absurd (ground (arith, e))

-- The headers that are built are IPv4 or IPv6 headers, and their lengths say how long the payload is exactly
-- when the length of the datagram (the IPv4 header included, the IPv6 header not) fits sixteen bits. A
-- record's payload may be longer: up to 65535 bytes.
pub lengths-IsExact_iff :
    (c : Carrier) (n : ℕ) (h : FakeHeaders)
    → build_fake_headers (some c) n ≡ ok h
    → IsExact n h ↔ (own_length h.family + udphdr_size + n ≤ 65535)
unfolding build_fake_headers
lengths-IsExact_iff c n h e = elim (Bool-cases c.is_inbound) [
  | inl inbound ↦
      headers_for_iff c.inbound_source.family c.inbound_dest c.inbound_source c.bound_dev_if n h
        (rw inbound at e)
  | inr outbound ↦
      headers_for_iff c.sk_family (no_scope c.remote) (no_scope c.local) c.bound_dev_if n h
        (rw outbound at e)
]
