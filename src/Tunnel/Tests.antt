-- ===== src/Tunnel/Tests.antt =====
-- The headers of a concrete datagram.
use wgtcp.Base.{◌+◌, ◌≤◌, ◌↔◌, refl}
use wgtcp.Samples.{carrier, headers}
use wgtcp.Tunnel.{udphdr_size, build_fake_headers}
use wgtcp.Tunnel.Lengths.{IsExact, own_length, lengths-IsExact_iff}

lengths-IsExact_iff_example :
    IsExact 65508 (headers 65508)
    ↔ (own_length (headers 65508).family + udphdr_size + 65508 ≤ 65535)
unfolding build_fake_headers
lengths-IsExact_iff_example = lengths-IsExact_iff carrier 65508 (headers 65508) refl
