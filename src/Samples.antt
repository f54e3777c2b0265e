-- ===== src/Samples.antt =====
-- Sample data of the tests: a carrier, enough memory, and a stream of two records.
use wgtcp.Base.{ℕ, ◌≡◌, refl, List, [], ◌∷◌, some, false, arith, take, drop, replicate, ok}
use wgtcp.Net.{SockAddr, inet}
use wgtcp.Tunnel.{Carrier, FakeHeaders, build_fake_headers, headers4}
use wgtcp.Frame.{Packet}
use wgtcp.Frame.Header.{IsSendable}
use wgtcp.Reader.{Memory, Arrival, segment}
use wgtcp.Reader.Tracks.{wire, IsAmple}

abbrev pub host : SockAddr
host = record { family = inet; address = 0x0A000001; port = 51820; scope_id = 0 }

abbrev pub here : SockAddr
here = record { family = inet; address = 0x0A000002; port = 40000; scope_id = 0 }

abbrev pub carrier : Carrier
carrier = record {
  is_inbound = false;
  inbound_source = here;
  inbound_dest = host;
  sk_family = inet;
  local = here;
  remote = host;
  bound_dev_if = 0;
}

pub exact_memory : Memory
exact_memory = record {
  alloc = λ call size. some size;
  alloc_room = λ call size room e. ground (arith, e);
}

pub exact_memory-IsAmple : IsAmple exact_memory
unfolding exact_memory
exact_memory-IsAmple call size = (size, refl)

abbrev pub headers : ℕ → FakeHeaders
headers n = headers4 host here n

pub carrier_routable : (n : ℕ) → build_fake_headers (some carrier) n ≡ ok (headers n)
unfolding build_fake_headers
carrier_routable n = refl

-- a whole packet, and a fragment
abbrev pub whole : Packet
whole = record { bytes = replicate 32 7; frag_id = 0; frag_off = 0 }

abbrev pub part : Packet
part = record { bytes = replicate 33 1; frag_id = 5; frag_off = 3 }

pub whole-IsSendable : IsSendable whole
whole-IsSendable = record {
  long_enough = omega arith;
  short_enough = omega arith;
  id_fits = omega arith;
  off_fits = omega arith;
}

pub part-IsSendable : IsSendable part
part-IsSendable = record {
  long_enough = omega arith;
  short_enough = omega arith;
  id_fits = omega arith;
  off_fits = omega arith;
}

abbrev pub stream : List ℕ
stream = wire (whole ∷ part ∷ [])

-- a cut in the middle of the first header, and one in the second record
abbrev pub batches : List (List Arrival)
batches =
    (segment (take 5 stream) ∷ [])
    ∷ (segment (take 50 (drop 5 stream)) ∷ segment (drop 55 stream) ∷ [])
    ∷ []
