-- ===== src/Frame.antt =====
-- The record header of the TCP encapsulation: kernel/socket.h (the two header structs and the size
-- constants) and kernel/wg_tcp.c (checksum, header test, frame construction). A byte string is a list of
-- numbers below 256; multi-byte fields are held in host order and laid out big-endian by `encode`.
pub mod Header
pub mod Detect
pub mod Build
mod Tests
use wgtcp.Base.{
  ℕ, ◌+◌, ◌*◌, ◌/◌, ◌%◌, ◌^◌, ◌-◌, Bool, false, ◌&&◌, not, List, [], ◌∷◌, ◌++◌, Option, none, some,
  bit_and, bit_or, bit_xor, ltb, leb, ◌==◌, if◌then◌else◌, u16, u32, length, replicate, min, Result,
  ok, err, einval, emsgsize, enomem,
}

-- struct wg_tcp_encap_header
pub record EncapHeader : Type 0 where
  pub length : ℕ
  pub type : ℕ
  pub flags : ℕ
  pub checksum : ℕ

-- struct wg_tcp_frag_header
pub record FragHeader : Type 0 where
  pub id : ℕ
  pub frag_off : ℕ

abbrev pub encap_hdr_len : ℕ
encap_hdr_len = 8

abbrev pub frag_hdr_len : ℕ
frag_hdr_len = 4

abbrev pub max_packet_size : ℕ
max_packet_size = 65535 + encap_hdr_len

abbrev pub record_data : ℕ
record_data = 0

abbrev pub frag_flag : ℕ
frag_flag = 1

-- noise_encrypted_len(0) + sizeof(struct message_data)
abbrev pub message_minimum_length : ℕ
message_minimum_length = 32

-- htonl and htons, as the bytes that they put into memory
abbrev pub be32 : ℕ → List ℕ
be32 n = (n / 2 ^ 24 % 256) ∷ (n / 2 ^ 16 % 256) ∷ (n / 2 ^ 8 % 256) ∷ (n % 256) ∷ []

abbrev pub be16 : ℕ → List ℕ
be16 n = (n / 2 ^ 8 % 256) ∷ (n % 256) ∷ []

-- the header and the fragment header as they stand in memory
unfoldable pub encode : EncapHeader → List ℕ
encode h = be32 h.length ++ (h.type ∷ h.flags ∷ be16 h.checksum)

unfoldable pub encode_frag : FragHeader → List ℕ
encode_frag f = be16 f.id ++ be16 f.frag_off

-- memcpy of a header out of the first bytes of the stream; `none` reads past the bytes at hand
pub decode : List ℕ → Option EncapHeader
decode (a ∷ b ∷ c ∷ d ∷ t ∷ f ∷ x ∷ y ∷ rest) = some (record {
  length = ((a * 256 + b) * 256 + c) * 256 + d;
  type = t;
  flags = f;
  checksum = x * 256 + y;
})
decode _ = none

pub decode_frag : List ℕ → Option FragHeader
decode_frag (a ∷ b ∷ c ∷ d ∷ rest) = some (record { id = a * 256 + b; frag_off = c * 256 + d })
decode_frag _ = none

-- wg_header_checksum. Every assignment to the `uint16_t` cuts to sixteen bits.
unfoldable pub header_checksum : EncapHeader → ℕ
header_checksum h =
    let c1 = u16 (bit_xor 0 (bit_and (h.length / 2 ^ 16) 0xFFFF)) in
    let c2 = u16 (bit_xor c1 (bit_and h.length 0xFFFF)) in
    let c3 = u16 (bit_xor c2 (bit_or (h.flags * 2 ^ 8) h.type)) in
    let c4 = u16 (bit_or (c3 * 2 ^ 5) (c3 / 2 ^ (16 - 5))) in u16 (bit_xor c4 0xA5A5)

-- wg_validate_header_checksum
pub validate_header_checksum : EncapHeader → Bool
validate_header_checksum h = header_checksum h == h.checksum

-- wg_check_potential_header_validity, after its memcpy
pub check_candidate : EncapHeader → Bool
check_candidate candidate =
    if not (validate_header_checksum candidate)
    then false
    else if not (candidate.type == record_data)
    then false
    else if not (bit_and candidate.flags 0xFFFF_FFFE == 0)
    then false
    else leb minimum_len candidate.length && leb candidate.length max_packet_size
  where
    minimum_len : ℕ
    minimum_len =
        encap_hdr_len
        + message_minimum_length
        + (if bit_and candidate.flags frag_flag == 0 then 0 else frag_hdr_len)

-- wg_check_potential_header_validity: the bytes from the candidate position on, and how many of them
-- the caller says there are
pub check_potential_header_validity : List ℕ → ℕ → Bool
check_potential_header_validity hdr remaining_len =
    if ltb remaining_len encap_hdr_len
    then false
    else elim (decode hdr) [ none ↦ false | some candidate ↦ check_candidate candidate ]

-- A payload with the fragment fields of its control block.
pub record Packet : Type 0 where
  pub bytes : List ℕ
  pub frag_id : ℕ
  pub frag_off : ℕ

abbrev pub is_fragmented : Packet → Bool
is_fragmented p = not (p.frag_off == 0)

abbrev pub header_len : Packet → ℕ
header_len p = encap_hdr_len + (if is_fragmented p then frag_hdr_len else 0)

-- the encapsulation header that wg_tcp_build_frame writes
unfoldable pub build_header : Packet → EncapHeader
build_header p = record h { checksum = header_checksum h }
  where
    h : EncapHeader
    h = record {
      length = u32 (header_len p + length p.bytes);
      type = record_data;
      flags = if is_fragmented p then frag_flag else 0;
      checksum = 0;
    }

-- what wg_tcp_build_frame puts behind the encapsulation header of a fragmented packet
abbrev pub frag_bytes : Packet → List ℕ
frag_bytes p =
    if is_fragmented p then encode_frag (record { id = p.frag_id; frag_off = p.frag_off }) else []

-- the record on the wire: headers, then the payload
unfoldable pub frame_bytes : Packet → List ℕ
frame_bytes p = encode (build_header p) ++ (frag_bytes p ++ p.bytes)

-- wg_tcp_test_prefix_len, with fault injection configured to `configured` bytes (0 without it)
abbrev pub test_prefix_len : ℕ → ℕ
test_prefix_len configured = min configured 64

-- wg_tcp_build_frame. `has_memory` is the outcome of alloc_skb; `configured` is the test parameter.
unfoldable pub build_frame : Bool → ℕ → Packet → Result (List ℕ)
build_frame has_memory configured p =
    if ltb (length p.bytes) message_minimum_length
    then err einval
    else if ltb (max_packet_size - header_len p) (length p.bytes)
    then err emsgsize
    else if not has_memory
    then err enomem
    else ok (replicate (test_prefix_len configured) 0xa5 ++ frame_bytes p)
