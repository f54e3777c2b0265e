-- ===== src/Frame/Header.antt =====
-- The header test, on any header and on those that wg_tcp_build_frame writes.
use wgtcp.Base.{
  if◌then◌else◌, ℕ, ◌+◌, ◌↔◌, ◌*◌, ◌^◌, ◌≤◌, ◌<◌, ◌≡◌, refl, List, ◌++◌, some, true, false, arith,
  length, ==_iff,
}
use wgtcp.Base.Bits.{bit_and-one, bit_and_clear_one}
use wgtcp.Frame.{
  is_fragmented, record_data, frag_flag, frag_hdr_len, EncapHeader, Packet, encode, decode,
  header_checksum, check_candidate, validate_header_checksum, build_header, header_len,
  message_minimum_length, max_packet_size, encap_hdr_len,
}

pub header_checksum-lt : (h : EncapHeader) → header_checksum h < 2 ^ 16
unfolding header_checksum
header_checksum-lt h = omega arith

-- fields that fit their C types
pub record IsHeader (h : EncapHeader) : Type 0 where
  pub length_fits : h.length < 2 ^ 32
  pub checksum_fits : h.checksum < 2 ^ 16

pub decode-encode :
    (h : EncapHeader) (rest : List ℕ) → IsHeader h → decode (encode h ++ rest) ≡ some h
unfolding decode encode
decode-encode h rest v = ground arith

pub length-encode : (h : EncapHeader) → length (encode h) ≡ 8
unfolding encode
length-encode h = refl

-- a packet that wg_tcp_build_frame takes
pub record IsSendable (p : Packet) : Type 0 where
  pub long_enough : message_minimum_length ≤ length p.bytes
  pub short_enough : length p.bytes + header_len p ≤ max_packet_size
  pub id_fits : p.frag_id < 2 ^ 16
  pub off_fits : p.frag_off < 2 ^ 16

pub build_header-IsHeader : (p : Packet) → IsHeader (build_header p)
unfolding build_header
build_header-IsHeader p = record { length_fits = omega arith; checksum_fits = header_checksum-lt _ }

header_checksum_ignores_checksum :
    (h : EncapHeader) (c : ℕ) → header_checksum (record h { checksum = c }) ≡ header_checksum h
unfolding header_checksum
header_checksum_ignores_checksum h c = refl

pub validate-build_header : (p : Packet) → validate_header_checksum (build_header p) ≡ true
unfolding validate_header_checksum build_header
validate-build_header p = (==_iff _ _).1 (header_checksum_ignores_checksum _ _)

pub build_header_flags :
    (p : Packet) → (build_header p).flags ≡ (if is_fragmented p then frag_flag else 0)
unfolding build_header
build_header_flags p = refl

pub check_candidate-build_header :
    (p : Packet) → IsSendable p → check_candidate (build_header p) ≡ true
unfolding check_candidate build_header
check_candidate-build_header p v = ground (arith, validate-build_header p)

-- What the header test lets through.
pub record IsCandidate (h : EncapHeader) : Type 0 where
  pub checksum_matches : h.checksum ≡ header_checksum h
  pub is_data : h.type ≡ record_data
  pub known_flags : h.flags ≤ frag_flag
  pub holds_message : encap_hdr_len + message_minimum_length + h.flags * frag_hdr_len ≤ h.length
  pub within_limit : h.length ≤ max_packet_size

-- The header test accepts exactly these headers, of those whose flags fit their byte.
pub check_candidate_iff :
    (h : EncapHeader) → h.flags < 256 → (check_candidate h ≡ true) ↔ IsCandidate h
unfolding check_candidate validate_header_checksum
check_candidate_iff h f = (accepted, rejected)
  where
    accepted : check_candidate h ≡ true → IsCandidate h
    accepted e = ground (arith, bit_and-one h.flags, bit_and_clear_one h.flags)

    rejected : IsCandidate h → check_candidate h ≡ true
    rejected c = ground (arith, bit_and-one h.flags, bit_and_clear_one h.flags)

-- A length above the limit is refused, whatever else the header says.
pub check_candidate-too_long :
    (h : EncapHeader) → max_packet_size < h.length → check_candidate h ≡ false
unfolding check_candidate
check_candidate-too_long h lt = ground arith
