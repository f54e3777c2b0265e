-- ===== src/Encoding/Base64.antt =====
-- key_to_base64 and key_from_base64 of tools/encoding.c.
use wgtcp.Base.{
  ℕ, zero, suc, ◌+◌, ◌-◌, ◌*◌, ◌/◌, ◌%◌, ◌^◌, ◌≤◌, ◌<◌, ◌≡◌, ◌↔◌, refl, ap, sym, ◌∙◌, Bool, true,
  bit_or, bit_and, ==_iff, List, [], ◌∷◌, length, get_elem?, some, arith,
}
use wgtcp.Base.Bits.{bit_or_zero, max-le-bit_or, bit_or-lt, bit_and_255}
use wgtcp.Encoding.{
  encode_base64, encode_groups, decode_base64, decode_groups, accepts, key_from_base64,
  key_to_base64, key_len, base64_len,
}
use wgtcp.Encoding.Digits.{encode_char-lt, accepts-eq_zero}
use wgtcp.Encoding.Hex.{IsBytes}
use wgtcp.Encoding.Groups.{
  sextets_of_bytes, encode_zero, group_digits, encode_group, group-lt, group-encode_base64,
}

module _ (signed : Bool) where
  -- The bits of `ret` after the last group, and what the loop leaves of its first ones.
  last_bits : (val : ℕ) → val < 2 ^ 32 → bit_or (val / 2 ^ 31) (bit_and val 0xff) < 256
  last_bits val lt = bit_or-lt 8 _ _ (omega arith) (omega (arith, bit_and_255 val))

  decode_groups-bounds :
      (n : ℕ) (text : List ℕ) (ret : ℕ)
      → ret < 256
      → (ret ≤ (decode_groups signed n text ret).0) × ((decode_groups signed n text ret).0 < 256)
  unfolding decode_groups
  decode_groups-bounds (suc n) (a ∷ b ∷ c ∷ d ∷ text) ret lt =
      let val = decode_base64 signed a b c d in
      let small : val / 2 ^ 31 < 256 = omega (arith, group-lt signed a b c d) in
      let ret' = bit_or ret (val / 2 ^ 31) in
      omega (
        arith,
        max-le-bit_or ret (val / 2 ^ 31),
        decode_groups-bounds n text ret' (bit_or-lt 8 _ _ lt small),
      )
  decode_groups-bounds (suc n) (a ∷ b ∷ c ∷ []) ret lt = omega arith
  decode_groups-bounds (suc n) (a ∷ b ∷ []) ret lt = omega arith
  decode_groups-bounds (suc n) (a ∷ []) ret lt = omega arith
  decode_groups-bounds (suc n) [] ret lt = omega arith
  decode_groups-bounds zero (a ∷ b ∷ c ∷ text) ret lt =
      let val = decode_base64 signed a b c b'A' in
      let bits = last_bits val (group-lt signed a b c b'A') in
      omega (
        arith,
        max-le-bit_or ret (bit_or (val / 2 ^ 31) (bit_and val 0xff)),
        bit_or-lt 8 ret (bit_or (val / 2 ^ 31) (bit_and val 0xff)) lt bits,
      )
  decode_groups-bounds zero (a ∷ b ∷ []) ret lt = omega arith
  decode_groups-bounds zero (a ∷ []) ret lt = omega arith
  decode_groups-bounds zero [] ret lt = omega arith

  -- A text that is decoded with no error bit is the encoding of the bytes.
  record IsCanonical (n : ℕ) (text : List ℕ) (ret : ℕ) : Type 0 where
    clean : ret ≡ 0
    encoded : encode_groups n (decode_groups signed n text ret).1 ≡ text
    bytes : IsBytes (decode_groups signed n text ret).1
    long : length (decode_groups signed n text ret).1 ≡ n * 3 + 2

  is_clean :
      (n : ℕ) (text : List ℕ) (ret : ℕ)
      → IsBytes text
      → length text ≡ n * 4 + 4
      → get_elem? text (n * 4 + 3) ≡ some b'='
      → ret < 256
      → (decode_groups signed n text ret).0 ≡ 0
      → IsCanonical n text ret
  unfolding decode_groups encode_groups
  is_clean (suc n) (a ∷ b ∷ c ∷ d ∷ text) ret bytes long last lt e =
      let val = decode_base64 signed a b c d in
      let small : val / 2 ^ 31 < 256 = omega (arith, group-lt signed a b c d) in
      let ret' = bit_or ret (val / 2 ^ 31) in
      let at : get_elem? text (n * 4 + 3) ≡ some b'=' =
        (let same : suc n * 4 + 3 ≡ suc (suc (suc (suc (n * 4 + 3)))) = omega arith in
          rw same at last) in
      let rest = is_clean n text ret' bytes.1.1.1.1 (omega arith) at (bit_or-lt 8 _ _ lt small) e in
      let gained = max-le-bit_or ret (val / 2 ^ 31) in
      let zero_bit : val / 2 ^ 31 ≡ 0 = omega (arith, rest.clean, gained) in
      let (da, db, dc, dd) =
        group_digits signed a b c d bytes.0 bytes.1.0 bytes.1.1.0 bytes.1.1.1.0 zero_bit in
      record {
        clean = omega (arith, rest.clean, gained);
        encoded = rw (encode_group signed da db dc dd, rest.encoded) refl;
        bytes = (
          omega (arith, bit_and_255 (val / 2 ^ 16)),
          (omega (arith, bit_and_255 (val / 2 ^ 8)), (omega (arith, bit_and_255 val), rest.bytes)),
        );
        long = omega (arith, rest.long);
      }
  is_clean zero (a ∷ b ∷ c ∷ d ∷ []) ret bytes long last lt e =
      let val = decode_base64 signed a b c b'A' in
      let all = bit_or (val / 2 ^ 31) (bit_and val 0xff) in
      let no_bits = max-le-bit_or ret all in
      let parts = max-le-bit_or (val / 2 ^ 31) (bit_and val 0xff) in
      let zero_bit : val / 2 ^ 31 ≡ 0 = omega (arith, no_bits, parts) in
      let padding : bit_and val 0xff ≡ 0 = omega (arith, no_bits, parts) in
      let (da, db, dc, dd) =
        group_digits signed a b c b'A' bytes.0 bytes.1.0 bytes.1.1.0 (omega arith) zero_bit in
      let group : encode_base64 (bit_and (val / 2 ^ 16) 0xff) (bit_and (val / 2 ^ 8) 0xff) 0
          ≡ a ∷ b ∷ c ∷ b'A' ∷ [] =
        rw padding at (encode_group signed da db dc dd) in
      let sign : d ≡ b'=' = cc in
      record {
        clean = omega (arith, no_bits);
        encoded = rw (group, sign) refl;
        bytes = (
          omega (arith, bit_and_255 (val / 2 ^ 16)),
          (omega (arith, bit_and_255 (val / 2 ^ 8)), tt),
        );
        long = refl;
      }
  is_clean zero [] ret bytes long last lt e = absurd (omega arith)
  is_clean zero (a ∷ []) ret bytes long last lt e = absurd (omega arith)
  is_clean zero (a ∷ b ∷ []) ret bytes long last lt e = absurd (omega arith)
  is_clean zero (a ∷ b ∷ c ∷ []) ret bytes long last lt e = absurd (omega arith)
  is_clean zero (a ∷ b ∷ c ∷ d ∷ x ∷ more) ret bytes long last lt e = absurd (omega arith)
  is_clean (suc n) [] ret bytes long last lt e = absurd (omega arith)
  is_clean (suc n) (a ∷ []) ret bytes long last lt e = absurd (omega arith)
  is_clean (suc n) (a ∷ b ∷ []) ret bytes long last lt e = absurd (omega arith)
  is_clean (suc n) (a ∷ b ∷ c ∷ []) ret bytes long last lt e = absurd (omega arith)

  -- Bytes that were encoded are decoded, with no error bit.
  decode_groups-encode_groups :
      (n : ℕ) (key : List ℕ) (ret : ℕ)
      → IsBytes key
      → length key ≡ n * 3 + 2
      → decode_groups signed n (encode_groups n key) ret ≡ (ret, key)
  unfolding decode_groups encode_groups
  decode_groups-encode_groups (suc n) (x ∷ y ∷ z ∷ key) ret bytes long =
      let val = x * 2 ^ 16 + y * 2 ^ 8 + z in
      let read = group-encode_base64 signed x y z bytes.0 bytes.1.0 bytes.1.1.0 in
      let no_bit : val / 2 ^ 31 ≡ 0 = omega arith in
      let ex : bit_and (val / 2 ^ 16) 0xff ≡ x = omega (arith, bit_and_255 (val / 2 ^ 16)) in
      let ey : bit_and (val / 2 ^ 8) 0xff ≡ y = omega (arith, bit_and_255 (val / 2 ^ 8)) in
      let ez : bit_and val 0xff ≡ z = omega (arith, bit_and_255 val) in
      rw
        (
          sextets_of_bytes x y z bytes.0 bytes.1.0 bytes.1.1.0,
          read,
          no_bit,
          bit_or_zero ret,
          decode_groups-encode_groups n key ret bytes.1.1.1 (omega arith),
          ex,
          ey,
          ez,
        )
        refl
  decode_groups-encode_groups zero (x ∷ y ∷ []) ret bytes long =
      let val = x * 2 ^ 16 + y * 2 ^ 8 + 0 in
      let read =
        rw encode_zero at (group-encode_base64 signed x y 0 bytes.0 bytes.1.0 (omega arith)) in
      let no_bit : val / 2 ^ 31 ≡ 0 = omega arith in
      let ex : bit_and (val / 2 ^ 16) 0xff ≡ x = omega (arith, bit_and_255 (val / 2 ^ 16)) in
      let ey : bit_and (val / 2 ^ 8) 0xff ≡ y = omega (arith, bit_and_255 (val / 2 ^ 8)) in
      let ez : bit_and val 0xff ≡ 0 = omega (arith, bit_and_255 val) in
      rw
        (
          sextets_of_bytes x y 0 bytes.0 bytes.1.0 (omega arith),
          read,
          no_bit,
          ez,
          ex,
          ey,
          bit_or_zero ret,
        )
        refl
  decode_groups-encode_groups zero [] ret bytes long = absurd (omega arith)
  decode_groups-encode_groups zero (a ∷ []) ret bytes long = absurd (omega arith)
  decode_groups-encode_groups zero (a ∷ b ∷ x ∷ key) ret bytes long = absurd (omega arith)
  decode_groups-encode_groups (suc n) [] ret bytes long = absurd (omega arith)
  decode_groups-encode_groups (suc n) (a ∷ []) ret bytes long = absurd (omega arith)
  decode_groups-encode_groups (suc n) (a ∷ b ∷ []) ret bytes long = absurd (omega arith)

shape_lem :
    (n : ℕ) (key : List ℕ)
    → IsBytes key
    → length key ≡ n * 3 + 2
    → IsBytes (encode_groups n key)
      × (length (encode_groups n key) ≡ n * 4 + 4)
      × (get_elem? (encode_groups n key) (n * 4 + 3) ≡ some b'=')
unfolding encode_groups
shape_lem (suc n) (x ∷ y ∷ z ∷ key) bytes long =
    let (rest, size, last) = shape_lem n key bytes.1.1.1 (omega arith) in
    let at : suc n * 4 + 3 ≡ suc (suc (suc (suc (n * 4 + 3)))) = omega arith in
    rw (sextets_of_bytes x y z bytes.0 bytes.1.0 bytes.1.1.0, at)
      (
        (
          encode_char-lt (x / 4) (omega arith),
          (
            encode_char-lt (x % 4 * 16 + y / 16) (omega arith),
            (
              encode_char-lt (y % 16 * 4 + z / 64) (omega arith),
              (encode_char-lt (z % 64) (omega arith), rest),
            ),
          ),
        ),
        omega (arith, size),
        last,
      )
shape_lem zero (x ∷ y ∷ []) bytes long =
    rw (sextets_of_bytes x y 0 bytes.0 bytes.1.0 (omega arith)) (
      (
        encode_char-lt (x / 4) (omega arith),
        (
          encode_char-lt (x % 4 * 16 + y / 16) (omega arith),
          (encode_char-lt (y % 16 * 4 + 0 / 64) (omega arith), (omega arith, tt)),
        ),
      ),
      refl,
      refl,
    )
shape_lem zero [] bytes long = absurd (omega arith)
shape_lem zero (a ∷ []) bytes long = absurd (omega arith)
shape_lem zero (a ∷ b ∷ x ∷ key) bytes long = absurd (omega arith)
shape_lem (suc n) [] bytes long = absurd (omega arith)
shape_lem (suc n) (a ∷ []) bytes long = absurd (omega arith)
shape_lem (suc n) (a ∷ b ∷ []) bytes long = absurd (omega arith)

module _ (signed : Bool) where
  decided :
      (old text : List ℕ)
      → length text ≡ base64_len
      → get_elem? text (base64_len - 1) ≡ some b'='
      → key_from_base64 signed old text
        ≡ (accepts (decode_groups signed 10 text 0).0, (decode_groups signed 10 text 0).1)
  unfolding key_from_base64
  decided old text long last = rw (long, last) refl

  shape_of_accepted :
      (old text key : List ℕ)
      → key_from_base64 signed old text ≡ (true, key)
      → (length text ≡ base64_len) × (get_elem? text (base64_len - 1) ≡ some b'=')
  unfolding key_from_base64
  shape_of_accepted old text key e = ground arith

  -- key_from_base64 succeeds exactly on the text that key_to_base64 writes for a key of 32 bytes,
  -- and then gives that key; no other spelling of a key is accepted.
  pub key_from_base64_iff :
      (old text key : List ℕ)
      → IsBytes text
      → (key_from_base64 signed old text ≡ (true, key))
        ↔ (IsBytes key × (length key ≡ key_len) × (key_to_base64 key ≡ text))
  unfolding key_to_base64
  key_from_base64_iff old text key bytes = (
    λ found.
        let (long, last) = shape_of_accepted old text key found in
        let done = decided old text long last in
        let small = decode_groups-bounds signed 10 text 0 (omega arith) in
        let zero_ret : (decode_groups signed 10 text 0).0 ≡ 0 =
          (==_iff _ _).0 (sym (accepts-eq_zero _ small.1) ∙ ap (λ t. t.0) (sym done ∙ found)) in
        let c = is_clean signed 10 text 0 bytes long last (omega arith) zero_ret in
        let same : (decode_groups signed 10 text 0).1 ≡ key = ap (λ t. t.1) (sym done ∙ found) in
        let all : IsBytes (decode_groups signed 10 text 0).1
            × (length (decode_groups signed 10 text 0).1 ≡ key_len)
            × (encode_groups 10 (decode_groups signed 10 text 0).1 ≡ text) =
          (c.bytes, c.long, c.encoded) in
        rw same at all,
    λ h.
        let (shape, long, last) = shape_lem 10 key h.0 h.1 in
        let read : key_from_base64 signed old (encode_groups 10 key) ≡ (true, key) =
          rw
            (
              decided old (encode_groups 10 key) long last,
              decode_groups-encode_groups signed 10 key 0 h.0 h.1,
            )
            (ap (λ b. (b, key)) (accepts-eq_zero 0 (omega arith))) in
        rw h.2 at read,
  )

  -- Every key of 32 bytes comes back from its base64 text.
  from_base64-to_base64 :
      (old key : List ℕ)
      → IsBytes key
      → length key ≡ key_len
      → key_from_base64 signed old (key_to_base64 key) ≡ (true, key)
  unfolding key_to_base64
  from_base64-to_base64 old key bytes long =
      (key_from_base64_iff old (key_to_base64 key) key (shape_lem 10 key bytes long).0).1
        (bytes, long, refl)
