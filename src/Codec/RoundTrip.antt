-- ===== src/Codec/RoundTrip.antt =====
-- Round trips through packages/modbus-codec/src/{byte-order,decode,encode}.ts.
use fieldstream.Common.{
  ℕ, ◌/◌, ◌<◌, ◌≡◌, refl, ◌∙◌, ap, Bool, true, false, some, [], arith, ltb, length,
}
use fieldstream.Common.Int.{ℤ, pos, negsuc}
use fieldstream.Contracts.{
  DataType, int16, uint16, int32, uint32, float32, bits16, words_by_data_type,
}
use fieldstream.Codec.{
  ByteOrder, WordPair, ByteQuad, byte, to_word, joined_bytes, words_to_bytes, bytes_to_words,
  signed_32, to_uint32, quad_value, whole, float_bits, assemble_long, assemble_raw, int32_to_bytes,
  outside, encode_raw,
}

byte-joined_bytes : (high low : ℕ) → low < 256 → byte (joined_bytes high low) ≡ low
byte-joined_bytes high low h = omega (arith, h)

high_byte-joined_bytes :
    (high low : ℕ) → high < 256 → low < 256 → byte (to_word (joined_bytes high low) / 256) ≡ high
high_byte-joined_bytes high low h k = omega (arith, h, k)

low_byte-joined_bytes :
    (high low : ℕ) → high < 256 → low < 256 → byte (to_word (joined_bytes high low)) ≡ low
low_byte-joined_bytes high low h k = omega (arith, h, k)

joined_bytes-bytes :
    (w : ℕ) → w < 65536 → joined_bytes (byte (to_word w / 256)) (byte (to_word w)) ≡ w
joined_bytes-bytes w h = omega (arith, h)

pub record IsQuad (q : ByteQuad) : Type 0 where
  pub a_byte : q.a < 256
  pub b_byte : q.b < 256
  pub c_byte : q.c < 256
  pub d_byte : q.d < 256

-- The bytes of a pair of words made of bytes are those bytes, in each byte order.
pub words_to_bytes-bytes_to_words :
    (q : ByteQuad) (order : ByteOrder)
    → IsQuad q
    → words_to_bytes (bytes_to_words q order) order ≡ q
unfolding words_to_bytes bytes_to_words
words_to_bytes-bytes_to_words q order h = ground (arith, h.a_byte, h.b_byte, h.c_byte, h.d_byte)

-- The words of the bytes of a pair of words are that pair, in each byte order.
pub bytes_to_words-words_to_bytes :
    (w : WordPair) (order : ByteOrder)
    → w.first < 65536
    → w.second < 65536
    → bytes_to_words (words_to_bytes w order) order ≡ w
unfolding words_to_bytes bytes_to_words
bytes_to_words-words_to_bytes w order h k = ground (arith, h, k)

-- The types of whole numbers.
abbrev pub is_whole : DataType → Bool
is_whole float32 = false
is_whole _ = true

-- The whole numbers that a type of whole numbers holds.
unfoldable pub in_range : DataType → ℤ → Bool
in_range int16 (pos n) = ltb n 32768
in_range int16 (negsuc n) = ltb n 32768
in_range int32 (pos n) = ltb n 2147483648
in_range int32 (negsuc n) = ltb n 2147483648
in_range uint16 (pos n) = ltb n 65536
in_range bits16 (pos n) = ltb n 65536
in_range uint32 (pos n) = ltb n 4294967296
in_range float32 v = false
in_range _ (negsuc n) = false

IsQuad-int32_to_bytes : (v : ℤ) → IsQuad (int32_to_bytes v)
unfolding int32_to_bytes
IsQuad-int32_to_bytes v = record {
  a_byte = omega arith;
  b_byte = omega arith;
  c_byte = omega arith;
  d_byte = omega arith;
}

quad_value-int32_to_bytes :
    (v : ℤ) → to_uint32 v < 4294967296 → quad_value (int32_to_bytes v) ≡ to_uint32 v
unfolding int32_to_bytes
quad_value-int32_to_bytes v h = omega (arith, h)

bytes_to_words-small :
    (q : ByteQuad) (order : ByteOrder)
    → (to_word (bytes_to_words q order).first ≡ (bytes_to_words q order).first)
      × (to_word (bytes_to_words q order).second ≡ (bytes_to_words q order).second)
unfolding bytes_to_words
bytes_to_words-small q order = ground arith

to_uint32-small : (v : ℤ) → to_uint32 v < 4294967296
to_uint32-small (pos n) = omega arith
to_uint32-small (negsuc n) = omega arith

pair_of_words :
    (w : WordPair)
    → (to_word w.first ≡ w.first) × (to_word w.second ≡ w.second)
    → record { first = to_word w.first; second = to_word w.second } ≡ w
pair_of_words w h = ground (arith, h)

-- A number of two words survives the trip through the words of its bytes.
long_trip :
    (v : ℤ) (t : DataType) (order : ByteOrder)
    → assemble_long
        (words_to_bytes
          (record {
            first = to_word (bytes_to_words (int32_to_bytes v) order).first;
            second = to_word (bytes_to_words (int32_to_bytes v) order).second;
          })
          order)
        t
      ≡ assemble_long (int32_to_bytes v) t
long_trip v t order =
    ap (λ q. assemble_long q t)
      (ap (λ w. words_to_bytes w order)
          (pair_of_words (bytes_to_words (int32_to_bytes v) order)
            (bytes_to_words-small (int32_to_bytes v) order))
        ∙ words_to_bytes-bytes_to_words (int32_to_bytes v) order (IsQuad-int32_to_bytes v))

float_value :
    (bits : ℕ)
    → bits < 4294967296
    → assemble_long (int32_to_bytes (pos bits)) float32 ≡ float_bits bits
unfolding assemble_long
float_value bits b =
    ap float_bits
      (quad_value-int32_to_bytes (pos bits) (to_uint32-small (pos bits)) ∙ omega (arith, b))

-- Of a `float32`, the bits that `setFloat32` writes come back as the bits that `getFloat32` reads.
float_trip :
    (v : ℤ) (bits : ℕ) (order : ByteOrder)
    → bits < 4294967296
    → assemble_raw (encode_raw v bits float32 order) float32 order ≡ some (float_bits bits)
unfolding assemble_raw encode_raw
float_trip v bits order b = ap some (long_trip (pos bits) float32 order ∙ float_value bits b)

int32_value :
    (v : ℤ)
    → in_range int32 v ≡ true
    → (assemble_long (int32_to_bytes v) int32 ≡ whole v)
      × (outside (negsuc 2147483647) (pos 2147483647) v ≡ false)
unfolding assemble_long in_range
int32_value (pos n) h = (
  ap whole (
      ap signed_32 (quad_value-int32_to_bytes (pos n) (to_uint32-small (pos n)))
      ∙ ground (arith, h)),
  ground (arith, h),
)
int32_value (negsuc n) h = (
  ap whole (
      ap signed_32 (quad_value-int32_to_bytes (negsuc n) (to_uint32-small (negsuc n)))
      ∙ ground (arith, h)),
  ground (arith, h),
)

uint32_value :
    (v : ℤ)
    → in_range uint32 v ≡ true
    → (assemble_long (int32_to_bytes v) uint32 ≡ whole v)
      × (outside (pos 0) (pos 4294967295) v ≡ false)
unfolding assemble_long in_range
uint32_value (pos n) h = (
  ap whole
      (ap pos (quad_value-int32_to_bytes (pos n) (to_uint32-small (pos n)) ∙ ground (arith, h))),
  ground (arith, h),
)
uint32_value (negsuc n) h = ground (arith, h)

-- Of a type of whole numbers, a number that rounds to one within the range of the type is encoded into
-- as many words as the type has, which are read back as that whole number, in each byte order.
pub assemble_raw-encode_raw :
    (v : ℤ) (bits : ℕ) (t : DataType) (order : ByteOrder)
    → is_whole t ≡ true
    → in_range t v ≡ true
    → (assemble_raw (encode_raw v bits t order) t order ≡ some (whole v))
      × (length (encode_raw v bits t order) ≡ words_by_data_type t)
unfolding assemble_raw encode_raw in_range
assemble_raw-encode_raw (pos n) bits int16 order w h = ground arith
assemble_raw-encode_raw (negsuc n) bits int16 order w h = ground arith
assemble_raw-encode_raw (pos n) bits uint16 order w h = ground arith
assemble_raw-encode_raw (negsuc n) bits uint16 order w h = ground arith
assemble_raw-encode_raw (pos n) bits bits16 order w h = ground arith
assemble_raw-encode_raw (negsuc n) bits bits16 order w h = ground arith
assemble_raw-encode_raw v bits float32 order w h = cc
assemble_raw-encode_raw v bits int32 order w h =
    let value = int32_value v h in rw value.1 (ap some (long_trip v int32 order ∙ value.0), refl)
assemble_raw-encode_raw v bits uint32 order w h =
    let value = uint32_value v h in rw value.1 (ap some (long_trip v uint32 order ∙ value.0), refl)

-- Of a type of whole numbers, a number that rounds to one outside the range of the type is not encoded.
pub encode_raw-outside :
    (v : ℤ) (bits : ℕ) (t : DataType) (order : ByteOrder)
    → is_whole t ≡ true
    → in_range t v ≡ false
    → encode_raw v bits t order ≡ []
unfolding encode_raw in_range
encode_raw-outside v bits t order w h = ground arith
