-- ===== src/Codec.antt =====
-- packages/modbus-codec/src/byte-order.ts, and the whole numbers of decode.ts and encode.ts: words of
-- registers and the bytes and numbers they carry. `x & 0xff` is the remainder by 256, `x >>> 8` the
-- quotient, and `(a << 8) | b` of two bytes is `a * 256 + b`.
pub mod RoundTrip
mod Tests
use fieldstream.Common.{
  ℕ, ◌+◌, ◌-◌, ◌*◌, ◌/◌, ◌%◌, ◌^◌, Bool, true, false, ◌||◌, Option, none, some, List, [], ◌∷◌, ltb,
  leb, if◌then◌else◌,
}
use fieldstream.Common.Int.{ℤ, pos, negsuc, pos_part, ltb_ℤ}
use fieldstream.Contracts.{DataType, int16, uint16, int32, uint32, float32, bits16}

pub data ByteOrder : Type 0 where
  abcd dcba badc cdab : ByteOrder

pub record WordPair : Type 0 where
  pub first : ℕ
  pub second : ℕ

-- The four bytes of a 32-bit number, the highest first.
pub record ByteQuad : Type 0 where
  pub a : ℕ
  pub b : ℕ
  pub c : ℕ
  pub d : ℕ

abbrev pub byte : ℕ → ℕ
byte x = x % 256

abbrev pub to_word : ℕ → ℕ
to_word x = x % 65536

abbrev pub joined_bytes : ℕ → ℕ → ℕ
joined_bytes high low = high * 256 + low

unfoldable pub words_to_bytes : WordPair → ByteOrder → ByteQuad
words_to_bytes w order =
    let s0 = byte (to_word w.first / 256) in
    let s1 = byte (to_word w.first) in
    let s2 = byte (to_word w.second / 256) in
    let s3 = byte (to_word w.second) in
    elim order [
      | abcd ↦ record { a = s0; b = s1; c = s2; d = s3 }
      | dcba ↦ record { a = s3; b = s2; c = s1; d = s0 }
      | badc ↦ record { a = s1; b = s0; c = s3; d = s2 }
      | cdab ↦ record { a = s2; b = s3; c = s0; d = s1 }
    ]

unfoldable pub bytes_to_words : ByteQuad → ByteOrder → WordPair
bytes_to_words q order =
    let a = byte q.a in
    let b = byte q.b in
    let c = byte q.c in
    let d = byte q.d in
    elim order [
      | abcd ↦ record { first = joined_bytes a b; second = joined_bytes c d }
      | dcba ↦ record { first = joined_bytes d c; second = joined_bytes b a }
      | badc ↦ record { first = joined_bytes b a; second = joined_bytes d c }
      | cdab ↦ record { first = joined_bytes c d; second = joined_bytes a b }
    ]

-- Of a 32-bit number its signed reading, as `|` leaves it.
abbrev pub signed_32 : ℕ → ℤ
signed_32 n = if leb 2147483648 n then negsuc (4294967295 - n) else pos n

-- `value >>> 0`.
abbrev pub to_uint32 : ℤ → ℕ
to_uint32 (pos n) = n % 4294967296
to_uint32 (negsuc n) = 4294967295 - n % 4294967296

abbrev pub quad_value : ByteQuad → ℕ
quad_value q = q.a * 16777216 + q.b * 65536 + q.c * 256 + q.d

-- What the words carry: a whole number, or the bits that `getFloat32` reads.
pub data Raw : Type 0 where
  whole : ℤ → Raw
  float_bits : ℕ → Raw

unfoldable pub assemble_long : ByteQuad → DataType → Raw
assemble_long q float32 = float_bits (quad_value q)
assemble_long q uint32 = whole (pos (quad_value q))
assemble_long q _ = whole (signed_32 (quad_value q))

unfoldable pub assemble_raw : List ℕ → DataType → ByteOrder → Option Raw
unfolding words_to_bytes assemble_long
assemble_raw [] t order = none
assemble_raw (first ∷ rest) int16 order =
    let low = to_word first in
    some (whole (if leb 32768 low then negsuc (65535 - low) else pos low))
assemble_raw (first ∷ rest) uint16 order = some (whole (pos (to_word first)))
assemble_raw (first ∷ rest) bits16 order = some (whole (pos (to_word first)))
assemble_raw (first ∷ []) t order = none
assemble_raw (first ∷ second ∷ rest) t order = some (
    assemble_long (words_to_bytes (record { first = to_word first; second = to_word second }) order)
      t)

unfoldable pub int32_to_bytes : ℤ → ByteQuad
int32_to_bytes value = record {
  a = byte (to_uint32 value / 16777216);
  b = byte (to_uint32 value / 65536);
  c = byte (to_uint32 value / 256);
  d = byte (to_uint32 value);
}

abbrev pub words_of : WordPair → List ℕ
words_of w = w.first ∷ w.second ∷ []

abbrev pub outside : ℤ → ℤ → ℤ → Bool
outside low high v = ltb_ℤ v low || ltb_ℤ high v

-- The end of `encodeParam`, of a number that rounds to `v` and for which `setFloat32` writes `bits`.
unfoldable pub encode_raw : ℤ → ℕ → DataType → ByteOrder → List ℕ
unfolding bytes_to_words int32_to_bytes
encode_raw v bits float32 order = words_of (bytes_to_words (int32_to_bytes (pos bits)) order)
encode_raw v bits int16 order =
    if outside (negsuc 32767) (pos 32767) v then [] else to_word (to_uint32 v) ∷ []
encode_raw v bits uint16 order = if outside (pos 0) (pos 65535) v then [] else pos_part v ∷ []
encode_raw v bits bits16 order = if outside (pos 0) (pos 65535) v then [] else pos_part v ∷ []
encode_raw v bits int32 order =
    if outside (negsuc 2147483647) (pos 2147483647) v
    then []
    else words_of (bytes_to_words (int32_to_bytes v) order)
encode_raw v bits uint32 order =
    if outside (pos 0) (pos 4294967295) v
    then []
    else words_of (bytes_to_words (int32_to_bytes v) order)
