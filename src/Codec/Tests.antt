-- ===== src/Codec/Tests.antt =====
-- Runs of packages/modbus-codec on concrete words.
use fieldstream.Common.{◌≡◌, refl, arith, some, [], length, true, false}
use fieldstream.Common.Int.{negsuc, pos}
use fieldstream.Contracts.{int32, uint16, words_by_data_type}
use fieldstream.Codec.{
  cdab, dcba, badc, ByteQuad, WordPair, words_to_bytes, bytes_to_words, assemble_raw, encode_raw,
  whole,
}
use fieldstream.Codec.RoundTrip.{
  words_to_bytes-bytes_to_words, bytes_to_words-words_to_bytes, in_range, assemble_raw-encode_raw,
  encode_raw-outside,
}

abbrev quad : ByteQuad
quad = record { a = 18; b = 52; c = 86; d = 120 }

abbrev pair : WordPair
pair = record { first = 4660; second = 22136 }

words_to_bytes-bytes_to_words_example : words_to_bytes (bytes_to_words quad cdab) cdab ≡ quad
words_to_bytes-bytes_to_words_example = words_to_bytes-bytes_to_words quad cdab (record {
  a_byte = omega arith;
  b_byte = omega arith;
  c_byte = omega arith;
  d_byte = omega arith;
})

bytes_to_words-words_to_bytes_example : bytes_to_words (words_to_bytes pair badc) badc ≡ pair
bytes_to_words-words_to_bytes_example =
    bytes_to_words-words_to_bytes pair badc (omega arith) (omega arith)

in_range_minus_two : in_range int32 (negsuc 1) ≡ true
unfolding in_range
in_range_minus_two = refl

assemble_raw-encode_raw_example :
    (assemble_raw (encode_raw (negsuc 1) 0 int32 dcba) int32 dcba ≡ some (whole (negsuc 1)))
    × (length (encode_raw (negsuc 1) 0 int32 dcba) ≡ words_by_data_type int32)
assemble_raw-encode_raw_example =
    assemble_raw-encode_raw (negsuc 1) 0 int32 dcba refl in_range_minus_two

in_range_too_large : in_range uint16 (pos 70000) ≡ false
unfolding in_range
in_range_too_large = refl

encode_raw-outside_example : encode_raw (pos 70000) 0 uint16 cdab ≡ []
encode_raw-outside_example = encode_raw-outside (pos 70000) 0 uint16 cdab refl in_range_too_large
