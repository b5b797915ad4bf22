-- ===== src/Sos/Tests.antt =====
-- Runs of the encoder and the decoder of sos-rs/src/lib.rs, on a little-endian machine.
use faastr.Common.{
  ℕ, zero, ◌+◌, ◌*◌, ◌/◌, ◌%◌, ◌≡◌, refl, true, false, [], ◌∷◌, some, none, arith, length, drop,
  ◌++◌, ◌⊎◌, suc,
}
use faastr.Sos.Bytes.{Bytes, NativeEndian}
use faastr.Sos.Utf8.{is_utf8, is_utf8_from, lead}
use faastr.Sos.Value.{
  DecodeIter, Value, Values, nil, cons, embedded_in, embedded_out, count, encoded_len, sizes,
}
use faastr.Sos.Encode.{encode_sos, encode_iter}
use faastr.Sos.Encode.Wire.{wire, body, no_iters}
use faastr.Sos.Encode.Correct.{encode_sos_lem}
use faastr.Sos.Encode.Iter.{encode_sos_embedded_out, decode_sos-encode_iter}
use faastr.Sos.Decode.{position, value, nothing, decode_sos, collect, ◌>>=◌}
use faastr.Sos.Decode.Sound.{Sounds, all_owned}
use faastr.Sos.Decode.Total.{decode_total, collect_total}
use faastr.Sos.Owned.{OwnedValue, OwnedValues, borrow, borrow_all}
use faastr.Sos.Encoded.{from_values, from_ptr, decode}
use faastr.Sos.Encoded.Pointer.{from_ptr-from_values}
use faastr.Context.Values.{ValuesMemory, ContextValues}
use faastr.Sos.Trip.{decode_sos-encode_sos}

abbrev le32 : ℕ → Bytes
le32 n = n % 256 ∷ n / 256 % 256 ∷ n / 65536 % 256 ∷ n / 16777216 % 256 ∷ []

abbrev word32 : Bytes → ℕ
word32 (a ∷ b ∷ c ∷ d ∷ _) = a + 256 * b + 65536 * c + 16777216 * d
word32 _ = 0

abbrev little_endian : NativeEndian
little_endian = record {
  write_u32 = le32;
  read_u32 = word32;
  write_u64 = λ n. le32 (n % 4294967296) ++ le32 (n / 4294967296);
  read_u64 = λ bytes. word32 bytes + 4294967296 * word32 (drop 4 bytes);
  length-write_u32 = λ n. refl;
  length-write_u64 = λ n. refl;
  read-write_u32 = λ n h. omega arith;
  read-write_u64 = λ n h. omega arith;
}

-- two numbers in a nested list, a text and a function
abbrev some_values : Values
some_values = cons (embedded_in (cons (Value.int32 7) (cons (Value.uint64 300) nil))) (
    cons (Value.string (0x68 ∷ 0xc3 ∷ 0xa9 ∷ []))
      (cons (Value.function (record { module_name = 0x6d ∷ []; name = 0x66 ∷ 0x67 ∷ [] })) nil))

abbrev zeroes : ℕ → Bytes
zeroes zero = []
zeroes (suc n) = 0 ∷ zeroes n

some_values-Sounds : Sounds some_values
unfolding Sounds count encoded_len sizes is_utf8 is_utf8_from lead position
some_values-Sounds = (
  (omega arith, omega arith, (omega arith, (omega arith, tt))),
  ((refl, omega arith), ((refl, refl, refl, omega arith), tt)),
)

encoded_len_test : encoded_len some_values ≡ 54
unfolding encoded_len count sizes
encoded_len_test = refl

some_values-no_iters : no_iters some_values ≡ true
unfolding no_iters
some_values-no_iters = refl

abbrev encoded : Bytes
encoded = wire little_endian some_values

encode_sos_example :
    (encode_sos little_endian (zeroes 60) some_values
      ≡ some (encoded ++ drop (encoded_len some_values) (zeroes 60), encoded_len some_values))
    × (length encoded ≡ encoded_len some_values)
encode_sos_example =
    encode_sos_lem little_endian some_values (zeroes 60) some_values-no_iters
      (omega (arith, encoded_len_test))

decode_sos-encode_sos_example :
    (buf' : Bytes) × (encode_sos little_endian (zeroes 60) some_values
      ≡ some (buf', encoded_len some_values))
    × ((decode_sos little_endian buf' false >>= collect little_endian (length buf'))
        ≡ value (all_owned some_values))
unfolding count
decode_sos-encode_sos_example =
    decode_sos-encode_sos little_endian some_values (zeroes 60) (omega arith)
      (omega (arith, encoded_len_test)) some_values-Sounds (omega (arith, encoded_len_test))

-- a size that is larger than the buffer, behind a header
abbrev broken : DecodeIter
broken = record { count = 3; buff = 8 ∷ 255 ∷ 255 ∷ 255 ∷ 255 ∷ 1 ∷ 2 ∷ []; lazy = false }

decode_total_example :
    (decode_sos little_endian (3 ∷ 0 ∷ 0 ∷ 0 ∷ 15 ∷ 0 ∷ 0 ∷ 0 ∷ broken.buff) true ≡ nothing)
    ⊎ ((it : DecodeIter) × (vs : Values) × (decode_sos little_endian
            (3 ∷ 0 ∷ 0 ∷ 0 ∷ 15 ∷ 0 ∷ 0 ∷ 0 ∷ broken.buff)
            true
          ≡ value it)
        × (collect little_endian (suc (length it.buff)) it ≡ value vs))
decode_total_example = decode_total little_endian _ true

collect_total_example : (vs : Values) × (collect little_endian 8 broken ≡ value vs)
collect_total_example = collect_total little_endian 8 broken (omega arith)

encode_sos_embedded_out_example :
    encode_sos little_endian (zeroes 60) (cons (embedded_out broken) nil) ≡ none
encode_sos_embedded_out_example = encode_sos_embedded_out little_endian broken nil (zeroes 60)

decode_sos-encode_iter_example :
    (buf' : Bytes) × (encode_iter little_endian broken (zeroes 15) ≡ some buf')
    × (decode_sos little_endian buf' false ≡ nothing)
decode_sos-encode_iter_example =
    decode_sos-encode_iter little_endian broken (zeroes 15) false (omega arith)

abbrev owned_values : OwnedValues
owned_values =
    OwnedValues.cons (OwnedValue.embedded (OwnedValues.cons (OwnedValue.int32 7) OwnedValues.nil))
      (OwnedValues.cons (OwnedValue.opaque (1 ∷ 2 ∷ [])) OwnedValues.nil)

owned_len_test : encoded_len (borrow_all owned_values) ≡ 33
unfolding borrow borrow_all encoded_len count sizes
owned_len_test = refl

from_ptr-from_values_example :
    (bytes : Bytes) × (from_values little_endian some_values (zeroes 54) ≡ some bytes)
    × (from_ptr little_endian (bytes ++ zeroes 9) ≡ some bytes)
    × (decode little_endian bytes
        ≡ value (record {
          count = count some_values;
          buff = body little_endian some_values;
          lazy = true;
        }))
unfolding count
from_ptr-from_values_example =
    from_ptr-from_values little_endian some_values (zeroes 54) (zeroes 9) some_values-no_iters
      (omega (arith, encoded_len_test)) (omega arith) (omega (arith, encoded_len_test))

abbrev no_bytes : ValuesMemory
no_bytes = record { context_address = 4096; kernel_mapped = true; shared = false; bytes = [] }

abbrev no_values : ContextValues
no_values = record { memory = some no_bytes; offset = 0 }
