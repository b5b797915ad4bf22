-- ===== src/Sos/Decode/Sound.antt =====
-- Which values come back from the wire, and as what.
use faastr.Common.{◌+◌, ◌^◌, ◌<◌, ◌≡◌, true, none, arith, length}
use faastr.Sos.Utf8.{is_utf8}
use faastr.Sos.Value.{
  Value, Values, nil, cons, embedded_in, embedded_out, embedded_vec, count, encoded_size,
  encoded_len,
}
use faastr.Sos.Decode.{position}

-- What a value must satisfy to come back: numbers and sizes fit their fields, texts are UTF-8, no
-- module's name has a 0 byte, and embedded lists are not empty.
unfoldable mutual
  pub Sound : Value → Type 0
  Sound (Value.int32 i) = i < 2 ^ 32
  Sound (Value.uint32 i) = i < 2 ^ 32
  Sound (Value.int64 i) = i < 2 ^ 64
  Sound (Value.uint64 i) = i < 2 ^ 64
  Sound (Value.float i) = i < 2 ^ 32
  Sound (Value.double i) = i < 2 ^ 64
  Sound (Value.error s) = (is_utf8 s ≡ true) × (length s + 1 < 2 ^ 32)
  Sound (Value.string s) = (is_utf8 s ≡ true) × (length s + 1 < 2 ^ 32)
  Sound (Value.opaque s) = length s < 2 ^ 32
  Sound (Value.function f) =
      (is_utf8 f.module_name ≡ true)
      × (is_utf8 f.name ≡ true)
      × (position f.module_name ≡ none)
      × (length f.module_name + length f.name + 2 < 2 ^ 32)
  Sound (embedded_out it) = ⊥
  Sound (embedded_in vs) = (0 < count vs) × (encoded_len vs < 2 ^ 32) × Sounds vs
  Sound (embedded_vec vs) = (0 < count vs) × (encoded_len vs < 2 ^ 32) × Sounds vs

  pub Sounds : Values → Type 0
  Sounds nil = Unit
  Sounds (cons v vs) = Sound v × Sounds vs

-- A decoded list of values is a vector, also where a slice was encoded.
unfoldable mutual
  pub owned : Value → Value
  owned (embedded_in vs) = embedded_vec (all_owned vs)
  owned (embedded_vec vs) = embedded_vec (all_owned vs)
  owned v = v

  pub all_owned : Values → Values
  all_owned nil = nil
  all_owned (cons v vs) = cons (owned v) (all_owned vs)

pub Sound-encoded_size : (v : Value) → Sound v → encoded_size v < 2 ^ 32 + 4
unfolding Sound encoded_size encoded_len
Sound-encoded_size (Value.int32 i) s = omega arith
Sound-encoded_size _ s = omega arith
