-- ===== src/Sos/Encoded.antt =====
-- `EncodedValues` and `JustError` of sos-rs/src/lib.rs: values that are encoded already.
pub mod Pointer
use faastr.Common.{
  ℕ, zero, suc, ◌+◌, ◌-◌, ◌*◌, ◌/◌, Bool, true, List, [], ◌∷◌, ◌++◌, Option, none, some, length,
}
use faastr.Sos.Bytes.{Bytes, NativeEndian, slice, copy_from_slice}
use faastr.Sos.Value.{DecodeIter, Value, Values, nil, cons, encoded_len}
use faastr.Sos.Encode.{encode_sos, ◌>>=◌}
use faastr.Sos.Decode.{Outcome, decode_sos}

-- A borrowed slice or an owned vector.
abbrev pub EncodedValues : Type 0
EncodedValues = Bytes

-- `JustError::new`, as the values that it encodes
abbrev pub just_error : Bytes → Values
just_error text = cons (Value.error text) nil

module _ (ne : NativeEndian) where
  pub decode : EncodedValues → Outcome DecodeIter
  decode values = decode_sos ne values true

  -- The values are encoded into a new vector of their length, whatever that holds.
  pub from_values : Values → Bytes → Option EncodedValues
  from_values vals vec = do (bytes, _) ← encode_sos ne vec vals; some bytes

  -- What lies in memory from the pointer on: the length is the second `u32`.
  pub from_ptr : Bytes → Option EncodedValues
  from_ptr memory = do size ← slice memory 4 8; slice memory 0 (ne.read_u32 size)

-- `SOS::encode`
pub encode : EncodedValues → Bytes → Option (Bytes × ℕ)
encode values buf = do bytes ← copy_from_slice buf values; some (bytes, length values)
