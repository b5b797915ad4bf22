-- ===== src/Sos/Decode.antt =====
-- `decode_sos` and the iterator `DecodeIter` of sos-rs/src/lib.rs.
pub mod Total
pub mod Sound
pub mod Parts
pub mod Step
pub mod RoundTrip
use faastr.Common.{
  ℕ, zero, suc, ◌+◌, ◌-◌, ◌||◌, Bool, true, false, List, [], ◌∷◌, Option, none, some, ltb, leb,
  ◌==◌, if◌then◌else◌, length,
}
use faastr.Sos.Bytes.{Bytes, NativeEndian, slice}
use faastr.Sos.Utf8.{from_utf8}
use faastr.Sos.Value.{
  Function, DecodeIter, Value, Values, CType, nil, cons, embedded_out, embedded_vec, embedded,
  invalid, from_u8, fixed_size,
}

-- What a call returns: a value, Rust's `None`, or `failed` for a panic or a recursion that runs
-- out of fuel.
pub data Outcome {ℓ} (A : Type ℓ) : Type ℓ where
  value : A → Outcome A
  nothing : Outcome A
  failed : Outcome A

infixl 5 ◌>>=◌
abbrev pub ◌>>=◌ {ℓ κ} : {A : Type ℓ} {B : Type κ} → Outcome A → (A → Outcome B) → Outcome B
value a >>= f = f a
nothing >>= f = nothing
failed >>= f = failed

-- a slice expression, which panics out of range
abbrev pub part : Bytes → ℕ → ℕ → Outcome Bytes
part buf from to = elim (slice buf from to) [ none ↦ failed | some bytes ↦ value bytes ]

-- `e?` on an option
abbrev pub or_return {ℓ} : {A : Type ℓ} → Option A → Outcome A
or_return none = nothing
or_return (some a) = value a

-- `self.buff[0]`, taken from a slice of one byte
abbrev pub byte : Bytes → ℕ
byte [] = 0
byte (c ∷ cs) = c

-- `vec.iter().position(|&x| x == 0)`
unfoldable pub position : Bytes → Option ℕ
position [] = none
position (c ∷ cs) =
    let later = position cs in
    elim (c == 0) [ true ↦ some 0 | false ↦ elim later [ none ↦ none | some i ↦ some (suc i) ] ]

-- `&val_data[..if val_length == 0 { 0 } else { val_length - 1 }]`
abbrev pub without_last : Bytes → ℕ → Outcome Bytes
without_last val_data val_length = part val_data 0 (if val_length == 0 then 0 else val_length - 1)

-- the loop of `collect`, after a call of `next`
abbrev pub accumulate :
    (DecodeIter → Outcome Values) → Outcome (Value × DecodeIter) → Outcome Values
accumulate more nothing = value nil
accumulate more failed = failed
accumulate more (value (val, it)) = more it >>= λ vals. value (cons val vals)

module _ (ne : NativeEndian) where
  open ne use {read_u32, read_u64}

  unfoldable pub decode_sos : Bytes → Bool → Outcome DecodeIter
  decode_sos buff lazy =
      let read = do
        count ← part buff 0 4
        size ← part buff 4 8
        let room : Outcome Bytes = part buff 8 (read_u32 size)
        (if ltb (length buff) (read_u32 size) || ltb (read_u32 size) 8
            then nothing
            else (room >>= λ bytes.
                value (record { count = read_u32 count; buff = bytes; lazy = lazy })))
      in if leb (length buff) 8 then nothing else read

  -- The arms of the `match` on the value's type; `collect` collects an embedded iterator.
  unfoldable pub decode_function : Bytes → ℕ → Outcome Value
  decode_function val_data val_length = do
    vec ← without_last val_data val_length
    pos ← or_return (position vec)
    module_bytes ← part vec 0 pos
    module_name ← or_return (from_utf8 module_bytes)
    name_bytes ← part vec (pos + 1) (length vec)
    name ← or_return (from_utf8 name_bytes)
    value (Value.function (record { module_name = module_name; name = name }))

  unfoldable pub decode_text : (Bytes → Value) → Bytes → ℕ → Outcome Value
  decode_text wrap val_data val_length = do
    bytes ← without_last val_data val_length
    text ← or_return (from_utf8 bytes)
    value (wrap text)

  unfoldable pub decode_embedded : (DecodeIter → Outcome Values) → Bool → Bytes → Outcome Value
  decode_embedded collect lazy val_data = do
    iter ← decode_sos val_data lazy
    let all : Outcome Value = collect iter >>= λ values. value (embedded_vec values)
    (if lazy then value (embedded_out iter) else all)

  pub decode_value : (DecodeIter → Outcome Values) → Bool → CType → Bytes → ℕ → Outcome Value
  unfolding decode_function decode_text decode_embedded
  decode_value collect lazy invalid val_data val_length = nothing
  decode_value collect lazy CType.int32 val_data val_length =
      value (Value.int32 (read_u32 val_data))
  decode_value collect lazy CType.uint32 val_data val_length =
      value (Value.uint32 (read_u32 val_data))
  decode_value collect lazy CType.int64 val_data val_length =
      value (Value.int64 (read_u64 val_data))
  decode_value collect lazy CType.uint64 val_data val_length =
      value (Value.uint64 (read_u64 val_data))
  decode_value collect lazy CType.float val_data val_length =
      value (Value.float (read_u32 val_data))
  decode_value collect lazy CType.double val_data val_length =
      value (Value.double (read_u64 val_data))
  decode_value collect lazy CType.string val_data val_length =
      decode_text Value.string val_data val_length
  decode_value collect lazy CType.error val_data val_length =
      decode_text Value.error val_data val_length
  decode_value collect lazy CType.opaque val_data val_length =
      part val_data 0 val_length >>= λ bytes. value (Value.opaque bytes)
  decode_value collect lazy CType.function val_data val_length = decode_function val_data val_length
  decode_value collect lazy embedded val_data val_length = decode_embedded collect lazy val_data

  -- `val_length` and `offset`
  abbrev pub extent : CType → Bytes → Outcome (ℕ × ℕ)
  extent val_type buff = elim (fixed_size val_type) [
    | some n ↦ value (n, 1)
    | none ↦ part buff 1 5 >>= λ size. value (read_u32 size, 5)
  ]

  -- from the type on: the value and what is left of the buffer
  pub take_value : (DecodeIter → Outcome Values) → Bool → CType → Bytes → Outcome (Value × Bytes)
  take_value collect lazy val_type buff = do
    (val_length, offset) ← extent val_type buff
    let read : Outcome (Value × Bytes) = do
      val_data ← part buff offset (offset + val_length)
      val ← decode_value collect lazy val_type val_data val_length
      rest ← part buff (val_length + offset) (length buff)
      value (val, rest)
    (if ltb (length buff) (val_length + offset) then nothing else read)

  -- `DecodeIter::next`: the value, and the iterator after the call.
  pub next : (DecodeIter → Outcome Values) → DecodeIter → Outcome (Value × DecodeIter)
  next collect it =
      let read = do
        first ← part it.buff 0 1
        val_type ← or_return (from_u8 (byte first))
        (val, rest) ← take_value collect it.lazy val_type it.buff
        value (val, record it { buff = rest; count = it.count - 1 })
      in if ltb (length it.buff) 5 || it.count == 0 then nothing else read

  -- `collect::<Vec<_>>()` calls `next` until it returns `None`. The recursion, also into embedded
  -- values, is on fuel.
  pub collect : ℕ → DecodeIter → Outcome Values
  collect zero it = failed
  collect (suc fuel) it = accumulate (collect fuel) (next (collect fuel) it)
