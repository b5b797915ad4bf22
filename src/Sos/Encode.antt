-- ===== src/Sos/Encode.antt =====
-- `encode_sos` and the `SOS` implementations of sos-rs/src/lib.rs. Each function returns the
-- buffer after its writes; `none` is a panic.
pub mod Wire
pub mod Buffer
pub mod Refine
pub mod Correct
pub mod Iter
use faastr.Common.{
  ℕ, ◌+◌, ◌-◌, ◌%◌, ◌^◌, List, [], ◌∷◌, ◌++◌, Option, none, some, ltb, if◌then◌else◌, length, take,
  drop,
}
use faastr.Sos.Bytes.{Bytes, NativeEndian, slice, write_at, copy_from_slice}
use faastr.Sos.Value.{
  Function, DecodeIter, Value, Values, nil, cons, embedded_out, embedded_in, embedded_vec, count,
  encoded_size, encoded_len, ctype, to_u8, fixed_size,
}

infixl 5 ◌>>=◌
abbrev pub ◌>>=◌ {ℓ κ} : {A : Type ℓ} {B : Type κ} → Option A → (A → Option B) → Option B
none >>= f = none
some a >>= f = f a

-- a write into a part of the buffer, by the code that gets that part
abbrev pub within : Bytes → ℕ → ℕ → (Bytes → Option Bytes) → Option Bytes
within buf from to write = do wbuf ← slice buf from to; wbuf' ← write wbuf; write_at buf from wbuf'

abbrev pub buffer_of : Option (Bytes × ℕ) → Option Bytes
buffer_of r = r >>= λ p. some p.0

module _ (ne : NativeEndian) where
  open ne use {write_u32, write_u64}

  -- `val as u32`, written to four bytes
  abbrev u32 : ℕ → Bytes
  u32 n = write_u32 (n % 2 ^ 32)

  -- `DecodeIter::encode`: it writes the count and a size of 0.
  pub encode_iter : DecodeIter → Bytes → Option Bytes
  encode_iter f buf = do
    a ← write_at buf 0 (u32 f.count)
    b ← write_at a 4 (u32 0)
    within b 8 (length b) (λ rest. copy_from_slice rest f.buff)

  -- `wbuf[..length - 1].copy_from_slice(..)`, then a 0
  pub encode_text : Bytes → Bytes → Option Bytes
  encode_text text wbuf = do
    a ← within wbuf 0 (length wbuf - 1) (λ rest. copy_from_slice rest text)
    write_at a (length wbuf - 1) (0 ∷ [])

  pub encode_function : Function → Bytes → Option Bytes
  encode_function f wbuf = do
    let modlen = length f.module_name
    a ← within wbuf 0 modlen (λ rest. copy_from_slice rest f.module_name)
    b ← write_at a modlen (0 ∷ [])
    c ← within b (1 + modlen) (length wbuf - 1) (λ rest. copy_from_slice rest f.name)
    write_at c (length wbuf - 1) (0 ∷ [])

  -- `encode_sos` round its loop: the assertion, the header, and the loop on `buf[..len]`.
  pub encode_frame : ℕ → ℕ → (Bytes → ℕ → Option (Bytes × ℕ)) → Bytes → Option (Bytes × ℕ)
  encode_frame values_len len loop buf =
      let run : Option (Bytes × ℕ) = do
        a ← write_at (take len buf) 0 (u32 values_len)
        b ← write_at a 4 (u32 len)
        (c, coffset) ← loop b 8
        some (c ++ drop len buf, coffset)
      in if ltb (length buf) len then none else run

  -- The header of a value: its type, and its size unless the type fixes it. The offset behind it
  -- and the length of what follows come with the buffer.
  pub encode_header : Value → Bytes → ℕ → Option (Bytes × ℕ × ℕ)
  encode_header value buf coffset = do
    a ← write_at buf coffset (to_u8 (ctype value) ∷ [])
    elim (fixed_size (ctype value)) [
      | some length ↦ some (a, coffset + 1, encoded_size value)
      | none ↦ do
        b ← write_at a (coffset + 1) (u32 (encoded_size value - 4))
        some (b, coffset + 5, encoded_size value - 4)
    ]

  mutual
    pub encode_value : Value → Bytes → Option Bytes
    encode_value (Value.int32 i) wbuf = write_at wbuf 0 (write_u32 i)
    encode_value (Value.uint32 i) wbuf = write_at wbuf 0 (write_u32 i)
    encode_value (Value.int64 i) wbuf = write_at wbuf 0 (write_u64 i)
    encode_value (Value.uint64 i) wbuf = write_at wbuf 0 (write_u64 i)
    encode_value (Value.float i) wbuf = write_at wbuf 0 (write_u32 i)
    encode_value (Value.double i) wbuf = write_at wbuf 0 (write_u64 i)
    encode_value (Value.string i) wbuf = encode_text i wbuf
    encode_value (Value.error i) wbuf = encode_text i wbuf
    encode_value (Value.opaque i) wbuf = copy_from_slice wbuf i
    encode_value (embedded_in i) wbuf =
        buffer_of (encode_frame (count i) (encoded_len i) (encode_loop i) wbuf)
    encode_value (embedded_out f) wbuf = encode_iter f wbuf
    encode_value (embedded_vec i) wbuf =
        buffer_of (encode_frame (count i) (encoded_len i) (encode_loop i) wbuf)
    encode_value (Value.function f) wbuf = encode_function f wbuf

    -- the loop of `encode_sos`, on the values left, from `coffset` on
    pub encode_loop : Values → Bytes → ℕ → Option (Bytes × ℕ)
    encode_loop nil buf coffset = some (buf, coffset)
    encode_loop (cons value values) buf coffset = encode_header value buf coffset >>= λ h.
        within h.0 h.1 (h.1 + h.2) (encode_value value) >>= λ b. encode_loop values b (h.1 + h.2)

  pub encode_sos : Bytes → Values → Option (Bytes × ℕ)
  encode_sos buf values = encode_frame (count values) (encoded_len values) (encode_loop values) buf
