-- ===== src/Sos/Encode/Wire.antt =====
-- The wire format as a function of the values, without buffers: what `encode_sos` is to write.
use faastr.Common.{
  ℕ, ◌+◌, ◌-◌, ◌%◌, ◌^◌, ◌≡◌, refl, Bool, true, false, ◌&&◌, [], ◌∷◌, ◌++◌, none, some, arith,
  length, length-append,
}
use faastr.Sos.Bytes.{Bytes, NativeEndian}
use faastr.Sos.Value.{
  Value, Values, nil, cons, embedded_out, embedded_in, embedded_vec, count, encoded_size, sizes,
  encoded_len, ctype, to_u8, fixed_size,
}

-- Nowhere in the values is there an iterator over encoded ones.
unfoldable mutual
  pub no_iter : Value → Bool
  no_iter (embedded_out f) = false
  no_iter (embedded_in i) = no_iters i
  no_iter (embedded_vec i) = no_iters i
  no_iter _ = true

  pub no_iters : Values → Bool
  no_iters nil = true
  no_iters (cons v vs) = no_iter v && no_iters vs

module _ (ne : NativeEndian) where
  open ne use {write_u32, write_u64, length-write_u32, length-write_u64}

  unfoldable pub header : Value → Bytes
  header v = to_u8 (ctype v) ∷ elim (fixed_size (ctype v)) [
    | some length ↦ []
    | none ↦ write_u32 ((encoded_size v - 4) % 2 ^ 32)
  ]

  unfoldable mutual
    pub payload : Value → Bytes
    payload (Value.int32 i) = write_u32 i
    payload (Value.uint32 i) = write_u32 i
    payload (Value.int64 i) = write_u64 i
    payload (Value.uint64 i) = write_u64 i
    payload (Value.float i) = write_u32 i
    payload (Value.double i) = write_u64 i
    payload (Value.string i) = i ++ 0 ∷ []
    payload (Value.error i) = i ++ 0 ∷ []
    payload (Value.opaque i) = i
    payload (embedded_in i) =
        write_u32 (count i % 2 ^ 32) ++ (write_u32 (encoded_len i % 2 ^ 32) ++ body i)
    payload (embedded_out f) = f.buff
    payload (embedded_vec i) =
        write_u32 (count i % 2 ^ 32) ++ (write_u32 (encoded_len i % 2 ^ 32) ++ body i)
    payload (Value.function f) = f.module_name ++ (0 ∷ (f.name ++ 0 ∷ []))

    pub body : Values → Bytes
    body nil = []
    body (cons v vs) = header v ++ (payload v ++ body vs)

  unfoldable pub wire : Values → Bytes
  wire vs = write_u32 (count vs % 2 ^ 32) ++ (write_u32 (encoded_len vs % 2 ^ 32) ++ body vs)

  mutual
    unfolding payload body header encoded_size encoded_len ctype fixed_size count

    size_payload : (v : Value) → length (header v) + length (payload v) ≡ encoded_size v + 1
    size_payload (Value.int32 i) = omega (arith, length-write_u32 i)
    size_payload (Value.uint32 i) = omega (arith, length-write_u32 i)
    size_payload (Value.int64 i) = omega (arith, length-write_u64 i)
    size_payload (Value.uint64 i) = omega (arith, length-write_u64 i)
    size_payload (Value.float i) = omega (arith, length-write_u32 i)
    size_payload (Value.double i) = omega (arith, length-write_u64 i)
    size_payload (Value.string i) =
        omega (arith, length-write_u32 ((length i + 1 + 4 - 4) % 2 ^ 32), length-append i (0 ∷ []))
    size_payload (Value.error i) = omega (arith, length-write_u32, length-append i (0 ∷ []))
    size_payload (Value.opaque i) = omega (arith, length-write_u32)
    size_payload (embedded_out f) = omega (arith, length-write_u32)
    size_payload (embedded_in i) = omega (arith, length-write_u32, length-append {0}, size_body i)
    size_payload (embedded_vec i) = omega (arith, length-write_u32, length-append {0}, size_body i)
    size_payload (Value.function f) = omega (arith, length-write_u32, length-append {0})

    size_body : (vs : Values) → length (body vs) ≡ count vs + sizes vs
    size_body nil = refl
    size_body (cons v vs) = omega (
      arith,
      length-append (header v) (payload v ++ body vs),
      length-append (payload v) (body vs),
      size_payload v,
      size_body vs,
    )

  -- A value takes one byte more than `encoded_size`, and the values as many as `encoded_len`.
  pub length-header-payload :
      (v : Value) → length (header v) + length (payload v) ≡ encoded_size v + 1
  length-header-payload v = size_payload v

  pub length-body : (vs : Values) → length (body vs) ≡ count vs + sizes vs
  length-body vs = size_body vs

  pub length-wire : (vs : Values) → length (wire vs) ≡ encoded_len vs
  unfolding wire encoded_len
  length-wire vs = omega (arith, length-append {0}, length-write_u32, size_body vs)

  pub header_fixed :
      (v : Value) {n : ℕ} → fixed_size (ctype v) ≡ some n → header v ≡ to_u8 (ctype v) ∷ []
  unfolding header
  header_fixed v e = rw e

  pub header_sized :
      (v : Value)
      → fixed_size (ctype v) ≡ none
      → header v ≡ to_u8 (ctype v) ∷ write_u32 ((encoded_size v - 4) % 2 ^ 32)
  unfolding header
  header_sized v e = rw e
