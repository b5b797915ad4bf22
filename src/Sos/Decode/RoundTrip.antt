-- ===== src/Sos/Decode/RoundTrip.antt =====
-- Decoding what `encode_sos` writes gives the values back.
use faastr.Common.{
  ℕ, zero, suc, ◌^◌, ◌≤◌, ◌<◌, ◌≡◌, refl, sym, ap, ◌∙◌, false, [], ◌++◌, arith, length, append-nil,
  length-append,
}
use faastr.Sos.Bytes.{Bytes, NativeEndian}
use faastr.Sos.Value.{
  Value, Values, nil, cons, embedded_in, embedded_out, embedded_vec, count, encoded_len, ctype,
}
use faastr.Sos.Encode.Wire.{header, payload, body, wire, length-body, length-wire}
use faastr.Sos.Decode.{
  value, ◌>>=◌, decode_sos, decode_value, decode_embedded, next, collect, accumulate,
}
use faastr.Sos.Decode.Sound.{Sound, Sounds, owned, all_owned, Sound-encoded_size}
use faastr.Sos.Decode.Parts.{
  bind-eq, part_whole, decode_sos_lem, decode_text_lem, decode_function_lem,
}
use faastr.Sos.Decode.Step.{header-first, next_lem}

module _ (ne : NativeEndian) where
  open ne use {
    write_u32, write_u64, read_u32, read_u64, length-write_u32, length-write_u64, read-write_u32,
    read-write_u64,
  }

  body-lt-wire : (vs : Values) → length (body ne vs) < length (wire ne vs)
  unfolding encoded_len
  body-lt-wire vs = omega (arith, length-wire ne vs, length-body ne vs)

  cons_lengths :
      (v : Value) (vs : Values)
      → (length (body ne vs) < length (body ne (cons v vs)))
        × (length (payload ne v) < length (body ne (cons v vs)))
  unfolding body
  cons_lengths v vs =
      let (tail, e) = header-first ne v in
      omega (
        arith,
        ap length e,
        length-append (header ne v) (payload ne v ++ body ne vs),
        length-append (payload ne v) (body ne vs),
      )

  embedded_lem :
      (vs os : Values) (fuel : ℕ)
      → 0 < count vs
      → encoded_len vs < 2 ^ 32
      → collect ne fuel (record { count = count vs; buff = body ne vs; lazy = false }) ≡ value os
      → decode_embedded ne (collect ne fuel) false (wire ne vs) ≡ value (embedded_vec os)
  unfolding decode_embedded
  embedded_lem vs os fuel p q ih =
      bind-eq _
        (ap (λ z. decode_sos ne z false) (sym (append-nil (wire ne vs)))
          ∙ decode_sos_lem ne vs [] false p q)
        (bind-eq _ ih refl)

  mutual
    unfolding decode_value ctype payload body Sound owned wire count collect next

    value_round :
        (v : Value) (fuel : ℕ)
        → Sound v
        → length (payload ne v) ≤ fuel
        → decode_value ne (collect ne fuel) false (ctype v) (payload ne v) (length (payload ne v))
          ≡ value (owned v)
    value_round (Value.int32 i) fuel s h = ap (λ n. value (Value.int32 n)) (read-write_u32 i s)
    value_round (Value.uint32 i) fuel s h = ap (λ n. value (Value.uint32 n)) (read-write_u32 i s)
    value_round (Value.int64 i) fuel s h = ap (λ n. value (Value.int64 n)) (read-write_u64 i s)
    value_round (Value.uint64 i) fuel s h = ap (λ n. value (Value.uint64 n)) (read-write_u64 i s)
    value_round (Value.float i) fuel s h = ap (λ n. value (Value.float n)) (read-write_u32 i s)
    value_round (Value.double i) fuel s h = ap (λ n. value (Value.double n)) (read-write_u64 i s)
    value_round (Value.error i) fuel s h = decode_text_lem ne Value.error i s.0
    value_round (Value.string i) fuel s h = decode_text_lem ne Value.string i s.0
    value_round (Value.opaque i) fuel s h = bind-eq _ (part_whole i (length i) refl) refl
    value_round (Value.function f) fuel s h = decode_function_lem ne f s.0 s.1 s.2
    value_round (embedded_out it) fuel s h = absurd s
    value_round (embedded_in vs) fuel s h =
        embedded_lem vs (all_owned vs) fuel s.0 s.1
          (values_round vs fuel s.2 (omega (arith, body-lt-wire vs)))
    value_round (embedded_vec vs) fuel s h =
        embedded_lem vs (all_owned vs) fuel s.0 s.1
          (values_round vs fuel s.2 (omega (arith, body-lt-wire vs)))

    values_round :
        (vs : Values) (fuel : ℕ)
        → Sounds vs
        → length (body ne vs) < fuel
        → collect ne fuel (record { count = count vs; buff = body ne vs; lazy = false })
          ≡ value (all_owned vs)
    values_round vs zero s h = absurd (omega arith)
    values_round nil (suc fuel) s h = refl
    values_round (cons v vs) (suc fuel) s h =
        let size = cons_lengths v vs in
        ap (accumulate (collect ne fuel)) (
          next_lem ne (collect ne fuel) v vs (Sound-encoded_size v s.0)
            (value_round v fuel s.0 (omega (arith, size))))
        ∙ bind-eq _ (values_round vs fuel s.1 (omega (arith, size))) refl

  -- A list of values that is not empty and that fits its fields comes back from its wire format,
  -- whatever follows that in the buffer, with more fuel than bytes; a slice of embedded values
  -- comes back as a vector.
  pub collect-wire :
      (vs : Values) (rest : Bytes) (fuel : ℕ)
      → 0 < count vs
      → encoded_len vs < 2 ^ 32
      → Sounds vs
      → length (body ne vs) < fuel
      → (decode_sos ne (wire ne vs ++ rest) false >>= collect ne fuel) ≡ value (all_owned vs)
  collect-wire vs rest fuel p q s h =
      bind-eq _ (decode_sos_lem ne vs rest false p q) (values_round vs fuel s h)
