-- ===== src/Sos/Decode/Step.antt =====
-- `DecodeIter::next` on the wire format returns the first value.
use faastr.Common.{
  ℕ, suc, ◌+◌, ◌-◌, ◌%◌, ◌^◌, ◌≤◌, ◌<◌, ◌≡◌, refl, sym, ap, ap₂, ◌∙◌, ◌||◌, inl, inr, false, [],
  ◌∷◌, ◌++◌, none, some, arith, ltb, ◌==◌, length, append_assoc, length-append, Option-cases,
}
use faastr.Sos.Bytes.{Bytes, NativeEndian}
use faastr.Sos.Value.{
  DecodeIter, Value, Values, cons, count, encoded_size, ctype, to_u8, fixed_size,
}
use faastr.Sos.Encode.Wire.{
  header, payload, body, header_fixed, header_sized, length-header-payload,
}
use faastr.Sos.Decode.{Outcome, value, part, or_return, decode_value, extent, take_value, next}
use faastr.Sos.Decode.Sound.{owned}
use faastr.Sos.Decode.Parts.{bind-eq, part_middle, part_end, read_size, from_u8-to_u8}

fixed_size-eq : (v : Value) {n : ℕ} → fixed_size (ctype v) ≡ some n → n ≡ encoded_size v
unfolding fixed_size ctype encoded_size
fixed_size-eq (Value.int32 i) e = ground arith
fixed_size-eq _ e = ground arith

four-le-encoded_size : (v : Value) → 4 ≤ encoded_size v
unfolding encoded_size
four-le-encoded_size (Value.int32 i) = omega arith
four-le-encoded_size _ = omega arith

pub header-first :
    (ne : NativeEndian) (v : Value) → (tail : Bytes) × (header ne v ≡ to_u8 (ctype v) ∷ tail)
unfolding header
header-first ne v = (_, refl)

module _ (ne : NativeEndian) where
  open ne use {
    write_u32, write_u64, read_u32, read_u64, length-write_u32, length-write_u64, read-write_u32,
    read-write_u64,
  }

  extent_lem :
      (v : Value) (rest : Bytes)
      → encoded_size v < 2 ^ 32 + 4
      → extent ne (ctype v) (header ne v ++ rest)
        ≡ value (length (payload ne v), length (header ne v))
  extent_lem v rest small = elim (Option-cases (fixed_size (ctype v))) [
    | inr (n, e) ↦
        rw (e, extent)
          (ap₂ (λ j k. value (j, k))
            (omega (
              arith,
              fixed_size-eq v e,
              ap length (header_fixed ne v e),
              length-header-payload ne v,
            ))
            (sym (ap length (header_fixed ne v e))))
    | inl e ↦
        let size = write_u32 ((encoded_size v - 4) % 2 ^ 32) in
        rw (e, extent)
          (bind-eq _
            (ap (λ z. part (z ++ rest) 1 5) (header_sized ne v e)
              ∙ part_middle (to_u8 (ctype v) ∷ []) size rest 1 5 refl
                  (omega (arith, length-write_u32 ((encoded_size v - 4) % 2 ^ 32))))
            (ap₂ (λ j k. value (j, k))
              (read_size ne (encoded_size v - 4) (omega arith)
                ∙ omega (arith, five e, length-header-payload ne v))
              (sym (five e))))
  ]
    where
      five : fixed_size (ctype v) ≡ none → length (header ne v) ≡ 5
      five e =
          ap length (header_sized ne v e)
          ∙ ap suc (length-write_u32 ((encoded_size v - 4) % 2 ^ 32))

  take_value_lem :
      (sub : DecodeIter → Outcome Values) (v : Value) (rest : Bytes)
      → encoded_size v < 2 ^ 32 + 4
      → decode_value ne sub false (ctype v) (payload ne v) (length (payload ne v)) ≡ value (owned v)
      → take_value ne sub false (ctype v) (header ne v ++ (payload ne v ++ rest))
        ≡ value (owned v, rest)
  unfolding take_value
  take_value_lem sub v rest small val = bind-eq _ size (
      rw fits (
        bind-eq _ (part_middle head load rest (length head) (length head + length load) refl refl) (
          bind-eq _ val (
            bind-eq _
              (ap (λ z. part z (length load + length head) (length (head ++ (load ++ rest))))
                  (sym (append_assoc head load rest))
                ∙ part_end (head ++ load) rest _ _ (omega (arith, length-append head load))
                    (omega (arith, whole, length-append head load)))
              refl))))
    where
      head : Bytes
      head = header ne v

      load : Bytes
      load = payload ne v

      whole : length (head ++ (load ++ rest)) ≡ length head + length load + length rest
      whole = omega (arith, length-append head (load ++ rest), length-append load rest)

      fits : ltb (length (head ++ (load ++ rest))) (length load + length head) ≡ false
      fits = ground (arith, whole)

      size : extent ne (ctype v) (head ++ (load ++ rest)) ≡ value (length load, length head)
      size = extent_lem v (load ++ rest) small

  pub next_lem :
      (sub : DecodeIter → Outcome Values) (v : Value) (vs : Values)
      → encoded_size v < 2 ^ 32 + 4
      → decode_value ne sub false (ctype v) (payload ne v) (length (payload ne v)) ≡ value (owned v)
      → next ne sub (record { count = count (cons v vs); buff = body ne (cons v vs); lazy = false })
        ≡ value (owned v, record { count = count vs; buff = body ne vs; lazy = false })
  unfolding next body count
  next_lem sub v vs small val =
      let (tail, e) = header-first ne v in
      rw ready (
        bind-eq _
          (ap (λ z. part (z ++ (payload ne v ++ body ne vs)) 0 1) e
            ∙ part_middle [] (to_u8 (ctype v) ∷ []) (tail ++ (payload ne v ++ body ne vs)) 0 1 refl
                refl)
          (bind-eq _ (ap or_return (from_u8-to_u8 (ctype v))) (
            bind-eq _ (take_value_lem sub v (body ne vs) small val) (
              ap (λ n. value (owned v, record { count = n; buff = body ne vs; lazy = false }))
                (omega arith)))))
    where
      ready :
          (ltb (length (header ne v ++ (payload ne v ++ body ne vs))) 5 || suc (count vs) == 0)
          ≡ false
      ready = ground (
        arith,
        length-append (header ne v) (payload ne v ++ body ne vs),
        length-append (payload ne v) (body ne vs),
        length-header-payload ne v,
        four-le-encoded_size v,
      )
