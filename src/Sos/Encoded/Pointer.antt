-- ===== src/Sos/Encoded/Pointer.antt =====
-- Encoded values that another part of the program gets by their address.
use faastr.Common.{
  ◌%◌, ◌^◌, ◌<◌, ◌≡◌, refl, sym, ap, ◌∙◌, true, [], ◌∷◌, ◌++◌, some, arith, length, drop,
  append_assoc, append-nil, length-drop,
}
use faastr.Sos.Bytes.{Bytes, NativeEndian, slice, slice_middle}
use faastr.Sos.Value.{Values, count, encoded_len}
use faastr.Sos.Encode.Wire.{no_iters, wire, body, length-wire}
use faastr.Sos.Encode.Buffer.{bind-eq}
use faastr.Sos.Encode.Correct.{encode_sos_lem}
use faastr.Sos.Decode
use faastr.Sos.Decode.{Outcome, value}
use faastr.Sos.Decode.Parts.{read_size, decode_sos_lem}
use faastr.Sos.Encoded.{decode, from_values, from_ptr}

nil_of_length : (xs : Bytes) → length xs ≡ 0 → xs ≡ []
nil_of_length [] h = refl
nil_of_length (x ∷ xs) h = absurd (omega arith)

module _ (ne : NativeEndian) where
  open ne use {write_u32, length-write_u32}

  from_values_lem :
      (vals : Values) (vec : Bytes)
      → no_iters vals ≡ true
      → length vec ≡ encoded_len vals
      → from_values ne vals vec ≡ some (wire ne vals)
  unfolding from_values
  from_values_lem vals vec w l =
      let (e, _) = encode_sos_lem ne vals vec w (omega (arith, l)) in
      bind-eq _ e (
        ap (λ z. some (wire ne vals ++ z))
          (nil_of_length (drop (encoded_len vals) vec)
            (omega (arith, length-drop (encoded_len vals) vec)))
        ∙ ap some (append-nil (wire ne vals)))

  from_ptr_lem :
      (vals : Values) (rest : Bytes)
      → encoded_len vals < 2 ^ 32
      → from_ptr ne (wire ne vals ++ rest) ≡ some (wire ne vals)
  unfolding from_ptr wire
  from_ptr_lem vals rest small =
      bind-eq (λ size. slice (wire ne vals ++ rest) 0 (ne.read_u32 size))
        (ap (λ z. slice z 4 8)
            (append_assoc head1 (head2 ++ body ne vals) rest
              ∙ ap (λ z. head1 ++ z) (append_assoc head2 (body ne vals) rest))
          ∙ slice_middle head1 head2 (body ne vals ++ rest) 4 8
              (omega (arith, length-write_u32 (count vals % 2 ^ 32)))
              (omega (
                arith,
                length-write_u32 (count vals % 2 ^ 32),
                length-write_u32 (encoded_len vals % 2 ^ 32),
              )))
        (slice_middle [] (wire ne vals) rest 0 (ne.read_u32 head2) refl
          (read_size ne (encoded_len vals) small ∙ omega (arith, length-wire ne vals)))
    where
      head1 : Bytes
      head1 = write_u32 (count vals % 2 ^ 32)

      head2 : Bytes
      head2 = write_u32 (encoded_len vals % 2 ^ 32)

  -- Values that are encoded into a vector, read back by the address of that vector, whatever lies
  -- behind it in memory, are the same bytes, and decoding them yields an iterator over all of
  -- them; for values without an iterator, at least one of them, and shorter than 4 GiB.
  pub from_ptr-from_values :
      (vals : Values) (vec rest : Bytes)
      → no_iters vals ≡ true
      → length vec ≡ encoded_len vals
      → 0 < count vals
      → encoded_len vals < 2 ^ 32
      → (bytes : Bytes) × (from_values ne vals vec ≡ some bytes)
        × (from_ptr ne (bytes ++ rest) ≡ some bytes)
        × (decode ne bytes
            ≡ value (record { count = count vals; buff = body ne vals; lazy = true }))
  unfolding decode
  from_ptr-from_values vals vec rest w l some_value small = (
    wire ne vals,
    from_values_lem vals vec w l,
    from_ptr_lem vals rest small,
    ap (λ z. Decode.decode_sos ne z true) (sym (append-nil (wire ne vals)))
        ∙ decode_sos_lem ne vals [] true some_value small,
  )
