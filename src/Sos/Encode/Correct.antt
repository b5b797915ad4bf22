-- ===== src/Sos/Encode/Correct.antt =====
-- `encode_sos` writes the wire format.
use faastr.Common.{
  ◌+◌, ◌%◌, ◌^◌, ◌≤◌, ◌≡◌, refl, sym, ap, ap₂, ◌∙◌, Bool, true, ◌&&◌, [], ◌∷◌, ◌++◌, some, arith,
  length, drop, length-append, append-nil, append_assoc,
}
use faastr.Sos.Bytes.{Bytes, NativeEndian, drop-append}
use faastr.Sos.Value.{
  Value, Values, nil, cons, embedded_out, embedded_in, embedded_vec, count, encoded_len,
}
use faastr.Sos.Encode.{
  within, encode_frame, encode_header, encode_value, encode_loop, encode_sos, buffer_of,
}
use faastr.Sos.Encode.Buffer.{parts, copy_from_slice_lem, write_at_whole, within_middle, bind-eq}
use faastr.Sos.Encode.Wire.{
  no_iter, no_iters, header, payload, body, wire, length-body, length-wire,
}
use faastr.Sos.Encode.Refine.{
  encode_text_lem, encode_function_lem, encode_frame_lem, encode_header_lem,
}

nil_of_length : (xs : Bytes) → length xs ≡ 0 → xs ≡ []
nil_of_length [] h = refl
nil_of_length (x ∷ xs) h = absurd (omega arith)

and_parts : (a b : Bool) → (a && b) ≡ true → (a ≡ true) × (b ≡ true)
and_parts a b h = ground arith

module _ (ne : NativeEndian) where
  open ne use {write_u32, write_u64, length-write_u32, length-write_u64}

  -- the loop, behind anything that is already written
  abbrev LoopWrites : Values → Type 0
  LoopWrites vs =
      (pre room : Bytes)
      → length room ≡ length (body ne vs)
      → encode_loop ne vs (pre ++ room) (length pre)
        ≡ some (pre ++ body ne vs, length pre + length (body ne vs))

  abbrev ValueWrites : Value → Type 0
  ValueWrites v =
      (room : Bytes)
      → length room ≡ length (payload ne v)
      → encode_value ne v room ≡ some (payload ne v)

  frame_wire :
      (vs : Values) (old post : Bytes)
      → LoopWrites vs
      → length old ≡ encoded_len vs
      → encode_frame ne (count vs) (encoded_len vs) (encode_loop ne vs) (old ++ post)
        ≡ some (wire ne vs ++ post, encoded_len vs)
  unfolding wire encoded_len
  frame_wire vs old post loop h =
      encode_frame_lem ne (count vs) (encoded_len vs) (encode_loop ne vs) old post (body ne vs) h
        (omega (arith, length-body ne vs))
        λ room r.
          ap₂ (encode_loop ne vs) (sym (append_assoc head1 head2 room)) (sym eight)
          ∙ loop (head1 ++ head2) room r
          ∙ ap₂ (λ b n. some (b, n)) (append_assoc head1 head2 (body ne vs))
              (omega (arith, eight, length-body ne vs))
    where
      head1 : Bytes
      head1 = write_u32 (count vs % 2 ^ 32)

      head2 : Bytes
      head2 = write_u32 (encoded_len vs % 2 ^ 32)

      eight : length (head1 ++ head2) ≡ 8
      eight = omega (
        arith,
        length-append head1 head2,
        length-write_u32 (count vs % 2 ^ 32),
        length-write_u32 (encoded_len vs % 2 ^ 32),
      )

  embedded_wire :
      (vs : Values)
      → LoopWrites vs
      → (room : Bytes) → length room ≡ length (wire ne vs)
      → buffer_of (encode_frame ne (count vs) (encoded_len vs) (encode_loop ne vs) room)
        ≡ some (wire ne vs)
  embedded_wire vs loop room h =
      bind-eq _
        (ap (encode_frame ne (count vs) (encoded_len vs) (encode_loop ne vs))
            (sym (append-nil room))
          ∙ frame_wire vs room [] loop (h ∙ length-wire ne vs))
        (ap some (append-nil (wire ne vs)))

  cons_writes : (v : Value) (vs : Values) → ValueWrites v → LoopWrites vs → LoopWrites (cons v vs)
  unfolding encode_loop body
  cons_writes v vs value loop pre room h =
      let (oh, back, e, lh, lb) = parts (length head) room (omega (arith, h, whole)) in
      let (op, ob, e2, lp, lo) = parts (length load) back (omega (arith, h, whole, lb)) in
      bind-eq _
        (ap (λ z. encode_header ne v (pre ++ z) (length pre)) (e ∙ ap (λ z. oh ++ z) e2)
          ∙ encode_header_lem ne v pre oh (op ++ ob) lh)
        (bind-eq _ (load_write op ob lp) (
          ap₂ (encode_loop ne vs) (front ob) (sym length-front)
          ∙ loop ((pre ++ head) ++ load) ob (omega (arith, h, whole, lb, lo))
          ∙ ap₂ (λ b n. some (b, n)) (sym (front (body ne vs)))
              (omega (arith, length-front, whole))))
    where
      head : Bytes
      head = header ne v

      load : Bytes
      load = payload ne v

      whole :
          length (head ++ (load ++ body ne vs)) ≡ length head + length load + length (body ne vs)
      whole =
          omega (arith, length-append head (load ++ body ne vs), length-append load (body ne vs))

      front : (xs : Bytes) → pre ++ (head ++ (load ++ xs)) ≡ ((pre ++ head) ++ load) ++ xs
      front xs = sym (append_assoc (pre ++ head) load xs ∙ append_assoc pre head (load ++ xs))

      length-front : length ((pre ++ head) ++ load) ≡ length pre + length head + length load
      length-front = omega (arith, length-append (pre ++ head) load, length-append pre head)

      load_write :
          (op ob : Bytes)
          → length op ≡ length load
          → within
              (pre ++ (head ++ (op ++ ob)))
              (length pre + length head)
              (length pre + length head + length load)
              (encode_value ne v)
            ≡ some (pre ++ (head ++ (load ++ ob)))
      load_write op ob l =
          ap
            (λ b.
              within b (length pre + length head) (length pre + length head + length load)
                (encode_value ne v))
            (sym (append_assoc pre head (op ++ ob)))
          ∙ within_middle (pre ++ head) op ob load _ _ _ (sym (length-append pre head))
              (omega (arith, length-append pre head)) (value op l) (sym l)
          ∙ ap some (append_assoc pre head (load ++ ob))

  mutual
    unfolding encode_value encode_loop payload body no_iter wire

    value_writes : (v : Value) → no_iter v ≡ true → ValueWrites v
    value_writes (Value.int32 i) w room h = write_at_whole room (write_u32 i) h
    value_writes (Value.uint32 i) w room h = write_at_whole room (write_u32 i) h
    value_writes (Value.int64 i) w room h = write_at_whole room (write_u64 i) h
    value_writes (Value.uint64 i) w room h = write_at_whole room (write_u64 i) h
    value_writes (Value.float i) w room h = write_at_whole room (write_u32 i) h
    value_writes (Value.double i) w room h = write_at_whole room (write_u64 i) h
    value_writes (Value.string i) w room h =
        encode_text_lem ne i room (omega (arith, h, length-append i (0 ∷ [])))
    value_writes (Value.error i) w room h =
        encode_text_lem ne i room (omega (arith, h, length-append i (0 ∷ [])))
    value_writes (Value.opaque i) w room h = copy_from_slice_lem room i h
    value_writes (embedded_in i) w room h = embedded_wire i (loop_writes i w) room h
    value_writes (embedded_vec i) w room h = embedded_wire i (loop_writes i w) room h
    value_writes (embedded_out f) w room h = absurd (ground arith)
    value_writes (Value.function f) w room h = encode_function_lem ne f room (
        omega (
          arith,
          h,
          length-append f.module_name (0 ∷ (f.name ++ 0 ∷ [])),
          length-append f.name (0 ∷ []),
        ))

    loop_writes : (vs : Values) → no_iters vs ≡ true → LoopWrites vs
    loop_writes nil w pre room h =
        ap₂ (λ z n. some (pre ++ z, n)) (nil_of_length room h) (omega arith)
    loop_writes (cons v vs) w pre room h =
        let both = and_parts (no_iter v) (no_iters vs) w in
        cons_writes v vs (value_writes v both.0) (loop_writes vs both.1) pre room h

  -- Into any buffer that is large enough, `encode_sos` writes the wire format of the values at the
  -- front, leaves the rest alone, does not panic, and returns the length of what it wrote, which
  -- is `encoded_len`; the values may nest, but hold no iterator over encoded values.
  pub encode_sos_lem :
      (values : Values) (buf : Bytes)
      → no_iters values ≡ true
      → encoded_len values ≤ length buf
      → (encode_sos ne buf values
          ≡ some (wire ne values ++ drop (encoded_len values) buf, encoded_len values))
        × (length (wire ne values) ≡ encoded_len values)
  unfolding encode_sos
  encode_sos_lem values buf w h =
      let (front, back, e, lf, lb) = parts (encoded_len values) buf h in
      (
        ap (encode_frame ne (count values) (encoded_len values) (encode_loop ne values)) e
            ∙ frame_wire values front back (loop_writes values w) lf
            ∙ ap (λ z. some (wire ne values ++ z, encoded_len values))
                (sym (ap₂ drop (sym lf) e ∙ drop-append front back)),
        length-wire ne values,
      )
