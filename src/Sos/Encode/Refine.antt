-- ===== src/Sos/Encode/Refine.antt =====
-- What the parts of `encode_sos` write into a buffer of the right length.
use faastr.Common.{
  ℕ, suc, ◌+◌, ◌-◌, ◌%◌, ◌^◌, ◌≡◌, refl, sym, ap, ap₂, ◌∙◌, inl, inr, false, [], ◌∷◌, ◌++◌, Option,
  none, some, arith, length, take, drop, length-append, append_assoc, Option-cases, ltb,
}
use faastr.Sos.Bytes.{Bytes, NativeEndian, write_at, write_at_middle, take-append, drop-append}
use faastr.Sos.Value.{Function, Value, encoded_size, ctype, to_u8, fixed_size}
use faastr.Sos.Encode.{encode_text, encode_function, encode_frame, encode_header}
use faastr.Sos.Encode.Buffer.{
  parts, copy_from_slice_lem, within_middle, write_at_byte, length-snoc, bind-eq, within_after,
  write_at_after, singleton, uncons,
}
use faastr.Sos.Encode.Wire.{header, payload, length-header-payload, header_fixed, header_sized}

module _ (ne : NativeEndian) where
  open ne use {write_u32, write_u64, length-write_u32, length-write_u64}

  encode_text_parts :
      (text front : Bytes) (x : ℕ)
      → length front ≡ length text
      → encode_text ne text (front ++ x ∷ []) ≡ some (text ++ 0 ∷ [])
  unfolding encode_text
  encode_text_parts text front x h =
      bind-eq (λ a. write_at a (length (front ++ x ∷ []) - 1) (0 ∷ []))
        (within_middle [] front (x ∷ []) text 0 (length (front ++ x ∷ []) - 1) _ refl
          (omega (arith, length-snoc front x)) (copy_from_slice_lem front text h) (sym h))
        (write_at_byte text [] x 0 _ (omega (arith, length-snoc front x)))

  pub encode_text_lem :
      (text old : Bytes)
      → length old ≡ length text + 1
      → encode_text ne text old ≡ some (text ++ 0 ∷ [])
  encode_text_lem text old h =
      let (front, back, e, lf, lb) = parts (length text) old (omega arith) in
      let (x, b) = singleton back (omega (arith, lb)) in
      ap (encode_text ne text) (e ∙ ap (λ y. front ++ y) b) ∙ encode_text_parts text front x lf

  encode_function_parts :
      (f : Function) (m n : Bytes) (x y : ℕ)
      → length m ≡ length f.module_name
      → length n ≡ length f.name
      → encode_function ne f (m ++ (x ∷ (n ++ y ∷ [])))
        ≡ some (f.module_name ++ (0 ∷ (f.name ++ 0 ∷ [])))
  unfolding encode_function
  encode_function_parts f m n x y p q =
      bind-eq _
        (within_middle [] m (x ∷ (n ++ y ∷ [])) f.module_name 0 (length f.module_name) _ refl
          (omega arith) (copy_from_slice_lem m f.module_name p) (sym p))
        (bind-eq _ (write_at_byte f.module_name (n ++ y ∷ []) x 0 (length f.module_name) refl) (
          bind-eq _
            (within_after f.module_name n (y ∷ []) f.name 0 (1 + length f.module_name) last _
              (omega arith) (omega (arith, whole)) (copy_from_slice_lem n f.name q) (sym q))
            (ap (λ b. write_at b last (0 ∷ []))
                (sym (append_assoc f.module_name (0 ∷ f.name) (y ∷ [])))
              ∙ write_at_byte (f.module_name ++ (0 ∷ f.name)) [] y 0 last
                  (omega (arith, whole, length-append f.module_name (0 ∷ f.name)))
              ∙ ap some (append_assoc f.module_name (0 ∷ f.name) (0 ∷ [])))))
    where
      last : ℕ
      last = length (m ++ (x ∷ (n ++ y ∷ []))) - 1

      whole : last ≡ length f.module_name + 1 + length f.name
      whole = omega (arith, length-append m (x ∷ (n ++ y ∷ [])), length-append n (y ∷ []))

  pub encode_function_lem :
      (f : Function) (old : Bytes)
      → length old ≡ length f.module_name + length f.name + 2
      → encode_function ne f old ≡ some (f.module_name ++ (0 ∷ (f.name ++ 0 ∷ [])))
  encode_function_lem f old h =
      let (m, back, e, lm, lb) = parts (length f.module_name) old (omega arith) in
      let (x, back', e', lb') = uncons back {n = length f.name + 1} (omega (arith, lb)) in
      let (n, back2, e2, ln, lb2) = parts (length f.name) back' (omega (arith, lb')) in
      let (y, e3) = singleton back2 (omega (arith, lb2, lb')) in
      ap (encode_function ne f) (e ∙ ap (λ z. m ++ z) (e' ∙ ap (◌∷◌ x) (e2 ∙ ap (λ z. n ++ z) e3)))
      ∙ encode_function_parts f m n x y lm ln

  pub encode_frame_lem :
      (n len : ℕ) (loop : Bytes → ℕ → Option (Bytes × ℕ)) (old post bytes : Bytes)
      → length old ≡ len
      → len ≡ 8 + length bytes
      → ((room : Bytes)
          → length room ≡ length bytes
          → loop (write_u32 (n % 2 ^ 32) ++ (write_u32 (len % 2 ^ 32) ++ room)) 8
            ≡ some (write_u32 (n % 2 ^ 32) ++ (write_u32 (len % 2 ^ 32) ++ bytes), len))
      → encode_frame ne n len loop (old ++ post)
        ≡ some ((write_u32 (n % 2 ^ 32) ++ (write_u32 (len % 2 ^ 32) ++ bytes)) ++ post, len)
  unfolding encode_frame
  encode_frame_lem n len loop old post bytes l b run =
      let (o1, back, e, l1, lb) = parts 4 old (omega arith) in
      let (o2, room, e2, l2, lr) = parts 4 back (omega arith) in
      rw fits (
        bind-eq _
          (ap (λ z. write_at z 0 head1) (front ∙ e ∙ ap (λ z. o1 ++ z) e2)
            ∙ write_at_middle [] o1 (o2 ++ room) head1 0 refl
                (omega (arith, length-write_u32 (n % 2 ^ 32))))
          (bind-eq _
            (write_at_middle head1 o2 room head2 4 (sym (length-write_u32 (n % 2 ^ 32)))
              (omega (arith, length-write_u32 (len % 2 ^ 32))))
            (bind-eq _ (run room (omega arith))
              (ap (λ d. some ((head1 ++ (head2 ++ bytes)) ++ d, len)) behind))))
    where
      head1 : Bytes
      head1 = write_u32 (n % 2 ^ 32)

      head2 : Bytes
      head2 = write_u32 (len % 2 ^ 32)

      fits : ltb (length (old ++ post)) len ≡ false
      fits = ground (arith, length-append old post)

      front : take len (old ++ post) ≡ old
      front = ap (λ k. take k (old ++ post)) (sym l) ∙ take-append old post

      behind : drop len (old ++ post) ≡ post
      behind = ap (λ k. drop k (old ++ post)) (sym l) ∙ drop-append old post

  encode_header_fixed :
      (v : Value) (buf a : Bytes) (coffset : ℕ) {n : ℕ}
      → fixed_size (ctype v) ≡ some n
      → write_at buf coffset (to_u8 (ctype v) ∷ []) ≡ some a
      → encode_header ne v buf coffset ≡ some (a, coffset + 1, encoded_size v)
  unfolding encode_header
  encode_header_fixed v buf a coffset e w = rw w (rw e)

  encode_header_sized :
      (v : Value) (buf a b : Bytes) (coffset : ℕ)
      → fixed_size (ctype v) ≡ none
      → write_at buf coffset (to_u8 (ctype v) ∷ []) ≡ some a
      → write_at a (coffset + 1) (write_u32 ((encoded_size v - 4) % 2 ^ 32)) ≡ some b
      → encode_header ne v buf coffset ≡ some (b, coffset + 5, encoded_size v - 4)
  unfolding encode_header
  encode_header_sized v buf a b coffset e w x = rw w (rw e (rw x))

  pub encode_header_lem :
      (v : Value) (pre old post : Bytes)
      → length old ≡ length (header ne v)
      → encode_header ne v (pre ++ (old ++ post)) (length pre)
        ≡ some
            (pre ++ (header ne v ++ post), length pre + length (header ne v), length (payload ne v))
  encode_header_lem v pre old post h = elim (Option-cases (fixed_size (ctype v))) [
    | inr (n, e) ↦
        let head = header_fixed ne v e in
        let (x, o) = singleton old (h ∙ ap length head) in
        rw head (
          ap (λ z. encode_header ne v (pre ++ (z ++ post)) (length pre)) o
          ∙ encode_header_fixed v (pre ++ (x ∷ post)) (pre ++ (to_u8 (ctype v) ∷ post)) (length pre)
              e (write_at_byte pre post x (to_u8 (ctype v)) (length pre) refl)
          ∙ ap (λ k. some (pre ++ (to_u8 (ctype v) ∷ post), length pre + 1, k))
              (omega (arith, ap length head, length-header-payload ne v)))
    | inl e ↦
        let head = header_sized ne v e in
        let size = write_u32 ((encoded_size v - 4) % 2 ^ 32) in
        let four : length size ≡ 4 = length-write_u32 _ in
        let (x, rest, o, lr) = uncons old {n = 4} (h ∙ ap length head ∙ ap suc four) in
        rw head (
          ap (λ z. encode_header ne v (pre ++ (z ++ post)) (length pre)) o
          ∙ encode_header_sized v (pre ++ (x ∷ (rest ++ post)))
              (pre ++ (to_u8 (ctype v) ∷ (rest ++ post)))
              (pre ++ (to_u8 (ctype v) ∷ (size ++ post))) (length pre) e
              (write_at_byte pre (rest ++ post) x (to_u8 (ctype v)) (length pre) refl)
              (write_at_after pre rest post size (to_u8 (ctype v)) (length pre + 1) refl
                (omega arith))
          ∙ ap₂ (λ j k. some (pre ++ (to_u8 (ctype v) ∷ (size ++ post)), j, k))
              (omega (arith, ap length head))
              (omega (arith, ap length head, length-header-payload ne v)))
  ]
