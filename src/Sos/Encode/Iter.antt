-- ===== src/Sos/Encode/Iter.antt =====
-- What becomes of a `DecodeIter` that is encoded again.
use faastr.Common.{
  ℕ, ◌+◌, ◌-◌, ◌%◌, ◌^◌, ◌≤◌, ◌≡◌, refl, sym, ap, ◌∙◌, ◌||◌, Bool, true, false, [], ◌++◌, Option,
  none, some, arith, ltb, leb, if◌then◌else◌, length, take, drop, length-append, length-take,
  length-drop, append_assoc, append-nil,
}
use faastr.Sos.Bytes.{Bytes, NativeEndian, slice, write_at, copy_from_slice, write_at_middle}
use faastr.Sos.Value.{
  DecodeIter, Values, cons, embedded_out, encoded_size, encoded_len, ctype, fixed_size,
}
use faastr.Sos.Encode.{
  ◌>>=◌, encode_sos, encode_iter, encode_loop, encode_frame, encode_header, encode_value, within,
}
use faastr.Sos.Encode.Buffer.{
  bind-eq, copy_from_slice_ne, copy_from_slice_lem, parts, within_middle,
}
use faastr.Sos.Decode.Parts
use faastr.Sos.Decode.{Outcome, nothing, decode_sos}

slice-length :
    (buf : Bytes) (from to : ℕ) {b : Bytes}
    → slice buf from to ≡ some b
    → (from ≤ to) × (to ≤ length buf) × (length b ≡ to - from)
unfolding slice
slice-length buf from to e =
    ground (arith, length-take (to - from) (drop from buf), length-drop from buf)

write_at-length :
    (buf bytes : Bytes) (from : ℕ) {b : Bytes}
    → write_at buf from bytes ≡ some b
    → length b ≡ length buf
unfolding write_at
write_at-length buf bytes from e = ground (
  arith,
  length-append (take from buf) (bytes ++ drop (from + length bytes) buf),
  length-append bytes (drop (from + length bytes) buf),
  length-take from buf,
  length-drop (from + length bytes) buf,
)

bind-none {ℓ κ} :
    {A : Type ℓ} {B : Type κ} (m : Option A) (f : A → Option B)
    → ((a : A) → m ≡ some a → f a ≡ none)
    → (m >>= f) ≡ none
bind-none none f h = refl
bind-none (some a) f h = h a refl

if-none : {A : Type 0} (b : Bool) {m : Option A} → m ≡ none → (if b then none else m) ≡ none
if-none true e = refl
if-none false e = e

if-nothing :
    {A : Type 0} (b : Bool) {m : Outcome A} → m ≡ nothing → (if b then nothing else m) ≡ nothing
if-nothing true e = refl
if-nothing false e = e

module _ (ne : NativeEndian) where
  open ne use {write_u32, read_u32, length-write_u32, read-write_u32}

  -- `DecodeIter::encode` fits no buffer of the length of the encoded values alone.
  encode_iter_short :
      (f : DecodeIter) (w : Bytes) → length w ≡ length f.buff → encode_iter ne f w ≡ none
  unfolding encode_iter
  encode_iter_short f w l = bind-none (write_at w 0 _) _ λ a ea.
      bind-none (write_at a 4 _) _ λ b eb. bind-none (slice b 8 (length b)) _ λ c ec.
        let lb = slice-length b 8 (length b) ec in
        rw (
          copy_from_slice_ne c f.buff
            (λ e. omega (arith, l, write_at-length w _ 0 ea, write_at-length a _ 4 eb, lb)))

  header_rest :
      (f : DecodeIter) (buf : Bytes) (c : ℕ) {h : Bytes × ℕ × ℕ}
      → encode_header ne (embedded_out f) buf c ≡ some h
      → h.2 ≡ length f.buff
  unfolding encode_header ctype fixed_size encoded_size
  header_rest f buf c e = ground arith

  loop_embedded_out :
      (f : DecodeIter) (vs : Values) (buf : Bytes) (c : ℕ)
      → encode_loop ne (cons (embedded_out f) vs) buf c ≡ none
  unfolding encode_loop encode_value
  loop_embedded_out f vs buf c = bind-none (encode_header ne (embedded_out f) buf c) _ λ h eh.
      bind-none (within h.0 h.1 (h.1 + h.2) (encode_iter ne f)) _ λ b eb. absurd (
        some_ne_none (
          sym eb
          ∙ bind-none (slice h.0 h.1 (h.1 + h.2)) _ λ w ew. rw (
              encode_iter_short f w
                (omega (arith, slice-length h.0 h.1 (h.1 + h.2) ew, header_rest f buf c eh)))))
    where
      some_ne_none : {A : Type 0} {a : A} → some a ≡ none → ⊥
      some_ne_none e = cc

  -- An iterator among the values that are encoded makes `encode_sos` panic, in any buffer: its
  -- `encoded_size` leaves out the eight bytes of the header that its `encode` writes.
  pub encode_sos_embedded_out :
      (f : DecodeIter) (vs : Values) (buf : Bytes)
      → encode_sos ne buf (cons (embedded_out f) vs) ≡ none
  unfolding encode_sos encode_frame
  encode_sos_embedded_out f vs buf =
      if-none (ltb (length buf) (encoded_len (cons (embedded_out f) vs))) (
        bind-none (write_at (take (encoded_len (cons (embedded_out f) vs)) buf) 0 _) _
          λ a _. bind-none (write_at a 4 _) _ λ b _. rw (loop_embedded_out f vs b 8))

  zero_size :
      (head rest : Bytes) (lazy : Bool)
      → length head ≡ 4
      → decode_sos ne (head ++ (write_u32 0 ++ rest)) lazy ≡ nothing
  unfolding decode_sos
  zero_size head rest lazy h = if-nothing (leb (length (head ++ (write_u32 0 ++ rest))) 8) (
      Parts.bind-eq _ (Parts.part_middle [] head (write_u32 0 ++ rest) 0 4 refl (omega arith)) (
        Parts.bind-eq _
          (Parts.part_middle head (write_u32 0) rest 4 8 (omega arith)
            (omega (arith, length-write_u32 0)))
          (rw small refl)))
    where
      small :
          (ltb (length (head ++ (write_u32 0 ++ rest))) (read_u32 (write_u32 0))
            || ltb (read_u32 (write_u32 0)) 8)
          ≡ true
      small = ground (arith, read-write_u32 0 (omega arith))

  -- What `DecodeIter::encode` writes into a buffer of its `encoded_len` is refused by
  -- `decode_sos`: the size in its header is 0.
  pub decode_sos-encode_iter :
      (f : DecodeIter) (buf : Bytes) (lazy : Bool)
      → length buf ≡ length f.buff + 8
      → (buf' : Bytes) × (encode_iter ne f buf ≡ some buf') × (decode_sos ne buf' lazy ≡ nothing)
  unfolding encode_iter
  decode_sos-encode_iter f buf lazy l =
      let (o1, r1, e1, l1, m1) = parts 4 buf (omega arith) in
      let (o2, r2, e2, l2, m2) = parts 4 r1 (omega arith) in
      let w1 = write_u32 (f.count % 2 ^ 32) in
      let k1 = length-write_u32 (f.count % 2 ^ 32) in
      (
        w1 ++ (write_u32 0 ++ f.buff),
        bind-eq _
            (ap (λ b. write_at b 0 w1) (e1 ∙ ap (λ b. o1 ++ b) e2)
              ∙ write_at_middle [] o1 (o2 ++ r2) w1 0 refl (omega arith))
            (bind-eq _
              (write_at_middle w1 o2 r2 (write_u32 0) 4 (omega arith)
                (omega (arith, length-write_u32 0)))
              (tail w1 r2 f.buff (omega arith) (omega (arith, l2, m1, m2, l)))),
        zero_size w1 f.buff lazy (length-write_u32 _),
      )
    where
      tail :
          (w old new : Bytes)
          → length w ≡ 4
          → length old ≡ length new
          → within
              (w ++ (write_u32 0 ++ old))
              8
              (length (w ++ (write_u32 0 ++ old)))
              (λ rest. copy_from_slice rest new)
            ≡ some (w ++ (write_u32 0 ++ new))
      tail w old new k e =
          ap (λ b. within b 8 (length b) (λ rest. copy_from_slice rest new))
            (sym (append_assoc w (write_u32 0) old)
              ∙ ap (λ b. (w ++ write_u32 0) ++ b) (sym (append-nil old)))
          ∙ within_middle (w ++ write_u32 0) old [] new 8 _ _
              (omega (arith, length-append w (write_u32 0), length-write_u32 0))
              (omega (arith, length-append (w ++ write_u32 0) (old ++ []), length-append old []))
              (copy_from_slice_lem old new e) (sym e)
          ∙ ap some (
              append_assoc w (write_u32 0) (new ++ [])
              ∙ ap (λ b. w ++ (write_u32 0 ++ b)) (append-nil new))
