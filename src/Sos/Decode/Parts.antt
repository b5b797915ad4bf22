-- ===== src/Sos/Decode/Parts.antt =====
-- The pieces of `decode_sos` and of `DecodeIter::next` on a buffer whose parts are known.
use faastr.Common.{
  ℕ, ◌+◌, ◌%◌, ◌^◌, ◌<◌, ◌≡◌, refl, sym, ap, ◌∙◌, ◌||◌, Bool, true, false, [], ◌∷◌, ◌++◌, none,
  some, arith, ltb, leb, length, append-nil, append_assoc, length-append,
}
use faastr.Sos.Bytes.{Bytes, NativeEndian, slice, slice_middle}
use faastr.Sos.Utf8.{from_utf8, is_utf8}
use faastr.Sos.Value.{Function, Value, Values, CType, count, encoded_len, to_u8, from_u8}
use faastr.Sos.Encode.Wire.{body, wire, length-body}
use faastr.Sos.Decode.{
  Outcome, value, ◌>>=◌, part, or_return, position, without_last, decode_sos, decode_function,
  decode_text,
}

pub bind-eq :
    {A B : Type 0} {m : Outcome A} {a : A} (f : A → Outcome B) {r : Outcome B}
    → m ≡ value a
    → f a ≡ r
    → (m >>= f) ≡ r
bind-eq f e k = ap (λ x. x >>= f) e ∙ k

part_eq :
    (buf : Bytes) (from to : ℕ) {b : Bytes}
    → slice buf from to ≡ some b
    → part buf from to ≡ value b
part_eq buf from to e = rw (e, part)

pub part_middle :
    (pre mid post : Bytes) (from to : ℕ)
    → from ≡ length pre
    → to ≡ length pre + length mid
    → part (pre ++ (mid ++ post)) from to ≡ value mid
part_middle pre mid post from to p q = part_eq _ from to (slice_middle pre mid post from to p q)

-- the last part of a list
pub part_end :
    (pre mid : Bytes) (from to : ℕ)
    → from ≡ length pre
    → to ≡ length pre + length mid
    → part (pre ++ mid) from to ≡ value mid
part_end pre mid from to p q =
    ap (λ z. part (pre ++ z) from to) (sym (append-nil mid)) ∙ part_middle pre mid [] from to p q

pub part_whole : (mid : Bytes) (to : ℕ) → to ≡ length mid → part mid 0 to ≡ value mid
part_whole mid to q = part_end [] mid 0 to refl (omega arith)

from_utf8_lem : (s : Bytes) → is_utf8 s ≡ true → from_utf8 s ≡ some s
unfolding from_utf8
from_utf8_lem s h = rw h

pub from_u8-to_u8 : (t : CType) → from_u8 (to_u8 t) ≡ some t
unfolding from_u8 to_u8
from_u8-to_u8 CType.invalid = refl
from_u8-to_u8 _ = refl

position-append :
    (xs ys : Bytes) → position xs ≡ none → position (xs ++ (0 ∷ ys)) ≡ some (length xs)
unfolding position
position-append [] ys h = refl
position-append (x ∷ xs) ys h = ground (arith, position-append xs ys)

module _ (ne : NativeEndian) where
  open ne use {
    write_u32, write_u64, read_u32, read_u64, length-write_u32, length-write_u64, read-write_u32,
    read-write_u64,
  }

  pub read_size : (n : ℕ) → n < 2 ^ 32 → read_u32 (write_u32 (n % 2 ^ 32)) ≡ n
  read_size n h = read-write_u32 (n % 2 ^ 32) (omega arith) ∙ omega arith

  decode_parts :
      (head1 head2 bytes rest : Bytes) (lazy : Bool)
      → length head1 ≡ 4
      → length head2 ≡ 4
      → 0 < length bytes
      → read_u32 head2 ≡ 8 + length bytes
      → decode_sos ne (head1 ++ (head2 ++ (bytes ++ rest))) lazy
        ≡ value (record { count = read_u32 head1; buff = bytes; lazy = lazy })
  unfolding decode_sos
  decode_parts head1 head2 bytes rest lazy h1 h2 some_byte size = rw long (
      bind-eq _ (part_middle [] head1 (head2 ++ (bytes ++ rest)) 0 4 refl (omega arith)) (
        bind-eq _ (part_middle head1 head2 (bytes ++ rest) 4 8 (omega arith) (omega arith)) (
          rw fits (
            bind-eq _
              (ap (λ z. part z 8 (read_u32 head2)) (sym (append_assoc head1 head2 (bytes ++ rest)))
                ∙ part_middle (head1 ++ head2) bytes rest 8 (read_u32 head2)
                    (omega (arith, length-append head1 head2))
                    (omega (arith, length-append head1 head2, size)))
              refl))))
    where
      whole :
          length (head1 ++ (head2 ++ (bytes ++ rest)))
          ≡ length head1 + (length head2 + (length bytes + length rest))
      whole = omega (
        arith,
        length-append head1 (head2 ++ (bytes ++ rest)),
        length-append head2 (bytes ++ rest),
        length-append bytes rest,
      )

      long : leb (length (head1 ++ (head2 ++ (bytes ++ rest)))) 8 ≡ false
      long = ground (arith, whole)

      fits :
          (ltb (length (head1 ++ (head2 ++ (bytes ++ rest)))) (read_u32 head2)
            || ltb (read_u32 head2) 8)
          ≡ false
      fits = ground (arith, whole, size)

  pub decode_sos_lem :
      (vs : Values) (rest : Bytes) (lazy : Bool)
      → 0 < count vs
      → encoded_len vs < 2 ^ 32
      → decode_sos ne (wire ne vs ++ rest) lazy
        ≡ value (record { count = count vs; buff = body ne vs; lazy = lazy })
  unfolding wire encoded_len
  decode_sos_lem vs rest lazy some_value small =
      ap (λ z. decode_sos ne z lazy)
        (append_assoc head1 (head2 ++ body ne vs) rest
          ∙ ap (λ z. head1 ++ z) (append_assoc head2 (body ne vs) rest))
      ∙ decode_parts head1 head2 (body ne vs) rest lazy (length-write_u32 _) (length-write_u32 _)
          (omega (arith, length-body ne vs))
          (read_size (encoded_len vs) small ∙ omega (arith, length-body ne vs))
      ∙ ap (λ n. value (record { count = n; buff = body ne vs; lazy = lazy }))
          (read_size (count vs) (omega arith))
    where
      head1 : Bytes
      head1 = write_u32 (count vs % 2 ^ 32)

      head2 : Bytes
      head2 = write_u32 (encoded_len vs % 2 ^ 32)

  without_last_lem : (s : Bytes) → without_last (s ++ 0 ∷ []) (length (s ++ 0 ∷ [])) ≡ value s
  without_last_lem s = part_middle [] s (0 ∷ []) 0 _ refl (ground (arith, length-append s (0 ∷ [])))

  pub decode_text_lem :
      (wrap : Bytes → Value) (s : Bytes)
      → is_utf8 s ≡ true
      → decode_text ne wrap (s ++ 0 ∷ []) (length (s ++ 0 ∷ [])) ≡ value (wrap s)
  unfolding decode_text
  decode_text_lem wrap s u =
      bind-eq _ (without_last_lem s) (bind-eq _ (ap or_return (from_utf8_lem s u)) refl)

  pub decode_function_lem :
      (f : Function)
      → is_utf8 f.module_name ≡ true
      → is_utf8 f.name ≡ true
      → position f.module_name ≡ none
      → let bytes = f.module_name ++ (0 ∷ (f.name ++ 0 ∷ [])) in
        decode_function ne bytes (length bytes) ≡ value (Value.function f)
  unfolding decode_function
  decode_function_lem f u w p =
      bind-eq _
        (ap (λ z. without_last z (length z))
            (sym (append_assoc f.module_name (0 ∷ f.name) (0 ∷ [])))
          ∙ without_last_lem (f.module_name ++ (0 ∷ f.name)))
        (bind-eq _ (ap or_return (position-append f.module_name f.name p)) (
          bind-eq _
            (part_middle [] f.module_name (0 ∷ f.name) 0 (length f.module_name) refl (omega arith))
            (bind-eq _ (ap or_return (from_utf8_lem f.module_name u)) (
              bind-eq _
                (ap
                    (λ z.
                      part z (length f.module_name + 1) (length (f.module_name ++ (0 ∷ f.name))))
                    (sym (append_assoc f.module_name (0 ∷ []) f.name))
                  ∙ part_end (f.module_name ++ 0 ∷ []) f.name _ _
                      (omega (arith, length-append f.module_name (0 ∷ [])))
                      (omega (
                        arith,
                        length-append f.module_name (0 ∷ []),
                        length-append f.module_name (0 ∷ f.name),
                      )))
                (bind-eq _ (ap or_return (from_utf8_lem f.name w)) refl)))))
