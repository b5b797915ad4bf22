-- ===== src/Sos/Encode/Buffer.antt =====
-- Writes into a buffer whose parts are known.
use faastr.Common.{
  ℕ, suc, ◌+◌, ◌-◌, ◌≤◌, ◌≡◌, refl, sym, ap, ◌∙◌, [], ◌∷◌, ◌++◌, Option, none, some, arith, length,
  take, drop, length-append, append-nil, append_assoc, length-take, length-drop, take-append-drop,
}
use faastr.Sos.Bytes.{Bytes, write_at, copy_from_slice, slice_middle, write_at_middle}
use faastr.Sos.Encode.{within, ◌>>=◌}

-- The two parts of a list, at a place inside it.
pub parts :
    (n : ℕ) (xs : Bytes)
    → n ≤ length xs
    → (front back : Bytes) × (xs ≡ front ++ back)
      × (length front ≡ n)
      × (length back ≡ length xs - n)
parts n xs h = (
  take n xs,
  drop n xs,
  sym (take-append-drop n xs),
  omega (arith, length-take n xs),
  length-drop n xs,
)

pub copy_from_slice_lem :
    (buf bytes : Bytes) → length buf ≡ length bytes → copy_from_slice buf bytes ≡ some bytes
unfolding copy_from_slice
copy_from_slice_lem buf bytes h = ground arith

pub copy_from_slice_ne :
    (buf bytes : Bytes) → (length buf ≡ length bytes → ⊥) → copy_from_slice buf bytes ≡ none
unfolding copy_from_slice
copy_from_slice_ne buf bytes h = ground arith

pub write_at_whole :
    (old bytes : Bytes) → length old ≡ length bytes → write_at old 0 bytes ≡ some bytes
write_at_whole old bytes h =
    ap (λ b. write_at b 0 bytes) (sym (append-nil old))
    ∙ write_at_middle [] old [] bytes 0 refl h
    ∙ ap some (append-nil bytes)

-- A part of the buffer is handed to code that fills it.
pub within_middle :
    (pre old post new : Bytes) (from to : ℕ) (write : Bytes → Option Bytes)
    → from ≡ length pre
    → to ≡ length pre + length old
    → write old ≡ some new
    → length new ≡ length old
    → within (pre ++ (old ++ post)) from to write ≡ some (pre ++ (new ++ post))
within_middle pre old post new from to write p q w l =
    rw (slice_middle pre old post from to p q)
      (rw w (write_at_middle pre old post new from p (sym l)))

-- A single byte behind the first part.
pub write_at_byte :
    (pre post : Bytes) (x c : ℕ) (from : ℕ)
    → from ≡ length pre
    → write_at (pre ++ (x ∷ post)) from (c ∷ []) ≡ some (pre ++ (c ∷ post))
write_at_byte pre post x c from p = write_at_middle pre (x ∷ []) post (c ∷ []) from p refl

pub length-snoc : (pre : Bytes) (c : ℕ) → length (pre ++ c ∷ []) ≡ length pre + 1
length-snoc pre c = omega (arith, length-append pre (c ∷ []))

-- One step of a `do` block.
pub bind-eq {ℓ κ} :
    {A : Type ℓ} {B : Type κ} {m : Option A} {a : A} (f : A → Option B) {r : Option B}
    → m ≡ some a
    → f a ≡ r
    → (m >>= f) ≡ r
bind-eq f e k = ap (λ x. x >>= f) e ∙ k

-- the same two, behind a byte more
pub within_after :
    (pre old post new : Bytes) (c from to : ℕ) (write : Bytes → Option Bytes)
    → from ≡ length pre + 1
    → to ≡ length pre + 1 + length old
    → write old ≡ some new
    → length new ≡ length old
    → within (pre ++ (c ∷ (old ++ post))) from to write ≡ some (pre ++ (c ∷ (new ++ post)))
within_after pre old post new c from to write p q w l =
    ap (λ b. within b from to write) (sym (append_assoc pre (c ∷ []) (old ++ post)))
    ∙ within_middle (pre ++ c ∷ []) old post new from to write (omega (arith, length-snoc pre c))
        (omega (arith, length-snoc pre c)) w l
    ∙ ap some (append_assoc pre (c ∷ []) (new ++ post))

pub write_at_after :
    (pre old post bytes : Bytes) (c from : ℕ)
    → from ≡ length pre + 1
    → length old ≡ length bytes
    → write_at (pre ++ (c ∷ (old ++ post))) from bytes ≡ some (pre ++ (c ∷ (bytes ++ post)))
write_at_after pre old post bytes c from p q =
    ap (λ b. write_at b from bytes) (sym (append_assoc pre (c ∷ []) (old ++ post)))
    ∙ write_at_middle (pre ++ c ∷ []) old post bytes from (omega (arith, length-snoc pre c)) q
    ∙ ap some (append_assoc pre (c ∷ []) (bytes ++ post))

pub singleton : (xs : Bytes) → length xs ≡ 1 → (x : ℕ) × (xs ≡ x ∷ [])
singleton [] h = absurd (omega arith)
singleton (x ∷ []) h = (x, refl)
singleton (x ∷ y ∷ ys) h = absurd (omega arith)

pub uncons :
    (xs : Bytes) {n : ℕ}
    → length xs ≡ suc n
    → (x : ℕ) × (ys : Bytes) × (xs ≡ x ∷ ys) × (length ys ≡ n)
uncons [] h = absurd (omega arith)
uncons (x ∷ xs) h = (x, xs, refl, omega arith)
