-- ===== src/Sos/Bytes.antt =====
-- Byte slices of sos-rs/src/lib.rs. A slice expression or a copy that Rust refuses is `none`, a
-- panic. The byte order is that of the crate `byteorder`, a parameter with its documented laws.
use faastr.Common.{
  ℕ, suc, ◌+◌, ◌-◌, ◌<◌, ◌^◌, ◌≡◌, refl, ap, ap₂, ◌∙◌, ◌||◌, List, [], ◌∷◌, ◌++◌, Option, none,
  some, arith, ltb, ◌==◌, if◌then◌else◌, length, take, drop, length-append,
}

abbrev pub Bytes : Type 0
Bytes = List ℕ

-- `byteorder::NativeEndian`. The signed and the floating-point functions are these at the bit
-- pattern of their argument.
pub record NativeEndian : Type 0 where
  pub write_u32 : ℕ → Bytes
  pub read_u32 : Bytes → ℕ
  pub write_u64 : ℕ → Bytes
  pub read_u64 : Bytes → ℕ
  pub length-write_u32 : (n : ℕ) → length (write_u32 n) ≡ 4
  pub length-write_u64 : (n : ℕ) → length (write_u64 n) ≡ 8
  pub read-write_u32 : (n : ℕ) → n < 2 ^ 32 → read_u32 (write_u32 n) ≡ n
  pub read-write_u64 : (n : ℕ) → n < 2 ^ 64 → read_u64 (write_u64 n) ≡ n

-- `buf[from..to]`
unfoldable pub slice : Bytes → ℕ → ℕ → Option Bytes
slice buf from to =
    if ltb to from || ltb (length buf) to then none else some (take (to - from) (drop from buf))

-- `buf[from..from + bytes.len()].copy_from_slice(bytes)`
unfoldable pub write_at : Bytes → ℕ → Bytes → Option Bytes
write_at buf from bytes =
    if ltb (length buf) (from + length bytes)
    then none
    else some (take from buf ++ (bytes ++ drop (from + length bytes) buf))

-- `buf.copy_from_slice(bytes)`: the lengths must agree.
unfoldable pub copy_from_slice : Bytes → Bytes → Option Bytes
copy_from_slice buf bytes = if length buf == length bytes then some bytes else none

pub take-append : (xs ys : Bytes) → take (length xs) (xs ++ ys) ≡ xs
take-append [] ys = refl
take-append (x ∷ xs) ys = ap (◌∷◌ x) (take-append xs ys)

pub drop-append : (xs ys : Bytes) → drop (length xs) (xs ++ ys) ≡ ys
drop-append [] ys = refl
drop-append (x ∷ xs) ys = drop-append xs ys

add_suc_left : (m n : ℕ) → suc m + n ≡ suc (m + n)
add_suc_left m n = omega arith

pub drop-append_add : (xs ys : Bytes) (n : ℕ) → drop (length xs + n) (xs ++ ys) ≡ drop n ys
drop-append_add [] ys n = ap (λ k. drop k ys) (omega arith)
drop-append_add (x ∷ xs) ys n =
    ap (λ k. drop k (x ∷ (xs ++ ys))) (add_suc_left (length xs) n) ∙ drop-append_add xs ys n

-- The part `mid` of `pre ++ mid ++ post`.
pub slice_middle :
    (pre mid post : Bytes) (from to : ℕ)
    → from ≡ length pre
    → to ≡ length pre + length mid
    → slice (pre ++ (mid ++ post)) from to ≡ some mid
unfolding slice
slice_middle pre mid post from to p q =
    ground (arith, length-append pre (mid ++ post), length-append mid post, part)
  where
    part : take (to - from) (drop from (pre ++ (mid ++ post))) ≡ mid
    part =
        ap₂ (λ n m. take n (drop m (pre ++ (mid ++ post)))) (omega arith) p
        ∙ ap (take (length mid)) (drop-append pre (mid ++ post))
        ∙ take-append mid post

pub write_at_middle :
    (pre old post bytes : Bytes) (from : ℕ)
    → from ≡ length pre
    → length old ≡ length bytes
    → write_at (pre ++ (old ++ post)) from bytes ≡ some (pre ++ (bytes ++ post))
unfolding write_at
write_at_middle pre old post bytes from p q =
    ground (arith, length-append pre (old ++ post), length-append old post, front, back)
  where
    front : take from (pre ++ (old ++ post)) ≡ pre
    front = ap (λ n. take n (pre ++ (old ++ post))) p ∙ take-append pre (old ++ post)

    back : drop (from + length bytes) (pre ++ (old ++ post)) ≡ post
    back =
        ap (λ n. drop n (pre ++ (old ++ post))) (omega arith)
        ∙ drop-append_add pre (old ++ post) (length old)
        ∙ drop-append old post
