-- ===== src/Paging/Entry/Fields.antt =====
-- The fields of an entry: what each write does to the frame, to the flags and to the counter.
use Prim.Native.Nat.{bit_or}
use faastr.Common.{
  ℕ, ◌+◌, ◌*◌, ◌/◌, ◌%◌, ◌^◌, ◌<◌, ◌≡◌, refl, ap, ap₂, ◌∙◌, true, false, some, none, arith,
}
use faastr.Common.Bits.{bit_or_split, bit_or-zero, zero-bit_or}
use faastr.Paging.Entry.{
  set, set_counter_bits, counter_bits, flags, address, pointed_frame, is_unused, set_unused,
  is_present,
}

-- Nothing but the ten flags.
abbrev pub IsFlags : ℕ → Type 0
IsFlags f = f ≡ f % 512 + f / 2 ^ 63 % 2 * 2 ^ 63

or_flags :
    (frame low nx : ℕ)
    → frame < 2 ^ 40
    → low < 512
    → bit_or (frame * 4096) (low + nx * 2 ^ 63) ≡ low + frame * 4096 + nx * 2 ^ 63
or_flags frame low nx p q =
    let words : bit_or (frame * 2 ^ 12 + 0) (nx * 2 ^ 51 * 2 ^ 12 + low)
        ≡ bit_or (frame * 4096) (low + nx * 2 ^ 63) =
      ap₂ bit_or (omega arith) (omega arith) in
    let high : bit_or (0 * 2 ^ 51 + frame) (nx * 2 ^ 51 + 0) ≡ bit_or frame (nx * 2 ^ 51) =
      ap₂ bit_or (omega arith) (omega arith) in
    omega (
      arith,
      words,
      high,
      bit_or_split 12 frame (nx * 2 ^ 51) 0 low (omega arith) (omega arith),
      bit_or_split 51 0 nx frame 0 (omega arith) (omega arith),
      bit_or-zero frame,
      zero-bit_or nx,
      zero-bit_or low,
    )

or_counter :
    (word nx counter : ℕ)
    → word < 2 ^ 52
    → counter < 1024
    → bit_or (word + nx * 2 ^ 63) (counter * 2 ^ 52) ≡ word + counter * 2 ^ 52 + nx * 2 ^ 63
or_counter word nx counter p q =
    let words : bit_or (nx * 2 ^ 11 * 2 ^ 52 + word) (counter * 2 ^ 52 + 0)
        ≡ bit_or (word + nx * 2 ^ 63) (counter * 2 ^ 52) =
      ap₂ bit_or (omega arith) (omega arith) in
    let high : bit_or (nx * 2 ^ 11 + 0) (0 * 2 ^ 11 + counter) ≡ bit_or (nx * 2 ^ 11) counter =
      ap₂ bit_or (omega arith) (omega arith) in
    omega (
      arith,
      words,
      high,
      bit_or_split 52 (nx * 2 ^ 11) counter word 0 (omega arith) (omega arith),
      bit_or_split 11 nx 0 0 counter (omega arith) (omega arith),
      bit_or-zero word,
      bit_or-zero nx,
      zero-bit_or counter,
    )

-- What `set` writes, field by field.
pub set_lem :
    (frame f e : ℕ)
    → frame < 2 ^ 40
    → IsFlags f
    → set frame f e ≡ f + frame * 4096 + e / 2 ^ 52 % 1024 * 2 ^ 52
unfolding set
set_lem frame f e p q =
    let low = f % 512 in
    let nx = f / 2 ^ 63 % 2 in
    let inner : bit_or (frame * 4096 % 2 ^ 64) f ≡ bit_or (frame * 4096) (low + nx * 2 ^ 63) =
      ap₂ bit_or (omega arith) q in
    let outer : bit_or (bit_or (frame * 4096 % 2 ^ 64) f) (e / 2 ^ 52 % 1024 * 2 ^ 52)
        ≡ bit_or (low + frame * 4096 + nx * 2 ^ 63) (e / 2 ^ 52 % 1024 * 2 ^ 52) =
      ap (λ w. bit_or w (e / 2 ^ 52 % 1024 * 2 ^ 52))
        (inner ∙ or_flags frame low nx p (omega arith)) in
    omega (
      arith,
      outer,
      or_counter (low + frame * 4096) nx (e / 2 ^ 52 % 1024) (omega arith) (omega arith),
    )

-- What `set_counter_bits` writes, for a count that fits.
pub set_counter_bits_lem :
    (count e : ℕ)
    → count < 1024
    → e < 2 ^ 64
    → set_counter_bits count e ≡ e / 2 ^ 62 * 2 ^ 62 + count * 2 ^ 52 + e % 2 ^ 52
unfolding set_counter_bits
set_counter_bits_lem count e p q =
    let h = e / 2 ^ 62 in
    let low = e % 2 ^ 52 in
    let words : bit_or (h * 2 ^ 10 * 2 ^ 52 + low) (count * 2 ^ 52 + 0)
        ≡ bit_or (h * 2 ^ 62 + low) (count * 2 ^ 52 % 2 ^ 64) =
      ap₂ bit_or (omega arith) (omega arith) in
    let high : bit_or (h * 2 ^ 10 + 0) (0 * 2 ^ 10 + count) ≡ bit_or (h * 2 ^ 10) count =
      ap₂ bit_or (omega arith) (omega arith) in
    omega (
      arith,
      words,
      high,
      bit_or_split 52 (h * 2 ^ 10) count low 0 (omega arith) (omega arith),
      bit_or_split 10 h 0 0 count (omega arith) (omega arith),
      bit_or-zero low,
      bit_or-zero h,
      zero-bit_or count,
    )

module _ (frame f e : ℕ) (p : frame < 2 ^ 40) (q : IsFlags f) where
  pub flags-set : flags (set frame f e) ≡ f
  unfolding flags
  flags-set = omega (arith, set_lem frame f e p q)

  pub address-set : address (set frame f e) ≡ frame * 4096
  unfolding address
  address-set = omega (arith, set_lem frame f e p q)

  pub counter_bits-set : counter_bits (set frame f e) ≡ counter_bits e
  unfolding counter_bits
  counter_bits-set = omega (arith, set_lem frame f e p q)

  pub set-lt : f < 2 ^ 64 → set frame f e < 2 ^ 64
  set-lt r = omega (arith, set_lem frame f e p q)

  pub pointed_frame-set : is_present f ≡ true → pointed_frame (set frame f e) ≡ some frame
  unfolding pointed_frame
  pointed_frame-set r =
      let back : frame * 4096 / 4096 ≡ frame = omega arith in rw (flags-set, r, address-set, back)

module _ (count e : ℕ) (p : count < 1024) (q : e < 2 ^ 64) where
  pub flags-set_counter_bits : flags (set_counter_bits count e) ≡ flags e
  unfolding flags
  flags-set_counter_bits = omega (arith, set_counter_bits_lem count e p q)

  pub address-set_counter_bits : address (set_counter_bits count e) ≡ address e
  unfolding address
  address-set_counter_bits = omega (arith, set_counter_bits_lem count e p q)

  pub counter_bits-set_counter_bits : counter_bits (set_counter_bits count e) ≡ count
  unfolding counter_bits
  counter_bits-set_counter_bits = omega (arith, set_counter_bits_lem count e p q)

  pub set_counter_bits-lt : set_counter_bits count e < 2 ^ 64
  set_counter_bits-lt = omega (arith, set_counter_bits_lem count e p q)

  pub pointed_frame-set_counter_bits : pointed_frame (set_counter_bits count e) ≡ pointed_frame e
  unfolding pointed_frame
  pointed_frame-set_counter_bits = rw (flags-set_counter_bits, address-set_counter_bits)

  pub is_unused-set_counter_bits : is_unused (set_counter_bits count e) ≡ is_unused e
  unfolding is_unused
  is_unused-set_counter_bits = ground (arith, set_counter_bits_lem count e p q)

module _ (e : ℕ) where
  pub pointed_frame-set_unused : pointed_frame (set_unused e) ≡ none
  unfolding pointed_frame set_unused flags
  pointed_frame-set_unused = ground arith

  pub is_unused-set_unused : is_unused (set_unused e) ≡ true
  unfolding is_unused set_unused
  is_unused-set_unused = ground arith

  pub counter_bits-set_unused : counter_bits (set_unused e) ≡ counter_bits e
  unfolding counter_bits set_unused
  counter_bits-set_unused = omega arith

  pub pointed_frame-unused : is_unused e ≡ true → pointed_frame e ≡ none
  unfolding is_unused pointed_frame flags
  pointed_frame-unused h = ground arith

  pub counter_bits-lt : counter_bits e < 1024
  unfolding counter_bits
  counter_bits-lt = omega arith

-- Two entries that differ in their counters at most.
pub record Alike (e e' : ℕ) : Type 0 where
  pub same_flags : flags e' ≡ flags e
  pub same_address : address e' ≡ address e
  pub same_use : is_unused e' ≡ is_unused e

pub Alike-refl : (e : ℕ) → Alike e e
Alike-refl e = record { same_flags = refl; same_address = refl; same_use = refl }

pub pointed_frame-Alike : (e e' : ℕ) → Alike e e' → pointed_frame e' ≡ pointed_frame e
unfolding pointed_frame
pointed_frame-Alike e e' a = rw (a.same_flags, a.same_address)

pub Alike-set_counter_bits :
    (count e : ℕ) → count < 1024 → e < 2 ^ 64 → Alike e (set_counter_bits count e)
Alike-set_counter_bits count e p q = record {
  same_flags = flags-set_counter_bits count e p q;
  same_address = address-set_counter_bits count e p q;
  same_use = is_unused-set_counter_bits count e p q;
}

pub pointed_frame-zero : pointed_frame 0 ≡ none
unfolding pointed_frame flags
pointed_frame-zero = refl

pub is_unused-zero : is_unused 0 ≡ true
unfolding is_unused
is_unused-zero = refl

pub counter_bits-zero : counter_bits 0 ≡ 0
unfolding counter_bits
counter_bits-zero = refl

pub flags-zero : flags 0 ≡ 0
unfolding flags
flags-zero = refl

-- An entry that is not present, as `pointed_frame` sees it.
pub pointed_frame-absent : (e : ℕ) → is_present (flags e) ≡ false → pointed_frame e ≡ none
unfolding pointed_frame
pointed_frame-absent e h = rw h

pub pointed_frame-present :
    (e : ℕ) → is_present (flags e) ≡ true → pointed_frame e ≡ some (address e / 4096)
unfolding pointed_frame
pointed_frame-present e h = rw h

pub set_unused-lt : (e : ℕ) → set_unused e < 2 ^ 64
unfolding set_unused
set_unused-lt e = omega arith

pub flags-set_unused : (e : ℕ) → flags (set_unused e) ≡ 0
unfolding set_unused flags
flags-set_unused e = omega arith
