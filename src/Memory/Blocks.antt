-- ===== src/Memory/Blocks.antt =====
-- The `(usize, usize)` entries of the free lists of kernel/src/memory/valloc.rs and recycle.rs,
-- the addresses that such a list holds, and when the list is well formed.
use faastr.Common.{
  ℕ, ◌+◌, ◌*◌, ◌/◌, ◌%◌, ◌^◌, ◌≤◌, ◌<◌, ◌≡◌, ◌⊎◌, ◌&&◌, List, [], ◌∷◌, arith, ltb, leb,
  if◌then◌else◌, refl, ◌-◌, ◌++◌, sum_by, sum_by-append, All, All-append, All-map, sum_by_extra,
}
use faastr.Common.Usize.{mul_usize}

abbrev pub page_size : ℕ
page_size = 4096

-- `Page::containing_address` and `Frame::containing_address`, and the `start_address` of a page
-- or of a frame, which are their number.
abbrev pub containing_address : ℕ → ℕ
containing_address address = address / 4096

abbrev pub start_address : ℕ → ℕ
start_address number = mul_usize number 4096

-- An address and a number of pages.
pub record Block : Type 0 where
  pub address : ℕ
  pub count : ℕ

-- the first address behind the block
abbrev pub end_of : Block → ℕ
end_of b = b.address + b.count * 4096

-- 1 at an address of the block, 0 elsewhere
unfoldable pub covers : ℕ → Block → ℕ
covers x b = if leb b.address x && ltb x (end_of b) then 1 else 0

-- the same, with the first address behind the block
unfoldable pub touches : ℕ → Block → ℕ
touches x b = if leb b.address x && leb x (end_of b) then 1 else 0

-- how many blocks of the list hold the address
abbrev pub held : List Block → ℕ → ℕ
held free x = sum_by (covers x) free

abbrev pub touched : List Block → ℕ → ℕ
touched free x = sum_by (touches x) free

-- how many pages the list holds, as the `free_count` methods add them up
abbrev pub pages : List Block → ℕ
pages free = sum_by (λ b. b.count) free

-- A block that an allocator works with: not empty, page-aligned, inside the address space.
pub record Fits (b : Block) : Type 0 where
  pub some_page : 0 < b.count
  pub aligned : b.address % 4096 ≡ 0
  pub inside : end_of b < 2 ^ 64

-- No address lies in two blocks, and no two blocks border on one another.
pub record IsSeparated (free : List Block) : Type 0 where
  pub fit : All Fits free
  pub apart : (x : ℕ) → touched free x ≤ 1

-- With a gap between them.
abbrev pub Apart : Block → Block → Type 0
Apart b c = (end_of b < c.address) ⊎ (end_of c < b.address)

-- With no address in common.
abbrev pub Disjoint : Block → Block → Type 0
Disjoint b c = (end_of b ≤ c.address) ⊎ (end_of c ≤ b.address)

pub apart_of_touches : (b c : Block) → ((x : ℕ) → touches x b + touches x c ≤ 1) → Apart b c
unfolding touches
apart_of_touches b c h = ground (arith, h b.address, h c.address)

pub Disjoint-of_covers :
    (b c : Block)
    → 0 < b.count
    → 0 < c.count
    → ((x : ℕ) → covers x b + covers x c ≤ 1)
    → Disjoint b c
unfolding covers
Disjoint-of_covers b c pb pc h = ground (arith, h b.address, h c.address)

pub covers-le-touches : (x : ℕ) (b : Block) → covers x b ≤ touches x b
unfolding covers touches
covers-le-touches x b = ground arith

pub held-le-touched : (free : List Block) (x : ℕ) → held free x ≤ touched free x
held-le-touched [] x = omega arith
held-le-touched (b ∷ bs) x = omega (arith, covers-le-touches x b, held-le-touched bs x)

pub touches-Apart : (x : ℕ) (b c : Block) → Apart b c → touches x b + touches x c ≤ 1
unfolding touches
touches-Apart x b c h = ground arith

pub touches-le-one : (x : ℕ) (b : Block) → touches x b ≤ 1
unfolding touches
touches-le-one x b = ground arith

touched_extra :
    (x : ℕ) (b : Block) (free : List Block)
    → touched free x ≤ 1
    → All (Apart b) free
    → touches x b + touched free x ≤ 1
touched_extra x b free t h =
    sum_by_extra (touches x) b free (touches-le-one x b) t
      (All-map (Apart b) (λ c. touches x b + touches x c ≤ 1) (touches-Apart x b) free h)

-- `free.push((address, count))`, of a block with a gap at both ends
pub IsSeparated-push :
    (b : Block) (free : List Block)
    → Fits b
    → IsSeparated free
    → All (Apart b) free
    → IsSeparated (free ++ b ∷ [])
IsSeparated-push b free f s h = record {
  fit = All-append Fits free (b ∷ []) s.fit (f, tt);
  apart = λ x.
      omega (arith, sum_by-append (touches x) free (b ∷ []), touched_extra x b free (s.apart x) h);
}

-- No block touches the inside of one that has no address in common with any.
pub touched_inside :
    (x : ℕ) (b : Block) (free : List Block)
    → All Fits free
    → ((y : ℕ) → held free y + covers y b ≤ 1)
    → b.address < x
    → x < end_of b
    → touched free x ≡ 0
unfolding touches covers
touched_inside x b [] f h lo hi = refl
touched_inside x b (c ∷ rest) f h lo hi = ground (
  arith,
  f.0.some_page,
  h x,
  h (x - 1),
  touched_inside x b rest f.1 (λ y. omega (arith, h y)) lo hi,
)
