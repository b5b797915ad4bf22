-- ===== src/Memory/Takes.antt =====
-- What the two allocators promise of an allocation from their free list.
use faastr.Common.{ℕ, ◌+◌, ◌*◌, ◌^◌, ◌≤◌, ◌<◌, ◌≡◌, List, some, arith, get_elem?, All}
use faastr.Memory.Blocks.{Block, end_of, covers, touches, held, pages, IsSeparated, start_address}

-- at least `n` pages in each block that has `count` of them
abbrev pub Least : ℕ → ℕ → List Block → Type 0
Least count n = All (λ c. count ≤ c.count → n ≤ c.count)

-- the pages of a request
abbrev pub span : ℕ → ℕ → Block
span page count = record { address = start_address page; count = count }

-- What `allocate_pages` promises for a result: on success the pages come off the high end of a
-- block of the least sufficient size, and the list holds exactly the rest.
pub record Takes (count : ℕ) (free : List Block) (page : ℕ) (free' : List Block) : Type 0 where
  pub well : IsSeparated free'
  pub small : page < 2 ^ 52
  pub holds : (x : ℕ) → held free x ≡ held free' x + covers x (span page count)
  pub counts : pages free ≡ pages free' + count
  pub block : Block
  pub index : ℕ
  pub listed : get_elem? free index ≡ some block
  pub at_end : start_address page + count * 4096 ≡ end_of block
  pub least : Least count block.count free

-- A split block: its low part stays, its high part goes.
pub covers_split :
    (x : ℕ) (b low high : Block)
    → low.address ≡ b.address
    → high.address ≡ end_of low
    → low.count + high.count ≡ b.count
    → covers x b ≡ covers x low + covers x high
unfolding covers
covers_split x b low high p q r = ground arith

pub touches-low :
    (x : ℕ) (b low : Block)
    → low.address ≡ b.address
    → low.count ≤ b.count
    → touches x low ≤ touches x b
unfolding touches
touches-low x b low p r = ground arith

pub covers_empty : (x : ℕ) (b : Block) → b.count ≡ 0 → covers x b ≡ 0
unfolding covers
covers_empty x b h = ground arith
