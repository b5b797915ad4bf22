-- ===== src/Memory/Merge.antt =====
-- `merge` of `Valloc` and of `RecycleAllocator`, which are the same code: `PAGE_SIZE` is 4096.
pub mod Joined
pub mod Depth
pub mod Laws
pub mod GiveBack
use faastr.Common.{
  ℕ, zero, suc, ◌+◌, ◌*◌, ◌≡◌, List, [], ◌∷◌, Option, none, some, Bool, true, false, ◌==◌,
  if◌then◌else◌, set, remove, ◌++◌, length,
}
use faastr.Common.Usize.{add_usize, mul_usize}
use faastr.Memory.Blocks.{Block}

abbrev pub wrapped_end : ℕ → ℕ → ℕ
wrapped_end address count = add_usize address (mul_usize count 4096)

-- The body of the loop: `some` of the grown entry where it changes one.
pub join : ℕ → ℕ → Block → Option Block
join address count free =
    if wrapped_end address count == free.address
    then some (record { address = address; count = add_usize free.count count })
    else if wrapped_end free.address free.count == address
    then some (record { address = free.address; count = add_usize free.count count })
    else none

-- The loop: the first index whose entry changes, with the new entry.
pub find_join : ℕ → ℕ → List Block → Option (ℕ × Block)
find_join address count [] = none
find_join address count (free ∷ rest) =
    let later = find_join address count rest in
    elim (join address count free) [
      | some grown ↦ some (0, grown)
      | none ↦ elim later [ none ↦ none | some (i, grown) ↦ some (suc i, grown) ]
    ]

-- After a recursive call that merged the grown entry into another, entry `i` goes.
abbrev pub settle : ℕ → Option (List Block × Bool) → Option (List Block × Bool)
settle i none = none
settle i (some (free, false)) = some (free, true)
settle i (some (free, true)) = elim (remove free i) [ none ↦ none | some left ↦ some (left, true) ]

-- The recursion is on fuel; `none` is a panic of `Vec::remove`, or a recursion that is too deep.
pub merge : ℕ → List Block → ℕ → ℕ → Option (List Block × Bool)
merge zero free address count = none
merge (suc fuel) free address count = elim (find_join address count free) [
  | none ↦ some (free, false)
  | some (i, grown) ↦ settle i (merge fuel (set free i grown) grown.address grown.count)
]

-- `if !self.merge(address, count) { self.free.push((address, count)); }`; the recursion of `merge`
-- gets as much fuel as there are blocks, and three more.
unfoldable pub give_back : List Block → ℕ → ℕ → Option (List Block)
give_back free address count = elim (merge (suc (suc (suc (length free)))) free address count) [
  | none ↦ none
  | some (free', true) ↦ some free'
  | some (free', false) ↦ some (free' ++ record { address = address; count = count } ∷ [])
]
