-- ===== src/Syscall/Validate.antt =====
-- kernel/src/syscall/validate.rs, over the active page table, which gives the flags of a page that
-- is mapped. The flags are those of the crate `bitflags`: `contains` is a parameter.
pub mod Mapped
use faastr.Common.{
  ℕ, zero, suc, ◌+◌, ◌-◌, ◌/◌, ◌^◌, Bool, true, false, Option, none, some, ltb, ◌==◌, if◌then◌else◌,
}
use faastr.Common.Usize.{mul_usize}
use faastr.Memory.Blocks.{containing_address}

module _ {F : Type 0} (contains : F → F → Bool) (translate_page_flags : ℕ → Option F) where
  abbrev pub allows : F → Option F → Bool
  allows flags none = false
  allows flags (some page_flags) = contains page_flags flags

  -- the loop, over `n` pages from `page` on
  unfoldable pub walk : F → ℕ → ℕ → Bool
  walk flags page zero = true
  walk flags page (suc n) =
      let rest = walk flags (suc page) n in
      if allows flags (translate_page_flags page) then rest else false

  -- Whether `validate` returns `Ok`; its error is always the same.
  unfoldable pub validate : ℕ → ℕ → F → Bool
  validate address size flags =
      let end_address = address + (size - 1) in
      let start_page = containing_address address in
      let end_page = containing_address end_address in
      let pages = walk flags start_page (suc end_page - start_page) in
      if size == 0 then false else if ltb (2 ^ 64 - 1) end_address then false else pages

  -- `validate_slice` and `validate_slice_mut`, with the flags that they ask for, of elements of
  -- `size_of` bytes.
  pub validate_slice : ℕ → F → ℕ → ℕ → Bool
  validate_slice size_of flags ptr len =
      if len == 0 then true else validate ptr (mul_usize len size_of) flags
