-- ===== src/Paging/Entry.antt =====
-- kernel/src/arch/x86_64/paging/entry.rs: an entry and a set of flags are the 64-bit words that the
-- source keeps. A mask of adjacent bits is a division and a remainder.
pub mod Fields
use Prim.Native.Nat.{bit_or}
use faastr.Common.{ℕ, ◌+◌, ◌*◌, ◌/◌, ◌%◌, ◌^◌, Bool, Option, none, some, ◌==◌, if◌then◌else◌}
use faastr.Memory.Blocks.{containing_address, start_address}

abbrev pub present : ℕ
present = 1

abbrev pub writable : ℕ
writable = 2

abbrev pub user_accessible : ℕ
user_accessible = 4

abbrev pub no_execute : ℕ
no_execute = 2 ^ 63

-- `flags.contains(EntryFlags::PRESENT)`
abbrev pub is_present : ℕ → Bool
is_present flags = flags % 2 == 1

-- `flags.contains(EntryFlags::HUGE_PAGE)`
abbrev pub is_huge : ℕ → Bool
is_huge flags = flags / 128 % 2 == 1

-- `& COUNTER_MASK`, the bits 52 to 61
abbrev pub counter_mask : ℕ → ℕ
counter_mask entry = entry / 2 ^ 52 % 1024 * 2 ^ 52

-- `& ADDRESS_MASK`, the bits 12 to 51
abbrev pub address_mask : ℕ → ℕ
address_mask entry = entry / 4096 % 2 ^ 40 * 4096

abbrev pub set_zero : ℕ
set_zero = 0

unfoldable pub is_unused : ℕ → Bool
is_unused entry = entry == counter_mask entry

unfoldable pub set_unused : ℕ → ℕ
set_unused entry = counter_mask entry

unfoldable pub address : ℕ → ℕ
address entry = address_mask entry

-- `from_bits_truncate`, which keeps the ten flags that are declared
unfoldable pub flags : ℕ → ℕ
flags entry = entry % 512 + entry / 2 ^ 63 % 2 * 2 ^ 63

unfoldable pub pointed_frame : ℕ → Option ℕ
pointed_frame entry =
    if is_present (flags entry) then some (containing_address (address entry)) else none

-- `entry.set(frame, flags)`
unfoldable pub set : ℕ → ℕ → ℕ → ℕ
set frame new_flags entry = bit_or (bit_or (start_address frame) new_flags) (counter_mask entry)

unfoldable pub counter_bits : ℕ → ℕ
counter_bits entry = counter_mask entry / 2 ^ 52

-- `entry.set_counter_bits(count)`, where the shift drops the bits of `count` above the twelfth
unfoldable pub set_counter_bits : ℕ → ℕ → ℕ
set_counter_bits count entry =
    bit_or (entry / 2 ^ 62 * 2 ^ 62 + entry % 2 ^ 52) (count * 2 ^ 52 % 2 ^ 64)
