-- ===== src/Ringbuf.antt =====
-- ringbuf/src/lib.rs: the ring buffer between one producer and one consumer, without its bytes. A
-- handle is the position and the length that it is made with; the atomic counters are numbers
-- below 2 ^ 64. A call is one step: the loop of `try_read` sees one value of the tail.
pub mod Handles
pub mod Apart
mod Tests
use faastr.Common.{
  ℕ, zero, suc, ◌+◌, ◌-◌, ◌*◌, ◌/◌, ◌%◌, ◌^◌, ◌||◌, List, [], ◌∷◌, Option, none, some, ltb, leb,
  ◌==◌, if◌then◌else◌,
}
use Prim.Native.Nat.{bit_and}
use faastr.Common.Usize.{add_usize, sub_usize}

pub record Header : Type 0 where
  pub capacity : ℕ
  pub allocated_size : ℕ
  pub head : ℕ
  pub shadow_tail : ℕ
  pub tail : ℕ
  pub shadow_head : ℕ

-- three cache lines
abbrev pub sizeof_header : ℕ
sizeof_header = 192

-- `a | b`, on so many bits
abbrev bit_or : ℕ → ℕ → ℕ → ℕ
bit_or zero a b = 0
bit_or (suc bits) a b = (if (a % 2 + b % 2) == 0 then 0 else 1) + 2 * bit_or bits (a / 2) (b / 2)

-- `x | (x >> n)`
abbrev smear : ℕ → ℕ → ℕ
smear n x = bit_or 64 x (x / 2 ^ n)

pub prev_power_of_two : ℕ → ℕ
prev_power_of_two x =
    let y = smear 16 (smear 8 (smear 4 (smear 2 (smear 1 x)))) in sub_usize y (y / 2)

-- The header at the start of a buffer of this length; `none` is the assertion.
pub new_inline_at : ℕ → Option Header
new_inline_at len =
    let capacity = prev_power_of_two (len - sizeof_header) in
    if leb len sizeof_header
    then none
    else some (record {
      capacity = capacity;
      allocated_size = capacity;
      head = 0;
      shadow_tail = 0;
      tail = 0;
      shadow_head = 0;
    })

-- The capacity of the slice behind the header; `none` is the assertion of the two `from_slice`.
abbrev pub from_slice : ℕ → Header → Option ℕ
from_slice len b =
    let capacity = prev_power_of_two (len - sizeof_header) in
    if capacity == b.capacity then some capacity else none

abbrev pub size : Header → ℕ
size b = sub_usize b.tail b.head

abbrev pub free_space : Header → ℕ
free_space b = sub_usize b.capacity (size b)

-- The position and the length of a handle.
pub record Handle : Type 0 where
  pub current : ℕ
  pub n : ℕ

-- `Producer::try_write`: the handle, if there is room, and the header.
pub try_write : ℕ → Header → Option Handle × Header
try_write n b =
    let handle : Option Handle = some (record { current = b.tail; n = n }) in
    let fresh = record b { shadow_head = b.head } in
    if leb (add_usize b.shadow_head b.capacity) (add_usize b.tail n)
    then (if leb (add_usize b.head b.capacity) (add_usize b.tail n)
        then (none, fresh)
        else (handle, fresh))
    else (handle, b)

-- `WriteHandle::drop`
pub drop_write : Handle → Header → Header
drop_write h b = record b { tail = add_usize h.current h.n }

-- `Consumer::try_read`
pub try_read : ℕ → ℕ → Header → Option Handle × Header
try_read n zero b =
    if ltb (sub_usize b.shadow_tail b.head) n
    then (none, record b { shadow_tail = b.tail })
    else (some (record { current = b.head; n = n }), b)
try_read n (suc times) b =
    let again = try_read n times (record b { shadow_tail = b.tail }) in
    if ltb (sub_usize b.shadow_tail b.head) n
    then again
    else (some (record { current = b.head; n = n }), b)

-- `Consumer::skip_n`: how many bytes it skips
pub skip_n : ℕ → Header → ℕ × Header
skip_n n b =
    let fresh = record b { shadow_tail = b.tail } in
    let available = sub_usize b.tail b.head in
    let diff = if ltb n available then n else available in
    if b.head == b.tail then (0, fresh) else (diff, record fresh { head = add_usize b.head diff })

-- `ReadHandle::drop`
pub drop_read : Handle → Header → Header
drop_read h b = record b { head = add_usize h.current h.n }

unfoldable pub offset : Header → ℕ → ℕ
offset b position = bit_and position (sub_usize b.allocated_size 1)

-- `deref` of a handle: the first byte and the first behind the last; `none` is its panic.
unfoldable pub deref : Header → Handle → Option (ℕ × ℕ)
deref b h =
    let from = offset b h.current in
    if ltb b.capacity (from + h.n) then none else some (from, from + h.n)
