-- ===== src/Context/Values.antt =====
-- `ContextValues` of kernel/src/context/memory.rs, and what `ContextMemory::resize` does to its memory:
-- the values that are handed to a context, one after another. The frames behind the bytes are those
-- of ContextMemory; whether `resize` to so many pages succeeds, which hangs on the frames, the
-- addresses and the page table of the CPU, is an argument, `resizes`. `none` is a panic.
pub mod Appended
pub mod Decoded
use faastr.Common.{
  ℕ, ◌-◌, ◌*◌, ◌/◌, ◌++◌, Option, none, some, ltb, Bool, true, false, not, ◌&&◌, if◌then◌else◌,
  length, take, replicate,
}
use faastr.Common.Usize.{add_usize, sub_usize}
use faastr.Paging.Table.{◌>>=◌}
use faastr.Sos.Value.{Values, encoded_len}
use faastr.Sos.Encode.{encode_sos}
use faastr.Sos.Bytes.{Bytes, NativeEndian, slice, write_at}

-- the trait `SOS` at one value; encoding fills a slice
pub record SosValue : Type 0 where
  pub encoded_len : ℕ
  pub encode : Bytes → Option Bytes

-- a slice of values as `SOS`
abbrev pub of_values : NativeEndian → Values → SosValue
of_values ne vs = record {
  encoded_len = encoded_len vs;
  encode = λ into. encode_sos ne into vs >>= (λ r. some r.0);
}

-- The memory with its bytes: whether it is mapped to the kernel, and whether that mapping is shared
-- with a clone.
pub record ValuesMemory : Type 0 where
  pub context_address : ℕ
  pub kernel_mapped : Bool
  pub shared : Bool
  pub bytes : Bytes

pub record ContextValues : Type 0 where
  pub memory : Option ValuesMemory
  pub offset : ℕ

pub set_memory : ValuesMemory → ContextValues → ContextValues
set_memory memory values = record values { memory = some memory }

-- `align_up!` at a power of two, which `align` is
abbrev pub align_up : ℕ → ℕ → ℕ
align_up val align = add_usize val (sub_usize align 1) / align * align

-- The bytes of the new memory: those of the old one, cut off or followed by zeros.
pub resize_bytes : ℕ → Bytes → Bytes
resize_bytes new_count src =
    let dst_len = new_count * 4096 in
    if ltb (length src) dst_len then src ++ replicate (dst_len - length src) 0 else take dst_len src

-- `as_slice_mut`, with its two panics
unfoldable pub as_slice_mut : ValuesMemory → Option Bytes
as_slice_mut memory = if memory.kernel_mapped && not memory.shared then some memory.bytes else none

-- how many pages the memory has when it grows
abbrev pub grown_pages : ℕ → ValuesMemory → ℕ
grown_pages need memory = align_up (add_usize (length memory.bytes) need) 4096 / 4096

-- `resize`, whose new mapping is its own
unfoldable pub resize : (ℕ → Bool) → ℕ → ValuesMemory → Option ValuesMemory
resize resizes new_count memory =
    if resizes new_count
    then some (record memory {
      kernel_mapped = true;
      shared = false;
      bytes = resize_bytes new_count memory.bytes;
    })
    else none

-- the memory, larger where there is not room enough
unfoldable pub with_room : (ℕ → Bool) → ℕ → ℕ → ValuesMemory → Option ValuesMemory
with_room resizes need offset memory =
    if ltb (sub_usize (length memory.bytes) offset) need
    then resize resizes (grown_pages need memory) memory
    else some memory

abbrev pub encode_at : SosValue → ContextValues → ValuesMemory → Option (ℕ × ContextValues)
encode_at values v memory = do
  all ← as_slice_mut memory
  into ← slice all v.offset (add_usize v.offset values.encoded_len)
  written ← values.encode into
  bytes ← write_at all v.offset written
  some (
    add_usize memory.context_address v.offset,
    record {
      memory = some (record memory { bytes = bytes });
      offset = add_usize v.offset values.encoded_len;
    },
  )

-- The address of the values, which the source wraps in an option that is never `None`.
unfoldable pub append_encode : (ℕ → Bool) → SosValue → ContextValues → Option (ℕ × ContextValues)
append_encode resizes values v = do
  memory ← v.memory
  larger ← with_room resizes values.encoded_len v.offset memory
  encode_at values v larger
