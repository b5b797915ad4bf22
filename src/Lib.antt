-- ===== src/Lib.antt =====
-- FAASTR: a kernel for functions as a service, and the wire format that its functions call each
-- other with.
--
-- The program's parts, as far as they are modelled here:
--
-- sos-rs/src/lib.rs, in Sos: a list of values is written to a buffer as a header (the number of
-- values and the length of the message) and one record for each value (its type, its size unless the
-- type fixes it, its bytes). Sos.Value has the values and their sizes, Sos.Encode `encode_sos`,
-- Sos.Decode `decode_sos` and the iterator `DecodeIter`, Sos.Owned and Sos.Encoded the types that own
-- values and their encoding, Sos.Bytes the slices of Rust, and Sos.Utf8 the check of
-- `core::str::from_utf8`. A number is its bit pattern. A panic is `none` in the encoder and
-- `failed` in the decoder. The byte order is a parameter, the record `NativeEndian` for the crate
-- `byteorder`. `collect` runs on fuel, and more fuel than bytes is enough.
--
-- kernel/src/memory, in Memory: Memory.Valloc is valloc.rs, Memory.Recycle is recycle.rs, and
-- Memory.Merge has the method `merge`, which those two files repeat. A free list is a list of blocks,
-- each an address and a number of pages; Memory.Blocks says when it is well formed. A frame or a page
-- is its number. `usize` wraps at 2 ^ 64. The recursion of `merge` is on fuel, and three calls are
-- enough. Memory.Bump is bump.rs with the memory areas of mod.rs; its recursion is on fuel too, and
-- four calls are enough for one frame. Memory.Pages has pages, frames and `VallocPages`, and
-- Memory.Frames `Frames` of context/memory.rs. The allocator that `RecycleAllocator` wraps is a
-- parameter, the record `FrameAllocator` for the trait.
--
-- kernel/src/arch/x86_64/paging, in Paging: Paging.Entry is entry.rs, an entry as a 64-bit word with
-- its flags, its address and its bits of the counter; Paging.Table is table.rs and Paging.Mapper
-- mapper.rs. The memory is a function from a frame and an index to an entry, and a table is named by
-- its frame; Paging.Table.Recursive is about the addresses that the code computes instead. The mapper
-- is over any allocator: a function that gives a frame, one that takes one back, and the frames that
-- it may give (`Supply`). Paging.Mapper.Forest says when tables are a tree. A panic is `none`. Flushes
-- change no table and are left out. Paging.Ranges maps, moves and unmaps page after page.
--
-- The memory of a context, in Context.ContextMemory: `VallocMapping` and `ContextMemory` of
-- kernel/src/context/memory.rs, over the mapper and the allocators. An Arc is its value, so that what
-- is freed with its last clone is left out, as are the bytes of the memory. The values that are
-- handed to a context, `ContextValues` of the same file, are bytes without frames, in Context.Values;
-- a value is the length and the function of the trait `SOS`. Whether `resize` succeeds is a parameter.
--
-- kernel/src/context, in Context: context.rs (`Status`, `block`, `unblock`, and `WaitpidKey` with its
-- order), list.rs (Context.ContextList) and switch.rs (Context.Scheduler), with `nanosleep` of
-- kernel/src/syscall/time.rs. The `BTreeMap` of contexts is a list in the order of its keys; the loop
-- that looks for an identifier is on fuel, one more than there are contexts. The scheduler is that of
-- one CPU, the clock is a parameter of each call, and registers, stacks and locks are left out.
--
-- Calls between contexts, in Context.Calls: `fuse_inner` and `cast_inner` of kernel/src/context/call.rs,
-- `fuse_switch` and `fuse_return` of context/switch.rs, `sys_return` of kernel/src/syscall/call.rs,
-- `exit` of syscall/process.rs and `init` of context/mod.rs. `fuse_inner` is two functions, up to the
-- switch to its callee and behind it. The context that `spawn` makes is an argument.
-- Context.Calls.Steps has the steps of a system and what they reach.
--
-- kernel/src/sync, in Sync: `WaitCondition` and `WaitQueue`. A condition holds the identifiers of contexts; its operations change the list of
-- contexts. `wait` is two functions, one before its switch and one behind it. An operation that waits
-- is `none`.
--
-- ringbuf/src/lib.rs, in Ringbuf: the header with its counters, `try_write`, `try_read`, `skip_n` and
-- the handles that they return. Ringbuf.Handles runs the operations of a producer and a consumer in
-- any order. The bytes are left out.
--
-- kernel/src/syscall/validate.rs, in Syscall.Validate: the page table and the flags are parameters.
-- kernel/syscall/src/error.rs, in Syscall.Error: a result as one machine word.
--
-- kernel/src/acpi/aml, in Acpi: Acpi.AmlValue has the values, the errors and the execution context.
-- Acpi.Aml.PkgLength is pkglength.rs, Acpi.Aml.NameString the names of namestring.rs and the objects
-- of dataobj.rs that a simple name may be, Acpi.Aml.Namespace from namespace.rs the name in a scope
-- and integers as buffers, and Acpi.Aml.Execution from parser.rs the mutexes, the events and what a
-- context adds to the namespace. A text is its bytes, the namespace is what it has under a name, and a
-- result is a value, an error or a panic. The loop that takes an integer apart is on fuel, and eight
-- turns are enough for 64 bits. How names, lengths and scopes are written is described beside the
-- theorems.
--
-- Not modelled: `WaitMap` of kernel/src/sync/wait_map.rs, a `BTreeMap` whose one key type in the
-- kernel, `WaitpidKey`, has an order that is not transitive, so that nothing is documented of what the
-- map then does; the devices, interrupts and boot code, which are input and output; the ACPI tables, and
-- of the ACPI machine language the opcodes, the named objects, and the reading and writing of values;
-- the assembly, C and Go parts; and what the manifest's notes name for each component.
pub mod Common
pub mod Acpi
pub mod Context
pub mod Memory
pub mod Paging
pub mod Ringbuf
pub mod Sos
pub mod Sync
pub mod Syscall
