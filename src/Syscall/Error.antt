-- ===== src/Syscall/Error.antt =====
-- `Error` of kernel/syscall/src/error.rs: a result as one machine word.
pub mod Demux
use faastr.Common.{ℕ, ◌-◌, ◌%◌, ◌^◌, ◌&&◌, ltb, leb, if◌then◌else◌}

-- A result, with the number of an error that is not negative.
pub data Result : Type 0 where
  ok : ℕ → Result
  err : ℕ → Result

-- `-error.errno as usize` extends the sign.
unfoldable pub mux : Result → ℕ
mux (ok value) = value
mux (err errno) = (2 ^ 64 - errno) % 2 ^ 64

-- `-(value as i32)`; of 2 ^ 31 it is itself
abbrev pub negated : ℕ → ℕ
negated value = (2 ^ 32 - value % 2 ^ 32) % 2 ^ 32

-- `STR_ERROR` has 132 entries; what is not less, as a number with a sign, is an error.
unfoldable pub demux : ℕ → Result
demux value =
    if leb 1 (negated value) && ltb (negated value) 132 then err (negated value) else ok value
