-- ===== src/Context/Values/Decoded.antt =====
-- Values that are handed to a context, and what the context decodes.
use faastr.Common.{◌+◌, ◌≡◌, ℕ, false, some, length, take}
use faastr.Sos.Bytes.{Bytes, NativeEndian, slice}
use faastr.Sos.Value.{Values}
use faastr.Sos.Decode.{Outcome, value, decode_sos, collect}
use faastr.Sos.Decode
use faastr.Sos.Decode.Sound.{all_owned}
use faastr.Context.Values.{ValuesMemory, ContextValues}

module _ (ne : NativeEndian) where
  -- What the context decodes, at the address that it is given.
  abbrev pub Receives : Values → ContextValues → ValuesMemory → ℕ × ContextValues → Type 0
  Receives vs v memory r =
      (after : ValuesMemory) × (wire_bytes : Bytes) × (r.1.memory ≡ some after)
      × (r.0 ≡ after.context_address + v.offset)
      × (take v.offset after.bytes ≡ take v.offset memory.bytes)
      × (slice after.bytes v.offset r.1.offset ≡ some wire_bytes)
      × (Decode.◌>>=◌ (decode_sos ne wire_bytes false) (collect ne (length wire_bytes))
          ≡ value (all_owned vs))
