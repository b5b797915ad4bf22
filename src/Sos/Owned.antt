-- ===== src/Sos/Owned.antt =====
-- `OwnedValue` of sos-rs/src/lib.rs, which owns its texts and lists, and its view as a `Value`.
use faastr.Common.{ℕ, ◌≤◌, ◌≡◌, refl, true, ◌++◌, some, length, drop}
use faastr.Sos.Bytes.{Bytes, NativeEndian}
use faastr.Sos.Value.{Function, Value, Values, embedded_vec, encoded_len}
use faastr.Sos.Encode.{encode_sos}
use faastr.Sos.Encode.Wire.{no_iter, no_iters, wire}
use faastr.Sos.Encode.Correct.{encode_sos_lem}

-- `OwnedFunction` is a `Function` here: a text is its bytes, owned or not.
mutual
  pub data OwnedValue : Type 0 where
    int32 : ℕ → OwnedValue
    uint32 : ℕ → OwnedValue
    int64 : ℕ → OwnedValue
    uint64 : ℕ → OwnedValue
    float : ℕ → OwnedValue
    double : ℕ → OwnedValue
    error : Bytes → OwnedValue
    string : Bytes → OwnedValue
    opaque : Bytes → OwnedValue
    function : Function → OwnedValue
    embedded : OwnedValues → OwnedValue

  pub data OwnedValues : Type 0 where
    nil : OwnedValues
    cons : OwnedValue → OwnedValues → OwnedValues

unfoldable mutual
  pub borrow : OwnedValue → Value
  borrow (OwnedValue.int32 i) = Value.int32 i
  borrow (OwnedValue.uint32 i) = Value.uint32 i
  borrow (OwnedValue.int64 i) = Value.int64 i
  borrow (OwnedValue.uint64 i) = Value.uint64 i
  borrow (OwnedValue.float i) = Value.float i
  borrow (OwnedValue.double i) = Value.double i
  borrow (OwnedValue.error i) = Value.error i
  borrow (OwnedValue.string i) = Value.string i
  borrow (OwnedValue.opaque i) = Value.opaque i
  borrow (OwnedValue.function i) = Value.function i
  borrow (OwnedValue.embedded i) = embedded_vec (borrow_all i)

  -- `i.iter().map(|v| v.borrow()).collect()`
  pub borrow_all : OwnedValues → Values
  borrow_all OwnedValues.nil = Values.nil
  borrow_all (OwnedValues.cons v vs) = Values.cons (borrow v) (borrow_all vs)

mutual
  unfolding borrow borrow_all no_iter

  no_iter-borrow : (v : OwnedValue) → no_iter (borrow v) ≡ true
  no_iter-borrow (OwnedValue.embedded vs) = no_iters-borrow_all vs
  no_iter-borrow _ = refl

  no_iters-borrow_all : (vs : OwnedValues) → no_iters (borrow_all vs) ≡ true
  no_iters-borrow_all OwnedValues.nil = refl
  no_iters-borrow_all (OwnedValues.cons v vs) = rw (no_iter-borrow v) (no_iters-borrow_all vs)

-- Owned values can always be encoded: into any buffer with room enough, `encode_sos` writes the wire
-- format of what they lend, without a panic.
encode_sos-borrow_all :
    (ne : NativeEndian) (vs : OwnedValues) (buf : Bytes)
    → encoded_len (borrow_all vs) ≤ length buf
    → encode_sos ne buf (borrow_all vs)
      ≡ some (
        wire ne (borrow_all vs) ++ drop (encoded_len (borrow_all vs)) buf,
        encoded_len (borrow_all vs),
      )
encode_sos-borrow_all ne vs buf room =
    (encode_sos_lem ne (borrow_all vs) buf (no_iters-borrow_all vs) room).0
