-- ===== src/Sos/Value.antt =====
-- The values of sos-rs/src/lib.rs, their types on the wire and their sizes. A number is its bit
-- pattern, a text its bytes. Sums of lengths of slices in memory stay below `usize::MAX`.
use faastr.Common.{ℕ, suc, ◌+◌, Option, none, some, length, if◌then◌else◌, ◌==◌, Bool}
use faastr.Sos.Bytes.{Bytes}

pub record Function : Type 0 where
  pub module_name : Bytes
  pub name : Bytes

pub record DecodeIter : Type 0 where
  pub count : ℕ
  pub buff : Bytes
  pub lazy : Bool

-- `ReferencedValues` is a slice of values, `EmbeddedVec` holds a vector of them.
mutual
  pub data Value : Type 0 where
    int32 : ℕ → Value
    uint32 : ℕ → Value
    int64 : ℕ → Value
    uint64 : ℕ → Value
    float : ℕ → Value
    double : ℕ → Value
    error : Bytes → Value
    string : Bytes → Value
    opaque : Bytes → Value
    function : Function → Value
    embedded_out : DecodeIter → Value
    embedded_in : Values → Value
    embedded_vec : Values → Value

  pub data Values : Type 0 where
    nil : Values
    cons : Value → Values → Values

pub data CType : Type 0 where
  invalid int32 uint32 int64 uint64 float double error string opaque function embedded : CType

unfoldable pub ctype : Value → CType
ctype (Value.int32 _) = CType.int32
ctype (Value.uint32 _) = CType.uint32
ctype (Value.int64 _) = CType.int64
ctype (Value.uint64 _) = CType.uint64
ctype (Value.float _) = CType.float
ctype (Value.double _) = CType.double
ctype (Value.error _) = CType.error
ctype (Value.string _) = CType.string
ctype (Value.opaque _) = CType.opaque
ctype (Value.function _) = CType.function
ctype (embedded_out _) = embedded
ctype (embedded_in _) = embedded
ctype (embedded_vec _) = embedded

-- `val_type as u8`
unfoldable pub to_u8 : CType → ℕ
to_u8 invalid = 0
to_u8 CType.int32 = 1
to_u8 CType.uint32 = 2
to_u8 CType.int64 = 3
to_u8 CType.uint64 = 4
to_u8 CType.float = 5
to_u8 CType.double = 6
to_u8 CType.error = 7
to_u8 CType.string = 8
to_u8 CType.opaque = 9
to_u8 CType.function = 10
to_u8 embedded = 11

unfoldable pub from_u8 : ℕ → Option CType
from_u8 i =
    if i == 0
    then some invalid
    else if i == 1
    then some CType.int32
    else if i == 2
    then some CType.uint32
    else if i == 3
    then some CType.int64
    else if i == 4
    then some CType.uint64
    else if i == 5
    then some CType.float
    else if i == 6
    then some CType.double
    else if i == 7
    then some CType.error
    else if i == 8
    then some CType.string
    else if i == 9
    then some CType.opaque
    else if i == 10
    then some CType.function
    else if i == 11
    then some embedded
    else none

-- the types whose size is not written
unfoldable pub fixed_size : CType → Option ℕ
fixed_size CType.int32 = some 4
fixed_size CType.uint32 = some 4
fixed_size CType.float = some 4
fixed_size CType.int64 = some 8
fixed_size CType.uint64 = some 8
fixed_size CType.double = some 8
fixed_size _ = none

unfoldable pub count : Values → ℕ
count nil = 0
count (cons v vs) = suc (count vs)

unfoldable mutual
  pub encoded_size : Value → ℕ
  encoded_size (Value.int32 _) = 4
  encoded_size (Value.uint32 _) = 4
  encoded_size (Value.float _) = 4
  encoded_size (Value.int64 _) = 8
  encoded_size (Value.uint64 _) = 8
  encoded_size (Value.double _) = 8
  encoded_size (Value.string i) = length i + 1 + 4
  encoded_size (Value.error i) = length i + 1 + 4
  encoded_size (Value.opaque i) = length i + 4
  encoded_size (embedded_in i) = (count i + 8 + sizes i) + 4
  encoded_size (embedded_out f) = length f.buff + 4
  encoded_size (embedded_vec i) = (count i + 8 + sizes i) + 4
  encoded_size (Value.function f) = length f.module_name + length f.name + 2 + 4

  -- the loop of `encoded_len`
  pub sizes : Values → ℕ
  sizes nil = 0
  sizes (cons v vs) = encoded_size v + sizes vs

unfoldable pub encoded_len : Values → ℕ
encoded_len values = count values + 8 + sizes values
