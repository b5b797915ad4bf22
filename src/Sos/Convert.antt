-- ===== src/Sos/Convert.antt =====
-- The conversions `From` and `TryInto` of `Value` in sos-rs/src/lib.rs.
use faastr.Common.{ℕ, ◌≡◌, ◌↔◌, refl, ap, ◌∙◌, Option, none, some, arith}
use faastr.Sos.Bytes.{Bytes}
use faastr.Sos.Value.{Function, DecodeIter, Value, Values}

-- The types that `impl_try_into` is called for.
pub data Target : Type 0 where
  int32 uint32 int64 uint64 float double opaque function embedded_out embedded_in : Target

abbrev pub Payload : Target → Type 0
Payload Target.opaque = Bytes
Payload Target.function = Function
Payload Target.embedded_out = DecodeIter
Payload Target.embedded_in = Values
Payload _ = ℕ

abbrev pub from : (t : Target) → Payload t → Value
from Target.int32 i = Value.int32 i
from Target.uint32 i = Value.uint32 i
from Target.int64 i = Value.int64 i
from Target.uint64 i = Value.uint64 i
from Target.float i = Value.float i
from Target.double i = Value.double i
from Target.opaque i = Value.opaque i
from Target.function i = Value.function i
from Target.embedded_out i = Value.embedded_out i
from Target.embedded_in i = Value.embedded_in i

-- `none` is the error, that the value has another type.
abbrev pub try_into : (t : Target) → Value → Option (Payload t)
try_into Target.int32 (Value.int32 i) = some i
try_into Target.uint32 (Value.uint32 i) = some i
try_into Target.int64 (Value.int64 i) = some i
try_into Target.uint64 (Value.uint64 i) = some i
try_into Target.float (Value.float i) = some i
try_into Target.double (Value.double i) = some i
try_into Target.opaque (Value.opaque i) = some i
try_into Target.function (Value.function i) = some i
try_into Target.embedded_out (Value.embedded_out i) = some i
try_into Target.embedded_in (Value.embedded_in i) = some i
try_into _ _ = none

-- A text is taken from an error or from a string.
abbrev pub try_into_text : Value → Option Bytes
try_into_text (Value.error i) = some i
try_into_text (Value.string i) = some i
try_into_text _ = none

-- A conversion gives back what a value was made of, and refuses every other value.
try_into_iff : (t : Target) (v : Value) (x : Payload t) → (try_into t v ≡ some x) ↔ (v ≡ from t x)
try_into_iff t v x = (forth t v x, λ e. ap (try_into t) e ∙ back t x)
  where
    back : (t : Target) (x : Payload t) → try_into t (from t x) ≡ some x
    back Target.int32 x = refl
    back Target.uint32 x = refl
    back Target.int64 x = refl
    back Target.uint64 x = refl
    back Target.float x = refl
    back Target.double x = refl
    back Target.opaque x = refl
    back Target.function x = refl
    back Target.embedded_out x = refl
    back Target.embedded_in x = refl

    forth : (t : Target) (v : Value) (x : Payload t) → try_into t v ≡ some x → v ≡ from t x
    forth Target.int32 v x e = ground arith
    forth Target.uint32 v x e = ground arith
    forth Target.int64 v x e = ground arith
    forth Target.uint64 v x e = ground arith
    forth Target.float v x e = ground arith
    forth Target.double v x e = ground arith
    forth Target.opaque v x e = ground arith
    forth Target.function v x e = ground arith
    forth Target.embedded_out v x e = ground arith
    forth Target.embedded_in v x e = ground arith
