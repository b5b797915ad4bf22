-- ===== src/Acpi/Aml/Execution.antt =====
-- The operations of kernel/src/acpi/aml/parser.rs on the namespace: objects, mutexes and events.
pub mod Exclusive
pub mod Clean
mod Tests
use faastr.Common.{
  ℕ, zero, suc, Bool, true, false, not, ◌+◌, ◌-◌, ◌%◌, ◌^◌, ◌&&◌, ◌≡◌, List, [], ◌∷◌, ◌++◌, ◌==◌,
  ltb, leb, length, if◌then◌else◌, Option, none, some, set,
}
use faastr.Acpi.Aml.{
  AmlError, AmlValue, ObjectReference, AmlExecutionContext, Outcome, ok, err, panics, Bytes, ◌>>=◌,
}
use faastr.Acpi.AmlValue.{Method}

pub same_name : Bytes → Bytes → Bool
same_name [] [] = true
same_name [] (d ∷ ds) = false
same_name (c ∷ cs) [] = false
same_name (c ∷ cs) (d ∷ ds) = c == d && same_name cs ds

-- The map of the global namespace, as what it has under a name.
abbrev pub Namespace : Type 0
Namespace = Bytes → Option AmlValue

abbrev pub insert : Bytes → AmlValue → Namespace → Namespace
insert name value namespace n = if same_name name n then some value else namespace n

abbrev pub remove : Bytes → Namespace → Namespace
remove name namespace n = if same_name name n then none else namespace n

-- What the operations keep: the context and the namespace, which the kernel has from its start.
abbrev pub State : Type 0
State = AmlExecutionContext × Option Namespace

-- the name in a pointer to an object
object_name : AmlValue → Outcome Bytes
object_name (AmlValue.string s) = ok s
object_name (AmlValue.object_reference (ObjectReference.object s)) = ok s
object_name _ = err AmlError.value_error

abbrev pub or_value_error : Option AmlValue → Outcome AmlValue
or_value_error none = err AmlError.value_error
or_value_error (some v) = ok v

abbrev pub or_hard_fatal : Option Namespace → Outcome Namespace
or_hard_fatal none = err AmlError.hard_fatal
or_hard_fatal (some n) = ok n

acquire : AmlExecutionContext → Namespace → Bytes → AmlValue → Outcome (Bool × State)
acquire ctx namespace name (AmlValue.mutex sync_level none) =
    if ltb sync_level ctx.sync_level
    then err AmlError.value_error
    else ok (
      true,
      (
        record ctx { sync_level = sync_level },
        some (insert name (AmlValue.mutex sync_level (some ctx.ctx_id)) namespace),
      ),
    )
acquire ctx namespace name (AmlValue.mutex sync_level (some o)) = ok (false, (ctx, some namespace))
acquire ctx namespace name (AmlValue.operation_region r offset len accessor none) = ok (
  true,
  (
    ctx,
    some
        (insert name (AmlValue.operation_region r offset len accessor (some ctx.ctx_id)) namespace),
  ),
)
acquire ctx namespace name (AmlValue.operation_region r offset len accessor (some o)) =
    ok (false, (ctx, some namespace))
acquire ctx namespace name _ = err AmlError.value_error

pub acquire_mutex : AmlValue → State → Outcome (Bool × State)
acquire_mutex mutex_ptr (ctx, namespace_ptr) = do
  namespace ← or_hard_fatal namespace_ptr
  name ← object_name mutex_ptr
  mutex ← or_value_error (namespace name)
  acquire ctx namespace name mutex

release : AmlExecutionContext → Namespace → Bytes → AmlValue → Outcome State
release ctx namespace name (AmlValue.mutex sync_level none) = ok (ctx, some namespace)
release ctx namespace name (AmlValue.mutex sync_level (some o)) =
    if o == ctx.ctx_id
    then if sync_level == ctx.sync_level
      then ok (ctx, some (insert name (AmlValue.mutex sync_level none) namespace))
      else err AmlError.value_error
    else err AmlError.hard_fatal
release ctx namespace name (AmlValue.operation_region r offset len accessor none) =
    ok (ctx, some namespace)
release ctx namespace name (AmlValue.operation_region r offset len accessor (some o)) =
    if o == ctx.ctx_id
    then ok
        (ctx, some (insert name (AmlValue.operation_region r offset len accessor none) namespace))
    else err AmlError.hard_fatal
release ctx namespace name _ = err AmlError.value_error

pub release_mutex : AmlValue → State → Outcome State
release_mutex mutex_ptr (ctx, namespace_ptr) = do
  namespace ← or_hard_fatal namespace_ptr
  name ← object_name mutex_ptr
  mutex ← or_value_error (namespace name)
  release ctx namespace name mutex

-- The answer is whether the event was there; `u64` wraps at 2 ^ 64.
wait : AmlExecutionContext → Namespace → Bytes → AmlValue → Outcome (Bool × State)
wait ctx namespace name (AmlValue.event count) =
    if ltb 0 count
    then ok (true, (ctx, some (insert name (AmlValue.event (count - 1)) namespace)))
    else ok (false, (ctx, some namespace))
wait ctx namespace name _ = err AmlError.value_error

pub wait_for_event : AmlValue → State → Outcome (Bool × State)
wait_for_event event_ptr (ctx, namespace_ptr) = do
  namespace ← or_hard_fatal namespace_ptr
  name ← object_name event_ptr
  object ← or_value_error (namespace name)
  wait ctx namespace name object

signal : AmlExecutionContext → Namespace → Bytes → AmlValue → Outcome State
signal ctx namespace name (AmlValue.event count) =
    ok (ctx, some (insert name (AmlValue.event ((count + 1) % 2 ^ 64)) namespace))
signal ctx namespace name _ = err AmlError.value_error

pub signal_event : AmlValue → State → Outcome State
signal_event event_ptr (ctx, namespace_ptr) = do
  namespace ← or_hard_fatal namespace_ptr
  name ← object_name event_ptr
  object ← or_value_error (namespace name)
  signal ctx namespace name object

-- An object that may be defined: none is there, it is not initialized, or it is a method without a
-- body.
is_undefined : Option AmlValue → Bool
is_undefined none = true
is_undefined (some AmlValue.uninitialized) = true
is_undefined (some (AmlValue.method m)) = length m.term_list == 0
is_undefined (some _) = false

pub add_to_namespace : Bytes → AmlValue → State → Outcome State
add_to_namespace name value (ctx, none) = err AmlError.value_error
add_to_namespace name value (ctx, some namespace) =
    if is_undefined (namespace name)
    then ok (
      record ctx { namespace_delta = ctx.namespace_delta ++ (name ∷ []) },
      some (insert name value namespace),
    )
    else err AmlError.value_error

remove_all : List Bytes → Namespace → Namespace
remove_all [] namespace = namespace
remove_all (k ∷ ks) namespace = remove_all ks (remove k namespace)

pub clean_namespace : State → State
clean_namespace (ctx, none) = (ctx, none)
clean_namespace (ctx, some namespace) = (ctx, some (remove_all ctx.namespace_delta namespace))
