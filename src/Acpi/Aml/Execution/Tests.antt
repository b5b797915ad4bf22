-- ===== src/Acpi/Aml/Execution/Tests.antt =====
-- Two contexts and a namespace with one mutex.
use faastr.Common.{ℕ, true, ◌≡◌, refl, List, [], ◌∷◌, replicate, none, some, if◌then◌else◌, arith}
use faastr.Acpi.Aml.{AmlError, AmlValue, ExecutionState, AmlExecutionContext, ok, err}
use faastr.Acpi.Aml.Execution.{
  same_name, Namespace, State, insert, object_name, acquire, acquire_mutex, is_undefined,
  add_to_namespace, clean_namespace, wait, wait_for_event,
}
use faastr.Acpi.Aml.Execution.Exclusive.{Excludes, acquire_mutex-Excludes}
use faastr.Acpi.Aml.Execution.Clean.{is_among, clean_namespace-add_all}

abbrev context : ℕ → ℕ → AmlExecutionContext
context id level = record {
  scope = 0x5c ∷ [];
  local_vars = replicate 8 AmlValue.uninitialized;
  arg_vars = replicate 8 AmlValue.uninitialized;
  state = ExecutionState.executing;
  namespace_delta = [];
  ctx_id = id;
  sync_level = level;
}

-- the mutex "M", and an event "E" that was signalled twice
abbrev some_objects : Namespace
some_objects =
    insert (0x4d ∷ []) (AmlValue.mutex 3 none) (insert (0x45 ∷ []) (AmlValue.event 2) (λ n. none))

abbrev taken : State
taken = (context 1 3, some (insert (0x4d ∷ []) (AmlValue.mutex 3 (some 1)) some_objects))

acquire_mutex-Excludes_example :
    Excludes (AmlValue.string (0x4d ∷ [])) (context 2 0) some_objects taken
unfolding acquire_mutex acquire object_name same_name
acquire_mutex-Excludes_example =
    acquire_mutex-Excludes (AmlValue.string (0x4d ∷ [])) (context 1 0) (context 2 0) some_objects
      taken refl (λ e. ground (arith, e))

-- A context whose level is above that of a mutex cannot have it.
level_above :
    acquire_mutex
      (AmlValue.string (0x4d ∷ []))
      (context 1 4, some (insert (0x4d ∷ []) (AmlValue.mutex 3 none) some_objects))
    ≡ err AmlError.value_error
unfolding acquire_mutex acquire object_name same_name
level_above = refl

abbrev added : AmlExecutionContext
added = record (context 1 0) { namespace_delta = (0x58 ∷ []) ∷ [] }

clean_namespace-add_all_example :
    (rest : Namespace) × (clean_namespace
        (added, some (insert (0x58 ∷ []) (AmlValue.integer 7) some_objects))
      ≡ (added, some rest))
    × ((n : List ℕ) → rest n ≡ (if is_among n added.namespace_delta then none else some_objects n))
unfolding add_to_namespace is_undefined same_name
clean_namespace-add_all_example =
    clean_namespace-add_all ((0x58 ∷ [], AmlValue.integer 7) ∷ []) (context 1 0) added some_objects
      (insert (0x58 ∷ []) (AmlValue.integer 7) some_objects) refl

waits_twice :
    wait_for_event (AmlValue.string (0x45 ∷ [])) (context 1 0, some some_objects)
    ≡ ok (true, (context 1 0, some (insert (0x45 ∷ []) (AmlValue.event 1) some_objects)))
unfolding wait_for_event wait object_name same_name
waits_twice = refl
