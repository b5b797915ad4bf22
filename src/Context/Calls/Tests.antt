-- ===== src/Context/Calls/Tests.antt =====
-- Calls on concrete contexts.
use faastr.Common.{Bool, true, false, ℕ, ◌≡◌, refl, [], ◌∷◌, some}
use faastr.Sos.Bytes.{slice, write_at}
use faastr.Context.{Status, Context, new_context, block}
use faastr.Context.ContextList.{free_id, insert}
use faastr.Context.Values.{ContextValues, SosValue, with_room, as_slice_mut, append_encode}
use faastr.Context.Calls.{System, look, init, called, fuse_switch, fuse_inner}
use faastr.Context.Calls.Looks.{IsLinked}
use faastr.Context.Calls.Steps.{Step, Reach, Reach-IsLinked}
use faastr.Context.Calls.Return.{Gives, RoundTrip, sys_return_lem, sys_return-fuse_inner}

abbrev kernel : Context
kernel = record new_context { id = 1; status = Status.running; cpu_id = some 0 }

abbrev booted : System
booted = record { contexts = record { map = kernel ∷ []; next_id = 2 }; current = 1 }

init-booted : init 0 ≡ some booted
unfolding init insert free_id
init-booted = refl

abbrev always : ℕ → Bool
always n = true

-- encodes to three bytes
abbrev three : SosValue
three = record { encoded_len = 3; encode = λ into. some (1 ∷ 2 ∷ 3 ∷ []) }

abbrev spawned : Context
spawned = record new_context {
  args = record {
    memory = some (record {
      context_address = 4096;
      kernel_mapped = true;
      shared = false;
      bytes = 0 ∷ 0 ∷ 0 ∷ 0 ∷ [];
    });
    offset = 0;
  };
}

abbrev callee : Context
callee = record spawned {
  id = 2;
  status = Status.running;
  ret_link = some 1;
  cpu_id = some 0;
  function = 77;
  args = record {
    memory = some (record {
      context_address = 4096;
      kernel_mapped = true;
      shared = false;
      bytes = 1 ∷ 2 ∷ 3 ∷ 0 ∷ [];
    });
    offset = 3;
  };
}

abbrev fused : System
fused = record { contexts = record { map = kernel ∷ callee ∷ []; next_id = 3 }; current = 2 }

fuse_fused : fuse_inner always three 77 spawned booted ≡ some (some 2, fused)
unfolding fuse_inner called append_encode with_room as_slice_mut insert free_id fuse_switch block
    slice write_at
fuse_fused = refl

Reach-IsLinked_example : IsLinked fused
Reach-IsLinked_example = Reach-IsLinked 0 fused (
    Reach.later (Reach.starts init-booted)
      (Step.fuses always three 77 spawned (some 2) fused fuse_fused))

fused-IsLinked : IsLinked fused
fused-IsLinked = Reach-IsLinked 0 fused (
    Reach.later (Reach.starts init-booted)
      (Step.fuses always three 77 spawned (some 2) fused fuse_fused))

sys_return_lem_example : Gives (0, 0) (9 ∷ []) 0 fused 1 callee
sys_return_lem_example = sys_return_lem 0 (0, 0) (9 ∷ []) fused callee 1 fused-IsLinked refl refl

booted-IsLinked : IsLinked booted
booted-IsLinked = Reach-IsLinked 0 booted (Reach.starts init-booted)

sys_return-fuse_inner_example :
    (caller : Context) × (callee : Context) × (appended : ℕ × ContextValues) × (look booted 1
      ≡ some caller)
    × (append_encode always three spawned.args ≡ some appended)
    × (callee ≡ record spawned {
      id = 2;
      function = 77;
      ret_link = some 1;
      cpu_id = caller.cpu_id;
      args = appended.1;
    })
    × RoundTrip 0 (0, 0) (9 ∷ []) booted 2 fused callee
sys_return-fuse_inner_example =
    sys_return-fuse_inner 0 (0, 0) always three 77 spawned (9 ∷ []) booted fused 2 booted-IsLinked
      fuse_fused
