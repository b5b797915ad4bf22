-- ===== src/Ringbuf/Tests.antt =====
-- Runs of the ring buffer.
use faastr.Common.{◌≡◌, ◌<◌, ◌≤◌, ◌⊎◌, refl, List, [], ◌∷◌, none, some, arith}
use faastr.Ringbuf.{Header, Handle, offset, deref, prev_power_of_two}
use faastr.Ringbuf.Handles.{World, Op, run, IsRing, IsWell, run-IsWell}
use faastr.Ringbuf.Apart.{deref_apart, deref_aligned}

power_test : prev_power_of_two 100 ≡ 64
unfolding prev_power_of_two
power_test = refl

-- 40 bytes behind the head, of 64, in the second round
abbrev busy : Header
busy = record {
  capacity = 64;
  allocated_size = 64;
  head = 80;
  shadow_tail = 100;
  tail = 120;
  shadow_head = 70;
}

abbrev idle : World
idle = record { header = busy; writing = none; reading = none }

busy-IsRing : IsRing busy
busy-IsRing = record {
  same_size = refl;
  behind = omega arith;
  shadow = omega arith;
  room = omega arith;
  old_head = omega arith;
}

abbrev ops : List Op
ops = Op.try_write 16 ∷ Op.try_read 8 1 ∷ Op.drop_write ∷ Op.drop_read ∷ Op.skip_n 100 ∷ []

run-IsWell_example : IsWell (run ops idle)
run-IsWell_example =
    run-IsWell ops idle (record { ring = busy-IsRing; writing = tt; reading = tt }) (omega arith)

abbrev writer : Handle
writer = record { current = 120; n = 8 }

abbrev reader : Handle
reader = record { current = 80; n = 20 }

abbrev both : World
both = record { header = busy; writing = some writer; reading = some reader }

both-IsWell : IsWell both
both-IsWell = record {
  ring = busy-IsRing;
  writing = (refl, omega arith);
  reading = (refl, omega arith);
}

writer_slice : deref busy writer ≡ some (56, 64)
unfolding deref offset
writer_slice = refl

reader_slice : deref busy reader ≡ some (16, 36)
unfolding deref offset
reader_slice = refl

deref_apart_example : (60 < 16) ⊎ (36 ≤ 60)
deref_apart_example =
    deref_apart both writer reader 6 both-IsWell (omega arith) refl refl refl 56 64 16 36
      writer_slice reader_slice 60 (omega arith) (omega arith)

deref_aligned_example : deref busy (record { current = 112; n = 16 }) ≡ some (48, 64)
deref_aligned_example =
    deref_aligned busy (record { current = 112; n = 16 }) 7 4 6 (omega arith) refl refl refl refl
