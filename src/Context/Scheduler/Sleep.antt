-- ===== src/Context/Scheduler/Sleep.antt =====
-- What `nanosleep` comes to for the context that calls it.
use faastr.Common.{ℕ, map}
use faastr.Context.{Context}
use faastr.Context.Scheduler.{Scheduler, wake_time, go_to_sleep}

module _ (cpu : ℕ) (start later req : ℕ × ℕ) (s : Scheduler) where
  sleeper : Context → Context
  sleeper = go_to_sleep s.current (wake_time start req)

  asleep : Scheduler
  asleep = record s { contexts = map sleeper s.contexts }
