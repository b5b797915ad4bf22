-- ===== src/Context/WaitpidKey.antt =====
-- `WaitpidKey` of kernel/src/context/context.rs and its order.
pub mod Order
use faastr.Common.{ℕ, Bool, true, false, Option, none, some}
use Prim.Native.Nat.{Ordering, compare}

pub record WaitpidKey : Type 0 where
  pub pid : Option ℕ
  pub pgid : Option ℕ

-- The tests behind the comparisons of two keys of one kind: whether only one key has the part.
abbrev pub presence : Option ℕ → Option ℕ → Ordering → Ordering
presence (some _) o rest = Ordering.gt
presence none (some _) rest = Ordering.lt
presence none none rest = rest

abbrev pub by_presence : WaitpidKey → WaitpidKey → Ordering
by_presence a b = presence a.pid b.pid (presence a.pgid b.pgid Ordering.eq)

abbrev pub by_pgid : WaitpidKey → WaitpidKey → Option ℕ → Option ℕ → Ordering
by_pgid a b (some s_pgid) (some o_pgid) = compare s_pgid o_pgid
by_pgid a b _ _ = by_presence a b

abbrev pub by_pid : WaitpidKey → WaitpidKey → Option ℕ → Option ℕ → Ordering
by_pid a b (some s_pid) (some o_pid) = compare s_pid o_pid
by_pid a b _ _ = by_pgid a b a.pgid b.pgid

-- `Ord::cmp`
unfoldable pub cmp : WaitpidKey → WaitpidKey → Ordering
cmp a b = by_pid a b a.pid b.pid
