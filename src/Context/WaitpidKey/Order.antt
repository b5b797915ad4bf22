-- ===== src/Context/WaitpidKey/Order.antt =====
-- How far `cmp` is an order.
use faastr.Common.{◌≡◌, refl, none, some}
use Prim.Native.Nat.{Ordering}
use faastr.Context.WaitpidKey.{WaitpidKey, cmp}

-- The order is not transitive: of three keys, each can be less than the next and the last less
-- than the first, where one has no pid.
cmp-cycle :
    ¬ ((a b c : WaitpidKey) → cmp a b ≡ Ordering.lt → cmp b c ≡ Ordering.lt → cmp a c ≡ Ordering.lt)
unfolding cmp
cmp-cycle h = ne (
    h (record { pid = some 1; pgid = some 5 }) (record { pid = some 2; pgid = some 1 })
      (record { pid = none; pgid = some 3 }) refl refl)
  where
    ne : Ordering.gt ≡ Ordering.lt → ⊥
    ne e = cc
