-- ===== src/Memory/Merge/GiveBack.antt =====
-- A block that is given back to a well-formed free list is in the list afterwards.
use faastr.Common.{
  ℕ, suc, ◌+◌, ◌≤◌, ◌≡◌, List, [], ◌∷◌, ◌++◌, Option, some, Bool, true, false, arith, sum_by-append,
  length,
}
use faastr.Memory.Blocks.{Block, covers, held, Fits, IsSeparated, IsSeparated-push}
use faastr.Memory.Merge.{merge, give_back}
use faastr.Memory.Merge.Laws.{Gained, Merges, merge_total}

module _ (free : List Block) (b : Block) where
  merged : Option (List Block × Bool)
  merged = merge (suc (suc (suc (length free)))) free b.address b.count

  give_back-true :
      {free' : List Block}
      → merged ≡ some (free', true)
      → give_back free b.address b.count ≡ some free'
  unfolding give_back merged
  give_back-true e = rw (e, give_back)

  give_back-false :
      {free' : List Block}
      → merged ≡ some (free', false)
      → give_back free b.address b.count ≡ some (free' ++ b ∷ [])
  unfolding give_back merged
  give_back-false e = rw (e, give_back)

  given :
      IsSeparated free
      → Fits b
      → (r : List Block × Bool) → merged ≡ some r
      → Merges free b r
      → (free' : List Block) × (give_back free b.address b.count ≡ some free') × Gained free b free'
  given sep fb (free', true) e g = (free', give_back-true e, g)
  given sep fb (free', false) e (same, apart) = (
    free' ++ b ∷ [],
    give_back-false e,
    rw same (record {
      well = IsSeparated-push b free fb sep apart;
      holds = λ x. omega (arith, sum_by-append (covers x) free (b ∷ []));
      counts = omega (arith, sum_by-append (λ c. c.count) free (b ∷ []));
    }),
  )

  pub give_back_lem :
      IsSeparated free
      → Fits b
      → ((x : ℕ) → held free x + covers x b ≤ 1)
      → (free' : List Block) × (give_back free b.address b.count ≡ some free') × Gained free b free'
  unfolding merged
  give_back_lem sep fb new =
      let (r, e, m) = merge_total (length free) free sep b fb new in given sep fb r e m
