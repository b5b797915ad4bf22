-- ===== src/Context/ContextList/Insert.antt =====
-- What `ContextList::insert` promises.
use faastr.Common.{
  ℕ, true, false, zero, suc, ◌≤◌, ◌<◌, ◌≡◌, ◌≢◌, inl, inr, refl, sym, ap, subst, some_inj, ◌∙◌,
  List, [], ◌∷◌, Option, none, some, arith, ltb, leb, ◌==◌, All-map, if◌then◌else◌, length, sum_by,
  All, Option-cases, Bool-cases,
}
use faastr.Common.Usize.{add_usize}
use faastr.Context.{Context}
use faastr.Context.ContextList.{
  ContextList, context_max_contexts, get, put, free_id, first_id, insert,
}

-- In ascending order of the identifiers, with no identifier twice.
abbrev pub Ascending : List Context → Type 0
Ascending [] = Unit
Ascending (c ∷ cs) = All (λ d. c.id < d.id) cs × Ascending cs

-- Identifiers below the limit, in order.
pub record IsWellFormed (contexts : ContextList) : Type 0 where
  pub small : All (λ c. c.id < context_max_contexts) contexts.map
  pub ascending : Ascending contexts.map
  pub next_small : contexts.next_id ≤ context_max_contexts

from : ℕ → Context → ℕ
from n c = if leb n c.id then 1 else 0

from-le-length : (n : ℕ) (cs : List Context) → sum_by (from n) cs ≤ length cs
unfolding from
from-le-length n [] = omega arith
from-le-length n (c ∷ cs) = ground (arith, from-le-length n cs)

from-suc : (n : ℕ) (cs : List Context) → sum_by (from (suc n)) cs ≤ sum_by (from n) cs
unfolding from
from-suc n [] = omega arith
from-suc n (c ∷ cs) = ground (arith, from-suc n cs)

-- Past an identifier that is taken, there is one less to pass.
from-lt :
    (n : ℕ) (cs : List Context) {c : Context}
    → get n cs ≡ some c
    → sum_by (from (suc n)) cs < sum_by (from n) cs
unfolding from
from-lt n [] e = absurd (ground arith)
from-lt n (d ∷ cs) {c} e = elim (Bool-cases (n == d.id)) [
  | inl here ↦ ground (arith, from-suc n cs)
  | inr on ↦ ground (arith, from-lt n cs {c = c} (ground arith))
]

get-small :
    (n : ℕ) (cs : List Context) {c : Context}
    → All (λ d. d.id < context_max_contexts) cs
    → get n cs ≡ some c
    → n < context_max_contexts
get-small n [] h e = absurd (ground arith)
get-small n (d ∷ cs) {c} h e = elim (Bool-cases (n == d.id)) [
  | inl here ↦ ground (arith, h.0)
  | inr on ↦ get-small n cs {c = c} h.1 (ground arith)
]

free_id-total :
    (fuel : ℕ) (cs : List Context) (n : ℕ)
    → All (λ d. d.id < context_max_contexts) cs
    → n ≤ context_max_contexts
    → sum_by (from n) cs < fuel
    → (id : ℕ) × (free_id fuel cs n ≡ some id)
      × (n ≤ id)
      × (id ≤ context_max_contexts)
      × (get id cs ≡ none)
      × ((k : ℕ) → n ≤ k → k < id → get k cs ≢ none)
unfolding free_id
free_id-total zero cs n h le f = absurd (omega arith)
free_id-total (suc fuel) cs n h le f = elim (Option-cases (get n cs)) [
  | inl e ↦ (n, rw (e, free_id), omega arith, le, e, λ k p q. absurd (omega arith))
  | inr (c, e) ↦
      let small = get-small n cs h e in
      let (id, f', lo, hi, new, taken) =
        free_id-total fuel cs (suc n) h (omega arith) (omega (arith, from-lt n cs e)) in
      (
        id,
        rw (e, free_id) (ap (free_id fuel cs) (omega arith) ∙ f'),
        omega arith,
        hi,
        new,
        λ k p q. elim (Bool-cases (n == k)) [
          | inl here ↦ λ z. absurd (some_ne_none (sym e ∙ ap (λ i. get i cs) (ground arith) ∙ z))
          | inr on ↦ taken k (ground arith) q
        ],
      )
]
  where
    some_ne_none : {A : Type 0} {a : A} → some a ≡ none → ⊥
    some_ne_none e = cc

get-put :
    (k : ℕ) (c : Context) (cs : List Context)
    → get k (put c cs) ≡ (if k == c.id then some c else get k cs)
get-put k c [] = refl
get-put k c (d ∷ ds) = ground (arith, get-put k c ds)

pub get-All :
    (P : Context → Type 0) (k : ℕ) (cs : List Context) {c : Context}
    → get k cs ≡ some c
    → All P cs
    → P c
get-All P k [] e h = absurd (ground arith)
get-All P k (d ∷ cs) {c} e h = elim (Bool-cases (k == d.id)) [
  | inl here ↦ subst P (some_inj (sym (rw here refl) ∙ e)) h.0
  | inr on ↦ get-All P k cs {c = c} (ground (arith, on)) h.1
]

put-All :
    (P : Context → Type 0) (c : Context) (cs : List Context) → P c → All P cs → All P (put c cs)
put-All P c [] p h = (p, tt)
put-All P c (d ∷ ds) p h = ground (arith, put-All P c ds p h.1)

put-Ascending : (c : Context) (cs : List Context) → Ascending cs → Ascending (put c cs)
put-Ascending c [] h = (tt, tt)
put-Ascending c (d ∷ ds) h = elim (Bool-cases (ltb c.id d.id)) [
  | inl lt ↦ rw lt (
    (
      ground (arith, lt),
      All-map (λ e. d.id < e.id) (λ e. c.id < e.id) (λ e q. ground (arith, lt, q)) ds h.0,
    ),
    h,
  )
  | inr not_lt ↦ elim (Bool-cases (c.id == d.id)) [
    | inl same ↦
        rw (not_lt, same)
          (
            All-map (λ e. d.id < e.id) (λ e. c.id < e.id) (λ e q. ground (arith, same, q)) ds h.0,
            h.1,
          )
    | inr other ↦
        rw (not_lt, other)
          (put-All (λ e. d.id < e.id) c ds (ground arith) h.0, put-Ascending c ds h.1)
  ]
]

-- On success the context is in the list under an identifier that was not in use, the rest is as
-- before; on failure nothing changes, and every identifier from the first tried on is in use.
abbrev pub Inserts : Context → ContextList → Option ℕ × ContextList → Type 0
Inserts context before (some id, after) =
    (id < context_max_contexts)
    × (get id before.map ≡ none)
    × ((k : ℕ)
        → get k after.map
          ≡ (if k == id then some (record context { id = id }) else get k before.map))
    × IsWellFormed after
Inserts context before (none, after) =
    (after.map ≡ before.map)
    × ((k : ℕ) → first_id before ≤ k → k < context_max_contexts → get k before.map ≢ none)
    × IsWellFormed after

module _ (context : Context) (contexts : ContextList) {id : ℕ}
    (e : free_id (suc (length contexts.map)) contexts.map (first_id contexts) ≡ some id) where
  insert_full :
      leb context_max_contexts id ≡ true
      → insert context contexts ≡ some (none, record contexts { next_id = id })
  unfolding insert
  insert_full full = rw (e, insert) (rw full refl)

  insert_room :
      leb context_max_contexts id ≡ false
      → insert context contexts
        ≡ some (
          some id,
          record { map = put (record context { id = id }) contexts.map; next_id = add_usize id 1 },
        )
  unfolding insert
  insert_room room = rw (e, insert) (rw room refl)

-- `insert` returns on every well-formed list: it finds an identifier that is not in use, stores the
-- context under it and leaves every other context alone, or it fails, changes no context, and every
-- identifier from where it starts to the limit is in use. The list stays well formed.
pub insert_lem :
    (context : Context) (contexts : ContextList)
    → IsWellFormed contexts
    → (r : Option ℕ × ContextList) × (insert context contexts ≡ some r) × Inserts context contexts r
insert_lem context contexts w =
    let (id, e, lo, hi, new, taken) =
      free_id-total (suc (length contexts.map)) contexts.map (first_id contexts) w.small
        (ground (arith, w.next_small))
        (omega (arith, from-le-length (first_id contexts) contexts.map)) in
    elim (Bool-cases (leb context_max_contexts id)) [
      | inl full ↦ (
        (none, record contexts { next_id = id }),
        insert_full context contexts e full,
        (
          refl,
          λ k p q. taken k p (ground (arith, full)),
          record { small = w.small; ascending = w.ascending; next_small = hi },
        ),
      )
      | inr room ↦ (
        (
          some id,
          record { map = put (record context { id = id }) contexts.map; next_id = add_usize id 1 },
        ),
        insert_room context contexts e room,
        (
          ground (arith, room),
          new,
          λ k. get-put k (record context { id = id }) contexts.map,
          record {
            small =
                put-All (λ c. c.id < context_max_contexts) (record context { id = id }) contexts.map
                  (ground (arith, room)) w.small;
            ascending = put-Ascending (record context { id = id }) contexts.map w.ascending;
            next_small = ground (arith, room);
          },
        ),
      )
    ]
