-- ===== src/Paging/Samples.antt =====
-- An allocator and page tables for the runs and the examples.
use faastr.Common.{
  ℕ, ◌+◌, ◌^◌, ◌≤◌, ◌<◌, ◌≡◌, ◌≢◌, ◌⊎◌, inl, inr, false, none, some, arith, refl, sym, subst,
  some_inj, ltb, ◌==◌, ◌&&◌, if◌then◌else◌, ℕ_discrete,
}
use faastr.Memory.FrameAllocator.{FrameAllocator}
use faastr.Paging.Entry.{is_unused, address, flags, pointed_frame, counter_bits}
use faastr.Paging.Entry.Fields.{is_unused-zero}
use faastr.Paging.Table.{PageTables, entry_count, next_table}
use faastr.Paging.Mapper.Forest.{IsForest}
use faastr.Paging.Mapper.Supply.{Supply}
use faastr.Paging.Mapper.Laws.{Tree}

-- An allocator that gives out the next frame, and keeps what is given back.
abbrev pub next_frame : FrameAllocator ℕ
next_frame = record {
  set_noncore = λ b s. s;
  free_frames = λ s. 0;
  used_frames = λ s. s;
  allocate_frames = λ n s. if ltb s (2 ^ 40) then some (some s, s + n) else some (none, s);
  deallocate_frames = λ f n s. some s;
}

abbrev pub IsFree : ℕ → ℕ → Type 0
IsFree s f = s ≤ f

taken_frame :
    (s s' f : ℕ)
    → next_frame.allocate_frames 1 s ≡ some (some f, s')
    → (f ≡ s) × (s' ≡ s + 1) × (s < 2 ^ 40)
taken_frame s s' f h = ground arith

pub next_frame-Supply : Supply next_frame IsFree
next_frame-Supply = record {
  was_free = λ s s' f h. omega (arith, taken_frame s s' f h);
  is_taken = λ s s' f h k. omega (arith, taken_frame s s' f h, k);
  takes = λ s s' f g h k. omega (arith, taken_frame s s' f h, k);
  fits = λ s s' f h. omega (arith, taken_frame s s' f h);
  gives = λ s s' f g h k. inl (subst (λ x. x ≤ g) (sym (some_inj h)) k);
}

-- One table of the fourth level, in the frame 1, with its recursive entry.
abbrev pub empty_entries : ℕ → ℕ → ℕ
empty_entries t i = if t == 1 && i == 511 then 4099 else 0

abbrev pub empty_tables : PageTables ℕ
empty_tables = record { entries = empty_entries; frames = 2 }

abbrev level : ℕ → ℕ
level t = if t == 1 then 4 else 0

level-pos : (t : ℕ) → 0 < level t → (t ≡ 1) × (level t ≡ 4)
level-pos t p = ground arith

recursive_entry : next_table empty_entries 1 511 ≡ some 1
unfolding next_table flags address
recursive_entry = refl

-- 4099 is the frame 1, present and writable.
recursive_used : (is_unused 4099 ≡ false) × (pointed_frame 4099 ≡ some 1)
unfolding is_unused pointed_frame flags address
recursive_used = (refl, refl)

entry-cases : (t i : ℕ) → ((i ≡ 511) × (empty_entries t i ≡ 4099)) ⊎ (empty_entries t i ≡ 0)
entry-cases t i = elim (ℕ_discrete t 1) [
  | no ne ↦ inr (ground (arith, ne))
  | yes e ↦ elim (ℕ_discrete i 511) [
    | no ne ↦ inr (ground (arith, ne))
    | yes e' ↦ inl (e', ground (arith, e, e'))
  ]
]

no_tables :
    (t i c : ℕ)
    → 1 < level t
    → (level t < 4) ⊎ (i ≢ 511)
    → next_table empty_entries t i ≡ some c
    → ⊥
unfolding next_table flags
no_tables t i c p q h = elim (entry-cases t i) [
  | inl (e, _) ↦ elim q [
    | inl l ↦ omega (arith, l, (level-pos t (omega (arith, p))).1)
    | inr ne ↦ ne e
  ]
  | inr e ↦ cc (rw e at h)
]

empty_count : (t : ℕ) → entry_count empty_entries t ≡ 0
unfolding entry_count counter_bits
empty_count t = elim (entry-cases t 0) [
  | inl (e, _) ↦ absurd (omega (arith, e))
  | inr e ↦ rw e refl
]

empty-IsForest : IsForest 1 empty_entries (λ t. 0) (λ t. 0) level
empty-IsForest = record {
  words = λ t i. elim (entry-cases t i) [
    | inl (_, e) ↦ rw e (omega arith)
    | inr e ↦ rw e (omega arith)
  ];
  root = refl;
  low = λ t. ground arith;
  below = λ t i c p q h. absurd (no_tables t i c p q h);
  above = λ t i c p q h. absurd (no_tables t i c p q h);
  clean = λ t i p h. elim (entry-cases t i) [
    | inl (_, e) ↦ absurd (cc (rw e at h, recursive_used.1))
    | inr e ↦ rw e is_unused-zero
  ];
  bounded = λ t p. omega (arith, empty_count t);
  counted = λ t p q. absurd (omega (arith, q, (level-pos t p).1));
}

pub empty-Tree : Tree IsFree 1 empty_tables
unfolding flags
empty-Tree = (
  λ t. 0,
  λ t. 0,
  level,
  record {
    forest = empty-IsForest;
    unshared = λ f h. ground (arith, h);
    small = λ t i p. elim (entry-cases t i) [ inl (_, e) ↦ rw e refl | inr e ↦ rw e refl ];
  },
)
