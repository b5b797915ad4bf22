-- ===== src/Ringbuf/Handles.antt =====
-- The ring buffer with the handles that its two users hold, and what stays true in it.
use faastr.Common.{
  ℕ, zero, suc, ◌+◌, ◌^◌, ◌≤◌, ◌<◌, ◌≡◌, refl, inl, inr, List, [], ◌∷◌, Option, none, some, arith,
  ltb, Bool-cases,
}
use faastr.Common.Usize.{add_usize, sub_usize}
use faastr.Ringbuf.{Header, Handle}
use faastr.Ringbuf

-- The producer and the consumer are borrowed by their handle: while it exists, they can do nothing
-- but drop it.
pub record World : Type 0 where
  pub header : Header
  pub writing : Option Handle
  pub reading : Option Handle

pub data Op : Type 0 where
  try_write : ℕ → Op
  drop_write : Op
  try_read : ℕ → ℕ → Op
  drop_read : Op
  skip_n : ℕ → Op

abbrev pub writes : World → Option Handle × Header → World
writes w (handle, b) = record w { header = b; writing = handle }

abbrev pub reads : World → Option Handle × Header → World
reads w (handle, b) = record w { header = b; reading = handle }

abbrev pub step : Op → World → World
step (Op.try_write n) w = elim w.writing [
  | none ↦ writes w (Ringbuf.try_write n w.header)
  | some _ ↦ w
]
step Op.drop_write w = elim w.writing [
  | none ↦ w
  | some h ↦ record w { header = Ringbuf.drop_write h w.header; writing = none }
]
step (Op.try_read n times) w = elim w.reading [
  | none ↦ reads w (Ringbuf.try_read n times w.header)
  | some _ ↦ w
]
step Op.drop_read w = elim w.reading [
  | none ↦ w
  | some h ↦ record w { header = Ringbuf.drop_read h w.header; reading = none }
]
step (Op.skip_n n) w = elim w.reading [
  | none ↦ record w { header = (Ringbuf.skip_n n w.header).1 }
  | some _ ↦ w
]

abbrev pub run : List Op → World → World
run [] w = w
run (op ∷ ops) w = run ops (step op w)

-- What a handle promises.
abbrev pub Writing : Header → Option Handle → Type 0
Writing b none = Unit
Writing b (some h) = (h.current ≡ b.tail) × (h.current + h.n < b.head + b.capacity)

abbrev pub Reading : Header → Option Handle → Type 0
Reading b none = Unit
Reading b (some h) = (h.current ≡ b.head) × (h.current + h.n ≤ b.shadow_tail)

-- The consumer is behind the producer by no more than the capacity, and the shadows are old values
-- of the counters.
pub record IsRing (b : Header) : Type 0 where
  pub same_size : b.allocated_size ≡ b.capacity
  pub behind : b.head ≤ b.shadow_tail
  pub shadow : b.shadow_tail ≤ b.tail
  pub room : b.tail ≤ b.head + b.capacity
  pub old_head : b.shadow_head ≤ b.head

pub record IsWell (w : World) : Type 0 where
  pub ring : IsRing w.header
  pub writing : Writing w.header w.writing
  pub reading : Reading w.header w.reading

-- The bytes that a handle is still to count, and that an operation asks for.
abbrev pub pending : Option Handle → ℕ
pending none = 0
pending (some h) = h.n

abbrev pub asks : Op → ℕ
asks (Op.try_write n) = n
asks _ = 0

-- how far the counters can come
abbrev pub reach : World → ℕ
reach w = w.header.tail + pending w.writing + w.header.capacity

module _ (b : Header) (n : ℕ) where
  try_write_lem :
      IsRing b
      → b.tail + n + b.capacity < 2 ^ 64
      → let r = Ringbuf.try_write n b in
        (IsRing r.1)
        × Writing r.1 r.0
        × (r.1.head ≡ b.head)
        × (r.1.shadow_tail ≡ b.shadow_tail)
        × (r.1.tail ≡ b.tail)
        × (r.1.capacity ≡ b.capacity)
        × (pending r.0 ≤ n)
  unfolding Ringbuf.try_write
  try_write_lem w h = ground (arith, w)

-- What a call on the consumer's side keeps, whatever it returns.
abbrev pub Kept : Header → Header → Type 0
Kept b c = IsRing c × (c.tail ≡ b.tail) × (c.capacity ≡ b.capacity) × (b.head ≤ c.head)

fresh-IsRing : (b : Header) → IsRing b → IsRing (record b { shadow_tail = b.tail })
fresh-IsRing b w = record {
  same_size = w.same_size;
  behind = omega (arith, w.behind, w.shadow);
  shadow = omega arith;
  room = w.room;
  old_head = w.old_head;
}

try_read_lem :
    (n times : ℕ) (b : Header)
    → IsRing b
    → b.tail < 2 ^ 64
    → let r = Ringbuf.try_read n times b in Kept b r.1 × Reading r.1 r.0
unfolding Ringbuf.try_read
try_read_lem n zero b w h = ground (arith, w)
try_read_lem n (suc times) b w h =
    let fresh = record b { shadow_tail = b.tail } in
    elim (Bool-cases (ltb (sub_usize b.shadow_tail b.head) n)) [
      | inl more ↦ rw more (try_read_lem n times fresh (fresh-IsRing b w) h)
      | inr enough ↦
          rw enough
            ((w, refl, refl, omega arith), (refl, ground (arith, enough, w.behind, w.shadow, h)))
    ]

skip_n_lem : (n : ℕ) (b : Header) → IsRing b → b.tail < 2 ^ 64 → Kept b (Ringbuf.skip_n n b).1
unfolding Ringbuf.skip_n
skip_n_lem n b w h = ground (arith, w)

Reading-keep :
    (b c : Header) (o : Option Handle)
    → c.head ≡ b.head
    → b.shadow_tail ≤ c.shadow_tail
    → Reading b o
    → Reading c o
Reading-keep b c none p q h = tt
Reading-keep b c (some x) p q h = omega (arith, h)

Writing-keep :
    (b c : Header) (o : Option Handle)
    → c.tail ≡ b.tail
    → c.capacity ≡ b.capacity
    → b.head ≤ c.head
    → Writing b o
    → Writing c o
Writing-keep b c none p q r h = tt
Writing-keep b c (some x) p q r h = omega (arith, h)

abbrev world : Header → Option Handle → Option Handle → World
world b writing reading = record { header = b; writing = writing; reading = reading }

step_parts :
    (op : Op) (b : Header) (writing reading : Option Handle)
    → IsWell (world b writing reading)
    → reach (world b writing reading) + asks op < 2 ^ 64
    → let after = step op (world b writing reading) in
      IsWell after × (reach after ≤ reach (world b writing reading) + asks op)
unfolding Ringbuf.drop_write Ringbuf.drop_read
step_parts (Op.try_write n) b (some x) reading h k = (h, omega arith)
step_parts (Op.try_write n) b none reading h k =
    let (ring, writing, heads, shadows, tails, sizes, less) =
      try_write_lem b n h.ring (omega arith) in
    (
      record {
        ring = ring;
        writing = writing;
        reading = Reading-keep b (Ringbuf.try_write n b).1 reading heads (omega arith) h.reading;
      },
      omega arith,
    )
step_parts Op.drop_write b none reading h k = (h, omega arith)
step_parts Op.drop_write b (some x) reading h k = (
  record {
    ring = record {
      same_size = h.ring.same_size;
      behind = h.ring.behind;
      shadow = omega (arith, h.ring.shadow, h.writing);
      room = omega (arith, h.writing);
      old_head = h.ring.old_head;
    };
    writing = tt;
    reading = Reading-keep b (Ringbuf.drop_write x b) reading refl (omega arith) h.reading;
  },
  omega (arith, h.writing),
)
step_parts (Op.try_read n times) b writing (some y) h k = (h, omega arith)
step_parts (Op.try_read n times) b writing none h k =
    let ((ring, tails, sizes, heads), reading) = try_read_lem n times b h.ring (omega arith) in
    (
      record {
        ring = ring;
        writing = Writing-keep b (Ringbuf.try_read n times b).1 writing tails sizes heads h.writing;
        reading = reading;
      },
      omega (arith, tails, sizes),
    )
step_parts Op.drop_read b writing none h k = (h, omega arith)
step_parts Op.drop_read b writing (some y) h k =
    let on : b.head ≤ add_usize y.current y.n = omega (arith, h.reading, h.ring.shadow) in
    (
      record {
        ring = record {
          same_size = h.ring.same_size;
          behind = omega (arith, h.reading, h.ring.shadow);
          shadow = h.ring.shadow;
          room = omega (arith, on, h.ring.room);
          old_head = omega (arith, on, h.ring.old_head);
        };
        writing = Writing-keep b (Ringbuf.drop_read y b) writing refl refl on h.writing;
        reading = tt;
      },
      omega arith,
    )
step_parts (Op.skip_n n) b writing (some y) h k = (h, omega arith)
step_parts (Op.skip_n n) b writing none h k =
    let (ring, tails, sizes, heads) = skip_n_lem n b h.ring (omega arith) in
    (
      record {
        ring = ring;
        writing = Writing-keep b (Ringbuf.skip_n n b).1 writing tails sizes heads h.writing;
        reading = tt;
      },
      omega (arith, tails, sizes),
    )

abbrev pub asks_all : List Op → ℕ
asks_all [] = 0
asks_all (op ∷ ops) = asks op + asks_all ops

-- In every order of the operations of a producer and a consumer, as long as the counters stay
-- below 2 ^ 64: the consumer does not pass the producer, the producer is ahead of the consumer by at
-- most the capacity, a handle to write covers free bytes only, and a handle to read covers bytes that
-- are written.
pub run-IsWell :
    (ops : List Op) (w : World) → IsWell w → reach w + asks_all ops < 2 ^ 64 → IsWell (run ops w)
run-IsWell [] w h k = h
run-IsWell (op ∷ ops) w h k =
    let (well, less) = step_parts op w.header w.writing w.reading h (omega arith) in
    run-IsWell ops (step op w) well (omega (arith, less))
