-- ===== src/Context/Values/Appended.antt =====
-- What `append_encode` leaves in the memory.
use faastr.Common.{
  none, ℕ, suc, ◌+◌, ◌-◌, ◌*◌, ◌%◌, ◌^◌, ◌≤◌, ◌<◌, ◌≡◌, refl, sym, ap, ◌∙◌, inl, inr, subst, zero,
  [], ◌∷◌, ◌++◌, some, ltb, length, take, drop, replicate, arith, take-append-drop, length-append,
  length-take, length-drop, length-replicate, Bool-cases, Bool, true, false, not, ◌&&◌,
}
use faastr.Common.Usize.{add_usize, sub_usize}
use faastr.Paging.Table.{◌>>=◌}
use faastr.Sos.Bytes.{Bytes, slice, write_at, take-append, slice_middle, write_at_middle}
use faastr.Context.Values.{
  SosValue, ValuesMemory, ContextValues, as_slice_mut, resize, grown_pages, resize_bytes, with_room,
  encode_at, append_encode,
}

-- Encoding fills a slice of the right length with these bytes.
pub record Encodes (values : SosValue) (wire : Bytes) : Type 0 where
  pub full : length wire ≡ values.encoded_len
  pub written : (into : Bytes) → length into ≡ values.encoded_len → values.encode into ≡ some wire

-- Memory of whole pages, filled up to the offset, which the kernel can write.
pub record IsSound (v : ContextValues) (memory : ValuesMemory) : Type 0 where
  pub mapped : v.memory ≡ some memory
  pub written_to : as_slice_mut memory ≡ some memory.bytes
  pub inside : v.offset ≤ length memory.bytes
  pub whole : length memory.bytes % 4096 ≡ 0

take_all : (xs : Bytes) → take (length xs) xs ≡ xs
take_all [] = refl
take_all (x ∷ xs) = ap (◌∷◌ x) (take_all xs)

length-resize_bytes : (count : ℕ) (src : Bytes) → length (resize_bytes count src) ≡ count * 4096
unfolding resize_bytes
length-resize_bytes count src = ground (
  arith,
  length-append src (replicate (count * 4096 - length src) 0),
  length-replicate {A = ℕ} (count * 4096 - length src) 0,
  length-take (count * 4096) src,
)

resize_bytes-keeps :
    (count : ℕ) (src : Bytes)
    → length src ≤ count * 4096
    → take (length src) (resize_bytes count src) ≡ src
unfolding resize_bytes
resize_bytes-keeps count src h = elim (Bool-cases (ltb (length src) (count * 4096))) [
  | inl longer ↦ rw longer (take-append src (replicate (count * 4096 - length src) 0))
  | inr same ↦
      let n : count * 4096 ≡ length src = ground (arith, same) in
      rw (same, n, take_all src) (take_all src)
]

-- What `with_room` leaves.
record HasRoom (need offset : ℕ) (memory after : ValuesMemory) : Type 0 where
  inside : offset + need ≤ length after.bytes
  pages : length after.bytes % 4096 ≡ 0
  same : after.context_address ≡ memory.context_address
  kept : take (length memory.bytes) after.bytes ≡ memory.bytes
  all : as_slice_mut after ≡ some after.bytes

-- There is room enough, and what was there is still there.
with_room_lem :
    (resizes : ℕ → Bool) (need offset : ℕ) (memory : ValuesMemory)
    → offset ≤ length memory.bytes
    → length memory.bytes % 4096 ≡ 0
    → length memory.bytes + need + 4096 < 2 ^ 64
    → as_slice_mut memory ≡ some memory.bytes
    → resizes (grown_pages need memory) ≡ true
    → (after : ValuesMemory) × (with_room resizes need offset memory ≡ some after)
      × HasRoom need offset memory after
unfolding with_room resize as_slice_mut
with_room_lem resizes need offset memory h w small slice can =
    let count : ℕ = grown_pages need memory in
    let big : length memory.bytes + need ≤ count * 4096 = omega arith in
    let long : length (resize_bytes count memory.bytes) ≡ count * 4096 =
      length-resize_bytes count memory.bytes in
    let kept : take (length memory.bytes) (resize_bytes count memory.bytes) ≡ memory.bytes =
      resize_bytes-keeps count memory.bytes (omega arith) in
    let larger : ValuesMemory = record memory {
      kernel_mapped = true;
      shared = false;
      bytes = resize_bytes count memory.bytes;
    } in
    elim (Bool-cases (ltb (sub_usize (length memory.bytes) offset) need)) [
      | inl grows ↦ (
        larger,
        rw (grows, can) refl,
        record { inside = omega arith; pages = omega arith; same = refl; kept = kept; all = refl },
      )
      | inr fits ↦ (
        memory,
        rw fits refl,
        record {
          inside = ground (arith, fits);
          pages = w;
          same = refl;
          kept = take_all memory.bytes;
          all = slice;
        },
      )
    ]

still_written :
    (m : ValuesMemory) (b : Bytes)
    → as_slice_mut m ≡ some m.bytes
    → as_slice_mut (record m { bytes = b }) ≡ some b
unfolding as_slice_mut
still_written m b e = elim (Bool-cases (m.kernel_mapped && not m.shared)) [
  | inl can ↦ rw can refl
  | inr not_can ↦ absurd (none_ne_some (sym (rw not_can refl) ∙ e))
]
  where
    none_ne_some : {A : Type 0} {a : A} → none ≡ some a → ⊥
    none_ne_some e = cc

split : (n k : ℕ) (xs : Bytes) → take n xs ++ (take k (drop n xs) ++ drop k (drop n xs)) ≡ xs
split n k xs = ap (λ ys. take n xs ++ ys) (take-append-drop k (drop n xs)) ∙ take-append-drop n xs

take-take : (m n : ℕ) (xs : Bytes) → m ≤ n → take m (take n xs) ≡ take m xs
take-take zero n xs h = refl
take-take (suc m) zero xs h = absurd (omega arith)
take-take (suc m) (suc n) [] h = refl
take-take (suc m) (suc n) (x ∷ xs) h = ap (◌∷◌ x) (take-take m n xs (omega arith))

-- What a call leaves: the values at the address that it gives, behind what was there before.
pub record Appends (wire : Bytes) (v : ContextValues) (memory : ValuesMemory)
    (r : ℕ × ContextValues) : Type 0 where
  pub address : r.0 ≡ memory.context_address + v.offset
  pub after : ValuesMemory
  pub sound : IsSound r.1 after
  pub same_address : after.context_address ≡ memory.context_address
  pub earlier : take v.offset after.bytes ≡ take v.offset memory.bytes
  pub values : slice after.bytes v.offset (v.offset + length wire) ≡ some wire
  pub next : r.1.offset ≡ v.offset + length wire

module _ (values : SosValue) (wire : Bytes) (e : Encodes values wire) where
  written_in :
      (v : ContextValues) (m : ValuesMemory)
      → v.offset + values.encoded_len ≤ length m.bytes
      → v.offset + values.encoded_len < 2 ^ 64
      → m.context_address + v.offset < 2 ^ 64
      → as_slice_mut m ≡ some m.bytes
      → (rest : Bytes) × (length rest ≡ length m.bytes - (v.offset + values.encoded_len))
        × (encode_at values v m
            ≡ some (
              m.context_address + v.offset,
              record {
                memory = some (record m { bytes = take v.offset m.bytes ++ (wire ++ rest) });
                offset = v.offset + values.encoded_len;
              },
            ))
  written_in v m inside small low all =
      let need = values.encoded_len in
      let pre : Bytes = take v.offset m.bytes in
      let old : Bytes = take need (drop v.offset m.bytes) in
      let post : Bytes = drop need (drop v.offset m.bytes) in
      let parts : pre ++ (old ++ post) ≡ m.bytes = split v.offset need m.bytes in
      let pre_length : length pre ≡ v.offset = omega (arith, length-take v.offset m.bytes) in
      let old_length : length old ≡ need =
        omega (arith, length-take need (drop v.offset m.bytes), length-drop v.offset m.bytes) in
      let cut : slice m.bytes v.offset (v.offset + need) ≡ some old =
        subst (λ b. slice b v.offset (v.offset + need) ≡ some old) parts
          (slice_middle pre old post v.offset (v.offset + need) (omega arith) (omega arith)) in
      let put : write_at m.bytes v.offset wire ≡ some (pre ++ (wire ++ post)) =
        subst (λ b. write_at b v.offset wire ≡ some (pre ++ (wire ++ post))) parts
          (write_at_middle pre old post wire v.offset (omega arith) (omega (arith, e.full))) in
      let end : add_usize v.offset need ≡ v.offset + need = omega arith in
      let start : add_usize m.context_address v.offset ≡ m.context_address + v.offset =
        omega arith in
      (
        post,
        omega (arith, length-drop need (drop v.offset m.bytes), length-drop v.offset m.bytes),
        rw (all, end, start, cut, e.written old old_length, put) refl,
      )

  -- Where the memory can grow, appending returns, whether the memory has room for the values or
  -- grows: they stand at the address that it gives, behind the values from before, which are still
  -- there.
  pub append_encode_lem :
      (resizes : ℕ → Bool) (v : ContextValues) (memory : ValuesMemory)
      → IsSound v memory
      → length memory.bytes + values.encoded_len + 4096 < 2 ^ 64
      → memory.context_address + v.offset < 2 ^ 64
      → resizes (grown_pages values.encoded_len memory) ≡ true
      → (r : ℕ × ContextValues) × (append_encode resizes values v ≡ some r)
        × Appends wire v memory r
  unfolding append_encode
  append_encode_lem resizes v memory w small low can =
      let (m, grown, room) =
        with_room_lem resizes values.encoded_len v.offset memory w.inside w.whole small w.written_to
          can in
      let (rest, rest_length, written) =
        written_in v m room.inside (omega (arith, w.inside)) (rw room.same low) room.all in
      let pre : Bytes = take v.offset m.bytes in
      let pre_length : length pre ≡ v.offset =
        omega (arith, length-take v.offset m.bytes, room.inside) in
      let total : length (pre ++ (wire ++ rest)) ≡ length m.bytes =
        omega
          (arith, length-append pre (wire ++ rest), length-append wire rest, e.full, room.inside) in
      let old : pre ≡ take v.offset memory.bytes =
        sym (take-take v.offset (length memory.bytes) m.bytes w.inside)
        ∙ ap (take v.offset) room.kept in
      (
        (
          m.context_address + v.offset,
          record {
            memory = some (record m { bytes = pre ++ (wire ++ rest) });
            offset = v.offset + values.encoded_len;
          },
        ),
        ap
              (λ o.
                o >>= (λ m. with_room resizes values.encoded_len v.offset m >>= encode_at values v))
              w.mapped
            ∙ ap (λ o. o >>= encode_at values v) grown
            ∙ written,
        record {
          address = rw (room.same) refl;
          after = record m { bytes = pre ++ (wire ++ rest) };
          sound = record {
            mapped = refl;
            written_to = still_written m (pre ++ (wire ++ rest)) room.all;
            inside = omega (arith, total, room.inside);
            whole = rw total (room.pages);
          };
          same_address = room.same;
          earlier =
              ap (λ n. take n (pre ++ (wire ++ rest))) (sym pre_length)
              ∙ take-append pre (wire ++ rest)
              ∙ old;
          values =
              slice_middle pre wire rest v.offset (v.offset + length wire) (omega arith)
                (omega arith);
          next = omega (arith, e.full);
        },
      )
