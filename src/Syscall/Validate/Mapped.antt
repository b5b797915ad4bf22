-- ===== src/Syscall/Validate/Mapped.antt =====
-- What an address that is validated may be used for.
use faastr.Common.{
  ℕ, zero, suc, ◌+◌, ◌-◌, ◌*◌, ◌/◌, ◌^◌, ◌≤◌, ◌<◌, ◌≡◌, ◌↔◌, inl, inr, refl, sym, subst, Bool, true,
  false, Option, arith, ltb, ◌==◌, if◌then◌else◌, Bool-cases,
}
use faastr.Syscall.Validate.{allows, walk, validate}

both : (c m : Bool) → (if c then m else false) ≡ true → (c ≡ true) × (m ≡ true)
both true m e = (refl, e)
both false m e = (e, absurd (ground arith))

otherwise : (c m : Bool) → (if c then false else m) ≡ true → (c ≡ false) × (m ≡ true)
otherwise true m e = (sym e, absurd (ground arith))
otherwise false m e = (refl, e)

some_size : (size : ℕ) → 0 < size → (size == 0) ≡ false
some_size size p = ground arith

fits :
    (address size : ℕ)
    → 0 < size
    → address + size ≤ 2 ^ 64
    → ltb (2 ^ 64 - 1) (address + (size - 1)) ≡ false
fits address size p q = ground arith

-- a byte of the range in each of its pages
byte_of :
    (address size page : ℕ)
    → 0 < size
    → address / 4096 ≤ page
    → page < address / 4096 + (suc ((address + (size - 1)) / 4096) - address / 4096)
    → (x : ℕ) × (x < size) × ((address + x) / 4096 ≡ page)
byte_of address size page p lo hi = elim (Bool-cases (page == address / 4096)) [
  | inl here ↦ (0, p, ground (arith, here))
  | inr on ↦
      let up : address / 4096 < page = ground (arith, on) in
      (page * 4096 - address, omega arith, omega arith)
]

module _ {F : Type 0} (contains : F → F → Bool) (translate_page_flags : ℕ → Option F) where
  -- Each byte lies in a page that is mapped with the flags.
  abbrev pub Allowed : F → ℕ → ℕ → Type 0
  Allowed flags address size =
      (x : ℕ)
      → x < size
      → allows contains translate_page_flags flags (translate_page_flags ((address + x) / 4096))
        ≡ true

  walk-true :
      (flags : F) (page n : ℕ)
      → walk contains translate_page_flags flags page n ≡ true
      → (k : ℕ) → page ≤ k
      → k < page + n
      → allows contains translate_page_flags flags (translate_page_flags k) ≡ true
  unfolding walk
  walk-true flags page zero e k lo hi = absurd (omega arith)
  walk-true flags page (suc n) e k lo hi =
      let (hit, rest) =
        both (allows contains translate_page_flags flags (translate_page_flags page)) _ e in
      elim (Bool-cases (page == k)) [
        | inl here ↦
            subst (λ p. allows contains translate_page_flags flags (translate_page_flags p) ≡ true)
              (ground (arith, here)) hit
        | inr on ↦ walk-true flags (suc page) n rest k (ground (arith, on)) (omega arith)
      ]

  true-walk :
      (flags : F) (page n : ℕ)
      → ((k : ℕ)
          → page ≤ k
          → k < page + n
          → allows contains translate_page_flags flags (translate_page_flags k) ≡ true)
      → walk contains translate_page_flags flags page n ≡ true
  unfolding walk
  true-walk flags page zero h = refl
  true-walk flags page (suc n) h =
      rw (h page (omega arith) (omega arith))
        (true-walk flags (suc page) n (λ k lo hi. h k (omega arith) (omega arith)))

  -- `validate` succeeds for a range that has a byte, does not wrap round, and all of whose bytes lie
  -- in pages that are mapped with the flags, and for no other.
  pub validate_iff :
      (address size : ℕ) (flags : F)
      → (validate contains translate_page_flags address size flags ≡ true)
        ↔ ((0 < size) × (address + size ≤ 2 ^ 64) × Allowed flags address size)
  unfolding validate
  validate_iff address size flags = (forth, back)
    where
      forth :
          validate contains translate_page_flags address size flags ≡ true
          → (0 < size) × (address + size ≤ 2 ^ 64) × Allowed flags address size
      forth e =
          let (some_byte, e') = otherwise (size == 0) _ e in
          let (inside, pages) = otherwise (ltb (2 ^ 64 - 1) (address + (size - 1))) _ e' in
          let pos : 0 < size = ground (arith, some_byte) in
          (
            pos,
            ground (arith, inside),
            λ x l.
                walk-true flags (address / 4096) _ pages ((address + x) / 4096) (omega arith)
                  (omega arith),
          )

      back :
          (0 < size) × (address + size ≤ 2 ^ 64) × Allowed flags address size
          → validate contains translate_page_flags address size flags ≡ true
      back (some_byte, inside, h) = rw (some_size size some_byte) (
          rw (fits address size some_byte inside) (
            true-walk flags (address / 4096) _ λ k lo hi.
              let (x, lt, same) = byte_of address size k some_byte lo hi in
              subst
                (λ p. allows contains translate_page_flags flags (translate_page_flags p) ≡ true)
                same (h x lt)))
