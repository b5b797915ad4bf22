-- ===== src/Syscall/Error/Demux.antt =====
-- Which results survive the word.
use faastr.Common.{
  ℕ, ◌-◌, ◌%◌, ◌^◌, ◌≤◌, ◌<◌, ◌≡◌, ◌↔◌, refl, sym, ◌∙◌, arith, ltb, leb, ◌&&◌, Bool-cases, inl, inr,
}
use faastr.Syscall.Error.{ok, err, mux, demux, negated}

err_ne_ok : {m n : ℕ} → err m ≡ ok n → ⊥
err_ne_ok e = cc

-- The numbers of the known errors come back.
demux-mux_err : (errno : ℕ) → 0 < errno → errno < 132 → demux (mux (err errno)) ≡ err errno
unfolding demux mux
demux-mux_err errno p q = ground (arith, p, q)

-- A value comes back from the word exactly if its low 32 bits are not above 2 ^ 32 - 132, whatever
-- its high bits are.
pub demux-mux_iff :
    (value : ℕ)
    → value < 2 ^ 64
    → (demux (mux (ok value)) ≡ ok value) ↔ (value % 2 ^ 32 ≤ 2 ^ 32 - 132)
unfolding demux mux
demux-mux_iff value h = (forth, back)
  where
    forth : demux (mux (ok value)) ≡ ok value → value % 2 ^ 32 ≤ 2 ^ 32 - 132
    forth e = elim (Bool-cases (leb 1 (negated value) && ltb (negated value) 132)) [
      | inl bad ↦
          let wrong : demux value ≡ err (negated value) = rw bad refl in
          absurd (err_ne_ok (sym wrong ∙ e))
      | inr good ↦ ground (arith, good)
    ]

    back : value % 2 ^ 32 ≤ 2 ^ 32 - 132 → demux (mux (ok value)) ≡ ok value
    back low = ground (arith, low)
