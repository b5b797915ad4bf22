-- ===== src/Context/Calls/Linked.antt =====
-- The links that calls leave between contexts, and that each operation keeps them.
use faastr.Common.{
  ℕ, ◌≡◌, ◌≢◌, ◌⊎◌, refl, sym, ap, subst, ◌∙◌, inl, inr, Option, none, some, some_inj, arith, ◌==◌,
  Bool-cases, if◌then◌else◌,
}
use faastr.Context.{Status, Context}

-- Contexts by their identifiers, and the current one: the current one runs, and one that another
-- context returns to runs too, is not the current one, and has one such context at most.
pub record Linked (look : ℕ → Option Context) (current : ℕ) : Type 0 where
  pub keyed : (k : ℕ) (c : Context) → look k ≡ some c → c.id ≡ k
  pub runs : (c : Context) × (look current ≡ some c) × (c.status ≡ Status.running)
  pub waits :
      (k p : ℕ) (c : Context)
      → look k ≡ some c
      → c.ret_link ≡ some p
      → (d : Context) × (look p ≡ some d) × (d.status ≡ Status.running) × (p ≢ current)
  pub once :
      (k j p : ℕ) (c d : Context)
      → look k ≡ some c
      → look j ≡ some d
      → c.ret_link ≡ some p
      → d.ret_link ≡ some p
      → k ≡ j

-- One more context, under an identifier that was free.
abbrev pub added : ℕ → Context → (ℕ → Option Context) → ℕ → Option Context
added id c look k = if k == id then some c else look k

module _ (look : ℕ → Option Context) (id : ℕ) (new_one : Context) (new : look id ≡ none) where
  added_cases :
      (k : ℕ) (c : Context)
      → added id new_one look k ≡ some c
      → ((k ≡ id) × (new_one ≡ c)) ⊎ ((k ≢ id) × (look k ≡ some c))
  added_cases k c e = elim (Bool-cases (k == id)) [
    | inl here ↦ inl (ground (arith, here), some_inj (sym (rw here refl) ∙ e))
    | inr other ↦ inr (λ q. ground arith, sym (rw other refl) ∙ e)
  ]

  added_other :
      (k : ℕ) (c : Context) → look k ≡ some c → (k ≢ id) × (added id new_one look k ≡ some c)
  added_other k c e = elim (Bool-cases (k == id)) [
    | inl here ↦
        let same : k ≡ id = ground (arith, here) in
        absurd (none_ne_some (sym new ∙ ap look (sym same) ∙ e))
    | inr other ↦ (λ q. ground arith, rw other e)
  ]
    where
      none_ne_some : {A : Type 0} {a : A} → none ≡ some a → ⊥
      none_ne_some e = cc

  added_keyed :
      new_one.id ≡ id
      → ((k : ℕ) (c : Context) → look k ≡ some c → c.id ≡ k)
      → (k : ℕ) (c : Context) → added id new_one look k ≡ some c
      → c.id ≡ k
  added_keyed named keyed k c e = elim (added_cases k c e) [
    | inl (here, same) ↦ sym (ap (λ d. d.id) same) ∙ named ∙ sym here
    | inr (other, old) ↦ keyed k c old
  ]

module _ (look : ℕ → Option Context) (current : ℕ) (l : Linked look current) (id : ℕ)
    (new_one : Context) (new : look id ≡ none) (named : new_one.id ≡ id) where
  -- a new context, which returns to the current one and runs
  pub Linked-fused :
      new_one.ret_link ≡ some current
      → new_one.status ≡ Status.running
      → Linked (added id new_one look) id
  Linked-fused link running = record {
    keyed = added_keyed look id new_one new named l.keyed;
    runs = (new_one, first, running);
    waits = λ k p c e r. elim (added_cases look id new_one new k c e) [
      | inl (here, same) ↦ from_new p (parent c p same r)
      | inr (other, old) ↦ kept p (l.waits k p c old r)
    ];
    once = λ k j p c d e f r q. elim (added_cases look id new_one new k c e) [
      | inl (here, same) ↦ elim (added_cases look id new_one new j d f) [
        | inl (there, same') ↦ here ∙ sym there
        | inr (other, old) ↦ absurd ((l.waits j p d old q).3 (parent c p same r))
      ]
      | inr (other, old) ↦ elim (added_cases look id new_one new j d f) [
        | inl (there, same) ↦ absurd ((l.waits k p c old r).3 (parent d p same q))
        | inr (other', old') ↦ l.once k j p c d old old' r q
      ]
    ];
  }
    where
      parent : (c : Context) (p : ℕ) → new_one ≡ c → c.ret_link ≡ some p → p ≡ current
      parent c p same r = sym (some_inj (sym link ∙ ap (λ d. d.ret_link) same ∙ r))

      first : added id new_one look id ≡ some new_one
      first = ground arith

      kept :
          (p : ℕ)
          → (d : Context) × (look p ≡ some d) × (d.status ≡ Status.running) × (p ≢ current)
          → (d : Context) × (added id new_one look p ≡ some d)
            × (d.status ≡ Status.running)
            × (p ≢ id)
      kept p (d, e, running, _) =
          let (other, e') = added_other look id new_one new p d e in (d, e', running, other)

      from_new :
          (p : ℕ)
          → p ≡ current
          → (d : Context) × (added id new_one look p ≡ some d)
            × (d.status ≡ Status.running)
            × (p ≢ id)
      from_new p q =
          let (d, e, running) = l.runs in
          let (other, e') = added_other look id new_one new current d e in
          subst
            (λ k.
              (d : Context) × (added id new_one look k ≡ some d)
              × (d.status ≡ Status.running)
              × (k ≢ id))
            (sym q) (d, e', running, other)

  -- a new context that returns to none
  pub Linked-cast : new_one.ret_link ≡ none → Linked (added id new_one look) current
  Linked-cast link = record {
    keyed = added_keyed look id new_one new named l.keyed;
    runs =
        (let (c, e, running) = l.runs in
          let (other, e') = added_other look id new_one new current c e in (c, e', running));
    waits = λ k p c e r. elim (added_cases look id new_one new k c e) [
      | inl (here, same) ↦ absurd (no_link c p same r)
      | inr (other, old) ↦
          (let (d, f, running, ne) = l.waits k p c old r in
            let (other', f') = added_other look id new_one new p d f in (d, f', running, ne))
    ];
    once = λ k j p c d e f r q. elim (added_cases look id new_one new k c e) [
      | inl (here, same) ↦ absurd (no_link c p same r)
      | inr (other, old) ↦ elim (added_cases look id new_one new j d f) [
        | inl (there, same) ↦ absurd (no_link d p same q)
        | inr (other', old') ↦ l.once k j p c d old old' r q
      ]
    ];
  }
    where
      no_link : (c : Context) (p : ℕ) → new_one ≡ c → c.ret_link ≡ some p → ⊥
      no_link c p same r = let e : none ≡ some p = sym link ∙ ap (λ d. d.ret_link) same ∙ r in cc

-- Every context changed in its place.
abbrev pub mapped : (Context → Context) → Option Context → Option Context
mapped f none = none
mapped f (some c) = some (f c)

pub mapped_some :
    (f : Context → Context) (o : Option Context) (c : Context)
    → mapped f o ≡ some c
    → (d : Context) × (o ≡ some d) × (f d ≡ c)
mapped_some f none c e = absurd (ground arith)
mapped_some f (some d) c e = (d, refl, some_inj e)

-- Changes that make no link, and after which `next` runs and contexts that wait still do.
pub Linked-mapped :
    (look : ℕ → Option Context) (current next : ℕ) (f : Context → Context)
    → Linked look current
    → ((c : Context) → (f c).id ≡ c.id)
    → ((c : Context) (p : ℕ) → (f c).ret_link ≡ some p → c.ret_link ≡ some p)
    → ((c : Context) × (look next ≡ some c) × ((f c).status ≡ Status.running))
    → ((k p : ℕ) (c d : Context)
        → look k ≡ some c
        → (f c).ret_link ≡ some p
        → look p ≡ some d
        → d.status ≡ Status.running
        → p ≢ current
        → ((f d).status ≡ Status.running) × (p ≢ next))
    → Linked (λ k. mapped f (look k)) next
Linked-mapped look current next f l same_id same_link (n, here, running) stays = record {
  keyed = λ k c e.
      (let (d, e', same) = mapped_some f (look k) c e in
        sym (ap (λ x. x.id) same) ∙ same_id d ∙ l.keyed k d e');
  runs = (f n, ap (mapped f) here, running);
  waits = λ k p c e r.
      (let (b, e', same) = mapped_some f (look k) c e in
        let link : (f b).ret_link ≡ some p = ap (λ x. x.ret_link) same ∙ r in
        let (d, g, runs, ne) = l.waits k p b e' (same_link b p link) in
        let (still, other) = stays k p b d e' link g runs ne in
        (f d, ap (mapped f) g, still, other));
  once = λ k j p c d e g r q.
      (let (b, e', same) = mapped_some f (look k) c e in
        let (a, g', same') = mapped_some f (look j) d g in
        l.once k j p b a e' g' (same_link b p (ap (λ x. x.ret_link) same ∙ r))
          (same_link a p (ap (λ x. x.ret_link) same' ∙ q)));
}
