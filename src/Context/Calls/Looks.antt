-- ===== src/Context/Calls/Looks.antt =====
-- The contexts of a system by their identifiers, after the changes of calls and switches.
use mathlib.Core.Path.{fun_ext}
use faastr.Common.{
  ℕ, ◌<◌, ◌≡◌, refl, sym, ap, subst, ◌∙◌, inl, inr, List, [], ◌∷◌, map, arith, ◌==◌, Bool-cases,
}
use faastr.Context.{Context}
use faastr.Context.ContextList.{ContextList, context_max_contexts, get}
use faastr.Context.ContextList.Insert.{IsWellFormed}
use faastr.Context.Scheduler.Running.{map-All, map-Ascending}
use faastr.Context.Calls.{System, Left, look, at_id}
use faastr.Context.Calls.Linked.{Linked, mapped}

module _ (f : Context → Context) (keeps : (c : Context) → (f c).id ≡ c.id) where
  pub get-map_all : (k : ℕ) (cs : List Context) → get k (map f cs) ≡ mapped f (get k cs)
  get-map_all k [] = refl
  get-map_all k (d ∷ cs) = elim (Bool-cases (k == d.id)) [
    | inl here ↦ rw (ap (λ n. k == n) (keeps d) ∙ here, here) refl
    | inr on ↦ rw (ap (λ n. k == n) (keeps d) ∙ on, on) (get-map_all k cs)
  ]

  pub map-IsWellFormed :
      (contexts : ContextList)
      → IsWellFormed contexts
      → IsWellFormed (record contexts { map = map f contexts.map })
  map-IsWellFormed contexts w = record {
    small =
        map-All f keeps (λ c. c.id < context_max_contexts) (λ c. c.id < context_max_contexts)
          contexts.map (λ c h. omega (arith, keeps c)) w.small;
    ascending = map-Ascending f keeps contexts.map w.ascending;
    next_small = w.next_small;
  }

pub at_id-id :
    (id : ℕ) (f : Context → Context)
    → ((c : Context) → (f c).id ≡ c.id)
    → (c : Context) → (at_id id f c).id ≡ c.id
at_id-id id f keeps c = ground (arith, keeps c)

-- A system whose list is well formed and whose links hold.
pub record IsLinked (s : System) : Type 0 where
  pub formed : IsWellFormed s.contexts
  pub linked : Linked (look s) s.current

-- Every context changed in its place, and the CPU given to `next`.
abbrev pub remade : (Context → Context) → ℕ → System → System
remade f next s = record {
  contexts = record s.contexts { map = map f s.contexts.map };
  current = next;
}

pub remade-remade :
    (f g : Context → Context) (next middle : ℕ) (s : System)
    → remade f next (remade g middle s) ≡ remade (λ c. f (g c)) next s
remade-remade f g next middle s =
    ap (λ cs. record { contexts = record s.contexts { map = cs }; current = next })
      (map_map f g s.contexts.map)
  where
    map_map :
        (f g : Context → Context) (cs : List Context) → map f (map g cs) ≡ map (λ c. f (g c)) cs
    map_map f g [] = refl
    map_map f g (c ∷ cs) = ap (λ ds. f (g c) ∷ ds) (map_map f g cs)

pub remade-IsLinked :
    (f : Context → Context) (next : ℕ) (s : System)
    → ((c : Context) → (f c).id ≡ c.id)
    → IsWellFormed s.contexts
    → Linked (λ k. mapped f (look s k)) next
    → IsLinked (remade f next s)
remade-IsLinked f next s keeps w l = record {
  formed = map-IsWellFormed f keeps s.contexts w;
  linked = subst (λ g. Linked g next) (fun_ext (λ k. sym (get-map_all f keeps k s.contexts.map))) l;
}

pub goes_to_inj : {a b : System} → Left.goes_to a ≡ Left.goes_to b → a ≡ b
goes_to_inj e = cc
