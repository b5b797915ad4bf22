-- ===== src/Context/Calls/Returned.antt =====
-- What returning, leaving and switching keep of the links of a system.
use faastr.Common.{ℕ, ◌≡◌, ◌≢◌, refl, sym, ap, ◌∙◌, Option, none, some, arith}
use faastr.Sos.Bytes.{Bytes}
use faastr.Context.{Status, Context, unblock}
use faastr.Context.Calls.{
  System, Left, look, at_id, change, start_running, fuse_return, leave, exited, exit,
}
use faastr.Context.Calls.Linked.{Linked, mapped, Linked-mapped}
use faastr.Context.Calls.Looks.{get-map_all, at_id-id, remade, remade-remade, IsLinked}

-- The result that `sys_return` leaves in the context before it calls `exit`.
abbrev pub answer : Option Bytes → ℕ → Context → Context
answer none current c = c
answer (some values) current c = at_id current (λ d. record d { result = some values }) c

-- A context that goes back to `parent`: it is exited, with its result, and `parent` runs.
abbrev pub returned : Option Bytes → ℕ → ℕ → Context → Context
returned values current parent c =
    at_id parent start_running
      (at_id current (λ d. (unblock d).1) (at_id current exited (answer values current c)))

pub returned-id :
    (values : Option Bytes) (current parent : ℕ) (c : Context)
    → (returned values current parent c).id ≡ c.id
unfolding unblock
returned-id none current parent c = ground arith
returned-id (some values) current parent c = ground arith

-- Only a context other than the one that returns still has its link.
returned-link :
    (values : Option Bytes) (current parent p : ℕ) (c : Context)
    → (returned values current parent c).ret_link ≡ some p
    → (c.ret_link ≡ some p) × (c.id ≢ current)
unfolding unblock
returned-link none current parent p c e = ground arith
returned-link (some values) current parent p c e = ground arith

returned-running :
    (values : Option Bytes) (current parent : ℕ) (c : Context)
    → c.status ≡ Status.running
    → c.id ≢ current
    → (returned values current parent c).status ≡ Status.running
unfolding unblock
returned-running none current parent c e ne = ground arith
returned-running (some values) current parent c e ne = ground arith

module _ (s : System) (i : IsLinked s) (current parent : ℕ) (same : current ≡ s.current)
    (c : Context) (here : look s current ≡ some c) (link : c.ret_link ≡ some parent) where
  -- The return of a context that has a link keeps the links of the others.
  pub returned-Linked :
      (values : Option Bytes)
      → Linked (λ k. mapped (returned values current parent) (look s k)) parent
  returned-Linked values =
      let l = i.linked in
      let (d, there, running, away) = l.waits current parent c here link in
      Linked-mapped (look s) s.current parent (returned values current parent) l
        (returned-id values current parent) (λ c p e. (returned-link values current parent p c e).0)
        (
          d,
          there,
          returned-running values current parent d running
              (λ q. away (sym (l.keyed parent d there) ∙ q ∙ same)),
        )
        (λ k p b d e r f run ne.
          (let (link', other) = returned-link values current parent p b r in
            (
              returned-running values current parent d run
                  (λ q. ne (sym (l.keyed p d f) ∙ q ∙ same)),
              λ q.
                  other
                    (l.keyed k b e ∙ l.once k current p b c e here link' (link ∙ ap some (sym q))),
            )))

abbrev pub answered : Option Bytes → System → System
answered none s = s
answered (some values) s = change s.current (λ c. record c { result = some values }) s

exited-remade :
    (current parent : ℕ) (s : System)
    → fuse_return current parent (change current exited s)
      ≡ remade
          (λ c.
            at_id parent start_running
              (at_id current (λ d. (unblock d).1) (at_id current exited c)))
          parent
          s
unfolding fuse_return
exited-remade current parent s =
    remade-remade (at_id parent start_running) (at_id current (λ d. (unblock d).1)) parent s.current
      (change current exited s)
    ∙ remade-remade (λ c. at_id parent start_running (at_id current (λ d. (unblock d).1) c))
        (at_id current exited) parent s.current s

-- What `exit` and `sys_return` come to for a context that has a link.
pub returned_lem :
    (values : Option Bytes) (cpu : ℕ) (now : ℕ × ℕ) (s : System) (c : Context) (parent : ℕ)
    → look s s.current ≡ some c
    → c.id ≡ s.current
    → c.ret_link ≡ some parent
    → exit cpu now (answered values s)
      ≡ some (Left.goes_to (remade (returned values s.current parent) parent s))
unfolding exit leave
returned_lem none cpu now s c parent e named link =
    rw (e, link) (ap (λ r. some (Left.goes_to r)) (exited-remade s.current parent s))
returned_lem (some values) cpu now s c parent e named link =
    let keep = λ (d : Context). record d { result = some values } in
    let found : look (answered (some values) s) s.current ≡ some (keep c) =
      get-map_all (at_id s.current keep) (at_id-id s.current keep (λ d. refl)) s.current
        s.contexts.map
      ∙ rw e (ap some (kept c named)) in
    rw (found, link)
      (ap (λ r. some (Left.goes_to r))
        (exited-remade s.current parent (answered (some values) s)
          ∙ remade-remade
              (λ d.
                at_id parent start_running
                  (at_id s.current (λ x. (unblock x).1) (at_id s.current exited d)))
              (at_id s.current keep) parent s.current s))
  where
    kept :
        (d : Context)
        → d.id ≡ s.current
        → at_id s.current (λ x. record x { result = some values }) d
          ≡ record d { result = some values }
    kept d named = ground (arith, named)
