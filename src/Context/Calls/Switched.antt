-- ===== src/Context/Calls/Switched.antt =====
-- What a switch to another context keeps of the links of a system.
use faastr.Common.{
  ℕ, ◌≡◌, ◌≢◌, sym, ap, subst, ◌∙◌, inl, inr, Bool, true, false, some, some_inj, map,
}
use faastr.Context.{Status, Context}
use faastr.Context.Scheduler.{Scheduler, update, swap_status, runnable}
use faastr.Context.Scheduler.Turns.{IsNext}
use faastr.Context.Scheduler.Running.{update-id, swap_status-id, map-Ascending, after_switch}
use faastr.Context.Scheduler.Changes.{
  switch_cases, update-link, update-running, swap_status-link, swap_status-to, swap_status-other,
  running-runnable,
}
use faastr.Context.Calls.{System, look, scheduled, switch_from}
use faastr.Context.Calls.Linked.{Linked, mapped, mapped_some, Linked-mapped}
use faastr.Context.Calls.Looks.{get-map_all, remade, remade-remade, remade-IsLinked, IsLinked}

-- A change of the current context before the switch, which makes no link.
pub record IsLast (s : System) (g : Context → Context) : Type 0 where
  pub same_id : (c : Context) → (g c).id ≡ c.id
  pub same_link : (c : Context) (p : ℕ) → (g c).ret_link ≡ some p → c.ret_link ≡ some p
  pub others : (c : Context) → c.id ≢ s.current → g c ≡ c

module _ (cpu : ℕ) (now : ℕ × ℕ) (s : System) (i : IsLinked s) (g : Context → Context)
    (last : IsLast s g) where
  abbrev swapped : ℕ → Context → Context
  swapped to c = swap_status s.current to (update cpu now (g c))

  swapped-id : (to : ℕ) (c : Context) → (swapped to c).id ≡ c.id
  swapped-id to c =
      swap_status-id s.current to (update cpu now (g c)) ∙ update-id cpu now (g c) ∙ last.same_id c

  module _ (to : Context)
      (next : IsNext cpu s.current to (map (update cpu now) (map g s.contexts.map))) where
    to_before : (n : Context) × (look s to.id ≡ some n) × (update cpu now (g n) ≡ to)
    to_before =
        let e =
          sym (
            get-map_all (update cpu now) (update-id cpu now) to.id (map g s.contexts.map)
            ∙ ap (mapped (update cpu now)) (get-map_all g last.same_id to.id s.contexts.map))
          ∙ next.1 in
        let (m, f, same) = mapped_some (update cpu now) (mapped g (look s to.id)) to e in
        let (n, f', same') = mapped_some g (look s to.id) m f in
        (n, f', ap (update cpu now) same' ∙ same)

    waiting :
        (p : ℕ) (d : Context)
        → look s p ≡ some d
        → d.status ≡ Status.running
        → p ≢ s.current
        → p ≢ to.id
    waiting p d e running away same =
        let (n, f, before) = to_before in
        let named = i.linked.keyed p d e in
        let is_d : n ≡ d = some_inj (sym f ∙ ap (look s) (sym same) ∙ e) in
        let to_d : update cpu now d ≡ to =
          ap (update cpu now) (sym (last.others d (λ q. away (sym named ∙ q))) ∙ ap g (sym is_d))
          ∙ before in
        running-runnable cpu (update cpu now d) (update-running cpu now d running)
          (subst (λ c. runnable cpu c ≡ true) (sym to_d) next.0)

    swapped-Linked : Linked (λ k. mapped (swapped to.id) (look s k)) to.id
    swapped-Linked =
        let l = i.linked in
        let (n, f, before) = to_before in
        Linked-mapped (look s) s.current to.id (swapped to.id) l (swapped-id to.id)
          (λ c p e. last.same_link c p (
            sym
              (swap_status-link s.current to.id (update cpu now (g c)) ∙ update-link cpu now (g c))
            ∙ e))
          (n, f, swap_status-to s.current to.id (update cpu now (g n)) (ap (λ c. c.id) before))
          (λ k p b d e r h run ne.
            (let named = l.keyed p d h in
              let other = waiting p d h run ne in
              let same : g d ≡ d = last.others d (λ q. ne (sym named ∙ q)) in
              let still = update-id cpu now d ∙ named in
              (
                subst (λ c. c.status ≡ Status.running)
                    (sym (
                      ap (swapped_by to.id) same
                      ∙ swap_status-other s.current to.id (update cpu now d)
                          (λ q. ne (sym still ∙ q)) (λ q. other (sym still ∙ q))))
                    (update-running cpu now d run),
                other,
              )))
      where
        swapped_by : ℕ → Context → Context
        swapped_by to c = swap_status s.current to (update cpu now c)

    abbrev scheduled_to : System
    scheduled_to =
        remade (swap_status s.current to.id) to.id
          (remade (update cpu now) s.current (remade g s.current s))

    scheduled-IsLinked : IsLinked scheduled_to
    scheduled-IsLinked =
        subst IsLinked
          (sym (
            remade-remade (swap_status s.current to.id) (update cpu now) to.id s.current
              (remade g s.current s)
            ∙ remade-remade (λ c. swap_status s.current to.id (update cpu now c)) g to.id s.current
                s))
          (remade-IsLinked (swapped to.id) to.id s (swapped-id to.id) i.formed swapped-Linked)

  abbrev changed : System
  changed = remade g s.current s

  -- The switch behind the change.
  pub switch_from-IsLinked :
      (switched : Bool) (after : Scheduler)
      → switch_from cpu now changed ≡ some (switched, after)
      → (switched ≡ false → IsLinked (remade (update cpu now) s.current changed))
      → IsLinked (scheduled changed after)
  unfolding switch_from after_switch
  switch_from-IsLinked switched after e stays =
      let before : Scheduler = record { contexts = map g s.contexts.map; current = s.current } in
      let (c, f, running) = i.linked.runs in
      let found = get-map_all g last.same_id s.current s.contexts.map ∙ ap (mapped g) f in
      elim (switch_cases cpu now before (g c) found (
        map-Ascending (update cpu now) (update-id cpu now) (map g s.contexts.map)
          (map-Ascending g last.same_id s.contexts.map i.formed.ascending))) [
            | inl same ↦
                let q = some_inj (sym same ∙ e) in
                subst (λ a. IsLinked (scheduled changed a)) (ap (λ r. r.1) q)
                  (stays (sym (ap (λ r. r.0) q)))
            | inr (to, next, same) ↦
                subst (λ a. IsLinked (scheduled changed a))
                  (ap (λ r. r.1) (some_inj (sym same ∙ e))) (scheduled-IsLinked to next)
          ]
