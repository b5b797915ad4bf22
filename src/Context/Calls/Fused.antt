-- ===== src/Context/Calls/Fused.antt =====
-- What calls and casts keep of the links of a system.
use mathlib.Core.Path.{fun_ext}
use faastr.Common.{ℕ, ◌≡◌, refl, sym, ap, subst, ◌∙◌, Option, none, some, some_inj, arith, Bool}
use faastr.Paging.Table.{◌>>=◌}
use faastr.Context.{Status, Context}
use faastr.Context.ContextList.{ContextList, get, insert}
use faastr.Context.ContextList.Insert.{Inserts}
use faastr.Context.Values.{SosValue, append_encode}
use faastr.Context.Calls.{
  System, look, start_running, fuse_switch, called, fuse_inserted, fuse_inner, cast_inserted,
  cast_inner,
}
use faastr.Context.Calls.Linked.{Linked, added, Linked-fused, Linked-cast, mapped}
use faastr.Context.Calls.Looks.{get-map_all, remade, remade-IsLinked, IsLinked}
use faastr.Context.Calls.Placed.{
  bind_some, called_lem, inserted_lem, switched, switched-id, switch_look, fuse_switch_lem,
}

none-IsLinked :
    (s : System) (context : Context) (after : ContextList)
    → IsLinked s
    → Inserts context s.contexts (none, after)
    → IsLinked (record s { contexts = after })
none-IsLinked s context after i inserts = record {
  formed = inserts.2;
  linked = subst (λ cs. Linked (λ k. get k cs) s.current) (sym inserts.0) i.linked;
}

fused-IsLinked :
    (s : System) (callee : Context) (id : ℕ) (contexts : ContextList)
    → IsLinked s
    → callee.ret_link ≡ some s.current
    → Inserts callee s.contexts (some id, contexts)
    → IsLinked (remade (switched id s.current) id (record s { contexts = contexts }))
fused-IsLinked s callee id contexts i link (small, new, looks, formed) =
    let placed : Context = record callee { id = id } in
    let same = switch_look (look s) s.current i.linked id placed new refl in
    remade-IsLinked (switched id s.current) id (record s { contexts = contexts })
      (switched-id id s.current) formed
      (subst (λ f. Linked f id)
        (sym (fun_ext (λ k. ap (mapped (switched id s.current)) (looks k) ∙ same k)))
        (Linked-fused (look s) s.current i.linked id (start_running placed) new refl link refl))

fuse_inserted-IsLinked :
    (s : System) (callee : Context) (r : Option ℕ × ContextList) (o : Option ℕ) (after : System)
    → IsLinked s
    → callee.ret_link ≡ some s.current
    → Inserts callee s.contexts r
    → fuse_inserted r s ≡ some (o, after)
    → IsLinked after
fuse_inserted-IsLinked s callee (none, contexts) o after i link inserts e =
    subst IsLinked (ap (λ r. r.1) (some_inj e)) (none-IsLinked s callee contexts i inserts)
fuse_inserted-IsLinked s callee (some id, contexts) o after i link inserts e =
    let (found, f, same) =
      bind_some (fuse_switch id (record s { contexts = contexts })) (λ r. some (some id, r))
        (o, after) e in
    let f' =
      fuse_switch_lem id s.current (record s { contexts = contexts }) (record callee { id = id })
        (inserts.2 id ∙ ground arith) link in
    subst IsLinked (some_inj (sym f' ∙ f) ∙ ap (λ r. r.1) (some_inj same))
      (fused-IsLinked s callee id contexts i link inserts)

-- A call up to its insertion.
abbrev Inserted : (ℕ → Bool) → SosValue → ℕ → Context → System → Option ℕ → System → Type 0
Inserted resizes args func context s o after =
    (caller : Context) × (callee : Context) × (r : Option ℕ × ContextList) × (look s s.current
      ≡ some caller)
    × (called resizes args func caller context ≡ some callee)
    × (callee.ret_link ≡ some s.current)
    × Inserts callee s.contexts r
    × (fuse_inserted r s ≡ some (o, after))

fuse_inner-Inserted :
    (resizes : ℕ → Bool) (args : SosValue) (func : ℕ) (context : Context) (s after : System)
    (o : Option ℕ)
    → IsLinked s
    → fuse_inner resizes args func context s ≡ some (o, after)
    → Inserted resizes args func context s o after
unfolding fuse_inner
fuse_inner-Inserted resizes args func context s after o i e =
    let (caller, found, e1) =
      bind_some (look s s.current)
        (λ caller.
          called resizes args func caller context
          >>= (λ callee. insert callee s.contexts >>= (λ r. fuse_inserted r s)))
        (o, after) e in
    let (callee, made, e2) =
      bind_some (called resizes args func caller context)
        (λ callee. insert callee s.contexts >>= (λ r. fuse_inserted r s)) (o, after) e1 in
    let (r, put, e3) =
      bind_some (insert callee s.contexts) (λ r. fuse_inserted r s) (o, after) e2 in
    let link =
      called_lem resizes args func caller context callee made
      ∙ ap some (i.linked.keyed s.current caller found) in
    (caller, callee, r, found, made, link, inserted_lem callee s.contexts r i.formed put, e3)

-- A call keeps the links of a system.
pub fuse_inner-IsLinked :
    (resizes : ℕ → Bool) (args : SosValue) (func : ℕ) (context : Context) (s after : System)
    (o : Option ℕ)
    → IsLinked s
    → fuse_inner resizes args func context s ≡ some (o, after)
    → IsLinked after
fuse_inner-IsLinked resizes args func context s after o i e =
    let (caller, callee, r, found, made, link, inserts, e') =
      fuse_inner-Inserted resizes args func context s after o i e in
    fuse_inserted-IsLinked s callee r o after i link inserts e'

-- So does a cast of a context that returns to none.
pub cast_inner-IsLinked :
    (resizes : ℕ → Bool) (args : SosValue) (func : ℕ) (context : Context) (s after : System)
    (o : Option ℕ)
    → context.ret_link ≡ none
    → IsLinked s
    → cast_inner resizes args func context s ≡ some (o, after)
    → IsLinked after
unfolding cast_inner
cast_inner-IsLinked resizes args func context s after o free i e =
    let (appended, found, e1) =
      bind_some (append_encode resizes args context.args)
        (λ appended.
          insert (record context { function = func; args = appended.1; status = Status.new })
            s.contexts
          >>= (λ r. some (cast_inserted r s)))
        (o, after) e in
    let made : Context = record context {
      function = func;
      args = appended.1;
      status = Status.new;
    } in
    let (r, put, e2) =
      bind_some (insert made s.contexts) (λ r. some (cast_inserted r s)) (o, after) e1 in
    subst IsLinked (ap (λ r. r.1) (some_inj e2))
      (cast_inserted-IsLinked s made r free i (inserted_lem made s.contexts r i.formed put))
  where
    cast_inserted-IsLinked :
        (s : System) (made : Context) (r : Option ℕ × ContextList)
        → made.ret_link ≡ none
        → IsLinked s
        → Inserts made s.contexts r
        → IsLinked (cast_inserted r s).1
    cast_inserted-IsLinked s made (none, contexts) free i inserts =
        none-IsLinked s made contexts i inserts
    cast_inserted-IsLinked s made (some id, contexts) free i (small, new, looks, formed) = record {
      formed = formed;
      linked =
          subst (λ f. Linked f s.current) (sym (fun_ext looks))
            (Linked-cast (look s) s.current i.linked id (record made { id = id }) new refl free);
    }

-- What a call that finds room comes to, before the callee runs.
pub record Runs (resizes : ℕ → Bool) (args : SosValue) (func : ℕ) (context : Context) (s : System)
    (id : ℕ) (after : System) : Type 0 where
  pub caller : Context
  pub callee : Context
  pub is_caller : look s s.current ≡ some caller
  pub is_callee : called resizes args func caller context ≡ some callee
  pub is_new : look s id ≡ none
  pub is_current : after.current ≡ id
  pub looks :
      (k : ℕ) → look after k ≡ added id (start_running (record callee { id = id })) (look s) k

pub fuse_inner_lem :
    (resizes : ℕ → Bool) (args : SosValue) (func : ℕ) (context : Context) (s after : System)
    (id : ℕ)
    → IsLinked s
    → fuse_inner resizes args func context s ≡ some (some id, after)
    → Runs resizes args func context s id after
fuse_inner_lem resizes args func context s after id i e =
    let (caller, callee, r, found, made, link, inserts, e') =
      fuse_inner-Inserted resizes args func context s after (some id) i e in
    runs caller callee r found made link inserts e'
  where
    runs :
        (caller callee : Context) (r : Option ℕ × ContextList)
        → look s s.current ≡ some caller
        → called resizes args func caller context ≡ some callee
        → callee.ret_link ≡ some s.current
        → Inserts callee s.contexts r
        → fuse_inserted r s ≡ some (some id, after)
        → Runs resizes args func context s id after
    runs caller callee (none, contexts) found made link inserts e = absurd (ground arith)
    runs caller callee (some n, contexts) found made link (small, new, looks, formed) e =
        let (t, f, same) =
          bind_some (fuse_switch n (record s { contexts = contexts })) (λ r. some (some n, r))
            (some id, after) e in
        let placed : Context = record callee { id = n } in
        let f' =
          fuse_switch_lem n s.current (record s { contexts = contexts }) placed
            (looks n ∙ ground arith) link in
        let same_id : n ≡ id = some_inj (ap (λ r. r.0) (some_inj same)) in
        let same_after = some_inj (sym f' ∙ f) ∙ ap (λ r. r.1) (some_inj same) in
        subst (λ m. Runs resizes args func context s m after) same_id
          (subst (Runs resizes args func context s n) same_after (record {
            caller = caller;
            callee = callee;
            is_caller = found;
            is_callee = made;
            is_new = new;
            is_current = refl;
            looks = λ k.
                get-map_all (switched n s.current) (switched-id n s.current) k contexts.map
                ∙ ap (mapped (switched n s.current)) (looks k)
                ∙ switch_look (look s) s.current i.linked n placed new refl k;
          }))
