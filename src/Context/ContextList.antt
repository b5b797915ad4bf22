-- ===== src/Context/ContextList.antt =====
-- `ContextList` of kernel/src/context/list.rs. The `BTreeMap` is the list of its contexts in the
-- order of their identifiers, which are its keys.
pub mod Insert
use faastr.Common.{
  ℕ, zero, suc, ◌-◌, ◌^◌, List, [], ◌∷◌, Option, none, some, ltb, leb, ◌==◌, if◌then◌else◌, length,
}
use faastr.Common.Usize.{add_usize}
use faastr.Context.{Context}

-- `isize::max_value() as usize - 1`
abbrev pub context_max_contexts : ℕ
context_max_contexts = 2 ^ 63 - 1 - 1

pub record ContextList : Type 0 where
  pub map : List Context
  pub next_id : ℕ

abbrev pub new : ContextList
new = record { map = []; next_id = 1 }

-- `BTreeMap::get`; `contains_key` is that it is not `none`
abbrev pub get : ℕ → List Context → Option Context
get id [] = none
get id (c ∷ cs) = let later = get id cs in if id == c.id then some c else later

-- `BTreeMap::insert` at the context's identifier
abbrev pub put : Context → List Context → List Context
put c [] = c ∷ []
put c (d ∷ ds) =
    let later = put c ds in
    if ltb c.id d.id then c ∷ d ∷ ds else if c.id == d.id then c ∷ ds else d ∷ later

-- `BTreeMap::remove`
abbrev pub remove : ℕ → List Context → List Context
remove id [] = []
remove id (c ∷ cs) = let later = remove id cs in if id == c.id then cs else c ∷ later

-- The loop that looks for an identifier; `none` when it runs out of fuel.
unfoldable pub free_id : ℕ → List Context → ℕ → Option ℕ
free_id zero map next_id = none
free_id (suc fuel) map next_id = elim (get next_id map) [
  | none ↦ some next_id
  | some _ ↦ free_id fuel map (add_usize next_id 1)
]

abbrev pub first_id : ContextList → ℕ
first_id contexts = if leb context_max_contexts contexts.next_id then 1 else contexts.next_id

-- `insert`: the new identifier, or `none` for the error, with the list after the call. The
-- assertion that the key is new cannot fail behind the loop.
unfoldable pub insert : Context → ContextList → Option (Option ℕ × ContextList)
insert context contexts =
    elim (free_id (suc (length contexts.map)) contexts.map (first_id contexts)) [
      | none ↦ none
      | some id ↦
          if leb context_max_contexts id
          then some (none, record contexts { next_id = id })
          else some (
            some id,
            record {
              map = put (record context { id = id }) contexts.map;
              next_id = add_usize id 1;
            },
          )
    ]
