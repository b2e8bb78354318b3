-- ===== src/Variables.antt =====
-- internal/variables/store.go: the variables of a worker. `set_var` stands for the method `Set`; a
-- context that carries no store is `none`.
mod Tests
use crankfire.Prelude.{
  ◌-◌, String, ◌≡◌, refl, ap, ◌∙◌, Option, none, some, List, [], ◌∷◌, arith, if◌then◌else◌, ◌==◌,
  nat_eq, string_eq,
}
use crankfire.Prelude.Maps.{
  lookup, insert, write_all, lookup-insert, lookup-write_all, or_else, NoDup, insert-NoDup,
}

pub record MemoryStore : Type 0 where
  pub variables : List (String × String)

pub new_store : MemoryStore
new_store = record { variables = [] }

pub set_var : MemoryStore → String → String → MemoryStore
set_var m key value = record { variables = insert key value m.variables }

pub get_var : MemoryStore → String → Option String
get_var m key = lookup key m.variables

-- A copy of the variables.
pub get_all : MemoryStore → List (String × String)
get_all m = write_all [] m.variables

-- The record's values, overridden by the variables.
pub merge : MemoryStore → List (String × String) → List (String × String)
merge m fields = write_all (write_all [] fields) m.variables

pub clear : MemoryStore → MemoryStore
clear m = record { variables = [] }

set_var-NoDup :
    (m : MemoryStore) (key value : String)
    → NoDup m.variables
    → NoDup (set_var m key value).variables
unfolding set_var
set_var-NoDup m key value d = insert-NoDup key value m.variables d

-- Values put into a store, the first one first.
pub set_all : MemoryStore → List (String × String) → MemoryStore
set_all m [] = m
set_all m ((key, value) ∷ rest) = set_all (set_var m key value) rest

set_all-NoDup :
    (m : MemoryStore) (es : List (String × String))
    → NoDup m.variables
    → NoDup (set_all m es).variables
unfolding set_all
set_all-NoDup m [] d = d
set_all-NoDup m ((key, value) ∷ rest) d =
    set_all-NoDup (set_var m key value) rest (set_var-NoDup m key value d)

copied :
    (m : List (String × String)) (key : String)
    → NoDup m
    → lookup key (write_all [] m) ≡ lookup key m
unfolding lookup
copied m key d = ground (arith, lookup-write_all [] m key d)

-- After any sequence of `Set` on a new store, a further `Set` of a key is what `Get` reads of it and
-- leaves the other keys alone, a copy of the store reads like the store, and a merge with a record
-- reads the store first and the record otherwise; no key stands twice in the record.
pub store_lem :
    (es fields : List (String × String)) (key value other : String)
    → NoDup fields
    → let m = set_all new_store es in
      (get_var (set_var m key value) other ≡ (if key == other then some value else get_var m other))
      × (lookup other (get_all m) ≡ get_var m other)
      × (lookup other (merge m fields) ≡ or_else (get_var m other) (lookup other fields))
      × (get_var (clear m) other ≡ none)
unfolding set_var get_var get_all merge clear new_store lookup
store_lem es fields key value other d =
    let m = set_all new_store es in
    let n = set_all-NoDup new_store es tt in
    (
      lookup-insert key other value m.variables,
      copied m.variables other n,
      lookup-write_all (write_all [] fields) m.variables other n
          ∙ ap (or_else (lookup other m.variables)) (copied fields other d),
      refl,
    )
