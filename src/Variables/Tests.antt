-- ===== src/Variables/Tests.antt =====
-- The store of variables on concrete inputs.
use crankfire.Prelude.{String, ◌≡◌, refl, none, List, [], ◌∷◌, nat_eq, string_eq}
use crankfire.Prelude.Maps.{lookup, or_else, NoDup}
use crankfire.Variables.{new_store, set_var, get_var, get_all, merge, clear, set_all, store_lem}

abbrev one_field : List (String × String)
one_field = ("b", "3") ∷ []

one_field-NoDup : NoDup one_field
unfolding lookup
one_field-NoDup = (refl, tt)

abbrev one_entry : List (String × String)
one_entry = ("a", "1") ∷ []

store_lem_example :
    let m = set_all new_store one_entry in
    (get_var (set_var m "a" "2") "b" ≡ get_var m "b")
    × (lookup "b" (get_all m) ≡ get_var m "b")
    × (lookup "b" (merge m one_field) ≡ or_else (get_var m "b") (lookup "b" one_field))
    × (get_var (clear m) "b" ≡ none)
store_lem_example = store_lem one_entry one_field "a" "2" "b" one_field-NoDup
