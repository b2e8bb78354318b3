-- ===== src/Pool/Key.antt =====
-- internal/pool/pool.go: `MakePoolKey`. A text is its bytes: 124 is `|`, 61 `=`, 44 `,` and 59 `;`.
use crankfire.Prelude.{
  Text, text_eq, ◌≡◌, refl, ap, ◌∙◌, Option, List, [], ◌∷◌, ◌++◌, nat_eq, string_eq,
}
use crankfire.Prelude.Maps.{lookup, lookup-perm, value_or, NoDup}
use mathlib.Core.Path.{ap₂}
use mathlib.Core.List.{Permᴰ}
use crankfire.Prelude.Order.{sort, sort-perm, text_order}

abbrev pub Headers : Type 0
Headers = List (Text × List Text)

unfoldable pub keys_of : Headers → List Text
keys_of [] = []
keys_of ((k, vals) ∷ headers) = k ∷ keys_of headers

unfoldable pub join_values : List Text → Text
join_values [] = []
join_values (v ∷ []) = v
join_values (v ∷ w ∷ vals) = v ++ 44 ∷ join_values (w ∷ vals)

unfoldable pub write_headers : Headers → List Text → Text
write_headers headers [] = []
write_headers headers (k ∷ keys) =
    k ++ 61 ∷ (join_values (value_or [] (lookup k headers)) ++ 59 ∷ write_headers headers keys)

unfoldable pub make_pool_key : Text → Headers → Text
make_pool_key target headers = target ++ 124 ∷ write_headers headers (sort (keys_of headers))

keys_of-perm : {h h' : Headers} → Permᴰ h h' → Permᴰ (keys_of h) (keys_of h')
unfolding keys_of
keys_of-perm Permᴰ.nil = Permᴰ.nil
keys_of-perm (Permᴰ.cons e p) = Permᴰ.cons (ap (λ (x : Text × List Text). x.0) e) (keys_of-perm p)
keys_of-perm (Permᴰ.swap e f) =
    Permᴰ.swap (ap (λ (x : Text × List Text). x.0) e) (ap (λ (x : Text × List Text). x.0) f)
keys_of-perm (Permᴰ.trans p q) = Permᴰ.trans (keys_of-perm p) (keys_of-perm q)

-- Only the values that are read count.
write_headers_by :
    (h h' : Headers) (keys : List Text)
    → ((k : Text) → lookup k h ≡ lookup k h')
    → write_headers h keys ≡ write_headers h' keys
unfolding write_headers
write_headers_by h h' [] same = refl
write_headers_by h h' (k ∷ keys) same =
    ap₂
      (λ (o : Option (List Text)) (rest : Text).
        k ++ 61 ∷ (join_values (value_or [] o) ++ 59 ∷ rest))
      (same k) (write_headers_by h h' keys same)

-- The key is the same in whichever order the headers are visited; a header stands once in the map.
pub make_pool_key-perm :
    (target : Text) {h h' : Headers}
    → Permᴰ h h'
    → NoDup h
    → make_pool_key target h ≡ make_pool_key target h'
unfolding make_pool_key
make_pool_key-perm target {h} {h'} p d =
    let keys = sort-perm (keys_of-perm p) in
    let same = write_headers_by h h' (sort (keys_of h)) (λ k. (lookup-perm k p d).0) in
    ap (λ (rest : Text). target ++ 124 ∷ rest) (same ∙ ap (write_headers h') keys)
