-- ===== src/Prelude/Maps.antt =====
-- Go's maps as association lists: a write replaces the entry of its key or adds one. `range` visits
-- the entries in the list's order, which stands for any order that the runtime may take.
use mathlib.Core.Path.{◌≡◌, refl, sym, ◌∙◌, ap₂, subst}
use mathlib.Core.Logic.{inl, inr}
use mathlib.Core.Bool.{true, false}
use mathlib.Core.Option.{Option, none, some}
use mathlib.Core.List.{List, [], ◌∷◌, Permᴰ}
use native.Mathlib.Omega.{arith}
use crankfire.Prelude.Tests.{if◌then◌else◌, Bool-cases}
use crankfire.Prelude.Equality.{Eq, ◌==◌}

pub beq_refl {ℓ} : {K : Type ℓ} ⦃e : Eq K⦄ (k : K) → (k == k) ≡ true
beq_refl ⦃e⦄ k = (e.beq_iff k k).1 refl

abbrev pub or_else {ℓ} : {V : Type ℓ} → Option V → Option V → Option V
or_else none o = o
or_else (some v) o = some v

-- A read of a missing key gives the type's zero value.
abbrev pub value_or {ℓ} : {V : Type ℓ} → V → Option V → V
value_or absent none = absent
value_or absent (some v) = v

module _ {ℓ κ} {K : Type ℓ} {V : Type κ} ⦃e : Eq K⦄ where
  unfoldable pub lookup : K → List (K × V) → Option V
  lookup key [] = none
  lookup key ((other, val) ∷ rest) = if other == key then some val else lookup key rest

  unfoldable pub delete : K → List (K × V) → List (K × V)
  delete k [] = []
  delete k ((j, w) ∷ m) = let rest = delete k m in if j == k then rest else (j, w) ∷ rest

  unfoldable pub insert : K → V → List (K × V) → List (K × V)
  insert key val [] = (key, val) ∷ []
  insert key val ((other, old) ∷ rest) =
      if other == key then (key, val) ∷ rest else (other, old) ∷ insert key val rest

  -- Writes the entries of the second map over the first, in their order.
  unfoldable pub write_all : List (K × V) → List (K × V) → List (K × V)
  write_all m [] = m
  write_all m ((k, v) ∷ es) = write_all (insert k v m) es

  pub lookup-insert :
      (key at : K) (val : V) (entries : List (K × V))
      → lookup at (insert key val entries) ≡ (if key == at then some val else lookup at entries)
  unfolding insert lookup
  lookup-insert key at val [] = refl
  lookup-insert key at val ((other, old) ∷ rest) = ground (
    arith,
    lookup-insert key at val rest,
    e.beq_iff other key,
    e.beq_iff other at,
    e.beq_iff key at,
  )

  pub lookup-insert_self : (k : K) (v : V) (m : List (K × V)) → lookup k (insert k v m) ≡ some v
  lookup-insert_self k v m = ground (arith, lookup-insert k k v m, beq_refl k)

  pub lookup-delete :
      (k j : K) (m : List (K × V)) → lookup j (delete k m) ≡ (if k == j then none else lookup j m)
  unfolding lookup delete
  lookup-delete k j [] = ground arith
  lookup-delete k j ((i, w) ∷ m) =
      ground (arith, e.beq_iff k j, e.beq_iff i k, e.beq_iff i j, lookup-delete k j m)

  -- No key stands twice, as in every Go map.
  abbrev pub NoDup : List (K × V) → Type κ
  NoDup [] = Unit
  NoDup ((k, v) ∷ m) = (lookup k m ≡ none) × NoDup m

  pub lookup-write_all :
      (m es : List (K × V)) (j : K)
      → NoDup es
      → lookup j (write_all m es) ≡ or_else (lookup j es) (lookup j m)
  unfolding lookup write_all
  lookup-write_all m [] j d = refl
  lookup-write_all m ((k, v) ∷ es) j d =
      ground (arith, e.beq_iff k j, lookup-write_all (insert k v m) es j d.1, lookup-insert k j v m)

  pub insert-NoDup : (k : K) (v : V) (m : List (K × V)) → NoDup m → NoDup (insert k v m)
  unfolding insert lookup
  insert-NoDup k v [] d = (refl, tt)
  insert-NoDup k v ((j, w) ∷ m) d = elim (Bool-cases (j == k)) [
    | inl hit ↦
        let same : j ≡ k = (e.beq_iff j k).0 hit in
        rw (hit, insert) (subst (λ i. lookup i m ≡ none) same d.0, d.1)
    | inr miss ↦
        rw (miss, insert)
          (
            ground (arith, e.beq_iff k j, e.beq_iff j k, lookup-insert k j v m, d.0),
            insert-NoDup k v m d.1,
          )
  ]

  -- Where no key stands twice, the order of the entries does not matter to a reader.
  pub lookup-perm :
      (k : K) {m m' : List (K × V)} → Permᴰ m m' → NoDup m → (lookup k m ≡ lookup k m') × NoDup m'
  unfolding lookup
  lookup-perm k Permᴰ.nil d = (refl, tt)
  lookup-perm k (Permᴰ.cons {a = x} {l₁ = m} {l₂ = m'} s p) d =
      let rest = lookup-perm k p d.1 in
      let here = (lookup-perm x.0 p d.1).0 in
      (
        ap₂ (λ (x' : K × V) (o : Option V). if x'.0 == k then some x'.1 else o) s rest.0,
        subst (λ x'. (lookup x'.0 m' ≡ none) × NoDup m') s (sym here ∙ d.0, rest.1),
      )
  lookup-perm k (Permᴰ.swap {a = x} {b = y} {l = m} s t) d =
      let absent = d.0 in
      let apart : (y.0 == x.0) ≡ false = ground (arith, absent) in
      let missing : lookup x.0 m ≡ none = ground (arith, absent, apart) in
      let swapped : lookup k (x ∷ y ∷ m) ≡ lookup k (y ∷ x ∷ m) =
        ground (arith, apart, e.beq_iff x.0 k, e.beq_iff y.0 k, e.beq_iff y.0 x.0) in
      let there : lookup y.0 (x ∷ m) ≡ none =
        ground (arith, d.1.0, apart, e.beq_iff x.0 y.0, e.beq_iff y.0 x.0) in
      (
        swapped ∙ ap₂ (λ (x' y' : K × V). lookup k (x' ∷ y' ∷ m)) t s,
        subst (λ l. NoDup l) (ap₂ (λ (x' y' : K × V). x' ∷ y' ∷ m) t s) (there, (missing, d.1.1)),
      )
  lookup-perm k (Permᴰ.trans p q) d =
      let first = lookup-perm k p d in
      let second = lookup-perm k q first.1 in (first.0 ∙ second.0, second.1)
