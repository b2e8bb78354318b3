-- ===== src/Thresholds/Parsing/Spans.antt =====
-- Texts split by a class of characters.
use crankfire.Prelude.{
  ℕ, String, ◌≡◌, refl, ap, inl, inr, Bool, true, ◌&&◌, not, ◌∷◌, arith, Bool-cases, nat_eq,
  string_eq,
}
use Prim.Native.Char.{code}
use Prim.Native.String.{◌∷◌}
use crankfire.Thresholds.Parsing.{span}

-- One text after the other.
abbrev pub joined : String → String → String
joined String.[] t = t
joined (c ∷ s) t = c ∷ joined s t

abbrev pub all_chars : (ℕ → Bool) → String → Bool
all_chars p String.[] = true
all_chars p (c ∷ s) = p (code c) && all_chars p s

-- No character of the class is at the beginning.
abbrev pub not_at : (ℕ → Bool) → String → Bool
not_at p String.[] = true
not_at p (c ∷ s) = not (p (code c))

pub span_text : (p : ℕ → Bool) (s : String) → s ≡ joined (span p s).0 (span p s).1
unfolding span
span_text p String.[] = refl
span_text p (c ∷ s) = elim (Bool-cases (p (code c))) [
  | inl hit ↦ rw (hit) (ap (λ (t : String). c ∷ t) (span_text p s))
  | inr miss ↦ rw (miss) refl
]

pub span_chars :
    (p : ℕ → Bool) (s : String) → (all_chars p (span p s).0 ≡ true) × (not_at p (span p s).1 ≡ true)
unfolding span
span_chars p String.[] = (refl, refl)
span_chars p (c ∷ s) = elim (Bool-cases (p (code c))) [
  | inl hit ↦ let rest = span_chars p s in rw (hit) (ground (arith, hit, rest.0), rest.1)
  | inr miss ↦ rw (miss) (refl, ground (arith, miss))
]

pub span-append :
    (p : ℕ → Bool) (s r : String)
    → all_chars p s ≡ true
    → not_at p r ≡ true
    → span p (joined s r) ≡ (s, r)
unfolding span
span-append p String.[] String.[] h k = refl
span-append p String.[] (c ∷ r) h k = elim (Bool-cases (p (code c))) [
  | inl hit ↦ ground (arith, hit, k)
  | inr miss ↦ rw (miss) refl
]
span-append p (c ∷ s) r h k = elim (Bool-cases (p (code c))) [
  | inl hit ↦
      rw (hit) (
        ap (λ (x : String × String). (c ∷ x.0, x.1)) (span-append p s r (ground (arith, hit, h)) k))
  | inr miss ↦ ground (arith, miss, h)
]
