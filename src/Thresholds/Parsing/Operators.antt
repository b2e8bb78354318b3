-- ===== src/Thresholds/Parsing/Operators.antt =====
-- What stands before a colon, a point or an operator that is read.
use crankfire.Prelude.{
  ℕ, String, ◌≡◌, refl, sym, ap, ◌∙◌, subst, ◌⊎◌, inl, inr, true, some, ◌∷◌, arith, nat_beq,
  Bool-cases, ◌==◌, nat_eq, string_eq,
}
use mathlib.Core.Path.{ap₂}
use Prim.Native.Char.{Char, code}
use Prim.Native.String.{◌∷◌}
use text.Mathlib.TextEquality.{eq_iff, Char-path}
use crankfire.Thresholds.Parsing.{after_colon, with_equals, operator_at, fraction}
use crankfire.Thresholds.Parsing.Spans.{joined}

nat_beq_path : (n k : ℕ) → nat_beq n k ≡ true → n ≡ k
nat_beq_path n k h = ground (arith, h)

pub after_colon_text : (t r : String) → after_colon t ≡ some r → t ≡ joined ":" r
unfolding after_colon
after_colon_text String.[] r e = ground (arith, e)
after_colon_text (c ∷ s) r e = elim (Bool-cases (nat_beq (code c) 58)) [
  | inl hit ↦
      let rest : s ≡ r = ground (arith, hit, e) in
      ap₂ (λ (d : Char) (u : String). d ∷ u) (Char-path c ":" (nat_beq_path (code c) 58 hit)) rest
  | inr miss ↦ ground (arith, miss, e)
]

pub fraction_text : (t r : String) → fraction t ≡ some r → t ≡ joined "." r
unfolding fraction
fraction_text String.[] r e = ground (arith, e)
fraction_text (c ∷ s) r e = elim (Bool-cases (nat_beq (code c) 46)) [
  | inl hit ↦
      let rest : s ≡ r = ground (arith, hit, e) in
      ap₂ (λ (d : Char) (u : String). d ∷ u) (Char-path c "." (nat_beq_path (code c) 46 hit)) rest
  | inr miss ↦ ground (arith, miss, e)
]

-- One of the five operators.
abbrev pub IsOperator : String → Type 0
IsOperator op = (op ≡ "<") ⊎ ((op ≡ "<=") ⊎ ((op ≡ ">") ⊎ ((op ≡ ">=") ⊎ (op ≡ "=="))))

with_equals_text :
    (op op_equals t : String)
    → ((with_equals op op_equals t).0 ≡ op) × (t ≡ (with_equals op op_equals t).1)
      ⊎ ((with_equals op op_equals t).0 ≡ op_equals)
        × (t ≡ joined "=" (with_equals op op_equals t).1)
unfolding with_equals
with_equals_text op op_equals String.[] = inl (refl, refl)
with_equals_text op op_equals (c ∷ s) = elim (Bool-cases (nat_beq (code c) 61)) [
  | inl hit ↦
      rw (hit)
        (inr (refl, ap (λ (d : Char). d ∷ s) (Char-path c "=" (nat_beq_path (code c) 61 hit))))
  | inr miss ↦ rw (miss) (inl (refl, refl))
]

begins : (c d : Char) (s t : String) → c ≡ d → s ≡ t → ◌≡◌ {A = String} (c ∷ s) (d ∷ t)
begins c d s t e f = ap₂ (λ (x : Char) (u : String). x ∷ u) e f

-- An operator of one character, or of this one and `=`, in front.
one_or_two :
    (c d : Char) (s op rest : String)
    → c ≡ d
    → with_equals (d ∷ "") (d ∷ "=") s ≡ (op, rest)
    → (◌≡◌ {A = String} (c ∷ s) (joined op rest)) × ((op ≡ (d ∷ "")) ⊎ (op ≡ (d ∷ "=")))
one_or_two c d s op rest at parts =
    let first : (with_equals (d ∷ "") (d ∷ "=") s).0 ≡ op =
      ap (λ (x : String × String). x.0) parts in
    let second : (with_equals (d ∷ "") (d ∷ "=") s).1 ≡ rest =
      ap (λ (x : String × String). x.1) parts in
    elim (with_equals_text (d ∷ "") (d ∷ "=") s) [
      | inl (name, text) ↦
          let op_is : op ≡ (d ∷ "") = sym first ∙ name in
          (
            subst (λ o. ◌≡◌ {A = String} (c ∷ s) (joined o rest)) (sym op_is)
                (begins c d s rest at (text ∙ second)),
            inl op_is,
          )
      | inr (name, text) ↦
          let op_is : op ≡ (d ∷ "=") = sym first ∙ name in
          (
            subst (λ o. ◌≡◌ {A = String} (c ∷ s) (joined o rest)) (sym op_is)
                (begins c d s (joined "=" rest) at (text ∙ ap (joined "=") second)),
            inr op_is,
          )
    ]

pub operator_at_text :
    (t op rest : String) → operator_at t ≡ some (op, rest) → (t ≡ joined op rest) × IsOperator op
unfolding operator_at
operator_at_text String.[] op rest e = ground (arith, e)
operator_at_text (c ∷ s) op rest e = elim (Bool-cases (nat_beq (code c) 60)) [
  | inl less ↦
      let found =
        one_or_two c "<" s op rest (Char-path c "<" (nat_beq_path (code c) 60 less))
          (ground (arith, less, e)) in
      (found.0, ground (arith, found.1))
  | inr not_less ↦ elim (Bool-cases (nat_beq (code c) 62)) [
    | inl more ↦
        let found =
          one_or_two c ">" s op rest (Char-path c ">" (nat_beq_path (code c) 62 more))
            (ground (arith, not_less, more, e)) in
        (found.0, ground (arith, found.1))
    | inr not_more ↦ elim (Bool-cases (nat_beq (code c) 61)) [
      | inl equals ↦ elim (Bool-cases ((with_equals "=" "==" s).0 == "==")) [
        | inl twice ↦
            let found =
              one_or_two c "=" s op rest (Char-path c "=" (nat_beq_path (code c) 61 equals))
                (ground (arith, not_less, not_more, equals, twice, e)) in
            let parts : with_equals "=" "==" s ≡ (op, rest) =
              ground (arith, not_less, not_more, equals, twice, e) in
            let op_is : op ≡ "==" =
              sym (ap (λ (x : String × String). x.0) parts)
              ∙ (eq_iff (with_equals "=" "==" s).0 "==").0 twice in
            (found.0, inr (inr (inr (inr op_is))))
        | inr once ↦ ground (arith, not_less, not_more, equals, once, e)
      ]
      | inr not_equals ↦ ground (arith, not_less, not_more, not_equals, e)
    ]
  ]
]
