-- ===== src/Thresholds/Parsing/Marks.antt =====
-- What a number, an operator or the white space can begin with, and that they are read back.
use crankfire.Prelude.{
  ℕ, String, ◌≡◌, refl, sym, ap, ◌∙◌, subst, inl, inr, Bool, true, false, some, ◌∷◌, arith, nat_beq,
  Bool-cases, nat_eq, string_eq,
}
use Prim.Native.Char.{code}
use Prim.Native.String.{◌∷◌}
use crankfire.Prelude.Strings.{is_empty}
use crankfire.Thresholds.Parsing.{span, with_equals, operator_at, is_digit, fraction, is_number}
use crankfire.Thresholds.Parsing.Spans.{joined, all_chars, not_at, span-append}
use crankfire.Thresholds.Parsing.Operators.{IsOperator}
use crankfire.Thresholds.Parsing.Grammar.{IsNumber}

pub not_at-joined :
    (p q : ℕ → Bool) (s r : String)
    → ((n : ℕ) → q n ≡ true → p n ≡ false)
    → all_chars q s ≡ true
    → not_at p r ≡ true
    → not_at p (joined s r) ≡ true
not_at-joined p q String.[] r apart h k = k
not_at-joined p q (c ∷ s) r apart h k = ground (arith, h, apart (code c))

pub IsNumber-not_at :
    (p : ℕ → Bool) (v : String)
    → ((n : ℕ) → is_digit n ≡ true → p n ≡ false)
    → p 46 ≡ false
    → IsNumber v
    → not_at p v ≡ true
IsNumber-not_at p v apart point (String.[], rest, text, digits, inl (nil, given)) =
    ground (arith, given)
IsNumber-not_at p v apart point (c ∷ whole, rest, text, digits, inl (nil, given)) =
    subst (λ t. not_at p t ≡ true) (sym text) (ground (arith, digits, apart (code c)))
IsNumber-not_at p v apart point (String.[], rest, text, digits, inr (part, dotted, more, given)) =
    subst (λ t. not_at p t ≡ true) (sym (text ∙ dotted)) (ground (arith, point))
IsNumber-not_at p v apart point (c ∷ whole, rest, text, digits, inr more) =
    subst (λ t. not_at p t ≡ true) (sym text) (ground (arith, digits, apart (code c)))

all_span : (p : ℕ → Bool) (s : String) → all_chars p s ≡ true → is_empty (span p s).1 ≡ true
unfolding span
all_span p String.[] h = refl
all_span p (c ∷ s) h = elim (Bool-cases (p (code c))) [
  | inl hit ↦ rw (hit) (all_span p s (ground (arith, hit, h)))
  | inr miss ↦ ground (arith, miss, h)
]

pub is_number-IsNumber : (v : String) → IsNumber v → is_number v ≡ true
unfolding is_number fraction
is_number-IsNumber v (whole, rest, text, digits, inl (nil, given)) =
    let parts = span-append is_digit whole "" digits refl in
    subst (λ t. is_number t ≡ true) (sym (text ∙ ap (joined whole) nil))
      (rw (parts) (ground (arith, given)))
is_number-IsNumber v (whole, rest, text, digits, inr (part, dotted, more, given)) =
    let parts = span-append is_digit whole (joined "." part) digits refl in
    subst (λ t. is_number t ≡ true) (sym (text ∙ ap (joined whole) dotted))
      (rw (parts) (ground (arith, given, all_span is_digit part more)))

pub IsOperator-not_at :
    (p : ℕ → Bool) (op r : String)
    → p 60 ≡ false
    → p 61 ≡ false
    → p 62 ≡ false
    → IsOperator op
    → not_at p (joined op r) ≡ true
IsOperator-not_at p op r a b c (inl e) =
    subst (λ o. not_at p (joined o r) ≡ true) (sym e) (ground (arith, a))
IsOperator-not_at p op r a b c (inr (inl e)) =
    subst (λ o. not_at p (joined o r) ≡ true) (sym e) (ground (arith, a))
IsOperator-not_at p op r a b c (inr (inr (inl e))) =
    subst (λ o. not_at p (joined o r) ≡ true) (sym e) (ground (arith, c))
IsOperator-not_at p op r a b c (inr (inr (inr (inl e)))) =
    subst (λ o. not_at p (joined o r) ≡ true) (sym e) (ground (arith, c))
IsOperator-not_at p op r a b c (inr (inr (inr (inr e)))) =
    subst (λ o. not_at p (joined o r) ≡ true) (sym e) (ground (arith, b))

with_equals-alone :
    (op op_equals r : String)
    → not_at (λ n. nat_beq n 61) r ≡ true
    → with_equals op op_equals r ≡ (op, r)
unfolding with_equals
with_equals-alone op op_equals String.[] h = refl
with_equals-alone op op_equals (c ∷ r) h = ground (arith, h)

pub operator_at-joined :
    (op r : String)
    → IsOperator op
    → not_at (λ n. nat_beq n 61) r ≡ true
    → operator_at (joined op r) ≡ some (op, r)
unfolding operator_at with_equals
operator_at-joined op r (inl e) h =
    subst (λ o. operator_at (joined o r) ≡ some (o, r)) (sym e)
      (ap some (with_equals-alone "<" "<=" r h))
operator_at-joined op r (inr (inl e)) h =
    subst (λ o. operator_at (joined o r) ≡ some (o, r)) (sym e) refl
operator_at-joined op r (inr (inr (inl e))) h =
    subst (λ o. operator_at (joined o r) ≡ some (o, r)) (sym e)
      (ap some (with_equals-alone ">" ">=" r h))
operator_at-joined op r (inr (inr (inr (inl e)))) h =
    subst (λ o. operator_at (joined o r) ≡ some (o, r)) (sym e) refl
operator_at-joined op r (inr (inr (inr (inr e)))) h =
    subst (λ o. operator_at (joined o r) ≡ some (o, r)) (sym e) refl
