-- ===== src/Runner/Pattern/Pieces.antt =====
-- The load patterns of pattern_plan.go read directly: a list of pieces, one after another, each with
-- its length and its rates.
use crankfire.Prelude.{
  ℕ, zero, suc, ◌+◌, ◌-◌, ◌≤◌, ◌≡◌, ◌↔◌, Option, none, some, List, [], ◌∷◌, ◌++◌, arith, ltb,
  if◌then◌else◌, ◌==◌, nat_eq, string_eq, text_eq, Float64,
}
use crankfire.Prelude.Int.{ℤ, pos, negsuc}
use crankfire.Runner.Pattern.{
  LoadStep, LoadPattern, load_pattern_type_ramp, load_pattern_type_step, load_pattern_type_spike,
  interpolate,
}

pub record Piece : Type 0 where
  pub len : ℕ
  pub from : ℤ
  pub to : ℤ

-- A part with no positive duration takes no time.
abbrev pub piece_of : ℤ → ℤ → ℤ → List Piece
piece_of (pos zero) from to = []
piece_of (pos (suc n)) from to = record { len = suc n; from = from; to = to } ∷ []
piece_of (negsuc n) from to = []

unfoldable pub step_pieces : List LoadStep → List Piece
step_pieces [] = []
step_pieces (s ∷ ss) = piece_of s.duration s.rps s.rps ++ step_pieces ss

unfoldable pub pattern_pieces : LoadPattern → List Piece
pattern_pieces p =
    if p.type == load_pattern_type_ramp
    then piece_of p.duration p.from_rps p.to_rps
    else if p.type == load_pattern_type_step
    then step_pieces p.steps
    else if p.type == load_pattern_type_spike
    then piece_of p.duration p.rps p.rps
    else []

unfoldable pub pieces : List LoadPattern → List Piece
pieces [] = []
pieces (p ∷ ps) = pattern_pieces p ++ pieces ps

unfoldable pub total : List Piece → ℕ
total [] = 0
total (p ∷ ps) = p.len + total ps

pub sub-sub : (n t k : ℕ) → t - n - k ≡ t - (n + k)
sub-sub n t k = omega arith

pub total-append : (ps qs : List Piece) → total (ps ++ qs) ≡ total ps + total qs
unfolding total
total-append [] qs = omega arith
total-append (p ∷ ps) qs = omega (arith, total-append ps qs)

module _ (R : Float64) where
  open R use {F, of_int}

  -- The rate after `t` nanoseconds: the piece that is running then, at the time since it began.
  unfoldable pub piece_rate : List Piece → ℕ → Option F
  piece_rate [] t = none
  piece_rate (p ∷ ps) t =
      let rest = piece_rate ps (t - p.len) in
      if ltb t p.len
      then some (interpolate R (of_int p.from) (of_int p.to) (pos t) (pos p.len))
      else rest

  pub piece_rate-total : (ps : List Piece) (t : ℕ) → (piece_rate ps t ≡ none) ↔ (total ps ≤ t)
  unfolding piece_rate total
  piece_rate-total [] t = ground arith
  piece_rate-total (p ∷ ps) t = ground (arith, piece_rate-total ps (t - p.len))
