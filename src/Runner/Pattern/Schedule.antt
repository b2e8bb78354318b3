-- ===== src/Runner/Pattern/Schedule.antt =====
-- The compiled plan against the pieces of the load patterns.
use crankfire.Prelude.{
  ℕ, zero, suc, ◌+◌, ◌-◌, ◌^◌, ◌≤◌, ◌<◌, ◌≡◌, refl, sym, ap, ◌∙◌, ◌↔◌, Bool, true, false, none,
  List, [], ◌∷◌, ◌++◌, arith, if◌then◌else◌, ◌==◌, nat_eq, string_eq, text_eq, Float64,
}
use crankfire.Prelude.Int.{ℤ, pos, negsuc, pos_part, ◌≤ℤ◌, leb_ℤ}
use crankfire.Prelude.Int64.{add64-pos, sub64-pos}
use crankfire.Runner.Pattern.{
  LoadStep, LoadPattern, load_pattern_type_ramp, load_pattern_type_step, load_pattern_type_spike,
  PatternSegment, PatternPlan, append_segment, add_part, add_steps, add_pattern, add_patterns,
  empty_plan, finish, compile_pattern_plan, find_rate, not_negative, rate_at, total_duration,
}
use mathlib.Core.List.{append-nil, append_assoc}
use crankfire.Runner.Pattern.Pieces.{
  Piece, piece_of, step_pieces, pattern_pieces, pieces, total, sub-sub, total-append, piece_rate,
  piece_rate-total,
}

module _ (R : Float64) where
  open R use {F, of_int}

  -- The segments of the pieces, laid out from an offset.
  layout : ℕ → List Piece → List (PatternSegment R)
  layout n [] = []
  layout n (p ∷ ps) =
      record {
        start = pos n;
        duration = pos p.len;
        from_rate = of_int p.from;
        to_rate = of_int p.to;
      }
      ∷ layout (n + p.len) ps

  layout-append :
      (n : ℕ) (ps qs : List Piece) → layout n (ps ++ qs) ≡ layout n ps ++ layout (n + total ps) qs
  unfolding layout total
  layout-append n [] qs = ap (λ m. layout m qs) (omega arith)
  layout-append n (p ∷ ps) qs = rw (layout-append (n + p.len) ps qs) (
      ap
        (λ m.
          record {
            start = pos n;
            duration = pos p.len;
            from_rate = of_int p.from;
            to_rate = of_int p.to;
          }
          ∷ (layout (n + p.len) ps ++ layout m qs))
        (omega arith))

  -- What the compilation of some parts does to a cursor that stands at `n`.
  abbrev Adds : ℕ → List Piece → PatternPlan R × ℤ → PatternPlan R × ℤ → Type 0
  Adds n ps c d = (d.1 ≡ pos (n + total ps)) × (d.0.segments ≡ c.0.segments ++ layout n ps)

  Adds-none : (n : ℕ) (c : PatternPlan R × ℤ) → c.1 ≡ pos n → Adds n [] c c
  unfolding layout total
  Adds-none n c h = (h ∙ ap pos (omega arith), sym (append-nil c.0.segments))

  Adds-trans :
      (n : ℕ) (ps qs : List Piece) (c d e : PatternPlan R × ℤ)
      → Adds n ps c d
      → Adds (n + total ps) qs d e
      → Adds n (ps ++ qs) c e
  Adds-trans n ps qs c d e h k = (
    k.0 ∙ ap pos (omega (arith, total-append ps qs)),
    k.1
        ∙ ap (λ l. l ++ layout (n + total ps) qs) h.1
        ∙ append_assoc c.0.segments _ _
        ∙ ap (λ l. c.0.segments ++ l) (sym (layout-append n ps qs)),
  )

  add_part-Adds :
      (n : ℕ) (c : PatternPlan R × ℤ) (duration from to : ℤ)
      → c.1 ≡ pos n
      → n + total (piece_of duration from to) < 2 ^ 63
      → Adds n (piece_of duration from to) c (add_part R c duration from to)
  unfolding add_part append_segment layout total
  add_part-Adds n c (pos zero) from to h l = Adds-none n c h
  add_part-Adds n c (pos (suc k)) from to h l =
      (rw (h, add_part) (ground (arith, add64-pos n (suc k))), rw (h, add_part) (ground arith))
  add_part-Adds n c (negsuc k) from to h l =
      let skip : leb_ℤ (negsuc k) (pos 0) ≡ true = ground arith in
      rw (skip, add_part) (Adds-none n c h)

  add_steps-Adds :
      (n : ℕ) (c : PatternPlan R × ℤ) (ss : List LoadStep)
      → c.1 ≡ pos n
      → n + total (step_pieces ss) < 2 ^ 63
      → Adds n (step_pieces ss) c (add_steps R c ss)
  unfolding add_steps step_pieces
  add_steps-Adds n c [] h l = Adds-none n c h
  add_steps-Adds n c (s ∷ ss) h l =
      let ps = piece_of s.duration s.rps s.rps in
      let sum = total-append ps (step_pieces ss) in
      let one = add_part-Adds n c s.duration s.rps s.rps h (omega (arith, sum)) in
      Adds-trans n ps (step_pieces ss) c (add_part R c s.duration s.rps s.rps)
        (add_steps R (add_part R c s.duration s.rps s.rps) ss) one
        (add_steps-Adds (n + total ps) (add_part R c s.duration s.rps s.rps) ss one.0
          (omega (arith, sum)))

  -- A test that picks the pieces and the new cursor alike.
  choose-Adds :
      (n : ℕ) (b : Bool) (ps qs : List Piece) (c d e : PatternPlan R × ℤ)
      → (n + total ps < 2 ^ 63 → Adds n ps c d)
      → (n + total qs < 2 ^ 63 → Adds n qs c e)
      → n + total (if b then ps else qs) < 2 ^ 63
      → Adds n (if b then ps else qs) c (if b then d else e)
  choose-Adds n true ps qs c d e f g = f
  choose-Adds n false ps qs c d e f g = g

  add_pattern-Adds :
      (n : ℕ) (c : PatternPlan R × ℤ) (p : LoadPattern)
      → c.1 ≡ pos n
      → n + total (pattern_pieces p) < 2 ^ 63
      → Adds n (pattern_pieces p) c (add_pattern R c p)
  unfolding add_pattern pattern_pieces
  add_pattern-Adds n c p h =
      choose-Adds n (p.type == load_pattern_type_ramp) _ _ c _ _
        (add_part-Adds n c p.duration p.from_rps p.to_rps h)
        (choose-Adds n (p.type == load_pattern_type_step) _ _ c _ _ (add_steps-Adds n c p.steps h) (
          choose-Adds n (p.type == load_pattern_type_spike) _ _ c _ _
            (add_part-Adds n c p.duration p.rps p.rps h) (λ _. Adds-none n c h)))

  add_patterns-Adds :
      (n : ℕ) (c : PatternPlan R × ℤ) (ps : List LoadPattern)
      → c.1 ≡ pos n
      → n + total (pieces ps) < 2 ^ 63
      → Adds n (pieces ps) c (add_patterns R c ps)
  unfolding add_patterns pieces
  add_patterns-Adds n c [] h l = Adds-none n c h
  add_patterns-Adds n c (p ∷ ps) h l =
      let sum = total-append (pattern_pieces p) (pieces ps) in
      let one = add_pattern-Adds n c p h (omega (arith, sum)) in
      Adds-trans n (pattern_pieces p) (pieces ps) c (add_pattern R c p)
        (add_patterns R (add_pattern R c p) ps) one
        (add_patterns-Adds (n + total (pattern_pieces p)) (add_pattern R c p) ps one.0
          (omega (arith, sum)))

  -- The search over the laid out segments, from the offset on.
  find_rate-layout :
      (n t : ℕ) (ps : List Piece)
      → n ≤ t
      → n + total ps < 2 ^ 63
      → find_rate R (layout n ps) (pos t) ≡ piece_rate R ps (t - n)
  unfolding find_rate layout piece_rate total
  find_rate-layout n t [] h l = refl
  find_rate-layout n t (p ∷ ps) h l = ground (
    arith,
    add64-pos n p.len,
    sub64-pos t n,
    find_rate-layout (n + p.len) t ps,
    ap (piece_rate R ps) (sub-sub n t p.len),
  )

  rate_at-finish :
      (c : PatternPlan R × ℤ) (elapsed : ℤ)
      → rate_at R (finish R c) elapsed ≡ find_rate R c.0.segments (not_negative R elapsed)
  unfolding rate_at find_rate
  rate_at-finish c elapsed = ground arith

  not_negative-pos : (elapsed : ℤ) → not_negative R elapsed ≡ pos (pos_part elapsed)
  not_negative-pos elapsed = ground arith

  compiled_segments :
      (ps : List LoadPattern)
      → total (pieces ps) < 2 ^ 63
      → (add_patterns R (empty_plan R, pos 0) ps).0.segments ≡ layout 0 (pieces ps)
  unfolding empty_plan
  compiled_segments ps l = (add_patterns-Adds 0 (empty_plan R, pos 0) ps refl (omega arith)).1

  find_rate-pieces :
      (ps : List LoadPattern) (elapsed : ℤ)
      → total (pieces ps) < 2 ^ 63
      → find_rate R (layout 0 (pieces ps)) (pos (pos_part elapsed))
        ≡ piece_rate R (pieces ps) (pos_part elapsed)
  find_rate-pieces ps elapsed l =
      find_rate-layout 0 (pos_part elapsed) (pieces ps) (omega arith) (omega arith)
      ∙ ap (piece_rate R (pieces ps)) (omega arith)

  -- The compiled plan gives, at every time elapsed, the rate of the load patterns read directly: the
  -- parts with a positive duration run one after another from 0, each with its own ramp, a time
  -- before 0 counts as 0, and there is no rate from the end of the last part on. The durations
  -- together stay below 2^63 nanoseconds.
  pub rate_at-compile_pattern_plan :
      (ps : List LoadPattern) (elapsed : ℤ)
      → total (pieces ps) < 2 ^ 63
      → rate_at R (compile_pattern_plan R ps) elapsed ≡ piece_rate R (pieces ps) (pos_part elapsed)
  unfolding compile_pattern_plan rate_at pieces piece_rate
  rate_at-compile_pattern_plan [] elapsed l = refl
  rate_at-compile_pattern_plan (p ∷ ps) elapsed l =
      rate_at-finish (add_patterns R (empty_plan R, pos 0) (p ∷ ps)) elapsed
      ∙ ap (λ segs. find_rate R segs (not_negative R elapsed)) (compiled_segments (p ∷ ps) l)
      ∙ ap (find_rate R (layout 0 (pieces (p ∷ ps)))) (not_negative-pos elapsed)
      ∙ find_rate-pieces (p ∷ ps) elapsed l

  total_duration-finish :
      (ps : List Piece) (c : PatternPlan R × ℤ)
      → c.1 ≡ pos (0 + total ps)
      → c.0.segments ≡ layout 0 ps
      → total_duration R (finish R c) ≡ pos (total ps)
  unfolding total_duration layout total
  total_duration-finish [] c h k = ground arith
  total_duration-finish (p ∷ ps) c h k = ground arith

  total_duration-compile_pattern_plan :
      (ps : List LoadPattern)
      → total (pieces ps) < 2 ^ 63
      → total_duration R (compile_pattern_plan R ps) ≡ pos (total (pieces ps))
  unfolding compile_pattern_plan total_duration pieces total
  total_duration-compile_pattern_plan [] l = refl
  total_duration-compile_pattern_plan (p ∷ ps) l =
      total_duration-finish (pieces (p ∷ ps)) (add_patterns R (empty_plan R, pos 0) (p ∷ ps))
        (add_patterns-Adds 0 (empty_plan R, pos 0) (p ∷ ps) refl (omega arith)).0
        (compiled_segments (p ∷ ps) l)

  -- A compiled plan has a rate exactly until its total duration: `totalDuration` is the sum of the
  -- positive durations, and `rateAt` answers at a time iff that time lies before it. The durations
  -- together stay below 2^63 nanoseconds.
  pub rate_at-total_duration :
      (ps : List LoadPattern) (elapsed : ℤ)
      → total (pieces ps) < 2 ^ 63
      → (total_duration R (compile_pattern_plan R ps) ≡ pos (total (pieces ps)))
        × ((rate_at R (compile_pattern_plan R ps) elapsed ≡ none)
            ↔ (total_duration R (compile_pattern_plan R ps) ≤ℤ pos (pos_part elapsed)))
  rate_at-total_duration ps elapsed l =
      let d = total_duration-compile_pattern_plan ps l in
      let t = piece_rate-total R (pieces ps) (pos_part elapsed) in
      (
        d,
        rw (d, rate_at-compile_pattern_plan ps elapsed l)
            (λ e. omega (arith, t.0 e), λ h. t.1 (omega arith)),
      )
