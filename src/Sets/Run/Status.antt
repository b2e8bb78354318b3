-- ===== src/Sets/Run/Status.antt =====
-- When a run of a set counts as completed, and what it records of the stages.
use crankfire.Prelude.{
  ℕ, suc, String, ◌≡◌, refl, sym, ap, ◌∙◌, ◌↔◌, ◌⊎◌, subst, inl, inr, Bool, true, false, ◌&&◌, not,
  List, [], ◌∷◌, ◌++◌, map, arith, if◌then◌else◌, Bool-cases, set, All, nat_eq, string_eq, text_eq,
  Float64,
}
use mathlib.Core.List.{append-nil, append_assoc}
use crankfire.Sets.{
  Set, Stage, StageResult, SetRunStatus, run_running, run_completed, run_failed, run_cancelled,
}
use crankfire.Sets.Aggregate.{aggregate}
use crankfire.Sets.Thresholds.{evaluate_thresholds, all_passed, Holds}
use crankfire.Sets.Thresholds.Verdict.{all_passed-evaluate_thresholds}
use crankfire.Sets.Items.{Backend, StageState, run_stage, run_item}
use crankfire.Sets.Items.Completion.{Covers, SomeFails, run_stage_results}
use crankfire.Sets.Run.{
  Outer, aborts, Progress, after_stage, run_stages, judge, start_progress, run_of, is_run_completed,
}

module _ {C : Type 0} (R : Float64) (expand : String → String) (backend : Backend (R.F) C)
    (o : Outer (R.F)) where
  open R use {F}

  -- In each stage all items finish.
  abbrev pub OrdersCover : ℕ → List Stage → Type 0
  OrdersCover i [] = Unit {0}
  OrdersCover i (stage ∷ stages) = Covers (o.order i) stage.items × OrdersCover (suc i) stages

  -- No stage is cancelled, and none that aborts has an item that does not complete.
  abbrev pub StagesPass : ℕ → List Stage → Type 0
  StagesPass i [] = Unit {0}
  StagesPass i (stage ∷ stages) =
      (o.cancelled i ≡ false)
      × (aborts stage ≡ true → SomeFails R expand backend stage.items → ⊥)
      × StagesPass (suc i) stages

  abbrev Loop : Type 0
  Loop = Progress R expand backend o

  abbrev stage_of : Stage → Loop → ℕ → StageState R expand backend
  stage_of stage p i = run_stage R expand backend stage p.per_item (o.order i)

  run_stages-StagesPass :
      (i : ℕ) (p : Loop) (stages : List Stage)
      → OrdersCover i stages
      → p.status ≡ run_completed
      → ((run_stages R expand backend o i p stages).status ≡ run_completed) ↔ StagesPass i stages
  unfolding run_stages
  run_stages-StagesPass i p [] c e = (λ h. tt, λ h. e)
  run_stages-StagesPass i p (stage ∷ stages) c e =
      let st = stage_of stage p i in
      let f = (run_stage_results R expand backend stage p.per_item (o.order i) c.0).1 in
      let rest =
        run_stages-StagesPass (suc i) (after_stage R expand backend o stage p st) stages c.1 e in
      elim (Bool-cases (o.cancelled i)) [
        | inl stop ↦ rw (stop, run_stages) (λ h. ground arith, λ h. ground (arith, h.0, stop))
        | inr on ↦ elim (Bool-cases (st.any_fail && aborts stage)) [
          | inl bad ↦
              rw (on, bad, run_stages)
                (
                  λ h. ground arith,
                  λ h. absurd (h.1 (ground (arith, bad)) (f.0 (ground (arith, bad)))),
                )
          | inr good ↦
              rw (on, good, run_stages)
                (λ h. (refl, λ a s. ground (arith, f.1 s, a, good), rest.0 h), λ h. rest.1 h.2)
        ]
      ]

  judge-status :
      (set_id : String) (set : Set F) (p : Loop)
      → ((judge R expand backend o set_id set p).status ≡ run_completed) ↔ (
          (p.status ≡ run_completed)
          × (all_passed R (evaluate_thresholds R set.thresholds (aggregate R p.per_item) p.per_item)
              ≡ true))
  unfolding judge
  judge-status set_id set p =
      verdict p.status
        (all_passed R (evaluate_thresholds R set.thresholds (aggregate R p.per_item) p.per_item))
    where
      verdict :
          (status : SetRunStatus) (b : Bool)
          → ((if is_run_completed R expand backend o status && not b then run_failed else status)
              ≡ run_completed)
            ↔ ((status ≡ run_completed) × (b ≡ true))
      verdict run_completed b = ground arith
      verdict run_running b = ground arith
      verdict run_failed b = ground arith
      verdict run_cancelled b = ground arith

  -- A run of a set is completed exactly if no stage was cancelled, every item of a stage that aborts on
  -- a failure completed, and every threshold of the set holds of the snapshots; all items of a stage
  -- finish, in any order.
  pub run_of-status :
      (set_id : String) (set : Set F)
      → OrdersCover 0 set.stages
      → let per =
          (run_stages R expand backend o 0
            (start_progress R expand backend o)
            set.stages).per_item in
        ((run_of R expand backend o set_id set).status ≡ run_completed)
        ↔ (StagesPass 0 set.stages × All (λ t. Holds R t (aggregate R per) per) set.thresholds)
  unfolding run_of
  run_of-status set_id set c =
      let p = run_stages R expand backend o 0 (start_progress R expand backend o) set.stages in
      let j = judge-status set_id set p in
      let s = run_stages-StagesPass 0 (start_progress R expand backend o) set.stages c refl in
      let t = all_passed-evaluate_thresholds R set.thresholds (aggregate R p.per_item) p.per_item in
      (λ h. (s.0 (j.0 h).0, t.0 (j.0 h).1), λ h. j.1 (s.1 h.0, t.1 h.1))

  abbrev pub stage_result : Stage → StageResult F
  stage_result stage = record {
    name = stage.name;
    items = map (λ item. (run_item R expand backend item).0) stage.items;
  }

  -- From stage `i` on, the stages that were run with the status at the end: all of them, or those up to
  -- the first that was cancelled, or that aborts and has an item that does not complete.
  pub data Ran : ℕ → List Stage → List Stage → SetRunStatus → Type 0 where
    all_ran : {i : ℕ} → Ran i [] [] run_completed
    stopped :
        {i : ℕ} {stage : Stage} {stages : List Stage}
        → o.cancelled i ≡ true
        → Ran i (stage ∷ stages) (stage ∷ []) run_cancelled
    aborted :
        {i : ℕ} {stage : Stage} {stages : List Stage}
        → o.cancelled i ≡ false
        → aborts stage ≡ true
        → SomeFails R expand backend stage.items
        → Ran i (stage ∷ stages) (stage ∷ []) run_failed
    passed :
        {i : ℕ} {stage : Stage} {stages ran : List Stage} {status : SetRunStatus}
        → o.cancelled i ≡ false
        → (aborts stage ≡ true → SomeFails R expand backend stage.items → ⊥)
        → Ran (suc i) stages ran status
        → Ran i (stage ∷ stages) (stage ∷ ran) status

  pub record Recorded (i : ℕ) (p : Loop) (stages : List Stage) (q : Loop) : Type 0 where
    pub ran : List Stage
    pub ended : Ran i stages ran q.status
    pub stored : q.stages ≡ p.stages ++ map stage_result ran

  stage_of-results :
      (stage : Stage) (p : Loop) (i : ℕ)
      → Covers (o.order i) stage.items
      → (after_stage R expand backend o stage p (stage_of stage p i)).stages
        ≡ p.stages ++ stage_result stage ∷ []
  stage_of-results stage p i c =
      ap (λ rs. p.stages ++ record { name = stage.name; items = rs } ∷ [])
        (run_stage_results R expand backend stage p.per_item (o.order i) c).0

  go_on :
      (i : ℕ) (stage : Stage) (p p' q : Loop) (stages : List Stage)
      → o.cancelled i ≡ false
      → (aborts stage ≡ true → SomeFails R expand backend stage.items → ⊥)
      → p'.stages ≡ p.stages ++ stage_result stage ∷ []
      → Recorded (suc i) p' stages q
      → Recorded i p (stage ∷ stages) q
  go_on i stage p p' q stages on good e r = record {
    ran = stage ∷ r.ran;
    ended = passed on good r.ended;
    stored =
        r.stored
        ∙ ap (λ ss. ss ++ map stage_result r.ran) e
        ∙ append_assoc p.stages (stage_result stage ∷ []) (map stage_result r.ran);
  }

  run_stages-Recorded :
      (i : ℕ) (p : Loop) (stages : List Stage)
      → OrdersCover i stages
      → p.status ≡ run_completed
      → Recorded i p stages (run_stages R expand backend o i p stages)
  unfolding run_stages
  run_stages-Recorded i p [] c e = record {
    ran = [];
    ended = subst (Ran i [] []) (sym e) all_ran;
    stored = sym (append-nil p.stages);
  }
  run_stages-Recorded i p (stage ∷ stages) c e =
      let st = stage_of stage p i in
      let p' = after_stage R expand backend o stage p st in
      let kept = stage_of-results stage p i c.0 in
      let f = (run_stage_results R expand backend stage p.per_item (o.order i) c.0).1 in
      elim (Bool-cases (o.cancelled i)) [
        | inl stop ↦
            rw (stop, run_stages) (record { ran = stage ∷ []; ended = stopped stop; stored = kept })
        | inr on ↦ elim (Bool-cases (st.any_fail && aborts stage)) [
          | inl bad ↦
              rw (on, bad, run_stages)
                (record {
                  ran = stage ∷ [];
                  ended = aborted on (ground (arith, bad)) (f.0 (ground (arith, bad)));
                  stored = kept;
                })
          | inr good ↦
              rw (on, good, run_stages)
                (go_on i stage p p' (run_stages R expand backend o (suc i) p' stages) stages on
                  (λ a s. ground (arith, f.1 s, a, good)) kept
                  (run_stages-Recorded (suc i) p' stages c.1 e))
        ]
      ]

  judge-kept :
      (set_id : String) (set : Set F) (p : Loop)
      → let status = (judge R expand backend o set_id set p).status in
        (status ≡ p.status) ⊎ ((p.status ≡ run_completed) × (status ≡ run_failed))
  unfolding judge
  judge-kept set_id set p =
      kept p.status
        (all_passed R (evaluate_thresholds R set.thresholds (aggregate R p.per_item) p.per_item))
    where
      kept :
          (status : SetRunStatus) (b : Bool)
          → let judged =
              if is_run_completed R expand backend o status && not b then run_failed else status in
            (judged ≡ status) ⊎ ((status ≡ run_completed) × (judged ≡ run_failed))
      kept run_completed b = ground arith
      kept run_running b = ground arith
      kept run_failed b = ground arith
      kept run_cancelled b = ground arith

  -- A run of a set records, in their order and each with the results of all its items in their order,
  -- all its stages, or its stages up to and with the first that was cancelled, or that aborts and has an
  -- item that does not complete. Its status is completed, cancelled or failed accordingly, but that a
  -- threshold may turn completed into failed. All items of a stage finish, in any order.
  pub run_of-stages :
      (set_id : String) (set : Set F)
      → OrdersCover 0 set.stages
      → let run = run_of R expand backend o set_id set in
        (ran : List Stage) × (status : SetRunStatus) × Ran 0 set.stages ran status
        × (run.stages ≡ map stage_result ran)
        × ((run.status ≡ status) ⊎ ((status ≡ run_completed) × (run.status ≡ run_failed)))
  unfolding run_of judge
  run_of-stages set_id set c =
      let p = run_stages R expand backend o 0 (start_progress R expand backend o) set.stages in
      let r = run_stages-Recorded 0 (start_progress R expand backend o) set.stages c refl in
      (r.ran, p.status, r.ended, r.stored, judge-kept set_id set p)
