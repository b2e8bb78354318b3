-- ===== src/Sets/Items/Effects.antt =====
-- What running an item does.
use crankfire.Prelude.{
  String, ◌≡◌, refl, sym, ◌∙◌, ◌↔◌, ◌⊎◌, inl, inr, true, Option, none, some, [], ◌∷◌, arith,
  Bool-cases, nat_eq, string_eq, text_eq, Float64,
}
use crankfire.Sets.{SetItem, completed, failed, cancelled}
use crankfire.Sets.Overrides.{Config, apply_overrides}
use crankfire.Sets.Items.{
  Backend, Answer, answer, error, RunError, started, ran, ended, cleaned_up, run_item, status_of,
}

same_answer {ℓ} : {A : Type ℓ} {a b : A} → Path (Answer A) (answer a) (answer b) → a ≡ b
same_answer h = ground (arith, h)

Answer-cases {ℓ} :
    {A : Type ℓ} (a : Answer A) → ((e : String) × (a ≡ error e)) ⊎ ((x : A) × (a ≡ answer x))
Answer-cases (error e) = inl (e, refl)
Answer-cases (answer x) = inr (x, refl)

module _ {C : Type 0} (R : Float64) (expand : String → String) (backend : Backend (R.F) C) where
  open R use {F}

  -- Neither a session nor a runner was to be had: nothing runs and nothing is cleaned up.
  pub record Stopped (item : SetItem) : Type 0 where
    pub unbuilt :
        (base : Config C)
        → backend.get_session item.session_id ≡ answer base
        → (e : String) × (backend.build (apply_overrides expand base item.overrides) item.name
            ≡ error e)
    pub status : (run_item R expand backend item).0.status ≡ failed
    pub effects :
        (run_item R expand backend item).1
        ≡ started item.name ∷ ended (run_item R expand backend item).0 ∷ []

  -- The item ran with its overrides applied, and its runner is cleaned up last, whatever the run
  -- returned; the error of the run decides the status.
  pub record Ran (item : SetItem) : Type 0 where
    pub base : Config C
    pub runner : backend.ItemRun
    pub session : backend.get_session item.session_id ≡ answer base
    pub built : backend.build (apply_overrides expand base item.overrides) item.name ≡ answer runner
    pub summary : (run_item R expand backend item).0.summary ≡ (backend.run runner).0
    pub success :
        ((run_item R expand backend item).0.status ≡ completed) ↔ ((backend.run runner).1 ≡ none)
    pub cancel :
        ((run_item R expand backend item).0.status ≡ cancelled)
        ↔ ((e : RunError) × ((backend.run runner).1 ≡ some e) × (e.is_canceled ≡ true))
    pub effects :
        (run_item R expand backend item).1
        ≡ started item.name
          ∷ ran item.name
          ∷ ended (run_item R expand backend item).0
          ∷ cleaned_up item.name
          ∷ []

  status_completed : (e : Option RunError) → (status_of R expand backend e ≡ completed) ↔ (e ≡ none)
  status_completed none = (λ h. refl, λ h. refl)
  status_completed (some e) = ground arith

  status_cancelled :
      (o : Option RunError)
      → (status_of R expand backend o ≡ cancelled)
        ↔ ((e : RunError) × (o ≡ some e) × (e.is_canceled ≡ true))
  status_cancelled none = (λ h. ground arith, λ h. ground (arith, h.1))
  status_cancelled (some e) = elim (Bool-cases e.is_canceled) [
    | inl c ↦ (λ h. (e, refl, c), λ h. rw c refl)
    | inr n ↦ (λ h. ground (arith, h, n), λ h. ground (arith, h.1, h.2, n))
  ]

  -- Running an item ends in one of two ways, as `Stopped` and `Ran` say.
  pub run_item_lem : (item : SetItem) → Stopped item ⊎ Ran item
  unfolding run_item
  run_item_lem item = elim (Answer-cases (backend.get_session item.session_id)) [
    | inl (e, s) ↦ inl (record {
      unbuilt = λ base h. ground (arith, s, h);
      status = rw s refl;
      effects = rw s refl;
    })
    | inr (base, s) ↦
        elim (Answer-cases (backend.build (apply_overrides expand base item.overrides) item.name)) [
          | inl (e, b) ↦ inl (record {
            unbuilt = λ base' h. (e, rw (same_answer (sym h ∙ s)) b);
            status = rw (s, b) refl;
            effects = rw (s, b) refl;
          })
          | inr (ir, b) ↦ inr (record {
            base = base;
            runner = ir;
            session = s;
            built = b;
            summary = rw (s, b) refl;
            success = rw (s, b) (status_completed (backend.run ir).1);
            cancel = rw (s, b) (status_cancelled (backend.run ir).1);
            effects = rw (s, b) refl;
          })
        ]
  ]
