-- ===== src/Scheduler/Flight.antt =====
-- `Manager.fire` of internal/scheduler/manager.go. A fire begins when cron calls it and ends when the
-- callback has returned or panicked; fires of all sets overlap in any order.
use crankfire.Prelude.{
  ℕ, suc, ◌+◌, ◌≤◌, ◌<◌, String, ◌≡◌, refl, Bool, true, false, Option, none, some, List, [], ◌∷◌,
  ◌⊎◌, arith, ltb, if◌then◌else◌, ◌==◌, nat_eq, string_eq, text_eq,
}
use crankfire.Prelude.Maps.{lookup, insert, delete, lookup-insert, lookup-delete}
use text.Mathlib.TextEquality.{eq_iff}

-- The context that a callback gets: one that never ends, or that of `Run` with whether it is cancelled.
pub data FireContext : Type 0 where
  background : FireContext
  run_context : Bool → FireContext

pub record Flight : Type 0 where
  -- The manager's `inFlight` map and `runCtx`, and the callbacks that are running.
  pub in_flight : List (String × Unit {0})
  pub run_ctx : FireContext
  pub running : List String
  -- The calls of `onFire` so far, the last one first.
  pub fired : List (String × FireContext)

-- `Run` stores its context, which may be cancelled later.
pub data FireEvent : Type 0 where
  begins : String → FireEvent
  ends : String → FireEvent
  runs : FireEvent
  cancels : FireEvent

abbrev pub count : String → List String → ℕ
count a [] = 0
count a (x ∷ xs) = let rest = count a xs in if x == a then suc rest else rest

pub drop_one : String → List String → List String
drop_one a [] = []
drop_one a (x ∷ xs) = let rest = drop_one a xs in if x == a then xs else x ∷ rest

abbrev is_busy : Option (Unit {0}) → Bool
is_busy none = false
is_busy (some _) = true

abbrev cancel_context : FireContext → FireContext
cancel_context background = background
cancel_context (run_context done) = run_context true

-- `LoadOrStore`; a busy set is skipped, and the context is handed on as it is. A nil `runCtx` is read as
-- the background. An end without a running callback does not happen.
pub fire_step : Flight → FireEvent → Flight
fire_step f (begins id) = if is_busy (lookup id f.in_flight) then f else record f {
  in_flight = insert id tt f.in_flight;
  running = id ∷ f.running;
  fired = (id, f.run_ctx) ∷ f.fired;
}
fire_step f (ends id) =
    if ltb 0 (count id f.running)
    then record f { in_flight = delete id f.in_flight; running = drop_one id f.running }
    else f
fire_step f runs = record f { run_ctx = run_context false }
fire_step f cancels = record f { run_ctx = cancel_context f.run_ctx }

pub fire_steps : Flight → List FireEvent → Flight
fire_steps f [] = f
fire_steps f (e ∷ es) = fire_steps (fire_step f e) es

count-drop_one :
    (a b : String) (xs : List String)
    → 0 < count b xs
    → count a (drop_one b xs) + (if b == a then 1 else 0) ≡ count a xs
unfolding drop_one
count-drop_one a b [] h = elim h [ ]
count-drop_one a b (x ∷ xs) h =
    ground (arith, eq_iff x a, eq_iff x b, eq_iff b a, count-drop_one a b xs)

-- The map says which sets run, and none runs twice.
abbrev Flies : Flight → String → Type 0
Flies f id = count id f.running ≡ (if is_busy (lookup id f.in_flight) then 1 else 0)

fire_step-Flies :
    (f : Flight) (e : FireEvent) (id : String)
    → ((j : String) → Flies f j)
    → Flies (fire_step f e) id
unfolding fire_step
fire_step-Flies f (begins j) id v =
    ground (arith, eq_iff j id, v id, v j, lookup-insert j id tt f.in_flight)
fire_step-Flies f (ends j) id v =
    ground
      (arith, eq_iff j id, v id, v j, lookup-delete j id f.in_flight, count-drop_one id j f.running)
fire_step-Flies f runs id v = v id
fire_step-Flies f cancels id v = v id

fire_steps-Flies :
    (f : Flight) (es : List FireEvent)
    → ((j : String) → Flies f j)
    → (id : String) → Flies (fire_steps f es) id
unfolding fire_steps
fire_steps-Flies f [] v = v
fire_steps-Flies f (e ∷ es) v = fire_steps-Flies (fire_step f e) es (λ id. fire_step-Flies f e id v)

pub no_flights : Flight
no_flights = record { in_flight = []; run_ctx = background; running = []; fired = [] }

-- In every interleaving of fires, of `Run` and of its cancellation no set has two callbacks running. The
-- next fire of a set calls `onFire` exactly when none of its callbacks is running, and hands it the context
-- that `Run` has stored, be it cancelled or not; a fire that is skipped changes nothing.
pub fire_single :
    (es : List FireEvent) (id : String)
    → let f = fire_steps no_flights es in
      (count id f.running ≤ 1)
      × (count id (fire_step f (begins id)).running ≡ 1)
      × (((count id f.running ≡ 1) × (fire_step f (begins id) ≡ f))
          ⊎ ((count id f.running ≡ 0)
              × ((fire_step f (begins id)).fired ≡ (id, f.run_ctx) ∷ f.fired)))
unfolding fire_step no_flights lookup
fire_single es id =
    let f = fire_steps no_flights es in
    let v = fire_steps-Flies no_flights es (λ j. refl) id in
    (ground (arith, v), ground (arith, v, eq_iff id id), ground (arith, v))
