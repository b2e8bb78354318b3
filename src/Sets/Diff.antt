-- ===== src/Sets/Diff.antt =====
-- internal/setrunner/diff.go: two runs of sets side by side.
use crankfire.Prelude.{
  ◌+◌, String, Bool, true, false, ◌||◌, Option, none, some, List, [], ◌∷◌, ◌++◌, map, if◌then◌else◌,
  ◌==◌, nat_eq, string_eq, Float64, zero_f,
}
use crankfire.Prelude.Int.{pos}
use crankfire.Prelude.Maps.{lookup, insert}
pub mod Latest
pub mod Verdict
use crankfire.Sets.{RunSummary, ItemResult, StageResult, SetRun}
use crankfire.Sets.Compare.{error_rate_of, rps_of}

pub record ItemRef (F : Type 0) : Type 0 where
  pub it : ItemResult F
  pub stage : String

pub record DiffRow (F : Type 0) : Type 0 where
  pub item_name : String
  pub stage : String
  pub p50_delta_ms : F
  pub p95_delta_ms : F
  pub p99_delta_ms : F
  pub err_rate_delta : F
  pub rps_delta : F
  pub a_present : Bool
  pub b_present : Bool

pub record DiffResult (F : Type 0) : Type 0 where
  pub a : SetRun F
  pub b : SetRun F
  pub rows : List (DiffRow F)
  pub overall_verdict : String

module _ (R : Float64) where
  open R use {F, of_int, sub, div, lt, eq}

  abbrev pub Refs : Type 0
  Refs = List (String × ItemRef F)

  pub flatten_stage : String → Refs → List (ItemResult F) → Refs
  flatten_stage stage m [] = m
  flatten_stage stage m (it ∷ items) =
      flatten_stage stage (insert it.name (record { it = it; stage = stage }) m) items

  pub flatten_stages : Refs → List (StageResult F) → Refs
  flatten_stages m [] = m
  flatten_stages m (st ∷ stages) = flatten_stages (flatten_stage st.name m st.items) stages

  pub flatten_items : SetRun F → Refs
  flatten_items r = flatten_stages [] r.stages

  -- `seen` holds the names in `order`.
  unfoldable pub is_seen : List String → String → Bool
  is_seen [] name = false
  is_seen (x ∷ order) name = let rest = is_seen order name in if x == name then true else rest

  abbrev pub add_name : List String → String → List String
  add_name order name = if is_seen order name then order else order ++ name ∷ []

  pub add_items : List String → List (ItemResult F) → List String
  add_items order [] = order
  add_items order (it ∷ items) = add_items (add_name order it.name) items

  pub add_stages : List String → List (StageResult F) → List String
  add_stages order [] = order
  add_stages order (st ∷ stages) = add_stages (add_items order st.items) stages

  -- 5/100 and 5/1000 round to the constants of the source.
  abbrev p95_frac_delta : F
  p95_frac_delta = div (of_int (pos 5)) (of_int (pos 100))

  abbrev err_rate_delta_limit : F
  err_rate_delta_limit = div (of_int (pos 5)) (of_int (pos 1000))

  abbrev negated : F → F
  negated x = sub (zero_f R) x

  pub p95_frac : RunSummary F → RunSummary F → F
  p95_frac sa sb =
      if eq sa.p95_ms (zero_f R) then zero_f R else div (sub sb.p95_ms sa.p95_ms) sa.p95_ms

  pub regresses : ItemRef F → ItemRef F → Bool
  regresses ia ib =
      let sa = ia.it.summary in
      let sb = ib.it.summary in
      lt p95_frac_delta (p95_frac sa sb)
      || lt err_rate_delta_limit (sub (error_rate_of R sb) (error_rate_of R sa))

  pub improves : ItemRef F → ItemRef F → Bool
  improves ia ib =
      let sa = ia.it.summary in
      let sb = ib.it.summary in
      lt (p95_frac sa sb) (negated p95_frac_delta)
      || lt (sub (error_rate_of R sb) (error_rate_of R sa)) (negated err_rate_delta_limit)

  abbrev bare_row : String → String → Bool → Bool → DiffRow F
  bare_row name stage a b = record {
    item_name = name;
    stage = stage;
    p50_delta_ms = zero_f R;
    p95_delta_ms = zero_f R;
    p99_delta_ms = zero_f R;
    err_rate_delta = zero_f R;
    rps_delta = zero_f R;
    a_present = a;
    b_present = b;
  }

  -- A name of `order` stands in one of the runs at least, so the first case does not arise.
  pub row_of : String → Option (ItemRef F) → Option (ItemRef F) → DiffRow F
  row_of name none none = bare_row name "" false false
  row_of name (some ia) none = bare_row name ia.stage true false
  row_of name none (some ib) = bare_row name ib.stage false true
  row_of name (some ia) (some ib) =
      let sa = ia.it.summary in
      let sb = ib.it.summary in
      record {
        item_name = name;
        stage = ia.stage;
        p50_delta_ms = sub sb.p50_ms sa.p50_ms;
        p95_delta_ms = sub sb.p95_ms sa.p95_ms;
        p99_delta_ms = sub sb.p99_ms sa.p99_ms;
        err_rate_delta = sub (error_rate_of R sb) (error_rate_of R sa);
        rps_delta = sub (rps_of R sb) (rps_of R sa);
        a_present = true;
        b_present = true;
      }

  abbrev pub both : (ItemRef F → ItemRef F → Bool) → Option (ItemRef F) → Option (ItemRef F) → Bool
  both p (some ia) (some ib) = p ia ib
  both p (some ia) none = false
  both p none o = false

  -- Whether a flag is set by one of the names: both runs have it, and the items compare as asked.
  pub any_item : (ItemRef F → ItemRef F → Bool) → Refs → Refs → List String → Bool
  any_item p items_a items_b [] = false
  any_item p items_a items_b (name ∷ order) =
      let rest = any_item p items_a items_b order in
      if both p (lookup name items_a) (lookup name items_b) then true else rest

  pub verdict_of : Bool → Bool → String
  verdict_of true true = "mixed"
  verdict_of true false = "regressed"
  verdict_of false true = "improved"
  verdict_of false false = "unchanged"

  pub diff : SetRun F → SetRun F → DiffResult F
  diff a b =
      let items_a = flatten_items a in
      let items_b = flatten_items b in
      let order = add_stages (add_stages [] a.stages) b.stages in
      record {
        a = a;
        b = b;
        rows = map (λ name. row_of name (lookup name items_a) (lookup name items_b)) order;
        overall_verdict =
            verdict_of (any_item regresses items_a items_b order)
              (any_item improves items_a items_b order);
      }
