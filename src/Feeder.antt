-- ===== src/Feeder.antt =====
-- internal/feeder/json.go: the records of a feeder, in turns. The decoded file is the list of its
-- records; `is_done` says whether the context of the call has ended.
use crankfire.Prelude.{
  ℕ, suc, String, Bool, Option, none, some, List, [], ◌∷◌, leb, if◌then◌else◌, length, get_elem?,
}
pub mod Csv
pub mod Rounds
mod Tests

abbrev pub Record : Type 0
Record = List (String × String)

pub record JsonFeeder : Type 0 where
  pub records : List Record
  pub index : ℕ

pub data FeederError : Type 0 where
  empty_array : FeederError
  empty_record : ℕ → FeederError
  context_done : FeederError
  out_of_range : FeederError

pub data Fed (A : Type 0) : Type 0 where
  fed : A → Fed A
  unfed : FeederError → Fed A

-- The first record that is empty, from index `i` on.
pub first_empty : ℕ → List Record → Option ℕ
first_empty i [] = none
first_empty i ([] ∷ rs) = some i
first_empty i ((field ∷ r) ∷ rs) = first_empty (suc i) rs

abbrev unless_empty : List Record → Option ℕ → Fed JsonFeeder
unless_empty records (some i) = unfed (empty_record i)
unless_empty records none = fed (record { records = records; index = 0 })

pub new_json_feeder : List Record → Fed JsonFeeder
new_json_feeder [] = unfed empty_array
new_json_feeder (r ∷ rs) = unless_empty (r ∷ rs) (first_empty 0 (r ∷ rs))

abbrev handed : Option Record → Fed Record
handed none = unfed out_of_range
handed (some r) = fed r

-- Reading past the end of the records would panic: `out_of_range`.
pub next : Bool → JsonFeeder → Fed Record × JsonFeeder
next is_done f =
    let i = if leb (length f.records) f.index then 0 else f.index in
    if is_done
    then (unfed context_done, f)
    else (handed (get_elem? f.records i), record f { index = suc i })

pub len : JsonFeeder → ℕ
len f = length f.records
