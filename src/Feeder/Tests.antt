-- ===== src/Feeder/Tests.antt =====
-- A feeder of two records.
use crankfire.Prelude.{
  ◌%◌, String, ◌≡◌, refl, Bool, true, false, Option, some, List, [], ◌∷◌, length, get_elem?, nat_eq,
  string_eq,
}
use crankfire.Feeder.Csv.{CsvFeeder, row, new_csv_feeder, count_rows}
use crankfire.Feeder.{Record, JsonFeeder, fed, new_json_feeder, next, first_empty}
use crankfire.Feeder.Rounds.{nexts, served, next_round}

abbrev two_records : List Record
two_records = (("id", "1") ∷ []) ∷ (("id", "2") ∷ []) ∷ []

abbrev two_fed : JsonFeeder
two_fed = record { records = two_records; index = 0 }

two_fed_made : new_json_feeder two_records ≡ fed two_fed
unfolding new_json_feeder first_empty
two_fed_made = refl

abbrev some_calls : List Bool
some_calls = false ∷ true ∷ false ∷ false ∷ []

next_round_example :
    (r : Record) × (get_elem? two_records (served some_calls % length two_records) ≡ some r)
    × ((next false (nexts two_fed some_calls)).0 ≡ fed r)
next_round_example = next_round two_records two_fed some_calls two_fed_made

abbrev two_rows : List (Option (List String))
two_rows = some ("1" ∷ []) ∷ some ("2" ∷ []) ∷ []

abbrev two_csv : CsvFeeder
two_csv = record { header = "id" ∷ []; rows = two_rows; rest = two_rows; record_count = 2 }

two_csv_made : new_csv_feeder (some ("id" ∷ [])) two_rows ≡ row two_csv
unfolding new_csv_feeder count_rows
two_csv_made = refl
