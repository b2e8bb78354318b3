-- ===== src/Feeder/Csv.antt =====
-- internal/feeder/csv.go: rows of a file in turns. The file is what the library's reader makes of it: its
-- header and its rows, where `none` is a row that the reader refuses. Seeking does not fail.
use crankfire.Prelude.{
  ℕ, suc, String, Bool, Option, none, some, List, [], ◌∷◌, nat_beq, if◌then◌else◌, length, nat_eq,
  string_eq,
}
use crankfire.Prelude.Maps.{insert}
pub mod Turns
use crankfire.Feeder.{Record}

pub data CsvError : Type 0 where
  bad_header bad_scan no_rows row_refused at_end wrong_length call_done : CsvError

pub data Row (A : Type 0) : Type 0 where
  row : A → Row A
  no_row : CsvError → Row A

-- `rest` is what the reader has not read yet of the rows.
pub record CsvFeeder : Type 0 where
  pub header : List String
  pub rows : List (Option (List String))
  pub rest : List (Option (List String))
  pub record_count : ℕ

abbrev one_more : Row ℕ → Row ℕ
one_more (row n) = row (suc n)
one_more (no_row e) = no_row e

-- The scan that counts the rows.
unfoldable pub count_rows : List (Option (List String)) → Row ℕ
count_rows [] = row 0
count_rows (none ∷ rs) = no_row bad_scan
count_rows (some r ∷ rs) = one_more (count_rows rs)

abbrev with_count : List String → List (Option (List String)) → Row ℕ → Row CsvFeeder
with_count header rows (no_row e) = no_row e
with_count header rows (row n) =
    if nat_beq n 0
    then no_row no_rows
    else row (record { header = header; rows = rows; rest = rows; record_count = n })

unfoldable pub new_csv_feeder : Option (List String) → List (Option (List String)) → Row CsvFeeder
new_csv_feeder none rows = no_row bad_header
new_csv_feeder (some header) rows = with_count header rows (count_rows rows)

-- `record[field] = row[j]`, over the fields of the header.
pub fields_of : Record → List String → List String → Record
fields_of r [] vs = r
fields_of r (h ∷ hs) [] = r
fields_of r (h ∷ hs) (v ∷ vs) = fields_of (insert h v r) hs vs

abbrev pub record_of : List String → Option (List String) → Row Record
record_of header none = no_row row_refused
record_of header (some vs) =
    if nat_beq (length vs) (length header)
    then row (fields_of [] header vs)
    else no_row wrong_length

-- One read of the reader.
abbrev read_row : CsvFeeder → List (Option (List String)) → Row Record × CsvFeeder
read_row f [] = (no_row at_end, f)
read_row f (r ∷ rs) = (record_of f.header r, record f { rest = rs })

-- At the end of the rows the reader starts again.
abbrev rewound :
    List (Option (List String)) → List (Option (List String)) → List (Option (List String))
rewound rows [] = rows
rewound rows (r ∷ rs) = r ∷ rs

pub next_csv : Bool → CsvFeeder → Row Record × CsvFeeder
next_csv is_done f = if is_done then (no_row call_done, f) else read_row f (rewound f.rows f.rest)

pub len_csv : CsvFeeder → ℕ
len_csv f = f.record_count
