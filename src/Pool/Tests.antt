-- ===== src/Pool/Tests.antt =====
-- The pool on concrete inputs.
use crankfire.Prelude.{
  text_beq, text_eq, ℕ, ◌≡◌, refl, true, Option, none, List, [], ◌∷◌, nat_eq, string_eq, text_eq,
}
use crankfire.Prelude.Int.{pos, negsuc}
use crankfire.Prelude.Maps.{lookup, insert}
use crankfire.Pool.{get, put, new_connection_pool}
use crankfire.Prelude.Order.{sort, insert_sorted, text_less}
use crankfire.Pool.Key.{Headers, keys_of, join_values, write_headers, make_pool_key}
use crankfire.Pool.Ownership.{Call, gets, puts, call, calls, count, opened, calls-get_exclusive}
use crankfire.Pool.Bounds.{IsBounded, calls-opened-IsBounded}

abbrev no_error : ℕ → Option ℕ
no_error c = none

-- A client is made, given back, and taken again.
abbrev some_calls : List Call
some_calls = gets "a" ∷ puts "a" 0 ∷ []

calls-get_exclusive_example :
    let u = calls no_error no_error (opened no_error no_error (pos 1)) some_calls in
    (count 0 u.held ≡ 0) × (count 0 u.closed ≡ 0)
unfolding calls call get put opened new_connection_pool lookup insert
calls-get_exclusive_example =
    calls-get_exclusive no_error no_error (pos 1) some_calls "a" 0 true refl

calls-opened-IsBounded_example :
    IsBounded (calls no_error no_error (opened no_error no_error (negsuc 0)) some_calls).state
calls-opened-IsBounded_example = calls-opened-IsBounded no_error no_error (negsuc 0) some_calls

-- A: 1, B: 2 and a header without values, with the bytes of the names and values.
abbrev some_headers : Headers
some_headers = (65 ∷ [], (49 ∷ []) ∷ []) ∷ (66 ∷ [], (50 ∷ []) ∷ []) ∷ []

-- One header `A: 1;B=2`.
abbrev one_header : Headers
one_header = (65 ∷ [], (49 ∷ 59 ∷ 66 ∷ 61 ∷ 50 ∷ []) ∷ []) ∷ []

-- Nothing is escaped: headers that differ can have one key.
make_pool_key-collision : make_pool_key (47 ∷ []) some_headers ≡ make_pool_key (47 ∷ []) one_header
unfolding make_pool_key keys_of join_values write_headers lookup text_beq sort insert_sorted
    text_less
make_pool_key-collision = refl
