-- ===== src/Pool.antt =====
-- internal/pool/pool.go: a pool of reusable clients for each key. A client is a number that the factory
-- counts up; the state logs the clients whose `Close` was called. `sync.Map` makes each operation on
-- the map atomic, and a `select` on a channel is atomic too.
pub mod Ownership
pub mod Bounds
pub mod Key
mod Tests
use mathlib.Core.Option
use crankfire.Prelude.{
  ℕ, suc, ◌+◌, ◌*◌, String, Bool, true, false, Option, none, some, List, [], ◌∷◌, ◌++◌, map, ltb,
  if◌then◌else◌, length, nat_eq, string_eq, text_eq,
}
use crankfire.Prelude.Int.{ℤ, pos, pos_part, leb_ℤ}
use crankfire.Prelude.Maps.{lookup, insert}

-- A buffered channel of clients, the oldest first.
pub record Channel : Type 0 where
  pub items : List ℕ
  pub is_closed : Bool

pub record ConnectionPool : Type 0 where
  pub pools : List (String × Channel)
  pub size : ℕ

-- The pool with its outside: the next client that the factory makes, and the clients closed so far.
pub record PoolState : Type 0 where
  pub pool : ConnectionPool
  pub open pool use *
  pub made : ℕ
  pub closed : List ℕ

abbrev pub default_size : ℕ
default_size = 10

pub new_connection_pool : ℤ → ConnectionPool
new_connection_pool size = record {
  pools = [];
  size = if leb_ℤ size (pos 0) then default_size else pos_part size;
}

abbrev pub set_pools : PoolState → List (String × Channel) → PoolState
set_pools s pools = record s { pool = record { pools = pools; size = s.size } }

abbrev pub fresh_channel : Channel
fresh_channel = record { items = []; is_closed = false }

abbrev pub load_or_store : Option Channel → Channel
load_or_store none = fresh_channel
load_or_store (some ch) = ch

-- A receive from a closed and empty channel yields nil at once, so `Get` then reports a reused nil
-- client: `none`.
abbrev receive : PoolState → String → Channel → List ℕ → (Option ℕ × Bool) × PoolState
receive s key ch [] =
    let s' = set_pools s (insert key ch s.pools) in
    if ch.is_closed
    then ((none, true), s')
    else ((some s.made, false), record s' { made = suc s.made })
receive s key ch (c ∷ rest) =
    ((some c, true), set_pools s (insert key (record ch { items = rest }) s.pools))

-- The client, and whether it was reused.
pub get : PoolState → String → (Option ℕ × Bool) × PoolState
get s key = let ch = load_or_store (lookup key s.pools) in receive s key ch ch.items

pub data Outcome {ℓ} (E : Type ℓ) : Type ℓ where
  ok : Outcome E
  fails : E → Outcome E
  -- A send on a closed channel, or a second close.
  panics : Outcome E

module _ {E : Type 0} (close_error : ℕ → Option E) where
  abbrev result_of : Option E → Outcome E
  result_of none = ok
  result_of (some e) = fails e

  abbrev close_client : PoolState → ℕ → Outcome E × PoolState
  close_client s c = (result_of (close_error c), record s { closed = c ∷ s.closed })

  abbrev offer : PoolState → String → ℕ → Option Channel → Outcome E × PoolState
  offer s key c none = close_client s c
  offer s key c (some ch) =
      if ch.is_closed
      then (panics, s)
      else if ltb (length ch.items) s.size
      then (ok, set_pools s (insert key (record ch { items = ch.items ++ c ∷ [] }) s.pools))
      else close_client s c

  pub put : PoolState → String → ℕ → Outcome E × PoolState
  put s key c = offer s key c (lookup key s.pools)

  -- The error of closing the stale client is dropped.
  pub retry_stale_connection : (ℕ → Option E) → PoolState → ℕ → (Option ℕ × Bool) × PoolState
  retry_stale_connection connect s c =
      let s' = record s { made = suc s.made; closed = c ∷ s.closed } in
      elim (connect s.made) [ none ↦ ((some s.made, true), s') | some _ ↦ ((none, false), s') ]

  -- The errors of closing clients one after another.
  pub close_errors : List ℕ → List E
  close_errors [] = []
  close_errors (c ∷ cs) =
      let rest = close_errors cs in elim (close_error c) [ none ↦ rest | some e ↦ e ∷ rest ]

  abbrev closed_channel : Channel
  closed_channel = record { items = []; is_closed = true }

  -- `Range` over the pools; `none` is the panic of closing a closed channel.
  pub close_pools : List (String × Channel) → Option (List ℕ)
  close_pools [] = some []
  close_pools ((key, ch) ∷ rest) =
      let drained = close_pools rest in
      if ch.is_closed then none else Option.map (λ cs. ch.items ++ cs) drained

  abbrev all_closed : List (String × Channel) → List (String × Channel)
  all_closed = map (λ p. (p.0, closed_channel))

  -- The errors, and the pool afterwards; none where closing panics.
  pub close_all : PoolState → Option (List E × PoolState)
  close_all s =
      Option.map
        (λ cs.
          (close_errors cs, record (set_pools s (all_closed s.pools)) { closed = cs ++ s.closed }))
        (close_pools s.pools)
