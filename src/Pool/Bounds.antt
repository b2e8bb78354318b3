-- ===== src/Pool/Bounds.antt =====
-- How many clients a channel holds, and what `Put` and `Get` of one key do.
use crankfire.Prelude.{
  ℕ, ◌≤◌, ◌<◌, String, ◌≡◌, refl, inl, inr, Bool, true, false, Option, none, some, List, [], ◌∷◌,
  ◌++◌, arith, ltb, lt→ltb, if◌then◌else◌, Bool-cases, Option-cases, length, length-append, All,
  ◌==◌, nat_eq, string_eq, text_eq,
}
use crankfire.Prelude.Int.{ℤ}
use crankfire.Prelude.Maps.{lookup, insert, lookup-insert_self}
use crankfire.Pool.{
  Channel, PoolState, new_connection_pool, set_pools, load_or_store, receive, get, Outcome, ok,
  fails, panics, offer, put, retry_stale_connection, close_pools, close_all, all_closed,
}
use crankfire.Pool.Ownership.{
  Use, Call, gets, puts, retries, closes, call, calls, opened, after_put, count,
}

abbrev Within : ℕ → List (String × Channel) → Type 0
Within n = All (λ p. length p.1.items ≤ n)

insert-Within :
    (n : ℕ) (k : String) (ch : Channel) (m : List (String × Channel))
    → length ch.items ≤ n
    → Within n m
    → Within n (insert k ch m)
unfolding insert
insert-Within n k ch [] h w = (h, tt)
insert-Within n k ch ((j, old) ∷ m) h w = elim (Bool-cases (j == k)) [
  | inl e ↦ rw (e, insert) (h, w.1)
  | inr e ↦ rw (e, insert) (w.0, insert-Within n k ch m h w.1)
]

abbrev Room : ℕ → Option Channel → Type 0
Room n none = Unit {0}
Room n (some ch) = length ch.items ≤ n

lookup-Within :
    (n : ℕ) (k : String) (m : List (String × Channel)) → Within n m → Room n (lookup k m)
unfolding lookup
lookup-Within n k [] w = tt
lookup-Within n k ((j, ch) ∷ m) w = elim (Bool-cases (j == k)) [
  | inl e ↦ rw (e, lookup) w.0
  | inr e ↦ rw (e, lookup) (lookup-Within n k m w.1)
]

-- No channel holds more than the pool's size, which is positive.
pub record IsBounded (s : PoolState) : Type 0 where
  pub some_size : 0 < s.size
  pub within : Within s.size s.pools

choose-IsBounded {ℓ} :
    {A : Type ℓ} (b : Bool) (p q : A × PoolState)
    → IsBounded p.1
    → IsBounded q.1
    → IsBounded (if b then p else q).1
choose-IsBounded true p q h k = h
choose-IsBounded false p q h k = k

receive-IsBounded :
    (s : PoolState) (key : String) (ch : Channel) (items : List ℕ)
    → ch.items ≡ items
    → length items ≤ s.size
    → IsBounded s
    → IsBounded (receive s key ch items).1
receive-IsBounded s key ch [] e h v =
    let w = insert-Within s.size key ch s.pools (rw e h) v.within in
    let stored : IsBounded (set_pools s (insert key ch s.pools)) = record {
      some_size = v.some_size;
      within = w;
    } in
    choose-IsBounded ch.is_closed _ _ stored (record { some_size = v.some_size; within = w })
receive-IsBounded s key ch (x ∷ rest) e h v = record {
  some_size = v.some_size;
  within = insert-Within s.size key (record ch { items = rest }) s.pools (omega arith) v.within;
}

get-IsBounded : (s : PoolState) (key : String) → IsBounded s → IsBounded (get s key).1
unfolding get
get-IsBounded s key v =
    let ch = load_or_store (lookup key s.pools) in
    receive-IsBounded s key ch ch.items refl
      (stored (lookup key s.pools) (lookup-Within s.size key s.pools v.within)) v
  where
    stored : (o : Option Channel) → Room s.size o → length (load_or_store o).items ≤ s.size
    stored none r = omega arith
    stored (some ch) r = r

module _ {E : Type 0} (close_error connect : ℕ → Option E) where
  offer-IsBounded :
      (s : PoolState) (key : String) (c : ℕ) (o : Option Channel)
      → IsBounded s
      → IsBounded (offer close_error s key c o).1
  offer-IsBounded s key c none v = record { some_size = v.some_size; within = v.within }
  offer-IsBounded s key c (some ch) v =
      choose-IsBounded ch.is_closed _ _ v (elim (Bool-cases (ltb (length ch.items) s.size)) [
        | inr full ↦ rw full (record { some_size = v.some_size; within = v.within })
        | inl free ↦ rw free (record {
          some_size = v.some_size;
          within =
              insert-Within s.size key (record ch { items = ch.items ++ c ∷ [] }) s.pools
                (ground (arith, length-append ch.items (c ∷ []))) v.within;
        })
      ])

  all_closed-Within : (n : ℕ) (m : List (String × Channel)) → Within n (all_closed close_error m)
  all_closed-Within n [] = tt
  all_closed-Within n (p ∷ m) = (omega arith, all_closed-Within n m)

  after_put-IsBounded :
      (u : Use) (c : ℕ) (r : Outcome E × PoolState)
      → IsBounded u.state
      → IsBounded r.1
      → IsBounded (after_put close_error connect u c r).state
  after_put-IsBounded u c (ok, s) h k = k
  after_put-IsBounded u c (fails e, s) h k = k
  after_put-IsBounded u c (panics, s) h k = h

  call-IsBounded :
      (u : Use) (k : Call) → IsBounded u.state → IsBounded (call close_error connect u k).state
  unfolding call put retry_stale_connection close_all
  call-IsBounded u (gets key) v = get-IsBounded u.state key v
  call-IsBounded u (puts key c) v = elim (Bool-cases (ltb 0 (count c u.held))) [
    | inr missing ↦ rw (missing, call) v
    | inl holds ↦
        rw (holds, call)
          (after_put-IsBounded u c _ v (offer-IsBounded u.state key c (lookup key u.pools) v))
  ]
  call-IsBounded u (retries c) v = ground (arith, v)
  call-IsBounded u closes v = elim (Option-cases (close_pools close_error u.pools)) [
    | inl panic ↦ rw (panic, call) v
    | inr (cs, e) ↦
        rw (e, call) (record { some_size = v.some_size; within = all_closed-Within u.size u.pools })
  ]

  calls-IsBounded :
      (u : Use) (ks : List Call)
      → IsBounded u.state
      → IsBounded (calls close_error connect u ks).state
  unfolding calls
  calls-IsBounded u [] v = v
  calls-IsBounded u (k ∷ ks) v =
      calls-IsBounded (call close_error connect u k) ks (call-IsBounded u k v)

  -- The pool's size is positive whatever was asked for, and after any history of calls no key has more
  -- idle clients than that.
  pub calls-opened-IsBounded :
      (size : ℤ) (ks : List Call)
      → IsBounded (calls close_error connect (opened close_error connect size) ks).state
  unfolding opened new_connection_pool
  calls-opened-IsBounded size ks =
      calls-IsBounded (opened close_error connect size) ks
        (record { some_size = ground arith; within = tt })

module _ {E : Type 0} (close_error : ℕ → Option E) where
  -- A client that is put back where its key has an open channel with room is handed out after exactly
  -- the clients that waited before it; where the channel is full, or the key unknown, it is closed
  -- and the channels stay as they were.
  pub put_lem :
      (s : PoolState) (key : String) (c : ℕ) (ch : Channel)
      → (lookup key s.pools ≡ none
          → ((put close_error s key c).1.closed ≡ c ∷ s.closed)
            × ((put close_error s key c).1.pools ≡ s.pools))
        × (lookup key s.pools ≡ some ch
            → ch.is_closed ≡ false
            → (length ch.items < s.size
                → (lookup key (put close_error s key c).1.pools
                    ≡ some (record { items = ch.items ++ c ∷ []; is_closed = false }))
                  × ((put close_error s key c).1.closed ≡ s.closed))
              × (s.size ≤ length ch.items
                  → ((put close_error s key c).1.closed ≡ c ∷ s.closed)
                    × ((put close_error s key c).1.pools ≡ s.pools)))
  unfolding put
  put_lem s key c ch = (
    λ e. rw (e, put) (refl, refl),
    λ e o. (
      λ free.
          let free_slot : ltb (length ch.items) s.size ≡ true = lt→ltb _ _ free in
          rw (e, put) (rw (o, free_slot) (lookup-insert_self key _ s.pools, refl)),
      λ full.
          let no_room : ltb (length ch.items) s.size ≡ false = ground arith in
          rw (e, put) (rw (o, no_room) (refl, refl)),
    ),
  )
