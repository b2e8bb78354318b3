-- ===== src/Pool/Ownership.antt =====
-- Who owns a client: a caller that holds it, a channel, or nobody once it is closed.
use crankfire.Prelude.{
  ℕ, suc, ◌+◌, ◌≤◌, ◌<◌, String, ◌≡◌, refl, inl, inr, Bool, Option, none, some, List, [], ◌∷◌, ◌++◌,
  arith, ltb, ltb→lt, nat_beq, if◌then◌else◌, Bool-cases, Option-cases, nat_eq, string_eq, text_eq,
}
use crankfire.Prelude.Int.{ℤ}
use crankfire.Prelude.Maps.{lookup, insert}
use crankfire.Pool.{
  Channel, PoolState, new_connection_pool, load_or_store, receive, get, Outcome, ok, fails, panics,
  offer, put, retry_stale_connection, close_pools, close_all, all_closed,
}

abbrev pub count : ℕ → List ℕ → ℕ
count a [] = 0
count a (x ∷ xs) = let rest = count a xs in if nat_beq a x then suc rest else rest

count-append : (a : ℕ) (xs ys : List ℕ) → count a (xs ++ ys) ≡ count a xs + count a ys
count-append c [] ys = omega arith
count-append a (x ∷ xs) ys = ground (arith, count-append a xs ys)

pub erase : ℕ → List ℕ → List ℕ
erase a [] = []
erase a (x ∷ xs) = let rest = erase a xs in if nat_beq a x then xs else x ∷ rest

count-erase :
    (a c : ℕ) (xs : List ℕ)
    → 0 < count c xs
    → count a (erase c xs) + (if nat_beq a c then 1 else 0) ≡ count a xs
unfolding erase
count-erase a c [] h = elim h [ ]
count-erase a c (x ∷ xs) h = ground (arith, count-erase a c xs)

-- How often a client lies in the channels.
abbrev pub pooled : ℕ → List (String × Channel) → ℕ
pooled c [] = 0
pooled c ((k, ch) ∷ m) = count c ch.items + pooled c m

abbrev held_in : ℕ → Option Channel → ℕ
held_in c none = 0
held_in c (some ch) = count c ch.items

pooled-insert :
    (c : ℕ) (k : String) (ch : Channel) (m : List (String × Channel))
    → pooled c (insert k ch m) + held_in c (lookup k m) ≡ pooled c m + count c ch.items
unfolding lookup insert
pooled-insert c k ch [] = ground arith
pooled-insert c k ch ((j, old) ∷ m) = ground (arith, pooled-insert c k ch m)

-- The pool, and the clients that its callers hold.
pub record Use : Type 0 where
  pub state : PoolState
  pub open state use *
  pub held : List ℕ

pub data Call : Type 0 where
  gets : String → Call
  puts : String → ℕ → Call
  retries : ℕ → Call
  closes : Call

abbrev add_held : Option ℕ → List ℕ → List ℕ
add_held none held = held
add_held (some c) held = c ∷ held

-- Everything that the pool knows of a client: at most 1, and 0 of one not made yet.
abbrev owners : ℕ → Use → ℕ
owners c u = count c u.held + pooled c u.pools + count c u.closed

pub record IsExclusive (u : Use) (c : ℕ) : Type 0 where
  pub single : owners c u ≤ 1
  pub unmade : u.made ≤ c → owners c u ≡ 0

module _ {E : Type 0} (close_error connect : ℕ → Option E) where
  abbrev pub after_get : Use → (Option ℕ × Bool) × PoolState → Use
  after_get u ((c, reused), s) = record { state = s; held = add_held c u.held }

  abbrev pub after_put : Use → ℕ → Outcome E × PoolState → Use
  after_put u c (panics, s) = u
  after_put u c (ok, s) = record { state = s; held = erase c u.held }
  after_put u c (fails e, s) = record { state = s; held = erase c u.held }

  abbrev pub after_retry : Use → ℕ → (Option ℕ × Bool) × PoolState → Use
  after_retry u c ((c', connected), s) = record { state = s; held = add_held c' (erase c u.held) }

  abbrev pub after_close : Use → Option (List E × PoolState) → Use
  after_close u none = u
  after_close u (some (errs, s)) = record u { state = s }

  -- A caller gives back only what it holds; other calls are not made.
  unfoldable pub call : Use → Call → Use
  call u (gets key) = after_get u (get u.state key)
  call u (puts key c) =
      if ltb 0 (count c u.held) then after_put u c (put close_error u.state key c) else u
  call u (retries c) =
      if ltb 0 (count c u.held)
      then after_retry u c (retry_stale_connection close_error connect u.state c)
      else u
  call u closes = after_close u (close_all close_error u.state)

  unfoldable pub calls : Use → List Call → Use
  calls u [] = u
  calls u (k ∷ ks) = calls (call u k) ks

  receive-IsExclusive :
      (u : Use) (key : String) (ch : Channel) (items : List ℕ) (c : ℕ)
      → ch.items ≡ items
      → held_in c (lookup key u.pools) ≡ count c items
      → IsExclusive u c
      → IsExclusive (after_get u (receive u.state key ch items)) c
  receive-IsExclusive u key ch [] c e h v = ground (arith, pooled-insert c key ch u.pools)
  receive-IsExclusive u key ch (x ∷ rest) c e h v =
      ground (arith, pooled-insert c key (record ch { items = rest }) u.pools)

  gets-IsExclusive :
      (u : Use) (key : String) (c : ℕ) → IsExclusive u c → IsExclusive (call u (gets key)) c
  unfolding call get
  gets-IsExclusive u key c v =
      let ch = load_or_store (lookup key u.pools) in
      receive-IsExclusive u key ch ch.items c refl (stored (lookup key u.pools)) v
    where
      stored : (o : Option Channel) → held_in c o ≡ count c (load_or_store o).items
      stored none = refl
      stored (some ch) = refl

  offer-IsExclusive :
      (u : Use) (key : String) (d c : ℕ) (o : Option Channel)
      → lookup key u.pools ≡ o
      → 0 < count d u.held
      → IsExclusive u c
      → IsExclusive (after_put u d (offer close_error u.state key d o)) c
  offer-IsExclusive u key d c none e h v = ground (arith, count-erase c d u.held)
  offer-IsExclusive u key d c (some ch) e h v =
      let old : held_in c (lookup key u.pools) ≡ count c ch.items = rw e in
      ground (
        arith,
        old,
        count-erase c d u.held,
        count-append c ch.items (d ∷ []),
        pooled-insert c key (record ch { items = ch.items ++ d ∷ [] }) u.pools,
      )

  puts-IsExclusive :
      (u : Use) (key : String) (d c : ℕ) → IsExclusive u c → IsExclusive (call u (puts key d)) c
  unfolding call put
  puts-IsExclusive u key d c v = elim (Bool-cases (ltb 0 (count d u.held))) [
    | inr missing ↦ rw (missing, call) v
    | inl holds ↦
        rw (holds, call)
          (offer-IsExclusive u key d c (lookup key u.pools) refl (ltb→lt _ _ holds) v)
  ]

  retries-IsExclusive : (u : Use) (d c : ℕ) → IsExclusive u c → IsExclusive (call u (retries d)) c
  unfolding call retry_stale_connection
  retries-IsExclusive u d c v = ground (arith, count-erase c d u.held)

  -- Closing moves the clients of every channel to the closed ones.
  pooled-all_closed :
      (c : ℕ) (m : List (String × Channel)) → pooled c (all_closed close_error m) ≡ 0
  pooled-all_closed c [] = refl
  pooled-all_closed c ((k, ch) ∷ m) = omega (arith, pooled-all_closed c m)

  count-close_pools :
      (c : ℕ) (m : List (String × Channel)) (cs : List ℕ)
      → close_pools close_error m ≡ some cs
      → count c cs ≡ pooled c m
  unfolding close_pools
  count-close_pools c [] cs e = ground arith
  count-close_pools c ((k, ch) ∷ m) cs e = elim (Option-cases (close_pools close_error m)) [
    | inl panic ↦ ground arith
    | inr (ds, h) ↦ ground (arith, count-close_pools c m ds h, count-append c ch.items ds)
  ]

  closes-IsExclusive : (u : Use) (c : ℕ) → IsExclusive u c → IsExclusive (call u closes) c
  unfolding call close_all
  closes-IsExclusive u c v = elim (Option-cases (close_pools close_error u.pools)) [
    | inl panic ↦ rw (panic, call) v
    | inr (cs, e) ↦
        rw (e, call)
          (ground (
            arith,
            count-close_pools c u.pools cs e,
            pooled-all_closed c u.pools,
            count-append c cs u.closed,
          ))
  ]

  call-IsExclusive : (u : Use) (k : Call) (c : ℕ) → IsExclusive u c → IsExclusive (call u k) c
  call-IsExclusive u (gets key) c v = gets-IsExclusive u key c v
  call-IsExclusive u (puts key d) c v = puts-IsExclusive u key d c v
  call-IsExclusive u (retries d) c v = retries-IsExclusive u d c v
  call-IsExclusive u closes c v = closes-IsExclusive u c v

  calls-IsExclusive :
      (u : Use) (ks : List Call) (c : ℕ) → IsExclusive u c → IsExclusive (calls u ks) c
  unfolding calls
  calls-IsExclusive u [] c v = v
  calls-IsExclusive u (k ∷ ks) c v = calls-IsExclusive (call u k) ks c (call-IsExclusive u k c v)

  unfoldable pub opened : ℤ → Use
  opened size = record {
    state = record { pool = new_connection_pool size; made = 0; closed = [] };
    held = [];
  }

  receive-closed :
      (s : PoolState) (key : String) (ch : Channel) (items : List ℕ)
      → (receive s key ch items).1.closed ≡ s.closed
  receive-closed s key ch [] = ground arith
  receive-closed s key ch (x ∷ rest) = refl

  get-closed : (s : PoolState) (key : String) → (get s key).1.closed ≡ s.closed
  unfolding get
  get-closed s key = let ch = load_or_store (lookup key s.pools) in receive-closed s key ch ch.items

  handed :
      (u : Use) (key : String) (c : ℕ) (reused : Bool)
      → (get u.state key).0 ≡ (some c, reused)
      → IsExclusive (call u (gets key)) c
      → (count c u.held ≡ 0) × (count c u.closed ≡ 0)
  unfolding call
  handed u key c reused e v = ground (arith, get-closed u.state key, v)

  -- After any history of calls by callers that give back only what they hold, the client that `Get`
  -- hands out is held by nobody and was not closed.
  pub calls-get_exclusive :
      (size : ℤ) (ks : List Call) (key : String) (c : ℕ) (reused : Bool)
      → let u = calls (opened size) ks in
        (get u.state key).0 ≡ (some c, reused) → (count c u.held ≡ 0) × (count c u.closed ≡ 0)
  unfolding opened new_connection_pool
  calls-get_exclusive size ks key c reused e =
      let u = calls (opened size) ks in
      handed u key c reused e
        (call-IsExclusive u (gets key) c (calls-IsExclusive (opened size) ks c (ground arith)))
