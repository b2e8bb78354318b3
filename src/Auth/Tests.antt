-- ===== src/Auth/Tests.antt =====
-- Two callers of `Token`, of whom one waits for the other's fetch.
use crankfire.Prelude.{◌≡◌, refl, inr, some, [], ◌∷◌, nat_eq, string_eq}
use crankfire.Prelude.Int.{pos, ◌+ℤ◌, ◌-ℤ◌, ◌*ℤ◌}
use crankfire.Prelude.Int64.{wrap64, add64, sub64, mul64}
use crankfire.Auth.{
  begun, back, Provider, new_provider, enter, finish_fetch, broadcast, fetch_token, checked_body,
  answered, arrives, locks, Reached, at_first, after,
}
use crankfire.Auth.Flight.{IsSingle, reached-IsSingle}

abbrev two_arrived : Provider
two_arrived = record (new_provider (pos 0)) { calls = begun ∷ begun ∷ [] }

abbrev one_waits : Provider
one_waits = enter (pos 6) 1 (enter (pos 5) 0 two_arrived)

one_waits-Reached : Reached (pos 0) one_waits
unfolding new_provider enter
one_waits-Reached =
    after
      (after
        (after (after at_first (arrives (new_provider (pos 0))))
          (arrives (record (new_provider (pos 0)) { calls = begun ∷ [] })))
        (locks two_arrived 0 begun (pos 5) refl refl))
      (locks (enter (pos 5) 0 two_arrived) 1 begun (pos 6) refl refl)

reached-IsSingle_example : IsSingle one_waits
reached-IsSingle_example = reached-IsSingle (pos 0) one_waits one_waits-Reached

-- The waiting call is woken by the answer, and takes the new token.
woken_gets_token :
    (enter (pos 8) 1 (
      finish_fetch
        (pos 7)
        0
        (fetch_token
          (answered 200 (some (record { access_token = "t"; expires_in = pos 60; error = "" }))))
        one_waits)).calls
    ≡ back (inr "t") ∷ back (inr "t") ∷ []
unfolding new_provider enter finish_fetch broadcast fetch_token checked_body add64 sub64 mul64
    wrap64 ◌+ℤ◌ ◌-ℤ◌ ◌*ℤ◌
woken_gets_token = refl
