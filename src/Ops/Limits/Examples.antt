-- ===== src/Ops/Limits/Examples.antt =====
-- Tests of ops/limits.py.
use modall.Common.{
  arith, ◌≡◌, ◌∷◌, min, [], ◌-◌, ok, ◌≤◌, ◌⊎◌, err, value_error, ◌≢◌, String, str_eq, true, eq_iff,
}
use modall.Ops.Limits.{allow, FixedWindowRateLimiter, create, pos}
use modall.Ops.Limits.Bounds.{IsBounded, allowed_of, allow-IsBounded, used, allowed_of-min}
use modall.Ops.Limits.Windows.{
  allowed_of-other_peer, allowed_of-other_minute, BelowOne, create-allows,
}

-- a limit of 2, with one peer that has used 1 of minute 5
abbrev limiter : FixedWindowRateLimiter
limiter = record {
  limit = 2;
  max_peers = 2;
  windows = record { peer = "a"; minute = 5; count = 1 } ∷ [];
}

limiter-IsBounded : IsBounded limiter
limiter-IsBounded = record { peers = omega arith; counts = (omega arith, tt) }

allowed_of-min_example : allowed_of 3 5 "a" limiter ≡ min 3 (2 - used 5 "a" limiter)
allowed_of-min_example = allowed_of-min 3 5 "a" limiter (omega arith)

allow-IsBounded_example : IsBounded (allow 6 "b" limiter).1
allow-IsBounded_example = allow-IsBounded 6 "b" limiter limiter-IsBounded

allowed_of-other_minute_example : allowed_of 3 6 "a" (allow 5 "a" limiter).1 ≡ min 3 2
allowed_of-other_minute_example =
    allowed_of-other_minute 3 5 6 "a" limiter (omega arith) (omega arith)

a_is_not-b : ◌≢◌ {A = String} "a" "b"
a_is_not-b e = let same : str_eq "a" "b" ≡ true = (eq_iff "a" "b").1 e in cc

allowed_of-other_peer_example :
    allowed_of 3 5 "a" (allow 5 "b" limiter).1 ≡ allowed_of 3 5 "a" limiter
allowed_of-other_peer_example = allowed_of-other_peer 3 5 5 "a" "b" limiter a_is_not-b (omega arith)

create-allows_example :
    ((l : FixedWindowRateLimiter) × (create (pos 60) (pos 4096) ≡ ok l)
      × (pos l.limit ≡ pos 60)
      × (pos l.max_peers ≡ pos 4096)
      × (1 ≤ l.limit)
      × (1 ≤ l.max_peers)
      × IsBounded l
      × (allowed_of 61 5 "a" l ≡ min 61 l.limit))
    ⊎ ((create (pos 60) (pos 4096) ≡ err value_error) × (BelowOne (pos 60) ⊎ BelowOne (pos 4096)))
create-allows_example = create-allows (pos 60) (pos 4096) 61 5 "a"
