-- ===== src/Ops/Limits/Windows.antt =====
-- The minutes and the peers that the rate limiter tells apart, and a new limiter.
use modall.Ops.Limits.{stored}
use modall.Ops.Limits.Bounds.{used}
use modall.Common.{
  ℕ, String, ◌≡◌, ◌≢◌, Bool, List, ◌≤◌, find, length, ok, ◌<◌, true, delete_where, some, ◌∷◌, false,
  min, Bool-cases, arith, ◌++◌, ap, ◌⊎◌, [], inl, ◌∙◌, err, ◌+◌, sym, inr, refl, value_error, ◌-◌,
  eq_iff, suc, zero,
}
use modall.Ops.Limits.{create}
use modall.Ops.Limits.{
  ℤ, trim, Window, allow, below_one, FixedWindowRateLimiter, pos, is_peer, count_in, negsuc,
  next_window,
}
use modall.Ops.Limits.Bounds.{
  allowed_of, allow-limit, IsBounded, allowed_of-min, find-trim, find-deleted,
}

other_minute :
    (minute minute' : ℕ) (w : Window)
    → w.minute ≡ minute
    → minute ≢ minute'
    → count_in minute' (some w) ≡ 0
other_minute minute minute' w e q = ground arith

-- After a call of a peer in one minute, the peer has the whole limit in every other minute: of n
-- calls in a row, as many are allowed as the limit says, and all n if that is enough.
pub allowed_of-other_minute :
    (n minute minute' : ℕ) (peer : String) (l : FixedWindowRateLimiter)
    → 1 ≤ l.max_peers
    → minute ≢ minute'
    → allowed_of n minute' peer (allow minute peer l).1 ≡ min n l.limit
unfolding allow
allowed_of-other_minute n minute minute' peer l room q =
    let (limit, peers) = allow-limit minute peer l in
    let count = allowed_of-min n minute' peer (allow minute peer l).1 (omega (arith, peers)) in
    counted n (used minute' peer (allow minute peer l).1) _ _ limit fresh count
  where
    fresh : used minute' peer (allow minute peer l).1 ≡ 0
    fresh =
        ap (count_in minute') (
          find-trim (is_peer peer) l.max_peers (delete_where (is_peer peer) l.windows)
            (next_window minute peer l) room (find-deleted (is_peer peer) l.windows)
            ((eq_iff peer peer).1 refl))
        ∙ other_minute minute minute' (next_window minute peer l) refl q

    counted : (n u k k' : ℕ) {m : ℕ} → k' ≡ k → u ≡ 0 → m ≡ min n (k' - u) → m ≡ min n k
    counted n u k k' a b c = ground arith

not_both :
    (peer other : String) (w : Window)
    → peer ≢ other
    → is_peer other w ≡ true
    → is_peer peer w ≡ false
not_both peer other w q e = elim (Bool-cases (is_peer peer w)) [
  | inl same ↦ absurd (q (sym ((eq_iff w.peer peer).0 same) ∙ (eq_iff w.peer other).0 e))
  | inr differs ↦ differs
]

module _ (peer other : String) (q : peer ≢ other) where
  find-others :
      (ws : List Window)
      → find (is_peer peer) (delete_where (is_peer other) ws) ≡ find (is_peer peer) ws
  find-others [] = refl
  find-others (w ∷ ws) = elim (Bool-cases (is_peer other w)) [
    | inl hit ↦ rw (hit, not_both peer other w q hit) (find-others ws)
    | inr miss ↦ rw miss (ground (arith, find-others ws))
  ]

  find-added :
      (ws : List Window) (w : Window)
      → is_peer other w ≡ true
      → find (is_peer peer) (ws ++ w ∷ []) ≡ find (is_peer peer) ws
  find-added [] w e = rw (not_both peer other w q e) refl
  find-added (x ∷ ws) w e = ground (arith, find-added ws w e)

trim-fits : (n : ℕ) (ws : List Window) → length ws ≤ n → trim n ws ≡ ws
unfolding trim
trim-fits n [] h = refl
trim-fits n (w ∷ ws) h = ground arith

length-added :
    (test : Window → Bool) (ws : List Window) (w : Window)
    → length (delete_where test ws ++ w ∷ []) ≤ length ws + 1
length-added test [] w = omega arith
length-added test (x ∷ ws) w = ground (arith, length-added test ws w)

used-other :
    (minute minute' : ℕ) (peer other : String) (l : FixedWindowRateLimiter)
    → peer ≢ other
    → length l.windows < l.max_peers
    → used minute' peer (allow minute other l).1 ≡ used minute' peer l
unfolding allow
used-other minute minute' peer other l q room =
    ap (λ ws. count_in minute' (find (is_peer peer) ws))
      (trim-fits l.max_peers _
        (omega (arith, room, length-added (is_peer other) l.windows (next_window minute other l))))
    ∙ ap (count_in minute') (
        find-added peer other q (delete_where (is_peer other) l.windows)
          (next_window minute other l) ((eq_iff other other).1 refl)
        ∙ find-others peer other q l.windows)

-- While there is room for another peer, a call of another peer takes nothing from a peer: of n
-- calls in a row as many are allowed after it as before.
pub allowed_of-other_peer :
    (n minute minute' : ℕ) (peer other : String) (l : FixedWindowRateLimiter)
    → peer ≢ other
    → length l.windows < l.max_peers
    → allowed_of n minute' peer (allow minute other l).1 ≡ allowed_of n minute' peer l
allowed_of-other_peer n minute minute' peer other l q room =
    let (limit, peers) = allow-limit minute other l in
    allowed_of-min n minute' peer (allow minute other l).1 (omega (arith, room, peers))
    ∙ ap (λ k. min n (k - used minute' peer (allow minute other l).1)) limit
    ∙ ap (λ u. min n (l.limit - u)) (used-other minute minute' peer other l q room)
    ∙ sym (allowed_of-min n minute' peer l (omega (arith, room)))

-- zero, or negative
abbrev pub BelowOne : ℤ → Type 0
BelowOne (pos n) = n ≡ 0
BelowOne (negsuc n) = Unit

-- A limiter is created exactly from two positive bounds; it then has these bounds, has counted
-- nothing, so that of n calls in a row of any peer in any minute as many are allowed as
-- requests_per_minute says, and keeps no more peers than max_peers. Bounds that are zero or
-- negative are refused.
pub create-allows :
    (requests_per_minute max_peers : ℤ) (n minute : ℕ) (peer : String)
    → ((l : FixedWindowRateLimiter) × (create requests_per_minute max_peers ≡ ok l)
        × (pos l.limit ≡ requests_per_minute)
        × (pos l.max_peers ≡ max_peers)
        × (1 ≤ l.limit)
        × (1 ≤ l.max_peers)
        × IsBounded l
        × (allowed_of n minute peer l ≡ min n l.limit))
      ⊎ ((create requests_per_minute max_peers ≡ err value_error)
          × (BelowOne requests_per_minute ⊎ BelowOne max_peers))
unfolding create below_one stored
create-allows (negsuc a) b n minute peer = inr (refl, inl tt)
create-allows (pos zero) b n minute peer = inr (ground arith, inl refl)
create-allows (pos (suc a)) (negsuc b) n minute peer = inr (ground arith, inr tt)
create-allows (pos (suc a)) (pos zero) n minute peer = inr (ground arith, inr refl)
create-allows (pos (suc a)) (pos (suc b)) n minute peer =
    let l : FixedWindowRateLimiter = record { limit = suc a; max_peers = suc b; windows = [] } in
    inl (
      l,
      ground arith,
      refl,
      refl,
      omega arith,
      omega arith,
      record { peers = omega arith; counts = tt },
      left_all n (suc a) (allowed_of-min n minute peer l (omega arith)),
    )
  where
    left_all : (n k : ℕ) {m : ℕ} → m ≡ min n (k - 0) → m ≡ min n k
    left_all n k e = ground arith
