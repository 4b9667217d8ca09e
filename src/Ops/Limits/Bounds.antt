-- ===== src/Ops/Limits/Bounds.antt =====
-- The bounds that the rate limiter keeps.
use modall.Common.{
  ℕ, String, Bool, List, find, length, ◌≤◌, delete_where, arith, ◌≡◌, ltb, none, ◌∷◌, if◌then◌else◌,
  true, [], ◌+◌, ◌++◌, refl, some, ap, min, All, Option-cases, suc, Bool-cases, eq_iff, ◌-◌, inl,
  zero, ◌∙◌, inr, All-find,
}
use modall.Ops.Limits.{Window, allow, trim, FixedWindowRateLimiter, count_in, is_peer, next_window}

-- what one peer has used of a minute
abbrev pub used : ℕ → String → FixedWindowRateLimiter → ℕ
used minute peer l = count_in minute (find (is_peer peer) l.windows)

trim-length : (n : ℕ) (ws : List Window) → length (trim n ws) ≤ n
unfolding trim
trim-length n [] = omega arith
trim-length n (w ∷ ws) = ground (arith, trim-length n ws)

find-last :
    (test : Window → Bool) (ws : List Window) (w : Window)
    → find test ws ≡ none
    → test w ≡ true
    → find test (ws ++ w ∷ []) ≡ some w
find-last test [] w e q = ground arith
find-last test (x ∷ ws) w e q = ground (arith, find-last test ws w)

pub find-trim :
    (test : Window → Bool) (n : ℕ) (ws : List Window) (w : Window)
    → 1 ≤ n
    → find test ws ≡ none
    → test w ≡ true
    → find test (trim n (ws ++ w ∷ [])) ≡ some w
unfolding trim
find-trim test n [] w l e q = ground arith
find-trim test n (x ∷ ws) w l e q = ground (arith, find-trim test n ws w l, find-last test ws w)

pub find-deleted :
    (test : Window → Bool) (ws : List Window) → find test (delete_where test ws) ≡ none
find-deleted test [] = refl
find-deleted test (w ∷ ws) = ground (arith, find-deleted test ws)

same_minute : (minute : ℕ) (w : Window) → w.minute ≡ minute → count_in minute (some w) ≡ w.count
same_minute minute w e = ground arith

-- what one call decides, and what it counts
pub allow-used :
    (minute : ℕ) (peer : String) (l : FixedWindowRateLimiter)
    → 1 ≤ l.max_peers
    → ((allow minute peer l).0 ≡ ltb (used minute peer l) l.limit)
      × (used minute peer (allow minute peer l).1
          ≡ (if (allow minute peer l).0 then used minute peer l + 1 else used minute peer l))
unfolding allow
allow-used minute peer l room = (
  refl,
  ap (count_in minute) (
        find-trim (is_peer peer) l.max_peers (delete_where (is_peer peer) l.windows)
          (next_window minute peer l) room (find-deleted (is_peer peer) l.windows)
          ((eq_iff peer peer).1 refl))
      ∙ same_minute minute (next_window minute peer l) refl,
)

-- how many of n calls in a row are allowed
abbrev pub allowed_of : ℕ → ℕ → String → FixedWindowRateLimiter → ℕ
allowed_of zero minute peer l = 0
allowed_of (suc n) minute peer l =
    let (allowed, l') = allow minute peer l in
    let later = allowed_of n minute peer l' in if allowed then suc later else later

pub allow-limit :
    (minute : ℕ) (peer : String) (l : FixedWindowRateLimiter)
    → ((allow minute peer l).1.limit ≡ l.limit) × ((allow minute peer l).1.max_peers ≡ l.max_peers)
unfolding allow
allow-limit minute peer l = (refl, refl)

-- Of n calls in a row from one peer in one minute, as many are allowed as the peer has left of the limit,
-- and all n if that is enough.
pub allowed_of-min :
    (n minute : ℕ) (peer : String) (l : FixedWindowRateLimiter)
    → 1 ≤ l.max_peers
    → allowed_of n minute peer l ≡ min n (l.limit - used minute peer l)
allowed_of-min zero minute peer l room = omega arith
allowed_of-min (suc n) minute peer l room =
    let (decided, grown) = allow-used minute peer l room in
    let (limit, peers) = allow-limit minute peer l in
    let later = allowed_of-min n minute peer (allow minute peer l).1 (omega (arith, peers)) in
    counted (allow minute peer l).0 (allowed_of n minute peer (allow minute peer l).1)
      (used minute peer l) (used minute peer (allow minute peer l).1) l.limit decided grown
      (later ∙ ap (λ k. min n (k - used minute peer (allow minute peer l).1)) limit)
  where
    counted :
        (b : Bool) (m u u' k : ℕ)
        → b ≡ ltb u k
        → u' ≡ (if b then u + 1 else u)
        → m ≡ min n (k - u')
        → (if b then suc m else m) ≡ min (suc n) (k - u)
    counted b m u u' k d g e = ground arith

-- the memory is bounded, and no peer is counted beyond the limit
pub record IsBounded (l : FixedWindowRateLimiter) : Type 0 where
  pub peers : length l.windows ≤ l.max_peers
  pub counts : All (λ w. w.count ≤ l.limit) l.windows

module _ (P : Window → Type 0) where
  All-trim : (n : ℕ) (ws : List Window) → All P ws → All P (trim n ws)
  unfolding trim
  All-trim n [] h = tt
  All-trim n (w ∷ ws) h = elim (Bool-cases (ltb n (length (w ∷ ws)))) [
    | inl full ↦ rw full (All-trim n ws h.1)
    | inr fits ↦ rw fits h
  ]

  All-deleted : (test : Window → Bool) (ws : List Window) → All P ws → All P (delete_where test ws)
  All-deleted test [] h = tt
  All-deleted test (w ∷ ws) h = elim (Bool-cases (test w)) [
    | inl hit ↦ rw hit (All-deleted test ws h.1)
    | inr miss ↦ rw miss (h.0, All-deleted test ws h.1)
  ]

  All-last : (ws : List Window) (w : Window) → All P ws → P w → All P (ws ++ w ∷ [])
  All-last [] w h p = (p, tt)
  All-last (x ∷ ws) w h p = (h.0, All-last ws w h.1 p)

used-bounded :
    (minute : ℕ) (peer : String) (l : FixedWindowRateLimiter)
    → IsBounded l
    → used minute peer l ≤ l.limit
used-bounded minute peer l h = elim (Option-cases (find (is_peer peer) l.windows)) [
  | inl e ↦ rw e (omega arith)
  | inr (w, e) ↦
      let found = All-find (λ w. w.count ≤ l.limit) (is_peer peer) l.windows w h.counts e in
      rw e (ground arith)
]

-- A call keeps the number of peers within its bound, also in the middle of a flood of new peers, and no
-- count beyond the limit.
pub allow-IsBounded :
    (minute : ℕ) (peer : String) (l : FixedWindowRateLimiter)
    → IsBounded l
    → IsBounded (allow minute peer l).1
unfolding allow
allow-IsBounded minute peer l h = record {
  peers = trim-length l.max_peers _;
  counts =
      All-trim (λ w. w.count ≤ l.limit) l.max_peers _
        (All-last (λ w. w.count ≤ l.limit) _ _
          (All-deleted (λ w. w.count ≤ l.limit) (is_peer peer) l.windows h.counts)
          (let u = used-bounded minute peer l h in within (used minute peer l) u));
}
  where
    within : (u : ℕ) → u ≤ l.limit → (if ltb u l.limit then u + 1 else u) ≤ l.limit
    within u h = ground arith
