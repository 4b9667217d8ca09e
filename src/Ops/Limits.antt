-- ===== src/Ops/Limits.antt =====
-- ops/limits.py: `FixedWindowRateLimiter`. Its clock is read once in a call, as the minute.
pub mod Bounds
pub mod Windows
mod Examples
use modall.Common.{
  ℕ, ◌+◌, String, Bool, true, false, Option, none, some, List, [], ◌∷◌, ◌++◌, if◌then◌else◌, ltb,
  ◌==◌, str_eq, find, delete_where, length, Result, ◌||◌, err, value_error, ok,
}

-- the value of `_windows` at a peer: the minute and the count
pub record Window : Type 0 where
  pub peer : String
  pub minute : ℕ
  pub count : ℕ

pub record FixedWindowRateLimiter : Type 0 where
  pub limit : ℕ
  pub max_peers : ℕ
  -- oldest first
  pub windows : List Window

abbrev pub is_peer : String → Window → Bool
is_peer peer w = str_eq w.peer peer

-- the count of a peer in a minute, with what `allow` does for a new peer and for a new minute
abbrev pub count_in : ℕ → Option Window → ℕ
count_in minute none = 0
count_in minute (some w) = if w.minute == minute then w.count else 0

-- `while len(self._windows) > self._max_peers: self._windows.popitem(last=False)`
pub trim : ℕ → List Window → List Window
trim max_peers [] = []
trim max_peers (w ∷ ws) =
    let rest = trim max_peers ws in if ltb max_peers (length (w ∷ ws)) then rest else w ∷ ws

-- the window that `allow` stores
abbrev pub next_window : ℕ → String → FixedWindowRateLimiter → Window
next_window minute peer l =
    let count = count_in minute (find (is_peer peer) l.windows) in
    record { peer = peer; minute = minute; count = if ltb count l.limit then count + 1 else count }

unfoldable pub allow : ℕ → String → FixedWindowRateLimiter → Bool × FixedWindowRateLimiter
unfolding trim
allow minute peer l = (
  ltb (count_in minute (find (is_peer peer) l.windows)) l.limit,
  record l {
    windows =
        trim l.max_peers (delete_where (is_peer peer) l.windows ++ next_window minute peer l ∷ []);
  },
)

-- the bounds of `__init__` are integers
pub data ℤ : Type 0 where
  pos negsuc : ℕ → ℤ

unfoldable pub below_one : ℤ → Bool
below_one (pos n) = ltb n 1
below_one (negsuc n) = true

-- an integer that is stored is positive
unfoldable pub stored : ℤ → ℕ
stored (pos n) = n
stored (negsuc n) = 0

-- `__init__`
unfoldable pub create : ℤ → ℤ → Result FixedWindowRateLimiter
unfolding below_one stored
create requests_per_minute max_peers =
    if below_one requests_per_minute || below_one max_peers
    then err value_error
    else ok
        (record { limit = stored requests_per_minute; max_peers = stored max_peers; windows = [] })
