-- ===== src/Clock.antt =====
-- embkv/include/common/util/time.h: the clock in milliseconds, with the cache of the thread. The reading
-- of the system's clock is an argument; it has fewer than 10 ^ 9 nanoseconds.
use embkv.Base.{ℕ, ◌+◌, ◌*◌, ◌/◌, ◌≤◌, ◌<◌, ◌≡◌, ◌⊎◌, refl, ◌&&◌, ◌==◌, ltb, if◌then◌else◌, arith}

pub record Timespec : Type 0 where
  pub sec : ℕ
  pub nsec : ℕ

pub record Cache : Type 0 where
  pub last_ts : Timespec
  pub cached_ms : ℕ

-- `timespec last_ts {}; int64_t cached_ms = 0;`
abbrev pub empty_cache : Cache
empty_cache = record { last_ts = record { sec = 0; nsec = 0 }; cached_ms = 0 }

abbrev pub to_ms : Timespec → ℕ
to_ms now = now.sec * 1000 + now.nsec / 1_000_000

-- The result, and the cache after the call. The difference of the nanoseconds is signed.
unfoldable pub current_ms : Timespec → Cache → ℕ × Cache
current_ms now cache =
    if (now.sec == cache.last_ts.sec) && ltb now.nsec (cache.last_ts.nsec + 1_000_000)
    then (cache.cached_ms, cache)
    else (to_ms now, record { last_ts = now; cached_ms = to_ms now })

-- The cache holds the time of its reading.
pub record IsCache (c : Cache) : Type 0 where
  pub fits : c.last_ts.nsec < 1_000_000_000
  pub read : c.cached_ms ≡ to_ms c.last_ts

pub empty_cache-IsCache : IsCache empty_cache
empty_cache-IsCache = record { fits = omega arith; read = refl }

-- The one reading is not before the other.
abbrev pub NotBefore : Timespec → Timespec → Type 0
NotBefore a b = (a.sec < b.sec) ⊎ ((a.sec ≡ b.sec) × (a.nsec ≤ b.nsec))

-- For a clock that does not go back, current_ms is at most one millisecond behind the reading and never
-- ahead of it, never goes back itself, and leaves a cache of which this holds again.
current_ms-bounds :
    (now : Timespec) (c : Cache)
    → IsCache c
    → now.nsec < 1_000_000_000
    → NotBefore c.last_ts now
    → let r = current_ms now c in
      (r.0 ≤ to_ms now)
      × (to_ms now ≤ r.0 + 1)
      × (c.cached_ms ≤ r.0)
      × IsCache r.1
      × NotBefore r.1.last_ts now
unfolding current_ms
current_ms-bounds now c v small later = ground (arith, v.read, v.fits)
