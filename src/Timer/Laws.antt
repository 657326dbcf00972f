-- ===== src/Timer/Laws.antt =====
-- The timers of src/libgilberta/timer.c, read and started at chosen times.
use libgilberta.Base.{
  ℕ, ◌+◌, ◌-◌, ◌*◌, ◌^◌, ◌≤◌, ◌<◌, ◌≡◌, refl, ap, Bool, false, arith, leb, ◌==◌, if◌then◌else◌,
}
use libgilberta.Base.Words.{u32, u64}
use libgilberta.Os.{Os, Timespec}
use libgilberta.Effect.{St, Run, ok, ◌>>=◌, pure, ask}
use libgilberta.Timer.{
  timer_get_current_ms, current_ms, glbtime_start, glbtime_isexpired, glbtime_getremaining,
}

-- A clock that has run for less than 2^63 milliseconds.
abbrev pub IsRecent : Timespec → Type 0
IsRecent ts = (ts.tv_sec < 2 ^ 52) × (ts.tv_nsec < 1000000000)

-- A recent clock never gives the timestamp 0, which means "not started", nor one that wraps.
pub current_ms_bounds :
    (ts : Timespec) → IsRecent ts → (0 < current_ms ts) × (current_ms ts < 2 ^ 63)
unfolding current_ms
current_ms_bounds ts h = omega arith

-- The clock's milliseconds never go back while its seconds and nanoseconds do not.
pub current_ms_mono :
    (a b : Timespec)
    → IsRecent a
    → IsRecent b
    → a.tv_sec * 1000000000 + a.tv_nsec ≤ b.tv_sec * 1000000000 + b.tv_nsec
    → current_ms a ≤ current_ms b
unfolding current_ms
current_ms_mono a b h k le = omega arith

module _ (os : Os) (s t : St (os.World)) (interval : ℕ) where
  open os use {World, clock_gettime}

  -- What the clock shows when a timer is started in state `s` and looked at in state `t`.
  abbrev started_at : ℕ
  started_at = current_ms (clock_gettime s.world).0

  abbrev seen_at : ℕ
  seen_at = current_ms (clock_gettime t.world).0

  -- What `glbtime_start` stores.
  abbrev deadline : ℕ
  deadline = u64 (started_at + interval)

  -- A timer of `interval` milliseconds, started at a recent time and looked at later, stores a
  -- deadline that is not 0; it has expired exactly when `interval` milliseconds have passed, and
  -- the remaining time is what is missing of them. Starting and reading only advance the world.
  pub timer_lem :
      IsRecent (clock_gettime s.world).0
      → IsRecent (clock_gettime t.world).0
      → started_at ≤ seen_at
      → interval < 2 ^ 32
      → (glbtime_start os interval s ≡ ok deadline (record s { world = (clock_gettime s.world).1 }))
        × (glbtime_isexpired os deadline t
            ≡ ok
                (leb (started_at + interval) seen_at)
                (record t { world = (clock_gettime t.world).1 }))
        × (glbtime_getremaining os deadline t
            ≡ ok (started_at + interval - seen_at) (record t { world = (clock_gettime t.world).1 }))
  unfolding glbtime_start glbtime_isexpired glbtime_getremaining timer_get_current_ms ◌>>=◌ pure ask
  timer_lem hs ht later small =
      let (pos, fits) = current_ms_bounds (clock_gettime s.world).0 hs in
      let whole : deadline ≡ started_at + interval = omega arith in
      let started : (started_at + interval == 0) ≡ false = ground arith in
      (
        refl,
        rw (whole, started),
        rw (whole, started) (remaining (leb (started_at + interval) seen_at) refl),
      )
    where
      remaining :
          (b : Bool)
          → leb (started_at + interval) seen_at ≡ b
          → ◌≡◌ {A = Run World ℕ}
              (ok
                (if b then 0 else u32 (started_at + interval - seen_at))
                (record t { world = (clock_gettime t.world).1 }))
              (ok
                (started_at + interval - seen_at)
                (record t { world = (clock_gettime t.world).1 }))
      remaining b e = ap (λ n. ok n (record t { world = (clock_gettime t.world).1 })) (ground arith)
