-- ===== src/Timer.antt =====
-- src/libgilberta/timer.c on POSIX. A timestamp is in milliseconds; 0 means "not started".
pub mod Laws
use libgilberta.Base.{ℕ, ◌+◌, ◌-◌, ◌*◌, ◌/◌, Bool, true, false, leb, ◌==◌, if◌then◌else◌}
use libgilberta.Base.Words.{u32, u64}
use libgilberta.Os.{Os, Timespec}
use libgilberta.Effect.{M, St, Run, ok, pure, ask, ◌>>=◌}

-- What `timer_get_current_ms` makes of the clock's answer; the casts and sums are of 64 bits.
unfoldable pub current_ms : Timespec → ℕ
current_ms ts = u64 (u64 (ts.tv_sec * 1000 + ts.tv_nsec / 1000000) + 1)

module _ (os : Os) where
  open os use {World, clock_gettime}

  unfoldable pub timer_get_current_ms : M World ℕ
  timer_get_current_ms = do ts ← ask clock_gettime; pure (current_ms ts)

  -- What `glbtime_start` stores through `ts`.
  unfoldable pub glbtime_start : ℕ → M World ℕ
  unfolding timer_get_current_ms
  glbtime_start interval_ms = do now ← timer_get_current_ms; pure (u64 (now + interval_ms))

  -- A timer that is not started does not ask the clock.
  unfoldable pub glbtime_isexpired : ℕ → M World Bool
  unfolding timer_get_current_ms
  glbtime_isexpired ts =
      if ts == 0 then pure false else (do now ← timer_get_current_ms; pure (leb ts now))

  unfoldable pub glbtime_getremaining : ℕ → M World ℕ
  unfolding timer_get_current_ms
  glbtime_getremaining ts =
      if ts == 0
      then pure 0
      else (do now ← timer_get_current_ms; pure (if leb ts now then 0 else u32 (ts - now)))
