-- ===== src/Liveness/Tests.antt =====
-- The watchdog at a queue whose one command has not completed for 1.2 seconds, and then at a probe
-- that has not been answered for more than 5; jiffies are 4 milliseconds.
use mxdriver.Common.{ℕ, ◌+◌, ◌-◌, ◌*◌, ◌^◌, ◌≡◌, ◌<◌, ◌≢◌, ◌⊎◌, refl, true, false, arith, [], u64}
use mxdriver.Queue.{Queue, alive, suspect, dead}
use mxdriver.Liveness.{mx_liveness_stalled_ms, Limits, sanitized, Tick, mx_liveness_watchdog}
use mxdriver.Liveness.Verdicts.{watchdog_detects, watchdog_verdict}

abbrev to_ms : ℕ → ℕ
to_ms j = j * 4

abbrev limits : Limits
limits = record { dead_ms = 5000; stall_ms = 1000 }

abbrev stalled : Queue
stalled = record {
  transfers = [];
  wait_count = 1;
  zombie_wait_count = 0;
  health = alive;
  inflight = false;
  progress = 1000;
  sent_ns = 0;
}

abbrev early : Tick
early = record { now = 1300; now_ns = 7000000000; pushable = true; resampled = 1000 }

abbrev late : Tick
late = record { now = 3000; now_ns = 13000000000; pushable = false; resampled = 1000 }

watchdog_detects_example :
    ((mx_liveness_watchdog to_ms limits early stalled).1 ≡ true)
    × ((mx_liveness_watchdog to_ms limits late
          (mx_liveness_watchdog to_ms limits early stalled).0).0.health
        ≡ dead)
unfolding mx_liveness_stalled_ms sanitized
watchdog_detects_example =
    watchdog_detects to_ms limits early late stalled refl refl (omega arith) refl (omega arith)
      (omega arith) (omega arith)

-- A probe has been in flight since 7 seconds on the clock.
abbrev probed : Queue
probed = record stalled { health = suspect; inflight = true; sent_ns = 7000000000 }

suspect_not_dead : suspect ≢ dead
suspect_not_dead e = absurd (cc e)

watchdog_verdict_example :
    ((true ≡ true)
      × (suspect ≡ suspect)
      × ((sanitized limits).dead_ms * 1000000 < u64 (13000000000 + 2 ^ 64 - 7000000000)))
    ⊎ ((true ≡ false)
        × (0 < 1)
        × ((sanitized limits).dead_ms < mx_liveness_stalled_ms to_ms 3000 1000)
        × ((sanitized limits).dead_ms < mx_liveness_stalled_ms to_ms 3000 1000))
unfolding mx_liveness_watchdog
watchdog_verdict_example = watchdog_verdict to_ms limits late probed suspect_not_dead refl
