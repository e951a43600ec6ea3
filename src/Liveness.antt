-- ===== src/Liveness.antt =====
-- core_common.c: the watchdog of the transport, which runs in the submit thread.
pub mod Verdicts
mod Tests
use mxdriver.Common.{
  ℕ, ◌+◌, ◌-◌, ◌*◌, ◌^◌, min, max, Bool, true, false, not, ◌&&◌, u64, ltb, leb, if◌then◌else◌,
}
use mxdriver.Queue.{Queue, Health, unknown, alive, suspect, dead}

-- atomic_cmpxchg() on lv_health.
abbrev pub suspect_to_dead : Health → Health
suspect_to_dead unknown = unknown
suspect_to_dead alive = alive
suspect_to_dead suspect = dead
suspect_to_dead dead = dead

abbrev pub alive_to_suspect : Health → Health
alive_to_suspect unknown = unknown
alive_to_suspect alive = suspect
alive_to_suspect suspect = suspect
alive_to_suspect dead = dead

-- time_after() on jiffies.
abbrev pub time_after : ℕ → ℕ → Bool
time_after a b = let d = u64 (a + 2 ^ 64 - b) in ltb 0 d && ltb d (2 ^ 63)

-- mx_liveness_stalled_ms; `to_ms` is jiffies_to_msecs().
unfoldable pub mx_liveness_stalled_ms : (ℕ → ℕ) → ℕ → ℕ → ℕ
mx_liveness_stalled_ms to_ms now progress =
    if time_after now progress then to_ms (u64 (now + 2 ^ 64 - progress)) else 0

-- The module parameters liveness_dead_ms and liveness_stall_ms.
pub record Limits : Type 0 where
  pub dead_ms : ℕ
  pub stall_ms : ℕ

-- As the watchdog takes them.
unfoldable pub sanitized : Limits → Limits
sanitized limits =
    let d = max limits.dead_ms 2 in
    record { dead_ms = d; stall_ms = min (max limits.stall_ms 1) (d - 1) }

-- What a run of the watchdog reads: the clocks, whether the submission queue has room, and the last
-- completion as the second look at it finds it.
pub record Tick : Type 0 where
  pub now : ℕ
  pub now_ns : ℕ
  pub pushable : Bool
  pub resampled : ℕ

-- A ping is sent where the second component is true.
unfoldable pub overdue_probe : Tick → Queue → Queue × Bool
overdue_probe tick q =
    let judged = record q { health = suspect_to_dead q.health } in
    if tick.pushable then (record judged { sent_ns = tick.now_ns }, true) else (judged, false)

unfoldable pub judge_stall : (ℕ → ℕ) → Limits → Tick → Queue → Queue
unfolding mx_liveness_stalled_ms
judge_stall to_ms limits tick q =
    if ltb limits.dead_ms (mx_liveness_stalled_ms to_ms tick.now q.progress)
      && (not q.inflight
          && ltb limits.dead_ms (mx_liveness_stalled_ms to_ms tick.now tick.resampled))
    then record q { health = dead }
    else q

unfoldable pub probe : (ℕ → ℕ) → Limits → Tick → Queue → Queue × Bool
unfolding mx_liveness_stalled_ms
probe to_ms limits tick q =
    if ltb limits.stall_ms (mx_liveness_stalled_ms to_ms tick.now q.progress)
      && (not q.inflight && tick.pushable)
    then (
      record q { inflight = true; health = alive_to_suspect q.health; sent_ns = tick.now_ns },
      true,
    )
    else (q, false)

unfoldable pub mx_liveness_watchdog : (ℕ → ℕ) → Limits → Tick → Queue → Queue × Bool
unfolding sanitized overdue_probe judge_stall probe
mx_liveness_watchdog to_ms limits tick q =
    let l = sanitized limits in
    let pong_wait_ns = u64 (tick.now_ns + 2 ^ 64 - q.sent_ns) in
    if q.inflight && ltb (l.dead_ms * 1000000) pong_wait_ns
    then overdue_probe tick q
    else if leb q.wait_count q.zombie_wait_count
    then (q, false)
    else probe to_ms l tick (judge_stall to_ms l tick q)
