-- ===== src/Liveness/Verdicts.antt =====
-- What makes the watchdog judge a transport dead.
use mxdriver.Common.{
  ℕ, ◌+◌, ◌-◌, ◌*◌, ◌^◌, ◌≡◌, ◌≤◌, ◌<◌, ◌≢◌, ◌⊎◌, inl, inr, refl, sym, subst, Bool, true, false,
  not, ◌&&◌, u64, ltb, leb, if◌then◌else◌, Bool-cases, if_cases, arith,
}
use mxdriver.Queue.{Queue, Health, unknown, alive, suspect, dead}
use mxdriver.Liveness.{
  suspect_to_dead, alive_to_suspect, mx_liveness_stalled_ms, Limits, sanitized, Tick, overdue_probe,
  judge_stall, probe, mx_liveness_watchdog,
}

sanitized_lem :
    (limits : Limits)
    → (1 ≤ (sanitized limits).stall_ms) × ((sanitized limits).stall_ms < (sanitized limits).dead_ms)
unfolding sanitized
sanitized_lem limits = (omega arith, omega arith)

-- A probe is in flight since `now_ns`.
record Probed (now_ns : ℕ) (r : Queue × Bool) : Type 0 where
  sent : r.1 ≡ true
  inflight : r.0.inflight ≡ true
  since : r.0.sent_ns ≡ now_ns
  health : (r.0.health ≡ suspect) ⊎ (r.0.health ≡ dead)

probe-Probed :
    (to_ms : ℕ → ℕ) (limits : Limits) (tick : Tick) (q : Queue)
    → (q.health ≡ alive) ⊎ (q.health ≡ dead)
    → q.inflight ≡ false
    → tick.pushable ≡ true
    → limits.stall_ms < mx_liveness_stalled_ms to_ms tick.now q.progress
    → Probed tick.now_ns (probe to_ms limits tick q)
unfolding probe
probe-Probed to_ms limits tick q h n p s =
    let t : ltb limits.stall_ms (mx_liveness_stalled_ms to_ms tick.now q.progress) ≡ true =
      ground (arith, s) in
    rw (t, n, p)
      (record {
        sent = refl;
        inflight = refl;
        since = refl;
        health = elim h [ inl a ↦ rw a (inl refl) | inr d ↦ rw d (inr refl) ];
      })

judged_probe :
    (to_ms : ℕ → ℕ) (limits : Limits) (tick : Tick) (q : Queue)
    → q.health ≡ alive
    → q.inflight ≡ false
    → tick.pushable ≡ true
    → limits.stall_ms < mx_liveness_stalled_ms to_ms tick.now q.progress
    → Probed tick.now_ns (probe to_ms limits tick (judge_stall to_ms limits tick q))
unfolding judge_stall
judged_probe to_ms limits tick q h n p s =
    if_cases (λ v. Probed tick.now_ns (probe to_ms limits tick v))
      (ltb limits.dead_ms (mx_liveness_stalled_ms to_ms tick.now q.progress)
        && (not q.inflight
            && ltb limits.dead_ms (mx_liveness_stalled_ms to_ms tick.now tick.resampled)))
      (record q { health = dead }) q
      (λ _. probe-Probed to_ms limits tick (record q { health = dead }) (inr refl) n p s)
      (λ _. probe-Probed to_ms limits tick q (inl h) n p s)

otherwise :
    {A : Type 0} (a c b : Bool) (x y z : A)
    → a ≡ false
    → b ≡ false
    → (if a && c then x else if b then y else z) ≡ z
otherwise a c b x y z e f = rw (e, f) refl

stalled-Probed :
    (to_ms : ℕ → ℕ) (limits : Limits) (tick : Tick) (q : Queue)
    → q.health ≡ alive
    → q.inflight ≡ false
    → q.zombie_wait_count < q.wait_count
    → tick.pushable ≡ true
    → (sanitized limits).stall_ms < mx_liveness_stalled_ms to_ms tick.now q.progress
    → Probed tick.now_ns (mx_liveness_watchdog to_ms limits tick q)
unfolding mx_liveness_watchdog
stalled-Probed to_ms limits tick q h n w p s =
    let t : leb q.wait_count q.zombie_wait_count ≡ false = ground (arith, w) in
    subst (Probed tick.now_ns)
      (sym (otherwise q.inflight _ (leb q.wait_count q.zombie_wait_count) _ _ _ n t))
      (judged_probe to_ms (sanitized limits) tick q h n p s)

overdue-dead :
    (to_ms : ℕ → ℕ) (limits : Limits) (tick : Tick) (q : Queue)
    → q.inflight ≡ true
    → q.sent_ns + (sanitized limits).dead_ms * 1000000 < tick.now_ns
    → tick.now_ns < 2 ^ 64
    → (q.health ≡ suspect) ⊎ (q.health ≡ dead)
    → (mx_liveness_watchdog to_ms limits tick q).0.health ≡ dead
unfolding mx_liveness_watchdog overdue_probe
overdue-dead to_ms limits tick q n s b h =
    let t : ltb ((sanitized limits).dead_ms * 1000000) (u64 (tick.now_ns + 2 ^ 64 - q.sent_ns))
        ≡ true =
      ground (arith, s, b) in
    let d : suspect_to_dead q.health ≡ dead = elim h [ inl a ↦ rw a refl | inr a ↦ rw a refl ] in
    elim (Bool-cases tick.pushable) [ inl p ↦ rw (n, t, p) d | inr p ↦ rw (n, t, p) d ]

-- Where the transport is alive, no probe is in flight, wait_count exceeds zombie_wait_count, the
-- submission queue has room and no completion has come for longer than the stall limit, a run of
-- the watchdog sends a ping, and, where nothing else changes the queue, a run more than the dead
-- limit later, with no wrap-around of the clock, judges the transport dead.
pub watchdog_detects :
    (to_ms : ℕ → ℕ) (limits : Limits) (first second : Tick) (q : Queue)
    → q.health ≡ alive
    → q.inflight ≡ false
    → q.zombie_wait_count < q.wait_count
    → first.pushable ≡ true
    → (sanitized limits).stall_ms < mx_liveness_stalled_ms to_ms first.now q.progress
    → first.now_ns + (sanitized limits).dead_ms * 1000000 < second.now_ns
    → second.now_ns < 2 ^ 64
    → ((mx_liveness_watchdog to_ms limits first q).1 ≡ true)
      × ((mx_liveness_watchdog to_ms limits second
            (mx_liveness_watchdog to_ms limits first q).0).0.health
          ≡ dead)
watchdog_detects to_ms limits first second q h n w p s t b =
    let k = stalled-Probed to_ms limits first q h n w p s in
    (
      k.sent,
      overdue-dead to_ms limits second (mx_liveness_watchdog to_ms limits first q).0 k.inflight
          (omega (arith, t, k.since)) b k.health,
    )

only_suspect : (h : Health) → h ≢ dead → suspect_to_dead h ≡ dead → h ≡ suspect
only_suspect unknown n e = absurd (cc e)
only_suspect alive n e = absurd (cc e)
only_suspect suspect n e = refl
only_suspect dead n e = absurd (n refl)

overdue_suspect :
    (tick : Tick) (q : Queue)
    → q.health ≢ dead
    → (overdue_probe tick q).0.health ≡ dead
    → q.health ≡ suspect
unfolding overdue_probe
overdue_suspect tick q n =
    if_cases {A = Queue × Bool} (λ v. v.0.health ≡ dead → q.health ≡ suspect) tick.pushable
      (record q { health = suspect_to_dead q.health; sent_ns = tick.now_ns }, true)
      (record q { health = suspect_to_dead q.health }, false) (λ _ e. only_suspect q.health n e)
      (λ _ e. only_suspect q.health n e)

still_dead : (h : Health) → alive_to_suspect h ≡ dead → h ≡ dead
still_dead unknown e = absurd (cc e)
still_dead alive e = absurd (cc e)
still_dead suspect e = absurd (cc e)
still_dead dead e = refl

probe_dead :
    (to_ms : ℕ → ℕ) (limits : Limits) (tick : Tick) (q : Queue)
    → (probe to_ms limits tick q).0.health ≡ dead
    → q.health ≡ dead
unfolding probe
probe_dead to_ms limits tick q =
    if_cases {A = Queue × Bool} (λ v. v.0.health ≡ dead → q.health ≡ dead)
      (ltb limits.stall_ms (mx_liveness_stalled_ms to_ms tick.now q.progress)
        && (not q.inflight && tick.pushable))
      (
        record q { inflight = true; health = alive_to_suspect q.health; sent_ns = tick.now_ns },
        true,
      )
      (q, false) (λ _ e. still_dead q.health e) (λ _ e. e)

judge_dead :
    (to_ms : ℕ → ℕ) (limits : Limits) (tick : Tick) (q : Queue)
    → q.health ≢ dead
    → (judge_stall to_ms limits tick q).health ≡ dead
    → (q.inflight ≡ false)
      × (limits.dead_ms < mx_liveness_stalled_ms to_ms tick.now q.progress)
      × (limits.dead_ms < mx_liveness_stalled_ms to_ms tick.now tick.resampled)
unfolding judge_stall
judge_dead to_ms limits tick q n =
    let a = mx_liveness_stalled_ms to_ms tick.now q.progress in
    let b = mx_liveness_stalled_ms to_ms tick.now tick.resampled in
    if_cases
      (λ v. v.health ≡ dead → (q.inflight ≡ false) × (limits.dead_ms < a) × (limits.dead_ms < b))
      (ltb limits.dead_ms a && (not q.inflight && ltb limits.dead_ms b))
      (record q { health = dead }) q
      (λ y _. (ground (arith, y), ground (arith, y), ground (arith, y))) (λ _ e. absurd (n e))

-- Where a run of the watchdog makes a transport dead that was not, either a probe has been in
-- flight for longer than the dead limit and the transport was suspect, or no probe was in flight,
-- wait_count exceeds zombie_wait_count, and both looks at the last completion found it longer ago
-- than the dead limit.
pub watchdog_verdict :
    (to_ms : ℕ → ℕ) (limits : Limits) (tick : Tick) (q : Queue)
    → q.health ≢ dead
    → (mx_liveness_watchdog to_ms limits tick q).0.health ≡ dead
    → ((q.inflight ≡ true)
        × (q.health ≡ suspect)
        × ((sanitized limits).dead_ms * 1000000 < u64 (tick.now_ns + 2 ^ 64 - q.sent_ns)))
      ⊎ ((q.inflight ≡ false)
          × (q.zombie_wait_count < q.wait_count)
          × ((sanitized limits).dead_ms < mx_liveness_stalled_ms to_ms tick.now q.progress)
          × ((sanitized limits).dead_ms < mx_liveness_stalled_ms to_ms tick.now tick.resampled))
unfolding mx_liveness_watchdog
watchdog_verdict to_ms limits tick q h =
    let l = sanitized limits in
    let pong = u64 (tick.now_ns + 2 ^ 64 - q.sent_ns) in
    let Verdict : Type 0 =
      ((q.inflight ≡ true) × (q.health ≡ suspect) × (l.dead_ms * 1000000 < pong))
      ⊎ ((q.inflight ≡ false)
          × (q.zombie_wait_count < q.wait_count)
          × (l.dead_ms < mx_liveness_stalled_ms to_ms tick.now q.progress)
          × (l.dead_ms < mx_liveness_stalled_ms to_ms tick.now tick.resampled)) in
    if_cases {A = Queue × Bool} (λ v. v.0.health ≡ dead → Verdict)
      (q.inflight && ltb (l.dead_ms * 1000000) pong) (overdue_probe tick q)
      (if leb q.wait_count q.zombie_wait_count
        then (q, false)
        else probe to_ms l tick (judge_stall to_ms l tick q))
      (λ y e. inl (ground (arith, y), overdue_suspect tick q h e, ground (arith, y)))
      (λ _.
        if_cases {A = Queue × Bool} (λ v. v.0.health ≡ dead → Verdict)
          (leb q.wait_count q.zombie_wait_count) (q, false)
          (probe to_ms l tick (judge_stall to_ms l tick q)) (λ _ e. absurd (h e))
          (λ y e.
            let (a, b, c) =
              judge_dead to_ms l tick q h
                (probe_dead to_ms l tick (judge_stall to_ms l tick q) e) in
            inr (a, ground (arith, y), b, c)))
