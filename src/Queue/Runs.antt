-- ===== src/Queue/Runs.antt =====
-- The queues that the operations reach from an empty one, and what holds of each of them.
use mxdriver.Common.{
  ℕ, ◌+◌, ◌≡◌, refl, arith, Bool, true, false, not, ◌&&◌, ◌||◌, none, some, List, [], ◌∷◌, inl, inr,
  Bool-cases, Option-cases, to_nat, ◌==◌,
}
use mxdriver.Queue.{
  Transfer, Queue, CompletionInfo, find, is_at, is_queued, alloc_mx_transfer, mx_transfer_queue,
  submit_pass, complete_one, release_mx_transfer, park, wait_end, cleanup_round, cleanup_end,
  mxdma_io_queue_idle, alive,
}
use mxdriver.Queue.Counts.{count, all, found, count-remove, count-update, and_left, and_right}
use mxdriver.Queue.Sound.{
  is_outstanding, is_zombie, fits, IsSound, alloc_mx_transfer-IsSound, mx_transfer_queue-IsSound,
  submit_pass-IsSound, Answers,
}
use mxdriver.Queue.Steps.{
  Waits, complete_one-IsSound, release_mx_transfer-IsSound, wait_end-IsSound,
}
use mxdriver.Queue.Reclaim.{cleanup_round-IsSound, cleanup_end-IsSound}

-- mx_queue_common_init, at the time `now`.
abbrev pub empty_queue : ℕ → Queue
empty_queue now = record {
  transfers = [];
  wait_count = 0;
  zombie_wait_count = 0;
  health = alive;
  inflight = false;
  progress = now;
  sent_ns = 0;
}

-- A queue after any sequence of operations of any callers and of the handlers.
pub data Reached : Queue → Type 0 where
  created : (now : ℕ) → Reached (empty_queue now)
  allocated :
      (addr id : ℕ) (no_completion : Bool) (q : Queue)
      → Reached q
      → Reached (alloc_mx_transfer addr id no_completion q)
  enqueued :
      (addr : ℕ) (t : Transfer) (q : Queue)
      → find (is_at addr) q.transfers ≡ some t
      → t.pushed ≡ false
      → Reached q
      → Reached (mx_transfer_queue addr q)
  submitted :
      (lv_on : Bool) (now : ℕ) (answers : List Bool) (q : Queue)
      → Reached q
      → Reached (submit_pass lv_on now answers q)
  completed :
      (now : ℕ) (info : CompletionInfo) (q : Queue)
      → Answers info q
      → Reached q
      → Reached (complete_one now info q)
  waited :
      (addr : ℕ) (in_time late : Bool) (t : Transfer) (q : Queue)
      → Waits addr in_time late t q
      → Reached q
      → Reached (wait_end addr in_time late t q)
  released :
      (addr : ℕ) (t : Transfer) (q : Queue)
      → find (is_at addr) q.transfers ≡ some t
      → (t.no_completion || not t.pushed) ≡ true
      → Reached q
      → Reached (release_mx_transfer addr q)
  cleaned : (q : Queue) → Reached q → Reached (cleanup_round q)
  stopped : (safe : Bool) (q : Queue) → Reached q → Reached (cleanup_end safe q)

releasable :
    (t : Transfer)
    → (t.no_completion || not t.pushed) ≡ true
    → fits t ≡ true
    → (is_outstanding t ≡ false) × (t.zombie ≡ false)
releasable t h f = (ground arith, ground arith)

-- After any sequence of the operations on a queue (allocating a transfer, queueing it, passes of
-- the submit handler, completions of commands that the device holds, ends of waits, releases of
-- transfers that were not pushed or have no completion, rounds and end of the zombie cleanup)
-- from an empty one, the flags of each transfer are those of one of its states, wait_count is the
-- number of commands that the device holds and is to complete, and zombie_wait_count is the
-- number of zombies.
pub Reached-IsSound : (q : Queue) → Reached q → IsSound q
Reached-IsSound _ (created now) = record { fitting = refl; waits = refl; zombies = refl }
Reached-IsSound _ (allocated addr id no_completion q r) =
    alloc_mx_transfer-IsSound addr id no_completion q (Reached-IsSound q r)
Reached-IsSound _ (enqueued addr t q e n r) =
    mx_transfer_queue-IsSound addr t q e n (Reached-IsSound q r)
Reached-IsSound _ (submitted lv_on now answers q r) =
    submit_pass-IsSound lv_on now answers q (Reached-IsSound q r)
Reached-IsSound _ (completed now info q h r) =
    complete_one-IsSound now info q h (Reached-IsSound q r)
Reached-IsSound _ (waited addr in_time late t q w r) =
    wait_end-IsSound addr in_time late t q w (Reached-IsSound q r)
Reached-IsSound _ (released addr t q e h r) =
    let s = Reached-IsSound q r in
    let (o, z) = releasable t h (found (is_at addr) fits q.transfers t e s.fitting).1 in
    release_mx_transfer-IsSound addr t q e o z s
Reached-IsSound _ (cleaned q r) = cleanup_round-IsSound q (Reached-IsSound q r)
Reached-IsSound _ (stopped safe q r) = cleanup_end-IsSound safe q (Reached-IsSound q r)

-- After any sequence of the operations on a queue (allocating a transfer, queueing it, passes of
-- the submit handler, completions of commands that the device holds, ends of waits, releases of
-- transfers that were not pushed or have no completion, rounds and end of the zombie cleanup)
-- from an empty one, if mxdma_io_queue_idle says that the queue is idle, then no transfer is on
-- the submission list, the device holds no command that it is to complete, and no zombie is
-- parked.
pub mxdma_io_queue_idle-Reached :
    (q : Queue)
    → Reached q
    → mxdma_io_queue_idle q ≡ true
    → (find is_queued q.transfers ≡ none)
      × (count is_outstanding q.transfers ≡ 0)
      × (count is_zombie q.transfers ≡ 0)
unfolding mxdma_io_queue_idle
mxdma_io_queue_idle-Reached q r e =
    let s = Reached-IsSound q r in
    elim (Option-cases (find is_queued q.transfers)) [
      | inr (t, f) ↦ absurd (cc (rw (mxdma_io_queue_idle, f) at e))
      | inl n ↦
          let h : ((q.wait_count == 0) && (q.zombie_wait_count == 0)) ≡ true =
            rw (mxdma_io_queue_idle, n) at e in
          let a = and_left (q.wait_count == 0) (q.zombie_wait_count == 0) h in
          let b = and_right (q.wait_count == 0) (q.zombie_wait_count == 0) h in
          (n, ground (arith, s.waits, a), ground (arith, s.zombies, b))
    ]

release_outstanding :
    (addr : ℕ) (t : Transfer) (q : Queue)
    → find (is_at addr) q.transfers ≡ some t
    → is_outstanding t ≡ false
    → count is_outstanding (release_mx_transfer addr q).transfers ≡ count is_outstanding q.transfers
unfolding release_mx_transfer
release_outstanding addr t q e o =
    let c = count-remove (is_at addr) is_outstanding q.transfers t e in omega (arith, rw o at c)

park_outstanding :
    (addr : ℕ) (t : Transfer) (q : Queue)
    → find (is_at addr) q.transfers ≡ some t
    → count is_outstanding (park addr q).transfers ≡ count is_outstanding q.transfers
unfolding park
park_outstanding addr t q e = omega (
  arith,
  count-update (is_at addr) is_outstanding (λ x. record x { zombie = true }) q.transfers t e,
)

-- On a queue that any sequence of its operations has reached, the end of a wait, whether it saw a
-- completion, took the transfer back, saw a late completion or parked a zombie, leaves the number
-- of commands that the device holds and is to complete, so that the transfer it frees is none of
-- them.
pub wait_end-outstanding :
    (addr : ℕ) (in_time late : Bool) (t : Transfer) (q : Queue)
    → Reached q
    → Waits addr in_time late t q
    → count is_outstanding (wait_end addr in_time late t q).transfers
      ≡ count is_outstanding q.transfers
unfolding wait_end
wait_end-outstanding addr in_time late t q r w =
    let s = Reached-IsSound q r in
    let h = (found (is_at addr) fits q.transfers t w.at s.fitting).1 in
    elim (Bool-cases in_time) [
      | inl c ↦ rw c (release_outstanding addr t q w.at (ground (arith, w.signalled)))
      | inr c ↦ elim (Bool-cases t.queued) [
        | inl k ↦ rw (c, k) (release_outstanding addr t q w.at (ground arith))
        | inr k ↦ elim (Bool-cases late) [
          | inl l ↦ rw (c, k, l) (release_outstanding addr t q w.at (ground (arith, w.signalled)))
          | inr l ↦ rw (c, k, l) (park_outstanding addr t q w.at)
        ]
      ]
    ]

-- A zombie whose late completion is claimed, and a command that a waiter still waits for.
abbrev pub is_late : Transfer → Bool
is_late t = t.zombie && t.claimed

abbrev pub is_live : Transfer → Bool
is_live t = is_outstanding t && not t.zombie

one_live :
    (t : Transfer)
    → fits t ≡ true
    → to_nat (is_outstanding t) + to_nat (is_late t) ≡ to_nat (is_zombie t) + to_nat (is_live t)
one_live t f = ground arith

all_live :
    (ts : List Transfer)
    → all fits ts ≡ true
    → count is_outstanding ts + count is_late ts ≡ count is_zombie ts + count is_live ts
all_live [] a = refl
all_live (t ∷ ts) a = omega (
  arith,
  one_live t (and_left (fits t) (all fits ts) a),
  all_live ts (and_right (fits t) (all fits ts) a),
)

-- On a queue that any sequence of its operations has reached, wait_count and the number of
-- zombies that have completed late are together as many as zombie_wait_count and the number of
-- commands that the device holds for a waiter.
pub Reached-live :
    (q : Queue)
    → Reached q
    → q.wait_count + count is_late q.transfers ≡ q.zombie_wait_count + count is_live q.transfers
Reached-live q r =
    let s = Reached-IsSound q r in omega (arith, s.waits, s.zombies, all_live q.transfers s.fitting)
