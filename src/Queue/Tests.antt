-- ===== src/Queue/Tests.antt =====
-- The theorems on the queue, at a transfer that is parked as a zombie and completes late.
use mxdriver.Common.{ℕ, ◌+◌, ◌≡◌, refl, subst, true, false, none, [], ◌∷◌}
use mxdriver.Queue.{
  Transfer, Queue, CompletionInfo, find, is_queued, alloc_mx_transfer, mx_transfer_queue,
  submit_pass, complete_one, wait_end, cleanup_round, mxdma_io_queue_idle,
}
use mxdriver.Queue.Counts.{count}
use mxdriver.Queue.Sound.{is_outstanding, is_zombie, IsSound, IsAnswer, Answers}
use mxdriver.Queue.Steps.{Waits}
use mxdriver.Queue.Runs.{
  empty_queue, Reached, created, allocated, enqueued, submitted, completed, waited, cleaned,
  Reached-IsSound, mxdma_io_queue_idle-Reached, wait_end-outstanding, Reached-live, is_late,
  is_live,
}

-- Two transfers at different points of their lives.
abbrev fresh : ℕ → ℕ → Transfer
fresh addr id = record {
  addr = addr;
  id = id;
  no_completion = false;
  registered = true;
  queued = false;
  pushed = false;
  claimed = false;
  zombie = false;
  done = false;
  result = 0;
  status = 0;
}

abbrev issued : ℕ → ℕ → Transfer
issued addr id = record (fresh addr id) { pushed = true }

abbrev one_issued : Queue
one_issued = record (empty_queue 0) { transfers = issued 100 1 ∷ []; wait_count = 1; progress = 5 }

-- The transfer is allocated, queued and pushed.
one_issued-Reached : Reached one_issued
unfolding alloc_mx_transfer mx_transfer_queue submit_pass
one_issued-Reached =
    submitted false 5 (true ∷ [])
      (mx_transfer_queue 100 (alloc_mx_transfer 100 1 false (empty_queue 0)))
      (enqueued 100 (fresh 100 1) (alloc_mx_transfer 100 1 false (empty_queue 0)) refl refl
        (allocated 100 1 false (empty_queue 0) (created 0)))

vain-Waits : Waits 100 false false (issued 100 1) one_issued
vain-Waits = record { at = refl; unparked = refl; expected = refl; handed = refl; signalled = refl }

wait_end-outstanding_example :
    count is_outstanding (wait_end 100 false false (issued 100 1) one_issued).transfers
    ≡ count is_outstanding one_issued.transfers
wait_end-outstanding_example =
    wait_end-outstanding 100 false false (issued 100 1) one_issued one_issued-Reached vain-Waits

-- It is parked, and another one is pushed.
abbrev parked_and_issued : Queue
parked_and_issued = record (empty_queue 0) {
  transfers = record (issued 100 1) { zombie = true } ∷ issued 200 2 ∷ [];
  wait_count = 2;
  zombie_wait_count = 1;
  progress = 8;
}

parked : Reached (wait_end 100 false false (issued 100 1) one_issued)
parked = waited 100 false false (issued 100 1) one_issued vain-Waits one_issued-Reached

parked_and_issued-Reached : Reached parked_and_issued
unfolding wait_end alloc_mx_transfer mx_transfer_queue submit_pass
parked_and_issued-Reached =
    let q = wait_end 100 false false (issued 100 1) one_issued in
    submitted false 8 (true ∷ []) (mx_transfer_queue 200 (alloc_mx_transfer 200 2 false q)) (
      enqueued 200 (fresh 200 2) (alloc_mx_transfer 200 2 false q) refl refl
        (allocated 200 2 false q parked))

-- The late completion comes.
abbrev answer : ℕ → CompletionInfo
answer id = record { id = id; result = 3; status = 0 }

answered : Answers (answer 1) parked_and_issued
answered t e =
    let z : record (issued 100 1) { zombie = true } ≡ t = cc in
    subst (IsAnswer (answer 1)) z (record { held = refl; expected = refl })

abbrev late_and_issued : Queue
late_and_issued = complete_one 9 (answer 1) parked_and_issued

late_and_issued-Reached : Reached late_and_issued
late_and_issued-Reached =
    completed 9 (answer 1) parked_and_issued answered parked_and_issued-Reached

Reached-IsSound_example : IsSound late_and_issued
Reached-IsSound_example = Reached-IsSound late_and_issued late_and_issued-Reached

Reached-live_example :
    late_and_issued.wait_count + count is_late late_and_issued.transfers
    ≡ late_and_issued.zombie_wait_count + count is_live late_and_issued.transfers
Reached-live_example = Reached-live late_and_issued late_and_issued-Reached

-- One command is live although the two counters are equal.
equal_counters :
    (late_and_issued.wait_count ≡ late_and_issued.zombie_wait_count)
    × (count is_live late_and_issued.transfers ≡ 1)
unfolding complete_one
equal_counters = (refl, refl)

-- The other one completes in time, and the zombie is reclaimed.
answered_too : Answers (answer 2) late_and_issued
unfolding complete_one
answered_too t e =
    let z : issued 200 2 ≡ t = cc in
    subst (IsAnswer (answer 2)) z (record { held = refl; expected = refl })

abbrev both_answered : Queue
both_answered = complete_one 10 (answer 2) late_and_issued

abbrev signalled : Transfer
signalled = record (issued 200 2) { registered = false; claimed = true; done = true; result = 3 }

in_time-Waits : Waits 200 true false signalled both_answered
unfolding complete_one
in_time-Waits = record {
  at = refl;
  unparked = refl;
  expected = refl;
  handed = refl;
  signalled = refl;
}

abbrev all_done : Queue
all_done = cleanup_round (wait_end 200 true false signalled both_answered)

all_done-Reached : Reached all_done
all_done-Reached = cleaned (wait_end 200 true false signalled both_answered) (
    waited 200 true false signalled both_answered in_time-Waits
      (completed 10 (answer 2) late_and_issued answered_too late_and_issued-Reached))

mxdma_io_queue_idle-Reached_example :
    (find is_queued all_done.transfers ≡ none)
    × (count is_outstanding all_done.transfers ≡ 0)
    × (count is_zombie all_done.transfers ≡ 0)
unfolding mxdma_io_queue_idle cleanup_round wait_end complete_one
mxdma_io_queue_idle-Reached_example = mxdma_io_queue_idle-Reached all_done all_done-Reached refl
