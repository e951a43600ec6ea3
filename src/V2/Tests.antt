-- ===== src/V2/Tests.antt =====
-- Rings of two and of four entries, and an admin queue that has lost sight of a command.
use mxdriver.Common.{
  returned, ℕ, ◌≡◌, ◌⊎◌, refl, arith, [], ◌∷◌, ◌++◌, true, false, some, none, if◌then◌else◌,
}
use mxdriver.V2.{
  ring_cq_doorbell, Completion, RingsV2, blank, configure_queue, is_pushable, is_popable,
  pop_mx_completion, push_mx_command,
}
use mxdriver.V2.Cq.{post, next_of}
use mxdriver.V2.Traffic.{configured, posted, Traffic-is_popable}
use mxdriver.V2.Sq.{Submitted, push_mx_command-Submitted}
use mxdriver.V2.Admin.{
  AdminCommand, Admin, Proto, Dma, create_io_cq, create_io_sq, command_of, sees,
  submit_sync_command, number, drain_pending_admin, drain_round, take_completion, look,
}
use mxdriver.V2.Admin.Safe.{IsSafe}
use mxdriver.V2.Admin.Answer.{Refused, Lost, Done, submit_sync_command-Answer}
use mxdriver.V2.Admin.Live.{submit_sync_command-answered}
use mxdriver.V2.Admin.Drain.Ends.{drain_pending_admin-returns}
use mxdriver.V2.Admin.Create.{Setup, configure_io_queue}
use mxdriver.V2.Admin.Install.{Installed, configure_io_queue-Installed}

abbrev small : RingsV2 ℕ
small = record {
  sqes = λ i. 0;
  cqes = λ i. blank;
  depth = 2;
  last_sq_tail = 0;
  last_cq_head = 0;
  sq_tail = 0;
  sq_head = 0;
  cq_head = 0;
  cq_phase = 1;
  sq_db = 0;
  cq_db = 0;
}

abbrev answer : Completion
answer = record { result = 7; sq_head = 1; sq_id = 0; command_id = 3; status = 1 }

Traffic-is_popable_example :
    (if is_popable true (post (configure_queue 0 small) [] answer)
      then some (pop_mx_completion (post (configure_queue 0 small) [] answer)).0
      else none)
    ≡ next_of ([] ++ (answer ∷ []))
unfolding configure_queue
Traffic-is_popable_example =
    Traffic-is_popable (post (configure_queue 0 small) [] answer) ([] ++ (answer ∷ [])) (
      posted (configure_queue 0 small) [] answer (configured 0 small (omega arith)) (omega arith)
        refl)

push_mx_command-Submitted_example : Submitted (push_mx_command 9 small) ([] ++ (9 ∷ []))
unfolding is_pushable
push_mx_command-Submitted_example =
    push_mx_command-Submitted small [] 9
      (record { head_in = omega arith; fits = omega arith; tail_at = refl; entries = tt }) refl

-- The commands of the admin queue: `cid` in slot `head` of the ring.
abbrev slots : RingsV2 AdminCommand
slots = record {
  sqes = λ i. command_of create_io_cq 0 0;
  cqes = λ i. blank;
  depth = 4;
  last_sq_tail = 0;
  last_cq_head = 0;
  sq_tail = 0;
  sq_head = 0;
  cq_head = 0;
  cq_phase = 1;
  sq_db = 0;
  cq_db = 0;
}

abbrev idle : Admin
idle = record {
  rings = slots;
  wait_count = 0;
  next_cid = 0;
  pending_cid = 0;
  pending_opcode = create_io_cq;
  pending = false;
  desynced = false;
}

abbrev answered : ℕ → ℕ → Dma
answered cid result n i = record {
  result = result;
  sq_head = 0;
  sq_id = 0;
  command_id = cid;
  status = 1;
}

abbrev before : Proto
before = record {
  admin = idle;
  io = none;
  protocol_poisoned = false;
  queue_dma_programmed = true;
  reg_aqa = 196611;
  reg_asq = 65536;
  reg_acq = 131072;
}

before-IsSafe : IsSafe before
before-IsSafe = record {
  waits = refl;
  stuck = refl;
  poisoned = refl;
  allowed = refl;
  in_order = refl;
}

submit_sync_command-Answer_example :
    Refused before (submit_sync_command (answered 1 5) (command_of create_io_cq 0 0) before)
    ⊎ Lost
        (command_of create_io_cq 0 0)
        before
        (submit_sync_command (answered 1 5) (command_of create_io_cq 0 0) before)
    ⊎ Done
        (answered 1 5)
        (command_of create_io_cq 0 0)
        before
        (submit_sync_command (answered 1 5) (command_of create_io_cq 0 0) before)
submit_sync_command-Answer_example =
    submit_sync_command-Answer (answered 1 5) (command_of create_io_cq 0 0) before

-- A device that has a completion ring, and may be about to create the submission ring.
abbrev unsure : Proto
unsure = record {
  admin = record idle {
    wait_count = 1;
    next_cid = 2;
    pending_cid = 2;
    pending_opcode = create_io_sq;
    pending = true;
    desynced = true;
  };
  io = some (record {
    hw_cq_created = true;
    hw_sq_created = false;
    hw_cq_id = 5;
    hw_sq_id = 0;
    db = none;
  });
  protocol_poisoned = true;
  queue_dma_programmed = true;
  reg_aqa = 196611;
  reg_asq = 65536;
  reg_acq = 131072;
}

abbrev setup : Setup
setup = record {
  allocated = true;
  storage = none;
  started = none;
  cq_dma_addr = 8192;
  sq_dma_addr = 4096;
  reg_dbs = 4096;
  bar_mapped_size = 65536;
  at_create_cq = answered 1 5;
  at_create_sq = answered 2 5;
  at_delete_sq = answered 3 0;
  at_delete_cq = answered 4 0;
}

configure_io_queue-Installed_example : Installed setup (configure_io_queue setup before)
configure_io_queue-Installed_example =
    configure_io_queue-Installed setup before before-IsSafe refl refl

-- Answered at the first of the looks.
submit_sync_command-answered_example :
    (submit_sync_command (answered 1 5) (command_of create_io_cq 0 0) before).0 ≡ some 5
unfolding is_pushable number
submit_sync_command-answered_example =
    submit_sync_command-answered (answered 1 5) 499 (command_of create_io_cq 0 0) before refl refl
      (omega arith) (λ m x y. ground (arith, x, y)) refl refl

drain_pending_admin-returns_example :
    (drain_pending_admin (sees (answered 1 5 0) ∷ sees (λ i. answered 2 5 0 i) ∷ []) unsure).0
    ≡ returned none
unfolding drain_round take_completion look pop_mx_completion is_popable ring_cq_doorbell
drain_pending_admin-returns_example =
    drain_pending_admin-returns (sees (answered 1 5 0) ∷ sees (λ i. answered 2 5 0 i) ∷ []) unsure
      (record { waits = refl; stuck = refl; poisoned = refl; allowed = refl; in_order = refl }) refl
      refl
