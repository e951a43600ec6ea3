-- ===== src/V2.antt =====
-- core_v2.c: the submission and completion rings of version 2. The entries of a completion ring
-- carry a phase bit, by which the driver tells a new one from one of the last round.
pub mod Cq
pub mod Traffic
pub mod Sq
pub mod Admin
mod Tests
use mxdriver.Common.{
  ℕ, ◌+◌, ◌-◌, ◌%◌, Bool, true, not, ◌&&◌, ◌||◌, ◌==◌, ltb, if◌then◌else◌, Option, none, some,
}

-- `struct mx_completion`.
pub record Completion : Type 0 where
  pub result : ℕ
  pub sq_head : ℕ
  pub sq_id : ℕ
  pub command_id : ℕ
  pub status : ℕ

-- `struct mx_queue_v2` with the rings: `A` are the commands. `sq_db` and `cq_db` are the doorbells
-- as last written.
pub record RingsV2 (A : Type 0) : Type 0 where
  pub sqes : ℕ → A
  pub cqes : ℕ → Completion
  pub depth : ℕ
  pub last_sq_tail : ℕ
  pub last_cq_head : ℕ
  pub sq_tail : ℕ
  pub sq_head : ℕ
  pub cq_head : ℕ
  pub cq_phase : ℕ
  pub sq_db : ℕ
  pub cq_db : ℕ

abbrev pub set {ℓ} : {A : Type ℓ} → (ℕ → A) → ℕ → A → ℕ → A
set f i a j = if j == i then a else f j

unfoldable pub is_pushable : {A : Type 0} → RingsV2 A → Bool
is_pushable q = not ((q.sq_tail + 1) % q.depth == q.sq_head)

-- `busy` is whether a command is waited for or a probe is in flight.
unfoldable pub is_popable : {A : Type 0} → Bool → RingsV2 A → Bool
is_popable busy q = busy && ((q.cqes q.cq_head).status % 2 == q.cq_phase)

unfoldable pub update_sq_doorbell : {A : Type 0} → RingsV2 A → RingsV2 A
update_sq_doorbell q =
    if q.sq_tail + 1 == q.depth
    then record q { sq_tail = 0 }
    else record q { sq_tail = q.sq_tail + 1 }

-- `^= 1` on a phase, which is 0 or 1.
abbrev pub flip : ℕ → ℕ
flip phase = 1 - phase

unfoldable pub update_cq_doorbell : {A : Type 0} → RingsV2 A → RingsV2 A
update_cq_doorbell q =
    if q.cq_head + 1 == q.depth
    then record q { cq_head = 0; cq_phase = flip q.cq_phase }
    else record q { cq_head = q.cq_head + 1 }

unfoldable pub push_mx_command : {A : Type 0} → A → RingsV2 A → RingsV2 A
unfolding update_sq_doorbell
push_mx_command comm q = update_sq_doorbell (record q { sqes = set q.sqes q.sq_tail comm })

unfoldable pub pop_mx_completion : {A : Type 0} → RingsV2 A → Completion × RingsV2 A
unfolding update_cq_doorbell
pop_mx_completion q =
    let cmpl = q.cqes q.cq_head in (cmpl, update_cq_doorbell (record q { sq_head = cmpl.sq_head }))

unfoldable pub ring_sq_doorbell : {A : Type 0} → RingsV2 A → RingsV2 A
ring_sq_doorbell q =
    if q.last_sq_tail == q.sq_tail
    then q
    else record q { sq_db = q.sq_tail; last_sq_tail = q.sq_tail }

unfoldable pub ring_cq_doorbell : {A : Type 0} → RingsV2 A → RingsV2 A
ring_cq_doorbell q =
    if q.last_cq_head == q.cq_head
    then q
    else record q { cq_db = q.cq_head; last_cq_head = q.cq_head }

-- configure_queue: the indices, and rings that are all 0.
abbrev pub blank : Completion
blank = record { result = 0; sq_head = 0; sq_id = 0; command_id = 0; status = 0 }

unfoldable pub configure_queue : {A : Type 0} → A → RingsV2 A → RingsV2 A
configure_queue zero_command q = record q {
  sqes = λ i. zero_command;
  cqes = λ i. blank;
  sq_tail = 0;
  sq_head = 0;
  cq_head = 0;
  cq_phase = 1;
}
