-- ===== src/Teardown/Rings.antt =====
-- The queues of version 2 under the teardown.
pub mod Laws
pub mod Unbind
use mxdriver.Common.{
  ◌≡◌, refl, sym, ap, subst, ◌∙◌, arith, Bool, true, false, not, ◌&&◌, ◌||◌, if◌then◌else◌,
  Bool-cases, Option, none, some, ◌⊎◌, inl, inr, List, [], ◌∷◌, Ret, eio, Outcome, waiting,
  returned, if_cases, ℕ, ◌==◌, ltb,
}
use mxdriver.V2.{Completion, is_popable}
use mxdriver.V2.Admin.{
  AdminOpcode, HwQueue, record_admin_terminal, Proto, Dma, AdminCommand, Look, gone, sees, look,
  take_completion, is_busy, settle, submit_sync_command, delete_sq, delete_cq, drain_round,
  drain_loop, drain_pending_admin, disable_admin_queue,
}
use mxdriver.V2.Admin.Safe.{IsSafe}
use mxdriver.V2.Admin.Answer.{submit_sync_command-Answer}
use mxdriver.V2.Admin.Recover.{
  has_cq, has_sq, has_io, delete_created_sq, delete_created_cq, tear_down, recover_drained,
  recover_mx_queue, release_io_queue,
}
use mxdriver.V2.Admin.Retire.{Retired, tear_down-Down, disabled-IsSafe, release_io_queue-Retired}
use mxdriver.V2.Admin.Drain.{Recovered, recover_mx_queue-Recovered}
use mxdriver.Teardown.{QueueOps}
use mxdriver.Teardown.Stop.{QueueLaws}

-- What a recovery or a release meets.
pub record Meets : Type 0 where
  pub looks : List Look
  pub at_sq : Dma
  pub at_cq : Dma

-- register_mx_ops_v2.
abbrev pub ops_v2 : QueueOps Proto Meets
ops_v2 = record {
  poisoned = λ p. p.protocol_poisoned;
  poison = λ p. record p { protocol_poisoned = true };
  programmed = λ p. p.queue_dma_programmed;
  recover_queue = some (λ m p. recover_mx_queue m.looks m.at_sq m.at_cq p);
  release_queue = λ m p. release_io_queue m.at_sq m.at_cq p;
}

-- The addresses of the rings stay with the device, and the io queue with the driver, until the end
-- of a recovery or a release.
record Frame (p q : Proto) : Type 0 where
  same_programmed : q.queue_dma_programmed ≡ p.queue_dma_programmed
  same_has_io : has_io q.io ≡ has_io p.io

Frame-refl : (p : Proto) → Frame p p
Frame-refl p = record { same_programmed = refl; same_has_io = refl }

Frame-trans : (p q r : Proto) → Frame p q → Frame q r → Frame p r
Frame-trans p q r a b = record {
  same_programmed = b.same_programmed ∙ a.same_programmed;
  same_has_io = b.same_has_io ∙ a.same_has_io;
}

noted_has_io :
    (opcode : AdminOpcode) (result : ℕ) (io : Option HwQueue)
    → has_io (record_admin_terminal opcode result io) ≡ has_io io
unfolding record_admin_terminal
noted_has_io opcode result none = refl
noted_has_io opcode result (some io) = refl

submit-Frame : (dma : Dma) (c : AdminCommand) (p : Proto) → Frame p (submit_sync_command dma c p).1
submit-Frame dma c p = elim (submit_sync_command-Answer dma c p) [
  | inl r ↦ record { same_programmed = r.same_programmed; same_has_io = ap has_io r.same_io }
  | inr (inl l) ↦ record { same_programmed = l.same_programmed; same_has_io = ap has_io l.same_io }
  | inr (inr d) ↦ record {
    same_programmed = d.same_programmed;
    same_has_io = ap has_io d.noted ∙ noted_has_io c.opcode d.result p.io;
  }
]

sq-Frame : (dma : Dma) (p : Proto) → Frame p (delete_created_sq dma p).1
unfolding delete_created_sq delete_sq
sq-Frame dma p =
    if_cases {A = Bool × Proto} (λ r. Frame p r.1) (has_sq p.io) _ _ (λ _. submit-Frame dma _ p)
      (λ _. Frame-refl p)

cq-Frame : (dma : Dma) (p : Proto) → Frame p (delete_created_cq dma p).1
unfolding delete_created_cq delete_cq
cq-Frame dma p =
    if_cases {A = Bool × Proto} (λ r. Frame p r.1) (has_cq p.io) _ _ (λ _. submit-Frame dma _ p)
      (λ _. Frame-refl p)

tear_down-Frame : (a b : Dma) (p : Proto) → Frame p (tear_down a b p).1
unfolding tear_down
tear_down-Frame a b p =
    let q = (delete_created_sq a p).1 in
    if_cases {A = Bool × Proto} (λ r. Frame p r.1) (delete_created_sq a p).0 _ _
      (λ _. Frame-trans p q (delete_created_cq b q).1 (sq-Frame a p) (cq-Frame b q))
      (λ _. sq-Frame a p)

round-Frame : (cqes : ℕ → Completion) (p : Proto) → Frame p (drain_round cqes p)
unfolding drain_round settle
round-Frame cqes p =
    let seen = look cqes p.admin in
    let cmpl = (take_completion seen).0 in
    if_cases (Frame p) (is_popable (is_busy seen) seen.rings) _ _
      (λ _.
        if_cases (Frame p) (cmpl.command_id == p.admin.pending_cid) _ _
          (λ _. record {
            same_programmed = refl;
            same_has_io = noted_has_io p.admin.pending_opcode cmpl.result p.io;
          })
          (λ _. record { same_programmed = refl; same_has_io = refl }))
      (λ _. record { same_programmed = refl; same_has_io = refl })

loop-Frame : (looks : List Look) (p : Proto) → Frame p (drain_loop looks p).1
unfolding drain_loop
loop-Frame [] p =
    if_cases {A = Outcome × Proto} (λ r. Frame p r.1) p.admin.pending _ _ (λ _. Frame-refl p)
      (λ _. record { same_programmed = refl; same_has_io = refl })
loop-Frame (gone ∷ looks) p =
    if_cases {A = Outcome × Proto} (λ r. Frame p r.1) p.admin.pending _ _ (λ _. Frame-refl p)
      (λ _. record { same_programmed = refl; same_has_io = refl })
loop-Frame (sees cqes ∷ looks) p =
    let q = drain_round cqes p in
    if_cases {A = Outcome × Proto} (λ r. Frame p r.1) p.admin.pending _ _
      (λ _. Frame-trans p q (drain_loop looks q).1 (round-Frame cqes p) (loop-Frame looks q))
      (λ _. record { same_programmed = refl; same_has_io = refl })

drain-Frame : (looks : List Look) (p : Proto) → Frame p (drain_pending_admin looks p).1
unfolding drain_pending_admin
drain-Frame looks p =
    if_cases {A = Outcome × Proto} (λ r. Frame p r.1) (p.admin.desynced && not p.admin.pending) _ _
      (λ _. Frame-refl p) (λ _. loop-Frame looks p)
