-- ===== src/V2/Admin/Drain.antt =====
-- drain_pending_admin: what holds while the driver waits for the command that is pending, and what
-- recover_mx_queue makes of it.
pub mod Ends
use mxdriver.Common.{
  Outcome, waiting, returned, ℕ, ◌≡◌, refl, sym, ap, subst, ◌∙◌, arith, true, false, not, ◌&&◌,
  ◌||◌, if◌then◌else◌, none, some, List, [], ◌∷◌, if_cases, to_nat, ◌==◌, eio,
}
use mxdriver.V2.{Completion, is_popable}
use mxdriver.V2.Admin.{
  Admin, Proto, Dma, look, take_completion, is_busy, Look, gone, sees, drain_round, drain_loop,
  drain_pending_admin, disable_admin_queue, settle,
}
use mxdriver.V2.Admin.Safe.{
  IsSafe, SameBooks, SameBooks-look, SameBooks-take, SameBooks-trans, record_admin_terminal-ordered,
  ordered, allows,
}
use mxdriver.V2.Admin.Recover.{tear_down, recover_drained, recover_mx_queue}
use mxdriver.V2.Admin.Retire.{
  Retired, tear_down-Down, disabled-IsSafe, poisoning-IsSafe, Down-Retired,
}

-- Between the rounds: the queue may have got its completion and not yet be in step again.
record Draining (p : Proto) : Type 0 where
  waits : p.admin.wait_count ≡ to_nat p.admin.pending
  stuck : (not p.admin.pending || p.admin.desynced) ≡ true
  poisoned : (not p.admin.pending || p.protocol_poisoned) ≡ true
  allowed : (not p.admin.pending || allows p.admin.pending_opcode p.io) ≡ true
  in_order : ordered p.io ≡ true

IsSafe-Draining : (p : Proto) → IsSafe p → Draining p
IsSafe-Draining p s = record {
  waits = s.waits;
  stuck = subst (λ b. (not p.admin.pending || b) ≡ true) (sym s.stuck) (ground arith);
  poisoned = s.poisoned;
  allowed = s.allowed;
  in_order = s.in_order;
}

Draining-IsSafe : (p : Proto) → p.admin.pending ≡ true → Draining p → IsSafe p
Draining-IsSafe p e d = record {
  waits = d.waits;
  stuck = let z = d.stuck in (rw e at z) ∙ sym e;
  poisoned = d.poisoned;
  allowed = d.allowed;
  in_order = d.in_order;
}

-- The end of the loop.
in_step : Proto → Proto
in_step p = record p { admin = record p.admin { desynced = false } }

in_step-IsSafe : (p : Proto) → p.admin.pending ≡ false → Draining p → IsSafe (in_step p)
unfolding in_step
in_step-IsSafe p e d = record {
  waits = d.waits;
  stuck = sym e;
  poisoned = d.poisoned;
  allowed = d.allowed;
  in_order = d.in_order;
}

settle-Draining :
    (a : Admin) (result : ℕ) (p : Proto)
    → SameBooks a p.admin
    → p.admin.pending ≡ true
    → Draining p
    → Draining (settle p.admin.pending_opcode result a p)
unfolding settle
settle-Draining a result p b e d = record {
  waits = let z = b.same_waits ∙ d.waits ∙ ap to_nat e in omega (arith, z);
  stuck = refl;
  poisoned = refl;
  allowed = refl;
  in_order =
      let l = d.allowed in
      record_admin_terminal-ordered p.admin.pending_opcode result p.io (rw e at l) d.in_order;
}

rings-Draining :
    (a : Admin) (p : Proto) → SameBooks a p.admin → Draining p → Draining (record p { admin = a })
rings-Draining a p b d = record {
  waits = b.same_waits ∙ d.waits ∙ ap to_nat (sym b.same_pending);
  stuck = rw (b.same_pending, b.same_desynced) d.stuck;
  poisoned = rw b.same_pending d.poisoned;
  allowed = rw (b.same_pending, b.same_opcode) d.allowed;
  in_order = d.in_order;
}

drain_round-Draining :
    (cqes : ℕ → Completion) (p : Proto)
    → p.admin.pending ≡ true
    → Draining p
    → Draining (drain_round cqes p)
unfolding drain_round
drain_round-Draining cqes p e d =
    let seen = look cqes p.admin in
    let taken = (take_completion seen).1 in
    let cmpl = (take_completion seen).0 in
    let s = SameBooks-look cqes p.admin in
    let t = SameBooks-trans taken seen p.admin (SameBooks-take seen) s in
    if_cases Draining (is_popable (is_busy seen) seen.rings) _ _
      (λ _.
        if_cases Draining (cmpl.command_id == p.admin.pending_cid) _ _
          (λ _. settle-Draining taken cmpl.result p t e d) (λ _. rings-Draining taken p t d))
      (λ _. rings-Draining seen p s d)

-- What the loop leaves.
record Drained (r : Outcome × Proto) : Type 0 where
  safe : IsSafe r.1
  at_rest : r.0 ≡ returned none → r.1.admin.pending ≡ false

drain_loop-Drained : (looks : List Look) (p : Proto) → Draining p → Drained (drain_loop looks p)
unfolding drain_loop in_step
drain_loop-Drained [] p d =
    if_cases Drained p.admin.pending _ _
      (λ e. record { safe = Draining-IsSafe p e d; at_rest = λ z. cc })
      (λ e. record { safe = in_step-IsSafe p e d; at_rest = λ z. e })
drain_loop-Drained (gone ∷ looks) p d =
    if_cases Drained p.admin.pending _ _
      (λ e. record { safe = Draining-IsSafe p e d; at_rest = λ z. cc })
      (λ e. record { safe = in_step-IsSafe p e d; at_rest = λ z. e })
drain_loop-Drained (sees cqes ∷ looks) p d =
    if_cases Drained p.admin.pending _ _
      (λ e. drain_loop-Drained looks (drain_round cqes p) (drain_round-Draining cqes p e d))
      (λ e. record { safe = in_step-IsSafe p e d; at_rest = λ z. e })

drain_pending_admin-Drained :
    (looks : List Look) (p : Proto) → IsSafe p → Drained (drain_pending_admin looks p)
unfolding drain_pending_admin
drain_pending_admin-Drained looks p s =
    if_cases Drained (p.admin.desynced && not p.admin.pending) _ _
      (λ _. record { safe = s; at_rest = λ z. cc })
      (λ _. drain_loop-Drained looks p (IsSafe-Draining p s))

-- What recover_mx_queue leaves.
pub record Recovered (r : Outcome × Proto) : Type 0 where
  pub safe : IsSafe r.1
  pub down : r.0 ≡ returned none → Retired r.1
  pub sound : r.0 ≡ returned none → r.1.protocol_poisoned ≡ false

torn_down :
    (dma_sq dma_cq : Dma) (p : Proto)
    → IsSafe p
    → p.admin.pending ≡ false
    → p.protocol_poisoned ≡ false
    → Recovered (
        let (ok, q) = tear_down dma_sq dma_cq p in
        if ok
        then (returned none, disable_admin_queue q)
        else (returned (some eio), record q { protocol_poisoned = true }))
unfolding disable_admin_queue
torn_down dma_sq dma_cq p s n c =
    let d = tear_down-Down dma_sq dma_cq p s in
    if_cases Recovered (tear_down dma_sq dma_cq p).0 _ _
      (λ e. record {
        safe = disabled-IsSafe (tear_down dma_sq dma_cq p).1 d.safe;
        down = λ _. Down-Retired p (tear_down dma_sq dma_cq p) d n e;
        sound = λ _. d.same_poison e ∙ c;
      })
      (λ e. record {
        safe = poisoning-IsSafe (tear_down dma_sq dma_cq p).1 true (ground arith) d.safe;
        down = λ z. cc;
        sound = λ z. cc;
      })

recover_drained-Recovered :
    (dma_sq dma_cq : Dma) (r : Outcome × Proto)
    → Drained r
    → Recovered (recover_drained dma_sq dma_cq r)
unfolding recover_drained
recover_drained-Recovered dma_sq dma_cq (waiting, p) d = record {
  safe = d.safe;
  down = λ z. cc;
  sound = λ z. cc;
}
recover_drained-Recovered dma_sq dma_cq (returned (some e), p) d = record {
  safe = d.safe;
  down = λ z. cc;
  sound = λ z. cc;
}
recover_drained-Recovered dma_sq dma_cq (returned none, p) d =
    let n = d.at_rest refl in
    torn_down dma_sq dma_cq (record p { protocol_poisoned = false })
      (poisoning-IsSafe p false (ap (λ b. not b || false) n) d.safe) n refl

pub recover_mx_queue-Recovered :
    (looks : List Look) (dma_sq dma_cq : Dma) (p : Proto)
    → IsSafe p
    → Recovered (recover_mx_queue looks dma_sq dma_cq p)
unfolding recover_mx_queue
recover_mx_queue-Recovered looks dma_sq dma_cq p s =
    recover_drained-Recovered dma_sq dma_cq (drain_pending_admin looks p)
      (drain_pending_admin-Drained looks p s)
