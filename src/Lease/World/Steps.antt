-- ===== src/Lease/World/Steps.antt =====
-- Soundness of the whole device across the steps.
use mxdriver.Common.{
  ℕ, ◌≡◌, refl, ap, Bool, true, Option, none, some, List, [], ◌∷◌, ◌++◌, arith, get_elem?,
  Option-cases, inl, inr,
}
use mxdriver.Lease.Sm.Tally.{Tally, tally, plus, weigh}
use mxdriver.Lease.Sm.Account.{IsProper}
use mxdriver.Lease.Device.{DeviceLease, FileCtx}
use mxdriver.Lease.Acquire.Laws.{IsAnchored, IsSound, acquire_locked-IsSound, acquire_undo-IsSound}
use mxdriver.Lease.Transition.{TransitionPending, TransitionRequest}
use mxdriver.Lease.Transition.Laws.{
  Undoable, transition_locked-IsSound, transition_locked-Undoable, transition_undo-IsSound,
}
use mxdriver.Lease.SlotDomain.Laws.{domain_locked-IsSound, domain_undo-IsSound}
use mxdriver.Lease.Proofs.{ProofsRequest, BindPending, bind_locked, bind_undo}
use mxdriver.Lease.Proofs.Laws.{bind_locked_frame}
use mxdriver.Lease.Unbind.{UnbindPending, unbind_locked, unbind_undo}
use mxdriver.Lease.Context.{
  Transfer, mx_lease_transfer_get, mx_lease_direct_end, mx_file_ctx_get, mx_lease_mark_removed,
}
use mxdriver.Lease.Context.Laws.{direct_begin-IsSound, ctx_put-IsSound, transfer_put-IsSound}
use mxdriver.Lease.World.{
  World, Step, opens, acquires, acquire_faults, transitions, transition_faults, anchors_domain,
  anchor_domain_faults, binds, bind_faults, unbinds, unbind_faults, begins_direct, ends_direct,
  gets_transfer, puts_transfer, gets_ctx, puts_ctx, marks_removed, initial, opened, at, step, run,
  keep, published, undo_pending,
}
use mxdriver.Lease.World.Sound.{
  All, All-get_elem?, holders, IsSoundWorld, IsSound-at, at-IsSoundWorld,
}

-- A section that leaves the lease and the descriptor's holder alone.
frame-IsSound :
    (lease : DeviceLease) (ctx ctx' : FileCtx) (r : Tally)
    → ctx'.lease ≡ ctx.lease
    → IsSound lease ctx r
    → IsSound lease ctx' r
frame-IsSound lease ctx ctx' r e i = record { keeps = rw e i.keeps; anchored = i.anchored }

removed-IsAnchored :
    (lease : DeviceLease) → IsAnchored lease → IsAnchored (record lease { removed = true })
removed-IsAnchored lease i = ground arith

bind_undo_frame : (ctx : FileCtx) (p : BindPending) → (bind_undo ctx p).lease ≡ ctx.lease
unfolding bind_undo
bind_undo_frame ctx p = ground arith

unbind_locked_frame :
    (lease : DeviceLease) (ctx : FileCtx) (req : ProofsRequest)
    → ((unbind_locked lease ctx req).lease ≡ lease)
      × ((unbind_locked lease ctx req).ctx.lease ≡ ctx.lease)
unfolding unbind_locked
unbind_locked_frame lease ctx req = ground arith

unbind_undo_frame : (ctx : FileCtx) (p : UnbindPending) → (unbind_undo ctx p).lease ≡ ctx.lease
unfolding unbind_undo
unbind_undo_frame ctx p = ground arith

transfer_get_frame :
    (lease : DeviceLease) (ctx : FileCtx) (t : Transfer)
    → (mx_lease_transfer_get lease ctx t).1.lease ≡ ctx.lease
unfolding mx_lease_transfer_get
transfer_get_frame lease ctx t = ground arith

direct_end_frame : (ctx : FileCtx) → (mx_lease_direct_end ctx).lease ≡ ctx.lease
unfolding mx_lease_direct_end
direct_end_frame ctx = ground arith

tally-opened :
    (cs : List FileCtx) (node : Bool)
    → tally (holders (cs ++ opened node ∷ [])) ≡ tally (holders cs)
unfolding tally
tally-opened [] node = refl
tally-opened (c ∷ cs) node = ap (plus (weigh c.lease)) (tally-opened cs node)

proper-opened :
    (cs : List FileCtx) (node : Bool)
    → All IsProper (holders cs)
    → All IsProper (holders (cs ++ opened node ∷ []))
proper-opened [] node a = (refl, tt)
proper-opened (c ∷ cs) node a = (a.0, proper-opened cs node a.1)

at-steps :
    (w : World) (i : ℕ) (f : DeviceLease → FileCtx → DeviceLease × FileCtx)
    → ((lease : DeviceLease) (ctx : FileCtx) → (f lease ctx).0 ≡ lease)
    → ((lease : DeviceLease) (ctx : FileCtx) → (f lease ctx).1.lease ≡ ctx.lease)
    → IsSoundWorld w
    → IsSoundWorld (at w i f)
at-steps w i f l c s =
    at-IsSoundWorld w i f
      (λ lease ctx r k.
        rw (l lease ctx) (frame-IsSound lease ctx (f lease ctx).1 r (c lease ctx) k))
      s

keep-Undoable :
    (ps : List TransitionPending) (o : Option TransitionPending)
    → All Undoable ps
    → ((p : TransitionPending) → o ≡ some p → Undoable p)
    → All Undoable (keep ps o)
keep-Undoable ps none a f = a
keep-Undoable ps (some p) a f = (f p refl, a)

published-Undoable :
    (w : World) (i : ℕ) (req : TransitionRequest)
    → IsSoundWorld w
    → (p : TransitionPending) → published w i req ≡ some p
    → Undoable p
unfolding published
published-Undoable w i req s p q = elim (Option-cases (get_elem? w.ctxs i)) [
  | inl e ↦ absurd (cc (rw (e, published) at q))
  | inr (c, e) ↦
      transition_locked-Undoable w.lease c req _ (IsSound-at w i c s e) p (rw (e, published) at q)
]

undo_pending-IsSoundWorld :
    (w : World) (i : ℕ) (o : Option TransitionPending)
    → ((p : TransitionPending) → o ≡ some p → Undoable p)
    → IsSoundWorld w
    → IsSoundWorld (undo_pending w i o)
unfolding undo_pending
undo_pending-IsSoundWorld w i none f s = s
undo_pending-IsSoundWorld w i (some p) f s =
    at-IsSoundWorld w i _ (λ lease ctx r k. transition_undo-IsSound lease ctx p r (f p refl) k) s

transitions-IsSoundWorld :
    (w : World) (i : ℕ) (req : TransitionRequest)
    → IsSoundWorld w
    → IsSoundWorld (step w (transitions i req))
unfolding step
transitions-IsSoundWorld w i req s =
    let t =
      at-IsSoundWorld w i _ (λ lease ctx r k. transition_locked-IsSound lease ctx req r k) s in
    record {
      proper = t.proper;
      counted = t.counted;
      anchored = t.anchored;
      undoable = keep-Undoable w.pending _ s.undoable (published-Undoable w i req s);
    }

-- One step, of any kind and on any descriptor, keeps the whole device sound.
pub step-IsSoundWorld : (w : World) (s : Step) → IsSoundWorld w → IsSoundWorld (step w s)
unfolding step mx_file_ctx_get mx_lease_mark_removed
step-IsSoundWorld w (opens node) s = record {
  proper = proper-opened w.ctxs node s.proper;
  counted = rw (tally-opened w.ctxs node) s.counted;
  anchored = s.anchored;
  undoable = s.undoable;
}
step-IsSoundWorld w (acquires i req file) s =
    at-IsSoundWorld w i _ (λ lease ctx r k. acquire_locked-IsSound lease ctx req file r k) s
step-IsSoundWorld w (acquire_faults i file p) s =
    at-IsSoundWorld w i _ (λ lease ctx r k. acquire_undo-IsSound lease ctx file p r k) s
step-IsSoundWorld w (transitions i req) s = transitions-IsSoundWorld w i req s
step-IsSoundWorld w (transition_faults i k) s =
    undo_pending-IsSoundWorld w i _ (λ p e. All-get_elem? Undoable w.pending k p s.undoable e) s
step-IsSoundWorld w (anchors_domain vfs i req file) s =
    at-IsSoundWorld w i _ (λ lease ctx r k. domain_locked-IsSound vfs lease ctx req file r k) s
step-IsSoundWorld w (anchor_domain_faults i file p) s =
    at-IsSoundWorld w i _ (λ lease ctx r k. domain_undo-IsSound lease ctx file p r k) s
step-IsSoundWorld w (binds vfs i req files) s =
    at-steps w i (λ lease ctx. let b = bind_locked vfs lease ctx req files in (b.lease, b.ctx))
      (λ lease ctx. (bind_locked_frame vfs lease ctx req files).0)
      (λ lease ctx. (bind_locked_frame vfs lease ctx req files).1) s
step-IsSoundWorld w (bind_faults i p) s =
    at-steps w i (λ lease ctx. (lease, bind_undo ctx p)) (λ lease ctx. refl)
      (λ lease ctx. bind_undo_frame ctx p) s
step-IsSoundWorld w (unbinds i req) s =
    at-steps w i (λ lease ctx. let b = unbind_locked lease ctx req in (b.lease, b.ctx))
      (λ lease ctx. (unbind_locked_frame lease ctx req).0)
      (λ lease ctx. (unbind_locked_frame lease ctx req).1) s
step-IsSoundWorld w (unbind_faults i p) s =
    at-steps w i (λ lease ctx. (lease, unbind_undo ctx p)) (λ lease ctx. refl)
      (λ lease ctx. unbind_undo_frame ctx p) s
step-IsSoundWorld w (begins_direct i) s =
    at-IsSoundWorld w i _ (λ lease ctx r k. direct_begin-IsSound lease ctx r k) s
step-IsSoundWorld w (ends_direct i) s =
    at-steps w i (λ lease ctx. (lease, mx_lease_direct_end ctx)) (λ lease ctx. refl)
      (λ lease ctx. direct_end_frame ctx) s
step-IsSoundWorld w (gets_transfer i t) s =
    at-steps w i (λ lease ctx. (lease, (mx_lease_transfer_get lease ctx t).1)) (λ lease ctx. refl)
      (λ lease ctx. transfer_get_frame lease ctx t) s
step-IsSoundWorld w (puts_transfer i t) s =
    at-IsSoundWorld w i _ (λ lease ctx r k. transfer_put-IsSound lease ctx t r k) s
step-IsSoundWorld w (gets_ctx i) s =
    at-steps w i (λ lease ctx. (lease, mx_file_ctx_get ctx)) (λ lease ctx. refl) (λ lease ctx. refl)
      s
step-IsSoundWorld w (puts_ctx i) s =
    at-IsSoundWorld w i _ (λ lease ctx r k. ctx_put-IsSound lease ctx r k) s
step-IsSoundWorld w marks_removed s = record {
  proper = s.proper;
  counted = s.counted;
  anchored = removed-IsAnchored w.lease s.anchored;
  undoable = s.undoable;
}

run-IsSoundWorld : (w : World) (ss : List Step) → IsSoundWorld w → IsSoundWorld (run w ss)
unfolding run
run-IsSoundWorld w [] s = s
run-IsSoundWorld w (x ∷ ss) s = run-IsSoundWorld (step w x) ss (step-IsSoundWorld w x s)

initial-IsSoundWorld : (incarnation : ℕ) → IsSoundWorld (initial incarnation)
unfolding tally
initial-IsSoundWorld n = record {
  proper = tt;
  counted = ground arith;
  anchored = ground arith;
  undoable = tt;
}

-- After any sequence of locked sections of lease.c on any descriptors of a freshly initialised
-- device, undos of faulted calls included, the device is sound: the counters of the state machine
-- are those of the open descriptors, one family holds the device, at most one descriptor
-- publishes, quiescence and legacy use exclude all others, the state anchor is consistent, and
-- every transition that was ever published can be undone from what its call kept.
pub run-initial-IsSoundWorld :
    (incarnation : ℕ) (ss : List Step) → IsSoundWorld (run (initial incarnation) ss)
run-initial-IsSoundWorld n ss = run-IsSoundWorld _ ss (initial-IsSoundWorld n)
