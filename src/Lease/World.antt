-- ===== src/Lease/World.antt =====
-- A device with all its open descriptors, and the locked sections of lease.c as steps on it. Each
-- section runs whole under the lease's mutex; what different threads do, the undo of a call whose
-- reply could not be copied out included, is a sequence of such steps in any order.
pub mod Sound
pub mod Steps
pub mod Exclusion
use mxdriver.Common.{
  ℕ, zero, suc, ◌≡◌, Bool, true, false, Option, none, some, Ret, List, [], ◌∷◌, ◌++◌, get_elem?,
  set,
}
use mxdriver.Lease.Uapi.{Profile, no_profile, Phase, no_phase, no_family}
use mxdriver.Lease.Sm.{Sm, Holder}
use mxdriver.Lease.Device.{File, DeviceLease, FileCtx}
use mxdriver.Lease.Vfs.{Vfs}
use mxdriver.Lease.Acquire.{AcquireRequest, AcquirePending, Section, acquire_locked, acquire_undo}
use mxdriver.Lease.Transition.{
  TransitionRequest, TransitionPending, transition_locked, transition_undo,
}
use mxdriver.Lease.SlotDomain.{SlotDomainRequest, SlotDomainPending, domain_locked, domain_undo}
use mxdriver.Lease.Proofs.{ProofsRequest, ProofFiles, BindPending, bind_locked, bind_undo}
use mxdriver.Lease.Unbind.{UnbindPending, unbind_locked, unbind_undo}
use mxdriver.Lease.Context.{
  Transfer, mx_lease_direct_begin, mx_lease_direct_end, mx_lease_transfer_get,
  mx_lease_transfer_put, mx_file_ctx_get, mx_file_ctx_put, mx_lease_mark_removed,
}

-- `pending` is what the calls of mx_lease_transition keep in their locals while the lock is free.
pub record World : Type 0 where
  pub lease : DeviceLease
  pub ctxs : List FileCtx
  pub pending : List TransitionPending

abbrev pub free_holder : Holder
free_holder = record { profile = no_profile; phase = no_phase; legacy = false }

-- What mxdma_device_open allocates.
abbrev pub opened : Bool → FileCtx
opened on_ioctl_node = record {
  live = true;
  on_ioctl_node = on_ioctl_node;
  refs = 1;
  lease = free_holder;
  slot_source_file = none;
  slot_proof_file = none;
  lifetime_source_file = none;
  lifetime_proof_file = none;
  proof_lifetime_tag = 0;
  proof_slot = 0;
  transfer_count = 0;
  direct_count = 0;
  bar_mapping_count = 0;
  proofs_ever_bound = false;
}

-- A zeroed `struct mx_device_lease` after mx_lease_init, which draws the incarnation.
abbrev pub initial : ℕ → World
initial incarnation = record {
  lease = record {
    state = record {
      family = no_family;
      family_holders = 0;
      publishers = 0;
      workloads = 0;
      legacy_holders = 0;
      quiescent = false;
      coordinator_ready = false;
    };
    state_path_valid = false;
    state_inode = none;
    slot_domain_path_valid = false;
    slot_domain_inode = none;
    state_identity_lo = 0;
    state_identity_hi = 0;
    state_family = no_family;
    device_incarnation = incarnation;
    generation_counter = 0;
    generation = 0;
    removed = false;
  };
  ctxs = [];
  pending = [];
}

-- A section on the descriptor `i`; the number of a descriptor that is not there does nothing.
unfoldable pub at : World → ℕ → (DeviceLease → FileCtx → DeviceLease × FileCtx) → World
at w i f = elim (get_elem? w.ctxs i) [
  | none ↦ w
  | some ctx ↦
      let (lease, ctx') = f w.lease ctx in record w { lease = lease; ctxs = set w.ctxs i ctx' }
]

abbrev pub keep : List TransitionPending → Option TransitionPending → List TransitionPending
keep ps none = ps
keep ps (some p) = p ∷ ps

-- What the transition on descriptor `i` leaves pending.
pub published : World → ℕ → TransitionRequest → Option TransitionPending
published w i req = elim (get_elem? w.ctxs i) [
  | none ↦ none
  | some ctx ↦ (transition_locked w.lease ctx req).published
]

-- A locked section, with the number of its descriptor. The faults are the sections that undo a
-- call; a transition's is undone from what some call left pending.
pub data Step : Type 0 where
  opens : Bool → Step
  acquires : ℕ → AcquireRequest → File → Step
  acquire_faults : ℕ → File → AcquirePending → Step
  transitions : ℕ → TransitionRequest → Step
  transition_faults : ℕ → ℕ → Step
  anchors_domain : Vfs → ℕ → SlotDomainRequest → File → Step
  anchor_domain_faults : ℕ → File → SlotDomainPending → Step
  binds : Vfs → ℕ → ProofsRequest → ProofFiles → Step
  bind_faults : ℕ → BindPending → Step
  unbinds : ℕ → ProofsRequest → Step
  unbind_faults : ℕ → UnbindPending → Step
  begins_direct : ℕ → Step
  ends_direct : ℕ → Step
  gets_transfer : ℕ → Transfer → Step
  puts_transfer : ℕ → Transfer → Step
  gets_ctx : ℕ → Step
  puts_ctx : ℕ → Step
  marks_removed : Step

pub undo_pending : World → ℕ → Option TransitionPending → World
unfolding at
undo_pending w i none = w
undo_pending w i (some p) = at w i (λ lease ctx. transition_undo lease ctx p)

unfoldable pub step : World → Step → World
unfolding at undo_pending published
step w (opens node) = record w { ctxs = w.ctxs ++ opened node ∷ [] }
step w (acquires i req file) =
    at w i (λ lease ctx. let s = acquire_locked lease ctx req file in (s.lease, s.ctx))
step w (acquire_faults i file p) = at w i (λ lease ctx. acquire_undo lease ctx file p)
step w (transitions i req) =
    record (at w i (λ lease ctx. let s = transition_locked lease ctx req in (s.lease, s.ctx))) {
      pending = keep w.pending (published w i req);
    }
step w (transition_faults i k) = undo_pending w i (get_elem? w.pending k)
step w (anchors_domain vfs i req file) =
    at w i (λ lease ctx. let s = domain_locked vfs lease ctx req file in (s.lease, s.ctx))
step w (anchor_domain_faults i file p) = at w i (λ lease ctx. (domain_undo lease file p, ctx))
step w (binds vfs i req files) =
    at w i (λ lease ctx. let s = bind_locked vfs lease ctx req files in (s.lease, s.ctx))
step w (bind_faults i p) = at w i (λ lease ctx. (lease, bind_undo ctx p))
step w (unbinds i req) =
    at w i (λ lease ctx. let s = unbind_locked lease ctx req in (s.lease, s.ctx))
step w (unbind_faults i p) = at w i (λ lease ctx. (lease, unbind_undo ctx p))
step w (begins_direct i) =
    at w i (λ lease ctx. let s = mx_lease_direct_begin lease ctx in (s.1, s.2))
step w (ends_direct i) = at w i (λ lease ctx. (lease, mx_lease_direct_end ctx))
step w (gets_transfer i t) = at w i (λ lease ctx. (lease, (mx_lease_transfer_get lease ctx t).1))
step w (puts_transfer i t) =
    at w i (λ lease ctx. let s = mx_lease_transfer_put lease ctx t in (s.0, s.1))
step w (gets_ctx i) = at w i (λ lease ctx. (lease, mx_file_ctx_get ctx))
step w (puts_ctx i) = at w i (λ lease ctx. mx_file_ctx_put lease ctx)
step w marks_removed = record w { lease = mx_lease_mark_removed w.lease }

unfoldable pub run : World → List Step → World
run w [] = w
run w (s ∷ ss) = run (step w s) ss
