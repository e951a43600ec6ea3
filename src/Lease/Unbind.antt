-- ===== src/Lease/Unbind.antt =====
-- mx_lease_unbind_proofs and mx_lease_workload_proofs of lease.c.
pub mod Laws
use mxdriver.Common.{
  ℕ, ◌≡◌, Bool, true, false, not, ◌&&◌, ◌||◌, Option, none, some, Errno, Ret, ok, err, ◌==◌, ltb,
  nonzero, if◌then◌else◌, eperm, ebusy, efault, enodev, einval, estale,
}
use mxdriver.Lease.Uapi.{
  hub_workload, standalone_workload, coordinator_control, coordinator_workload, is_profile,
}
use mxdriver.Lease.Sm.{valid_lifetime_tag}
use mxdriver.Lease.Device.{
  File, Fget, DeviceLease, FileCtx, is_bound, is_minus_one, valid_header, holder_grants,
}
use mxdriver.Lease.Vfs.{Vfs}
use mxdriver.Lease.Acquire.{Section}
use mxdriver.Lease.Proofs.{
  ProofsRequest, ProofsReply, BindPending, proof_request_matches, bind_files, bind_locked,
  bind_undo,
}

unbind_guard : DeviceLease → FileCtx → ProofsRequest → Ret
unbind_guard lease ctx req =
    if not (proof_request_matches lease req)
    then (if lease.removed then some enodev else some estale)
    else if not (is_profile ctx.lease.profile hub_workload)
        && not (is_profile ctx.lease.profile standalone_workload)
        && not (is_profile ctx.lease.profile coordinator_control)
        && not (is_profile ctx.lease.profile coordinator_workload)
    then some eperm
    else if is_bound ctx.slot_proof_file && not (req.slot == ctx.proof_slot)
    then some estale
    else if not (is_bound ctx.slot_proof_file) && nonzero req.slot
    then some einval
    else if not (req.reserved0 == ctx.proof_lifetime_tag)
    then some estale
    else if nonzero ctx.bar_mapping_count || nonzero ctx.direct_count
    then some ebusy
    else none

-- What the call keeps in its locals while the lock is free: the files that it detached.
pub record UnbindPending : Type 0 where
  pub reply : ProofsReply
  pub slot_source : Option File
  pub slot_proof : Option File
  pub lifetime_source : Option File
  pub lifetime_proof : Option File
  pub old_tag : ℕ
  pub old_slot : ℕ

unfoldable pub detach : FileCtx → FileCtx
detach ctx = record ctx {
  slot_source_file = none;
  slot_proof_file = none;
  lifetime_source_file = none;
  lifetime_proof_file = none;
  proof_lifetime_tag = 0;
  proof_slot = 0;
}

pub unbind_pending : DeviceLease → FileCtx → UnbindPending
unbind_pending lease ctx = record {
  reply = record {
    grants = record (holder_grants lease ctx lease.state_path_valid) {
      slot_proof_bound = false;
      lifetime_proof_bound = false;
    };
    slot_dev = 0;
    slot_ino = 0;
    lifetime_dev = 0;
    lifetime_ino = 0;
  };
  slot_source = ctx.slot_source_file;
  slot_proof = ctx.slot_proof_file;
  lifetime_source = ctx.lifetime_source_file;
  lifetime_proof = ctx.lifetime_proof_file;
  old_tag = ctx.proof_lifetime_tag;
  old_slot = ctx.proof_slot;
}

unfoldable pub unbind_locked : DeviceLease → FileCtx → ProofsRequest → Section UnbindPending
unfolding unbind_guard detach unbind_pending
unbind_locked lease ctx req = elim (unbind_guard lease ctx req) [
  | some e ↦ record { ret = some e; lease = lease; ctx = ctx; published = none }
  | none ↦ record {
    ret = none;
    lease = lease;
    ctx = detach ctx;
    published = some (unbind_pending lease ctx);
  }
]

-- The second locked section: it puts the files back while the descriptor is still unbound.
unfoldable pub unbind_undo : FileCtx → UnbindPending → FileCtx
unbind_undo ctx p =
    if not (is_bound ctx.slot_source_file)
      && not (is_bound ctx.slot_proof_file)
      && not (is_bound ctx.lifetime_proof_file)
      && not (is_bound ctx.lifetime_source_file)
    then record ctx {
      slot_source_file = p.slot_source;
      slot_proof_file = p.slot_proof;
      lifetime_source_file = p.lifetime_source;
      lifetime_proof_file = p.lifetime_proof;
      proof_lifetime_tag = p.old_tag;
      proof_slot = p.old_slot;
    }
    else ctx

bind_finish :
    (DeviceLease × FileCtx → DeviceLease × FileCtx)
    → Bool
    → Section BindPending
    → Ret × DeviceLease × FileCtx
unfolding bind_undo
bind_finish meanwhile copied s = elim s.published [
  | none ↦ (s.ret, s.lease, s.ctx)
  | some p ↦
      let (lease, ctx) = meanwhile (s.lease, s.ctx) in
      if copied then (none, lease, ctx) else (some efault, lease, bind_undo ctx p)
]

unbind_finish :
    (DeviceLease × FileCtx → DeviceLease × FileCtx)
    → Bool
    → Section UnbindPending
    → Ret × DeviceLease × FileCtx
unfolding unbind_undo
unbind_finish meanwhile copied s = elim s.published [
  | none ↦ (s.ret, s.lease, s.ctx)
  | some p ↦
      let (lease, ctx) = meanwhile (s.lease, s.ctx) in
      if copied then (none, lease, ctx) else (some efault, lease, unbind_undo ctx p)
]

-- The checks of mx_lease_workload_proofs; MX_LEASE_PROOF_BIND is 1 and _UNBIND 2.
proofs_check : FileCtx → ProofsRequest → Ret
proofs_check ctx req =
    if not (valid_header req.header 128)
      || (req.operation == 0)
      || ltb 2 req.operation
      || nonzero req.grants
      || nonzero req.slot_dev
      || nonzero req.slot_ino
      || nonzero req.lifetime_dev
      || nonzero req.lifetime_ino
      || not (valid_lifetime_tag ctx.lease.profile req.reserved0)
      || nonzero req.reserved1
      || nonzero req.reserved2
    then some einval
    else none

mx_lease_bind_proofs :
    Vfs
    → Fget
    → (DeviceLease × FileCtx → DeviceLease × FileCtx)
    → Bool
    → DeviceLease
    → FileCtx
    → ProofsRequest
    → Ret × DeviceLease × FileCtx
unfolding bind_finish
mx_lease_bind_proofs vfs fget meanwhile copied lease ctx req = elim (bind_files fget ctx req) [
  | err e ↦ (some e, lease, ctx)
  | ok files ↦ bind_finish meanwhile copied (bind_locked vfs lease ctx req files)
]

mx_lease_unbind_proofs :
    (DeviceLease × FileCtx → DeviceLease × FileCtx)
    → Bool
    → DeviceLease
    → FileCtx
    → ProofsRequest
    → Ret × DeviceLease × FileCtx
unfolding unbind_finish unbind_locked
mx_lease_unbind_proofs meanwhile copied lease ctx req =
    if not (is_minus_one req.slot_fd) || not (is_minus_one req.lifetime_fd)
    then (some einval, lease, ctx)
    else unbind_finish meanwhile copied (unbind_locked lease ctx req)

-- The whole of mx_lease_workload_proofs.
unfoldable pub mx_lease_workload_proofs :
    Vfs
    → Fget
    → (DeviceLease × FileCtx → DeviceLease × FileCtx)
    → Bool
    → DeviceLease
    → FileCtx
    → Option ProofsRequest
    → Ret × DeviceLease × FileCtx
unfolding proofs_check mx_lease_bind_proofs mx_lease_unbind_proofs
mx_lease_workload_proofs vfs fget meanwhile copied lease ctx none = (some efault, lease, ctx)
mx_lease_workload_proofs vfs fget meanwhile copied lease ctx (some req) =
    elim (proofs_check ctx req) [
      | some e ↦ (some e, lease, ctx)
      | none ↦
          if req.operation == 1
          then mx_lease_bind_proofs vfs fget meanwhile copied lease ctx req
          else mx_lease_unbind_proofs meanwhile copied lease ctx req
    ]
