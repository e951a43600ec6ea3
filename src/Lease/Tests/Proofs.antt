-- ===== src/Lease/Tests/Proofs.antt =====
-- The theorems on a workload's proofs, at a hub's workload that proves slot 5.
use mxdriver.Common.{◌≡◌, refl, none, some, eacces, true, false, inl}
use mxdriver.Lease.Sm.{
  acquire, transition, validate_slot_domain_anchor, validate_anchored_acquire, validate_proofs,
}
use mxdriver.Lease.Device.{FileCtx, DeviceLease, next_generation, is_bound}
use mxdriver.Lease.Vfs.{clone_with_ofd_lock, slot_identity_held, pin_slot_ofd_lock}
use mxdriver.Lease.Acquire.{acquire_locked}
use mxdriver.Lease.Transition.{transition_locked}
use mxdriver.Lease.SlotDomain.{domain_locked}
use mxdriver.Lease.Proofs.{
  ProofFiles, bind_locked, bind_files, valid_slot_proof, proof_request_matches,
}
use mxdriver.Lease.Proofs.Laws.{IsPaired, Passes, bind_locked-Passes}
use mxdriver.Lease.Unbind.{UnbindPending, unbind_locked, unbind_pending}
use mxdriver.Lease.Unbind.Laws.{unbind_locked_closes}
use mxdriver.Lease.Uapi.{hub, hub_workload, workload}
use mxdriver.Lease.World.{run, step, at, initial, opened}
use mxdriver.Lease.Tests.{joined_world, ctx_of, vfs, fget, proves, slot_file, state_file}

abbrev joined : FileCtx
joined = ctx_of joined_world 1

abbrev files : ProofFiles
files = record { slot_file = some slot_file; lifetime_file = none }

joined-IsPaired : IsPaired joined
unfolding run step at acquire_locked transition_locked domain_locked acquire transition
    clone_with_ofd_lock next_generation validate_slot_domain_anchor validate_anchored_acquire
joined-IsPaired = record { slot_paired = refl; lifetime_paired = λ e. e }

bind_locked-Passes_example :
    Passes (bind_locked vfs joined_world.lease joined (proves 1) files).ctx
    × IsPaired (bind_locked vfs joined_world.lease joined (proves 1) files).ctx
unfolding run step at acquire_locked transition_locked domain_locked acquire transition
    clone_with_ofd_lock next_generation validate_slot_domain_anchor validate_anchored_acquire
    bind_locked bind_files valid_slot_proof proof_request_matches slot_identity_held
    pin_slot_ofd_lock
bind_locked-Passes_example =
    bind_locked-Passes vfs fget joined_world.lease joined (proves 1) files joined-IsPaired refl refl

-- The device and the workload once it has bound.
abbrev held : DeviceLease
held = record (initial 9).lease {
  state_path_valid = true;
  state_inode = some state_file.f_inode;
  state_identity_lo = 3;
  state_identity_hi = 4;
  state_family = hub;
  generation_counter = 1;
  generation = 1;
}

abbrev bound : FileCtx
bound = record (opened false) {
  lease = record { profile = hub_workload; phase = workload; legacy = false };
  slot_source_file = some slot_file;
  slot_proof_file = some (record slot_file { handle = 1030 });
  proof_slot = 5;
  proofs_ever_bound = true;
}

unbind_locked_closes_example :
    (bound.direct_count ≡ 0)
    × (bound.bar_mapping_count ≡ 0)
    × (validate_proofs
          (unbind_locked held bound (proves 2)).ctx.lease.profile
          (unbind_locked held bound (proves 2)).ctx.proofs_ever_bound
          (is_bound (unbind_locked held bound (proves 2)).ctx.slot_proof_file)
          (is_bound (unbind_locked held bound (proves 2)).ctx.lifetime_proof_file)
        ≡ some eacces)
unfolding unbind_locked proof_request_matches
unbind_locked_closes_example = unbind_locked_closes held bound (proves 2) (inl refl) refl

-- What its unbinding leaves pending.
abbrev detached : UnbindPending
detached = unbind_pending held bound
