-- ===== src/Lease/Proofs/Laws.antt =====
-- When a workload's proofs are bound, what that gives it, and what the undo sections restore.
use mxdriver.Common.{
  ◌≡◌, refl, Bool, true, false, none, Result, ok, err, arith, Option-cases, inl, inr, ◌⊎◌,
}
use mxdriver.Lease.Uapi.{
  Profile, hub_workload, standalone_workload, coordinator_control, coordinator_workload,
}
use mxdriver.Lease.Sm.{validate_proofs}
use mxdriver.Lease.Device.{DeviceLease, FileCtx, Fget, is_bound}
use mxdriver.Lease.Vfs.{Vfs}
use mxdriver.Lease.Proofs.{
  ProofsRequest, ProofFiles, LockFiles, bind_files, bind_guard, bind_locks, bind_commit,
  bind_locked, bind_pending, install, same_binding, lifetime_ofd, valid_slot_proof,
  valid_lifetime_proof, valid_workload_ofd,
}

-- A descriptor's proof is there exactly with the source it was made from.
pub record IsPaired (ctx : FileCtx) : Type 0 where
  pub slot_paired : is_bound ctx.slot_source_file ≡ is_bound ctx.slot_proof_file
  pub lifetime_paired :
      is_bound ctx.lifetime_source_file ≡ true → is_bound ctx.lifetime_proof_file ≡ true

-- The record locks taken for a new binding.
record Locked (req : ProofsRequest) (same : Bool) (files : ProofFiles) (locks : LockFiles)
    : Type 0 where
  slot_locked : same ≡ false → is_bound files.slot_file ≡ is_bound locks.slot_lock_file
  lifetime_locked :
      same ≡ false
      → lifetime_ofd req ≡ true
      → is_bound files.lifetime_file ≡ is_bound locks.lifetime_lock_file

bind_locks-Locked :
    (vfs : Vfs) (lease : DeviceLease) (req : ProofsRequest) (same : Bool) (files : ProofFiles)
    (locks : LockFiles)
    → bind_locks vfs lease req same files ≡ ok locks
    → Locked req same files locks
unfolding bind_locks
bind_locks-Locked vfs lease req same files locks e = ground arith

install-IsPaired :
    (lease : DeviceLease) (ctx : FileCtx) (req : ProofsRequest) (same : Bool) (files : ProofFiles)
    (locks : LockFiles)
    → IsPaired ctx
    → Locked req same files locks
    → IsPaired (install ctx req (bind_pending lease ctx req same files locks))
unfolding install bind_pending
install-IsPaired lease ctx req same files locks i l = ground arith

-- The files that the profile of the descriptor calls for.
record Named (p : Profile) (files : ProofFiles) : Type 0 where
  names_slot : (p ≡ hub_workload) ⊎ (p ≡ coordinator_control) → is_bound files.slot_file ≡ true
  names_lifetime :
      (p ≡ standalone_workload) ⊎ (p ≡ coordinator_workload) → is_bound files.lifetime_file ≡ true

bind_files-Named :
    (fget : Fget) (ctx : FileCtx) (req : ProofsRequest) (files : ProofFiles)
    → bind_files fget ctx req ≡ ok files
    → Named ctx.lease.profile files
unfolding bind_files valid_slot_proof valid_lifetime_proof valid_workload_ofd
bind_files-Named fget ctx req files e = ground arith

-- Whether the gate before each command lets the descriptor through.
abbrev pub Passes : FileCtx → Type 0
Passes ctx =
    validate_proofs ctx.lease.profile ctx.proofs_ever_bound (is_bound ctx.slot_proof_file)
      (is_bound ctx.lifetime_proof_file)
    ≡ none

new-Passes :
    (lease : DeviceLease) (ctx : FileCtx) (req : ProofsRequest) (files : ProofFiles)
    (locks : LockFiles)
    → Named ctx.lease.profile files
    → Locked req false files locks
    → Passes (install ctx req (bind_pending lease ctx req false files locks))
unfolding install bind_pending validate_proofs
new-Passes lease ctx req files locks n l = ground arith

same-Passes :
    (ctx : FileCtx) (req : ProofsRequest) (files : ProofFiles)
    → Named ctx.lease.profile files
    → IsPaired ctx
    → same_binding ctx req files ≡ true
    → Passes ctx
unfolding same_binding validate_proofs
same-Passes ctx req files n i s = ground arith

commit-Passes :
    (vfs : Vfs) (lease : DeviceLease) (ctx : FileCtx) (req : ProofsRequest) (same : Bool)
    (files : ProofFiles) (r : Result LockFiles)
    → IsPaired ctx
    → Named ctx.lease.profile files
    → same_binding ctx req files ≡ same
    → ((locks : LockFiles) → r ≡ ok locks → Locked req same files locks)
    → (bind_commit lease ctx req same files r).ret ≡ none
    → Passes (bind_commit lease ctx req same files r).ctx
      × IsPaired (bind_commit lease ctx req same files r).ctx
unfolding bind_commit
commit-Passes vfs lease ctx req same files (err e) i n s l q = absurd (cc q)
commit-Passes vfs lease ctx req true files (ok locks) i n s l q = (
  unfold install bind_pending in same-Passes ctx req files n i s,
  install-IsPaired lease ctx req true files locks i (l locks refl),
)
commit-Passes vfs lease ctx req false files (ok locks) i n s l q = (
  new-Passes lease ctx req files locks n (l locks refl),
  install-IsPaired lease ctx req false files locks i (l locks refl),
)

-- If the source and proof files of a descriptor are paired and the files of a request pass their
-- checks, after a bind that succeeds under the lock, new or the same as before, the descriptor
-- passes mx_lease_sm_validate_proofs and its files are still paired.
pub bind_locked-Passes :
    (vfs : Vfs) (fget : Fget) (lease : DeviceLease) (ctx : FileCtx) (req : ProofsRequest)
    (files : ProofFiles)
    → IsPaired ctx
    → bind_files fget ctx req ≡ ok files
    → (bind_locked vfs lease ctx req files).ret ≡ none
    → Passes (bind_locked vfs lease ctx req files).ctx
      × IsPaired (bind_locked vfs lease ctx req files).ctx
unfolding bind_locked
bind_locked-Passes vfs fget lease ctx req files i n q =
    elim (Option-cases (bind_guard lease ctx req files)) [
      | inr (x, e) ↦ absurd (cc (rw (e, bind_locked) at q))
      | inl e ↦
          rw (e, bind_locked)
            (commit-Passes vfs lease ctx req (same_binding ctx req files) files _ i
              (bind_files-Named fget ctx req files n) refl
              (bind_locks-Locked vfs lease req (same_binding ctx req files) files)
              (rw (e, bind_locked) at q))
    ]

bind_commit_frame :
    (lease : DeviceLease) (ctx : FileCtx) (req : ProofsRequest) (same : Bool) (files : ProofFiles)
    (r : Result LockFiles)
    → ((bind_commit lease ctx req same files r).lease ≡ lease)
      × ((bind_commit lease ctx req same files r).ctx.lease ≡ ctx.lease)
unfolding bind_commit
bind_commit_frame lease ctx req same files (err e) = (refl, refl)
bind_commit_frame lease ctx req true files (ok l) = (refl, refl)
bind_commit_frame lease ctx req false files (ok l) = (refl, refl)

-- Binding changes neither the lease nor what the descriptor holds.
pub bind_locked_frame :
    (vfs : Vfs) (lease : DeviceLease) (ctx : FileCtx) (req : ProofsRequest) (files : ProofFiles)
    → ((bind_locked vfs lease ctx req files).lease ≡ lease)
      × ((bind_locked vfs lease ctx req files).ctx.lease ≡ ctx.lease)
unfolding bind_locked
bind_locked_frame vfs lease ctx req files = elim (Option-cases (bind_guard lease ctx req files)) [
  | inr (x, e) ↦ rw (e, bind_locked) (refl, refl)
  | inl e ↦ rw (e, bind_locked) (bind_commit_frame lease ctx req _ files _)
]
