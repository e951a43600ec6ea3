-- ===== src/Lease/Proofs.antt =====
-- mx_lease_workload_proofs of lease.c with mx_lease_bind_proofs: the descriptors whose closing
-- authorizes the reclamation of a workload's resources. Unbinding is in Lease/Unbind.
pub mod Laws
use mxdriver.Common.{
  ℕ, ◌%◌, ◌+◌, ◌≡◌, Bool, true, false, not, ◌&&◌, ◌||◌, Option, none, some, Errno, Ret, Result, ok,
  err, ◌==◌, ltb, nonzero, if◌then◌else◌, eperm, eacces, ealready, ebusy, efault, exdev, euclean,
  enodev, einval, estale,
}
use mxdriver.Lease.Uapi.{
  Profile, hub_workload, standalone_workload, coordinator_control, coordinator_workload, workload,
  is_profile, is_phase,
}
use mxdriver.Lease.Sm.{Sm, Holder, valid_lifetime_tag}
use mxdriver.Lease.Device.{
  Inode, File, Fd, fd, minus_one, negative, Fget, DeviceLease, FileCtx, Header, Grants, is_bound,
  is_minus_one, is_negative, same_inode, same_file, inode_of, tmpfs_magic, pipefs_magic,
  valid_header, holder_grants,
}
use mxdriver.Lease.Vfs.{
  Vfs, rdlck, clone_with_ofd_lock, slot_identity_held, pin_slot_ofd_lock, workload_liveness_offset,
}
use mxdriver.Lease.Acquire.{Section}

-- `struct mx_lease_proofs` as user space passes it.
pub record ProofsRequest : Type 0 where
  pub header : Header
  pub expected_device_incarnation : ℕ
  pub expected_lease_generation : ℕ
  pub state_identity_lo : ℕ
  pub state_identity_hi : ℕ
  pub slot_fd : Fd
  pub lifetime_fd : Fd
  pub slot : ℕ
  pub operation : ℕ
  pub grants : ℕ
  pub slot_dev : ℕ
  pub slot_ino : ℕ
  pub lifetime_dev : ℕ
  pub lifetime_ino : ℕ
  pub reserved0 : ℕ
  pub reserved1 : ℕ
  pub reserved2 : ℕ

pub record ProofsReply : Type 0 where
  pub grants : Grants
  pub slot_dev : ℕ
  pub slot_ino : ℕ
  pub lifetime_dev : ℕ
  pub lifetime_ino : ℕ

-- A regular file of a tmpfs, open for both, whose position carries a marker.
abbrev marked_file : File → ℕ → Bool
marked_file f marker =
    f.can_read
    && f.can_write
    && (f.f_pos == marker)
    && f.f_inode.is_regular
    && (f.f_inode.s_magic == tmpfs_magic)

-- mx_lease_valid_slot_proof, with MX_LEASE_MAX_SLOT and MX_LEASE_SLOT_MARKER_BASE.
unfoldable pub valid_slot_proof : Option File → ℕ → Bool → Bool
valid_slot_proof none slot allow_zero = false
valid_slot_proof (some f) slot allow_zero =
    if (not allow_zero && (slot == 0)) || ltb 63 slot
    then false
    else marked_file f (0x50584c00 + slot)

unfoldable pub valid_lifetime_proof : Option File → Bool
valid_lifetime_proof none = false
valid_lifetime_proof (some f) =
    f.can_write && f.f_inode.is_fifo && (f.f_inode.s_magic == pipefs_magic)

-- mx_lease_valid_workload_ofd, with MX_LEASE_MAX_WORKLOAD_SLOT and MX_LEASE_WORKLOAD_MARKER_BASE.
unfoldable pub valid_workload_ofd : Option File → ℕ → Bool
valid_workload_ofd none slot = false
valid_workload_ofd (some f) slot =
    if ltb 4095 slot then false else marked_file f (0x50590000 + slot)

unfoldable pub proof_request_matches : DeviceLease → ProofsRequest → Bool
proof_request_matches lease req =
    not lease.removed
    && nonzero req.expected_device_incarnation
    && (req.expected_device_incarnation == lease.device_incarnation)
    && nonzero req.expected_lease_generation
    && (req.expected_lease_generation == lease.generation)
    && (req.state_identity_lo == lease.state_identity_lo)
    && (req.state_identity_hi == lease.state_identity_hi)
    && (nonzero req.state_identity_lo || nonzero req.state_identity_hi)
    && lease.state_path_valid

-- `reserved[0] != 0`, and its low 12 bits.
abbrev pub lifetime_ofd : ProofsRequest → Bool
lifetime_ofd req = nonzero req.reserved0

abbrev pub lifetime_slot : ProofsRequest → ℕ
lifetime_slot req = req.reserved0 % 4096

-- The files that a bind request names, checked before the lock.
pub record ProofFiles : Type 0 where
  pub slot_file : Option File
  pub lifetime_file : Option File

slot_files : Fget → ProofsRequest → Bool → Result ProofFiles
slot_files fget req control =
    if control && not (is_minus_one req.lifetime_fd)
    then err einval
    else if not (valid_slot_proof (fget req.slot_fd) req.slot control)
    then err einval
    else if is_negative req.lifetime_fd
    then ok (record { slot_file = fget req.slot_fd; lifetime_file = none })
    else if not (valid_lifetime_proof (fget req.lifetime_fd))
    then err einval
    else ok (record { slot_file = fget req.slot_fd; lifetime_file = fget req.lifetime_fd })

lifetime_files : Fget → ProofsRequest → Result ProofFiles
lifetime_files fget req =
    if not (is_minus_one req.slot_fd) || nonzero req.slot
    then err einval
    else if not (
        if lifetime_ofd req
        then valid_workload_ofd (fget req.lifetime_fd) (lifetime_slot req)
        else valid_lifetime_proof (fget req.lifetime_fd))
    then err einval
    else ok (record { slot_file = none; lifetime_file = fget req.lifetime_fd })

unfoldable pub bind_files : Fget → FileCtx → ProofsRequest → Result ProofFiles
unfolding slot_files lifetime_files
bind_files fget ctx req =
    if is_profile ctx.lease.profile hub_workload || is_profile ctx.lease.profile coordinator_control
    then slot_files fget req (is_profile ctx.lease.profile coordinator_control)
    else if is_profile ctx.lease.profile standalone_workload
        || is_profile ctx.lease.profile coordinator_workload
    then lifetime_files fget req
    else err eperm

same_binding : FileCtx → ProofsRequest → ProofFiles → Bool
same_binding ctx req files =
    same_file ctx.slot_source_file files.slot_file
    && same_file (if lifetime_ofd req then ctx.lifetime_source_file else ctx.lifetime_proof_file)
        files.lifetime_file
    && (ctx.proof_slot == req.slot)
    && (ctx.proof_lifetime_tag == req.reserved0)

-- The tests under the lock that precede any record lock.
bind_guard : DeviceLease → FileCtx → ProofsRequest → ProofFiles → Ret
unfolding same_binding
bind_guard lease ctx req files =
    if not (proof_request_matches lease req)
    then (if lease.removed then some enodev else some estale)
    else if not (is_phase ctx.lease.phase workload)
    then some eacces
    else if nonzero ctx.direct_count || nonzero ctx.transfer_count
    then some ebusy
    else if (is_bound ctx.slot_source_file
          || is_bound ctx.slot_proof_file
          || is_bound ctx.lifetime_proof_file)
        && not (same_binding ctx req files)
    then some ealready
    else if not (same_binding ctx req files) && is_bound files.slot_file
    then (if not lease.slot_domain_path_valid || not (is_bound lease.slot_domain_inode)
        then some euclean
        else if not (same_inode (inode_of files.slot_file) lease.slot_domain_inode)
        then some exdev
        else none)
    else none

-- The kernel-only descriptions that hold the liveness bytes.
pub record LockFiles : Type 0 where
  pub slot_lock_file : Option File
  pub lifetime_lock_file : Option File

slot_lock : Vfs → ProofsRequest → Option File → Result (Option File)
slot_lock vfs req none = ok none
slot_lock vfs req (some f) = elim (slot_identity_held vfs f req.slot) [
  | some e ↦ err e
  | none ↦ elim (pin_slot_ofd_lock vfs f req.slot) [ err e ↦ err e | ok g ↦ ok (some g) ]
]

lifetime_lock : Vfs → DeviceLease → ProofsRequest → Bool → Option File → Result (Option File)
lifetime_lock vfs lease req same none = ok none
lifetime_lock vfs lease req same (some f) =
    if not (lifetime_ofd req)
    then ok none
    else if not (same_inode (some f.f_inode) lease.state_inode)
    then err exdev
    else if same
    then ok none
    else let offset = workload_liveness_offset (lifetime_slot req) in
      elim (clone_with_ofd_lock vfs f rdlck offset offset) [ err e ↦ err e | ok g ↦ ok (some g) ]

bind_locks : Vfs → DeviceLease → ProofsRequest → Bool → ProofFiles → Result LockFiles
unfolding slot_lock lifetime_lock
bind_locks vfs lease req same files =
    elim (slot_lock vfs req (if same then none else files.slot_file)) [
      | err e ↦ err e
      | ok s ↦ elim (lifetime_lock vfs lease req same files.lifetime_file) [
        | err e ↦ err e
        | ok l ↦ ok (record { slot_lock_file = s; lifetime_lock_file = l })
      ]
    ]

abbrev dev_of : Option File → ℕ
dev_of none = 0
dev_of (some f) = f.f_inode.s_dev

abbrev ino_of : Option File → ℕ
ino_of none = 0
ino_of (some f) = f.f_inode.i_ino

bind_reply : DeviceLease → FileCtx → ProofFiles → ProofsReply
bind_reply lease ctx files =
    let granted = holder_grants lease ctx lease.state_path_valid in
    record {
      grants = record granted {
        slot_proof_bound = granted.slot_proof_bound || is_bound files.slot_file;
        lifetime_proof_bound = granted.lifetime_proof_bound || is_bound files.lifetime_file;
      };
      slot_dev = dev_of files.slot_file;
      slot_ino = ino_of files.slot_file;
      lifetime_dev = dev_of files.lifetime_file;
      lifetime_ino = ino_of files.lifetime_file;
    }

-- What the call keeps in its locals while the lock is free: the files that it installed.
pub record BindPending : Type 0 where
  pub reply : ProofsReply
  pub committed : Bool
  pub slot_source : Option File
  pub slot_proof : Option File
  pub lifetime_source : Option File
  pub lifetime_proof : Option File

bind_pending : DeviceLease → FileCtx → ProofsRequest → Bool → ProofFiles → LockFiles → BindPending
unfolding bind_reply
bind_pending lease ctx req same files locks = record {
  reply = bind_reply lease ctx files;
  committed = not same;
  slot_source = files.slot_file;
  slot_proof = locks.slot_lock_file;
  lifetime_source = if lifetime_ofd req then files.lifetime_file else none;
  lifetime_proof = if lifetime_ofd req then locks.lifetime_lock_file else files.lifetime_file;
}

install : FileCtx → ProofsRequest → BindPending → FileCtx
install ctx req p = if not p.committed then ctx else record ctx {
  slot_source_file = p.slot_source;
  slot_proof_file = p.slot_proof;
  lifetime_source_file = p.lifetime_source;
  lifetime_proof_file = p.lifetime_proof;
  proof_lifetime_tag = req.reserved0;
  proof_slot = req.slot;
  proofs_ever_bound = true;
}

bind_commit :
    DeviceLease
    → FileCtx
    → ProofsRequest
    → Bool
    → ProofFiles
    → Result LockFiles
    → Section BindPending
unfolding bind_pending install
bind_commit lease ctx req same files (err e) = record {
  ret = some e;
  lease = lease;
  ctx = ctx;
  published = none;
}
bind_commit lease ctx req same files (ok locks) =
    let p = bind_pending lease ctx req same files locks in
    record { ret = none; lease = lease; ctx = install ctx req p; published = some p }

unfoldable pub bind_locked :
    Vfs → DeviceLease → FileCtx → ProofsRequest → ProofFiles → Section BindPending
unfolding bind_guard bind_locks bind_commit
bind_locked vfs lease ctx req files = elim (bind_guard lease ctx req files) [
  | some e ↦ record { ret = some e; lease = lease; ctx = ctx; published = none }
  | none ↦
      bind_commit lease ctx req (same_binding ctx req files) files
        (bind_locks vfs lease req (same_binding ctx req files) files)
]

-- The second locked section: it detaches exactly the files that the call installed.
unfoldable pub bind_undo : FileCtx → BindPending → FileCtx
bind_undo ctx p =
    if p.committed
      && same_file ctx.slot_source_file p.slot_source
      && same_file ctx.slot_proof_file p.slot_proof
      && same_file ctx.lifetime_source_file p.lifetime_source
      && same_file ctx.lifetime_proof_file p.lifetime_proof
    then record ctx {
      slot_source_file = none;
      slot_proof_file = none;
      lifetime_source_file = none;
      lifetime_proof_file = none;
      proof_lifetime_tag = 0;
      proof_slot = 0;
    }
    else ctx
