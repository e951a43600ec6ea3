-- ===== src/Lease/Acquire.antt =====
-- mx_lease_acquire of lease.c: the checks before the lock, the locked section, and the section that
-- undoes it when the reply cannot be copied out. Between the two sections the lock is free.
pub mod Laws
pub mod Faults
use mxdriver.Common.{
  ℕ, ◌≡◌, Bool, true, false, not, ◌&&◌, ◌||◌, Option, none, some, Errno, Ret, Result, ok, err, ◌==◌,
  ltb, nonzero, if◌then◌else◌, eperm, enxio, efault, exdev, enodev, einval, estale,
}
use mxdriver.Lease.Uapi.{
  Profile, no_profile, coordinator_control, Family, no_family, Phase, profile_code, is_profile,
}
use mxdriver.Lease.Sm.{
  Sm, Holder, is_publisher, profile_family, idle, validate_anchored_acquire, acquire, release,
}
use mxdriver.Lease.Device.{
  Inode, File, Fd, Fget, DeviceLease, FileCtx, Header, Grants, is_negative, same_inode,
  valid_header, valid_state_file, next_generation, holder_grants, same_holder,
}

-- The fields of `struct mx_lease_acquire` that user space sets.
pub record AcquireRequest : Type 0 where
  pub header : Header
  pub expected_device_incarnation : ℕ
  pub expected_lease_generation : ℕ
  pub state_identity_lo : ℕ
  pub state_identity_hi : ℕ
  pub state_fd : Fd
  pub profile : Profile
  pub reserved : ℕ

-- Those that the driver fills in.
pub record AcquireReply : Type 0 where
  pub device_incarnation : ℕ
  pub lease_generation : ℕ
  pub grants : Grants
  pub state_dev : ℕ
  pub state_ino : ℕ
  pub phase : Phase
  pub family : Family
  pub publisher_count : ℕ
  pub workload_count : ℕ
  pub family_holder_count : ℕ
  pub legacy_count : ℕ

-- mx_lease_fill_acquire_locked. `none`: it would follow a NULL `state_inode`.
unfoldable pub fill_acquire_locked : DeviceLease → FileCtx → Option AcquireReply
fill_acquire_locked lease ctx = elim lease.state_inode [
  | none ↦ none
  | some inode ↦ some (record {
    device_incarnation = lease.device_incarnation;
    lease_generation = lease.generation;
    grants = holder_grants lease ctx lease.state_path_valid;
    state_dev = inode.s_dev;
    state_ino = inode.i_ino;
    phase = ctx.lease.phase;
    family = lease.state.family;
    publisher_count = lease.state.publishers;
    workload_count = lease.state.workloads;
    family_holder_count = lease.state.family_holders;
    legacy_count = lease.state.legacy_holders;
  })
]

-- The checks before the lock. `sys_rawio` is capable(CAP_SYS_RAWIO).
unfoldable pub acquire_check : Fget → Bool → FileCtx → AcquireRequest → Result File
acquire_check fget sys_rawio ctx req =
    if not (valid_header req.header 128)
      || nonzero req.reserved
      || is_profile req.profile no_profile
      || ltb 7 (profile_code req.profile)
      || is_negative req.state_fd
      || (not (nonzero req.state_identity_lo) && not (nonzero req.state_identity_hi))
    then err einval
    else if (is_publisher req.profile || is_profile req.profile coordinator_control)
        && not ctx.on_ioctl_node
    then err eperm
    else if is_publisher req.profile && not sys_rawio
    then err eperm
    else elim (fget req.state_fd) [
      | none ↦ err einval
      | some file ↦ if valid_state_file (some file) then ok file else err einval
    ]

-- The checks under the lock; the value is `fresh_anchor`.
anchor_check : DeviceLease → AcquireRequest → File → Result Bool
anchor_check lease req file =
    if lease.removed
    then err enodev
    else if not (nonzero req.expected_device_incarnation)
        || not (req.expected_device_incarnation == lease.device_incarnation)
    then err estale
    else if not lease.state_path_valid
    then (if nonzero req.expected_lease_generation
        then err estale
        else if not (is_publisher req.profile)
        then err enxio
        else ok true)
    else if not (nonzero req.expected_lease_generation)
        || not (req.expected_lease_generation == lease.generation)
    then err estale
    else if not (same_inode lease.state_inode (some file.f_inode))
    then err exdev
    else if not (lease.state_identity_lo == req.state_identity_lo)
        || not (lease.state_identity_hi == req.state_identity_hi)
    then err estale
    else elim (validate_anchored_acquire lease.state lease.state_family req.profile) [
      | none ↦ ok false
      | some e ↦ err e
    ]

-- The writes that pin the first state inode under a new generation.
set_anchor : DeviceLease → AcquireRequest → File → DeviceLease
set_anchor lease req file =
    let generation = next_generation lease.generation_counter in
    record lease {
      state_path_valid = true;
      state_inode = some file.f_inode;
      state_identity_lo = req.state_identity_lo;
      state_identity_hi = req.state_identity_hi;
      state_family = profile_family req.profile;
      generation_counter = generation;
      generation = generation;
    }

clear_anchor : DeviceLease → DeviceLease
clear_anchor lease = record lease {
  state_path_valid = false;
  state_inode = none;
  state_identity_lo = 0;
  state_identity_hi = 0;
  state_family = no_family;
  generation = 0;
}

-- What the call keeps in its locals while the lock is free.
pub record AcquirePending : Type 0 where
  pub reply : Option AcquireReply
  pub new_holder : Holder
  pub new_generation : ℕ
  pub fresh_anchor : Bool

-- A locked section's result: `published` is what it leaves to copy out, if it succeeded.
pub record Section (P : Type 0) : Type 0 where
  pub ret : Ret
  pub lease : DeviceLease
  pub ctx : FileCtx
  pub published : Option P

-- After mx_lease_sm_acquire has returned.
acquire_commit :
    DeviceLease
    → FileCtx
    → AcquireRequest
    → File
    → Bool
    → Ret × Sm × Holder
    → Section AcquirePending
unfolding set_anchor
acquire_commit lease ctx req file fresh (some e, sm, h) = record {
  ret = some e;
  lease = record lease { state = sm };
  ctx = record ctx { lease = h };
  published = none;
}
acquire_commit lease ctx req file fresh (none, sm, h) =
    let granted : DeviceLease = record lease { state = sm } in
    let lease' : DeviceLease = if fresh then set_anchor granted req file else granted in
    let ctx' : FileCtx = record ctx { lease = h } in
    record {
      ret = none;
      lease = lease';
      ctx = ctx';
      published = some (record {
        reply = fill_acquire_locked lease' ctx';
        new_holder = h;
        new_generation = lease'.generation;
        fresh_anchor = fresh;
      });
    }

unfoldable pub acquire_locked :
    DeviceLease → FileCtx → AcquireRequest → File → Section AcquirePending
unfolding anchor_check acquire_commit
acquire_locked lease ctx req file = elim (anchor_check lease req file) [
  | err e ↦ record { ret = some e; lease = lease; ctx = ctx; published = none }
  | ok fresh ↦ acquire_commit lease ctx req file fresh (acquire lease.state ctx.lease req.profile)
]

undo_release : DeviceLease → FileCtx → AcquirePending → DeviceLease × FileCtx
undo_release lease ctx p =
    let (sm, h) = release lease.state ctx.lease in
    if same_holder ctx.lease p.new_holder
    then (record lease { state = sm }, record ctx { lease = h })
    else (lease, ctx)

pub undo_anchor : DeviceLease → File → AcquirePending → DeviceLease
unfolding clear_anchor
undo_anchor lease file p =
    if p.fresh_anchor
      && lease.state_path_valid
      && (lease.generation == p.new_generation)
      && same_inode lease.state_inode (some file.f_inode)
      && idle lease.state
    then clear_anchor lease
    else lease

-- The second locked section, after copy_to_user() has failed.
unfoldable pub acquire_undo : DeviceLease → FileCtx → File → AcquirePending → DeviceLease × FileCtx
unfolding undo_release undo_anchor
acquire_undo lease ctx file p =
    let (lease', ctx') = undo_release lease ctx p in (undo_anchor lease' file p, ctx')

-- The rest of the call: `meanwhile` is what others do while the lock is free, `copied` whether
-- copy_to_user() succeeds.
acquire_publish :
    File
    → (DeviceLease × FileCtx → DeviceLease × FileCtx)
    → Bool
    → Section AcquirePending
    → Ret × DeviceLease × FileCtx
unfolding acquire_undo
acquire_publish file meanwhile copied s = elim s.published [
  | none ↦ (s.ret, s.lease, s.ctx)
  | some p ↦
      let (lease, ctx) = meanwhile (s.lease, s.ctx) in
      if copied
      then (none, lease, ctx)
      else let (lease', ctx') = acquire_undo lease ctx file p in (some efault, lease', ctx')
]

-- The whole of mx_lease_acquire; the request is `none` where copy_from_user() fails.
unfoldable pub mx_lease_acquire :
    Fget
    → Bool
    → (DeviceLease × FileCtx → DeviceLease × FileCtx)
    → Bool
    → DeviceLease
    → FileCtx
    → Option AcquireRequest
    → Ret × DeviceLease × FileCtx
unfolding acquire_check acquire_locked acquire_publish
mx_lease_acquire fget sys_rawio meanwhile copied lease ctx none = (some efault, lease, ctx)
mx_lease_acquire fget sys_rawio meanwhile copied lease ctx (some req) =
    elim (acquire_check fget sys_rawio ctx req) [
      | err e ↦ (some e, lease, ctx)
      | ok file ↦ acquire_publish file meanwhile copied (acquire_locked lease ctx req file)
    ]
