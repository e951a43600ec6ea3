-- ===== src/Lease/Transition.antt =====
-- mx_lease_transition of lease.c: the locked section, and the one that restores the state when the
-- reply cannot be copied out.
pub mod Laws
use mxdriver.Common.{
  ℕ, ◌≡◌, Bool, true, false, not, ◌&&◌, ◌||◌, Option, none, some, Errno, Ret, ◌==◌, ltb, nonzero,
  if◌then◌else◌, eperm, efault, enodev, einval, estale,
}
use mxdriver.Lease.Uapi.{TransitionOp, no_op, activate_replacement, Family, Phase, op_code, is_op}
use mxdriver.Lease.Sm.{Sm, Holder, Activity, transition}
use mxdriver.Lease.Device.{
  DeviceLease, FileCtx, Header, Grants, is_bound, valid_header, holder_grants, same_holder,
  same_state,
}
use mxdriver.Lease.Acquire.{Section}

-- The fields of `struct mx_lease_transition` that user space sets.
pub record TransitionRequest : Type 0 where
  pub header : Header
  pub expected_device_incarnation : ℕ
  pub expected_lease_generation : ℕ
  pub operation : TransitionOp
  pub reserved0 : ℕ
  pub reserved1 : ℕ

-- Those that the driver fills in.
pub record TransitionReply : Type 0 where
  pub device_incarnation : ℕ
  pub lease_generation : ℕ
  pub grants : Grants
  pub phase : Phase
  pub family : Family
  pub publisher_count : ℕ
  pub workload_count : ℕ
  pub family_holder_count : ℕ
  pub legacy_count : ℕ

abbrev pub activity : FileCtx → Activity
activity ctx = record {
  active_direct = ctx.direct_count;
  active_transfers = ctx.transfer_count;
  bar_mappings = ctx.bar_mapping_count;
}

-- The checks before the lock. `sys_rawio` is capable(CAP_SYS_RAWIO).
transition_check : Bool → TransitionRequest → Ret
transition_check sys_rawio req =
    if not (valid_header req.header 96)
      || nonzero req.reserved0
      || nonzero req.reserved1
      || is_op req.operation no_op
      || ltb 4 (op_code req.operation)
    then some einval
    else if is_op req.operation activate_replacement && not sys_rawio
    then some eperm
    else none

-- Whether the request names this incarnation of the device and this generation of its anchor, under
-- the lock; mx_lease_anchor_slot_domain makes the same test.
unfoldable pub names_lease : DeviceLease → ℕ → ℕ → Ret
names_lease lease incarnation generation =
    if lease.removed
    then some enodev
    else if not (nonzero incarnation)
        || not (incarnation == lease.device_incarnation)
        || not (nonzero generation)
        || not (generation == lease.generation)
    then some estale
    else none

-- What the call keeps in its locals while the lock is free.
pub record TransitionPending : Type 0 where
  pub reply : TransitionReply
  pub old_state : Sm
  pub old_holder : Holder
  pub new_state : Sm
  pub new_holder : Holder

pub fill_transition : DeviceLease → FileCtx → TransitionReply
fill_transition lease ctx = record {
  device_incarnation = lease.device_incarnation;
  lease_generation = lease.generation;
  grants = holder_grants lease ctx lease.state_path_valid;
  phase = ctx.lease.phase;
  family = lease.state.family;
  publisher_count = lease.state.publishers;
  workload_count = lease.state.workloads;
  family_holder_count = lease.state.family_holders;
  legacy_count = lease.state.legacy_holders;
}

-- After mx_lease_sm_transition has returned.
transition_commit : DeviceLease → FileCtx → Ret × Sm × Holder → Section TransitionPending
unfolding fill_transition
transition_commit lease ctx (some e, sm, h) = record {
  ret = some e;
  lease = record lease { state = sm };
  ctx = record ctx { lease = h };
  published = none;
}
transition_commit lease ctx (none, sm, h) =
    let lease' : DeviceLease = record lease { state = sm } in
    let ctx' : FileCtx = record ctx { lease = h } in
    record {
      ret = none;
      lease = lease';
      ctx = ctx';
      published = some (record {
        reply = fill_transition lease' ctx';
        old_state = lease.state;
        old_holder = ctx.lease;
        new_state = sm;
        new_holder = h;
      });
    }

unfoldable pub transition_locked :
    DeviceLease → FileCtx → TransitionRequest → Section TransitionPending
unfolding transition_commit names_lease
transition_locked lease ctx req =
    elim (names_lease lease req.expected_device_incarnation req.expected_lease_generation) [
      | some e ↦ record { ret = some e; lease = lease; ctx = ctx; published = none }
      | none ↦ transition_commit lease ctx (
          transition lease.state ctx.lease req.operation (activity ctx)
            (lease.slot_domain_path_valid && is_bound lease.slot_domain_inode))
    ]

-- The second locked section, after copy_to_user() has failed.
unfoldable pub transition_undo : DeviceLease → FileCtx → TransitionPending → DeviceLease × FileCtx
transition_undo lease ctx p =
    if same_state lease.state p.new_state && same_holder ctx.lease p.new_holder
    then (record lease { state = p.old_state }, record ctx { lease = p.old_holder })
    else (lease, ctx)

-- The rest of the call: `meanwhile` is what others do while the lock is free, `copied` whether
-- copy_to_user() succeeds.
transition_publish :
    (DeviceLease × FileCtx → DeviceLease × FileCtx)
    → Bool
    → Section TransitionPending
    → Ret × DeviceLease × FileCtx
unfolding transition_undo
transition_publish meanwhile copied s = elim s.published [
  | none ↦ (s.ret, s.lease, s.ctx)
  | some p ↦
      let (lease, ctx) = meanwhile (s.lease, s.ctx) in
      if copied
      then (none, lease, ctx)
      else let (lease', ctx') = transition_undo lease ctx p in (some efault, lease', ctx')
]

-- The whole of mx_lease_transition; the request is `none` where copy_from_user() fails.
unfoldable pub mx_lease_transition :
    Bool
    → (DeviceLease × FileCtx → DeviceLease × FileCtx)
    → Bool
    → DeviceLease
    → FileCtx
    → Option TransitionRequest
    → Ret × DeviceLease × FileCtx
unfolding transition_check transition_locked transition_publish
mx_lease_transition sys_rawio meanwhile copied lease ctx none = (some efault, lease, ctx)
mx_lease_transition sys_rawio meanwhile copied lease ctx (some req) =
    elim (transition_check sys_rawio req) [
      | some e ↦ (some e, lease, ctx)
      | none ↦ transition_publish meanwhile copied (transition_locked lease ctx req)
    ]
