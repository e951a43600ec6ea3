-- ===== src/Lease/Sm.antt =====
-- lease_sm.h: the lease state machine of one device. A function that updates `*sm` or `*holder`
-- returns the new values beside its int result; `sm.x++` wraps at 2^32.
pub mod Tally
pub mod Account
pub mod Admission
pub mod Moves
pub mod Exits
pub mod Results
pub mod Roundtrip
use mxdriver.Common.{
  ℕ, ◌+◌, ◌-◌, ◌/◌, ◌%◌, ◌^◌, Bool, true, false, not, ◌&&◌, ◌||◌, Option, none, some, Ret, Result,
  ok, err, u32, u32_max, ◌==◌, ltb, nonzero, if◌then◌else◌, eperm, enxio, eacces, ebusy, exdev,
  einval, eoverflow, ealready, euclean,
}
use mxdriver.Lease.Uapi.{
  Profile, no_profile, hub_publisher, hub_workload, standalone_publisher, standalone_workload,
  coordinator_initializer, coordinator_control, coordinator_workload, unknown_profile, Family,
  no_family, hub, standalone, coordinator, Phase, no_phase, quiescent, replacement_candidate,
  workload, coordinator_prepared, TransitionOp, no_op, try_quiescent, activate_workload,
  activate_replacement, activate_coordinator, unknown_op, profile_code, is_profile, is_family,
  is_phase, is_op,
}

-- `struct mx_lease_sm`. The counters are u32.
pub record Sm : Type 0 where
  pub family : Family
  pub family_holders : ℕ
  pub publishers : ℕ
  pub workloads : ℕ
  pub legacy_holders : ℕ
  pub quiescent : Bool
  pub coordinator_ready : Bool

-- `struct mx_lease_sm_holder`.
pub record Holder : Type 0 where
  pub profile : Profile
  pub phase : Phase
  pub legacy : Bool

-- mx_lease_sm_valid_lifetime_tag. `tag & MX_LEASE_LIFETIME_OFD_FLAG` reads bit 32; the bits outside
-- the flag and MX_LEASE_MAX_WORKLOAD_SLOT = 0xfff are 12 to 31 and 33 to 63.
unfoldable pub valid_lifetime_tag : Profile → ℕ → Bool
valid_lifetime_tag p tag =
    if tag == 0
    then true
    else is_profile p coordinator_workload
      && ((tag / 2 ^ 32) % 2 == 1)
      && ((tag % 2 ^ 32) / 2 ^ 12 == 0)
      && (tag / 2 ^ 33 == 0)

abbrev pub is_publisher : Profile → Bool
is_publisher p =
    is_profile p hub_publisher
    || is_profile p standalone_publisher
    || is_profile p coordinator_initializer

abbrev pub profile_family : Profile → Family
profile_family hub_publisher = hub
profile_family hub_workload = hub
profile_family standalone_publisher = standalone
profile_family standalone_workload = standalone
profile_family coordinator_initializer = coordinator
profile_family coordinator_control = coordinator
profile_family coordinator_workload = coordinator
profile_family _ = no_family

unfoldable pub idle : Sm → Bool
idle sm =
    (sm.family_holders == 0) && (sm.publishers == 0) && (sm.workloads == 0) && not sm.quiescent

unfoldable pub authorize_memory_cmd : Profile → ℕ → Ret
authorize_memory_cmd p subopcode =
    if ltb 7 (profile_code p)
    then some einval
    else if ((subopcode == 3) || (subopcode == 6)) && is_family (profile_family p) coordinator
    then some eperm
    else none

unfoldable pub validate_anchored_acquire : Sm → Family → Profile → Ret
unfolding idle
validate_anchored_acquire sm state_family p =
    if is_family state_family no_family || not (is_family state_family (profile_family p))
    then some ebusy
    else if idle sm
        && not (is_publisher p)
        && not (is_family state_family coordinator && sm.coordinator_ready)
    then some enxio
    else none

-- The `switch` of mx_lease_sm_acquire: the phase granted to a profile.
pub acquire_phase : Sm → Profile → Result Phase
acquire_phase sm coordinator_initializer =
    if nonzero sm.publishers || sm.quiescent || nonzero sm.workloads
    then err ebusy
    else ok quiescent
acquire_phase sm coordinator_control =
    if not sm.coordinator_ready
    then err enxio
    else if sm.quiescent || (sm.workloads == u32_max)
    then (if sm.quiescent then err ebusy else err eoverflow)
    else ok workload
acquire_phase sm coordinator_workload =
    if not sm.coordinator_ready
    then err enxio
    else if sm.quiescent || (sm.workloads == u32_max)
    then (if sm.quiescent then err ebusy else err eoverflow)
    else ok workload
acquire_phase sm hub_publisher =
    if nonzero sm.publishers || sm.quiescent
    then err ebusy
    else if nonzero sm.workloads
    then ok replacement_candidate
    else ok quiescent
acquire_phase sm standalone_publisher =
    if nonzero sm.publishers || sm.quiescent || nonzero sm.workloads
    then err ebusy
    else ok quiescent
acquire_phase sm hub_workload =
    if sm.quiescent || (sm.workloads == u32_max)
    then (if sm.quiescent then err ebusy else err eoverflow)
    else ok workload
acquire_phase sm standalone_workload =
    if sm.quiescent || (sm.workloads == u32_max)
    then (if sm.quiescent then err ebusy else err eoverflow)
    else ok workload
acquire_phase sm no_profile = err einval
acquire_phase sm (unknown_profile n) = err einval

-- The writes to `*sm` that follow the `switch`.
pub admit : Sm → Profile → Phase → Sm
admit sm p phase = record {
  family = if nonzero sm.family_holders then sm.family else profile_family p;
  family_holders = u32 (sm.family_holders + 1);
  publishers = if is_publisher p then u32 (sm.publishers + 1) else sm.publishers;
  workloads = if is_phase phase workload then u32 (sm.workloads + 1) else sm.workloads;
  legacy_holders = sm.legacy_holders;
  quiescent = if is_phase phase quiescent then true else sm.quiescent;
  coordinator_ready = if is_profile p coordinator_initializer then false else sm.coordinator_ready;
}

grant : Sm → Holder → Profile → Result Phase → Ret × Sm × Holder
unfolding admit
grant sm h p (err e) = (some e, sm, h)
grant sm h p (ok phase) = (none, admit sm p phase, record h { profile = p; phase = phase })

-- The early returns of mx_lease_sm_acquire: `some ret` where it returns `ret` before the `switch`.
acquire_early : Sm → Holder → Profile → Option Ret
acquire_early sm h p =
    if is_family (profile_family p) no_family
    then some (some einval)
    else if h.legacy || nonzero sm.legacy_holders
    then some (some ebusy)
    else if not (is_profile h.profile no_profile)
    then some (if is_profile h.profile p then none else some ealready)
    else if not (is_family sm.family no_family) && not (is_family sm.family (profile_family p))
    then some (some ebusy)
    else if sm.family_holders == u32_max
    then some (some eoverflow)
    else none

unfoldable pub acquire : Sm → Holder → Profile → Ret × Sm × Holder
unfolding acquire_early acquire_phase grant
acquire sm h p = elim (acquire_early sm h p) [
  | some ret ↦ (ret, sm, h)
  | none ↦ grant sm h p (acquire_phase sm p)
]

-- What the caller of mx_lease_sm_transition knows of the descriptor's accesses.
pub record Activity : Type 0 where
  pub active_direct : ℕ
  pub active_transfers : ℕ
  pub bar_mappings : ℕ

abbrev pub is_active : Activity → Bool
is_active a = nonzero a.active_direct || nonzero a.active_transfers || nonzero a.bar_mappings

-- The branch of mx_lease_sm_transition for the coordinator's initializer.
activate_initializer : Sm → Holder → TransitionOp → Activity → Bool → Ret × Sm × Holder
activate_initializer sm h op a slot_domain_anchored =
    if not (is_op op activate_coordinator)
    then (some einval, sm, h)
    else if is_phase h.phase coordinator_prepared
    then (if sm.coordinator_ready then none else some euclean, sm, h)
    else if not (is_phase h.phase quiescent)
    then (some einval, sm, h)
    else if not slot_domain_anchored
    then (some enxio, sm, h)
    else if is_active a
    then (some ebusy, sm, h)
    else if not sm.quiescent
    then (some euclean, sm, h)
    else (
      none,
      record sm { quiescent = false; coordinator_ready = true },
      record h { phase = coordinator_prepared },
    )

-- The `switch` of mx_lease_sm_transition.
switch_operation : Sm → Holder → TransitionOp → Ret × Sm × Holder
switch_operation sm h try_quiescent =
    if is_phase h.phase quiescent
    then (none, sm, h)
    else if not (is_phase h.phase replacement_candidate)
    then (some einval, sm, h)
    else if nonzero sm.workloads || sm.quiescent
    then (some ebusy, sm, h)
    else (none, record sm { quiescent = true }, record h { phase = quiescent })
switch_operation sm h activate_workload =
    if is_phase h.phase workload
    then (none, sm, h)
    else if not (is_phase h.phase quiescent)
    then (some einval, sm, h)
    else if sm.workloads == u32_max
    then (some eoverflow, sm, h)
    else if not sm.quiescent
    then (some euclean, sm, h)
    else (
      none,
      record sm { quiescent = false; workloads = u32 (sm.workloads + 1) },
      record h { phase = workload },
    )
switch_operation sm h activate_replacement =
    if not (is_profile h.profile hub_publisher) || not (is_phase h.phase replacement_candidate)
    then (some einval, sm, h)
    else if sm.workloads == u32_max
    then (some eoverflow, sm, h)
    else (none, record sm { workloads = u32 (sm.workloads + 1) }, record h { phase = workload })
switch_operation sm h no_op = (some einval, sm, h)
switch_operation sm h activate_coordinator = (some einval, sm, h)
switch_operation sm h (unknown_op n) = (some einval, sm, h)

-- The early returns of mx_lease_sm_transition that precede its `switch`, the branch for the
-- initializer excepted.
transition_early : Holder → TransitionOp → Activity → Bool → Option Ret
transition_early h op a slot_domain_anchored =
    if not (is_publisher h.profile) || h.legacy
    then some (some eperm)
    else if is_profile h.profile coordinator_initializer
    then none
    else if is_profile h.profile hub_publisher
        && (is_op op activate_workload || is_op op activate_replacement)
        && not slot_domain_anchored
    then some (some enxio)
    else if is_op op activate_workload && is_phase h.phase quiescent && is_active a
    then some (some ebusy)
    else none

transition_body : Sm → Holder → TransitionOp → Activity → Bool → Ret × Sm × Holder
unfolding activate_initializer switch_operation
transition_body sm h op a slot_domain_anchored =
    if is_profile h.profile coordinator_initializer
    then activate_initializer sm h op a slot_domain_anchored
    else switch_operation sm h op

unfoldable pub transition : Sm → Holder → TransitionOp → Activity → Bool → Ret × Sm × Holder
unfolding transition_early transition_body
transition sm h op a slot_domain_anchored = elim (transition_early h op a slot_domain_anchored) [
  | some ret ↦ (ret, sm, h)
  | none ↦ transition_body sm h op a slot_domain_anchored
]

-- mx_lease_sm_release on a descriptor that holds a profile.
release_profile : Sm → Holder → Sm × Holder
release_profile sm h =
    let holders = if nonzero sm.family_holders then sm.family_holders - 1 else sm.family_holders in
    (
      record {
        family = if nonzero holders then sm.family else no_family;
        family_holders = holders;
        publishers =
            if is_publisher h.profile && nonzero sm.publishers
            then sm.publishers - 1
            else sm.publishers;
        workloads =
            if is_phase h.phase workload && nonzero sm.workloads
            then sm.workloads - 1
            else sm.workloads;
        legacy_holders = sm.legacy_holders;
        quiescent =
            if is_phase h.phase workload && nonzero sm.workloads
            then sm.quiescent
            else if is_phase h.phase quiescent
            then false
            else sm.quiescent;
        coordinator_ready = sm.coordinator_ready;
      },
      record h { profile = no_profile; phase = no_phase },
    )

unfoldable pub release : Sm → Holder → Sm × Holder
unfolding release_profile
release sm h =
    if h.legacy
    then (
      record sm {
        legacy_holders =
            if nonzero sm.legacy_holders then sm.legacy_holders - 1 else sm.legacy_holders;
      },
      record h { legacy = false },
    )
    else if is_profile h.profile no_profile
    then (sm, h)
    else release_profile sm h

unfoldable pub authorize_direct : Sm → Holder → Ret × Sm × Holder
unfolding idle
authorize_direct sm h =
    if not (is_profile h.profile no_profile)
    then (
      if is_phase h.phase replacement_candidate
          then some eacces
          else if is_phase h.phase quiescent || is_phase h.phase workload
          then none
          else some eacces,
      sm,
      h,
    )
    else if h.legacy
    then (none, sm, h)
    else if not (idle sm)
    then (some ebusy, sm, h)
    else if sm.legacy_holders == u32_max
    then (some eoverflow, sm, h)
    else (
      none,
      record sm { legacy_holders = u32 (sm.legacy_holders + 1) },
      record h { legacy = true },
    )

unfoldable pub authorize_direct_anchored : Sm → Holder → Bool → Ret × Sm × Holder
unfolding authorize_direct
authorize_direct_anchored sm h anchored =
    if anchored && is_profile h.profile no_profile && not h.legacy
    then (some ebusy, sm, h)
    else authorize_direct sm h

-- The last component is `*active_direct`.
unfoldable pub admit_direct : Sm → Holder → Bool → ℕ → Ret × Sm × Holder × ℕ
unfolding authorize_direct_anchored
admit_direct sm h anchored active_direct =
    if active_direct == u32_max
    then (some eoverflow, sm, h, active_direct)
    else let (ret, sm', h') = authorize_direct_anchored sm h anchored in
      (ret, sm', h', elim ret [ none ↦ u32 (active_direct + 1) | some e ↦ active_direct ])

unfoldable pub release_direct : ℕ → ℕ
release_direct active_direct = if nonzero active_direct then active_direct - 1 else active_direct

unfoldable pub validate_slot_domain_anchor : Holder → Family → Bool → Activity → Bool → Bool → Ret
validate_slot_domain_anchor h state_family state_anchored a domain_anchored same_inode =
    if is_profile h.profile coordinator_initializer
    then (if not (is_phase h.phase quiescent)
          || not (is_family state_family coordinator)
          || not state_anchored
        then some eacces
        else if is_active a
        then some ebusy
        else if domain_anchored && not same_inode
        then some exdev
        else none)
    else if not (is_profile h.profile hub_publisher)
        || (not (is_phase h.phase quiescent) && not (is_phase h.phase replacement_candidate))
        || not (is_family state_family hub)
        || not state_anchored
    then some eacces
    else if is_active a
    then some ebusy
    else if domain_anchored && not same_inode
    then some exdev
    else none

unfoldable pub validate_proofs : Profile → Bool → Bool → Bool → Ret
validate_proofs p ever_bound slot_bound lifetime_bound =
    if (is_profile p coordinator_control || (ever_bound && is_profile p hub_workload))
      && not slot_bound
    then some eacces
    else if (is_profile p coordinator_workload || (ever_bound && is_profile p standalone_workload))
        && not lifetime_bound
    then some eacces
    else none
