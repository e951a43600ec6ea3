-- ===== src/Lease/Uapi.antt =====
-- The enumerations of include/uapi/mx_dma_lease.h and the tests on them of lease_sm.h.
use mxdriver.Common.{ℕ, ◌+◌, Bool, ◌==◌}

-- `enum mx_lease_profile`, held in a u32: `unknown_profile n` is the value 8 + n, which the
-- enumeration does not name.
pub data Profile : Type 0 where
  no_profile hub_publisher hub_workload standalone_publisher standalone_workload : Profile
  coordinator_initializer coordinator_control coordinator_workload : Profile
  unknown_profile : ℕ → Profile

-- `enum mx_lease_family`. No family comes from user space.
pub data Family : Type 0 where
  no_family hub standalone coordinator : Family

-- `enum mx_lease_phase`. No phase comes from user space.
pub data Phase : Type 0 where
  no_phase quiescent replacement_candidate workload coordinator_prepared : Phase

-- `enum mx_lease_transition_op`, held in a u32: `unknown_op n` is the value 5 + n.
pub data TransitionOp : Type 0 where
  no_op try_quiescent activate_workload activate_replacement activate_coordinator : TransitionOp
  unknown_op : ℕ → TransitionOp

abbrev pub profile_code : Profile → ℕ
profile_code no_profile = 0
profile_code hub_publisher = 1
profile_code hub_workload = 2
profile_code standalone_publisher = 3
profile_code standalone_workload = 4
profile_code coordinator_initializer = 5
profile_code coordinator_control = 6
profile_code coordinator_workload = 7
profile_code (unknown_profile n) = 8 + n

abbrev pub family_code : Family → ℕ
family_code no_family = 0
family_code hub = 1
family_code standalone = 2
family_code coordinator = 3

abbrev pub phase_code : Phase → ℕ
phase_code no_phase = 0
phase_code quiescent = 1
phase_code replacement_candidate = 2
phase_code workload = 3
phase_code coordinator_prepared = 4

abbrev pub op_code : TransitionOp → ℕ
op_code no_op = 0
op_code try_quiescent = 1
op_code activate_workload = 2
op_code activate_replacement = 3
op_code activate_coordinator = 4
op_code (unknown_op n) = 5 + n

-- The C comparisons `a == b` of two such values.
abbrev pub is_profile : Profile → Profile → Bool
is_profile p q = profile_code p == profile_code q

abbrev pub is_family : Family → Family → Bool
is_family a b = family_code a == family_code b

abbrev pub is_phase : Phase → Phase → Bool
is_phase a b = phase_code a == phase_code b

abbrev pub is_op : TransitionOp → TransitionOp → Bool
is_op a b = op_code a == op_code b
