-- ===== src/Lease/Sm/Moves.antt =====
-- The account across mx_lease_sm_transition.
use mxdriver.Common.{
  ◌+◌, ◌≡◌, Option-cases, Bool-cases, inl, inr, Bool, true, false, arith, u32_max, u32, none, ◌≢◌,
}
use mxdriver.Lease.Uapi.{
  is_profile, coordinator_initializer, quiescent, replacement_candidate, workload, TransitionOp,
  no_op, try_quiescent, activate_workload, activate_replacement, activate_coordinator, unknown_op,
}
use mxdriver.Lease.Sm.{
  Sm, Holder, Activity, transition_early, transition_body, activate_initializer, switch_operation,
  is_publisher, transition,
}
use mxdriver.Lease.Sm.Tally.{Tally}
use mxdriver.Lease.Sm.Account.{Keeps}

-- What the `switch` of mx_lease_sm_transition knows of the descriptor.
publishing_holder :
    (h : Holder) (op : TransitionOp) (a : Activity) (anchored : Bool)
    → transition_early h op a anchored ≡ none
    → (is_publisher h.profile ≡ true) × (h.legacy ≡ false)
unfolding transition_early
publishing_holder h op a anchored e = ground arith

activate_initializer-Keeps :
    (sm : Sm) (h : Holder) (op : TransitionOp) (a : Activity) (anchored : Bool) (r : Tally)
    → h.profile ≡ coordinator_initializer
    → h.legacy ≡ false
    → Keeps sm h r
    → Keeps
        (activate_initializer sm h op a anchored).1
        (activate_initializer sm h op a anchored).2
        r
unfolding activate_initializer
activate_initializer-Keeps sm h op a anchored r i l k = ground arith

-- A candidate becomes quiescent.
quiesce-Keeps :
    (sm : Sm) (h : Holder) (r : Tally)
    → is_profile h.profile coordinator_initializer ≡ false
    → is_publisher h.profile ≡ true
    → h.legacy ≡ false
    → h.phase ≡ replacement_candidate
    → sm.workloads ≡ 0
    → sm.quiescent ≡ false
    → Keeps sm h r
    → Keeps (record sm { quiescent = true }) (record h { phase = quiescent }) r
quiesce-Keeps sm h r n i l f w q k = record {
  stays_proper = ground arith;
  stays_counted = ground arith;
}

-- A quiescent publisher starts its workload.
start-Keeps :
    (sm : Sm) (h : Holder) (r : Tally)
    → is_profile h.profile coordinator_initializer ≡ false
    → is_publisher h.profile ≡ true
    → h.legacy ≡ false
    → h.phase ≡ quiescent
    → sm.workloads ≢ u32_max
    → sm.quiescent ≡ true
    → Keeps sm h r
    → Keeps
        (record sm { quiescent = false; workloads = u32 (sm.workloads + 1) })
        (record h { phase = workload })
        r
start-Keeps sm h r n i l f w q k = record {
  stays_proper = ground arith;
  stays_counted = ground arith;
}

-- A candidate joins the running workloads.
replace-Keeps :
    (sm : Sm) (h : Holder) (r : Tally)
    → is_profile h.profile coordinator_initializer ≡ false
    → is_publisher h.profile ≡ true
    → h.legacy ≡ false
    → h.phase ≡ replacement_candidate
    → sm.workloads ≢ u32_max
    → Keeps sm h r
    → Keeps (record sm { workloads = u32 (sm.workloads + 1) }) (record h { phase = workload }) r
replace-Keeps sm h r n i l f w k = record {
  stays_proper = ground arith;
  stays_counted = ground arith;
}

switch_operation-Keeps :
    (sm : Sm) (h : Holder) (op : TransitionOp) (r : Tally)
    → is_publisher h.profile ≡ true
    → is_profile h.profile coordinator_initializer ≡ false
    → h.legacy ≡ false
    → Keeps sm h r
    → Keeps (switch_operation sm h op).1 (switch_operation sm h op).2 r
unfolding switch_operation
switch_operation-Keeps sm h no_op r i n l k = k
switch_operation-Keeps sm h activate_coordinator r i n l k = k
switch_operation-Keeps sm h (unknown_op _) r i n l k = k
switch_operation-Keeps sm h try_quiescent r i n l k = ground (arith, quiesce-Keeps sm h r)
switch_operation-Keeps sm h activate_workload r i n l k = ground (arith, start-Keeps sm h r)
switch_operation-Keeps sm h activate_replacement r i n l k = ground (arith, replace-Keeps sm h r)

transition_body-Keeps :
    (sm : Sm) (h : Holder) (op : TransitionOp) (a : Activity) (anchored : Bool) (r : Tally)
    → (is_publisher h.profile ≡ true) × (h.legacy ≡ false)
    → Keeps sm h r
    → Keeps (transition_body sm h op a anchored).1 (transition_body sm h op a anchored).2 r
unfolding transition_body
transition_body-Keeps sm h op a anchored r i k =
    elim (Bool-cases (is_profile h.profile coordinator_initializer)) [
      | inl e ↦ rw e (activate_initializer-Keeps sm h op a anchored r (ground arith) i.1 k)
      | inr e ↦ rw e (switch_operation-Keeps sm h op r i.0 e i.1 k)
    ]

-- mx_lease_sm_transition keeps the account of the state machine, for any operation and any
-- activity, whatever it returns.
pub transition-Keeps :
    (sm : Sm) (h : Holder) (op : TransitionOp) (a : Activity) (anchored : Bool) (r : Tally)
    → Keeps sm h r
    → Keeps (transition sm h op a anchored).1 (transition sm h op a anchored).2 r
unfolding transition
transition-Keeps sm h op a anchored r k = elim (Option-cases (transition_early h op a anchored)) [
  | inr (ret, e) ↦ rw (e, transition) k
  | inl e ↦
      rw (e, transition)
        (transition_body-Keeps sm h op a anchored r (publishing_holder h op a anchored e) k)
]
