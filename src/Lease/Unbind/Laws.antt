-- ===== src/Lease/Unbind/Laws.antt =====
-- What unbinding a workload's proofs does.
use mxdriver.Common.{◌≡◌, refl, true, none, some, arith, Option-cases, inl, inr, ◌⊎◌, eacces}
use mathlib.Core.Option.{some-injective}
use mxdriver.Lease.Uapi.{
  hub_workload, standalone_workload, coordinator_control, coordinator_workload,
}
use mxdriver.Lease.Sm.{validate_proofs}
use mxdriver.Lease.Device.{DeviceLease, FileCtx, is_bound}
use mxdriver.Lease.Proofs.{ProofsRequest}
use mxdriver.Lease.Unbind.{UnbindPending, unbind_guard, detach, unbind_locked, unbind_undo}

unbind_guard_quiet :
    (lease : DeviceLease) (ctx : FileCtx) (req : ProofsRequest)
    → unbind_guard lease ctx req ≡ none
    → (ctx.direct_count ≡ 0)
      × (ctx.bar_mapping_count ≡ 0)
      × ((ctx.lease.profile ≡ hub_workload)
          ⊎ (ctx.lease.profile ≡ standalone_workload)
          ⊎ (ctx.lease.profile ≡ coordinator_control)
          ⊎ (ctx.lease.profile ≡ coordinator_workload))
unfolding unbind_guard
unbind_guard_quiet lease ctx req q = ground arith

-- If a descriptor that has ever bound proofs, or holds the control or workload profile of a
-- coordinator, unbinds with success under the lock, it has no direct call and no BAR mapping, and
-- mx_lease_sm_validate_proofs then refuses it with -EACCES.
pub unbind_locked_closes :
    (lease : DeviceLease) (ctx : FileCtx) (req : ProofsRequest)
    → (ctx.proofs_ever_bound ≡ true)
      ⊎ (ctx.lease.profile ≡ coordinator_control)
      ⊎ (ctx.lease.profile ≡ coordinator_workload)
    → (unbind_locked lease ctx req).ret ≡ none
    → (ctx.direct_count ≡ 0)
      × (ctx.bar_mapping_count ≡ 0)
      × (validate_proofs
            (unbind_locked lease ctx req).ctx.lease.profile
            (unbind_locked lease ctx req).ctx.proofs_ever_bound
            (is_bound (unbind_locked lease ctx req).ctx.slot_proof_file)
            (is_bound (unbind_locked lease ctx req).ctx.lifetime_proof_file)
          ≡ some eacces)
unfolding unbind_locked detach validate_proofs
unbind_locked_closes lease ctx req h q = elim (Option-cases (unbind_guard lease ctx req)) [
  | inr (x, e) ↦ absurd (cc (rw (e, unbind_locked) at q))
  | inl e ↦ rw (e, unbind_locked) (ground (arith, unbind_guard_quiet lease ctx req e))
]

-- The undo of mx_lease_unbind_proofs right after its locked section, from what that left to copy
-- out, restores the descriptor.
pub unbind_undo-unbind_locked :
    (lease : DeviceLease) (ctx : FileCtx) (req : ProofsRequest) (p : UnbindPending)
    → (unbind_locked lease ctx req).published ≡ some p
    → unbind_undo (unbind_locked lease ctx req).ctx p ≡ ctx
unfolding unbind_locked unbind_undo
unbind_undo-unbind_locked lease ctx req p q = elim (Option-cases (unbind_guard lease ctx req)) [
  | inr (x, e) ↦ absurd (cc (rw (e, unbind_locked) at q))
  | inl e ↦
      let r = some-injective _ _ (rw (e, unbind_locked) at q) in
      rw (e, unbind_locked) (rw (← r) refl)
]
