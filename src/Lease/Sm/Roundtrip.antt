-- ===== src/Lease/Sm/Roundtrip.antt =====
-- mx_lease_sm_release right after mx_lease_sm_acquire.
use mxdriver.Common.{◌≡◌, false, none, Ret, arith, if◌then◌else◌}
use mxdriver.Lease.Uapi.{
  Profile, Phase, no_profile, hub_publisher, coordinator_initializer, is_profile,
}
use mxdriver.Lease.Sm.{Sm, Holder, acquire, acquire_phase, admit, release}
use mxdriver.Lease.Sm.Tally.{Tally}
use mxdriver.Lease.Sm.Account.{Keeps}
use mxdriver.Lease.Sm.Admission.{Admissible, Reheld, acquire_cases}

-- The state machine, but not ready if the profile is the initializer's.
abbrev pub unready_by : Profile → Sm → Sm
unready_by p sm = record sm {
  coordinator_ready = if is_profile p coordinator_initializer then false else sm.coordinator_ready;
}

abbrev Restores : Sm → Holder → Profile → Ret × Sm × Holder → Type 0
Restores sm h p s = s.0 ≡ none → release s.1 s.2 ≡ (unready_by p sm, h)

Reheld-Restores :
    (sm : Sm) (h : Holder) (p : Profile)
    → h.profile ≡ no_profile
    → Reheld sm h p
    → Restores sm h p (none, sm, h)
Reheld-Restores sm h no_profile u a = absurd (cc a.named)
Reheld-Restores sm h hub_publisher u a = absurd (ground (arith, a.held))
Reheld-Restores sm h _ u a = absurd (ground (arith, a.held))

admit-Restores :
    (sm : Sm) (h : Holder) (p : Profile) (phase : Phase) (r : Tally)
    → Keeps sm h r
    → Admissible sm h p phase
    → release (admit sm p phase) (record h { profile = p; phase = phase }) ≡ (unready_by p sm, h)
unfolding admit acquire_phase release
admit-Restores sm h no_profile phase r k a = ground arith
admit-Restores sm h hub_publisher phase r k a = ground arith
admit-Restores sm h _ phase r k a = ground arith

-- Where the account holds, mx_lease_sm_release right after a successful mx_lease_sm_acquire by a
-- descriptor without a profile restores the state machine and the descriptor, but that an
-- initializer's acquisition has cleared coordinator_ready.
pub release-acquire :
    (sm : Sm) (h : Holder) (p : Profile) (r : Tally)
    → Keeps sm h r
    → h.profile ≡ no_profile
    → (acquire sm h p).0 ≡ none
    → release (acquire sm h p).1 (acquire sm h p).2 ≡ (unready_by p sm, h)
release-acquire sm h p r k u =
    acquire_cases (Restores sm h p) sm h p (λ e q. absurd (cc q)) (Reheld-Restores sm h p u)
      (λ phase a _. admit-Restores sm h p phase r k a)
