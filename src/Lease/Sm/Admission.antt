-- ===== src/Lease/Sm/Admission.antt =====
-- The account across mx_lease_sm_acquire.
use mxdriver.Common.{
  ◌≡◌, refl, Option-cases, inl, inr, false, arith, u32_max, ◌⊎◌, Ret, Errno, Result, ok, err, none,
  some, ◌≢◌,
}
use mxdriver.Lease.Uapi.{
  is_family, Profile, no_profile, hub_publisher, hub_workload, Phase, no_family,
}
use mxdriver.Lease.Sm.{
  Sm, Holder, acquire, acquire_phase, acquire_early, admit, grant, profile_family,
}
use mxdriver.Lease.Sm.Tally.{Tally}
use mxdriver.Lease.Sm.Account.{Keeps}

-- What the checks of mx_lease_sm_acquire establish before a descriptor is counted.
pub record Admissible (sm : Sm) (h : Holder) (p : Profile) (phase : Phase) : Type 0 where
  pub unheld : h.profile ≡ no_profile
  pub not_legacy : h.legacy ≡ false
  pub no_legacy : sm.legacy_holders ≡ 0
  pub same_family : (sm.family ≡ no_family) ⊎ (sm.family ≡ profile_family p)
  pub room : sm.family_holders ≢ u32_max
  pub allowed : acquire_phase sm p ≡ ok phase

-- A call that returns 0 and admits nothing found the profile held already.
pub record Reheld (sm : Sm) (h : Holder) (p : Profile) : Type 0 where
  pub held : h.profile ≡ p
  pub still_free : h.legacy ≡ false
  pub named : is_family (profile_family p) no_family ≡ false
  pub no_legacy : sm.legacy_holders ≡ 0

grant_cases :
    (P : Ret × Sm × Holder → Type 0) (sm : Sm) (h : Holder) (p : Profile) (r : Result Phase)
    → ((e : Errno) → P (some e, sm, h))
    → ((phase : Phase)
        → r ≡ ok phase
        → P (none, admit sm p phase, record h { profile = p; phase = phase }))
    → P (grant sm h p r)
unfolding grant
grant_cases P sm h p (ok phase) same new = new phase refl
grant_cases P sm h p (err e) same new = same e

reheld : (sm : Sm) (h : Holder) (p : Profile) → acquire_early sm h p ≡ some none → Reheld sm h p
unfolding acquire_early
reheld sm h p c = record {
  held = ground arith;
  still_free = ground arith;
  named = ground arith;
  no_legacy = ground arith;
}

admissible :
    (sm : Sm) (h : Holder) (p : Profile) (phase : Phase)
    → acquire_early sm h p ≡ none
    → acquire_phase sm p ≡ ok phase
    → Admissible sm h p phase
unfolding acquire_early
admissible sm h p phase c e = record {
  unheld = ground arith;
  not_legacy = ground arith;
  no_legacy = ground arith;
  same_family = ground arith;
  room = ground arith;
  allowed = e;
}

-- mx_lease_sm_acquire fails, finds the profile held, or admits a free descriptor.
pub acquire_cases :
    (P : Ret × Sm × Holder → Type 0) (sm : Sm) (h : Holder) (p : Profile)
    → ((e : Errno) → P (some e, sm, h))
    → (Reheld sm h p → P (none, sm, h))
    → ((phase : Phase)
        → Admissible sm h p phase
        → P (none, admit sm p phase, record h { profile = p; phase = phase }))
    → P (acquire sm h p)
unfolding acquire
acquire_cases P sm h p fail same new = elim (Option-cases (acquire_early sm h p)) [
  | inr (some x, e) ↦ rw (e, acquire) (fail x)
  | inr (none, e) ↦ rw (e, acquire) (same (reheld sm h p e))
  | inl c ↦
      rw (c, acquire)
        (grant_cases P sm h p _ fail λ phase e. new phase (admissible sm h p phase c e))
]

admit-Keeps :
    (sm : Sm) (h : Holder) (p : Profile) (phase : Phase) (r : Tally)
    → Admissible sm h p phase
    → Keeps sm h r
    → Keeps (admit sm p phase) (record h { profile = p; phase = phase }) r
unfolding admit acquire_phase
admit-Keeps sm h no_profile phase r a k = ground arith
admit-Keeps sm h hub_publisher phase r a k = ground arith
admit-Keeps sm h hub_workload phase r a k = ground arith
admit-Keeps sm h _ phase r a k = ground arith

-- mx_lease_sm_acquire keeps the account of the state machine, that of the calling descriptor and
-- of all others, whatever it returns.
pub acquire-Keeps :
    (sm : Sm) (h : Holder) (p : Profile) (r : Tally)
    → Keeps sm h r
    → Keeps (acquire sm h p).1 (acquire sm h p).2 r
acquire-Keeps sm h p r k =
    acquire_cases (λ s. Keeps s.1 s.2 r) sm h p (λ _. k) (λ _. k)
      λ phase a. admit-Keeps sm h p phase r a k
