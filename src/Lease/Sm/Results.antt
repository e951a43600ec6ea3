-- ===== src/Lease/Sm/Results.antt =====
-- What the results of the state machine's operations say.
use mxdriver.Common.{◌<◌, ◌≡◌, refl, none, some, arith, Ret, Errno, Bool, true, false}
use mxdriver.Lease.Uapi.{Profile, hub_publisher, no_profile, unknown_profile, Phase, TransitionOp}
use mxdriver.Lease.Sm.{
  Sm, Holder, Activity, transition, acquire, profile_family, admit, is_publisher,
}
use mxdriver.Lease.Sm.Tally.{Tally}
use mxdriver.Lease.Sm.Account.{Keeps}
use mxdriver.Lease.Sm.Admission.{Admissible, Reheld, acquire_cases}

-- An mx_lease_sm_acquire that returns an error leaves the state machine and the descriptor as
-- they were.
pub acquire_refused :
    (sm : Sm) (h : Holder) (p : Profile) (e : Errno)
    → (acquire sm h p).0 ≡ some e
    → ((acquire sm h p).1 ≡ sm) × ((acquire sm h p).2 ≡ h)
acquire_refused sm h p e =
    acquire_cases (λ s. s.0 ≡ some e → (s.1 ≡ sm) × (s.2 ≡ h)) sm h p (λ _ _. (refl, refl))
      (λ _ _. (refl, refl)) (λ phase a q. cc)

-- What a descriptor and the state machine are after an acquisition that returns 0.
pub record Granted (sm : Sm) (h : Holder) (p : Profile) : Type 0 where
  pub holds : h.profile ≡ p
  pub owns : sm.family ≡ profile_family p
  pub counted : 0 < sm.family_holders
  pub alone : sm.legacy_holders ≡ 0

Reheld-Granted :
    (sm : Sm) (h : Holder) (p : Profile) (r : Tally) → Keeps sm h r → Reheld sm h p → Granted sm h p
Reheld-Granted sm h no_profile r k a = ground arith
Reheld-Granted sm h (unknown_profile _) r k a = ground arith
Reheld-Granted sm h hub_publisher r k a = ground arith
Reheld-Granted sm h _ r k a = ground arith

admit-Granted :
    (sm : Sm) (h : Holder) (p : Profile) {phase : Phase} (r : Tally)
    → Keeps sm h r
    → Admissible sm h p phase
    → Granted (admit sm p phase) (record h { profile = p; phase = phase }) p
unfolding admit
admit-Granted sm h p r k a = ground arith

-- Where the account holds, after an mx_lease_sm_acquire that returns 0 the descriptor holds the
-- profile, the profile's family holds the device with at least one holder, and no legacy user is
-- left.
pub acquire-Granted :
    (sm : Sm) (h : Holder) (p : Profile) (r : Tally)
    → Keeps sm h r
    → (acquire sm h p).0 ≡ none
    → Granted (acquire sm h p).1 (acquire sm h p).2 p
acquire-Granted sm h p r k =
    acquire_cases (λ s. s.0 ≡ none → Granted s.1 s.2 p) sm h p (λ e q. cc)
      (λ a _. Reheld-Granted sm h p r k a) (λ phase a _. admit-Granted sm h p r k a)

-- A transition leaves the family, the holders and the legacy users alone, and 0 is returned to a
-- publisher only.
pub record Framed (sm : Sm) (h : Holder) (t : Ret × Sm × Holder) : Type 0 where
  pub same_family : t.1.family ≡ sm.family
  pub same_holders : t.1.family_holders ≡ sm.family_holders
  pub same_legacy : t.1.legacy_holders ≡ sm.legacy_holders
  pub same_publishers : t.1.publishers ≡ sm.publishers
  pub same_profile : t.2.profile ≡ h.profile
  pub publishes : t.0 ≡ none → is_publisher h.profile ≡ true

pub transition_frame :
    (sm : Sm) (h : Holder) (op : TransitionOp) (a : Activity) (anchored : Bool)
    → Framed sm h (transition sm h op a anchored)
unfolding transition
transition_frame sm h op a anchored = ground arith

pub acquired_not_legacy :
    (sm : Sm) (h : Holder) (p : Profile)
    → (acquire sm h p).0 ≡ none
    → (acquire sm h p).2.legacy ≡ false
acquired_not_legacy sm h p =
    acquire_cases (λ s. s.0 ≡ none → s.2.legacy ≡ false) sm h p (λ e q. absurd (cc q))
      (λ a _. a.still_free) (λ phase a _. a.not_legacy)
