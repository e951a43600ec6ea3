-- ===== src/Lease/Sm/Exits.antt =====
-- The account across mx_lease_sm_release and mx_lease_sm_authorize_direct.
use mxdriver.Common.{Bool, arith}
use mxdriver.Lease.Uapi.{Profile, no_profile, hub_publisher, Phase}
use mxdriver.Lease.Sm.{Sm, Holder, release, authorize_direct}
use mxdriver.Lease.Sm.Tally.{Tally}
use mxdriver.Lease.Sm.Account.{Keeps}

release_at-Keeps :
    (sm : Sm) (p : Profile) (phase : Phase) (legacy : Bool) (r : Tally)
    → let h : Holder = record { profile = p; phase = phase; legacy = legacy } in
      Keeps sm h r → Keeps (release sm h).0 (release sm h).1 r
unfolding release
release_at-Keeps sm no_profile phase legacy r k = ground arith
release_at-Keeps sm hub_publisher phase legacy r k = ground arith
release_at-Keeps sm _ phase legacy r k = ground arith

-- mx_lease_sm_release keeps the account of the state machine on any descriptor.
pub release-Keeps :
    (sm : Sm) (h : Holder) (r : Tally) → Keeps sm h r → Keeps (release sm h).0 (release sm h).1 r
release-Keeps sm h r k = release_at-Keeps sm h.profile h.phase h.legacy r k

pub authorize_direct-Keeps :
    (sm : Sm) (h : Holder) (r : Tally)
    → Keeps sm h r
    → Keeps (authorize_direct sm h).1 (authorize_direct sm h).2 r
unfolding authorize_direct
authorize_direct-Keeps sm h r k = ground arith
