-- ===== src/Lease/Sm/Account.antt =====
-- The state machine's account: what its counters say of the open descriptors.
use mxdriver.Common.{◌+◌, ◌≤◌, ◌<◌, ◌≡◌, Bool, true, false, to_nat, u32_max}
use mxdriver.Lease.Uapi.{
  Profile, no_profile, hub_publisher, hub_workload, standalone_publisher, standalone_workload,
  coordinator_initializer, coordinator_control, coordinator_workload, Phase, no_family, hub,
  standalone, coordinator, no_phase, quiescent, replacement_candidate, workload,
  coordinator_prepared,
}
use mxdriver.Lease.Sm.{Sm, Holder}
use mxdriver.Lease.Sm.Tally.{Tally, plus, weigh}

-- The phases that each profile can be in; a legacy descriptor holds no profile.
abbrev pub proper : Profile → Phase → Bool → Bool
proper no_profile no_phase _ = true
proper hub_publisher quiescent false = true
proper hub_publisher replacement_candidate false = true
proper hub_publisher workload false = true
proper hub_workload workload false = true
proper standalone_publisher quiescent false = true
proper standalone_publisher workload false = true
proper standalone_workload workload false = true
proper coordinator_initializer quiescent false = true
proper coordinator_initializer coordinator_prepared false = true
proper coordinator_control workload false = true
proper coordinator_workload workload false = true
proper _ _ _ = false

abbrev pub IsProper : Holder → Type 0
IsProper h = proper h.profile h.phase h.legacy ≡ true

-- The counters are those of the descriptors, one family holds the device, at most one descriptor
-- publishes, and quiescence and legacy use exclude all others.
pub record Account (sm : Sm) (t : Tally) : Type 0 where
  pub counts_holders : sm.family_holders ≡ t.hubs + t.standalones + t.coordinators
  pub holders_bounded : sm.family_holders ≤ u32_max
  pub hub_family : 0 < t.hubs → sm.family ≡ hub
  pub standalone_family : 0 < t.standalones → sm.family ≡ standalone
  pub coordinator_family : 0 < t.coordinators → sm.family ≡ coordinator
  pub free_family : sm.family_holders ≡ 0 → sm.family ≡ no_family
  pub counts_publishers : sm.publishers ≡ t.publishing
  pub one_publisher : t.publishing ≤ 1
  pub holders_split : t.hubs + t.standalones + t.coordinators ≡ t.publishing + t.attached
  pub publisher_phases : t.publishing ≡ t.quiescing + t.candidates + t.settled
  pub counts_workloads : sm.workloads ≡ t.working
  pub workloads_bounded : sm.workloads ≤ u32_max
  pub counts_quiescent : to_nat sm.quiescent ≡ t.quiescing
  pub quiescent_excludes : 0 < t.quiescing → t.working ≡ 0
  pub counts_legacy : sm.legacy_holders ≡ t.legacies
  pub legacy_bounded : sm.legacy_holders ≤ u32_max
  pub legacy_excludes : 0 < t.legacies → sm.family_holders ≡ 0

-- The account after a call on one descriptor, `r` being the tally of the others.
pub record Keeps (sm : Sm) (h : Holder) (r : Tally) : Type 0 where
  pub stays_proper : IsProper h
  pub stays_counted : Account sm (plus (weigh h) r)
