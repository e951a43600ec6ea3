-- ===== src/Lease/Sm/Tally.antt =====
-- What the open descriptors of a device add up to: the independent reading of the counters of
-- `struct mx_lease_sm`.
use mxdriver.Common.{
  ℕ, zero, suc, ◌+◌, ◌≡◌, refl, not, ◌&&◌, ◌||◌, List, [], ◌∷◌, some, arith, get_elem?, set, to_nat,
}
use mxdriver.Lease.Uapi.{
  hub, standalone, coordinator, no_family, quiescent, replacement_candidate, workload,
  coordinator_prepared, is_family, is_phase,
}
use mxdriver.Lease.Sm.{Holder, is_publisher, profile_family}

-- `settled` counts the publishers that have left their quiescent or candidate phase, `attached` the
-- holders that are no publishers.
pub record Tally : Type 0 where
  pub hubs : ℕ
  pub standalones : ℕ
  pub coordinators : ℕ
  pub publishing : ℕ
  pub working : ℕ
  pub quiescing : ℕ
  pub candidates : ℕ
  pub settled : ℕ
  pub attached : ℕ
  pub legacies : ℕ

abbrev pub no_tally : Tally
no_tally = record {
  hubs = 0;
  standalones = 0;
  coordinators = 0;
  publishing = 0;
  working = 0;
  quiescing = 0;
  candidates = 0;
  settled = 0;
  attached = 0;
  legacies = 0;
}

abbrev pub plus : Tally → Tally → Tally
plus s t = record {
  hubs = s.hubs + t.hubs;
  standalones = s.standalones + t.standalones;
  coordinators = s.coordinators + t.coordinators;
  publishing = s.publishing + t.publishing;
  working = s.working + t.working;
  quiescing = s.quiescing + t.quiescing;
  candidates = s.candidates + t.candidates;
  settled = s.settled + t.settled;
  attached = s.attached + t.attached;
  legacies = s.legacies + t.legacies;
}

-- What one descriptor counts for.
abbrev pub weigh : Holder → Tally
weigh h = record {
  hubs = to_nat (is_family (profile_family h.profile) hub);
  standalones = to_nat (is_family (profile_family h.profile) standalone);
  coordinators = to_nat (is_family (profile_family h.profile) coordinator);
  publishing = to_nat (is_publisher h.profile);
  working = to_nat (is_phase h.phase workload);
  quiescing = to_nat (is_phase h.phase quiescent);
  candidates = to_nat (is_phase h.phase replacement_candidate);
  settled = to_nat (
      is_publisher h.profile
      && (is_phase h.phase workload || is_phase h.phase coordinator_prepared));
  attached =
      to_nat (not (is_publisher h.profile) && not (is_family (profile_family h.profile) no_family));
  legacies = to_nat h.legacy;
}

unfoldable pub tally : List Holder → Tally
tally [] = no_tally
tally (h ∷ hs) = plus (weigh h) (tally hs)

-- The descriptors but one.
unfoldable pub others : List Holder → ℕ → Tally
unfolding tally
others [] i = no_tally
others (h ∷ hs) zero = tally hs
others (h ∷ hs) (suc i) = plus (weigh h) (others hs i)

plus_left_comm : (a b c : Tally) → plus a (plus b c) ≡ plus b (plus a c)
plus_left_comm a b c = ground arith

pub tally-others :
    (hs : List Holder) (i : ℕ) (h : Holder)
    → get_elem? hs i ≡ some h
    → tally hs ≡ plus (weigh h) (others hs i)
unfolding tally others
tally-others [] i h e = cc
tally-others (x ∷ hs) zero h e = ground arith
tally-others (x ∷ hs) (suc i) h e =
    rw (tally-others hs i h e) (plus_left_comm (weigh x) (weigh h) (others hs i))

pub tally-set :
    (hs : List Holder) (i : ℕ) (h h' : Holder)
    → get_elem? hs i ≡ some h
    → tally (set hs i h') ≡ plus (weigh h') (others hs i)
unfolding tally others
tally-set [] i h h' e = cc
tally-set (x ∷ hs) zero h h' e = refl
tally-set (x ∷ hs) (suc i) h h' e =
    rw (tally-set hs i h h' e) (plus_left_comm (weigh x) (weigh h') (others hs i))
