-- ===== src/Lease/Tests/Device.antt =====
-- The theorems on a device with all its descriptors, at a hub and one that joins it.
use mxdriver.Common.{◌≡◌, ◌≢◌, refl, false, none, ◌⊎◌}
use mxdriver.Lease.Uapi.{workload, hub, no_family}
use mxdriver.Lease.Sm.{
  acquire, transition, profile_family, is_publisher, validate_slot_domain_anchor,
  validate_anchored_acquire,
}
use mxdriver.Lease.Device.{next_generation}
use mxdriver.Lease.Vfs.{clone_with_ofd_lock}
use mxdriver.Lease.Acquire.{acquire_locked}
use mxdriver.Lease.SlotDomain.{domain_locked}
use mxdriver.Lease.Transition.{transition_locked}
use mxdriver.Lease.Context.{mx_lease_direct_begin}
use mxdriver.Lease.World.{run, step, at, initial}
use mxdriver.Lease.World.Sound.{IsSoundWorld}
use mxdriver.Lease.World.Steps.{run-initial-IsSoundWorld}
use mxdriver.Lease.World.Exclusion.{quiescent_alone, one_family}
use mxdriver.Lease.Tests.{published_steps, published_world, joined_steps, joined_world, ctx_of}

run-initial-IsSoundWorld_example : IsSoundWorld (run (initial 9) published_steps)
run-initial-IsSoundWorld_example = run-initial-IsSoundWorld 9 published_steps

quiescent_alone_example :
    ((ctx_of published_world 1).lease.phase ≢ workload)
    × (is_publisher (ctx_of published_world 1).lease.profile ≡ false)
    × ((ctx_of published_world 1).lease.legacy ≡ false)
    × ((mx_lease_direct_begin published_world.lease (ctx_of published_world 1)).0 ≢ none)
unfolding run step at acquire_locked acquire
quiescent_alone_example =
    quiescent_alone 9 published_steps 1 0 (ctx_of published_world 1) (ctx_of published_world 0)
      (λ e. cc) refl refl refl

joined_is_working : (ctx_of joined_world 1).lease.phase ≡ workload
unfolding run step at acquire_locked transition_locked domain_locked acquire transition
    clone_with_ofd_lock next_generation validate_slot_domain_anchor validate_anchored_acquire
joined_is_working = refl

hub_held : hub ≢ no_family
hub_held e = cc

one_family_example :
    (profile_family (ctx_of joined_world 1).lease.profile
      ≡ profile_family (ctx_of joined_world 0).lease.profile)
    × ((is_publisher (ctx_of joined_world 1).lease.profile ≡ false)
        ⊎ (is_publisher (ctx_of joined_world 0).lease.profile ≡ false))
    × ((ctx_of joined_world 1).lease.legacy ≡ false)
    × ((ctx_of joined_world 0).lease.legacy ≡ false)
unfolding run step at acquire_locked transition_locked domain_locked acquire transition
    clone_with_ofd_lock next_generation validate_slot_domain_anchor validate_anchored_acquire
one_family_example =
    one_family 9 joined_steps 1 0 (ctx_of joined_world 1) (ctx_of joined_world 0) (λ e. cc) refl
      refl hub_held hub_held
