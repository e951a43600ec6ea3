-- ===== src/Lease/Tests/Calls.antt =====
-- The theorems on the calls of lease.c that acquire a lease, move it or count an access.
use mxdriver.Common.{◌≡◌, refl, none, some, efault, true, false, arith}
use mxdriver.Lease.Uapi.{no_profile, hub_publisher, try_quiescent}
use mxdriver.Lease.Sm.{acquire, validate_anchored_acquire}
use mxdriver.Lease.Sm.Roundtrip.{unready_by}
use mxdriver.Lease.Device.{next_generation, valid_header, valid_state_file}
use mxdriver.Lease.Acquire.{AcquirePending, acquire_check, acquire_locked, mx_lease_acquire}
use mxdriver.Lease.Acquire.Faults.{undisturbed, fault_restores, fault_drops_held}
use mxdriver.Lease.Transition.{TransitionPending, transition_locked, fill_transition}
use mxdriver.Lease.Context.{mx_lease_direct_begin}
use mxdriver.Lease.Context.Laws.{Begun, direct_begin-Begun}
use mxdriver.Lease.World.{run, step, at, free_holder}
use mxdriver.Lease.Tests.{published_world, ctx_of, asks, turns, fget, state_file}
use mxdriver.Lease.Tests.Machine.{opened_world, none_else, opened-IsSound, publisher}

-- What the publisher's acquisition leaves pending.
abbrev acquired : AcquirePending
acquired =
    elim (acquire_locked opened_world.lease (ctx_of opened_world 0) (asks hub_publisher 0)
      state_file).published [
        | some p ↦ p
        | none ↦ record {
          reply = none;
          new_holder = free_holder;
          new_generation = 0;
          fresh_anchor = false;
        }
      ]

fault_restores_example :
    let t =
      mx_lease_acquire fget true undisturbed false opened_world.lease
        (ctx_of opened_world 0)
        (some (asks hub_publisher 0)) in
    (t.0 ≡ some efault)
    × (t.1.state ≡ unready_by hub_publisher opened_world.lease.state)
    × (t.2 ≡ ctx_of opened_world 0)
unfolding run step at acquire_locked acquire acquire_check valid_header valid_state_file
fault_restores_example =
    fault_restores fget true opened_world.lease (ctx_of opened_world 0) (asks hub_publisher 0)
      state_file none_else opened-IsSound refl refl refl

fault_drops_held_example :
    let t =
      mx_lease_acquire fget true undisturbed false published_world.lease publisher
        (some (asks hub_publisher 1)) in
    (t.0 ≡ some efault)
    × (t.2.lease.profile ≡ no_profile)
    × (t.2.direct_count ≡ publisher.direct_count)
    × (t.2.transfer_count ≡ publisher.transfer_count)
    × (t.2.bar_mapping_count ≡ publisher.bar_mapping_count)
unfolding run step at acquire_locked acquire acquire_check valid_header valid_state_file
    next_generation validate_anchored_acquire
fault_drops_held_example =
    fault_drops_held fget true published_world.lease publisher (asks hub_publisher 1) state_file
      refl refl refl

direct_begin-Begun_example :
    Begun published_world.lease publisher (mx_lease_direct_begin published_world.lease publisher)
unfolding run step at acquire_locked acquire
direct_begin-Begun_example = direct_begin-Begun published_world.lease publisher (omega arith)

-- What the publisher's activation leaves pending.
abbrev activated : TransitionPending
activated =
    elim (transition_locked published_world.lease publisher (turns try_quiescent)).published [
      | some p ↦ p
      | none ↦ record {
        reply = fill_transition published_world.lease publisher;
        old_state = published_world.lease.state;
        old_holder = free_holder;
        new_state = published_world.lease.state;
        new_holder = free_holder;
      }
    ]
