-- ===== src/Lease/Tests/Machine.antt =====
-- The theorems on lease_sm.h, at a free descriptor, a publisher and one beside it.
use mxdriver.Common.{◌≡◌, refl, [], ◌∷◌, true}
use mxdriver.Lease.Uapi.{hub_publisher}
use mxdriver.Lease.Sm.{acquire, release}
use mxdriver.Lease.Sm.Tally.{Tally, others}
use mxdriver.Lease.Sm.Account.{Keeps}
use mxdriver.Lease.Sm.Admission.{acquire-Keeps}
use mxdriver.Lease.Sm.Roundtrip.{unready_by, release-acquire}
use mxdriver.Lease.Device.{FileCtx}
use mxdriver.Lease.Acquire.{acquire_locked}
use mxdriver.Lease.Acquire.Laws.{IsSound}
use mxdriver.Lease.World.{World, opens, initial, run, step, at}
use mxdriver.Lease.World.Sound.{holders, IsSound-at}
use mxdriver.Lease.World.Steps.{run-initial-IsSoundWorld}
use mxdriver.Lease.Tests.{published_steps, published_world, ctx_of}

abbrev pub opened_world : World
opened_world = run (initial 9) (opens true ∷ [])

abbrev pub none_else : Tally
none_else = others (holders opened_world.ctxs) 0

pub opened-IsSound : IsSound opened_world.lease (ctx_of opened_world 0) none_else
unfolding run step
opened-IsSound =
    IsSound-at opened_world 0 (ctx_of opened_world 0) (run-initial-IsSoundWorld 9 (opens true ∷ []))
      refl

abbrev pub publisher : FileCtx
publisher = ctx_of published_world 0

abbrev pub bystander : FileCtx
bystander = ctx_of published_world 1

pub publisher-IsSound :
    IsSound published_world.lease publisher (others (holders published_world.ctxs) 0)
unfolding run step at acquire_locked acquire
publisher-IsSound =
    IsSound-at published_world 0 publisher (run-initial-IsSoundWorld 9 published_steps) refl

pub bystander-IsSound :
    IsSound published_world.lease bystander (others (holders published_world.ctxs) 1)
unfolding run step at acquire_locked acquire
bystander-IsSound =
    IsSound-at published_world 1 bystander (run-initial-IsSoundWorld 9 published_steps) refl

acquire-Keeps_example :
    Keeps
      (acquire opened_world.lease.state (ctx_of opened_world 0).lease hub_publisher).1
      (acquire opened_world.lease.state (ctx_of opened_world 0).lease hub_publisher).2
      none_else
acquire-Keeps_example =
    acquire-Keeps opened_world.lease.state (ctx_of opened_world 0).lease hub_publisher none_else
      opened-IsSound.keeps

release-acquire_example :
    release
      (acquire opened_world.lease.state (ctx_of opened_world 0).lease hub_publisher).1
      (acquire opened_world.lease.state (ctx_of opened_world 0).lease hub_publisher).2
    ≡ (unready_by hub_publisher opened_world.lease.state, (ctx_of opened_world 0).lease)
unfolding run step acquire
release-acquire_example =
    release-acquire opened_world.lease.state (ctx_of opened_world 0).lease hub_publisher none_else
      opened-IsSound.keeps refl refl
