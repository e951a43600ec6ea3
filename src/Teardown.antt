-- ===== src/Teardown.antt =====
-- init.c: the end of a device, from the last of its commands to the memory that it could write to.
-- A loop that waits takes its rounds from a list.
pub mod Stop
pub mod Destroy
pub mod Rings
mod Tests
use mxdriver.Common.{
  Bool, true, false, not, ◌&&◌, ◌||◌, if◌then◌else◌, Option, none, some, List, [], ◌∷◌, Ret, Errno,
  ebusy, euclean, eopnotsupp, eio, Outcome, waiting, returned,
}

-- `struct mx_operations` as the teardown calls it: `S` is the state of the device's queues, `E` what
-- a call meets. recover_queue may be NULL.
pub record QueueOps (S E : Type 0) : Type 0 where
  pub poisoned : S → Bool
  pub poison : S → S
  pub programmed : S → Bool
  pub recover_queue : Option (E → S → Outcome × S)
  pub release_queue : E → S → Ret × S

-- `struct mx_pci_dev` as the teardown uses it.
pub record Device (S : Type 0) : Type 0 where
  pub queues : S
  pub queues_initialized : Bool
  pub threads : Bool
  pub async_wq : Bool

-- A round of a wait for the queues to be idle, and one of a loop of recoveries.
pub record Check : Type 0 where
  pub idle : Bool
  pub gone : Bool

pub record Round (E : Type 0) : Type 0 where
  pub gone : Bool
  pub meets : E

-- What mxdma_stop_device_protocol meets: `idle` where it looks once, the rounds of the drain, of the
-- loop while the device is poisoned, of the first recovery of partial queues and its repetitions,
-- and of the release and the recoveries after it.
pub record Course (E : Type 0) : Type 0 where
  pub idle : Bool
  pub drains : List Check
  pub poison_rounds : List (Round E)
  pub partial : E
  pub partial_rounds : List (Round E)
  pub release : E
  pub release_rounds : List (Round E)

-- How a loop ends: not in the rounds that are given, with the device gone, or as it should.
pub data Ended : Type 0 where
  stuck left passed : Ended

-- mxdma_drain_device_protocol, and whether the device is gone after it.
unfoldable pub drain_device_protocol : List Check → Ended
drain_device_protocol [] = stuck
drain_device_protocol (c ∷ cs) =
    let rest = drain_device_protocol cs in
    if c.idle then (if c.gone then left else passed) else if c.gone then left else rest

abbrev pub stop_queue_threads : {S : Type 0} → Device S → Device S
stop_queue_threads d = record d { threads = false }

module _ {S E : Type 0} (ops : QueueOps S E) where
  unfoldable pub recover_with : Option (E → S → Outcome × S) → E → S → Outcome × S
  recover_with none e s = (returned (some eopnotsupp), s)
  recover_with (some f) e s = f e s

  unfoldable pub recover : E → S → Outcome × S
  unfolding recover_with
  recover e s = recover_with ops.recover_queue e s

  -- After a recovery in a loop: `again` is the rest of the loop.
  unfoldable pub judge : Outcome × S → (S → Ended × S) → Ended × S
  judge (waiting, s) again = (stuck, s)
  judge (returned none, s) again = (passed, s)
  judge (returned (some e), s) again = again s

  -- `while (ret)`.
  unfoldable pub retry : List (Round E) → S → Ended × S
  unfolding judge recover
  retry [] s = (stuck, s)
  retry (r ∷ rs) s = if r.gone then (left, s) else judge (recover r.meets s) (λ t. retry rs t)

  -- `while (protocol_poisoned)`.
  unfoldable pub recover_poisoned : List (Round E) → S → Ended × S
  unfolding judge recover
  recover_poisoned [] s = if ops.poisoned s then (stuck, s) else (passed, s)
  recover_poisoned (r ∷ rs) s =
      if ops.poisoned s
      then (if r.gone then (left, s) else judge (recover r.meets s) (λ t. recover_poisoned rs t))
      else (passed, s)

  unfoldable pub poison_device : Device S → Device S
  poison_device d = record d { queues = ops.poison d.queues }

  -- The last line.
  unfoldable pub report : Device S → Outcome × Device S
  report d = (returned (if ops.poisoned d.queues then some eio else none), d)

  unfoldable pub queues_released : Device S → Outcome × Device S
  unfolding report
  queues_released d = report (record d { queues_initialized = false })

  -- The end of the loop after the release.
  unfoldable pub after_recoveries : Device S → Ended × S → Outcome × Device S
  unfolding queues_released
  after_recoveries d (stuck, s) = (waiting, record d { queues = s })
  after_recoveries d (left, s) = (returned none, record d { queues = s })
  after_recoveries d (passed, s) = queues_released (record d { queues = s })

  -- The result of release_queue, which stops the threads itself.
  unfoldable pub after_release : Bool → Course E → Device S → Ret × S → Outcome × Device S
  unfolding queues_released after_recoveries retry poison_device
  after_release actual c d (none, s) = queues_released (record d { queues = s; threads = false })
  after_release actual c d (some e, s) =
      let bad = poison_device (record d { queues = s; threads = false }) in
      if actual
      then after_recoveries bad (retry c.release_rounds bad.queues)
      else (returned (some e), bad)

  unfoldable pub finish : Bool → Course E → Device S → Outcome × Device S
  unfolding report after_release
  finish actual c d =
      if d.queues_initialized
      then after_release actual c d (ops.release_queue c.release d.queues)
      else report (stop_queue_threads d)

  -- The end of the loop on partial queues.
  unfoldable pub after_partial : Bool → Course E → Device S → Ended × S → Outcome × Device S
  unfolding finish
  after_partial actual c d (stuck, s) = (waiting, record d { queues = s })
  after_partial actual c d (left, s) = (returned none, record d { queues = s })
  after_partial actual c d (passed, s) = finish actual c (record d { queues = s })

  unfoldable pub first_partial : Bool → Course E → Device S → Outcome × S → Outcome × Device S
  unfolding finish after_partial retry poison_device
  first_partial actual c d (waiting, s) = (waiting, record d { queues = s })
  first_partial actual c d (returned none, s) = finish actual c (record d { queues = s })
  first_partial actual c d (returned (some e), s) =
      if actual
      then after_partial actual c d (retry c.partial_rounds s)
      else (returned (some e), poison_device (record d { queues = s }))

  unfoldable pub disable_partial : Bool → Course E → Device S → Outcome × Device S
  unfolding finish first_partial recover
  disable_partial actual c d =
      if not d.queues_initialized && ops.programmed d.queues
      then first_partial actual c d (recover c.partial d.queues)
      else finish actual c d

  -- The end of the loop while the device is poisoned.
  unfoldable pub after_poisoned : Course E → Device S → Ended × S → Outcome × Device S
  unfolding disable_partial
  after_poisoned c d (stuck, s) = (waiting, record d { queues = s })
  after_poisoned c d (left, s) = (returned none, stop_queue_threads (record d { queues = s }))
  after_poisoned c d (passed, s) = disable_partial true c (record d { queues = s })

  -- Of a device that is really unbound, by how the drain ends, and of one that is not.
  unfoldable pub unbind_protocol : Course E → Device S → Ended → Outcome × Device S
  unfolding after_poisoned recover_poisoned
  unbind_protocol c d stuck = (waiting, d)
  unbind_protocol c d left = (returned none, stop_queue_threads d)
  unbind_protocol c d passed = after_poisoned c d (recover_poisoned c.poison_rounds d.queues)

  unfoldable pub detach_protocol : Course E → Device S → Outcome × Device S
  unfolding disable_partial poison_device
  detach_protocol c d =
      if not c.idle
      then (returned (some ebusy), stop_queue_threads (poison_device d))
      else if ops.poisoned d.queues
      then (returned (some euclean), stop_queue_threads d)
      else disable_partial false c d

  unfoldable pub stop_device_protocol : Bool → Course E → Device S → Outcome × Device S
  unfolding drain_device_protocol unbind_protocol detach_protocol
  stop_device_protocol actual c d =
      let q = record d { async_wq = false } in
      if actual then unbind_protocol c q (drain_device_protocol c.drains) else detach_protocol c q
