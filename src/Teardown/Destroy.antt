-- ===== src/Teardown/Destroy.antt =====
-- init.c: destroy_mx_pdev. Kernel objects that are there or not are Booleans.
pub mod Safe
use mxdriver.Common.{
  Bool, true, false, not, ◌&&◌, if◌then◌else◌, Option, none, some, List, [], ◌∷◌, Ret, Errno,
  euclean, Outcome, waiting, returned,
}
use mxdriver.Teardown.{
  QueueOps, Device, Check, Course, Ended, stuck, left, passed, drain_device_protocol,
  stop_device_protocol,
}

-- `struct mx_pci_dev` and its `bar_map`.
pub record Pdev (S : Type 0) : Type 0 where
  pub device : Device S
  pub teardown_started : Bool
  pub removed : Bool
  pub enabled : Bool
  pub io_ref_dying : Bool
  pub cdevs : Bool
  pub bar_vmas : Bool
  pub latency_request : Bool
  pub dma_reclaim_safe : Bool
  pub cleanup_thread : Bool
  pub chrdev_region : Bool
  pub attach_error : Ret
  pub bus_master : Bool
  pub mboxes : Bool
  pub page_pool : Bool
  pub queue_memory : Bool
  pub bar_mapped : Bool
  pub pci_device : Bool

-- What it meets before the protocol is stopped and after it. In a round of the fence `idle` says
-- that no PCI transaction is pending.
pub record Way (E : Type 0) : Type 0 where
  pub drains : List Check
  pub quiesced : List Bool
  pub course : Course E
  pub fences : List Check

-- `waits` where the rounds are over and the call is not.
pub data Verdict : Type 0 where
  waits : Verdict
  finished : Bool → Verdict

-- mxdma_wait_io_quiesced.
unfoldable pub wait_io_quiesced : List Bool → Bool
wait_io_quiesced [] = false
wait_io_quiesced (zero_refs ∷ rs) =
    let rest = wait_io_quiesced rs in if zero_refs then true else rest

-- The loop of mxdma_fence_pci_unbind.
unfoldable pub fence_pci_unbind : List Check → Ended
fence_pci_unbind [] = stuck
fence_pci_unbind (c ∷ cs) =
    let rest = fence_pci_unbind cs in if c.idle then passed else if c.gone then left else rest

module _ {S E : Type 0} (ops : QueueOps S E) where
  unfoldable pub free_all : Pdev S → Pdev S
  free_all d = record d {
    mboxes = false;
    page_pool = false;
    queue_memory = false;
    bar_mapped = false;
    pci_device = false;
  }

  -- From the write of dma_reclaim_safe on.
  unfoldable pub conclude_destroy : Bool → Pdev S → Verdict × Pdev S
  unfolding free_all
  conclude_destroy true d = (
    finished true,
    free_all (record d { dma_reclaim_safe = true; cleanup_thread = false; chrdev_region = false }),
  )
  conclude_destroy false d = (
    finished false,
    record d { dma_reclaim_safe = false; chrdev_region = false; attach_error = some euclean },
  )

  unfoldable pub fence : Pdev S → Ended → Verdict × Pdev S
  unfolding conclude_destroy
  fence d stuck = (waits, d)
  fence d left = conclude_destroy true d
  fence d passed = conclude_destroy true d

  unfoldable pub after_stop : Bool → Way E → Pdev S → Outcome × Device S → Verdict × Pdev S
  unfolding conclude_destroy fence fence_pci_unbind
  after_stop actual w d (waiting, q) = (waits, record d { device = q })
  after_stop actual w d (returned (some e), q) = conclude_destroy false (record d { device = q })
  after_stop actual w d (returned none, q) =
      if actual
      then fence (record d { device = q; bus_master = false }) (fence_pci_unbind w.fences)
      else conclude_destroy true (record d { device = q })

  unfoldable pub stop_protocol : Bool → Way E → Pdev S → Verdict × Pdev S
  unfolding after_stop
  stop_protocol actual w d =
      after_stop actual w d (stop_device_protocol ops actual w.course d.device)

  -- The drain, where the device is really unbound, and the wait; `strip` is what comes between them
  -- and the stop.
  unfoldable pub quiesce : Bool → Way E → (Pdev S → Pdev S) → Pdev S → Ended → Verdict × Pdev S
  unfolding stop_protocol wait_io_quiesced
  quiesce actual w strip d stuck = (waits, d)
  quiesce actual w strip d left =
      if wait_io_quiesced w.quiesced then stop_protocol actual w (strip d) else (waits, d)
  quiesce actual w strip d passed =
      if wait_io_quiesced w.quiesced then stop_protocol actual w (strip d) else (waits, d)

  unfoldable pub offline : Pdev S → Pdev S
  offline d = record d {
    teardown_started = true;
    removed = true;
    enabled = false;
    io_ref_dying = true;
  }

  abbrev pub strip_nodes : Pdev S → Pdev S
  strip_nodes d = record d { cdevs = false; bar_vmas = false; latency_request = false }

  unfoldable pub first_destroy : Bool → Way E → Pdev S → Verdict × Pdev S
  unfolding quiesce offline drain_device_protocol
  first_destroy actual w d =
      quiesce actual w strip_nodes (offline d)
        (if actual then drain_device_protocol w.drains else passed)

  unfoldable pub destroy_mx_pdev : Bool → Way E → Pdev S → Verdict × Pdev S
  unfolding quiesce first_destroy drain_device_protocol
  destroy_mx_pdev actual w d =
      if d.teardown_started
      then (if not (ops.poisoned d.device.queues)
          then (finished true, d)
          else if not actual
          then (finished false, d)
          else quiesce actual w (λ x. x) d (drain_device_protocol w.drains))
      else first_destroy actual w d
