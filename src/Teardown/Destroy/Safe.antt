-- ===== src/Teardown/Destroy/Safe.antt =====
-- When destroy_mx_pdev frees the memory that the device could write to.
use mxdriver.Common.{
  ◌≡◌, refl, arith, Bool, true, false, not, if◌then◌else◌, none, some, ◌⊎◌, Outcome, waiting,
  returned, if_cases,
}
use mxdriver.Teardown.{
  QueueOps, Device, Ended, stuck, left, passed, drain_device_protocol, stop_device_protocol,
}
use mxdriver.Teardown.Stop.{QueueLaws, Stopped, device_gone}
use mxdriver.Teardown.Stop.Ends.{stop_device_protocol-Stopped}
use mxdriver.Teardown.Destroy.{
  Pdev, Way, Verdict, waits, finished, wait_io_quiesced, fence_pci_unbind, free_all,
  conclude_destroy, fence, after_stop, stop_protocol, quiesce, offline, strip_nodes, first_destroy,
  destroy_mx_pdev,
}

module _ {S E : Type 0} (ops : QueueOps S E) (laws : QueueLaws ops) where
  -- The memory is freed, and marked as free to reclaim, only where the device does not write to it. Where the
  -- call returns false all of it is kept, and the device is marked for the next call.
  pub record Freed (w : Way E) (d : Pdev S) (r : Verdict × Pdev S) : Type 0 where
    pub inv : laws.Inv r.1.device.queues
    pub frees :
        d.queue_memory ≡ true
        → r.1.queue_memory ≡ false
        → (device_gone w.course ≡ true) ⊎ laws.Quiet r.1.device.queues
    pub reclaims :
        d.dma_reclaim_safe ≡ false
        → r.1.dma_reclaim_safe ≡ true
        → (device_gone w.course ≡ true) ⊎ laws.Quiet r.1.device.queues
    pub keeps :
        r.0 ≡ finished false
        → (ops.poisoned r.1.device.queues ≡ true)
          × (r.1.queue_memory ≡ d.queue_memory)
          × (r.1.page_pool ≡ d.page_pool)
          × (r.1.bar_mapped ≡ d.bar_mapped)

  -- Where nothing is freed.
  Held : Pdev S → Pdev S → Type 0
  Held d e =
      (e.queue_memory ≡ d.queue_memory)
      × (e.page_pool ≡ d.page_pool)
      × (e.bar_mapped ≡ d.bar_mapped)
      × (e.dma_reclaim_safe ≡ d.dma_reclaim_safe)

  Held-Freed :
      (w : Way E) (d e : Pdev S) (v : Verdict)
      → laws.Inv e.device.queues
      → Held d e
      → (v ≡ finished false → ops.poisoned e.device.queues ≡ true)
      → Freed w d (v, e)
  unfolding Held
  Held-Freed w d e v i (a, b, c, g) p = record {
    inv = i;
    frees = λ y n. cc (a, y, n);
    reclaims = λ n y. cc (g, y, n);
    keeps = λ z. (p z, a, b, c);
  }

  safe-Freed :
      (w : Way E) (d e : Pdev S)
      → laws.Inv e.device.queues
      → (device_gone w.course ≡ true) ⊎ laws.Quiet e.device.queues
      → Freed w d (conclude_destroy ops true e)
  unfolding conclude_destroy free_all
  safe-Freed w d e i q = record { inv = i; frees = λ _ _. q; reclaims = λ _ _. q; keeps = λ z. cc }

  fence-Freed :
      (w : Way E) (d e : Pdev S) (v : Ended)
      → Held d e
      → laws.Inv e.device.queues
      → (device_gone w.course ≡ true) ⊎ laws.Quiet e.device.queues
      → Freed w d (fence ops e v)
  unfolding fence
  fence-Freed w d e stuck h i q = Held-Freed w d e waits i h (λ z. cc)
  fence-Freed w d e left h i q = safe-Freed w d e i q
  fence-Freed w d e passed h i q = safe-Freed w d e i q

  after_stop-Freed :
      (actual : Bool) (w : Way E) (d e : Pdev S) (r : Outcome × Device S)
      → Held d e
      → Stopped ops laws w.course r
      → Freed w d (after_stop ops actual w e r)
  unfolding after_stop Held conclude_destroy
  after_stop-Freed actual w d e (waiting, q) h s =
      Held-Freed w d (record e { device = q }) waits s.inv h (λ z. cc)
  after_stop-Freed actual w d e (returned (some x), q) (a, b, c, g) s = record {
    inv = s.inv;
    frees = λ y n. cc (a, y, n);
    reclaims = λ n y. cc;
    keeps = λ _. (s.marked x refl, a, b, c);
  }
  after_stop-Freed actual w d e (returned none, q) h s =
      if_cases (Freed w d) actual _ _
        (λ _.
          fence-Freed w d (record e { device = q; bus_master = false }) (fence_pci_unbind w.fences)
            h s.inv (s.ended refl))
        (λ _. safe-Freed w d (record e { device = q }) s.inv (s.ended refl))

  stop_protocol-Freed :
      (actual : Bool) (w : Way E) (d e : Pdev S)
      → Held d e
      → laws.Inv e.device.queues
      → (e.device.queues_initialized ≡ true → laws.Ready e.device.queues)
      → Freed w d (stop_protocol ops actual w e)
  unfolding stop_protocol
  stop_protocol-Freed actual w d e h i y =
      after_stop-Freed actual w d e (stop_device_protocol ops actual w.course e.device) h
        (stop_device_protocol-Stopped ops laws actual w.course e.device i y)

  quiesced-Freed :
      (actual : Bool) (w : Way E) (d e f : Pdev S)
      → Held d e
      → Held d f
      → laws.Inv e.device.queues
      → laws.Inv f.device.queues
      → (f.device.queues_initialized ≡ true → laws.Ready f.device.queues)
      → Freed w d (if wait_io_quiesced w.quiesced then stop_protocol ops actual w f else (waits, e))
  quiesced-Freed actual w d e f h k i j y =
      if_cases (Freed w d) (wait_io_quiesced w.quiesced) _ _
        (λ _. stop_protocol-Freed actual w d f k j y) (λ _. Held-Freed w d e waits i h (λ z. cc))

  quiesce-Freed :
      (actual : Bool) (w : Way E) (strip : Pdev S → Pdev S) (d e : Pdev S) (v : Ended)
      → Held d e
      → Held d (strip e)
      → laws.Inv e.device.queues
      → laws.Inv (strip e).device.queues
      → ((strip e).device.queues_initialized ≡ true → laws.Ready (strip e).device.queues)
      → Freed w d (quiesce ops actual w strip e v)
  unfolding quiesce
  quiesce-Freed actual w strip d e stuck h k i j y = Held-Freed w d e waits i h (λ z. cc)
  quiesce-Freed actual w strip d e left h k i j y = quiesced-Freed actual w d e (strip e) h k i j y
  quiesce-Freed actual w strip d e passed h k i j y =
      quiesced-Freed actual w d e (strip e) h k i j y

  first_destroy-Freed :
      (actual : Bool) (w : Way E) (d : Pdev S)
      → laws.Inv d.device.queues
      → (d.device.queues_initialized ≡ true → laws.Ready d.device.queues)
      → Freed w d (first_destroy ops actual w d)
  unfolding first_destroy offline Held
  first_destroy-Freed actual w d i y =
      quiesce-Freed actual w (strip_nodes ops) d (offline ops d)
        (if actual then drain_device_protocol w.drains else passed) (refl, refl, refl, refl)
        (refl, refl, refl, refl) i i y

  -- Over any operations on queues that keep an invariant, and on a device whose queues satisfy it
  -- and are set up where they are initialized, destroy_mx_pdev keeps the invariant, frees the
  -- memory of the queues or sets dma_reclaim_safe only where some round has found the device gone
  -- or the device no longer writes to that memory, and where it returns false the device is
  -- marked as poisoned and keeps the queues' memory, the page pool and the BAR.
  pub destroy_mx_pdev-Freed :
      (actual : Bool) (w : Way E) (d : Pdev S)
      → laws.Inv d.device.queues
      → (d.device.queues_initialized ≡ true → laws.Ready d.device.queues)
      → Freed w d (destroy_mx_pdev ops actual w d)
  unfolding destroy_mx_pdev Held
  destroy_mx_pdev-Freed actual w d i y =
      if_cases (Freed w d) d.teardown_started _ _
        (λ _.
          if_cases (Freed w d) (not (ops.poisoned d.device.queues)) _ _
            (λ _. Held-Freed w d d (finished true) i (refl, refl, refl, refl) (λ z. cc))
            (λ p.
              if_cases (Freed w d) (not actual) _ _
                (λ _.
                  Held-Freed w d d (finished false) i (refl, refl, refl, refl)
                    (λ _. ground (arith, p)))
                (λ _.
                  quiesce-Freed actual w (λ x. x) d d (drain_device_protocol w.drains)
                    (refl, refl, refl, refl) (refl, refl, refl, refl) i i y)))
        (λ _. first_destroy-Freed actual w d i y)
