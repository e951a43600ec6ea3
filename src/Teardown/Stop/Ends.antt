-- ===== src/Teardown/Stop/Ends.antt =====
-- The steps of mxdma_stop_device_protocol, from the last to the first.
use mxdriver.Common.{
  ◌≡◌, refl, arith, Bool, true, false, not, ◌&&◌, ◌||◌, none, some, ◌⊎◌, inl, inr, List, [], ◌∷◌,
  Ret, ebusy, euclean, Outcome, waiting, returned, if_cases,
}
use mxdriver.Teardown.{
  QueueOps, Device, Check, Course, Ended, stuck, left, passed, drain_device_protocol,
  stop_queue_threads, recover, retry, recover_poisoned, poison_device, queues_released,
  after_recoveries, after_release, finish, after_partial, first_partial, disable_partial,
  after_poisoned, unbind_protocol, detach_protocol, stop_device_protocol,
}
use mxdriver.Teardown.Stop.{
  QueueLaws, any_gone, any_check, device_gone, Looped, Sound, Down, retry-Looped,
  recover_poisoned-Looped, Stopped, report-Stopped, waits-Stopped, gone-Stopped, fails-Stopped,
}

gone_parts :
    (a b c d : Bool)
    → ((a ≡ true) ⊎ (b ≡ true) ⊎ (c ≡ true) ⊎ (d ≡ true))
    → (a || b || c || d) ≡ true
gone_parts a b c d (inl e) = ground (arith, e)
gone_parts a b c d (inr (inl e)) = ground (arith, e)
gone_parts a b c d (inr (inr (inl e))) = ground (arith, e)
gone_parts a b c d (inr (inr (inr e))) = ground (arith, e)

drain_left : (cs : List Check) → drain_device_protocol cs ≡ left → any_check cs ≡ true
unfolding drain_device_protocol
drain_left [] = λ e. cc
drain_left (c ∷ cs) =
    let P : Ended → Type 0 = λ x. x ≡ left → any_check (c ∷ cs) ≡ true in
    if_cases P c.idle _ _ (λ _. if_cases P c.gone _ _ (λ g _. ground (arith, g)) (λ _ z. cc))
      (λ _.
        if_cases P c.gone _ _ (λ g _. ground (arith, g))
          (λ _ z. let r = drain_left cs z in ground (arith, r)))

module _ {S E : Type 0} (ops : QueueOps S E) (laws : QueueLaws ops) where
  gone_at :
      (c : Course E)
      → ((any_check c.drains ≡ true)
          ⊎ (any_gone c.poison_rounds ≡ true)
          ⊎ (any_gone c.partial_rounds ≡ true)
          ⊎ (any_gone c.release_rounds ≡ true))
      → device_gone c ≡ true
  gone_at c g =
      gone_parts (any_check c.drains) (any_gone c.poison_rounds) (any_gone c.partial_rounds)
        (any_gone c.release_rounds) g

  after_recoveries-Stopped :
      (c : Course E) (d : Device S) (r : Ended × S)
      → Looped ops laws (Down ops laws) c.release_rounds d.queues r
      → Stopped ops laws c (after_recoveries ops d r)
  unfolding after_recoveries queues_released Down
  after_recoveries-Stopped c d (stuck, s) l =
      waits-Stopped ops laws c (record d { queues = s }) l.inv
  after_recoveries-Stopped c d (left, s) l =
      gone-Stopped ops laws c (record d { queues = s }) l.inv
        (gone_at c (inr (inr (inr (l.was_gone refl)))))
  after_recoveries-Stopped c d (passed, s) l =
      report-Stopped ops laws c (record d { queues = s; queues_initialized = false }) l.inv
        (l.good refl).1

  after_release-Stopped :
      (actual : Bool) (c : Course E) (d : Device S) (r : Ret × S)
      → laws.Inv r.1
      → (r.0 ≡ none → laws.Quiet r.1)
      → Stopped ops laws c (after_release ops actual c d r)
  unfolding after_release queues_released poison_device
  after_release-Stopped actual c d (none, s) i q =
      report-Stopped ops laws c
        (record d { queues = s; threads = false; queues_initialized = false }) i (q refl)
  after_release-Stopped actual c d (some e, s) i q =
      let t = ops.poison s in
      let bad = record d { queues = t; threads = false } in
      if_cases (Stopped ops laws c) actual _ _
        (λ _.
          after_recoveries-Stopped c bad (retry ops c.release_rounds t)
            (retry-Looped ops laws c.release_rounds t (laws.poison_inv s i)))
        (λ _. fails-Stopped ops laws c bad e (laws.poison_inv s i) (laws.poison_on s))

  finish-Stopped :
      (actual : Bool) (c : Course E) (d : Device S)
      → laws.Inv d.queues
      → (d.queues_initialized ≡ true → laws.Ready d.queues)
      → (d.queues_initialized ≡ false → laws.Quiet d.queues)
      → ops.poisoned d.queues ≡ false
      → Stopped ops laws c (finish ops actual c d)
  unfolding finish
  finish-Stopped actual c d i y q p =
      if_cases (Stopped ops laws c) d.queues_initialized _ _
        (λ e.
          after_release-Stopped actual c d (ops.release_queue c.release d.queues)
            (laws.release_inv c.release d.queues i p)
            (laws.release_quiet c.release d.queues i (y e) p))
        (λ e. report-Stopped ops laws c (stop_queue_threads d) i (q e))

  after_partial-Stopped :
      (actual : Bool) (c : Course E) (d : Device S) (s : S) (r : Ended × S)
      → Looped ops laws (Down ops laws) c.partial_rounds s r
      → d.queues_initialized ≡ false
      → Stopped ops laws c (after_partial ops actual c d r)
  unfolding after_partial Down
  after_partial-Stopped actual c d u (stuck, s) l n =
      waits-Stopped ops laws c (record d { queues = s }) l.inv
  after_partial-Stopped actual c d u (left, s) l n =
      gone-Stopped ops laws c (record d { queues = s }) l.inv
        (gone_at c (inr (inr (inl (l.was_gone refl)))))
  after_partial-Stopped actual c d u (passed, s) l n =
      finish-Stopped actual c (record d { queues = s }) l.inv (λ y. cc) (λ _. (l.good refl).1)
        (l.good refl).0

  first_partial-Stopped :
      (actual : Bool) (c : Course E) (d : Device S) (r : Outcome × S)
      → laws.Inv r.1
      → (r.0 ≡ returned none → Down ops laws r.1)
      → d.queues_initialized ≡ false
      → Stopped ops laws c (first_partial ops actual c d r)
  unfolding first_partial poison_device Down
  first_partial-Stopped actual c d (waiting, s) i q n =
      waits-Stopped ops laws c (record d { queues = s }) i
  first_partial-Stopped actual c d (returned none, s) i q n =
      finish-Stopped actual c (record d { queues = s }) i (λ y. cc) (λ _. (q refl).1) (q refl).0
  first_partial-Stopped actual c d (returned (some e), s) i q n =
      if_cases (Stopped ops laws c) actual _ _
        (λ _.
          after_partial-Stopped actual c d s (retry ops c.partial_rounds s)
            (retry-Looped ops laws c.partial_rounds s i) n)
        (λ _.
          fails-Stopped ops laws c (record d { queues = ops.poison s }) e (laws.poison_inv s i)
            (laws.poison_on s))

  disable_partial-Stopped :
      (actual : Bool) (c : Course E) (d : Device S)
      → laws.Inv d.queues
      → (d.queues_initialized ≡ true → laws.Ready d.queues)
      → ops.poisoned d.queues ≡ false
      → Stopped ops laws c (disable_partial ops actual c d)
  unfolding disable_partial Down
  disable_partial-Stopped actual c d i y p =
      let r = recover ops c.partial d.queues in
      if_cases (Stopped ops laws c) (not d.queues_initialized && ops.programmed d.queues) _ _
        (λ e.
          first_partial-Stopped actual c d r (laws.recover_inv c.partial d.queues i)
            (λ z. (
              laws.recover_sound c.partial d.queues i z,
              laws.recover_quiet c.partial d.queues i z,
            ))
            (ground (arith, e)))
        (λ e. finish-Stopped actual c d i y (λ n. laws.unprogrammed d.queues i (rw n at e)) p)

  after_poisoned-Stopped :
      (c : Course E) (d : Device S) (r : Ended × S)
      → (d.queues_initialized ≡ true → laws.Ready d.queues)
      → Looped ops laws (Sound ops laws) c.poison_rounds d.queues r
      → Stopped ops laws c (after_poisoned ops c d r)
  unfolding after_poisoned Sound
  after_poisoned-Stopped c d (stuck, s) y l =
      waits-Stopped ops laws c (record d { queues = s }) l.inv
  after_poisoned-Stopped c d (left, s) y l =
      gone-Stopped ops laws c (stop_queue_threads (record d { queues = s })) l.inv
        (gone_at c (inr (inl (l.was_gone refl))))
  after_poisoned-Stopped c d (passed, s) y l =
      disable_partial-Stopped true c (record d { queues = s }) l.inv (λ e. l.ready (y e))
        (l.good refl)

  unbind_protocol-Stopped :
      (c : Course E) (d : Device S) (e : Ended)
      → laws.Inv d.queues
      → (d.queues_initialized ≡ true → laws.Ready d.queues)
      → (e ≡ left → any_check c.drains ≡ true)
      → Stopped ops laws c (unbind_protocol ops c d e)
  unfolding unbind_protocol
  unbind_protocol-Stopped c d stuck i y g = waits-Stopped ops laws c d i
  unbind_protocol-Stopped c d left i y g =
      gone-Stopped ops laws c (stop_queue_threads d) i (gone_at c (inl (g refl)))
  unbind_protocol-Stopped c d passed i y g =
      after_poisoned-Stopped c d (recover_poisoned ops c.poison_rounds d.queues) y
        (recover_poisoned-Looped ops laws c.poison_rounds d.queues i)

  detach_protocol-Stopped :
      (c : Course E) (d : Device S)
      → laws.Inv d.queues
      → (d.queues_initialized ≡ true → laws.Ready d.queues)
      → Stopped ops laws c (detach_protocol ops c d)
  unfolding detach_protocol poison_device
  detach_protocol-Stopped c d i y =
      if_cases (Stopped ops laws c) (not c.idle) _ _
        (λ _.
          fails-Stopped ops laws c (stop_queue_threads (record d { queues = ops.poison d.queues }))
            ebusy (laws.poison_inv d.queues i) (laws.poison_on d.queues))
        (λ _.
          if_cases (Stopped ops laws c) (ops.poisoned d.queues) _ _
            (λ p. fails-Stopped ops laws c (stop_queue_threads d) euclean i p)
            (λ p. disable_partial-Stopped false c d i y p))

  -- The whole function.
  pub stop_device_protocol-Stopped :
      (actual : Bool) (c : Course E) (d : Device S)
      → laws.Inv d.queues
      → (d.queues_initialized ≡ true → laws.Ready d.queues)
      → Stopped ops laws c (stop_device_protocol ops actual c d)
  unfolding stop_device_protocol
  stop_device_protocol-Stopped actual c d i y =
      let q = record d { async_wq = false } in
      if_cases (Stopped ops laws c) actual _ _
        (λ _.
          unbind_protocol-Stopped c q (drain_device_protocol c.drains) i y (drain_left c.drains))
        (λ _. detach_protocol-Stopped c q i y)
