-- ===== src/Fops/Drain.antt =====
-- The fence of the teardown: calls of user space, the waiters of transfers that nobody waits for,
-- and the teardown, in any order.
use mxdriver.Common.{
  ℕ, ◌+◌, ◌-◌, ◌≡◌, ◌<◌, refl, ap, ◌∙◌, arith, Bool, true, false, not, ◌||◌, Option, none, some,
  Errno, if_cases, if◌then◌else◌,
}
use mxdriver.Lease.Device.{FileCtx}
use mxdriver.Fops.{
  PercpuRef, IsPercpuRef, IoDevice, OpenFile, Prepared, turned_away, entered, after_tryget,
  prepare_device, prepare_ctx, mxdma_device_prepare, mxdma_device_finish, mxdma_device_offline,
  hand_over, mx_transfer_schedule_wait, mx_transfer_wait_work,
}

-- The device, the bodies of calls that run, and the waiters that hold a reference.
pub record IoTraffic (R : Type 0) : Type 0 where
  pub device : IoDevice R
  pub bodies : ℕ
  pub waiters : ℕ

-- After mxdma_device_prepare.
abbrev pub prepared : {R : Type 0} → IoTraffic R → Prepared R → IoTraffic R
prepared s (turned_away e none) = s
prepared s (turned_away e (some d)) = record s { device = d }
prepared s (entered ctx d) = record s { device = d; bodies = s.bodies + 1 }

-- A nowait transfer is handed to a waiter, or the work was queued before.
abbrev pub scheduled : {R : Type 0} → PercpuRef R → Bool → IoTraffic R → IoTraffic R
scheduled ops queued s = record s {
  device = hand_over ops queued s.device;
  waiters = if not queued then s.waiters else s.waiters + 1;
}

abbrev pub opened_as : {R : Type 0} → Option FileCtx → Bool → IoDevice R → OpenFile R
opened_as ctx is_char d = record { private_data = ctx; is_char = is_char; device = some d }

-- A step: a call comes to the device through a descriptor, a body of a call ends, a body hands a
-- transfer to a waiter, a waiter ends, the teardown closes the device, or anything happens to the
-- rest of the device.
pub data IoStep {R : Type 0} (ops : PercpuRef R) (s : IoTraffic R) : IoTraffic R → Type 0 where
  prepares :
      (ctx : Option FileCtx) (is_char : Bool)
      → IoStep ops s (prepared s (mxdma_device_prepare ops (opened_as ctx is_char s.device)))
  finishes :
      0 < s.bodies
      → IoStep ops s (record s { device = mxdma_device_finish ops s.device; bodies = s.bodies - 1 })
  schedules : (queued : Bool) → 0 < s.bodies → IoStep ops s (scheduled ops queued s)
  waited :
      0 < s.waiters
      → IoStep ops s
          (record s { device = mx_transfer_wait_work ops s.device; waiters = s.waiters - 1 })
  closes : IoStep ops s (record s { device = mxdma_device_offline ops s.device })
  changes : (d : IoDevice R) → d.io_ref ≡ s.device.io_ref → IoStep ops s (record s { device = d })

pub data IoRuns {R : Type 0} (ops : PercpuRef R) (s : IoTraffic R) : IoTraffic R → Type 0 where
  rest : IoRuns ops s s
  then_step : (t u : IoTraffic R) → IoRuns ops s t → IoStep ops t u → IoRuns ops s u

module _ {R : Type 0} {ops : PercpuRef R} (laws : IsPercpuRef ops) where
  -- Each body and each waiter holds a reference, and nothing else does.
  abbrev pub IsCounted : IoTraffic R → Type 0
  IsCounted s = laws.holders s.device.io_ref ≡ s.bodies + s.waiters

  record IsQuiet (s : IoTraffic R) : Type 0 where
    dying : ops.is_dying s.device.io_ref ≡ true
    counted : IsCounted s
    no_bodies : s.bodies ≡ 0
    no_waiters : s.waiters ≡ 0

  -- The ends of mxdma_device_prepare on a device.
  prepare_cases :
      (P : Prepared R → Type 0) (ctx : Option FileCtx) (is_char : Bool) (d : IoDevice R)
      → ((e : Errno) → P (turned_away e (some d)))
      → ((e : Errno) (r : R)
          → ops.tryget_live d.io_ref ≡ some r
          → P (turned_away e (some (record d { io_ref = ops.put r }))))
      → ((c : FileCtx) (r : R)
          → ops.tryget_live d.io_ref ≡ some r
          → P (entered c (record d { io_ref = r })))
      → P (mxdma_device_prepare ops (opened_as ctx is_char d))
  unfolding mxdma_device_prepare prepare_ctx prepare_device after_tryget
  prepare_cases P none is_char d away left came = away _
  prepare_cases P (some c) is_char d away left came =
      if_cases P (not c.live || not is_char) _ _ (λ _. away _)
        λ _.
          if_cases P (not d.is_device) _ _ (λ _. away _) λ _. tried (ops.tryget_live d.io_ref) refl
    where
      tried : (o : Option R) → ops.tryget_live d.io_ref ≡ o → P (after_tryget ops c d o)
      tried none q = away _
      tried (some r) q =
          if_cases P (d.lease.removed || not d.enabled) _ _ (λ _. left _ r q) (λ _. came c r q)

  IoStep-IsCounted : (s t : IoTraffic R) → IoStep ops s t → IsCounted s → IsCounted t
  unfolding mxdma_device_finish hand_over mx_transfer_schedule_wait mx_transfer_wait_work
      mxdma_device_offline
  IoStep-IsCounted s _ (prepares ctx is_char) c =
      prepare_cases (λ p. IsCounted (prepared s p)) ctx is_char s.device (λ e. c)
        (λ e r q. omega (
          arith,
          laws.tryget_counts s.device.io_ref r q,
          laws.put_drops r (omega (arith, laws.tryget_counts s.device.io_ref r q)),
          c,
        ))
        λ x r q. omega (arith, laws.tryget_counts s.device.io_ref r q, c)
  IoStep-IsCounted s _ (finishes p) c =
      omega (arith, laws.put_drops s.device.io_ref (omega (arith, c, p)), c, p)
  IoStep-IsCounted s _ (schedules true p) c = omega (arith, laws.get_counts s.device.io_ref, c)
  IoStep-IsCounted s _ (schedules false p) c = omega (
    arith,
    laws.get_counts s.device.io_ref,
    laws.put_drops (ops.get s.device.io_ref) (omega (arith, laws.get_counts s.device.io_ref)),
    c,
  )
  IoStep-IsCounted s _ (waited p) c =
      omega (arith, laws.put_drops s.device.io_ref (omega (arith, c, p)), c, p)
  IoStep-IsCounted s _ closes c =
      if_cases (λ r. laws.holders r ≡ s.bodies + s.waiters) (not (ops.is_dying s.device.io_ref)) _ _
        (λ _. laws.kill_keeps s.device.io_ref ∙ c) (λ _. c)
  IoStep-IsCounted s _ (changes d e) c = ap (λ r. laws.holders r) e ∙ c

  IoStep-IsQuiet : (s t : IoTraffic R) → IoStep ops s t → IsQuiet s → IsQuiet t
  unfolding mxdma_device_offline
  IoStep-IsQuiet s _ (prepares ctx is_char) q =
      prepare_cases (λ p. IsQuiet (prepared s p)) ctx is_char s.device (λ e. keep)
        (λ e r l. absurd (cc (q.dying, laws.tryget_live_only s.device.io_ref r l)))
        (λ x r l. absurd (cc (q.dying, laws.tryget_live_only s.device.io_ref r l)))
    where
      keep : IsQuiet (record s { device = s.device })
      keep = record {
        dying = q.dying;
        counted = q.counted;
        no_bodies = q.no_bodies;
        no_waiters = q.no_waiters;
      }
  IoStep-IsQuiet s _ (finishes p) q = absurd (omega (arith, q.no_bodies, p))
  IoStep-IsQuiet s _ (schedules queued p) q = absurd (omega (arith, q.no_bodies, p))
  IoStep-IsQuiet s _ (waited p) q = absurd (omega (arith, q.no_waiters, p))
  IoStep-IsQuiet s t closes q = record {
    dying =
        if_cases (λ r. ops.is_dying r ≡ true) (not (ops.is_dying s.device.io_ref)) _ _
          (λ _. laws.kill_dies s.device.io_ref) (λ _. q.dying);
    counted = IoStep-IsCounted s _ closes q.counted;
    no_bodies = q.no_bodies;
    no_waiters = q.no_waiters;
  }
  IoStep-IsQuiet s _ (changes d e) q = record {
    dying = ap (λ r. ops.is_dying r) e ∙ q.dying;
    counted = ap (λ r. laws.holders r) e ∙ q.counted;
    no_bodies = q.no_bodies;
    no_waiters = q.no_waiters;
  }

  IoRuns-IsCounted : (s t : IoTraffic R) → IoRuns ops s t → IsCounted s → IsCounted t
  IoRuns-IsCounted s _ rest c = c
  IoRuns-IsCounted s u (then_step t _ runs step) c =
      IoStep-IsCounted t u step (IoRuns-IsCounted s t runs c)

  IoRuns-IsQuiet : (s t : IoTraffic R) → IoRuns ops s t → IsQuiet s → IsQuiet t
  IoRuns-IsQuiet s _ rest q = q
  IoRuns-IsQuiet s u (then_step t _ runs step) q =
      IoStep-IsQuiet t u step (IoRuns-IsQuiet s t runs q)

  -- Over any percpu_ref with its documented laws, where each reference of io_ref was that of a
  -- body of a call or of a waiter, and after any steps of calls on the device's nodes, waiters of
  -- nowait transfers and the teardown percpu_ref_is_zero holds of it, no body of a call and no
  -- waiter is there then, nor after any further steps.
  pub IoRuns_drained :
      (s t u : IoTraffic R)
      → IsCounted s
      → IoRuns ops s t
      → ops.is_zero t.device.io_ref ≡ true
      → IoRuns ops t u
      → (t.bodies ≡ 0) × (t.waiters ≡ 0) × (u.bodies ≡ 0) × (u.waiters ≡ 0)
  IoRuns_drained s t u c before is_zero after =
      let none_left = laws.zero_holders t.device.io_ref is_zero in
      let ct = IoRuns-IsCounted s t before c in
      let q : IsQuiet u = IoRuns-IsQuiet t u after (record {
        dying = laws.zero_dying t.device.io_ref is_zero;
        counted = ct;
        no_bodies = omega (arith, none_left, ct);
        no_waiters = omega (arith, none_left, ct);
      }) in
      (omega (arith, none_left, ct), omega (arith, none_left, ct), q.no_bodies, q.no_waiters)
