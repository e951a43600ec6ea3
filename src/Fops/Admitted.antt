-- ===== src/Fops/Admitted.antt =====
-- Which calls of user space reach the handlers that touch the device.
use mxdriver.Common.{
  ℕ, ◌≡◌, ◌<◌, ◌≤◌, refl, arith, true, false, not, ◌||◌, ◌∙◌, Errno, Option, none, some, Ret, inl,
  inr, u32_max, if_cases, Result, err,
}
use mxdriver.Lease.Device.{DeviceLease, FileCtx}
use mxdriver.Lease.Context.{mx_lease_direct_begin}
use mxdriver.Lease.Context.Laws.{may_access, Begun, direct_begin-Begun, direct_begin-removed}
use mxdriver.Fops.{
  PercpuRef, IsPercpuRef, Cmd, mx_lease_ioctl_cmd, mx_ioctl_is_direct_cmd, IoDevice, OpenFile, Body,
  Handlers, Prepared, turned_away, entered, mx_prewake_handlers, after_tryget, prepare_device,
  prepare_ctx, mxdma_device_prepare, direct_call, ioctl_body, mmap_body, called, mxdma_device_ioctl,
  mxdma_bar_mmap,
}

direct-lease : (cmd : Cmd) → mx_ioctl_is_direct_cmd cmd ≡ true → mx_lease_ioctl_cmd cmd ≡ false
unfolding mx_ioctl_is_direct_cmd mx_lease_ioctl_cmd
direct-lease cmd e = ground arith

module _ {R : Type 0} {ops : PercpuRef R} (laws : IsPercpuRef ops) where
  -- A device that is held, there and enabled, and a descriptor whose direct call is counted and that
  -- is quiescent, in its workload phase or a legacy user.
  pub record IsAdmitted (d : IoDevice R) (ctx : FileCtx) : Type 0 where
    pub held : 0 < laws.holders d.io_ref
    pub present : d.lease.removed ≡ false
    pub on : d.enabled ≡ true
    pub allowed : may_access ctx.lease ≡ true
    pub counted : 0 < ctx.direct_count

  -- The first three of these, and a count that a u32 holds.
  record IsReady (d : IoDevice R) (ctx : FileCtx) : Type 0 where
    held : 0 < laws.holders d.io_ref
    present : d.lease.removed ≡ false
    on : d.enabled ≡ true
    bounded : ctx.direct_count ≤ u32_max

  abbrev IsReadyIf : Prepared R → Type 0
  IsReadyIf (turned_away e d) = Unit {0}
  IsReadyIf (entered ctx d) = IsReady d ctx

  after_tryget-IsReadyIf :
      (ctx : FileCtx) (d : IoDevice R) (o : Option R)
      → ops.tryget_live d.io_ref ≡ o
      → ctx.direct_count ≤ u32_max
      → IsReadyIf (after_tryget ops ctx d o)
  unfolding after_tryget
  after_tryget-IsReadyIf ctx d none e b = tt
  after_tryget-IsReadyIf ctx d (some r) e b =
      if_cases IsReadyIf (d.lease.removed || not d.enabled) _ _ (λ _. tt)
        λ c. record {
          held = omega (arith, laws.tryget_counts d.io_ref r e);
          present = ground (arith, c);
          on = ground (arith, c);
          bounded = b;
        }

  prepare-IsReadyIf :
      (file : OpenFile R)
      → ((c : FileCtx) → file.private_data ≡ some c → c.direct_count ≤ u32_max)
      → IsReadyIf (mxdma_device_prepare ops file)
  unfolding mxdma_device_prepare prepare_device prepare_ctx
  prepare-IsReadyIf file b = ctx-IsReadyIf file.private_data b
    where
      device-IsReadyIf :
          (ctx : FileCtx) (device : Option (IoDevice R))
          → ctx.direct_count ≤ u32_max
          → IsReadyIf (prepare_device ops ctx device)
      device-IsReadyIf ctx none b = tt
      device-IsReadyIf ctx (some d) b =
          if_cases IsReadyIf (not d.is_device) _ _ (λ _. tt)
            λ _. after_tryget-IsReadyIf ctx d _ refl b

      ctx-IsReadyIf :
          (o : Option FileCtx)
          → ((c : FileCtx) → o ≡ some c → c.direct_count ≤ u32_max)
          → IsReadyIf (prepare_ctx ops o file.is_char file.device)
      ctx-IsReadyIf none b = tt
      ctx-IsReadyIf (some c) b =
          if_cases IsReadyIf (not c.live || not file.is_char) _ _ (λ _. tt)
            λ _. device-IsReadyIf c file.device (b c refl)

  called-agrees :
      {X : Type 0} (on_error : Errno → X) (b b' : Body R X) (file : OpenFile R) (p : Prepared R)
      → IsReadyIf p
      → ((d : IoDevice R) (ctx : FileCtx) → IsReady d ctx → b d ctx ≡ b' d ctx)
      → called ops on_error b file p ≡ called ops on_error b' file p
  unfolding called
  called-agrees on_error b b' file (turned_away e d) r agree = refl
  called-agrees on_error b b' file (entered ctx d) r agree = rw (agree d ctx r) refl

  direct_call-agrees :
      (b b' : Body R (Result ℕ)) (d : IoDevice R) (ctx : FileCtx)
      → IsReady d ctx
      → ((e : IoDevice R) (c : FileCtx) → IsAdmitted e c → b e c ≡ b' e c)
      → direct_call ops b d (mx_lease_direct_begin d.lease ctx)
        ≡ direct_call ops b' d (mx_lease_direct_begin d.lease ctx)
  unfolding direct_call
  direct_call-agrees b b' d ctx r agree =
      begun-agrees _ (direct_begin-Begun d.lease ctx r.bounded) (direct_begin-removed d.lease ctx)
    where
      begun-agrees :
          (s : Ret × DeviceLease × FileCtx)
          → Begun d.lease ctx s
          → s.1.removed ≡ d.lease.removed
          → direct_call ops b d s ≡ direct_call ops b' d s
      begun-agrees (some e, lease, c) g q = refl
      begun-agrees (none, lease, c) (inr g) q = absurd (g.0 refl)
      begun-agrees (none, lease, c) (inl g) q =
          rw
            (agree (record d { lease = lease }) c
              (record {
                held = r.held;
                present = q ∙ r.present;
                on = r.on;
                allowed = g.1;
                counted = omega (arith, g.3);
              }))
            refl

  prewake-IsAdmitted :
      (d : IoDevice R) (ctx : FileCtx) → IsAdmitted d ctx → IsAdmitted (mx_prewake_handlers d) ctx
  unfolding mx_prewake_handlers
  prewake-IsAdmitted d ctx r =
      if_cases (λ e. IsAdmitted e ctx) d.io_queue _ _
        (λ _. record {
          held = r.held;
          present = r.present;
          on = r.on;
          allowed = r.allowed;
          counted = r.counted;
        })
        λ _. r

  -- Where the descriptor's direct_count is a u32, what a direct ioctl and mmap do depends on
  -- ioctl_to_device and on mx_bar_mmap only where the device is held, not removed and enabled,
  -- and the descriptor's direct call is counted and it is quiescent, in its workload phase or a
  -- legacy user.
  pub handlers-IsAdmitted :
      (h h' : Handlers R) (cmd : Cmd) (file : OpenFile R)
      → ((c : FileCtx) → file.private_data ≡ some c → c.direct_count ≤ u32_max)
      → mx_ioctl_is_direct_cmd cmd ≡ true
      → ((d : IoDevice R) (ctx : FileCtx)
          → IsAdmitted d ctx
          → (h.to_device cmd d ctx ≡ h'.to_device cmd d ctx)
            × (h.bar_mmap d ctx ≡ h'.bar_mmap d ctx))
      → (mxdma_device_ioctl ops h cmd file ≡ mxdma_device_ioctl ops h' cmd file)
        × (mxdma_bar_mmap ops h file ≡ mxdma_bar_mmap ops h' file)
  unfolding mxdma_device_ioctl mxdma_bar_mmap ioctl_body mmap_body
  handlers-IsAdmitted h h' cmd file b direct agree = (
    called-agrees err _ _ file _ (prepare-IsReadyIf file b) λ d ctx r.
        rw (direct-lease cmd direct, direct)
          (direct_call-agrees _ _ d ctx r
            (λ e c q. (agree (mx_prewake_handlers e) c (prewake-IsAdmitted e c q)).0)),
    called-agrees err _ _ file _ (prepare-IsReadyIf file b)
        λ d ctx r. direct_call-agrees h.bar_mmap h'.bar_mmap d ctx r (λ e c q. (agree e c q).1),
  )
