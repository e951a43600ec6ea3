-- ===== src/Fops.antt =====
-- fops.c: the calls of user space on the device's nodes, around the handlers that they reach. The
-- reference count io_ref is the kernel's percpu_ref; the handlers of lease.c, ioctl.c and
-- core_common.c that a call reaches are fields of Handlers.

pub mod Admitted
pub mod Drain
mod Tests
use mxdriver.Common.{
  ℕ, ◌+◌, ◌-◌, ◌≡◌, ◌<◌, Bool, true, false, not, ◌||◌, if◌then◌else◌, Option, none, some, Ret,
  Errno, einval, enodev, enoioctlcmd, Result, ok, err, ltb,
}
use mxdriver.Lease.Device.{DeviceLease, FileCtx}
use mxdriver.Lease.Context.{mx_lease_direct_begin, mx_lease_direct_end}

-- The functions of percpu_ref that the driver calls.
pub record PercpuRef (R : Type 0) : Type 0 where
  pub tryget_live : R → Option R
  pub get : R → R
  pub put : R → R
  pub kill : R → R
  pub is_dying : R → Bool
  pub is_zero : R → Bool

-- What the kernel documents of them; `holders` are the references other than the initial one.
pub record IsPercpuRef {R : Type 0} (ops : PercpuRef R) : Type 0 where
  pub holders : R → ℕ
  pub tryget_counts : (r s : R) → ops.tryget_live r ≡ some s → holders s ≡ holders r + 1
  pub tryget_live_only : (r s : R) → ops.tryget_live r ≡ some s → ops.is_dying r ≡ false
  pub get_counts : (r : R) → holders (ops.get r) ≡ holders r + 1
  pub get_keeps : (r : R) → ops.is_dying (ops.get r) ≡ ops.is_dying r
  pub put_drops : (r : R) → 0 < holders r → holders (ops.put r) + 1 ≡ holders r
  pub put_keeps : (r : R) → 0 < holders r → ops.is_dying (ops.put r) ≡ ops.is_dying r
  pub kill_dies : (r : R) → ops.is_dying (ops.kill r) ≡ true
  pub kill_keeps : (r : R) → holders (ops.kill r) ≡ holders r
  pub zero_dying : (r : R) → ops.is_zero r ≡ true → ops.is_dying r ≡ true
  pub zero_holders : (r : R) → ops.is_zero r ≡ true → holders r ≡ 0

-- The ioctl numbers of ioctl.c and of mx_dma_lease.h, and the others.
pub data Cmd : Type 0 where
  register_mbox init_mbox send_cmd_with_data recv_cmds send_cmds read_data write_data : Cmd
  passthru_cmd hio_send hio_recv : Cmd
  get_lease_caps query_lease acquire_lease transition_lease workload_proofs : Cmd
  anchor_slot_domain : Cmd
  unknown_cmd : ℕ → Cmd

unfoldable pub mx_lease_ioctl_cmd : Cmd → Bool
mx_lease_ioctl_cmd get_lease_caps = true
mx_lease_ioctl_cmd query_lease = true
mx_lease_ioctl_cmd acquire_lease = true
mx_lease_ioctl_cmd transition_lease = true
mx_lease_ioctl_cmd workload_proofs = true
mx_lease_ioctl_cmd anchor_slot_domain = true
mx_lease_ioctl_cmd _ = false

unfoldable pub mx_ioctl_is_direct_cmd : Cmd → Bool
mx_ioctl_is_direct_cmd register_mbox = true
mx_ioctl_is_direct_cmd init_mbox = true
mx_ioctl_is_direct_cmd send_cmd_with_data = true
mx_ioctl_is_direct_cmd recv_cmds = true
mx_ioctl_is_direct_cmd send_cmds = true
mx_ioctl_is_direct_cmd read_data = true
mx_ioctl_is_direct_cmd write_data = true
mx_ioctl_is_direct_cmd passthru_cmd = true
mx_ioctl_is_direct_cmd hio_send = true
mx_ioctl_is_direct_cmd hio_recv = true
mx_ioctl_is_direct_cmd _ = false

-- `struct mx_pci_dev` as this file uses it: `is_device` is `magic == MAGIC_DEVICE`, `io_queue` that
-- it is not NULL, `woken` that both its handlers were woken, `events` the count of `event`.
pub record IoDevice (R : Type 0) : Type 0 where
  pub is_device : Bool
  pub enabled : Bool
  pub io_ref : R
  pub lease : DeviceLease
  pub io_queue : Bool
  pub woken : Bool
  pub events : ℕ

-- `struct file` of a node: its private data and, behind it, the node's magic and the device. NULL
-- is `none`.
pub record OpenFile (R : Type 0) : Type 0 where
  pub private_data : Option FileCtx
  pub is_char : Bool
  pub device : Option (IoDevice R)

abbrev pub Body : Type 0 → Type 0 → Type 0
Body R X = IoDevice R → FileCtx → X × IoDevice R × FileCtx

pub record Handlers (R : Type 0) : Type 0 where
  pub lease_ioctl : Cmd → Body R (Result ℕ)
  pub to_device : Cmd → Body R (Result ℕ)
  pub bar_mmap : Body R (Result ℕ)
  pub bdf_text : IoDevice R → Result ℕ

-- How mxdma_device_prepare ends, and the device after it.
pub data Prepared (R : Type 0) : Type 0 where
  turned_away : Errno → Option (IoDevice R) → Prepared R
  entered : FileCtx → IoDevice R → Prepared R

-- `mask` of mxdma_device_poll.
pub data Mask : Type 0 where
  empty_mask err_mask err_hup_mask in_mask : Mask

unfoldable pub mx_prewake_handlers : {R : Type 0} → IoDevice R → IoDevice R
mx_prewake_handlers d = if d.io_queue then record d { woken = true } else d

module _ {R : Type 0} (ops : PercpuRef R) where
  unfoldable pub mxdma_device_finish : IoDevice R → IoDevice R
  mxdma_device_finish d = record d { io_ref = ops.put d.io_ref }

  -- mxdma_device_offline of init.c.
  unfoldable pub mxdma_device_offline : IoDevice R → IoDevice R
  mxdma_device_offline d = record d {
    enabled = false;
    io_ref = if not (ops.is_dying d.io_ref) then ops.kill d.io_ref else d.io_ref;
  }

  -- `queued` is the answer of queue_work().
  unfoldable pub mx_transfer_schedule_wait : Bool → IoDevice R → IoDevice R
  mx_transfer_schedule_wait queued d =
      if not queued then record d { io_ref = ops.put d.io_ref } else d

  -- What the submitter of a nowait transfer does for its waiter.
  unfoldable pub hand_over : Bool → IoDevice R → IoDevice R
  unfolding mx_transfer_schedule_wait
  hand_over queued d = mx_transfer_schedule_wait queued (record d { io_ref = ops.get d.io_ref })

  -- The end of mx_transfer_wait_work.
  unfoldable pub mx_transfer_wait_work : IoDevice R → IoDevice R
  mx_transfer_wait_work d = record d { io_ref = ops.put d.io_ref }

  -- From the answer of percpu_ref_tryget_live.
  unfoldable pub after_tryget : FileCtx → IoDevice R → Option R → Prepared R
  after_tryget ctx d none = turned_away enodev (some d)
  after_tryget ctx d (some r) =
      if d.lease.removed || not d.enabled
      then turned_away enodev (some (record d { io_ref = ops.put r }))
      else entered ctx (record d { io_ref = r })

  unfoldable pub prepare_device : FileCtx → Option (IoDevice R) → Prepared R
  unfolding after_tryget
  prepare_device ctx none = turned_away einval none
  prepare_device ctx (some d) =
      if not d.is_device
      then turned_away einval (some d)
      else after_tryget ctx d (ops.tryget_live d.io_ref)

  unfoldable pub prepare_ctx : Option FileCtx → Bool → Option (IoDevice R) → Prepared R
  unfolding prepare_device
  prepare_ctx none is_char device = turned_away einval device
  prepare_ctx (some ctx) is_char device =
      if not ctx.live || not is_char then turned_away einval device else prepare_device ctx device

  unfoldable pub mxdma_device_prepare : OpenFile R → Prepared R
  unfolding prepare_ctx
  mxdma_device_prepare file = prepare_ctx file.private_data file.is_char file.device

  -- Between mx_lease_direct_begin, whose end this is, and mx_lease_direct_end.
  unfoldable pub direct_call :
      Body R (Result ℕ) → IoDevice R → Ret × DeviceLease × FileCtx → Result ℕ × IoDevice R × FileCtx
  direct_call body d (some e, lease, ctx) = (err e, record d { lease = lease }, ctx)
  direct_call body d (none, lease, ctx) =
      let (ret, d', ctx') = body (record d { lease = lease }) ctx in
      (ret, d', mx_lease_direct_end ctx')

  -- The body of mxdma_device_ioctl.
  unfoldable pub ioctl_body : Handlers R → Cmd → Body R (Result ℕ)
  unfolding direct_call
  ioctl_body h cmd d ctx =
      if mx_lease_ioctl_cmd cmd
      then h.lease_ioctl cmd d ctx
      else if not (mx_ioctl_is_direct_cmd cmd)
      then h.to_device cmd d ctx
      else direct_call (λ e c. h.to_device cmd (mx_prewake_handlers e) c) d
          (mx_lease_direct_begin d.lease ctx)

  unfoldable pub mmap_body : Handlers R → Body R (Result ℕ)
  unfolding direct_call
  mmap_body h d ctx = direct_call h.bar_mmap d (mx_lease_direct_begin d.lease ctx)

  -- After poll_wait, during which the device may change.
  unfoldable pub poll_body : (IoDevice R → IoDevice R) → Body R Mask
  poll_body meanwhile d ctx =
      let d' = meanwhile d in
      if ops.is_dying d'.io_ref || d'.lease.removed
      then (err_hup_mask, d', ctx)
      else if ltb 0 d'.events
      then (in_mask, record d' { events = d'.events - 1 }, ctx)
      else (empty_mask, d', ctx)

  -- A call: its body between mxdma_device_prepare and mxdma_device_finish.
  unfoldable pub called :
      {X : Type 0} → (Errno → X) → Body R X → OpenFile R → Prepared R → X × OpenFile R
  unfolding mxdma_device_finish
  called on_error body file (turned_away e device) = (on_error e, record file { device = device })
  called on_error body file (entered ctx d) =
      let (ret, d', ctx') = body d ctx in
      (ret, record file { private_data = some ctx'; device = some (mxdma_device_finish d') })

  unfoldable pub mxdma_device_ioctl : Handlers R → Cmd → OpenFile R → Result ℕ × OpenFile R
  unfolding called mxdma_device_prepare ioctl_body
  mxdma_device_ioctl h cmd file = called err (ioctl_body h cmd) file (mxdma_device_prepare file)

  unfoldable pub mxdma_device_compat_ioctl : Handlers R → Cmd → OpenFile R → Result ℕ × OpenFile R
  unfolding mxdma_device_ioctl
  mxdma_device_compat_ioctl h cmd file =
      if not (mx_lease_ioctl_cmd cmd)
      then (err enoioctlcmd, file)
      else mxdma_device_ioctl h cmd file

  unfoldable pub mxdma_bar_mmap : Handlers R → OpenFile R → Result ℕ × OpenFile R
  unfolding called mxdma_device_prepare mmap_body
  mxdma_bar_mmap h file = called err (mmap_body h) file (mxdma_device_prepare file)

  abbrev poll_error : Errno → Mask
  poll_error enodev = err_hup_mask
  poll_error _ = err_mask

  unfoldable pub mxdma_device_poll : (IoDevice R → IoDevice R) → OpenFile R → Mask × OpenFile R
  unfolding called mxdma_device_prepare poll_body
  mxdma_device_poll meanwhile file =
      called poll_error (poll_body meanwhile) file (mxdma_device_prepare file)

  -- `bdf_text` is what scnprintf() and simple_read_from_buffer() give.
  unfoldable pub mxdma_bdf_read : Handlers R → OpenFile R → Result ℕ × OpenFile R
  unfolding called mxdma_device_prepare
  mxdma_bdf_read h file =
      called err (λ d ctx. (h.bdf_text d, d, ctx)) file (mxdma_device_prepare file)
