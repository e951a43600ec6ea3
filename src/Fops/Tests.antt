-- ===== src/Fops/Tests.antt =====
-- Examples for the calls on the device's nodes.
use mxdriver.Common.{
  ℕ, ◌+◌, ◌-◌, ◌≡◌, ◌≤◌, refl, arith, Bool, true, false, not, ◌&&◌, ◌==◌, if◌then◌else◌, none, some,
  ok, err, u32_max, eio,
}
use mxdriver.Lease.Device.{FileCtx}
use mxdriver.Lease.Context.{mx_lease_direct_begin}
use mxdriver.Lease.Sm.{admit_direct, validate_proofs, authorize_direct_anchored, authorize_direct}
use mxdriver.Lease.World.{opened, initial}
use mxdriver.Fops.{
  PercpuRef, IsPercpuRef, read_data, mx_ioctl_is_direct_cmd, IoDevice, OpenFile, Handlers,
  mxdma_device_ioctl, mxdma_bar_mmap, mxdma_device_prepare, prepare_ctx, prepare_device,
  after_tryget, called, ioctl_body, direct_call, mx_lease_ioctl_cmd, mxdma_device_finish,
  mxdma_device_offline, hand_over, mx_transfer_schedule_wait, mx_transfer_wait_work,
}
use mxdriver.Fops.Admitted.{handlers-IsAdmitted, IsAdmitted}
use mxdriver.Fops.Drain.{
  IoTraffic, prepares, finishes, schedules, waited, closes, IoRuns, rest, then_step, IoRuns_drained,
}

-- A count, and whether it is killed.
record Counter : Type 0 where
  count : ℕ
  dead : Bool

abbrev up : Counter → Counter
up r = record r { count = r.count + 1 }

abbrev down : Counter → Counter
down r = record r { count = r.count - 1 }

abbrev counter : PercpuRef Counter
counter = record {
  tryget_live = λ r. if r.dead then none else some (up r);
  get = up;
  put = down;
  kill = λ r. record r { dead = true };
  is_dying = λ r. r.dead;
  is_zero = λ r. r.dead && (r.count == 0);
}

live_counter :
    (r s : Counter) → counter.tryget_live r ≡ some s → (s.count ≡ r.count + 1) × (r.dead ≡ false)
live_counter r s e = ground (arith, e)

zero_counter : (r : Counter) → counter.is_zero r ≡ true → (r.dead ≡ true) × (r.count ≡ 0)
zero_counter r e = ground (arith, e)

abbrev counter_laws : IsPercpuRef counter
counter_laws = record {
  holders = λ r. r.count;
  tryget_counts = λ r s e. (live_counter r s e).0;
  tryget_live_only = λ r s e. (live_counter r s e).1;
  get_counts = λ r. refl;
  get_keeps = λ r. refl;
  put_drops = λ r p. omega (arith, p);
  put_keeps = λ r p. refl;
  kill_dies = λ r. refl;
  kill_keeps = λ r. refl;
  zero_dying = λ r e. (zero_counter r e).0;
  zero_holders = λ r e. (zero_counter r e).1;
}

abbrev device : IoDevice Counter
device = record {
  is_device = true;
  enabled = true;
  io_ref = record { count = 0; dead = false };
  lease = (initial 9).lease;
  io_queue = true;
  woken = false;
  events = 0;
}

-- A descriptor without a lease on a device that nobody has leased: a direct call makes it a legacy
-- user.
abbrev file : OpenFile Counter
file = record { private_data = some (opened true); is_char = true; device = some device }

abbrev answers : ℕ → Handlers Counter
answers n = record {
  lease_ioctl = λ cmd d ctx. (ok n, d, ctx);
  to_device = λ cmd d ctx. (ok n, d, ctx);
  bar_mmap = λ d ctx. (ok n, d, ctx);
  bdf_text = λ d. ok n;
}

-- The same where a direct call is counted.
abbrev guarded : ℕ → Handlers Counter
guarded n = record (answers n) {
  to_device = λ cmd d ctx. (if ctx.direct_count == 0 then err eio else ok n, d, ctx);
}

answers-guarded :
    (n : ℕ) (d : IoDevice Counter) (ctx : FileCtx)
    → IsAdmitted counter_laws d ctx
    → ((answers n).to_device read_data d ctx ≡ (guarded n).to_device read_data d ctx)
      × ((answers n).bar_mmap d ctx ≡ (guarded n).bar_mmap d ctx)
answers-guarded n d ctx r = (ground (arith, r.counted), refl)

file_bounded : (c : FileCtx) → file.private_data ≡ some c → c.direct_count ≤ u32_max
file_bounded c e = ground (arith, e)

handlers-IsAdmitted_example :
    (mxdma_device_ioctl counter (answers 8) read_data file
      ≡ mxdma_device_ioctl counter (guarded 8) read_data file)
    × (mxdma_bar_mmap counter (answers 8) file ≡ mxdma_bar_mmap counter (guarded 8) file)
unfolding mx_ioctl_is_direct_cmd
handlers-IsAdmitted_example =
    handlers-IsAdmitted counter_laws (answers 8) (guarded 8) read_data file file_bounded refl
      (answers-guarded 8)

-- The direct call reaches its handler.
ioctl_reaches : (mxdma_device_ioctl counter (answers 8) read_data file).0 ≡ ok 8
unfolding mxdma_device_ioctl called mxdma_device_prepare prepare_ctx prepare_device after_tryget
    ioctl_body direct_call mx_lease_ioctl_cmd mx_ioctl_is_direct_cmd mx_lease_direct_begin
    admit_direct validate_proofs authorize_direct_anchored authorize_direct
ioctl_reaches = refl

-- A read that hands its transfer to a waiter, while the device is closed and a second one comes.
abbrev traffic : ℕ → Bool → ℕ → ℕ → IoTraffic Counter
traffic count dead bodies waiters = record {
  device = record device { io_ref = record { count = count; dead = dead }; enabled = not dead };
  bodies = bodies;
  waiters = waiters;
}

drains : IoRuns counter (traffic 0 false 0 0) (traffic 0 true 0 0)
unfolding mxdma_device_prepare prepare_ctx prepare_device after_tryget mxdma_device_finish
    mxdma_device_offline hand_over mx_transfer_schedule_wait mx_transfer_wait_work
drains =
    then_step _ _
      (then_step (traffic 1 true 0 1) _
        (then_step (traffic 2 true 1 1) _
          (then_step (traffic 2 false 1 1) _
            (then_step (traffic 1 false 1 0) _
              (then_step (traffic 0 false 0 0) _ rest (prepares (some (opened true)) true))
              (schedules true (omega arith)))
            closes)
          (finishes (omega arith)))
        (prepares (some (opened true)) true))
      (waited (omega arith))

abbrev drained : IoTraffic Counter
drained = traffic 0 true 0 0

IoRuns_drained_example :
    (drained.bodies ≡ 0) × (drained.waiters ≡ 0) × (drained.bodies ≡ 0) × (drained.waiters ≡ 0)
unfolding mxdma_device_prepare prepare_ctx prepare_device after_tryget
IoRuns_drained_example =
    IoRuns_drained counter_laws (traffic 0 false 0 0) drained drained refl drains refl
      (then_step _ _ rest (prepares (some (opened true)) true))
