-- ===== src/Lease/Context.antt =====
-- The life of a descriptor and of its accesses in lease.c: mx_lease_direct_begin and _end,
-- mx_lease_transfer_get and _put, mx_file_ctx_get and _put, mx_lease_mark_removed, and the two
-- authorizations of commands.
pub mod Laws
use mxdriver.Common.{
  ℕ, ◌+◌, ◌-◌, ◌≡◌, Bool, true, false, not, ◌&&◌, ◌||◌, Option, none, some, Errno, Ret, ◌==◌, u32,
  u32_max, nonzero, if◌then◌else◌, is_zero_ret, eacces, enodev, einval, eoverflow, eopnotsupp,
}
use mxdriver.Lease.Sm.{
  Sm, Holder, admit_direct, release_direct, validate_proofs, authorize_memory_cmd, release,
}
use mxdriver.Lease.Device.{File, DeviceLease, FileCtx, is_bound}

-- The part of `struct mx_transfer` that pins its issuer: `owned` is `owner_ctx != NULL`.
pub record Transfer : Type 0 where
  pub owned : Bool
  pub slot_proof_file : Option File
  pub lifetime_proof_file : Option File

-- mx_lease_direct_begin, from the answer of mx_lease_sm_admit_direct.
begin_admitted : DeviceLease → FileCtx → Ret × Sm × Holder × ℕ → Ret × DeviceLease × FileCtx
begin_admitted lease ctx (ret, sm, h, direct) =
    let proofs =
      validate_proofs h.profile ctx.proofs_ever_bound (is_bound ctx.slot_proof_file)
        (is_bound ctx.lifetime_proof_file) in
    let ret' = if is_zero_ret ret then proofs else ret in
    (
      ret',
      record lease { state = sm },
      record ctx {
        lease = h;
        direct_count =
            if not (is_zero_ret ret') && is_zero_ret ret then release_direct direct else direct;
      },
    )

unfoldable pub mx_lease_direct_begin : DeviceLease → FileCtx → Ret × DeviceLease × FileCtx
unfolding begin_admitted
mx_lease_direct_begin lease ctx =
    if lease.removed
    then (some enodev, lease, ctx)
    else begin_admitted lease ctx
        (admit_direct lease.state ctx.lease lease.state_path_valid ctx.direct_count)

-- mx_lease_direct_end; it warns at 0.
unfoldable pub mx_lease_direct_end : FileCtx → FileCtx
mx_lease_direct_end ctx =
    if not (nonzero ctx.direct_count)
    then ctx
    else record ctx { direct_count = release_direct ctx.direct_count }

unfoldable pub mx_file_ctx_get : FileCtx → FileCtx
mx_file_ctx_get ctx = record ctx { refs = ctx.refs + 1 }

-- The checks of mx_lease_transfer_get on a descriptor and a transfer that are not NULL.
transfer_check : DeviceLease → FileCtx → Ret
transfer_check lease ctx =
    if not ctx.live
    then some einval
    else if lease.removed
    then some enodev
    else if not (nonzero ctx.direct_count)
    then some eacces
    else elim (validate_proofs ctx.lease.profile ctx.proofs_ever_bound
        (is_bound ctx.slot_proof_file) (is_bound ctx.lifetime_proof_file)) [
          | some e ↦ some e
          | none ↦ if ctx.transfer_count == u32_max then some eoverflow else none
        ]

unfoldable pub mx_lease_transfer_get : DeviceLease → FileCtx → Transfer → Ret × FileCtx × Transfer
unfolding transfer_check mx_file_ctx_get
mx_lease_transfer_get lease ctx transfer = elim (transfer_check lease ctx) [
  | some e ↦ (some e, ctx, transfer)
  | none ↦ (
    none,
    record (mx_file_ctx_get ctx) { transfer_count = u32 (ctx.transfer_count + 1) },
    record {
      owned = true;
      slot_proof_file = elim ctx.slot_proof_file [
        | none ↦ transfer.slot_proof_file
        | some f ↦ some f
      ];
      lifetime_proof_file = elim ctx.lifetime_proof_file [
        | none ↦ transfer.lifetime_proof_file
        | some f ↦ some f
      ];
    },
  )
]

-- mx_file_ctx_free, apart from dropping the references it held.
mx_file_ctx_free : DeviceLease → FileCtx → DeviceLease × FileCtx
mx_file_ctx_free lease ctx =
    let (sm, h) = release lease.state ctx.lease in
    (
      record lease { state = sm },
      record ctx {
        live = false;
        lease = h;
        slot_source_file = none;
        slot_proof_file = none;
        lifetime_source_file = none;
        lifetime_proof_file = none;
        proof_lifetime_tag = 0;
        proof_slot = 0;
      },
    )

-- mx_file_ctx_put. refcount_dec_and_test() leaves a count of 0 alone, with a warning.
unfoldable pub mx_file_ctx_put : DeviceLease → FileCtx → DeviceLease × FileCtx
unfolding mx_file_ctx_free
mx_file_ctx_put lease ctx =
    let dropped : FileCtx = record ctx { refs = ctx.refs - 1 } in
    if ctx.refs == 1 then mx_file_ctx_free lease dropped else (lease, dropped)

-- mx_lease_transfer_put; `ctx` is the transfer's owner.
unfoldable pub mx_lease_transfer_put :
    DeviceLease → FileCtx → Transfer → DeviceLease × FileCtx × Transfer
unfolding mx_file_ctx_put
mx_lease_transfer_put lease ctx transfer =
    if not transfer.owned
    then (lease, ctx, transfer)
    else let counted : FileCtx = record ctx {
      transfer_count = if ctx.transfer_count == 0 then 0 else ctx.transfer_count - 1;
    } in
      let (lease', ctx') = mx_file_ctx_put lease counted in
      (lease', ctx', record { owned = false; slot_proof_file = none; lifetime_proof_file = none })

unfoldable pub mx_lease_mark_removed : DeviceLease → DeviceLease
mx_lease_mark_removed lease = record lease { removed = true }

-- The argument says whether the descriptor's context is not NULL.
unfoldable pub mx_lease_authorize_no_completion : Bool → Ret
mx_lease_authorize_no_completion ctx = if ctx then some eopnotsupp else some einval

unfoldable pub mx_lease_authorize_memory_cmd : Option FileCtx → ℕ → Ret
mx_lease_authorize_memory_cmd none subopcode = some einval
mx_lease_authorize_memory_cmd (some ctx) subopcode =
    authorize_memory_cmd ctx.lease.profile subopcode
