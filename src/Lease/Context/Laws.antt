-- ===== src/Lease/Context/Laws.antt =====
-- What the accesses of a descriptor keep, and when they are admitted.
use mxdriver.Common.{
  ℕ, ◌+◌, ◌≤◌, ◌<◌, ◌≡◌, refl, Bool, true, ◌||◌, none, some, Ret, arith, if_cases, Bool-cases, inl,
  inr, ◌⊎◌, u32_max, ◌≢◌, ◌==◌,
}
use mxdriver.Lease.Uapi.{no_profile, quiescent, workload, is_phase}
use mxdriver.Lease.Sm.{
  Sm, Holder, admit_direct, authorize_direct_anchored, authorize_direct, idle, validate_proofs,
  release_direct,
}
use mxdriver.Lease.Sm.Tally.{Tally}
use mxdriver.Lease.Sm.Account.{Keeps}
use mxdriver.Lease.Sm.Exits.{authorize_direct-Keeps, release-Keeps}
use mxdriver.Lease.Device.{DeviceLease, FileCtx}
use mxdriver.Lease.Acquire.Laws.{IsAnchored, IsSound, released-IsAnchored}
use mxdriver.Lease.Context.{
  Transfer, begin_admitted, mx_lease_direct_begin, mx_lease_transfer_put, mx_file_ctx_put,
}

anchored-Keeps :
    (sm : Sm) (h : Holder) (anchored : Bool) (r : Tally)
    → Keeps sm h r
    → Keeps
        (authorize_direct_anchored sm h anchored).1
        (authorize_direct_anchored sm h anchored).2
        r
unfolding authorize_direct_anchored
anchored-Keeps sm h anchored r k = ground (arith, authorize_direct-Keeps sm h r k)

admit_direct-Keeps :
    (sm : Sm) (h : Holder) (anchored : Bool) (n : ℕ) (r : Tally)
    → Keeps sm h r
    → Keeps (admit_direct sm h anchored n).1 (admit_direct sm h anchored n).2 r
unfolding admit_direct
admit_direct-Keeps sm h anchored n r k = ground (arith, anchored-Keeps sm h anchored r k)

admit_direct-IsAnchored :
    (lease : DeviceLease) (h : Holder) (n : ℕ)
    → IsAnchored lease
    → IsAnchored (record lease { state = (admit_direct lease.state h lease.state_path_valid n).1 })
unfolding admit_direct authorize_direct_anchored authorize_direct
admit_direct-IsAnchored lease h n i = ground arith

-- mx_lease_direct_begin keeps the device's lease sound.
pub direct_begin-IsSound :
    (lease : DeviceLease) (ctx : FileCtx) (r : Tally)
    → IsSound lease ctx r
    → IsSound (mx_lease_direct_begin lease ctx).1 (mx_lease_direct_begin lease ctx).2 r
unfolding mx_lease_direct_begin
direct_begin-IsSound lease ctx r i =
    if_cases {A = Ret × DeviceLease × FileCtx} (λ s. IsSound s.1 s.2 r) lease.removed _ _ (λ _. i)
      λ _. record {
        keeps = admit_direct-Keeps lease.state ctx.lease lease.state_path_valid _ r i.keeps;
        anchored = admit_direct-IsAnchored lease ctx.lease _ i.anchored;
      }

-- mx_file_ctx_put keeps it too, the last reference included.
pub ctx_put-IsSound :
    (lease : DeviceLease) (ctx : FileCtx) (r : Tally)
    → IsSound lease ctx r
    → IsSound (mx_file_ctx_put lease ctx).0 (mx_file_ctx_put lease ctx).1 r
unfolding mx_file_ctx_put
ctx_put-IsSound lease ctx r i = elim (Bool-cases (ctx.refs == 1)) [
  | inr e ↦ rw e (record { keeps = i.keeps; anchored = i.anchored })
  | inl e ↦ rw e (record {
    keeps = release-Keeps lease.state ctx.lease r i.keeps;
    anchored = released-IsAnchored lease ctx.lease i.anchored;
  })
]

-- mx_lease_transfer_put keeps it.
pub transfer_put-IsSound :
    (lease : DeviceLease) (ctx : FileCtx) (t : Transfer) (r : Tally)
    → IsSound lease ctx r
    → IsSound (mx_lease_transfer_put lease ctx t).0 (mx_lease_transfer_put lease ctx t).1 r
unfolding mx_lease_transfer_put
transfer_put-IsSound lease ctx t r i = elim (Bool-cases t.owned) [
  | inr e ↦ simp e i
  | inl e ↦ simp e (ctx_put-IsSound lease _ r (record { keeps = i.keeps; anchored = i.anchored }))
]

admit_direct_refused :
    (sm : Sm) (h : Holder) (anchored : Bool) (n : ℕ) (r : Tally)
    → Keeps sm h r
    → 0 < r.quiescing
    → (admit_direct sm h anchored n).0 ≢ none
unfolding admit_direct authorize_direct_anchored authorize_direct idle
admit_direct_refused sm h anchored n r k q = ground arith

-- Where the lease is sound and another descriptor is quiescent, mx_lease_direct_begin does not
-- return 0.
pub direct_begin_refused :
    (lease : DeviceLease) (ctx : FileCtx) (r : Tally)
    → IsSound lease ctx r
    → 0 < r.quiescing
    → (mx_lease_direct_begin lease ctx).0 ≢ none
unfolding mx_lease_direct_begin
direct_begin_refused lease ctx r i q = ground (
  arith,
  admit_direct_refused lease.state ctx.lease lease.state_path_valid ctx.direct_count r i.keeps q,
)

-- Whether a descriptor may touch the device.
abbrev pub may_access : Holder → Bool
may_access h = is_phase h.phase quiescent || is_phase h.phase workload || h.legacy

-- What mx_lease_sm_admit_direct does: it counts a descriptor that may access the device, or changes
-- nothing.
abbrev Counted : Sm → Holder → ℕ → Ret × Sm × Holder × ℕ → Type 0
Counted sm h n (ret, sm', h', n') =
    ((ret ≡ none)
      × (may_access h' ≡ true)
      × (h'.profile ≡ h.profile)
      × ((h'.profile ≡ no_profile) ⊎ ((sm' ≡ sm) × (h' ≡ h)))
      × (n' ≡ n + 1))
    ⊎ ((ret ≢ none) × (sm' ≡ sm) × (h' ≡ h) × (n' ≡ n))

admit_direct-Counted :
    (sm : Sm) (h : Holder) (anchored : Bool) (n : ℕ)
    → n ≤ u32_max
    → Counted sm h n (admit_direct sm h anchored n)
unfolding admit_direct authorize_direct_anchored authorize_direct
admit_direct-Counted sm h anchored n b = ground arith

-- mx_lease_direct_begin counts the call of a descriptor that may access the device, or changes
-- nothing.
abbrev pub Begun : DeviceLease → FileCtx → Ret × DeviceLease × FileCtx → Type 0
Begun lease ctx (ret, lease', ctx') =
    ((ret ≡ none)
      × (may_access ctx'.lease ≡ true)
      × (ctx'.lease.profile ≡ ctx.lease.profile)
      × (ctx'.direct_count ≡ ctx.direct_count + 1))
    ⊎ ((ret ≢ none) × (lease' ≡ lease) × (ctx' ≡ ctx))

begin_admitted-Begun :
    (lease : DeviceLease) (ctx : FileCtx) (s : Ret × Sm × Holder × ℕ)
    → Counted lease.state ctx.lease ctx.direct_count s
    → Begun lease ctx (begin_admitted lease ctx s)
unfolding begin_admitted validate_proofs release_direct
begin_admitted-Begun lease ctx (some e, sm, h, n) (inl c) = absurd (cc c.0)
begin_admitted-Begun lease ctx (some e, sm, h, n) (inr c) = ground arith
begin_admitted-Begun lease ctx (none, sm, h, n) (inr c) = absurd (c.0 refl)
begin_admitted-Begun lease ctx (none, sm, h, n) (inl c) = ground arith

-- On a u32 count, mx_lease_direct_begin either returns 0, keeps the descriptor's profile, counts
-- one more call, and the descriptor is quiescent, in its workload phase or a legacy user; or it
-- fails and changes neither the lease nor the descriptor.
pub direct_begin-Begun :
    (lease : DeviceLease) (ctx : FileCtx)
    → ctx.direct_count ≤ u32_max
    → Begun lease ctx (mx_lease_direct_begin lease ctx)
unfolding mx_lease_direct_begin
direct_begin-Begun lease ctx b =
    if_cases {A = Ret × DeviceLease × FileCtx} (Begun lease ctx) lease.removed _ _
      (λ _. inr (λ q. cc, refl, refl))
      λ _.
        begin_admitted-Begun lease ctx _
          (admit_direct-Counted lease.state ctx.lease lease.state_path_valid ctx.direct_count b)

-- mx_lease_direct_begin does not change whether the device is gone.
pub direct_begin-removed :
    (lease : DeviceLease) (ctx : FileCtx)
    → (mx_lease_direct_begin lease ctx).1.removed ≡ lease.removed
unfolding mx_lease_direct_begin begin_admitted
direct_begin-removed lease ctx = ground arith
