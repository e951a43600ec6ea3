-- ===== src/Lease/Acquire/Faults.antt =====
-- What a caller of mx_lease_acquire is left with when the reply cannot be copied out.
use mxdriver.Common.{
  ◌≡◌, refl, Bool, true, false, none, some, Ret, ok, arith, efault, Result-cases, inl, inr, ap, sym,
  ◌∙◌, subst,
}
use mxdriver.Lease.Uapi.{no_profile}
use mxdriver.Lease.Sm.{Sm, Holder, acquire, release}
use mxdriver.Lease.Sm.Tally.{Tally}
use mxdriver.Lease.Sm.Results.{acquired_not_legacy}
use mxdriver.Lease.Sm.Roundtrip.{unready_by, release-acquire}
use mxdriver.Lease.Device.{DeviceLease, FileCtx, File, Fget, same_holder}
use mxdriver.Lease.Acquire.{
  AcquireRequest, AcquirePending, Section, acquire_check, anchor_check, acquire_commit,
  acquire_locked, acquire_publish, undo_release, acquire_undo, mx_lease_acquire, set_anchor,
}
use mxdriver.Lease.Acquire.Laws.{IsSound, undo_anchor-state}

-- Nobody else takes the lock between the two sections.
abbrev pub undisturbed : DeviceLease × FileCtx → DeviceLease × FileCtx
undisturbed s = s

same_holder_refl : (h : Holder) → same_holder h h ≡ true
unfolding same_holder
same_holder_refl h = ground arith

undo_release_own :
    (lease : DeviceLease) (ctx : FileCtx) (p : AcquirePending)
    → ctx.lease ≡ p.new_holder
    → undo_release lease ctx p ≡ (
      record lease { state = (release lease.state ctx.lease).0 },
      record ctx { lease = (release lease.state ctx.lease).1 },
    )
unfolding undo_release
undo_release_own lease ctx p e =
    let q : same_holder ctx.lease p.new_holder ≡ true =
      subst (λ h. same_holder ctx.lease h ≡ true) e (same_holder_refl ctx.lease) in
    rw q refl

-- The undo of what a section itself has just installed releases the descriptor.
undo_fault :
    (lease : DeviceLease) (ctx : FileCtx) (file : File) (p : AcquirePending)
    → ctx.lease ≡ p.new_holder
    → let t = acquire_undo lease ctx file p in
      (t.0.state ≡ (release lease.state ctx.lease).0)
      × (t.1 ≡ record ctx { lease = (release lease.state ctx.lease).1 })
unfolding acquire_undo
undo_fault lease ctx file p e =
    let u = undo_release_own lease ctx p e in
    (undo_anchor-state (undo_release lease ctx p).0 file p ∙ ap (λ x. x.0.state) u, ap (λ x. x.1) u)

publish_fault :
    (file : File) (s : Section AcquirePending) (p : AcquirePending)
    → s.published ≡ some p
    → s.ctx.lease ≡ p.new_holder
    → let t = acquire_publish file undisturbed false s in
      (t.0 ≡ some efault)
      × (t.1.state ≡ (release s.lease.state s.ctx.lease).0)
      × (t.2 ≡ record s.ctx { lease = (release s.lease.state s.ctx.lease).1 })
unfolding acquire_publish
publish_fault file s p e h =
    let (a, b) = undo_fault s.lease s.ctx file p h in simp (e, acquire_publish) (refl, a, b)

commit_publishes :
    (lease : DeviceLease) (ctx : FileCtx) (req : AcquireRequest) (file : File) (fresh : Bool)
    (s : Ret × Sm × Holder)
    → s.0 ≡ none
    → let c = acquire_commit lease ctx req file fresh s in
      ((p : AcquirePending) × (c.published ≡ some p) × (s.2 ≡ p.new_holder))
      × (c.lease.state ≡ s.1)
      × (c.ctx ≡ record ctx { lease = s.2 })
unfolding acquire_commit set_anchor
commit_publishes lease ctx req file fresh (some e, sm, h) q = absurd (cc q)
commit_publishes lease ctx req file true (none, sm, h) q = ((_, refl, refl), refl, refl)
commit_publishes lease ctx req file false (none, sm, h) q = ((_, refl, refl), refl, refl)

commit_fault :
    (lease : DeviceLease) (ctx : FileCtx) (req : AcquireRequest) (file : File) (fresh : Bool)
    (s : Ret × Sm × Holder)
    → s.0 ≡ none
    → let t = acquire_publish file undisturbed false (acquire_commit lease ctx req file fresh s) in
      (t.0 ≡ some efault)
      × (t.1.state ≡ (release s.1 s.2).0)
      × (t.2 ≡ record ctx { lease = (release s.1 s.2).1 })
commit_fault lease ctx req file fresh s q =
    let c = acquire_commit lease ctx req file fresh s in
    let ((p, e, h), u, v) = commit_publishes lease ctx req file fresh s q in
    let w : c.ctx.lease ≡ s.2 = ap (λ x. x.lease) v in
    let (a, b, d) = publish_fault file c p e (w ∙ h) in
    let r : release c.lease.state c.ctx.lease ≡ release s.1 s.2 = rw (u, w) refl in
    (a, b ∙ ap (λ x. x.0) r, d ∙ (rw (r, v) refl))

commit_ret :
    (lease : DeviceLease) (ctx : FileCtx) (req : AcquireRequest) (file : File) (fresh : Bool)
    (s : Ret × Sm × Holder)
    → (acquire_commit lease ctx req file fresh s).ret ≡ s.0
unfolding acquire_commit
commit_ret lease ctx req file fresh (some e, sm, h) = refl
commit_ret lease ctx req file fresh (none, sm, h) = refl

-- What is left is the release of what mx_lease_sm_acquire granted.
fault_releases :
    (fget : Fget) (sys_rawio : Bool) (lease : DeviceLease) (ctx : FileCtx) (req : AcquireRequest)
    (file : File)
    → acquire_check fget sys_rawio ctx req ≡ ok file
    → (acquire_locked lease ctx req file).ret ≡ none
    → let s = acquire lease.state ctx.lease req.profile in
      let t = mx_lease_acquire fget sys_rawio undisturbed false lease ctx (some req) in
      (s.0 ≡ none)
      × (t.0 ≡ some efault)
      × (t.1.state ≡ (release s.1 s.2).0)
      × (t.2 ≡ record ctx { lease = (release s.1 s.2).1 })
unfolding mx_lease_acquire acquire_locked
fault_releases fget sys_rawio lease ctx req file c q =
    elim (Result-cases (anchor_check lease req file)) [
      | inl (x, e) ↦ absurd (cc (rw (e, acquire_locked) at q))
      | inr (fresh, e) ↦
          let s = acquire lease.state ctx.lease req.profile in
          let z = sym (commit_ret lease ctx req file fresh s) ∙ rw (e, acquire_locked) at q in
          let (a, b, d) = commit_fault lease ctx req file fresh s z in
          rw (c, mx_lease_acquire) (rw (e, acquire_locked) (z, a, b, d))
    ]

-- If an acquisition by a free descriptor of a sound device passes its checks and succeeds under
-- the lock, its reply cannot be copied out and nobody takes the lock in between, mx_lease_acquire
-- returns -EFAULT and leaves the descriptor as it was, and the state machine too but that an
-- initializer's acquisition has cleared coordinator_ready.
pub fault_restores :
    (fget : Fget) (sys_rawio : Bool) (lease : DeviceLease) (ctx : FileCtx) (req : AcquireRequest)
    (file : File) (r : Tally)
    → IsSound lease ctx r
    → ctx.lease.profile ≡ no_profile
    → acquire_check fget sys_rawio ctx req ≡ ok file
    → (acquire_locked lease ctx req file).ret ≡ none
    → let t = mx_lease_acquire fget sys_rawio undisturbed false lease ctx (some req) in
      (t.0 ≡ some efault) × (t.1.state ≡ unready_by req.profile lease.state) × (t.2 ≡ ctx)
fault_restores fget sys_rawio lease ctx req file r i u c q =
    let (z, a, b, d) = fault_releases fget sys_rawio lease ctx req file c q in
    let e = release-acquire lease.state ctx.lease req.profile r i.keeps u z in
    (a, b ∙ ap (λ x. x.0) e, d ∙ ap (λ x. record ctx { lease = x.1 }) e)

released_profile : (sm : Sm) (h : Holder) → h.legacy ≡ false → (release sm h).1.profile ≡ no_profile
unfolding release
released_profile sm h l = ground arith

-- If an acquisition by a descriptor that already holds the profile asked for passes its checks
-- and succeeds under the lock, its reply cannot be copied out and nobody takes the lock in
-- between, mx_lease_acquire returns -EFAULT and leaves the descriptor without a profile, with its
-- direct calls, transfers and BAR mappings counted as before.
pub fault_drops_held :
    (fget : Fget) (sys_rawio : Bool) (lease : DeviceLease) (ctx : FileCtx) (req : AcquireRequest)
    (file : File)
    → ctx.lease.profile ≡ req.profile
    → acquire_check fget sys_rawio ctx req ≡ ok file
    → (acquire_locked lease ctx req file).ret ≡ none
    → let t = mx_lease_acquire fget sys_rawio undisturbed false lease ctx (some req) in
      (t.0 ≡ some efault)
      × (t.2.lease.profile ≡ no_profile)
      × (t.2.direct_count ≡ ctx.direct_count)
      × (t.2.transfer_count ≡ ctx.transfer_count)
      × (t.2.bar_mapping_count ≡ ctx.bar_mapping_count)
fault_drops_held fget sys_rawio lease ctx req file h c q =
    let (z, a, b, d) = fault_releases fget sys_rawio lease ctx req file c q in
    (
      a,
      ap (λ x. x.lease.profile) d ∙ released_profile _ _ (acquired_not_legacy _ _ _ z),
      ap (λ x. x.direct_count) d,
      ap (λ x. x.transfer_count) d,
      ap (λ x. x.bar_mapping_count) d,
    )
