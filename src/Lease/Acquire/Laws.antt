-- ===== src/Lease/Acquire/Laws.antt =====
-- mx_lease_acquire, the account of the state machine and the state anchor.
use mxdriver.Common.{
  ℕ, ◌<◌, ◌≡◌, refl, Bool, true, false, none, some, Ret, Errno, ok, arith, nonzero, Result-cases,
  Bool-cases, inl, inr, sym, ◌∙◌,
}
use mxdriver.Lease.Uapi.{Profile, Family}
use mxdriver.Lease.Sm.{Sm, Holder, release, profile_family, idle, validate_anchored_acquire}
use mxdriver.Lease.Sm.Tally.{Tally}
use mxdriver.Lease.Sm.Account.{Keeps}
use mxdriver.Lease.Sm.Admission.{acquire-Keeps}
use mxdriver.Lease.Sm.Exits.{release-Keeps}
use mxdriver.Lease.Sm.Results.{Granted, acquire-Granted, acquire_refused}
use mxdriver.Lease.Device.{DeviceLease, FileCtx, File, is_bound, same_holder, next_generation}
use mxdriver.Lease.Acquire.{
  AcquireRequest, AcquirePending, anchor_check, set_anchor, acquire_commit, acquire_locked,
  acquire_undo, undo_release, undo_anchor, fill_acquire_locked,
}

-- The state anchor: while it is pinned it has an inode and a generation, no legacy user is left, and
-- the family in power is the anchor's; while it is not, nobody holds a profile.
pub record IsAnchored (lease : DeviceLease) : Type 0 where
  pub pinned : lease.state_path_valid ≡ is_bound lease.state_inode
  pub generation_live : lease.state_path_valid ≡ true → nonzero lease.generation ≡ true
  pub unpinned_free : lease.state_path_valid ≡ false → lease.state.family_holders ≡ 0
  pub family_agrees : 0 < lease.state.family_holders → lease.state.family ≡ lease.state_family
  pub no_legacy : lease.state_path_valid ≡ true → lease.state.legacy_holders ≡ 0
  pub domain_pinned : lease.slot_domain_path_valid ≡ is_bound lease.slot_domain_inode

-- A device's lease and one of its descriptors, `r` being the tally of the others.
pub record IsSound (lease : DeviceLease) (ctx : FileCtx) (r : Tally) : Type 0 where
  pub keeps : Keeps lease.state ctx.lease r
  pub anchored : IsAnchored lease

next_generation_live : (n : ℕ) → nonzero (next_generation n) ≡ true
unfolding next_generation
next_generation_live n = ground arith

anchored_family :
    (sm : Sm) (f : Family) (p : Profile)
    → validate_anchored_acquire sm f p ≡ none
    → f ≡ profile_family p
unfolding validate_anchored_acquire
anchored_family sm f p e = ground arith

-- What the checks under the lock establish for an acquisition under the pinned anchor.
anchored_checks :
    (lease : DeviceLease) (req : AcquireRequest) (file : File)
    → anchor_check lease req file ≡ ok false
    → (lease.state_path_valid ≡ true) × (lease.state_family ≡ profile_family req.profile)
unfolding anchor_check
anchored_checks lease req file e =
    ground (arith, anchored_family lease.state lease.state_family req.profile)

regranted-IsAnchored :
    (lease : DeviceLease) (sm : Sm)
    → IsAnchored lease
    → lease.state_path_valid ≡ true
    → sm.family ≡ lease.state_family
    → sm.legacy_holders ≡ 0
    → IsAnchored (record lease { state = sm })
regranted-IsAnchored lease sm i v f l = ground arith

fresh-IsAnchored :
    (lease : DeviceLease) (sm : Sm) (req : AcquireRequest) (file : File)
    → IsAnchored lease
    → sm.family ≡ profile_family req.profile
    → sm.legacy_holders ≡ 0
    → IsAnchored (set_anchor (record lease { state = sm }) req file)
unfolding set_anchor
fresh-IsAnchored lease sm req file i f l =
    ground (arith, next_generation_live lease.generation_counter)

commit-IsAnchored :
    (lease : DeviceLease) (ctx : FileCtx) (req : AcquireRequest) (file : File) (fresh : Bool)
    (s : Ret × Sm × Holder)
    → IsAnchored lease
    → (s.0 ≡ none → Granted s.1 s.2 req.profile)
    → ((e : Errno) → s.0 ≡ some e → s.1 ≡ lease.state)
    → anchor_check lease req file ≡ ok fresh
    → IsAnchored (acquire_commit lease ctx req file fresh s).lease
unfolding acquire_commit
commit-IsAnchored lease ctx req file fresh (some x, sm, h) i g f e = rw (f x refl) i
commit-IsAnchored lease ctx req file false (none, sm, h) i g f e =
    let c = anchored_checks lease req file e in
    let w = g refl in regranted-IsAnchored lease sm i c.0 (w.owns ∙ sym c.1) w.alone
commit-IsAnchored lease ctx req file true (none, sm, h) i g f e =
    fresh-IsAnchored lease sm req file i (g refl).owns (g refl).alone

commit-Keeps :
    (lease : DeviceLease) (ctx : FileCtx) (req : AcquireRequest) (file : File) (fresh : Bool)
    (s : Ret × Sm × Holder) (r : Tally)
    → Keeps s.1 s.2 r
    → Keeps
        (acquire_commit lease ctx req file fresh s).lease.state
        (acquire_commit lease ctx req file fresh s).ctx.lease
        r
unfolding acquire_commit set_anchor
commit-Keeps lease ctx req file fresh (some x, sm, h) r k = k
commit-Keeps lease ctx req file true (none, sm, h) r k = k
commit-Keeps lease ctx req file false (none, sm, h) r k = k

-- The first locked section of mx_lease_acquire keeps the device's lease sound.
pub acquire_locked-IsSound :
    (lease : DeviceLease) (ctx : FileCtx) (req : AcquireRequest) (file : File) (r : Tally)
    → IsSound lease ctx r
    → IsSound (acquire_locked lease ctx req file).lease (acquire_locked lease ctx req file).ctx r
unfolding acquire_locked
acquire_locked-IsSound lease ctx req file r i = elim (Result-cases (anchor_check lease req file)) [
  | inl (x, e) ↦ rw (e, acquire_locked) i
  | inr (fresh, e) ↦
      let k = acquire-Keeps lease.state ctx.lease req.profile r i.keeps in
      rw (e, acquire_locked)
        (record {
          keeps = commit-Keeps lease ctx req file fresh _ r k;
          anchored =
              commit-IsAnchored lease ctx req file fresh _ i.anchored
                (acquire-Granted lease.state ctx.lease req.profile r i.keeps)
                (λ x q. (acquire_refused lease.state ctx.lease req.profile x q).0) e;
        })
]

pub released-IsAnchored :
    (lease : DeviceLease) (h : Holder)
    → IsAnchored lease
    → IsAnchored (record lease { state = (release lease.state h).0 })
unfolding release
released-IsAnchored lease h i = ground arith

undo_release-IsSound :
    (lease : DeviceLease) (ctx : FileCtx) (p : AcquirePending) (r : Tally)
    → IsSound lease ctx r
    → IsSound (undo_release lease ctx p).0 (undo_release lease ctx p).1 r
unfolding undo_release
undo_release-IsSound lease ctx p r i = elim (Bool-cases (same_holder ctx.lease p.new_holder)) [
  | inr e ↦ rw e i
  | inl e ↦ rw e (record {
    keeps = release-Keeps lease.state ctx.lease r i.keeps;
    anchored = released-IsAnchored lease ctx.lease i.anchored;
  })
]

undo_anchor-IsAnchored :
    (lease : DeviceLease) (file : File) (p : AcquirePending)
    → IsAnchored lease
    → IsAnchored (undo_anchor lease file p)
unfolding undo_anchor idle
undo_anchor-IsAnchored lease file p i = ground arith

pub undo_anchor-state :
    (lease : DeviceLease) (file : File) (p : AcquirePending)
    → (undo_anchor lease file p).state ≡ lease.state
unfolding undo_anchor
undo_anchor-state lease file p = ground arith

-- The undo of mx_lease_acquire keeps a sound lease sound, whatever happened since its call and
-- whatever the call had kept.
pub acquire_undo-IsSound :
    (lease : DeviceLease) (ctx : FileCtx) (file : File) (p : AcquirePending) (r : Tally)
    → IsSound lease ctx r
    → IsSound (acquire_undo lease ctx file p).0 (acquire_undo lease ctx file p).1 r
unfolding acquire_undo
acquire_undo-IsSound lease ctx file p r i =
    let u = undo_release-IsSound lease ctx p r i in
    record {
      keeps = rw (undo_anchor-state (undo_release lease ctx p).0 file p) u.keeps;
      anchored = undo_anchor-IsAnchored (undo_release lease ctx p).0 file p u.anchored;
    }

commit_replies :
    (lease : DeviceLease) (ctx : FileCtx) (req : AcquireRequest) (file : File) (fresh : Bool)
    (s : Ret × Sm × Holder)
    → IsAnchored lease
    → anchor_check lease req file ≡ ok fresh
    → (p : AcquirePending) → (acquire_commit lease ctx req file fresh s).published ≡ some p
    → is_bound p.reply ≡ true
unfolding acquire_commit fill_acquire_locked set_anchor
commit_replies lease ctx req file fresh (some x, sm, h) i c p e = cc
commit_replies lease ctx req file true (none, sm, h) i c p e = ground arith
commit_replies lease ctx req file false (none, sm, h) i c p e =
    ground (arith, anchored_checks lease req file c)

-- Where the state anchor is consistent, a reply that the locked section of mx_lease_acquire
-- leaves to copy out was filled in from a state inode that is not NULL.
pub acquire_locked_replies :
    (lease : DeviceLease) (ctx : FileCtx) (req : AcquireRequest) (file : File)
    → IsAnchored lease
    → (p : AcquirePending) → (acquire_locked lease ctx req file).published ≡ some p
    → is_bound p.reply ≡ true
unfolding acquire_locked
acquire_locked_replies lease ctx req file i p e =
    elim (Result-cases (anchor_check lease req file)) [
      | inl (x, c) ↦ absurd (cc (rw (c, acquire_locked) at e))
      | inr (fresh, c) ↦
          commit_replies lease ctx req file fresh _ i c p (rw (c, acquire_locked) at e)
    ]
