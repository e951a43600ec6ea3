-- ===== src/Lease/SlotDomain/Laws.antt =====
-- What mx_lease_anchor_slot_domain keeps.
use mxdriver.Common.{true, some, arith, Result-cases, Option-cases, inl, inr, if_cases}
use mxdriver.Lease.Sm.Tally.{Tally}
use mxdriver.Lease.Device.{DeviceLease, FileCtx, File}
use mxdriver.Lease.Vfs.{Vfs, wrlck, clone_with_ofd_lock}
use mxdriver.Lease.Acquire.{Section}
use mxdriver.Lease.Acquire.Laws.{IsAnchored, IsSound}
use mxdriver.Lease.SlotDomain.{
  SlotDomainRequest, SlotDomainPending, domain_guard, domain_locked, domain_undo, offset_max,
}

redomained-IsAnchored :
    (lease : DeviceLease) (file : File)
    → IsAnchored lease
    → IsAnchored
        (record lease { slot_domain_path_valid = true; slot_domain_inode = some file.f_inode })
redomained-IsAnchored lease file i = ground arith

-- The locked section of mx_lease_anchor_slot_domain keeps a sound lease sound, whatever the
-- kernel's record locks answer.
pub domain_locked-IsSound :
    (vfs : Vfs) (lease : DeviceLease) (ctx : FileCtx) (req : SlotDomainRequest) (file : File)
    (r : Tally)
    → IsSound lease ctx r
    → IsSound
        (domain_locked vfs lease ctx req file).lease
        (domain_locked vfs lease ctx req file).ctx
        r
unfolding domain_locked
domain_locked-IsSound vfs lease ctx req file r i =
    elim (Option-cases (domain_guard lease ctx req file)) [
      | inr (x, e) ↦ rw (e, domain_locked) i
      | inl e ↦
          rw (e, domain_locked)
            (if_cases {A = Section SlotDomainPending} (λ s. IsSound s.lease s.ctx r)
              lease.slot_domain_path_valid _ _ (λ _. i)
              λ _. elim (Result-cases (clone_with_ofd_lock vfs file wrlck 0 offset_max)) [
                | inl (x, c) ↦ rw c i
                | inr (f, c) ↦ rw c (record {
                  keeps = i.keeps;
                  anchored = redomained-IsAnchored lease file i.anchored;
                })
              ])
    ]

-- So does its undo.
pub domain_undo-IsSound :
    (lease : DeviceLease) (ctx : FileCtx) (file : File) (p : SlotDomainPending) (r : Tally)
    → IsSound lease ctx r
    → IsSound (domain_undo lease file p) ctx r
unfolding domain_undo
domain_undo-IsSound lease ctx file p r i = ground arith
