-- ===== src/Lease/SlotDomain.antt =====
-- mx_lease_anchor_slot_domain of lease.c: the checks before the lock, the locked section, and the
-- one that drops a fresh domain when the reply cannot be copied out.
pub mod Laws
use mxdriver.Common.{
  ℕ, ◌^◌, ◌-◌, ◌≡◌, Bool, true, false, not, ◌&&◌, ◌||◌, Option, none, some, Errno, Ret, Result, ok,
  err, nonzero, if◌then◌else◌, eperm, efault, euclean, einval,
}
use mxdriver.Lease.Sm.{Sm, Holder, validate_slot_domain_anchor}
use mxdriver.Lease.Device.{
  Inode, File, Fd, Fget, DeviceLease, FileCtx, Header, Grants, is_bound, is_negative, same_inode,
  valid_header, valid_state_file, holder_grants,
}
use mxdriver.Lease.Vfs.{Vfs, wrlck, clone_with_ofd_lock}
use mxdriver.Lease.Acquire.{Section}
use mxdriver.Lease.Transition.{activity, names_lease}

-- `struct mx_lease_slot_domain` as user space passes it.
pub record SlotDomainRequest : Type 0 where
  pub header : Header
  pub expected_device_incarnation : ℕ
  pub expected_lease_generation : ℕ
  pub slot_domain_fd : Fd
  pub reserved0 : ℕ
  pub slot_domain_dev : ℕ
  pub slot_domain_ino : ℕ
  pub grants : ℕ

pub record SlotDomainReply : Type 0 where
  pub slot_domain_dev : ℕ
  pub slot_domain_ino : ℕ
  pub grants : Grants

-- What the call keeps in its locals. The reply is `none` where it would follow a NULL inode.
pub record SlotDomainPending : Type 0 where
  pub reply : Option SlotDomainReply
  pub fresh_anchor : Bool

domain_check : Fget → Bool → FileCtx → SlotDomainRequest → Result File
domain_check fget sys_rawio ctx req =
    if not (valid_header req.header 64)
      || is_negative req.slot_domain_fd
      || nonzero req.reserved0
      || nonzero req.slot_domain_dev
      || nonzero req.slot_domain_ino
      || nonzero req.grants
    then err einval
    else if not sys_rawio || not ctx.on_ioctl_node
    then err eperm
    else elim (fget req.slot_domain_fd) [
      | none ↦ err einval
      | some file ↦ if valid_state_file (some file) then ok file else err einval
    ]

-- The tests under the lock.
domain_guard : DeviceLease → FileCtx → SlotDomainRequest → File → Ret
domain_guard lease ctx req file =
    elim (names_lease lease req.expected_device_incarnation req.expected_lease_generation) [
      | some e ↦ some e
      | none ↦
          if (if lease.slot_domain_path_valid
            then not (is_bound lease.slot_domain_inode)
            else is_bound lease.slot_domain_inode)
          then some euclean
          else elim (validate_slot_domain_anchor ctx.lease lease.state_family
              (lease.state_path_valid && is_bound lease.state_inode) (activity ctx)
              lease.slot_domain_path_valid
              (lease.slot_domain_path_valid
                && same_inode lease.slot_domain_inode (some file.f_inode))) [
                  | some e ↦ some e
                  | none ↦
                      if same_inode (some file.f_inode) lease.state_inode then some einval else none
                ]
    ]

domain_reply : DeviceLease → FileCtx → Option SlotDomainReply
domain_reply lease ctx = elim lease.slot_domain_inode [
  | none ↦ none
  | some inode ↦ some (record {
    slot_domain_dev = inode.s_dev;
    slot_domain_ino = inode.i_ino;
    grants = holder_grants lease ctx lease.state_path_valid;
  })
]

domain_publish : DeviceLease → FileCtx → Bool → Section SlotDomainPending
unfolding domain_reply
domain_publish lease ctx fresh = record {
  ret = none;
  lease = lease;
  ctx = ctx;
  published = some (record { reply = domain_reply lease ctx; fresh_anchor = fresh });
}

-- OFFSET_MAX is the last byte of a whole-file lock.
abbrev pub offset_max : ℕ
offset_max = 2 ^ 63 - 1

unfoldable pub domain_locked :
    Vfs → DeviceLease → FileCtx → SlotDomainRequest → File → Section SlotDomainPending
unfolding domain_guard domain_publish
domain_locked vfs lease ctx req file = elim (domain_guard lease ctx req file) [
  | some e ↦ record { ret = some e; lease = lease; ctx = ctx; published = none }
  | none ↦
      if lease.slot_domain_path_valid
      then domain_publish lease ctx false
      else elim (clone_with_ofd_lock vfs file wrlck 0 offset_max) [
        | err e ↦ record { ret = some e; lease = lease; ctx = ctx; published = none }
        | ok exclusive_proof ↦
            domain_publish
              (record lease {
                slot_domain_path_valid = true;
                slot_domain_inode = some file.f_inode;
              })
              ctx true
      ]
]

unfoldable pub domain_undo : DeviceLease → File → SlotDomainPending → DeviceLease
domain_undo lease file p =
    if p.fresh_anchor
      && lease.slot_domain_path_valid
      && same_inode lease.slot_domain_inode (some file.f_inode)
    then record lease { slot_domain_path_valid = false; slot_domain_inode = none }
    else lease

domain_finish :
    File
    → (DeviceLease × FileCtx → DeviceLease × FileCtx)
    → Bool
    → Section SlotDomainPending
    → Ret × DeviceLease × FileCtx
unfolding domain_undo
domain_finish file meanwhile copied s = elim s.published [
  | none ↦ (s.ret, s.lease, s.ctx)
  | some p ↦
      let (lease, ctx) = meanwhile (s.lease, s.ctx) in
      if copied then (none, lease, ctx) else (some efault, domain_undo lease file p, ctx)
]

-- The whole of mx_lease_anchor_slot_domain.
unfoldable pub mx_lease_anchor_slot_domain :
    Vfs
    → Fget
    → Bool
    → (DeviceLease × FileCtx → DeviceLease × FileCtx)
    → Bool
    → DeviceLease
    → FileCtx
    → Option SlotDomainRequest
    → Ret × DeviceLease × FileCtx
unfolding domain_check domain_locked domain_finish
mx_lease_anchor_slot_domain vfs fget sys_rawio meanwhile copied lease ctx none =
    (some efault, lease, ctx)
mx_lease_anchor_slot_domain vfs fget sys_rawio meanwhile copied lease ctx (some req) =
    elim (domain_check fget sys_rawio ctx req) [
      | err e ↦ (some e, lease, ctx)
      | ok file ↦ domain_finish file meanwhile copied (domain_locked vfs lease ctx req file)
    ]
