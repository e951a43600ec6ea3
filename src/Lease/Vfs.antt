-- ===== src/Lease/Vfs.antt =====
-- The kernel's record locks as lease.c calls them, and the three functions of lease.c that take and
-- probe them. What the kernel answers is a parameter.
use mxdriver.Common.{
  ℕ, ◌+◌, ◌*◌, Bool, true, false, not, none, some, Errno, Ret, Result, ok, err, ◌==◌, if◌then◌else◌,
  eperm, eagain, estale,
}
use mxdriver.Lease.Device.{File}

-- F_RDLCK, F_WRLCK, F_UNLCK.
pub data LockType : Type 0 where
  rdlck wrlck unlck : LockType

-- What vfs_lock_file() returns: 0, FILE_LOCK_DEFERRED, or an error.
pub data LockAnswer : Type 0 where
  granted deferred : LockAnswer
  refused : Errno → LockAnswer

-- file_clone_open(), vfs_lock_file() with F_SETLK, and vfs_test_lock(): the type that the probe
-- reports, or an error. The two numbers are the first and the last byte of the range.
pub record Vfs : Type 0 where
  pub file_clone_open : File → Result File
  pub lock_file : File → LockType → ℕ → ℕ → LockAnswer
  pub test_lock : File → LockType → ℕ → ℕ → Result LockType

-- MX_LEASE_SLOT_IDENTITY_OFFSET, MX_LEASE_SLOT_LIVENESS_OFFSET, MX_LEASE_WORKLOAD_LIVENESS_OFFSET.
unfoldable pub slot_identity_offset : ℕ → ℕ
slot_identity_offset slot = slot * 2

unfoldable pub slot_liveness_offset : ℕ → ℕ
slot_liveness_offset slot = slot * 2 + 1

unfoldable pub workload_liveness_offset : ℕ → ℕ
workload_liveness_offset slot = 8192 + slot * 2 + 1

unfoldable pub clone_with_ofd_lock : Vfs → File → LockType → ℕ → ℕ → Result File
clone_with_ofd_lock vfs source type start end = elim (vfs.file_clone_open source) [
  | err e ↦ err e
  | ok pinned ↦
      if not (pinned.f_inode.address == source.f_inode.address)
      then err estale
      else elim (vfs.lock_file pinned type start end) [
        | granted ↦ ok pinned
        | deferred ↦ err eagain
        | refused e ↦ err e
      ]
]

abbrev is_unlocked : LockType → Bool
is_unlocked unlck = true
is_unlocked rdlck = false
is_unlocked wrlck = false

-- The first probe of mx_lease_slot_identity_held: no stranger holds the byte.
own_probe : Vfs → File → ℕ → Ret
own_probe vfs file offset = elim (vfs.test_lock file wrlck offset offset) [
  | err e ↦ some e
  | ok seen ↦ if not (is_unlocked seen) then some eperm else none
]

-- The second one, from a fresh description: somebody holds it.
fresh_probe : Vfs → File → ℕ → Ret
fresh_probe vfs file offset = elim (vfs.file_clone_open file) [
  | err e ↦ some e
  | ok clone ↦
      if not (clone.f_inode.address == file.f_inode.address)
      then some estale
      else elim (vfs.test_lock clone wrlck offset offset) [
        | err e ↦ some e
        | ok seen ↦ if is_unlocked seen then some eperm else none
      ]
]

unfoldable pub slot_identity_held : Vfs → File → ℕ → Ret
unfolding own_probe fresh_probe slot_identity_offset
slot_identity_held vfs file slot = elim (own_probe vfs file (slot_identity_offset slot)) [
  | some e ↦ some e
  | none ↦ fresh_probe vfs file (slot_identity_offset slot)
]

unfoldable pub pin_slot_ofd_lock : Vfs → File → ℕ → Result File
unfolding clone_with_ofd_lock slot_liveness_offset
pin_slot_ofd_lock vfs source slot =
    clone_with_ofd_lock vfs source rdlck (slot_liveness_offset slot) (slot_liveness_offset slot)
