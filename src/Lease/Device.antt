-- ===== src/Lease/Device.antt =====
-- mx_dma.h and lease.c: the data of a device's lease and of the open descriptors, the objects of
-- the kernel that they refer to, and the small functions of lease.c that only read them.
use mxdriver.Common.{
  ℕ, ◌+◌, ◌≡◌, Bool, true, false, not, ◌&&◌, Option, none, some, arith, u64, ◌==◌, nonzero,
  if◌then◌else◌,
}
use mxdriver.Lease.Uapi.{
  Family, hub, standalone, coordinator, no_profile, coordinator_control, quiescent, workload,
  replacement_candidate, coordinator_prepared, is_profile, is_family, is_phase,
}
use mxdriver.Lease.Sm.{Sm, Holder, is_publisher, profile_family}

-- `struct inode`, as far as the driver reads it; `address` tells two inodes apart, `s_dev` is
-- new_encode_dev() of the device number.
pub record Inode : Type 0 where
  pub address : ℕ
  pub is_regular : Bool
  pub is_fifo : Bool
  pub s_magic : ℕ
  pub s_dev : ℕ
  pub i_ino : ℕ

-- `struct file`, an open file description; `handle` tells two of them apart.
pub record File : Type 0 where
  pub handle : ℕ
  pub f_inode : Inode
  pub can_read : Bool
  pub can_write : Bool
  pub f_pos : ℕ

-- A file descriptor number, an int: `negative n` is -2 - n. fget() is the kernel's table of the
-- calling process, NULL where the number names no open file.
pub data Fd : Type 0 where
  fd : ℕ → Fd
  minus_one : Fd
  negative : ℕ → Fd

abbrev pub is_negative : Fd → Bool
is_negative (fd _) = false
is_negative minus_one = true
is_negative (negative _) = true

abbrev pub is_minus_one : Fd → Bool
is_minus_one minus_one = true
is_minus_one (fd _) = false
is_minus_one (negative _) = false

abbrev pub Fget : Type 0
Fget = Fd → Option File

-- `struct mx_device_lease`. A `struct path` is the flag that says whether it is pinned.
pub record DeviceLease : Type 0 where
  pub state : Sm
  pub state_path_valid : Bool
  pub state_inode : Option Inode
  pub slot_domain_path_valid : Bool
  pub slot_domain_inode : Option Inode
  pub state_identity_lo : ℕ
  pub state_identity_hi : ℕ
  pub state_family : Family
  pub device_incarnation : ℕ
  pub generation_counter : ℕ
  pub generation : ℕ
  pub removed : Bool

-- `struct mx_file_ctx`. `live` is `magic == MAGIC_FILE_CTX`, which mx_file_ctx_free() clears;
-- `on_ioctl_node` is `mx_cdev == &mx_pdev->mx_cdev[MX_CDEV_IOCTL]`.
pub record FileCtx : Type 0 where
  pub live : Bool
  pub on_ioctl_node : Bool
  pub refs : ℕ
  pub lease : Holder
  pub slot_source_file : Option File
  pub slot_proof_file : Option File
  pub lifetime_source_file : Option File
  pub lifetime_proof_file : Option File
  pub proof_lifetime_tag : ℕ
  pub proof_slot : ℕ
  pub transfer_count : ℕ
  pub direct_count : ℕ
  pub bar_mapping_count : ℕ
  pub proofs_ever_bound : Bool

abbrev pub is_bound {ℓ} : {A : Type ℓ} → Option A → Bool
is_bound none = false
is_bound (some _) = true

-- Pointer comparisons; NULL is `none`.
abbrev pub same_inode : Option Inode → Option Inode → Bool
same_inode none none = true
same_inode (some a) (some b) = a.address == b.address
same_inode _ _ = false

abbrev pub same_file : Option File → Option File → Bool
same_file none none = true
same_file (some a) (some b) = a.handle == b.handle
same_file _ _ = false

abbrev pub inode_of : Option File → Option Inode
inode_of none = none
inode_of (some f) = some f.f_inode

-- MX_LEASE_ABI_MAGIC, MX_LEASE_ABI_VERSION, TMPFS_MAGIC and PIPEFS_MAGIC.
abbrev pub abi_magic : ℕ
abi_magic = 0x4d584c4541534531

abbrev pub abi_version : ℕ
abi_version = 1

abbrev pub tmpfs_magic : ℕ
tmpfs_magic = 0x01021994

abbrev pub pipefs_magic : ℕ
pipefs_magic = 0x50495045

pub record Header : Type 0 where
  pub magic : ℕ
  pub version : ℕ
  pub size : ℕ

unfoldable pub valid_header : Header → ℕ → Bool
valid_header h expected_size =
    (h.magic == abi_magic) && (h.version == abi_version) && (h.size == expected_size)

unfoldable pub valid_state_file : Option File → Bool
valid_state_file none = false
valid_state_file (some f) =
    if not (f.can_read && f.can_write)
    then false
    else f.f_inode.is_regular && (f.f_inode.s_magic == tmpfs_magic)

-- mx_lease_next_generation: the new counter, which is the generation returned.
unfoldable pub next_generation : ℕ → ℕ
next_generation counter =
    let bumped = u64 (counter + 1) in if nonzero bumped then bumped else u64 (bumped + 1)

-- The bits MX_LEASE_GRANT_*, a flag each.
pub record Grants : Type 0 where
  pub publisher : Bool
  pub family_hub : Bool
  pub family_standalone : Bool
  pub family_coordinator : Bool
  pub quiescent_phase : Bool
  pub workload_phase : Bool
  pub replacement_candidate_phase : Bool
  pub coordinator_prepared_phase : Bool
  pub state_anchored : Bool
  pub legacy : Bool
  pub slot_proof_bound : Bool
  pub lifetime_proof_bound : Bool
  pub slot_domain_anchored : Bool
  pub coordinator_control_profile : Bool

abbrev pub no_grants : Grants
no_grants = record {
  publisher = false;
  family_hub = false;
  family_standalone = false;
  family_coordinator = false;
  quiescent_phase = false;
  workload_phase = false;
  replacement_candidate_phase = false;
  coordinator_prepared_phase = false;
  state_anchored = false;
  legacy = false;
  slot_proof_bound = false;
  lifetime_proof_bound = false;
  slot_domain_anchored = false;
  coordinator_control_profile = false;
}

-- mx_lease_holder_grants; the first argument is the lease of the descriptor's device.
unfoldable pub holder_grants : DeviceLease → FileCtx → Bool → Grants
holder_grants lease ctx anchored =
    if ctx.lease.legacy
    then record no_grants { legacy = true }
    else if is_profile ctx.lease.profile no_profile
    then no_grants
    else record {
      publisher = is_publisher ctx.lease.profile;
      family_hub = is_family (profile_family ctx.lease.profile) hub;
      family_standalone = is_family (profile_family ctx.lease.profile) standalone;
      family_coordinator = is_family (profile_family ctx.lease.profile) coordinator;
      quiescent_phase = is_phase ctx.lease.phase quiescent;
      workload_phase = is_phase ctx.lease.phase workload;
      replacement_candidate_phase = is_phase ctx.lease.phase replacement_candidate;
      coordinator_prepared_phase = is_phase ctx.lease.phase coordinator_prepared;
      state_anchored = anchored;
      legacy = false;
      slot_proof_bound = is_bound ctx.slot_proof_file;
      lifetime_proof_bound = is_bound ctx.lifetime_proof_file;
      slot_domain_anchored = lease.slot_domain_path_valid;
      coordinator_control_profile = is_profile ctx.lease.profile coordinator_control;
    }

-- memcmp() of two `struct mx_lease_sm_holder`, and of two `struct mx_lease_sm`, is 0.
abbrev same_bool : Bool → Bool → Bool
same_bool a b = if a then b else not b

unfoldable pub same_holder : Holder → Holder → Bool
same_holder a b =
    is_profile a.profile b.profile && is_phase a.phase b.phase && same_bool a.legacy b.legacy

unfoldable pub same_state : Sm → Sm → Bool
same_state a b =
    is_family a.family b.family
    && (a.family_holders == b.family_holders)
    && (a.publishers == b.publishers)
    && (a.workloads == b.workloads)
    && (a.legacy_holders == b.legacy_holders)
    && same_bool a.quiescent b.quiescent
    && same_bool a.coordinator_ready b.coordinator_ready

pub eq_of_same_holder : (a b : Holder) → same_holder a b ≡ true → a ≡ b
unfolding same_holder
eq_of_same_holder a b e = ground arith

pub eq_of_same_state : (a b : Sm) → same_state a b ≡ true → a ≡ b
unfolding same_state
eq_of_same_state a b e = ground arith
