-- ===== src/Lease/Query.antt =====
-- mx_lease_query and mx_lease_get_caps of lease.c: they only read the lease.
use mxdriver.Common.{
  ℕ, Bool, not, ◌||◌, Option, none, some, Result, ok, err, ◌==◌, nonzero, if◌then◌else◌, efault,
  enodev, einval, estale,
}
use mxdriver.Lease.Uapi.{Profile, Family, Phase}
use mxdriver.Lease.Device.{
  Inode, DeviceLease, FileCtx, Header, Grants, abi_magic, abi_version, valid_header, holder_grants,
}

pub record QueryRequest : Type 0 where
  pub header : Header
  pub expected_device_incarnation : ℕ
  pub slot_domain_dev : ℕ
  pub slot_domain_ino : ℕ

-- `device_state` is always MX_LEASE_DEVICE_LIVE.
pub record QueryReply : Type 0 where
  pub device_incarnation : ℕ
  pub lease_generation : ℕ
  pub state_identity_lo : ℕ
  pub state_identity_hi : ℕ
  pub grants : Grants
  pub state_dev : ℕ
  pub state_ino : ℕ
  pub profile : Profile
  pub phase : Phase
  pub family : Family
  pub publisher_count : ℕ
  pub workload_count : ℕ
  pub family_holder_count : ℕ
  pub legacy_count : ℕ
  pub device_state : ℕ
  pub slot_domain_dev : ℕ
  pub slot_domain_ino : ℕ

abbrev inode_dev : Option Inode → ℕ
inode_dev none = 0
inode_dev (some i) = i.s_dev

abbrev inode_ino : Option Inode → ℕ
inode_ino none = 0
inode_ino (some i) = i.i_ino

query_reply : DeviceLease → FileCtx → QueryReply
query_reply lease ctx = record {
  device_incarnation = lease.device_incarnation;
  lease_generation = lease.generation;
  state_identity_lo = lease.state_identity_lo;
  state_identity_hi = lease.state_identity_hi;
  grants = holder_grants lease ctx lease.state_path_valid;
  state_dev = inode_dev lease.state_inode;
  state_ino = inode_ino lease.state_inode;
  profile = ctx.lease.profile;
  phase = ctx.lease.phase;
  family = lease.state.family;
  publisher_count = lease.state.publishers;
  workload_count = lease.state.workloads;
  family_holder_count = lease.state.family_holders;
  legacy_count = lease.state.legacy_holders;
  device_state = 1;
  slot_domain_dev = inode_dev lease.slot_domain_inode;
  slot_domain_ino = inode_ino lease.slot_domain_inode;
}

-- The request is `none` where copy_from_user() fails; `copied` says whether copy_to_user() succeeds.
unfoldable pub mx_lease_query :
    Bool → DeviceLease → FileCtx → Option QueryRequest → Result QueryReply
unfolding query_reply
mx_lease_query copied lease ctx none = err efault
mx_lease_query copied lease ctx (some req) =
    if not (valid_header req.header 128)
      || nonzero req.slot_domain_dev
      || nonzero req.slot_domain_ino
    then err einval
    else if lease.removed
    then err enodev
    else if not (nonzero req.expected_device_incarnation)
        || not (req.expected_device_incarnation == lease.device_incarnation)
    then err estale
    else if copied
    then ok (query_reply lease ctx)
    else err efault

-- `struct mx_lease_caps` but for its constant capability bits; the queue id is an int of the device.
pub record Caps : Type 0 where
  pub magic : ℕ
  pub version : ℕ
  pub struct_size : ℕ
  pub max_profile : ℕ
  pub max_transition : ℕ
  pub device_incarnation : ℕ

unfoldable pub mx_lease_get_caps : Bool → DeviceLease → Result Caps
mx_lease_get_caps copied lease =
    if lease.removed
    then err enodev
    else if copied
    then ok (record {
      magic = abi_magic;
      version = abi_version;
      struct_size = 64;
      max_profile = 7;
      max_transition = 4;
      device_incarnation = lease.device_incarnation;
    })
    else err efault
