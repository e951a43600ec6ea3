-- ===== src/Lease/Tests.antt =====
-- Fixtures: the files, requests and steps that the theorems on the lease are applied at.
mod Device
mod Machine
mod Calls
mod Proofs
use mxdriver.Common.{
  ◌==◌, ℕ, ◌+◌, Bool, true, false, Option, none, some, List, [], ◌∷◌, ltb, if◌then◌else◌, get_elem?,
  ok,
}
use mxdriver.Lease.Uapi.{Profile, hub_publisher, hub_workload, TransitionOp, activate_workload}
use mxdriver.Lease.Device.{File, Fd, fd, minus_one, Fget, FileCtx, abi_magic, tmpfs_magic}
use mxdriver.Lease.Vfs.{Vfs, granted, wrlck, unlck}
use mxdriver.Lease.Acquire.{AcquireRequest}
use mxdriver.Lease.Transition.{TransitionRequest}
use mxdriver.Lease.SlotDomain.{SlotDomainRequest}
use mxdriver.Lease.Proofs.{ProofsRequest}
use mxdriver.Lease.World.{
  World, Step, opens, acquires, transitions, anchors_domain, initial, opened, run,
}

abbrev pub state_file : File
state_file = record {
  handle = 7;
  f_inode = record {
    address = 100;
    is_regular = true;
    is_fifo = false;
    s_magic = tmpfs_magic;
    s_dev = 5;
    i_ino = 42;
  };
  can_read = true;
  can_write = true;
  f_pos = 0;
}

abbrev pub asks : Profile → ℕ → AcquireRequest
asks p generation = record {
  header = record { magic = abi_magic; version = 1; size = 128 };
  expected_device_incarnation = 9;
  expected_lease_generation = generation;
  state_identity_lo = 3;
  state_identity_hi = 4;
  state_fd = fd 6;
  profile = p;
  reserved = 0;
}

abbrev pub domain_file : File
domain_file = record {
  handle = 8;
  f_inode = record {
    address = 200;
    is_regular = true;
    is_fifo = false;
    s_magic = tmpfs_magic;
    s_dev = 5;
    i_ino = 43;
  };
  can_read = true;
  can_write = true;
  f_pos = 0;
}

-- A kernel that grants every lock, and in which each descriptor's own lock is seen from a clone.
abbrev pub vfs : Vfs
vfs = record {
  file_clone_open = λ f. ok (record f { handle = f.handle + 1000 });
  lock_file = λ f t a b. granted;
  test_lock = λ f t a b. ok (if ltb f.handle 1000 then unlck else wrlck);
}

abbrev pub anchors : SlotDomainRequest
anchors = record {
  header = record { magic = abi_magic; version = 1; size = 64 };
  expected_device_incarnation = 9;
  expected_lease_generation = 1;
  slot_domain_fd = fd 7;
  reserved0 = 0;
  slot_domain_dev = 0;
  slot_domain_ino = 0;
  grants = 0;
}

abbrev pub turns : TransitionOp → TransitionRequest
turns op = record {
  header = record { magic = abi_magic; version = 1; size = 96 };
  expected_device_incarnation = 9;
  expected_lease_generation = 1;
  operation = op;
  reserved0 = 0;
  reserved1 = 0;
}

-- A hub that publishes, and a descriptor beside it.
abbrev pub published_steps : List Step
published_steps = opens true ∷ opens true ∷ acquires 0 (asks hub_publisher 0) state_file ∷ []

abbrev pub published_world : World
published_world = run (initial 9) published_steps

abbrev pub ctx_of : World → ℕ → FileCtx
ctx_of w i = elim (get_elem? w.ctxs i) [ none ↦ opened false | some c ↦ c ]

-- A hub that publishes and then works, and one that joins it.
abbrev pub joined_steps : List Step
joined_steps =
    opens true
    ∷ opens true
    ∷ acquires 0 (asks hub_publisher 0) state_file
    ∷ opens false
    ∷ anchors_domain vfs 0 anchors domain_file
    ∷ transitions 0 (turns activate_workload)
    ∷ acquires 1 (asks hub_workload 1) state_file
    ∷ []

abbrev pub joined_world : World
joined_world = run (initial 9) joined_steps

-- The slot domain again, opened for slot 5.
abbrev pub slot_file : File
slot_file = record domain_file { handle = 30; f_pos = 0x50584c05 }

abbrev pub fget : Fget
fget (fd n) = if n == 6 then some state_file else if n == 11 then some slot_file else none
fget _ = none

abbrev pub proves : ℕ → ProofsRequest
proves operation = record {
  header = record { magic = abi_magic; version = 1; size = 120 };
  expected_device_incarnation = 9;
  expected_lease_generation = 1;
  state_identity_lo = 3;
  state_identity_hi = 4;
  slot_fd = fd 11;
  lifetime_fd = minus_one;
  slot = 5;
  operation = operation;
  grants = 0;
  slot_dev = 0;
  slot_ino = 0;
  lifetime_dev = 0;
  lifetime_ino = 0;
  reserved0 = 0;
  reserved1 = 0;
  reserved2 = 0;
}
