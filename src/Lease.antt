-- ===== src/Lease.antt =====
-- The device lease: include/uapi/mx_dma_lease.h, lease_sm.h and lease.c.
pub mod Uapi
pub mod Sm
pub mod Device
pub mod Acquire
pub mod Transition
pub mod Vfs
pub mod SlotDomain
pub mod Proofs
pub mod Unbind
pub mod Query
pub mod World
pub mod Context
mod Tests
