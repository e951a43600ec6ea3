-- ===== src/V2/Admin/Create.antt =====
-- core_v2.c: configure_io_queue. `reg_dbs` is the offset of the doorbells, which the kernel's nvme.h
-- gives.
use mxdriver.Common.{
  ℕ, ◌+◌, ◌*◌, ◌%◌, ◌^◌, Bool, true, false, not, ◌==◌, ltb, if◌then◌else◌, Option, none, some, Ret,
  Errno, eio, einval, enomem,
}
use mxdriver.V2.Admin.{
  create_io_cq, create_io_sq, AdminCommand, HwQueue, Proto, Dma, submit_sync_command,
}
use mxdriver.V2.Admin.Recover.{tear_down}

-- What the setup takes from outside: the allocations, the start of the threads, the addresses of
-- the rings, the BAR, and the memory of the admin queue during each of the commands.
pub record Setup : Type 0 where
  pub allocated : Bool
  pub storage : Ret
  pub started : Ret
  pub cq_dma_addr : ℕ
  pub sq_dma_addr : ℕ
  pub reg_dbs : ℕ
  pub bar_mapped_size : ℕ
  pub at_create_cq : Dma
  pub at_create_sq : Dma
  pub at_delete_sq : Dma
  pub at_delete_cq : Dma

-- alloc_queue and kzalloc leave the queue without any of it.
abbrev pub fresh_io : HwQueue
fresh_io = record {
  hw_cq_created = false;
  hw_sq_created = false;
  hw_cq_id = 0;
  hw_sq_id = 0;
  db = none;
}

abbrev pub io_depth : ℕ
io_depth = 256

abbrev pub create_cq_command : Setup → AdminCommand
create_cq_command s = record {
  opcode = create_io_cq;
  command_id = 0;
  host_addr = s.cq_dma_addr;
  depth = io_depth;
  cq_id = 0;
  sq_id = 0;
}

abbrev pub create_sq_command : Setup → ℕ → AdminCommand
create_sq_command s cq_id = record {
  opcode = create_io_sq;
  command_id = 0;
  host_addr = s.sq_dma_addr;
  depth = io_depth;
  cq_id = cq_id;
  sq_id = 0;
}

-- `out_delete`.
unfoldable pub unwind : Setup → Errno → Proto → Ret × Proto
unfolding tear_down
unwind s e p =
    let (ok, q) = tear_down s.at_delete_sq s.at_delete_cq p in
    (some e, if ok then q else record q { protocol_poisoned = true })

abbrev pub with_db : ℕ → Option HwQueue → Option HwQueue
with_db at none = none
with_db at (some io) = some (record io { db = some at })

-- configure_queue of the queue, and the start of its threads.
unfoldable pub start : Setup → Ret → ℕ → Proto → Ret × Proto
unfolding unwind
start s none cq_id p = (none, record p { io = with_db (s.reg_dbs + cq_id * 8) p.io })
start s (some e) cq_id p = unwind s e (record p { io = with_db (s.reg_dbs + cq_id * 8) p.io })

unfoldable pub created_sq : Setup → ℕ → Option ℕ × Proto → Ret × Proto
unfolding unwind start
created_sq s cq_id (none, p) = if p.admin.desynced then (some eio, p) else unwind s eio p
created_sq s cq_id (some result, p) =
    if not (cq_id == result % 2 ^ 16)
    then unwind s einval p
    else if ltb s.bar_mapped_size (s.reg_dbs + (cq_id + 1) * 8)
    then unwind s eio p
    else start s s.started cq_id p

unfoldable pub created_cq : Setup → Option ℕ × Proto → Ret × Proto
unfolding created_sq
created_cq s (none, p) = (some eio, p)
created_cq s (some result, p) =
    created_sq s (result % 2 ^ 16)
      (submit_sync_command s.at_create_sq (create_sq_command s (result % 2 ^ 16)) p)

unfoldable pub with_storage : Setup → Ret → Proto → Ret × Proto
unfolding created_cq
with_storage s (some e) p = (some e, p)
with_storage s none p =
    let q = record p { io = some fresh_io } in
    created_cq s (submit_sync_command s.at_create_cq (create_cq_command s) q)

unfoldable pub configure_io_queue : Setup → Proto → Ret × Proto
unfolding with_storage
configure_io_queue s p = if s.allocated then with_storage s s.storage p else (some enomem, p)
