-- ===== src/V2/Admin.antt =====
-- core_v2.c: the admin queue, by whose commands the device creates and deletes the rings for io.
-- `dma n` is the memory of the completion ring when the driver looks with `n` looks left after it.
pub mod Safe
pub mod Recover
pub mod Sent
pub mod Answer
pub mod Retire
pub mod Drain
pub mod Create
pub mod Install
pub mod Live
use mxdriver.Common.{
  ℕ, zero, suc, ◌+◌, ◌-◌, ◌*◌, ◌%◌, ◌^◌, Bool, true, false, not, ◌&&◌, ◌==◌, ltb, if◌then◌else◌,
  Option, none, some, List, [], ◌∷◌, Ret, Errno, eio, euclean, enodev, einval, enomem, Outcome,
  waiting, returned,
}
use mxdriver.V2.{
  Completion, RingsV2, is_pushable, is_popable, push_mx_command, pop_mx_completion,
  ring_sq_doorbell, ring_cq_doorbell,
}

-- ADMIN_OPCODE_*.
pub data AdminOpcode : Type 0 where
  create_io_cq delete_io_cq create_io_sq delete_io_sq : AdminOpcode

-- `struct mx_command` as the admin commands use it, with io_queue_info.
pub record AdminCommand : Type 0 where
  pub opcode : AdminOpcode
  pub command_id : ℕ
  pub host_addr : ℕ
  pub depth : ℕ
  pub cq_id : ℕ
  pub sq_id : ℕ

-- `struct mx_queue_v2` of the admin queue.
pub record Admin : Type 0 where
  pub rings : RingsV2 AdminCommand
  pub wait_count : ℕ
  pub next_cid : ℕ
  pub pending_cid : ℕ
  pub pending_opcode : AdminOpcode
  pub pending : Bool
  pub desynced : Bool

-- What `struct mx_queue_v2` of the io queue notes of the device; `db` is where its doorbells are in
-- the BAR, or none before configure_queue.
pub record HwQueue : Type 0 where
  pub hw_cq_created : Bool
  pub hw_sq_created : Bool
  pub hw_cq_id : ℕ
  pub hw_sq_id : ℕ
  pub db : Option ℕ

-- The admin queue with what it shares with `struct mx_pci_dev`, and the three registers of the device
-- by which it finds the admin rings, at 0x0, 0x8 and 0x10 of the BAR.
pub record Proto : Type 0 where
  pub admin : Admin
  pub io : Option HwQueue
  pub protocol_poisoned : Bool
  pub queue_dma_programmed : Bool
  pub reg_aqa : ℕ
  pub reg_asq : ℕ
  pub reg_acq : ℕ

abbrev pub Dma : Type 0
Dma = ℕ → ℕ → Completion

unfoldable pub record_io : AdminOpcode → ℕ → HwQueue → HwQueue
record_io create_io_cq result io = record io { hw_cq_created = true; hw_cq_id = result % 2 ^ 16 }
record_io create_io_sq result io = record io { hw_sq_created = true; hw_sq_id = result % 2 ^ 16 }
record_io delete_io_sq result io = record io { hw_sq_created = false }
record_io delete_io_cq result io = record io { hw_cq_created = false }

unfoldable pub record_admin_terminal : AdminOpcode → ℕ → Option HwQueue → Option HwQueue
unfolding record_io
record_admin_terminal opcode result none = none
record_admin_terminal opcode result (some io) = some (record_io opcode result io)

-- The two loops of submit_sync_command, of `timeout` rounds each.
abbrev pub timeout : ℕ
timeout = 500

unfoldable pub wait_pushable : ℕ → RingsV2 AdminCommand → Bool
wait_pushable zero rings = false
wait_pushable (suc n) rings =
    let rest = wait_pushable n rings in if is_pushable rings then true else rest

abbrev pub is_busy : Admin → Bool
is_busy a = ltb 0 a.wait_count

unfoldable pub look : (ℕ → Completion) → Admin → Admin
look cqes a = record a { rings = record a.rings { cqes = cqes } }

-- A completion that is taken, with its doorbell.
unfoldable pub take_completion : Admin → Completion × Admin
take_completion a =
    let (cmpl, rings) = pop_mx_completion a.rings in
    (cmpl, record a { rings = ring_cq_doorbell rings })

unfoldable pub await_terminal : Dma → ℕ → ℕ → Admin → Option Completion × Admin
unfolding look take_completion
await_terminal dma zero cid a = (none, a)
await_terminal dma (suc n) cid a =
    let seen = look (dma n) a in
    let popable = is_popable (is_busy seen) seen.rings in
    let (cmpl, taken) = take_completion seen in
    let rest = await_terminal dma n cid (if popable then taken else seen) in
    if popable && (cmpl.command_id == cid) then (some cmpl, taken) else rest

abbrev pub next_nonzero : ℕ → ℕ
next_nonzero cid = let n = (cid + 1) % 2 ^ 16 in if n == 0 then 1 else n

-- The command as it goes to the device.
unfoldable pub issue : AdminCommand → ℕ → Admin → Admin
issue c cid a = record a {
  rings = ring_sq_doorbell (push_mx_command (record c { command_id = cid }) a.rings);
  wait_count = a.wait_count + 1;
  pending = true;
  pending_cid = cid;
  pending_opcode = c.opcode;
}

-- A command that has got its completion.
unfoldable pub settle : AdminOpcode → ℕ → Admin → Proto → Proto
settle opcode result a p = record p {
  admin = record a { wait_count = a.wait_count - 1; pending = false };
  io = record_admin_terminal opcode result p.io;
}

unfoldable pub conclude : AdminOpcode → Proto → Option Completion × Admin → Option ℕ × Proto
unfolding settle
conclude opcode p (none, a) =
    (none, record p { admin = record a { desynced = true }; protocol_poisoned = true })
conclude opcode p (some cmpl, a) = (some cmpl.result, settle opcode cmpl.result a p)

unfoldable pub number : Admin → Admin
number a = record a { next_cid = next_nonzero a.next_cid }

-- The result of the command, or none where it returns false.
unfoldable pub submit_sync_command : Dma → AdminCommand → Proto → Option ℕ × Proto
unfolding wait_pushable issue await_terminal conclude number
submit_sync_command dma c p =
    if p.admin.desynced
    then (none, p)
    else let a = number p.admin in
      let cid = a.next_cid in
      if wait_pushable timeout a.rings
      then conclude c.opcode p (await_terminal dma timeout cid (issue c cid a))
      else (none, record p { admin = a })

abbrev pub command_of : AdminOpcode → ℕ → ℕ → AdminCommand
command_of opcode cq_id sq_id = record {
  opcode = opcode;
  command_id = 0;
  host_addr = 0;
  depth = 0;
  cq_id = cq_id;
  sq_id = sq_id;
}

unfoldable pub delete_sq : Dma → ℕ → Proto → Option ℕ × Proto
delete_sq dma qid p = submit_sync_command dma (command_of delete_io_sq 0 qid) p

unfoldable pub delete_cq : Dma → ℕ → Proto → Option ℕ × Proto
delete_cq dma qid p = submit_sync_command dma (command_of delete_io_cq qid 0) p

-- What a round of drain_pending_admin finds: the device gone, or the memory of the ring.
pub data Look : Type 0 where
  gone : Look
  sees : (ℕ → Completion) → Look

-- A round: what becomes of the pending command where its completion may be there.
unfoldable pub drain_round : (ℕ → Completion) → Proto → Proto
unfolding look take_completion settle
drain_round cqes p =
    let seen = look cqes p.admin in
    let (cmpl, taken) = take_completion seen in
    if is_popable (is_busy seen) seen.rings
    then (if cmpl.command_id == p.admin.pending_cid
        then settle p.admin.pending_opcode cmpl.result taken p
        else record p { admin = taken })
    else record p { admin = seen }

unfoldable pub drain_loop : List Look → Proto → Outcome × Proto
unfolding drain_round
drain_loop [] p =
    if p.admin.pending
    then (waiting, p)
    else (returned none, record p { admin = record p.admin { desynced = false } })
drain_loop (gone ∷ looks) p =
    if p.admin.pending
    then (returned (some enodev), p)
    else (returned none, record p { admin = record p.admin { desynced = false } })
drain_loop (sees cqes ∷ looks) p =
    let rest = drain_loop looks (drain_round cqes p) in
    if p.admin.pending
    then rest
    else (returned none, record p { admin = record p.admin { desynced = false } })

unfoldable pub drain_pending_admin : List Look → Proto → Outcome × Proto
unfolding drain_loop
drain_pending_admin looks p =
    if p.admin.desynced && not p.admin.pending
    then (returned (some euclean), p)
    else drain_loop looks p

-- The writes of 0 to the addresses of the admin rings.
unfoldable pub disable_admin_queue : Proto → Proto
disable_admin_queue p = record p {
  reg_aqa = 0;
  reg_asq = 0;
  reg_acq = 0;
  queue_dma_programmed = false;
}
