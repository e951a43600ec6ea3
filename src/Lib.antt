-- ===== src/Lib.antt =====
-- The device lease, the transfers and the mailboxes of the mxdriver kernel module, and what their
-- code guarantees.
--
-- The driver lets several processes share a device. Before a descriptor may touch the device it
-- acquires a lease through an ioctl: a profile of one of three families (hub, standalone,
-- coordinator), as a publisher, which sets the device up while it is quiescent, or as a workload.
-- lease_sm.h is the state machine that decides; it counts holders, publishers, workloads and legacy
-- users. lease.c calls it under the lease's mutex, pins the state file (the anchor) that a
-- publisher brings, pins the slot domain, binds the files by which a workload proves that it lives,
-- and admits each direct call and each transfer.
--
-- A mailbox is a ring of 64-bit words in the device's memory, between the driver and the device.
-- Its two indices are bytes, 7 bits of position and a phase bit that flips at each wrap-around. A
-- context word of the device gives the depth, a power of two; the theorems are about depths up to
-- 128, beyond which 7 bits do not count.
--
-- A transfer moves a slice of a user's buffer. The buffer is pinned and mapped for DMA, split by
-- pages into transfers that run in parallel, and each of them becomes a command. The device gets no
-- lengths: it takes the first descriptor up to a chunk boundary and each later one as a whole chunk,
-- through lists whose last entries link them. The commands wait in a queue for the submit handler;
-- the complete handler claims what the device completes, by the id of the transfer. A waiter that
-- gives up parks its transfer as a zombie, which is freed once its completion is claimed.
--
-- Modules and code:
--   Common               numbers, results and lists; a u32 and a u64 wrap by `%`
--   Lease/Uapi           include/uapi/mx_dma_lease.h: enumerations and their codes
--   Lease/Sm             lease_sm.h, one definition for each function; its children are about
--                        the account of the counters (Tally, Account, Admission, Moves, Exits)
--   Lease/Device         mx_dma.h: struct mx_device_lease, struct mx_file_ctx; lease.c: the small
--                        functions that read them
--   Lease/Acquire        lease.c: mx_lease_acquire
--   Lease/Transition     lease.c: mx_lease_transition
--   Lease/Vfs            lease.c: the record locks, over a parameter for the kernel's
--   Lease/SlotDomain     lease.c: mx_lease_anchor_slot_domain
--   Lease/Proofs, Unbind lease.c: mx_lease_workload_proofs, mx_lease_bind_proofs,
--                        mx_lease_unbind_proofs
--   Lease/Query          lease.c: mx_lease_query, mx_lease_get_caps
--   Lease/Context        lease.c: mx_lease_direct_begin and the other accesses; the descriptor's
--                        references
--   Lease/World          a device with all its descriptors, and the locked sections as steps
--   Lease/Tests          concrete files, requests and steps
--   Mbox                 mbox.c; the update of the index in core_v1.c: push_mx_command and
--                        pop_mx_command
--   Mbox/Index, Ring     the index as a counter modulo twice the depth, the mailbox as a bounded
--                        queue
--   Desc                 core_common.c: mx_get_list_count and mx_sg_locate
--   Desc/Prp             core_common.c: mx_get_total_desc_count and mx_desc_list_init; transfer.c:
--                        desc_list_alloc; its children are about the bytes that the device moves
--   Desc/Command         core_v1.c, core_v2.c: create_mx_command_sg
--   Transfer             transfer.c: mx_sg_context_create, mx_max_sg_segment,
--                        mx_parallel_count_for, alloc_mx_transfers
--   Queue                core_common.c: mx_submit_handler, mx_complete_handler; transfer.c:
--                        mx_transfer_queue, the end of mx_transfer_wait, the zombies; helper.c: ids;
--                        init.c: mxdma_io_queue_idle; its children are about the two counters
--   V1                   core_v1.c: push_mx_command, pop_mx_command, is_pushable; its children are
--                        about the words of commands as a queue
--   Liveness             core_common.c: mx_liveness_watchdog, a run at a time
--   V2                   core_v2.c: the submission and the completion ring
--   V2/Cq, Traffic, Sq   the completion ring as a queue, the traffic that reaches it, the
--                        submission ring as a queue
--   V2/Admin             core_v2.c: submit_sync_command, delete_io_sq, delete_io_cq,
--                        drain_pending_admin, disable_admin_queue
--   V2/Admin/Recover     core_v2.c: recover_mx_queue, release_io_queue
--   V2/Admin/Create      core_v2.c: configure_io_queue; the other children are about what the
--                        operations keep and leave (Safe, Sent, Answer, Retire, Drain, Install),
--                        and about the ends of the waits (Live, Drain/Ends)
--   Teardown             init.c: mxdma_stop_device_protocol, over the operations of a queue
--   Teardown/Destroy     init.c: destroy_mx_pdev
--   Teardown/Stop        what the teardown relies on of those operations, and its steps
--   Teardown/Rings       core_v2.c: register_mx_ops_v2, and that version 2 keeps what is relied on
--   Bar                  core_common.c: mx_bar_mmap and the VMAs; ioctl.c: ioctl_register_mbox,
--                        mx_free_registered_mboxes; its children count the VMAs and follow any
--                        sequence of the sections (Counts, Sound, Runs)
--   Ioctl                ioctl.c: ioctl_send_cmds, ioctl_recv_cmds; its children are about the words
--                        that a batch appends (Send, Append) and takes (Recv)
--   Fops                 fops.c: the calls on an open node around their handlers; init.c:
--                        mxdma_device_offline; transfer.c: the reference of a nowait waiter
--   Fops/Admitted, Drain which calls reach a handler that touches the device; what percpu_ref is
--                        relied on to do, and the fence of the teardown
--
-- The rings of version 2 are created and deleted by commands of an admin queue. A command that times
-- out stays pending and may still take effect; the device then counts as poisoned until a recovery
-- has seen its completion. Unbinding a device stops its protocol, by a release or by recoveries, and
-- frees the memory of the rings only after that.
--
-- User space may also map the whole BAR, or register mailboxes and send and receive words through
-- them by ioctls; the two exclude each other.
--
-- Each call on an open node holds the reference count io_ref of the device while its body runs. The
-- percpu_ref of the kernel is an interface, with what the kernel documents of it as its laws.
--
-- A call that publishes a reply has two locked sections, with the lock free in between: the first
-- one decides and writes, and the second one undoes that when copy_to_user() fails. Both are
-- definitions, and the whole call takes what others do in between as an argument. In Lease/World
-- each section is a step of its own, so that a sequence of steps is any interleaving of calls.
--
-- Numbers are natural numbers; u32 and u64 wrap where the code may wrap. One loop runs on fuel,
-- that of mx_get_list_count, which goes around less than once per descriptor: more fuel than there
-- are descriptors is enough. Its int wraps too; where the theorems count lists, they fit in
-- INT_MAX. The walk of mx_desc_list_init is by recursion on the descriptors that are left, which it
-- decrements; PAGE_SIZE is 4096, and a boundary test by a mask is a remainder.
--
-- Not modelled: the reference counts that the kernel keeps of files, paths and modules, so that an
-- inode is its address; the wait for a removed device; what the capability bits of
-- mx_lease_get_caps say. fget(), capable(), copy_from_user(), copy_to_user() and the record locks
-- of the kernel are arguments. The padding of the two structures that memcmp() compares is taken to
-- be equal where their fields are. The mutex of a mailbox, the header's bit fields and what the
-- device reads of a context are not modelled. The answers of the kernel's allocators, of pinning,
-- of mapping and of is_pushable() are arguments. Freeing after an error, reference counts of a
-- mapping, and the lease's part in a transfer are not in the models of transfers and queues. A
-- transfer's flags stand with it in one list: the order of the zombies and the steps inside parking
-- are not modelled, nor are the waiting loop of mx_transfer_wait and the backoff of the handlers.
-- The loops that wait for the device without a limit, in the drain of an admin command and in the
-- teardown, take their rounds from a list, and say so where the rounds are over and the loop is
-- not; the two loops of submit_sync_command have their 500 rounds. What the device writes to a ring
-- is an argument at each look. The allocation of rings, configure_admin_queue and the kernel's
-- objects behind a device are not modelled. The references that a mapping and an open node hold on
-- the device, the wake-ups of pollers, and what the handlers of an ioctl do to the device within a
-- call of Fops are not modelled. The rest of the driver (control and passthru commands, the ioctls
-- other than those above, probing) is not modelled.
pub mod Common
pub mod Lease
pub mod Mbox
pub mod Desc
pub mod Transfer
pub mod Queue
pub mod Liveness
pub mod V1
pub mod V2
pub mod Teardown
pub mod Bar
pub mod Ioctl
pub mod Fops
