-- ===== src/V1.antt =====
-- core_v1.c: commands in the mailboxes of version 1, four words each. A word of the device's memory
-- is at the address of its first byte.
pub mod Fifo
pub mod Pop
pub mod Room
mod Tests
use mxdriver.Common.{ℕ, ◌+◌, ◌*◌, Bool, true, ◌==◌, ltb, leb, if◌then◌else◌}
use mxdriver.Mbox.{Mbox, MboxContext, get_data_offset, get_free_space, get_pending_count, push, pop}

abbrev pub Memory : Type 0
Memory = ℕ → ℕ

-- `struct mx_command` as its words.
pub record Words : Type 0 where
  pub header : ℕ
  pub size : ℕ
  pub device_addr : ℕ
  pub host_addr : ℕ

-- memcpy_toio().
abbrev pub store : Memory → ℕ → Words → Memory
store mem base w a =
    if a == base
    then w.header
    else if a == base + 8
    then w.size
    else if a == base + 16
    then w.device_addr
    else if a == base + 24
    then w.host_addr
    else mem a

-- sizeof(struct mx_command) / sizeof(uint64_t).
abbrev pub data_count : ℕ
data_count = 4

-- is_pushable, and the context that it leaves; `read` is the one in the device.
unfoldable pub is_pushable : MboxContext → Mbox → Bool × Mbox
is_pushable read mbox =
    if leb (data_count * 2) (get_free_space mbox)
    then (true, mbox)
    else (leb data_count (get_free_space (record mbox { ctx = read })), record mbox { ctx = read })

unfoldable pub push_mx_command : Memory → Mbox → Words → Memory × Mbox
push_mx_command mem mbox comm =
    (store mem (mbox.data_addr + get_data_offset mbox.ctx.tail) comm, push mbox data_count)

-- The header and host_addr, which alone are read.
unfoldable pub pop_mx_command : Memory → Mbox → ℕ × ℕ × Mbox
pop_mx_command mem mbox =
    let data_addr = mbox.data_addr + get_data_offset mbox.ctx.head in
    (mem data_addr, mem (data_addr + 24), pop mbox data_count)
