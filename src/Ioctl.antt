-- ===== src/Ioctl.antt =====
-- ioctl.c: commands of user space through the registered mailboxes, a word each.
pub mod Send
pub mod Append
pub mod Recv
mod Tests
use mxdriver.Common.{
  ℕ, zero, suc, ◌+◌, ◌-◌, ◌*◌, ◌^◌, Bool, true, false, not, ◌&&◌, ◌||◌, ◌==◌, ltb, if◌then◌else◌,
  Option, none, some, List, [], ◌∷◌, Ret, Errno, eio, einval, efault, eintr, u32,
}
use mxdriver.Mbox.{Mbox, context_of, index_of, phase_of, is_empty, get_data_offset, push, pop}
use mxdriver.Bar.{Read, failed, nothing, word, max_num_of_mbox, set}

-- Up to where the ring wraps around.
unfoldable pub get_pushable_count : Mbox → ℕ
unfolding index_of phase_of
get_pushable_count mbox =
    if phase_of mbox.ctx.head == phase_of mbox.ctx.tail
    then u32 (mbox.depth + 2 ^ 32 - index_of mbox.ctx.tail)
    else u32 (index_of mbox.ctx.head + 2 ^ 32 - index_of mbox.ctx.tail)

unfoldable pub get_popable_count : Mbox → ℕ
unfolding index_of phase_of
get_popable_count mbox =
    if phase_of mbox.ctx.head == phase_of mbox.ctx.tail
    then u32 (index_of mbox.ctx.tail + 2 ^ 32 - index_of mbox.ctx.head)
    else u32 (mbox.depth + 2 ^ 32 - index_of mbox.ctx.head)

-- get_sq_mbox and get_cq_mbox, over the list of the one or the other.
abbrev pub get_mbox : (ℕ → Option Mbox) → ℕ → Option Mbox
get_mbox slots qid = if ltb qid max_num_of_mbox then slots qid else none

-- What write_data_to_device does: it fails, or writes some bytes.
pub data Wrote : Type 0 where
  refused : Errno → Wrote
  bytes : ℕ → Wrote

-- The end of a call: its result, the number that it reports, the mailbox, and where the words that
-- it moves are in the device, with those that it sends.
pub record Batch : Type 0 where
  pub ret : Ret
  pub count : ℕ
  pub mbox : Mbox
  pub payload : Option (ℕ × List ℕ)

-- The words that user space gives.
abbrev pub list_of : (ℕ → ℕ) → ℕ → ℕ → List ℕ
list_of cmds j zero = []
list_of cmds j (suc n) = cmds j ∷ list_of cmds (j + 1) n

abbrev pub is_failed : Read → Bool
is_failed (failed e) = true
is_failed nothing = true
is_failed (word ctx) = false

unfoldable pub with_head : Read → Mbox → Mbox
with_head (failed e) mbox = mbox
with_head nothing mbox = mbox
with_head (word ctx) mbox = record mbox { ctx = record mbox.ctx { head = (context_of ctx).head } }

-- The mailbox after the head is read, which it is where the cached one does not do.
unfoldable pub viewed : Read → ℕ → Mbox → Mbox
unfolding get_pushable_count with_head
viewed read nr_cmds mbox =
    if ltb (get_pushable_count mbox) nr_cmds then with_head read mbox else mbox

unfoldable pub finish_write : Wrote → ℕ → ℕ × List ℕ → Mbox → Batch
finish_write (refused e) count payload mbox = record {
  ret = some e;
  count = 0;
  mbox = mbox;
  payload = some payload;
}
finish_write (bytes n) count payload mbox =
    if ltb n (8 * count)
    then record { ret = some eio; count = 0; mbox = mbox; payload = some payload }
    else record { ret = none; count = count; mbox = push mbox count; payload = some payload }

unfoldable pub write_batch : Wrote → ℕ → (ℕ → ℕ) → Mbox → Batch
unfolding finish_write
write_batch wrote count cmds mbox =
    finish_write wrote count (mbox.data_addr + get_data_offset mbox.ctx.tail, list_of cmds 0 count)
      mbox

abbrev pub at_most : ℕ → ℕ → ℕ
at_most nr count = if ltb nr count then nr else count

unfoldable pub push_words : Wrote → ℕ → (ℕ → ℕ) → Mbox → Batch
unfolding get_pushable_count write_batch
push_words wrote nr_cmds cmds mbox =
    let count = get_pushable_count mbox in
    if count == 0
    then record { ret = none; count = 0; mbox = mbox; payload = none }
    else write_batch wrote (at_most nr_cmds count) cmds mbox

-- ioctl_send_cmds under the mailbox's lock.
unfoldable pub send_cmds_locked : Read → Wrote → ℕ → (ℕ → ℕ) → Mbox → Batch
unfolding get_pushable_count viewed push_words
send_cmds_locked read wrote nr_cmds cmds mbox =
    if ltb (get_pushable_count mbox) nr_cmds && is_failed read
    then record { ret = some eintr; count = 0; mbox = mbox; payload = none }
    else push_words wrote nr_cmds cmds (viewed read nr_cmds mbox)

unfoldable pub with_tail : Read → Mbox → Mbox
with_tail (failed e) mbox = mbox
with_tail nothing mbox = mbox
with_tail (word ctx) mbox = record mbox { ctx = record mbox.ctx { tail = (context_of ctx).tail } }

-- The results of the data and of the context that follow are not looked at.
unfoldable pub pop_words : ℕ → Mbox → Batch
unfolding get_popable_count
pop_words nr_cmds mbox =
    let count = at_most nr_cmds (get_popable_count mbox) in
    if is_empty mbox
    then record { ret = none; count = 0; mbox = mbox; payload = none }
    else record {
      ret = none;
      count = count;
      mbox = pop mbox count;
      payload = some (mbox.data_addr + get_data_offset mbox.ctx.head, []);
    }

-- ioctl_recv_cmds under the mailbox's lock.
unfoldable pub recv_cmds_locked : Read → ℕ → Mbox → Batch
unfolding with_tail pop_words
recv_cmds_locked read nr_cmds mbox =
    if is_failed read
    then record { ret = some eintr; count = 0; mbox = mbox; payload = none }
    else pop_words nr_cmds (with_tail read mbox)

-- The whole of the two calls, over the slots of the device's mailboxes: whether the request is
-- copied in and the reply copied out, and the batch under the lock.
unfoldable pub finish_batch : Bool → ℕ → (ℕ → Option Mbox) → Batch → Ret × ℕ × (ℕ → Option Mbox)
finish_batch replied qid slots b =
    let after = set slots qid (some b.mbox) in
    (if replied then b.ret else with_fault b.ret, b.count, after)
  where
    with_fault : Ret → Ret
    with_fault none = some efault
    with_fault (some e) = some e

unfoldable pub send_to :
    Bool
    → ℕ
    → Read
    → Wrote
    → ℕ
    → Option (ℕ → ℕ)
    → (ℕ → Option Mbox)
    → Option Mbox
    → Ret × ℕ × (ℕ → Option Mbox)
unfolding finish_batch send_cmds_locked
send_to replied qid read wrote nr_cmds cmds slots none = (some einval, 0, slots)
send_to replied qid read wrote nr_cmds none slots (some mbox) = (some einval, 0, slots)
send_to replied qid read wrote nr_cmds (some cmds) slots (some mbox) =
    finish_batch replied qid slots (send_cmds_locked read wrote nr_cmds cmds mbox)

unfoldable pub ioctl_send_cmds :
    Bool
    → Bool
    → ℕ
    → Read
    → Wrote
    → ℕ
    → Option (ℕ → ℕ)
    → (ℕ → Option Mbox)
    → Ret × ℕ × (ℕ → Option Mbox)
unfolding send_to
ioctl_send_cmds copied replied qid read wrote nr_cmds cmds slots =
    if not copied
    then (some efault, 0, slots)
    else send_to replied qid read wrote nr_cmds cmds slots (get_mbox slots qid)

unfoldable pub recv_from :
    Bool → ℕ → Read → ℕ → Bool → (ℕ → Option Mbox) → Option Mbox → Ret × ℕ × (ℕ → Option Mbox)
unfolding finish_batch recv_cmds_locked
recv_from replied qid read nr_cmds given slots none = (some einval, 0, slots)
recv_from replied qid read nr_cmds given slots (some mbox) =
    if (nr_cmds == 0) || not given
    then (some einval, 0, slots)
    else finish_batch replied qid slots (recv_cmds_locked read nr_cmds mbox)

-- `given` is whether there is a buffer.
unfoldable pub ioctl_recv_cmds :
    Bool → Bool → ℕ → Read → ℕ → Bool → (ℕ → Option Mbox) → Ret × ℕ × (ℕ → Option Mbox)
unfolding recv_from
ioctl_recv_cmds copied replied qid read nr_cmds given slots =
    if not copied
    then (some efault, 0, slots)
    else recv_from replied qid read nr_cmds given slots (get_mbox slots qid)
