-- ===== src/Queue.antt =====
-- The queue of commands: its two handlers in core_common.c, the waiting for a transfer and the
-- reclaiming of zombies in transfer.c, and the ids in helper.c. The transfers that are not freed
-- stand in one list, those of sq_list in their order. The two counters are not decremented at 0.
pub mod Counts
pub mod Sound
pub mod Steps
pub mod Reclaim
pub mod Runs
mod Tests
use mxdriver.Common.{
  ℕ, ◌+◌, ◌-◌, Bool, true, false, not, ◌&&◌, ◌||◌, Option, none, some, List, [], ◌∷◌, ◌++◌, ◌==◌,
  leb, if◌then◌else◌,
}

-- `struct mx_transfer`: `addr` is the address of it, `queued` says that its entry is in sq_list,
-- `registered` that its id leads to it, `claimed` is wait_claimed and `done` the completion.
-- `pushed` notes that the device has got the command.
pub record Transfer : Type 0 where
  pub addr : ℕ
  pub id : ℕ
  pub no_completion : Bool
  pub registered : Bool
  pub queued : Bool
  pub pushed : Bool
  pub claimed : Bool
  pub zombie : Bool
  pub done : Bool
  pub result : ℕ
  pub status : ℕ

-- enum mx_liveness_health.
pub data Health : Type 0 where
  unknown alive suspect dead : Health

-- `struct mx_queue` with the transfers; `zombie` is true of those in zombie_list.
pub record Queue : Type 0 where
  pub transfers : List Transfer
  pub wait_count : ℕ
  pub zombie_wait_count : ℕ
  pub health : Health
  pub inflight : Bool
  pub progress : ℕ
  pub sent_ns : ℕ

-- MX_PING_ID.
abbrev pub ping_id : ℕ
ping_id = 65535

abbrev pub find : (Transfer → Bool) → List Transfer → Option Transfer
find p [] = none
find p (t ∷ ts) = if p t then some t else find p ts

-- The first transfer with `p`, changed or taken out.
abbrev pub update : (Transfer → Bool) → (Transfer → Transfer) → List Transfer → List Transfer
update p f [] = []
update p f (t ∷ ts) = let rest = update p f ts in if p t then f t ∷ ts else t ∷ rest

abbrev pub remove : (Transfer → Bool) → List Transfer → List Transfer
remove p [] = []
remove p (t ∷ ts) = let rest = remove p ts in if p t then ts else t ∷ rest

abbrev pub is_at : ℕ → Transfer → Bool
is_at addr t = t.addr == addr

-- idr_find().
abbrev pub has_id : ℕ → Transfer → Bool
has_id id t = t.registered && (t.id == id)

-- alloc_mx_transfer, with the address and the id that it is given.
unfoldable pub alloc_mx_transfer : ℕ → ℕ → Bool → Queue → Queue
alloc_mx_transfer addr id no_completion q = record q {
  transfers =
      q.transfers
      ++ (record {
        addr = addr;
        id = id;
        no_completion = no_completion;
        registered = true;
        queued = false;
        pushed = false;
        claimed = false;
        zombie = false;
        done = false;
        result = 0;
        status = 0;
      }
          ∷ []);
}

-- mx_transfer_queue: the transfer becomes the last one.
unfoldable pub mx_transfer_queue : ℕ → Queue → Queue
mx_transfer_queue addr q = elim (find (is_at addr) q.transfers) [
  | none ↦ q
  | some t ↦ record q {
    transfers = remove (is_at addr) q.transfers ++ (record t { queued = true; done = false } ∷ []);
  }
]

abbrev pub is_queued : Transfer → Bool
is_queued t = t.queued

-- What the submit handler does to the transfer it takes off the list.
unfoldable pub pushed_transfer : Transfer → Transfer
pushed_transfer t = record t {
  queued = false;
  pushed = true;
  done = if t.no_completion then true else t.done;
}

-- A round of the loop of mx_submit_handler; `now` is jiffies.
unfoldable pub submit_one : ℕ → Transfer → Queue → Queue
unfolding pushed_transfer
submit_one now t q =
    let wait_count = if t.no_completion then q.wait_count else q.wait_count + 1 in
    record q {
      transfers = update is_queued pushed_transfer q.transfers;
      wait_count = wait_count;
      progress =
          if not t.no_completion && leb wait_count (q.zombie_wait_count + 1)
          then now
          else q.progress;
    }

-- The loop under sq_lock; `answers` are what is_pushable() returns, and after the last of them it
-- returns false. `lv_on` is liveness_enable.
unfoldable pub submit_pass : Bool → ℕ → List Bool → Queue → Queue
unfolding submit_one
submit_pass lv_on now [] q = q
submit_pass lv_on now (pushable ∷ answers) q = elim (find is_queued q.transfers) [
  | none ↦ q
  | some t ↦
      let rest = submit_pass lv_on now answers (submit_one now t q) in
      if lv_on && q.inflight then q else if pushable then rest else q
]

pub record CompletionInfo : Type 0 where
  pub id : ℕ
  pub result : ℕ
  pub status : ℕ

-- transfer_id_claim_completion, and what the complete handler does to the transfer claimed.
unfoldable pub claimed_transfer : CompletionInfo → Transfer → Transfer
claimed_transfer info t =
    if t.zombie then record t { claimed = true; registered = false } else record t {
      claimed = true;
      registered = false;
      result = info.result;
      status = info.status;
      done = true;
    }

unfoldable pub claim : CompletionInfo → Queue → Queue
unfolding claimed_transfer
claim info q = elim (find (has_id info.id) q.transfers) [
  | none ↦ q
  | some t ↦ if t.claimed then q else record q {
    transfers = update (has_id info.id) (claimed_transfer info) q.transfers;
    wait_count = q.wait_count - 1;
  }
]

-- A round of the inner loop of mx_complete_handler.
unfoldable pub complete_one : ℕ → CompletionInfo → Queue → Queue
unfolding claim
complete_one now info q =
    let seen = record q { progress = now; health = alive; inflight = false } in
    if info.id == ping_id then seen else claim info seen

-- release_mx_transfer, as far as the queue is concerned.
unfoldable pub release_mx_transfer : ℕ → Queue → Queue
release_mx_transfer addr q = record q { transfers = remove (is_at addr) q.transfers }

-- Parking a transfer as a zombie.
unfoldable pub park : ℕ → Queue → Queue
park addr q = record q {
  transfers = update (is_at addr) (λ t. record t { zombie = true }) q.transfers;
  zombie_wait_count = q.zombie_wait_count + 1;
}

-- mx_transfer_wait from the end of its loop on. `completed` is whether the completion came in time,
-- `late` whether it came within the second that is waited for where the transport is not dead.
unfoldable pub wait_end : ℕ → Bool → Bool → Transfer → Queue → Queue
unfolding release_mx_transfer park
wait_end addr completed late t q =
    if completed
    then release_mx_transfer addr q
    else if t.queued
    then release_mx_transfer addr q
    else if late
    then release_mx_transfer addr q
    else park addr q

-- drain_zombie_list on those zombies of the list for which `p` holds.
unfoldable pub drain_zombies : (Transfer → Bool) → List Transfer → Queue → Queue
drain_zombies p [] q = record q { transfers = [] }
drain_zombies p (t ∷ ts) q =
    let rest = drain_zombies p ts q in
    if t.zombie && p t
    then record rest {
      wait_count = if t.claimed then rest.wait_count else rest.wait_count - 1;
      zombie_wait_count = rest.zombie_wait_count - 1;
    }
    else record rest { transfers = t ∷ rest.transfers }

-- A round of zombie_cleanup_handler, and its end; `safe` is dma_reclaim_safe.
abbrev pub is_claimed : Transfer → Bool
is_claimed t = t.claimed

unfoldable pub cleanup_round : Queue → Queue
unfolding drain_zombies
cleanup_round q = drain_zombies is_claimed q.transfers q

unfoldable pub cleanup_end : Bool → Queue → Queue
unfolding drain_zombies
cleanup_end safe q = if safe then drain_zombies (λ t. true) q.transfers q else q

-- mxdma_io_queue_idle of init.c, for a queue that is there.
unfoldable pub mxdma_io_queue_idle : Queue → Bool
mxdma_io_queue_idle q =
    (elim (find is_queued q.transfers) [ none ↦ true | some _ ↦ false ])
    && (q.wait_count == 0)
    && (q.zombie_wait_count == 0)
