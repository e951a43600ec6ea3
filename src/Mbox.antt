-- ===== src/Mbox.antt =====
-- mbox.c: the ring of a mailbox. An index is a byte, a position below the depth and a phase that
-- flips each time the position wraps around.
pub mod Index
pub mod Ring
mod Tests
use mxdriver.Common.{
  ℕ, ◌+◌, ◌-◌, ◌*◌, ◌/◌, ◌%◌, ◌^◌, Bool, not, ◌&&◌, u32, u64, ◌==◌, leb, nonzero, if◌then◌else◌,
}
use Prim.Native.Nat.{bit_and, bit_or}

-- The two bit fields of an mbox_index_t.
unfoldable pub index_of : ℕ → ℕ
index_of full = full % 128

unfoldable pub phase_of : ℕ → ℕ
phase_of full = full / 128

-- `^` on two phases.
abbrev pub phase_xor : ℕ → ℕ → ℕ
phase_xor a b = if a == b then 0 else 1

-- mbox_context_t.
pub record MboxContext : Type 0 where
  pub mid : ℕ
  pub ctx_base : ℕ
  pub data_base : ℕ
  pub q_size : ℕ
  pub data_size : ℕ
  pub tail : ℕ
  pub head : ℕ

-- Its view as a u64, by fields from the lowest bit up.
unfoldable pub context_of : ℕ → MboxContext
context_of word = record {
  mid = word % 2 ^ 8;
  ctx_base = word / 2 ^ 8 % 2 ^ 16;
  data_base = word / 2 ^ 24 % 2 ^ 16;
  q_size = word / 2 ^ 40 % 2 ^ 4;
  data_size = word / 2 ^ 44 % 2 ^ 4;
  tail = word / 2 ^ 48 % 2 ^ 8;
  head = word / 2 ^ 56 % 2 ^ 8;
}

-- `struct mx_mbox` without its mutex.
pub record Mbox : Type 0 where
  pub r_ctx_addr : ℕ
  pub w_ctx_addr : ℕ
  pub data_addr : ℕ
  pub ctx : MboxContext
  pub depth : ℕ

unfoldable pub is_empty : Mbox → Bool
is_empty mbox = mbox.ctx.head == mbox.ctx.tail

unfoldable pub is_full : Mbox → Bool
unfolding index_of phase_of
is_full mbox =
    (index_of mbox.ctx.head == index_of mbox.ctx.tail)
    && not (phase_of mbox.ctx.head == phase_of mbox.ctx.tail)

unfoldable pub get_free_space : Mbox → ℕ
unfolding index_of phase_of
get_free_space mbox = u32 (
    index_of mbox.ctx.head
    + 2 ^ 32
    - index_of mbox.ctx.tail
    + mbox.depth * (1 - phase_xor (phase_of mbox.ctx.head) (phase_of mbox.ctx.tail)))

unfoldable pub get_pending_count : Mbox → ℕ
unfolding index_of phase_of
get_pending_count mbox = u32 (
    index_of mbox.ctx.tail
    + 2 ^ 32
    - index_of mbox.ctx.head
    + mbox.depth * phase_xor (phase_of mbox.ctx.head) (phase_of mbox.ctx.tail))

-- `(index + count) & (depth - 1)` on u32, put into 7 bits.
unfoldable pub advance : ℕ → ℕ → ℕ → ℕ
advance index count depth = bit_and (u32 (index + count)) (u32 (depth + 2 ^ 32 - 1)) % 128

unfoldable pub get_next_index : ℕ → ℕ → ℕ → ℕ
unfolding index_of phase_of
get_next_index full count depth =
    let next = advance (index_of full) count depth in
    let phase =
      if nonzero count && leb next (index_of full) then 1 - phase_of full else phase_of full in
    next + 128 * phase

unfoldable pub get_data_offset : ℕ → ℕ
unfolding index_of
get_data_offset db = 8 * index_of db

-- mx_mbox_init; BIT() of the queue's size is its depth, HMBOX_UPDATE_BITMASK the bit 18.
unfoldable pub mx_mbox_init : ℕ → ℕ → ℕ → Mbox
unfolding context_of
mx_mbox_init ctx_addr data_addr word = record {
  r_ctx_addr = ctx_addr;
  w_ctx_addr = bit_or ctx_addr (2 ^ 18);
  data_addr = u64 (data_addr + 8 * (context_of word).data_base);
  ctx = context_of word;
  depth = 2 ^ (context_of word).q_size;
}

-- What a producer and a consumer of `count` words do to the context.
unfoldable pub push : Mbox → ℕ → Mbox
push mbox count = record mbox {
  ctx = record mbox.ctx { tail = get_next_index mbox.ctx.tail count mbox.depth };
}

unfoldable pub pop : Mbox → ℕ → Mbox
pop mbox count = record mbox {
  ctx = record mbox.ctx { head = get_next_index mbox.ctx.head count mbox.depth };
}
