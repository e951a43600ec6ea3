-- ===== src/Mbox/Tests.antt =====
-- The theorems on a mailbox, at one of eight words that has wrapped around.
use mxdriver.Common.{◌+◌, ◌*◌, ◌-◌, ◌^◌, ◌≡◌, refl, arith}
use mxdriver.Mbox.{
  Mbox, mx_mbox_init, context_of, get_free_space, get_pending_count, push, pop, index_of, phase_of,
}
use mxdriver.Mbox.Index.{IsIndex, position}
use mxdriver.Mbox.Ring.{IsRing, push-IsRing, pop-IsRing}

-- The head at 6, the tail at 2 in the next phase.
abbrev ring : Mbox
ring = record {
  r_ctx_addr = 4096;
  w_ctx_addr = 266240;
  data_addr = 8192;
  ctx = record {
    mid = 1;
    ctx_base = 0;
    data_base = 0;
    q_size = 3;
    data_size = 0;
    tail = 130;
    head = 6;
  };
  depth = 8;
}

-- It is what a device reports in a context word.
ring_init : mx_mbox_init 4096 8192 (1 + 3 * 2 ^ 40 + 130 * 2 ^ 48 + 6 * 2 ^ 56) ≡ ring
unfolding mx_mbox_init context_of
ring_init = refl

ring-IsRing : IsRing ring
unfolding IsIndex position index_of phase_of
ring-IsRing = record {
  small = omega arith;
  sized = refl;
  head_valid = (omega arith, omega arith);
  tail_valid = (omega arith, omega arith);
  holds = omega arith;
}

push-IsRing_example :
    IsRing (push ring 4)
    × (get_pending_count (push ring 4) ≡ get_pending_count ring + 4)
    × (get_free_space (push ring 4) ≡ get_free_space ring - 4)
unfolding get_free_space index_of phase_of
push-IsRing_example = push-IsRing ring 4 ring-IsRing (omega arith)

pop-IsRing_example :
    IsRing (pop ring 3)
    × (get_pending_count (pop ring 3) ≡ get_pending_count ring - 3)
    × (get_free_space (pop ring 3) ≡ get_free_space ring + 3)
unfolding get_pending_count index_of phase_of
pop-IsRing_example = pop-IsRing ring 3 ring-IsRing (omega arith)
