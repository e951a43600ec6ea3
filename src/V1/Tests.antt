-- ===== src/V1/Tests.antt =====
-- Commands in a ring of eight words that has wrapped around: one is pending.
use mxdriver.Common.{ℕ, ◌≡◌, ◌+◌, refl, arith, [], ◌∷◌, ◌++◌}
use mxdriver.Mbox.{Mbox, get_free_space, get_pending_count, index_of, phase_of}
use mxdriver.Mbox.Index.{IsIndex, position}
use mxdriver.V1.{Memory, Words, push_mx_command, pop_mx_command}
use mxdriver.V1.Fifo.{contents, IsAligned, push_mx_command-contents}
use mxdriver.V1.Pop.{pop_mx_command-contents}

-- The head at 4, the tail at 0 in the next phase.
abbrev ring : Mbox
ring = record {
  r_ctx_addr = 4096;
  w_ctx_addr = 266240;
  data_addr = 8192;
  ctx = record {
    mid = 1;
    ctx_base = 0;
    data_base = 0;
    q_size = 3;
    data_size = 0;
    tail = 128;
    head = 4;
  };
  depth = 8;
}

ring-IsAligned : IsAligned ring
unfolding IsIndex position index_of phase_of
ring-IsAligned = record {
  ring = record {
    small = omega arith;
    sized = refl;
    head_valid = (omega arith, omega arith);
    tail_valid = (omega arith, omega arith);
    holds = omega arith;
  };
  depth = refl;
  head = refl;
  tail = refl;
}

abbrev memory : Memory
memory a = a + 1

abbrev command : Words
command = record { header = 4660; size = 4096; device_addr = 1048576; host_addr = 65536 }

push_mx_command-contents_example :
    let (mem', mbox') = push_mx_command memory ring command in
    (contents mem' mbox' ≡ contents memory ring ++ (4660 ∷ 4096 ∷ 1048576 ∷ 65536 ∷ []))
    × IsAligned mbox'
unfolding get_free_space index_of phase_of
push_mx_command-contents_example =
    push_mx_command-contents memory ring command ring-IsAligned (omega arith)

pop_mx_command-contents_example :
    let (header, host_addr, mbox') = pop_mx_command memory ring in
    (size : ℕ) × (device_addr : ℕ) × (contents memory ring
      ≡ header ∷ size ∷ device_addr ∷ host_addr ∷ contents memory mbox')
    × IsAligned mbox'
unfolding get_pending_count index_of phase_of
pop_mx_command-contents_example = pop_mx_command-contents memory ring ring-IsAligned (omega arith)
