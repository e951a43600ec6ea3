-- ===== src/Ioctl/Tests.antt =====
-- A mailbox of eight words with two of them pending, and one to send or to take.
use mxdriver.Common.{◌*◌, ◌^◌, refl, arith}
use mxdriver.Mbox.{Mbox, index_of, phase_of, context_of, is_empty}
use mxdriver.Mbox.Index.{IsIndex, position}
use mxdriver.Mbox.Ring.{IsRing}
use mxdriver.V1.{Memory}
use mxdriver.Bar.{nothing, word}
use mxdriver.Ioctl.{
  bytes, send_cmds_locked, recv_cmds_locked, viewed, with_tail, get_pushable_count,
}
use mxdriver.Ioctl.Append.{Appended, send_cmds_locked-Appended}
use mxdriver.Ioctl.Recv.{Taken, recv_cmds_locked-Taken}

-- The head at 4, the tail at 6.
abbrev ring : Mbox
ring = record {
  r_ctx_addr = 4096;
  w_ctx_addr = 266240;
  data_addr = 8192;
  ctx = record {
    mid = 1;
    ctx_base = 0;
    data_base = 0;
    q_size = 3;
    data_size = 0;
    tail = 6;
    head = 4;
  };
  depth = 8;
}

ring-IsRing : IsRing ring
unfolding IsIndex position index_of phase_of
ring-IsRing = record {
  small = omega arith;
  sized = refl;
  head_valid = (omega arith, omega arith);
  tail_valid = (omega arith, omega arith);
  holds = omega arith;
}

abbrev memory : Memory
memory a = a

send_cmds_locked-Appended_example :
    Appended memory 2 memory
      (viewed nothing 2 ring)
      (send_cmds_locked nothing (bytes 16) 2 memory ring)
unfolding viewed send_cmds_locked get_pushable_count index_of phase_of
send_cmds_locked-Appended_example =
    send_cmds_locked-Appended memory nothing (bytes 16) 2 memory ring ring-IsRing refl

recv_cmds_locked-Taken_example :
    Taken memory 1
      (with_tail (word (6 * 2 ^ 48)) ring)
      (recv_cmds_locked (word (6 * 2 ^ 48)) 1 ring)
unfolding with_tail recv_cmds_locked context_of is_empty
recv_cmds_locked-Taken_example =
    recv_cmds_locked-Taken memory (word (6 * 2 ^ 48)) 1 ring ring-IsRing refl
