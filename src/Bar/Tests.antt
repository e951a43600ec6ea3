-- ===== src/Bar/Tests.antt =====
-- A BAR of one page that is mapped twice over by a fork, and a mailbox that is registered.
use mxdriver.Common.{◌≢◌, ◌<◌, refl, arith, true, none, some}
use mxdriver.Bar.{
  Bar, Vma, MboxInfo, word, Built, max_num_of_mbox, mx_bar_vma_open, vma_close_locked, mx_bar_mmap,
  ioctl_register_mbox,
}
use mxdriver.Bar.Sound.{IsSound}
use mxdriver.Bar.Runs.{
  fresh, created, switched, mapped, opened, closed, Used-IsSound, HasMailboxes,
  ioctl_register_mbox-matches,
}

abbrev online : Bar
online = record (fresh 4096 (some 48)) { enabled = true }

abbrev page : Vma
page = record {
  allocated = true;
  vm_pgoff = 0;
  vm_shared = true;
  vm_size = 4096;
  f_mapping = 7;
  remapped = none;
}

-- Mapped by descriptor 3, copied by a fork, and closed once.
abbrev shared : Bar
shared = (vma_close_locked 0 (mx_bar_vma_open 0 (mx_bar_mmap 3 page online).1)).1

Used-IsSound_example : IsSound shared
unfolding mx_bar_mmap mx_bar_vma_open
Used-IsSound_example = Used-IsSound shared (
    closed 0 (mx_bar_vma_open 0 (mx_bar_mmap 3 page online).1)
      (opened 0 (mx_bar_mmap 3 page online).1
        (mapped 3 page online (switched true (fresh 4096 (some 48)) (created 4096 (some 48)))
          (omega arith))
        (omega arith) (omega arith))
      (omega arith))

abbrev info : MboxInfo
info = record {
  qid = 5;
  sq_ctx_addr = 4096;
  sq_data_addr = 8192;
  cq_ctx_addr = 12288;
  cq_data_addr = 16384;
}

abbrev built : Built
built = record { read = word 0; allocated = true }

ioctl_register_mbox-matches_example :
    (info.qid < max_num_of_mbox)
    × (online.reserved_hio_qid ≢ some info.qid)
    × HasMailboxes info (ioctl_register_mbox true info built built (λ s. s) online).1
unfolding ioctl_register_mbox
ioctl_register_mbox-matches_example =
    ioctl_register_mbox-matches true info built built (λ s. s) online refl
