-- ===== src/Transfer/Tests.antt =====
-- The theorems on mappings and splits, at a buffer of 9000 bytes that touches three pages.
use mxdriver.Common.{ℕ, ◌+◌, ◌≤◌, ◌<◌, ◌≡◌, refl, max, true, ok, arith, List, [], ◌∷◌, none, some}
use mxdriver.Desc.Command.{Xfer}
use mxdriver.Transfer.{
  SgContext, Kernel, mx_sg_context_create, Parallel, mx_parallel_count_for, alloc_mx_transfers,
  as_count,
}
use mxdriver.Transfer.Pages.{mx_parallel_count_for-le}
use mxdriver.Transfer.Split.{Tiles, alloc_mx_transfers-Tiles}

abbrev map_limit : ℕ
map_limit = 262000

-- A kernel in which all succeeds, with one entry for the whole buffer.
abbrev kernel : Kernel
kernel = record {
  context_given = true;
  pages_given = true;
  pin = λ a n. ok n;
  table = λ n o t. none;
  dma_map = λ a t. record { dma_address = a; dma_len = t } ∷ [];
}

abbrev context : SgContext
context = record {
  user_addr = 5000;
  total_size = 9000;
  sgt = record { dma_address = 5000; dma_len = 9000 } ∷ [];
  pages_nr = 3;
}

context_created : mx_sg_context_create kernel 5000 9000 ≡ ok context
unfolding mx_sg_context_create
context_created = refl

abbrev defaults : Parallel
defaults = record { split_ratio = 50; count = 6 }

mx_parallel_count_for-le_example :
    (0 < mx_parallel_count_for defaults 1024 5000 9000)
    × (mx_parallel_count_for defaults 1024 5000 9000 ≤ 3)
    × (mx_parallel_count_for defaults 1024 5000 9000 ≤ max (as_count 6) 1)
mx_parallel_count_for-le_example =
    mx_parallel_count_for-le defaults 1024 5000 9000 (omega arith) (omega arith)

abbrev legacy : Parallel
legacy = record { split_ratio = 0; count = 2 }

two_splits : mx_parallel_count_for legacy 1024 5000 9000 ≡ 2
unfolding mx_parallel_count_for
two_splits = refl

alloc_mx_transfers-Tiles_example :
    (xfers : List Xfer) × (alloc_mx_transfers true
        (λ i. some (i + 7))
        context
        65536
        (mx_parallel_count_for legacy 1024 5000 9000)
      ≡ some xfers)
    × Tiles context 0 65536 xfers
alloc_mx_transfers-Tiles_example =
    alloc_mx_transfers-Tiles kernel legacy 1024 5000 9000 65536 (λ i. i + 7) context context_created
      (omega arith)
