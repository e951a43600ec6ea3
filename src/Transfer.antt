-- ===== src/Transfer.antt =====
-- transfer.c: the mapping of a user's buffer, and its split into the transfers that run in parallel.
-- An address and a size_t are 64 bits; PAGE_SIZE is 4096.
pub mod Pages
pub mod Split
mod Tests
use mxdriver.Common.{
  ℕ, zero, suc, ◌+◌, ◌-◌, ◌*◌, ◌/◌, ◌%◌, ◌^◌, min, max, Bool, true, false, Option, none, some, List,
  [], ◌∷◌, Result, ok, err, Errno, einval, enomem, efault, eio, u32, u64, ltb, leb, ◌==◌, nonzero,
  if◌then◌else◌,
}
use mxdriver.Desc.{Scatter}
use mxdriver.Desc.Prp.{Slice}
use mxdriver.Desc.Command.{Xfer}

-- PAGE_SIZE and INT_MAX.
abbrev pub page_size : ℕ
page_size = 4096

abbrev pub int_max : ℕ
int_max = 2147483647

-- `& PAGE_MASK`.
unfoldable pub page_floor : ℕ → ℕ
page_floor addr = addr - addr % page_size

-- mx_max_sg_segment, from what dma_get_max_seg_size() and dma_max_mapping_size() return; the result
-- is an unsigned int.
unfoldable pub mx_max_sg_segment : ℕ → ℕ → ℕ
unfolding page_floor
mx_max_sg_segment seg_size map_max =
    let limit =
      page_floor (min (if nonzero map_max then min seg_size map_max else seg_size) 4294967295) in
    if limit == 0 then page_size else limit

-- `struct mx_sg_context` once it is mapped.
pub record SgContext : Type 0 where
  pub user_addr : ℕ
  pub total_size : ℕ
  pub sgt : List Scatter
  pub pages_nr : ℕ

-- What the kernel answers to mx_sg_context_create: whether the two allocations succeed, how many
-- pages pin_user_pages_fast() pins or its error, the result of building the table, and the entries
-- that dma_map_sg() makes.
pub record Kernel : Type 0 where
  pub context_given : Bool
  pub pages_given : Bool
  pub pin : ℕ → ℕ → Result ℕ
  pub table : ℕ → ℕ → ℕ → Option Errno
  pub dma_map : ℕ → ℕ → List Scatter

-- ((size_t)INT_MAX / sizeof(struct page *)) * PAGE_SIZE.
abbrev pub largest : ℕ
largest = int_max / 8 * page_size

unfoldable pub map_pages : Kernel → ℕ → ℕ → ℕ → Result SgContext
map_pages kernel user_addr total_size pages_nr = elim (kernel.dma_map user_addr total_size) [
  | [] ↦ err eio
  | (sg ∷ sgs) ↦ ok (record {
    user_addr = user_addr;
    total_size = total_size;
    sgt = sg ∷ sgs;
    pages_nr = pages_nr;
  })
]

-- MX_PAGES_INLINE_NR is 1: the table of a single page is built in place.
unfoldable pub table_pages : Kernel → ℕ → ℕ → ℕ → Result SgContext
unfolding map_pages
table_pages kernel user_addr total_size pages_nr =
    if leb pages_nr 1
    then map_pages kernel user_addr total_size pages_nr
    else elim (kernel.table pages_nr (user_addr % page_size) total_size) [
      | some e ↦ err e
      | none ↦ map_pages kernel user_addr total_size pages_nr
    ]

unfoldable pub pin_pages : Kernel → ℕ → ℕ → ℕ → Result SgContext
unfolding table_pages
pin_pages kernel user_addr total_size pages_nr = elim (kernel.pin user_addr pages_nr) [
  | err e ↦ err e
  | ok pinned ↦
      if pinned == pages_nr then table_pages kernel user_addr total_size pages_nr else err efault
]

unfoldable pub mx_sg_context_create : Kernel → ℕ → ℕ → Result SgContext
unfolding pin_pages
mx_sg_context_create kernel user_addr total_size =
    let offset = user_addr % page_size in
    let pages_nr = u64 (offset + total_size + page_size - 1) / page_size in
    if total_size == 0
    then err einval
    else if ltb (largest - offset) total_size
    then err einval
    else if kernel.context_given
    then (if leb pages_nr 1
        then pin_pages kernel user_addr total_size pages_nr
        else if kernel.pages_given
        then pin_pages kernel user_addr total_size pages_nr
        else err enomem)
    else err enomem

-- The module parameters parallel_split_ratio and parallel_count, both unsigned.
pub record Parallel : Type 0 where
  pub split_ratio : ℕ
  pub count : ℕ

-- parallel_count as the int that min_t() takes; a negative one is 0 here, since a result below 1 is
-- raised to 1.
unfoldable pub as_count : ℕ → ℕ
as_count n = if ltb int_max n then 0 else n

unfoldable pub ratio_count : Parallel → ℕ → ℕ → ℕ
ratio_count par dma_size size =
    let descs_per_split = max (u32 (dma_size / 8 * par.split_ratio) / 100) 1 in
    let total_descs = u64 (size + dma_size - 1) / dma_size in
    let raw_count = u64 (total_descs + descs_per_split - 1) / descs_per_split in
    max (min raw_count int_max) 1

unfoldable pub mx_parallel_count_for : Parallel → ℕ → ℕ → ℕ → ℕ
unfolding as_count ratio_count
mx_parallel_count_for par dma_size buf size =
    let first_page = buf / page_size in
    let last_page = u64 (buf + size + 2 ^ 64 - 1) / page_size in
    let nr_pages = min (u64 (last_page + 2 ^ 64 - first_page + 1)) int_max in
    if par.split_ratio == 0
    then max (min nr_pages (as_count par.count)) 1
    else max (min (min (ratio_count par dma_size size) nr_pages) (as_count par.count)) 1

-- The loop of alloc_mx_transfers, `n` being what is left of count and `r` the splits that take a
-- page more. `alloc i` is the id of the i-th transfer where alloc_mx_transfer() gives one.
unfoldable pub split_from :
    SgContext → (ℕ → Option ℕ) → ℕ → ℕ → ℕ → ℕ → ℕ → ℕ → ℕ → Option (List Xfer)
unfolding page_floor
split_from ctx alloc i q zero r cursor remaining device_addr = some []
split_from ctx alloc i q (suc n) r cursor remaining device_addr =
    let num = if ltb 0 r then q + 1 else q in
    let end_addr = page_floor (u64 (cursor + num * page_size)) in
    let size = min (u64 (end_addr + 2 ^ 64 - cursor)) remaining in
    let rest =
      split_from ctx alloc (i + 1) q n (r - 1) (u64 (cursor + size)) (remaining - size)
        (u64 (device_addr + size)) in
    elim (alloc i) [
      | none ↦ none
      | some id ↦ elim rest [
        | none ↦ none
        | some xfers ↦ some (
            record {
              id = id;
              device_addr = device_addr;
              slice = record {
                sgt = ctx.sgt;
                sg_byte_offset = u64 (cursor + 2 ^ 64 - ctx.user_addr);
                size = size;
              };
            }
            ∷ xfers)
      ]
    ]

unfoldable pub alloc_mx_transfers : Bool → (ℕ → Option ℕ) → SgContext → ℕ → ℕ → Option (List Xfer)
unfolding split_from
alloc_mx_transfers array_given alloc ctx device_addr_base count =
    if array_given
    then split_from ctx alloc 0 (ctx.pages_nr / count) count (ctx.pages_nr % count) ctx.user_addr
        ctx.total_size device_addr_base
    else none
