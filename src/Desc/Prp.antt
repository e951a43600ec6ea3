-- ===== src/Desc/Prp.antt =====
-- core_common.c: the descriptors of a slice of a mapping. mx_get_total_desc_count counts them, and
-- mx_desc_list_init writes their addresses into chained lists. A test `a & (dma_size - 1)` is
-- `a % dma_size`, since dma_size is a power of two.
pub mod Bytes
pub mod Walk
pub mod Entry
pub mod Agree
pub mod Fetch
pub mod Init
use mxdriver.Common.{
  ℕ, zero, suc, ◌+◌, ◌-◌, ◌/◌, ◌%◌, min, Bool, true, false, not, ◌&&◌, Option, none, some, List, [],
  ◌∷◌, Result, ok, err, einval, enomem, int_max, u64, ltb, leb, ◌==◌, nonzero, if◌then◌else◌,
}
use mxdriver.Desc.{Scatter, mx_sg_locate, mx_get_list_count}

unfoldable pub prp_chunk_len_at : ℕ → ℕ → ℕ
prp_chunk_len_at dma_addr dma_size =
    let rem = dma_addr % dma_size in if nonzero rem then dma_size - rem else dma_size

unfoldable pub mx_prp_first_chunk_len : Scatter → ℕ → ℕ → ℕ
unfolding prp_chunk_len_at
mx_prp_first_chunk_len sg intra_off dma_size =
    min (prp_chunk_len_at (u64 (sg.dma_address + intra_off)) dma_size) (sg.dma_len - intra_off)

-- What one entry adds to the count; DIV_ROUND_UP(n, d) is (n + d - 1) / d.
unfoldable pub entry_descs : Scatter → ℕ → ℕ → ℕ → ℕ
unfolding mx_prp_first_chunk_len
entry_descs sg intra_off consumed dma_size =
    let first_len = min (mx_prp_first_chunk_len sg intra_off dma_size) consumed in
    1 + (if ltb first_len consumed then (consumed - first_len + dma_size - 1) / dma_size else 0)

-- The start of the entry that the walk goes on to; at the end of the mapping bytes remain.
unfoldable pub starts_aligned : List Scatter → ℕ → Bool
starts_aligned [] dma_size = false
starts_aligned (sg ∷ sgs) dma_size = not (nonzero (sg.dma_address % dma_size))

-- The loop of mx_get_total_desc_count; `remaining` is not 0.
unfoldable pub count_from : List Scatter → ℕ → ℕ → ℕ → ℕ → Result ℕ
unfolding entry_descs starts_aligned
count_from [] intra_off remaining dma_size total = err einval
count_from (sg ∷ sgs) intra_off remaining dma_size total =
    let consumed = min (sg.dma_len - intra_off) remaining in
    let total' = u64 (total + entry_descs sg intra_off consumed dma_size) in
    let rest = count_from sgs 0 (remaining - consumed) dma_size total' in
    if remaining - consumed == 0
    then ok total'
    else if nonzero (u64 (sg.dma_address + intra_off + consumed) % dma_size)
    then err einval
    else if not (starts_aligned sgs dma_size)
    then err einval
    else rest

unfoldable pub mx_get_total_desc_count : List Scatter → ℕ → ℕ → ℕ → Result ℕ
unfolding count_from
mx_get_total_desc_count sgs intra_off byte_size dma_size =
    if byte_size == 0 then err einval else count_from sgs intra_off byte_size dma_size 0

-- Where the walk stands: the address of the next descriptor, the bytes left of its entry and of the
-- slice, the length of its chunk, and the entries that follow.
pub record Cursor : Type 0 where
  pub dma_addr : ℕ
  pub entry_avail : ℕ
  pub remaining : ℕ
  pub len : ℕ
  pub following : List Scatter

unfoldable pub min3 : ℕ → ℕ → ℕ → ℕ
min3 a b c = min (min a b) c

-- Past a chunk: on in the entry or to the next one, which must be there and start on a boundary.
unfoldable pub aligned_cursor : ℕ → ℕ → ℕ → List Scatter → ℕ → Result Cursor
unfolding min3
aligned_cursor dma_addr entry_avail remaining sgs dma_size =
    if nonzero (dma_addr % dma_size)
    then err einval
    else ok (record {
      dma_addr = dma_addr;
      entry_avail = entry_avail;
      remaining = remaining;
      len = min3 dma_size entry_avail remaining;
      following = sgs;
    })

unfoldable pub next_entry : ℕ → ℕ → List Scatter → ℕ → Result Cursor
unfolding aligned_cursor
next_entry dma_addr remaining [] dma_size = err einval
next_entry dma_addr remaining (sg ∷ sgs) dma_size =
    aligned_cursor sg.dma_address sg.dma_len remaining sgs dma_size

unfoldable pub past_chunk : Cursor → ℕ → Result Cursor
unfolding aligned_cursor next_entry
past_chunk c dma_size =
    let dma_addr = u64 (c.dma_addr + c.len) in
    if c.entry_avail - c.len == 0
    then next_entry dma_addr (c.remaining - c.len) c.following dma_size
    else aligned_cursor dma_addr (c.entry_avail - c.len) (c.remaining - c.len) c.following dma_size

-- The memory of the lists, by the bus address of a list and the number of a slot in it.
abbrev pub Pages : Type 0
Pages = ℕ → ℕ → ℕ

abbrev pub write : Pages → ℕ → ℕ → ℕ → Pages
write mem page slot value p s = if p == page && (s == slot) then value else mem p s

-- `bus` are the bus addresses of the lists, desc_list_ba; a pointer desc_list_va[i] is the list
-- that the device sees at bus i.
pub record Lists : Type 0 where
  pub bus : ℕ → ℕ
  pub list_cnt : ℕ
  pub descs_per_list : ℕ

-- The link to the next list, where only one slot of this one is left and more than one descriptor.
unfoldable pub link : Lists → ℕ → ℕ → ℕ → Pages → Result (ℕ × ℕ × Pages)
link lists total_desc_cnt list_idx desc_idx mem =
    if (desc_idx == lists.descs_per_list - 1) && ltb 1 total_desc_cnt
    then (if leb lists.list_cnt (list_idx + 1)
        then err einval
        else ok
            (list_idx + 1, 0, write mem (lists.bus list_idx) desc_idx (lists.bus (list_idx + 1))))
    else ok (list_idx, desc_idx, mem)

-- The loop of mx_desc_list_init, by recursion on total_desc_cnt, which each round decrements.
unfoldable pub emit : Lists → ℕ → ℕ → ℕ → ℕ → Cursor → Pages → Result Pages
unfolding link past_chunk
emit lists dma_size zero list_idx desc_idx c mem = if c.remaining == 0 then ok mem else err einval
emit lists dma_size (suc n) list_idx desc_idx c mem =
    if c.remaining == 0 then ok mem else elim (link lists (suc n) list_idx desc_idx mem) [
      | err e ↦ err e
      | ok (l, i, linked) ↦
          if leb lists.descs_per_list i
          then err einval
          else let written = write linked (lists.bus l) i c.dma_addr in
            if c.remaining - c.len == 0 then ok written else elim (past_chunk c dma_size) [
              | err e ↦ err e
              | ok c' ↦ emit lists dma_size n l (i + 1) c' written
            ]
    ]

-- desc_list_alloc. `pool i` is what dma_pool_alloc() gives for the list i, `zeroed` whether the two
-- arrays could be allocated. kcalloc() cannot allocate the negative number of entries that `list_cnt`,
-- the 32 bits of an int, is beyond INT_MAX.
unfoldable pub alloc_pages : (ℕ → Option ℕ) → ℕ → Bool
alloc_pages pool zero = true
alloc_pages pool (suc n) = alloc_pages pool n && (elim (pool n) [ none ↦ false | some _ ↦ true ])

abbrev pub bus_of : (ℕ → Option ℕ) → ℕ → ℕ
bus_of pool i = elim (pool i) [ none ↦ 0 | some page ↦ page ]

unfoldable pub desc_list_alloc : Bool → (ℕ → Option ℕ) → ℕ → Result (ℕ → ℕ)
unfolding alloc_pages
desc_list_alloc zeroed pool list_cnt =
    if leb list_cnt int_max && zeroed && alloc_pages pool list_cnt
    then ok (bus_of pool)
    else err enomem

-- The first chunk of the slice, at the entry that mx_sg_locate has found.
unfoldable pub first_cursor : List Scatter → ℕ → ℕ → ℕ → Result Cursor
unfolding mx_prp_first_chunk_len min3
first_cursor [] intra_off remaining dma_size = err einval
first_cursor (sg ∷ sgs) intra_off remaining dma_size = ok (record {
  dma_addr = u64 (sg.dma_address + intra_off);
  entry_avail = sg.dma_len - intra_off;
  remaining = remaining;
  len = min3 (mx_prp_first_chunk_len sg intra_off dma_size) (sg.dma_len - intra_off) remaining;
  following = sgs;
})

-- With `skip_first_entry` the first chunk goes into the command, and the walk starts behind it.
unfoldable pub skip_first : Cursor → ℕ → Bool → Result Cursor
unfolding past_chunk aligned_cursor
skip_first c dma_size false = ok c
skip_first c dma_size true =
    if (c.entry_avail - c.len == 0) && ltb 0 (c.remaining - c.len)
    then past_chunk c dma_size
    else aligned_cursor (u64 (c.dma_addr + c.len)) (c.entry_avail - c.len) (c.remaining - c.len)
        c.following dma_size

-- The slice of a transfer: where it starts in the mapping, and its size.
pub record Slice : Type 0 where
  pub sgt : List Scatter
  pub sg_byte_offset : ℕ
  pub size : ℕ

-- From the entry found to the lists that are filled in: the bus address of the first one, and the
-- memory.
unfoldable pub fill_lists : Lists → ℕ → ℕ → Result Cursor → Pages → Result (ℕ × Pages)
unfolding emit
fill_lists lists dma_size desc_cnt (err e) mem = err e
fill_lists lists dma_size desc_cnt (ok c) mem = elim (emit lists dma_size desc_cnt 0 0 c mem) [
  | err e ↦ err e
  | ok mem' ↦ ok (lists.bus 0, mem')
]

-- The cursor of the first descriptor that goes into a list.
unfoldable pub start_cursor : List Scatter × ℕ → ℕ → ℕ → Bool → Result Cursor
unfolding first_cursor skip_first
start_cursor (sgs, intra_off) size dma_size skip = elim (first_cursor sgs intra_off size dma_size) [
  | err e ↦ err e
  | ok c ↦ skip_first c dma_size skip
]

unfoldable pub mx_desc_list_init :
    Bool → (ℕ → Option ℕ) → Slice → ℕ → ℕ → Bool → ℕ → Pages → Result (ℕ × Pages)
unfolding desc_list_alloc start_cursor fill_lists
mx_desc_list_init zeroed pool slice dma_size descs_per_list skip desc_cnt mem =
    elim (mx_sg_locate slice.sgt slice.sg_byte_offset) [
      | err e ↦ err e
      | ok found ↦
          if desc_cnt == 0
          then err einval
          else elim (mx_get_list_count (desc_cnt + 1) desc_cnt descs_per_list) [
            | none ↦ err einval
            | some list_cnt ↦ elim (desc_list_alloc zeroed pool list_cnt) [
              | err e ↦ err e
              | ok bus ↦
                  fill_lists
                    (record { bus = bus; list_cnt = list_cnt; descs_per_list = descs_per_list })
                    dma_size desc_cnt (start_cursor found slice.size dma_size skip) mem
            ]
          ]
    ]
