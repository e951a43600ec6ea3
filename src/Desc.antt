-- ===== src/Desc.antt =====
-- core_common.c: the lists of descriptors of a transfer, and the search for its place in a mapped
-- buffer.
pub mod Count
pub mod Locate
pub mod Prp
pub mod Command
mod Tests
use mxdriver.Common.{
  ℕ, zero, suc, ◌+◌, ◌-◌, Option, none, some, List, [], ◌∷◌, Result, ok, err, einval, u32, u64, ltb,
  if◌then◌else◌,
}

-- mx_get_list_count: each list but the last spends an entry on the address of the next one. Where
-- the fuel runs out the result is `none`. `count` is the 32 bits of the int list_cnt, which wraps.
unfoldable pub count_lists : ℕ → ℕ → ℕ → ℕ → Option ℕ
count_lists zero total per count = none
count_lists (suc fuel) total per count =
    let rest = count_lists fuel (total - (per - 1)) per (u32 (count + 1)) in
    if ltb per total then rest else some count

unfoldable pub mx_get_list_count : ℕ → ℕ → ℕ → Option ℕ
unfolding count_lists
mx_get_list_count fuel total_desc_cnt descs_per_list =
    count_lists fuel total_desc_cnt descs_per_list 1

-- An entry of a mapped `struct scatterlist`; a pointer to one is the list of it and those after it.
pub record Scatter : Type 0 where
  pub dma_address : ℕ
  pub dma_len : ℕ

-- The loop of mx_sg_locate, `acc` being the bytes before `sgs`.
unfoldable pub locate_from : ℕ → List Scatter → ℕ → Result (List Scatter × ℕ)
locate_from acc [] byte_offset = err einval
locate_from acc (sg ∷ sgs) byte_offset =
    let rest = locate_from (u64 (acc + sg.dma_len)) sgs byte_offset in
    if ltb byte_offset (u64 (acc + sg.dma_len)) then ok (sg ∷ sgs, byte_offset - acc) else rest

-- The entry that holds the byte, and the offset in it.
unfoldable pub mx_sg_locate : List Scatter → ℕ → Result (List Scatter × ℕ)
unfolding locate_from
mx_sg_locate sgs byte_offset = locate_from 0 sgs byte_offset
