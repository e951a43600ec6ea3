-- ===== src/Desc/Command.antt =====
-- core_v1.c and core_v2.c: the command that hands a slice of a mapping to the device, in the two
-- layouts of `struct mx_command`. A bit field keeps the low bits of what is stored in it.
pub mod Second
pub mod Laws
use mxdriver.Common.{
  ℕ, zero, suc, ◌+◌, ◌-◌, ◌/◌, ◌%◌, ◌^◌, Bool, true, false, Option, none, some, List, [], ◌∷◌,
  Result, ok, err, einval, u64, ltb, leb, ◌==◌, if◌then◌else◌,
}
use mxdriver.Desc.{Scatter, mx_sg_locate}
use mxdriver.Desc.Prp.{
  Slice, Pages, mx_prp_first_chunk_len, mx_get_total_desc_count, mx_desc_list_init,
}

-- What the command takes from its transfer.
pub record Xfer : Type 0 where
  pub id : ℕ
  pub device_addr : ℕ
  pub slice : Slice

-- The pool and the memory that the lists of a transfer come from.
pub record Dma : Type 0 where
  pub zeroed : Bool
  pub pool : ℕ → Option ℕ
  pub mem : Pages

pub data PageMode : Type 0 where
  single multi : PageMode

-- `struct mx_command` of core_v1.c. prp_entry1 and doorbell_value share the place of host_addr.
pub record CommandV1 : Type 0 where
  pub magic : ℕ
  pub opcode : ℕ
  pub control : ℕ
  pub page_mode : PageMode
  pub id : ℕ
  pub barrier_index : ℕ
  pub subopcode : ℕ
  pub size : ℕ
  pub device_addr : ℕ
  pub host_addr : ℕ

-- MAGIC_COMMAND, SINGLE_DMA_SIZE and NUM_OF_DESC_PER_LIST of core_v1.c.
abbrev pub magic_command : ℕ
magic_command = 0x1234

abbrev pub dma_size_v1 : ℕ
dma_size_v1 = 1024

abbrev pub descs_per_list_v1 : ℕ
descs_per_list_v1 = 128

unfoldable pub alloc_mx_command_v1 : Xfer → ℕ → CommandV1
alloc_mx_command_v1 xfer opcode = record {
  magic = magic_command;
  opcode = opcode % 2 ^ 4;
  control = 0;
  page_mode = single;
  id = xfer.id % 2 ^ 16;
  barrier_index = 0;
  subopcode = 0;
  size = xfer.slice.size;
  device_addr = xfer.device_addr;
  host_addr = 0;
}

-- Where the slice does not end in its first chunk.
unfoldable pub multi_command_v1 :
    Dma → Xfer → List Scatter → ℕ → CommandV1 → Result (CommandV1 × Pages)
multi_command_v1 dma xfer sgs intra_off comm =
    elim (mx_get_total_desc_count sgs intra_off xfer.slice.size dma_size_v1) [
      | err e ↦ err e
      | ok desc_cnt ↦
          elim (mx_desc_list_init dma.zeroed dma.pool xfer.slice dma_size_v1 descs_per_list_v1 false
            desc_cnt dma.mem) [
              | err e ↦ err e
              | ok (ba, mem) ↦ ok (record comm { page_mode = multi; host_addr = ba }, mem)
            ]
    ]

unfoldable pub locate_command_v1 :
    Dma → Xfer → CommandV1 → List Scatter × ℕ → Result (CommandV1 × Pages)
unfolding multi_command_v1
locate_command_v1 dma xfer comm ([], intra_off) = err einval
locate_command_v1 dma xfer comm (sg ∷ sgs, intra_off) =
    let host_addr = u64 (sg.dma_address + intra_off) in
    if leb xfer.slice.size (mx_prp_first_chunk_len sg intra_off dma_size_v1)
    then (if host_addr == 0
        then err einval
        else ok (record comm { page_mode = single; host_addr = host_addr }, dma.mem))
    else multi_command_v1 dma xfer (sg ∷ sgs) intra_off comm

unfoldable pub create_mx_command_sg_v1 : Dma → Xfer → ℕ → Result (CommandV1 × Pages)
unfolding alloc_mx_command_v1 locate_command_v1
create_mx_command_sg_v1 dma xfer opcode =
    elim (mx_sg_locate xfer.slice.sgt xfer.slice.sg_byte_offset) [
      | err e ↦ err e
      | ok found ↦ locate_command_v1 dma xfer (alloc_mx_command_v1 xfer opcode) found
    ]

-- `struct mx_command` of core_v2.c. host_addr and doorbell_value share the place of prp_entry1.
pub record CommandV2 : Type 0 where
  pub opcode : ℕ
  pub flags : ℕ
  pub command_id : ℕ
  pub prp_entry1 : ℕ
  pub prp_entry2 : ℕ
  pub device_addr : ℕ
  pub size : ℕ

-- SINGLE_DMA_SIZE of core_v2.c is PAGE_SIZE.
abbrev pub dma_size_v2 : ℕ
dma_size_v2 = 4096

abbrev pub descs_per_list_v2 : ℕ
descs_per_list_v2 = 512

unfoldable pub alloc_mx_command_v2 : Xfer → ℕ → CommandV2
alloc_mx_command_v2 xfer opcode = record {
  opcode = opcode % 2 ^ 8;
  flags = 0;
  command_id = xfer.id % 2 ^ 16;
  prp_entry1 = 0;
  prp_entry2 = 0;
  device_addr = xfer.device_addr;
  size = xfer.slice.size;
}

-- The place of the second of two descriptors.
unfoldable pub second_entry : CommandV2 → Scatter → List Scatter → ℕ → Result ℕ
second_entry comm sg sgs intra_off =
    let first_len = mx_prp_first_chunk_len sg intra_off dma_size_v2 in
    if ltb (intra_off + first_len) sg.dma_len
    then ok (u64 (comm.prp_entry1 + first_len))
    else elim sgs [ [] ↦ err einval | (next ∷ rest) ↦ ok next.dma_address ]

unfoldable pub with_second : CommandV2 → Pages → Result ℕ → Result (CommandV2 × Pages)
with_second comm mem (err e) = err e
with_second comm mem (ok entry) =
    if entry == 0 then err einval else ok (record comm { prp_entry2 = entry }, mem)

-- The second entry: none, the second descriptor, or the list of all but the first.
unfoldable pub counted_command_v2 :
    Dma → Xfer → Scatter → List Scatter → ℕ → CommandV2 → ℕ → Result (CommandV2 × Pages)
unfolding second_entry with_second
counted_command_v2 dma xfer sg sgs intra_off comm desc_cnt =
    if desc_cnt == 0
    then err einval
    else if desc_cnt == 1
    then ok (record comm { prp_entry2 = 0 }, dma.mem)
    else if desc_cnt == 2
    then with_second comm dma.mem (second_entry comm sg sgs intra_off)
    else elim (mx_desc_list_init dma.zeroed dma.pool xfer.slice dma_size_v2 descs_per_list_v2 true
        (desc_cnt - 1) dma.mem) [
          | err e ↦ err e
          | ok (ba, mem) ↦ ok (record comm { prp_entry2 = ba }, mem)
        ]

unfoldable pub locate_command_v2 :
    Dma → Xfer → CommandV2 → List Scatter × ℕ → Result (CommandV2 × Pages)
unfolding counted_command_v2
locate_command_v2 dma xfer comm ([], intra_off) = err einval
locate_command_v2 dma xfer comm (sg ∷ sgs, intra_off) =
    let entry = u64 (sg.dma_address + intra_off) in
    if entry == 0
    then err einval
    else elim (mx_get_total_desc_count (sg ∷ sgs) intra_off xfer.slice.size dma_size_v2) [
      | err e ↦ err e
      | ok desc_cnt ↦
          counted_command_v2 dma xfer sg sgs intra_off (record comm { prp_entry1 = entry }) desc_cnt
    ]

unfoldable pub create_mx_command_sg_v2 : Dma → Xfer → ℕ → Result (CommandV2 × Pages)
unfolding alloc_mx_command_v2 locate_command_v2
create_mx_command_sg_v2 dma xfer opcode =
    elim (mx_sg_locate xfer.slice.sgt xfer.slice.sg_byte_offset) [
      | err e ↦ err e
      | ok found ↦ locate_command_v2 dma xfer (alloc_mx_command_v2 xfer opcode) found
    ]
