-- ===== src/Desc/Tests.antt =====
-- The theorems on descriptor lists, at a mapping of two entries and at lists of four slots.
use mxdriver.Common.{
  int_max, ℕ, suc, ◌+◌, ◌*◌, ◌≤◌, ◌<◌, ◌≡◌, refl, List, [], ◌∷◌, some, ok, ◌⊎◌, arith,
}
use mxdriver.Desc.{Scatter, mx_get_list_count, mx_sg_locate}
use mxdriver.Desc.Count.{capacity, mx_get_list_count-least}
use mxdriver.Desc.Prp.{Slice, Pages, mx_get_total_desc_count}
use mxdriver.Desc.Prp.Bytes.{slice_bytes, device_bytes}
use mxdriver.Desc.Prp.Agree.{lead}
use mxdriver.Desc.Prp.Init.{IsCounted, AreFresh}
use mxdriver.Desc.Command.{
  Xfer, CommandV1, CommandV2, dma_size_v1, dma_size_v2, create_mx_command_sg_v1,
  create_mx_command_sg_v2,
}
use mxdriver.Desc.Command.Laws.{fresh_dma, bytes_v1, descs_v2, create_v1_bytes, create_v2_bytes}

mx_get_list_count-least_example :
    (n : ℕ) × (mx_get_list_count 11 10 4 ≡ some (suc n))
    × (suc n ≤ int_max)
    × (10 ≤ capacity 4 (suc n))
    × ((n ≡ 0) ⊎ (capacity 4 n < 10))
mx_get_list_count-least_example =
    mx_get_list_count-least 11 10 4 (omega arith) (omega arith) (omega arith)

ten_in_three : mx_get_list_count 11 10 4 ≡ some 3
unfolding mx_get_list_count
ten_in_three = refl

abbrev mapping : List Scatter
mapping =
    record { dma_address = 4096; dma_len = 4096 }
    ∷ record { dma_address = 16384; dma_len = 8192 }
    ∷ []

second_found :
    mx_sg_locate mapping 5000 ≡ ok (record { dma_address = 16384; dma_len = 8192 } ∷ [], 904)
unfolding mx_sg_locate
second_found = refl

-- 9000 bytes from byte 1000 of the mapping on, lists at 64 KiB and after, and empty memory.
abbrev slice : Slice
slice = record { sgt = mapping; sg_byte_offset = 1000; size = 9000 }

abbrev at : Scatter
at = record { dma_address = 4096; dma_len = 4096 }

abbrev others : List Scatter
others = record { dma_address = 16384; dma_len = 8192 } ∷ []

abbrev bus : ℕ → ℕ
bus i = 65536 + i * 4096

abbrev blank : Pages
blank p s = 0

bus-AreFresh : AreFresh bus
bus-AreFresh i j e = omega (arith, e)

slice_v1-IsCounted : IsCounted slice at others 1000 dma_size_v1 10
unfolding mx_sg_locate mx_get_total_desc_count
slice_v1-IsCounted = record {
  chunked = omega arith;
  entries = (omega arith, omega arith, (omega arith, omega arith, tt));
  bounded = omega arith;
  size_bounded = omega arith;
  found = refl;
  counted = refl;
}

slice_v2-IsCounted : IsCounted slice at others 1000 dma_size_v2 3
unfolding mx_sg_locate mx_get_total_desc_count
slice_v2-IsCounted = record {
  chunked = omega arith;
  entries = (omega arith, omega arith, (omega arith, omega arith, tt));
  bounded = omega arith;
  size_bounded = omega arith;
  found = refl;
  counted = refl;
}

abbrev xfer : Xfer
xfer = record { id = 7; device_addr = 1048576; slice = slice }

create_v1_bytes_example :
    (comm : CommandV1) × (filled : Pages) × (create_mx_command_sg_v1 (fresh_dma bus blank) xfer 2
      ≡ ok (comm, filled))
    × (bytes_v1 comm filled 10 (lead at 1000 dma_size_v1) ≡ slice_bytes (at ∷ others) 1000 9000)
create_v1_bytes_example =
    create_v1_bytes xfer 2 at others 1000 10 bus blank slice_v1-IsCounted (omega arith) bus-AreFresh
      (omega arith)

create_v2_bytes_example :
    (comm : CommandV2) × (filled : Pages) × (create_mx_command_sg_v2 (fresh_dma bus blank) xfer 2
      ≡ ok (comm, filled))
    × (device_bytes dma_size_v2 (descs_v2 comm filled 3) (lead at 1000 dma_size_v2) 9000
        ≡ slice_bytes (at ∷ others) 1000 9000)
create_v2_bytes_example =
    create_v2_bytes xfer 2 at others 1000 3 bus blank slice_v2-IsCounted
      (omega arith, (omega arith, tt)) bus-AreFresh (omega arith)
