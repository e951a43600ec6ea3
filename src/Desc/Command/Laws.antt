-- ===== src/Desc/Command/Laws.antt =====
-- The commands of both versions against the bytes of their slice.
use mxdriver.Common.{
  ℕ, zero, suc, ◌+◌, ◌-◌, ◌*◌, int_max, ◌≤◌, ◌<◌, ◌≡◌, refl, ap, sym, ◌∙◌, min, List, [], ◌∷◌, ok,
  some, arith, leb, inl, inr, Bool-cases, true, false, ◌==◌, u64,
}
use mathlib.Core.List.{append-nil}
use mxdriver.Desc.{Scatter}
use mxdriver.Desc.Prp.{Pages, mx_prp_first_chunk_len, mx_get_total_desc_count, mx_desc_list_init}
use mxdriver.Desc.Prp.Bytes.{span, slice_bytes, device_bytes}
use mxdriver.Desc.Prp.Agree.{lead, begins, slice_none}
use mxdriver.Desc.Prp.Fetch.{fetch, Walks-positive}
use mxdriver.Desc.Prp.Init.{IsCounted, AreFresh, init_whole, init_rest, foretold}
use mxdriver.Desc.Command.{
  Xfer, Dma, CommandV1, CommandV2, single, multi, dma_size_v1, descs_per_list_v1, dma_size_v2,
  descs_per_list_v2, alloc_mx_command_v1, multi_command_v1, locate_command_v1,
  create_mx_command_sg_v1, alloc_mx_command_v2, with_second, counted_command_v2, locate_command_v2,
  create_mx_command_sg_v2,
}
use mxdriver.Desc.Command.Second.{
  AreNonzero, one_address, two_addresses, second_lem, after_positive, entry_after,
}

-- The bytes that a device of version 1 moves for a command of `n` descriptors, the first of them
-- `len` bytes before a chunk boundary.
abbrev pub bytes_v1 : CommandV1 → Pages → ℕ → ℕ → List ℕ
bytes_v1 comm mem n len = elim comm.page_mode [
  | single ↦ span comm.host_addr comm.size
  | multi ↦ device_bytes dma_size_v1 (fetch mem descs_per_list_v1 comm.host_addr 0 n) len comm.size
]

-- A pool that never runs out and gives a different list each time.
abbrev pub fresh_dma : (ℕ → ℕ) → Pages → Dma
fresh_dma bus mem = record { zeroed = true; pool = λ i. some (bus i); mem = mem }

slice_within :
    (sg : Scatter) (sgs : List Scatter) (intra size : ℕ)
    → size ≤ sg.dma_len - intra
    → slice_bytes (sg ∷ sgs) intra size ≡ span (sg.dma_address + intra) size
slice_within sg sgs intra size l =
    let m : min (sg.dma_len - intra) size ≡ size = omega (arith, l) in
    let z : size - size ≡ 0 = omega arith in
    rw (m, z, slice_none sgs 0) (append-nil (span (sg.dma_address + intra) size))

first_chunk-le :
    (sg : Scatter) (intra d : ℕ) → mx_prp_first_chunk_len sg intra d ≤ sg.dma_len - intra
unfolding mx_prp_first_chunk_len
first_chunk-le sg intra d = omega arith

multi_lem :
    (dma : Dma) (xfer : Xfer) (sgs : List Scatter) (intra : ℕ) (comm : CommandV1) (n ba : ℕ)
    (mem : Pages)
    → mx_get_total_desc_count sgs intra xfer.slice.size dma_size_v1 ≡ ok n
    → mx_desc_list_init dma.zeroed dma.pool xfer.slice dma_size_v1 descs_per_list_v1 false n dma.mem
      ≡ ok (ba, mem)
    → multi_command_v1 dma xfer sgs intra comm
      ≡ ok (record comm { page_mode = multi; host_addr = ba }, mem)
unfolding multi_command_v1
multi_lem dma xfer sgs intra comm n ba mem e f = rw (multi_command_v1, e, f) refl

-- Where n is what mx_get_total_desc_count gives for a slice of a mapping whose entries are not
-- empty and end below 2^64, which is shorter than 2^64, the allocations succeed and give lists of
-- different addresses, the entry where the slice starts is not at address 0, and n descriptors
-- fit in INT_MAX lists, create_mx_command_sg of version 1 gives a command for which the device
-- moves exactly the bytes of the slice, in order: from host_addr on in single mode, and in multi
-- mode those of the n descriptors that it fetches along the links of the lists, the first up to a
-- chunk boundary and each later one a whole chunk.
pub create_v1_bytes :
    (xfer : Xfer) (opcode : ℕ) (sg : Scatter) (sgs : List Scatter) (intra n : ℕ) (bus : ℕ → ℕ)
    (mem : Pages)
    → IsCounted xfer.slice sg sgs intra dma_size_v1 n
    → 0 < sg.dma_address
    → AreFresh bus
    → n ≤ int_max * 127 + 1
    → (comm : CommandV1) × (filled : Pages) × (create_mx_command_sg_v1
          (fresh_dma bus mem)
          xfer
          opcode
        ≡ ok (comm, filled))
      × (bytes_v1 comm filled n (lead sg intra dma_size_v1)
          ≡ slice_bytes (sg ∷ sgs) intra xfer.slice.size)
unfolding create_mx_command_sg_v1 locate_command_v1 alloc_mx_command_v1
create_v1_bytes xfer opcode sg sgs intra n bus mem i p u few =
    elim (Bool-cases (leb xfer.slice.size (mx_prp_first_chunk_len sg intra dma_size_v1))) [
      | inl t ↦
          let (x, y, _) = foretold xfer.slice sg sgs intra dma_size_v1 n i in
          let w : u64 (sg.dma_address + intra) ≡ sg.dma_address + intra = omega (arith, x, y) in
          let z : (sg.dma_address + intra == 0) ≡ false = ground (arith, p) in
          let l : xfer.slice.size ≤ sg.dma_len - intra =
            ground (arith, first_chunk-le sg intra dma_size_v1) in
          (
            record (alloc_mx_command_v1 xfer opcode) {
              page_mode = single;
              host_addr = sg.dma_address + intra;
            },
            mem,
            rw (i.found, create_mx_command_sg_v1, t, w, z) refl,
            sym (slice_within sg sgs intra xfer.slice.size l),
          )
      | inr t ↦
          let (filled, r, f) =
            init_whole xfer.slice sg sgs intra dma_size_v1 descs_per_list_v1 n bus mem i
              (omega arith) u few in
          (
            record (alloc_mx_command_v1 xfer opcode) { page_mode = multi; host_addr = bus 0 },
            filled,
            rw (i.found, create_mx_command_sg_v1, t)
                (multi_lem (fresh_dma bus mem) xfer (sg ∷ sgs) intra
                  (alloc_mx_command_v1 xfer opcode) n (bus 0) filled i.counted r),
            f,
          )
    ]

-- The descriptors that a device of version 2 takes for a command of `n` of them: the first entry of
-- the command, and either its second one or the list that this points to.
abbrev pub descs_v2 : CommandV2 → Pages → ℕ → List ℕ
descs_v2 comm mem zero = []
descs_v2 comm mem (suc zero) = comm.prp_entry1 ∷ []
descs_v2 comm mem (suc (suc zero)) = comm.prp_entry1 ∷ comm.prp_entry2 ∷ []
descs_v2 comm mem (suc (suc (suc n))) =
    comm.prp_entry1 ∷ fetch mem descs_per_list_v2 comm.prp_entry2 0 (suc (suc n))

rest_lem :
    (dma : Dma) (xfer : Xfer) (sg : Scatter) (sgs : List Scatter) (intra : ℕ) (comm : CommandV2)
    (n ba : ℕ) (mem : Pages)
    → 1 < n
    → mx_desc_list_init dma.zeroed dma.pool xfer.slice dma_size_v2 descs_per_list_v2 true n dma.mem
      ≡ ok (ba, mem)
    → counted_command_v2 dma xfer sg sgs intra comm (suc n)
      ≡ ok (record comm { prp_entry2 = ba }, mem)
unfolding counted_command_v2
rest_lem dma xfer sg sgs intra comm n ba mem l e =
    let a : (suc n == 0) ≡ false = ground arith in
    let b : (suc n == 1) ≡ false = ground (arith, l) in
    let c : (suc n == 2) ≡ false = ground (arith, l) in
    let d : suc n - 1 ≡ n = omega arith in rw (counted_command_v2, a, b, c, d, e) refl

-- The command once its descriptors are counted.
counted_bytes :
    (xfer : Xfer) (sg : Scatter) (sgs : List Scatter) (intra n : ℕ) (bus : ℕ → ℕ) (mem : Pages)
    (comm : CommandV2)
    → IsCounted xfer.slice sg sgs intra dma_size_v2 n
    → AreNonzero (sg ∷ sgs)
    → AreFresh bus
    → n ≤ int_max * 511 + 2
    → comm.prp_entry1 ≡ sg.dma_address + intra
    → (comm' : CommandV2) × (filled : Pages) × (counted_command_v2
          (fresh_dma bus mem)
          xfer
          sg
          sgs
          intra
          comm
          n
        ≡ ok (comm', filled))
      × (device_bytes dma_size_v2
            (descs_v2 comm' filled n)
            (lead sg intra dma_size_v2)
            xfer.slice.size
          ≡ slice_bytes (sg ∷ sgs) intra xfer.slice.size)
unfolding counted_command_v2 with_second
counted_bytes xfer sg sgs intra zero bus mem comm i z u few e =
    let (x, y, k) = foretold xfer.slice sg sgs intra dma_size_v2 0 i in
    absurd (
      omega (
        arith,
        Walks-positive dma_size_v2 0 (begins sg sgs intra xfer.slice.size dma_size_v2) k.addresses
            k.walked,
      ))
counted_bytes xfer sg sgs intra (suc zero) bus mem comm i z u few e =
    let (x, y, k) = foretold xfer.slice sg sgs intra dma_size_v2 1 i in
    let s =
      one_address dma_size_v2 (begins sg sgs intra xfer.slice.size dma_size_v2) k.addresses
        k.walked in
    (
      record comm { prp_entry2 = 0 },
      mem,
      refl,
      ap (λ a. device_bytes dma_size_v2 (a ∷ []) (lead sg intra dma_size_v2) xfer.slice.size) e
          ∙ ap (λ as'. device_bytes dma_size_v2 as' (lead sg intra dma_size_v2) xfer.slice.size)
              (sym s)
          ∙ k.moved,
    )
counted_bytes xfer sg sgs intra (suc (suc zero)) bus mem comm i z u few e =
    let (x, y, k) = foretold xfer.slice sg sgs intra dma_size_v2 2 i in
    let w =
      two_addresses dma_size_v2 (begins sg sgs intra xfer.slice.size dma_size_v2) k.addresses
        k.walked in
    let q = second_lem xfer.slice sg sgs intra comm k.addresses x e w (omega (arith, x, y)) in
    let h : 0 < w.next.dma_addr =
      after_positive comm.prp_entry1 (sg.dma_len - intra) _ w.next.dma_addr sgs
        (omega (arith, e, z.0)) (omega (arith, e, x, y)) z.1
        (sym (entry_after comm sg sgs intra x) ∙ q) in
    let t : (w.next.dma_addr == 0) ≡ false = ground (arith, h) in
    (
      record comm { prp_entry2 = w.next.dma_addr },
      mem,
      rw (q, t) refl,
      ap
            (λ a.
              device_bytes dma_size_v2 (a ∷ w.next.dma_addr ∷ []) (lead sg intra dma_size_v2)
                xfer.slice.size)
            e
          ∙ ap (λ as'. device_bytes dma_size_v2 as' (lead sg intra dma_size_v2) xfer.slice.size)
              (sym w.split)
          ∙ k.moved,
    )
counted_bytes xfer sg sgs intra (suc (suc (suc n))) bus mem comm i z u few e =
    let (filled, r, f) =
      init_rest xfer.slice sg sgs intra dma_size_v2 descs_per_list_v2 (suc (suc n)) bus mem i
        (omega arith) (omega arith) u (omega (arith, few)) in
    (
      record comm { prp_entry2 = bus 0 },
      filled,
      rest_lem (fresh_dma bus mem) xfer sg sgs intra comm (suc (suc n)) (bus 0) filled (omega arith)
          r,
      ap
            (λ a.
              device_bytes dma_size_v2 (a ∷ fetch filled descs_per_list_v2 (bus 0) 0 (suc (suc n)))
                (lead sg intra dma_size_v2) xfer.slice.size)
            e
          ∙ f,
    )

-- Where n is what mx_get_total_desc_count gives for a slice of a mapping whose entries are not
-- empty and end below 2^64, which is shorter than 2^64, the allocations succeed and give lists of
-- different addresses, no entry from where the slice starts on is at address 0, and n - 1
-- descriptors fit in INT_MAX lists, create_mx_command_sg of version 2 gives a command for which
-- the device moves exactly the bytes of the slice, in order: its n descriptors are prp_entry1,
-- then prp_entry2 for two of them, or for more those that it fetches from prp_entry2 along the
-- links of the lists.
pub create_v2_bytes :
    (xfer : Xfer) (opcode : ℕ) (sg : Scatter) (sgs : List Scatter) (intra n : ℕ) (bus : ℕ → ℕ)
    (mem : Pages)
    → IsCounted xfer.slice sg sgs intra dma_size_v2 n
    → AreNonzero (sg ∷ sgs)
    → AreFresh bus
    → n ≤ int_max * 511 + 2
    → (comm : CommandV2) × (filled : Pages) × (create_mx_command_sg_v2
          (fresh_dma bus mem)
          xfer
          opcode
        ≡ ok (comm, filled))
      × (device_bytes dma_size_v2
            (descs_v2 comm filled n)
            (lead sg intra dma_size_v2)
            xfer.slice.size
          ≡ slice_bytes (sg ∷ sgs) intra xfer.slice.size)
unfolding create_mx_command_sg_v2 locate_command_v2 alloc_mx_command_v2
create_v2_bytes xfer opcode sg sgs intra n bus mem i z u few =
    let (x, y, k) = foretold xfer.slice sg sgs intra dma_size_v2 n i in
    let b : u64 (sg.dma_address + intra) ≡ sg.dma_address + intra = omega (arith, x, y) in
    let t : (u64 (sg.dma_address + intra) == 0) ≡ false = rw b (ground (arith, z.0)) in
    let base = record (alloc_mx_command_v2 xfer opcode) {
      prp_entry1 = u64 (sg.dma_address + intra);
    } in
    let (comm, filled, r, f) = counted_bytes xfer sg sgs intra n bus mem base i z u few b in
    (comm, filled, rw (create_mx_command_sg_v2, i.found, t, i.counted) r, f)
