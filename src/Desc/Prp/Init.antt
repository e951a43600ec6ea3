-- ===== src/Desc/Prp/Init.antt =====
-- mx_desc_list_init, given the count of mx_get_total_desc_count.
use mxdriver.Common.{
  ℕ, zero, suc, ◌+◌, ◌-◌, ◌*◌, ◌^◌, ◌≤◌, leb, int_max, ◌<◌, ◌≡◌, refl, ap, sym, subst, ◌∙◌, List,
  [], ◌∷◌, Result, ok, some, err, arith, ltb, inl, inr, Bool-cases, true, false, ◌==◌, Bool, u64,
}
use mxdriver.Desc.{Scatter, mx_sg_locate, locate_from}
use mxdriver.Desc.Count.{mx_get_list_count-least}
use mxdriver.Desc.Locate.{mapped, Located, mx_sg_locate-Located}
use mxdriver.Desc.Prp.{
  Cursor, Pages, Lists, Slice, emit, past_chunk, skip_first, start_cursor, fill_lists, alloc_pages,
  desc_list_alloc, mx_desc_list_init, mx_get_total_desc_count,
}
use mxdriver.Desc.Prp.Bytes.{AreMapped, slice_bytes, device_bytes}
use mxdriver.Desc.Prp.Walk.{Walks, last, further, Covers}
use mxdriver.Desc.Prp.Agree.{lead, begins, agree, first_cursor_lem}
use mxdriver.Desc.Prp.Fetch.{fetch, fills, Walks-positive}

located-AreMapped :
    (sgs : List Scatter) (acc byte_offset : ℕ) (found : List Scatter) (intra : ℕ)
    → AreMapped sgs
    → locate_from acc sgs byte_offset ≡ ok (found, intra)
    → AreMapped found
unfolding locate_from
located-AreMapped [] acc byte_offset found intra h e = absurd (cc e)
located-AreMapped (sg ∷ sgs) acc byte_offset found intra h e =
    elim (Bool-cases (ltb byte_offset (u64 (acc + sg.dma_len)))) [
      | inl t ↦ let z : sg ∷ sgs ≡ found = cc (rw t at e) in subst AreMapped z h
      | inr t ↦
          located-AreMapped sgs (u64 (acc + sg.dma_len)) byte_offset found intra h.2 (rw t at e)
    ]

alloc_lem : (bus : ℕ → ℕ) (n : ℕ) → alloc_pages (λ i. some (bus i)) n ≡ true
unfolding alloc_pages
alloc_lem bus zero = refl
alloc_lem bus (suc n) = rw (alloc_lem bus n) refl

-- A mapping and a slice of it, with the count of its descriptors.
pub record IsCounted (slice : Slice) (sg : Scatter) (sgs : List Scatter) (intra d n : ℕ)
    : Type 0 where
  pub chunked : 0 < d
  pub entries : AreMapped slice.sgt
  pub bounded : mapped slice.sgt < 2 ^ 64
  pub size_bounded : slice.size < 2 ^ 64
  pub found : mx_sg_locate slice.sgt slice.sg_byte_offset ≡ ok (sg ∷ sgs, intra)
  pub counted : mx_get_total_desc_count (sg ∷ sgs) intra slice.size d ≡ ok n

-- The walk of exactly `n` descriptors that the count foretells.
pub foretold :
    (slice : Slice) (sg : Scatter) (sgs : List Scatter) (intra d n : ℕ)
    → IsCounted slice sg sgs intra d n
    → (intra < sg.dma_len)
      × (sg.dma_address + sg.dma_len < 2 ^ 64)
      × Covers d n
          (begins sg sgs intra slice.size d)
          (lead sg intra d)
          (slice_bytes (sg ∷ sgs) intra slice.size)
unfolding mx_get_total_desc_count mx_sg_locate
foretold slice sg sgs intra d n i = elim (Bool-cases (slice.size == 0)) [
  | inl z ↦ absurd (cc (rw z at i.counted))
  | inr z ↦
      let m =
        located-AreMapped slice.sgt 0 slice.sg_byte_offset (sg ∷ sgs) intra i.entries i.found in
      let l : Located 0 slice.sgt slice.sg_byte_offset (ok (sg ∷ sgs, intra)) =
        subst (Located 0 slice.sgt slice.sg_byte_offset) i.found
          (mx_sg_locate-Located slice.sgt slice.sg_byte_offset i.bounded) in
      let k =
        agree sg sgs intra slice.size d 0 n i.chunked (ground arith) m l.0 (rw z at i.counted) in
      let e : k.more ≡ n = omega (arith, k.counted, k.few, i.size_bounded) in
      (
        l.0,
        m.1,
        subst
            (λ x.
              Covers d x (begins sg sgs intra slice.size d) (lead sg intra d)
                (slice_bytes (sg ∷ sgs) intra slice.size))
            e k.covers,
      )
]

-- A pool that gives a different list each time.
abbrev pub AreFresh : (ℕ → ℕ) → Type 0
AreFresh bus = (i j : ℕ) → bus i ≡ bus j → i ≡ j

fill_lem :
    (lists : Lists) (d n : ℕ) (c : Cursor) (mem filled : Pages)
    → emit lists d n 0 0 c mem ≡ ok filled
    → fill_lists lists d n (ok c) mem ≡ ok (lists.bus 0, filled)
unfolding fill_lists
fill_lem lists d n c mem filled e =
    ap {A = Result Pages} {B = Result (ℕ × Pages)}
      (λ r. elim r [ err x ↦ err x | ok mem' ↦ ok (lists.bus 0, mem') ]) e

start_lem :
    (sg : Scatter) (sgs : List Scatter) (intra size d : ℕ) (skip : Bool)
    → sg.dma_address + intra < 2 ^ 64
    → start_cursor (sg ∷ sgs, intra) size d skip ≡ skip_first (begins sg sgs intra size d) d skip
unfolding start_cursor
start_lem sg sgs intra size d skip b =
    ap {A = Result Cursor} (λ r. elim r [ err e ↦ err e | ok c ↦ skip_first c d skip ])
      (first_cursor_lem sg sgs intra size d b)

-- What mx_desc_list_init returns when its walk is one of `n` descriptors.
filled_init :
    (slice : Slice) (d per n : ℕ) (bus : ℕ → ℕ) (skip : Bool) (mem : Pages)
    (found : List Scatter × ℕ) (c : Cursor) (xs : List ℕ)
    → AreFresh bus
    → 1 < per
    → mx_sg_locate slice.sgt slice.sg_byte_offset ≡ ok found
    → start_cursor found slice.size d skip ≡ ok c
    → Walks d n c xs
    → n ≤ int_max * (per - 1) + 1
    → (filled : Pages) × (mx_desc_list_init true (λ i. some (bus i)) slice d per skip n mem
        ≡ ok (bus 0, filled))
      × (fetch filled per (bus 0) 0 n ≡ xs)
unfolding mx_desc_list_init desc_list_alloc
filled_init slice d per n bus skip mem found c xs u g e s w few =
    let (m, q, within, room, _) = mx_get_list_count-least (n + 1) n per g (omega arith) few in
    let lists : Lists = record { bus = bus; list_cnt = suc m; descs_per_list = per } in
    let f =
      fills lists d n 0 0 m c mem xs (λ i j a b h. u i j h) g (omega arith) (omega (arith, g))
        (omega (arith, room)) w in
    let fits : leb (suc m) int_max ≡ true = ground (arith, within) in
    let z : (n == 0) ≡ false = ground (arith, Walks-positive d n c xs w) in
    (
      f.filled,
      rw (mx_desc_list_init, e, z, q, fits, alloc_lem bus (suc m), s)
          (fill_lem lists d n c mem f.filled f.emitted),
      f.fetched,
    )

-- Where n is what mx_get_total_desc_count gives for a slice of a mapping whose entries are not
-- empty and end below 2^64, which is shorter than 2^64, the allocations succeed and give lists of
-- different addresses, a list has at least two entries, and the descriptors fit in INT_MAX lists,
-- mx_desc_list_init without skip_first_entry succeeds with n for desc_cnt, and the n descriptors that the device fetches
-- from the list it names move exactly the bytes of the slice.
pub init_whole :
    (slice : Slice) (sg : Scatter) (sgs : List Scatter) (intra d per n : ℕ) (bus : ℕ → ℕ)
    (mem : Pages)
    → IsCounted slice sg sgs intra d n
    → 1 < per
    → AreFresh bus
    → n ≤ int_max * (per - 1) + 1
    → (filled : Pages) × (mx_desc_list_init true (λ i. some (bus i)) slice d per false n mem
        ≡ ok (bus 0, filled))
      × (device_bytes d (fetch filled per (bus 0) 0 n) (lead sg intra d) slice.size
          ≡ slice_bytes (sg ∷ sgs) intra slice.size)
unfolding skip_first
init_whole slice sg sgs intra d per n bus mem i g u few =
    let (x, y, k) = foretold slice sg sgs intra d n i in
    let b : sg.dma_address + intra < 2 ^ 64 = omega (arith, x, y) in
    let s : start_cursor (sg ∷ sgs, intra) slice.size d false
        ≡ ok (begins sg sgs intra slice.size d) =
      start_lem sg sgs intra slice.size d false b in
    let (filled, r, f) =
      filled_init slice d per n bus false mem (sg ∷ sgs, intra) (begins sg sgs intra slice.size d)
        k.addresses u g i.found s k.walked few in
    (filled, r, ap (λ x. device_bytes d x (lead sg intra d) slice.size) f ∙ k.moved)

skip_first_lem : (c : Cursor) (d : ℕ) → c.len < c.remaining → skip_first c d true ≡ past_chunk c d
unfolding skip_first past_chunk
skip_first_lem c d l = ground (arith, l)

-- The first address of a walk, and the walk after it.
record Tail (d n : ℕ) (c : Cursor) (xs : List ℕ) : Type 0 where
  next : Cursor
  rest : List ℕ
  split : xs ≡ c.dma_addr ∷ rest
  skipped : skip_first c d true ≡ ok next
  walked : Walks d n next rest

tail : (d n : ℕ) (c : Cursor) (xs : List ℕ) → 0 < n → Walks d (suc n) c xs → Tail d n c xs
tail d _ c _ p (last _ q l) = absurd (omega arith)
tail d _ c _ p (further _ c' n rest l e w) = record {
  next = c';
  rest = rest;
  split = refl;
  skipped = skip_first_lem c d l ∙ e;
  walked = w;
}

-- Where n + 1 is what mx_get_total_desc_count gives for a slice of a mapping whose entries are
-- not empty and end below 2^64, which is shorter than 2^64, the allocations succeed and give
-- lists of different addresses, n is not 0, a list has at least two entries, and the n
-- descriptors fit in INT_MAX lists, mx_desc_list_init
-- with skip_first_entry succeeds with n for desc_cnt, and the start of the slice followed by the
-- n descriptors that the device fetches from the list it names moves exactly the bytes of the
-- slice.
pub init_rest :
    (slice : Slice) (sg : Scatter) (sgs : List Scatter) (intra d per n : ℕ) (bus : ℕ → ℕ)
    (mem : Pages)
    → IsCounted slice sg sgs intra d (suc n)
    → 0 < n
    → 1 < per
    → AreFresh bus
    → n ≤ int_max * (per - 1) + 1
    → (filled : Pages) × (mx_desc_list_init true (λ i. some (bus i)) slice d per true n mem
        ≡ ok (bus 0, filled))
      × (device_bytes d
            ((sg.dma_address + intra) ∷ fetch filled per (bus 0) 0 n)
            (lead sg intra d)
            slice.size
          ≡ slice_bytes (sg ∷ sgs) intra slice.size)
init_rest slice sg sgs intra d per n bus mem i p g u few =
    let (x, y, k) = foretold slice sg sgs intra d (suc n) i in
    let b : sg.dma_address + intra < 2 ^ 64 = omega (arith, x, y) in
    let t = tail d n (begins sg sgs intra slice.size d) k.addresses p k.walked in
    let s : start_cursor (sg ∷ sgs, intra) slice.size d true ≡ ok t.next =
      start_lem sg sgs intra slice.size d true b ∙ t.skipped in
    let (filled, r, f) =
      filled_init slice d per n bus true mem (sg ∷ sgs, intra) t.next t.rest u g i.found s t.walked
        few in
    (
      filled,
      r,
      ap (λ x. device_bytes d ((sg.dma_address + intra) ∷ x) (lead sg intra d) slice.size) f
          ∙ ap (λ x. device_bytes d x (lead sg intra d) slice.size) (sym t.split)
          ∙ k.moved,
    )
