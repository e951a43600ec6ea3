-- ===== src/Transfer/Pages.antt =====
-- The bounds on the size and the pages of a mapping, and on the number of its splits.
use mxdriver.Common.{
  ℕ, ◌+◌, ◌-◌, ◌*◌, ◌/◌, ◌%◌, ◌^◌, ◌≤◌, ◌<◌, ◌≡◌, ◌≢◌, ◌⊎◌, inl, inr, refl, max, ok, Result-cases,
  Option-cases, Bool-cases, subst, arith, u64, ltb, leb, ◌==◌, List, [], ◌∷◌,
}
use mxdriver.Desc.{Scatter}
use mxdriver.Transfer.{
  page_size, page_floor, mx_max_sg_segment, SgContext, Kernel, largest, map_pages, table_pages,
  pin_pages, mx_sg_context_create, Parallel, as_count, mx_parallel_count_for,
}

-- The limit of a mapping on the length of an entry, where there is one.
abbrev pub IsWithin : ℕ → ℕ → Type 0
IsWithin limit n = (n ≤ limit) ⊎ (limit < page_size)

-- mx_max_sg_segment gives a positive multiple of PAGE_SIZE that an unsigned int holds, and it is
-- at most each of the limits of the DMA layer that is at least PAGE_SIZE, a mapping limit of 0
-- being none.
pub mx_max_sg_segment-IsWithin :
    (seg_size map_max : ℕ)
    → (mx_max_sg_segment seg_size map_max % page_size ≡ 0)
      × (0 < mx_max_sg_segment seg_size map_max)
      × (mx_max_sg_segment seg_size map_max ≤ 4294967295)
      × IsWithin seg_size (mx_max_sg_segment seg_size map_max)
      × ((map_max ≡ 0) ⊎ IsWithin map_max (mx_max_sg_segment seg_size map_max))
unfolding mx_max_sg_segment page_floor
mx_max_sg_segment-IsWithin seg_size map_max =
    (ground arith, ground arith, ground arith, ground arith, ground arith)

-- A mapped context: its pages are those that the buffer touches.
pub record IsMapped (ctx : SgContext) (user_addr total_size : ℕ) : Type 0 where
  pub at : ctx.user_addr ≡ user_addr
  pub sized : ctx.total_size ≡ total_size
  pub positive : 0 < total_size
  pub below : total_size ≤ largest - user_addr % page_size
  pub covered : user_addr % page_size + total_size ≤ ctx.pages_nr * page_size
  pub tight : ctx.pages_nr * page_size < user_addr % page_size + total_size + page_size
  pub entries : ctx.sgt ≢ []

record Touched (user_addr total_size pages_nr : ℕ) : Type 0 where
  positive : 0 < total_size
  below : total_size ≤ largest - user_addr % page_size
  covered : user_addr % page_size + total_size ≤ pages_nr * page_size
  tight : pages_nr * page_size < user_addr % page_size + total_size + page_size

List-cases : (xs : List Scatter) → (xs ≡ []) ⊎ ((x : Scatter) × (r : List Scatter) × (xs ≡ x ∷ r))
List-cases [] = inl refl
List-cases (x ∷ r) = inr (x, r, refl)

map_pages-IsMapped :
    (kernel : Kernel) (a t n : ℕ) (ctx : SgContext)
    → Touched a t n
    → map_pages kernel a t n ≡ ok ctx
    → IsMapped ctx a t
unfolding map_pages
map_pages-IsMapped kernel a t n ctx h e = elim (List-cases (kernel.dma_map a t)) [
  | inl q ↦ absurd (cc (rw (q, map_pages) at e))
  | inr (sg, sgs, q) ↦
      let z : record { user_addr = a; total_size = t; sgt = sg ∷ sgs; pages_nr = n } ≡ ctx =
        cc (rw (q, map_pages) at e) in
      subst (λ c. IsMapped c a t) z
        (record {
          at = refl;
          sized = refl;
          positive = h.positive;
          below = h.below;
          covered = h.covered;
          tight = h.tight;
          entries = λ f. absurd (cc f);
        })
]

table_pages-IsMapped :
    (kernel : Kernel) (a t n : ℕ) (ctx : SgContext)
    → Touched a t n
    → table_pages kernel a t n ≡ ok ctx
    → IsMapped ctx a t
unfolding table_pages
table_pages-IsMapped kernel a t n ctx h e = elim (Bool-cases (leb n 1)) [
  | inl q ↦ map_pages-IsMapped kernel a t n ctx h (rw q at e)
  | inr q ↦ elim (Option-cases (kernel.table n (a % page_size) t)) [
    | inl r ↦ map_pages-IsMapped kernel a t n ctx h (rw (q, r) at e)
    | inr (x, r) ↦ absurd (cc (rw (q, r) at e))
  ]
]

pin_pages-IsMapped :
    (kernel : Kernel) (a t n : ℕ) (ctx : SgContext)
    → Touched a t n
    → pin_pages kernel a t n ≡ ok ctx
    → IsMapped ctx a t
unfolding pin_pages
pin_pages-IsMapped kernel a t n ctx h e = elim (Result-cases (kernel.pin a n)) [
  | inl (x, r) ↦ absurd (cc (rw (r, pin_pages) at e))
  | inr (m, r) ↦ elim (Bool-cases (m == n)) [
    | inl q ↦ table_pages-IsMapped kernel a t n ctx h (rw (r, pin_pages, q) at e)
    | inr q ↦ absurd (cc (rw (r, pin_pages, q) at e))
  ]
]

-- Where mx_sg_context_create succeeds, the context has the address and the size asked for, the
-- size is positive and at most the documented limit less the offset in the page, the pages are as
-- many as the buffer touches, and the mapping has an entry.
pub mx_sg_context_create-IsMapped :
    (kernel : Kernel) (user_addr total_size : ℕ) (ctx : SgContext)
    → mx_sg_context_create kernel user_addr total_size ≡ ok ctx
    → IsMapped ctx user_addr total_size
unfolding mx_sg_context_create
mx_sg_context_create-IsMapped kernel a t ctx e =
    let o = a % page_size in
    let n = u64 (o + t + page_size - 1) / page_size in
    elim (Bool-cases (t == 0)) [
      | inl q ↦ absurd (cc (rw q at e))
      | inr q ↦ elim (Bool-cases (ltb (largest - o) t)) [
        | inl r ↦ absurd (cc (rw (q, r) at e))
        | inr r ↦
            let h : Touched a t n = record {
              positive = ground arith;
              below = ground arith;
              covered = ground arith;
              tight = ground arith;
            } in
            elim (Bool-cases kernel.context_given) [
              | inr g ↦ absurd (cc (rw (q, r, g) at e))
              | inl g ↦ elim (Bool-cases (leb n 1)) [
                | inl l ↦ pin_pages-IsMapped kernel a t n ctx h (rw (q, r, g, l) at e)
                | inr l ↦ elim (Bool-cases kernel.pages_given) [
                  | inl y ↦ pin_pages-IsMapped kernel a t n ctx h (rw (q, r, g, l, y) at e)
                  | inr y ↦ absurd (cc (rw (q, r, g, l, y) at e))
                ]
              ]
            ]
      ]
    ]

-- For a buffer that is not empty and ends below 2^63, mx_parallel_count_for gives at least 1, at
-- most the number of pages that the buffer touches, and at most the larger of parallel_count and
-- 1.
pub mx_parallel_count_for-le :
    (par : Parallel) (dma_size buf size : ℕ)
    → 0 < size
    → buf + size < 2 ^ 63
    → (0 < mx_parallel_count_for par dma_size buf size)
      × (mx_parallel_count_for par dma_size buf size
          ≤ (buf + size - 1) / page_size - buf / page_size + 1)
      × (mx_parallel_count_for par dma_size buf size ≤ max (as_count par.count) 1)
unfolding mx_parallel_count_for
mx_parallel_count_for-le par dma_size buf size p b =
    let e : u64 (buf + size + 2 ^ 64 - 1) ≡ buf + size - 1 = omega (arith, p, b) in
    let f : u64 ((buf + size - 1) / page_size + 2 ^ 64 - buf / page_size + 1)
        ≡ (buf + size - 1) / page_size - buf / page_size + 1 =
      omega (arith, p, b) in
    rw (e, f) (ground (arith, p), ground (arith, p), ground arith)
