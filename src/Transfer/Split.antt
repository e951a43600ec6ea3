-- ===== src/Transfer/Split.antt =====
-- alloc_mx_transfers: the transfers of a buffer take it in pieces, one after the other.
use mxdriver.Common.{
  ℕ, zero, suc, ◌+◌, ◌-◌, ◌*◌, ◌/◌, ◌%◌, ◌^◌, ◌≤◌, ◌<◌, ◌≡◌, ◌⊎◌, inl, inr, refl, min, true, ok,
  Bool-cases, subst, arith, u64, ltb, ap, sym, ◌∙◌, if◌then◌else◌, List, [], ◌∷◌, Option, none,
  some,
}
use native.Mathlib.Nat as Nat
use mxdriver.Desc.Command.{Xfer}
use mxdriver.Transfer.{
  page_size, page_floor, SgContext, Kernel, mx_sg_context_create, Parallel, mx_parallel_count_for,
  split_from, alloc_mx_transfers,
}
use mxdriver.Transfer.Pages.{mx_sg_context_create-IsMapped, mx_parallel_count_for-le}

-- `xfers` take the bytes of the buffer from `off` on, one piece after the other and none of them
-- empty, to the device from `dev` on; each piece but the last ends with a page.
abbrev pub Tiles : SgContext → ℕ → ℕ → List Xfer → Type 0
Tiles ctx off dev [] = off ≡ ctx.total_size
Tiles ctx off dev (x ∷ xs) =
    (x.slice.sgt ≡ ctx.sgt)
    × (x.slice.sg_byte_offset ≡ off)
    × (x.device_addr ≡ dev)
    × (0 < x.slice.size)
    × ((off + x.slice.size ≡ ctx.total_size)
        ⊎ ((ctx.user_addr + (off + x.slice.size)) % page_size ≡ 0))
    × Tiles ctx (off + x.slice.size) (u64 (dev + x.slice.size)) xs

-- The pages of `n` splits.
abbrev parts : ℕ → ℕ → ℕ → ℕ
parts q zero r = 0
parts q (suc n) r = (if ltb 0 r then q + 1 else q) + parts q n (r - 1)

parts_lem : (q n r : ℕ) → r ≤ n → parts q n r ≡ q * n + r
parts_lem q zero r l = omega (arith, l)
parts_lem q (suc n) r l =
    let h : parts q n (r - 1) ≡ q * n + (r - 1) = parts_lem q n (r - 1) (omega (arith, l)) in
    let m : q * suc n ≡ q * n + q = omega arith in
    elim (Bool-cases (ltb 0 r)) [
      | inl t ↦ rw t (ground (arith, h, m))
      | inr t ↦ rw t (ground (arith, h, m))
    ]

-- What is left of the buffer at `cursor`, in pages: nothing, or what the pages hold but for the
-- first and the last of them.
abbrev Left : ℕ → ℕ → ℕ → Type 0
Left cursor remaining pages =
    ((0 < pages)
      × (0 < remaining)
      × (cursor % page_size + remaining ≤ page_size * pages)
      × (page_size * pages < cursor % page_size + remaining + page_size))
    ⊎ ((pages ≡ 0) × (remaining ≡ 0))

-- The end of a split of `num` pages.
split_end :
    (cursor num remaining : ℕ)
    → 0 < num
    → cursor + num * page_size < 2 ^ 64
    → u64 (page_floor (u64 (cursor + num * page_size)) + 2 ^ 64 - cursor)
      ≡ num * page_size - cursor % page_size
unfolding page_floor
split_end cursor num remaining p b = omega (arith, p, b)

Left-after :
    (cursor remaining num pages size : ℕ)
    → 0 < num
    → size ≡ min (num * page_size - cursor % page_size) remaining
    → Left cursor remaining (num + pages)
    → (0 < size)
      × Left (cursor + size) (remaining - size) pages
      × ((remaining ≡ size) ⊎ ((cursor + size) % page_size ≡ 0))
Left-after cursor remaining num pages size p e (inr (z, w)) = absurd (omega (arith, z, p))
Left-after cursor remaining num pages size p e (inl (a, b, c, d)) =
    elim (Bool-cases (ltb (num * page_size - cursor % page_size) remaining)) [
      | inl t ↦
          let l : num * page_size - cursor % page_size < remaining = ground arith in
          let s : size ≡ num * page_size - cursor % page_size = omega (arith, e, l) in
          let z : (cursor + size) % page_size ≡ 0 = omega (arith, s, p) in
          (
            omega (arith, s, p),
            inl (
              omega (arith, s, l, c),
              omega (arith, s, l),
              omega (arith, s, z, c, p),
              omega (arith, s, z, d, p),
            ),
            inr z,
          )
      | inr t ↦
          let l : remaining ≤ num * page_size - cursor % page_size = ground arith in
          let s : size ≡ remaining = omega (arith, e, l) in
          (omega (arith, s, b), inr (omega (arith, l, d), omega (arith, s)), inl (sym s))
    ]

Left-room :
    (cursor remaining num pages : ℕ)
    → 0 < num
    → cursor + remaining < 2 ^ 63
    → Left cursor remaining (num + pages)
    → cursor + num * page_size < 2 ^ 64
Left-room cursor remaining num pages p b (inl (_, _, _, d)) = omega (arith, d, b)
Left-room cursor remaining num pages p b (inr (z, _)) = absurd (omega (arith, z, p))

record SplitState (ctx : SgContext) (q n r cursor remaining off : ℕ) : Type 0 where
  here : cursor ≡ ctx.user_addr + off
  rest : off + remaining ≡ ctx.total_size
  left : Left cursor remaining (parts q n r)

-- A round of the loop, `w` being the bytes to the end of its pages and `o` its offset.
abbrev round : SgContext → (ℕ → ℕ) → ℕ → ℕ → ℕ → ℕ → ℕ → ℕ → ℕ → ℕ → ℕ → Option (List Xfer)
round ctx ids i q n r cursor remaining dev w o =
    let size = min w remaining in
    elim (split_from ctx (λ j. some (ids j)) (i + 1) q n (r - 1) (u64 (cursor + size))
      (remaining - size) (u64 (dev + size))) [
        | none ↦ none
        | some xfers ↦ some (
            record {
              id = ids i;
              device_addr = dev;
              slice = record { sgt = ctx.sgt; sg_byte_offset = o; size = size };
            }
            ∷ xfers)
      ]

round_lem :
    (ctx : SgContext) (ids : ℕ → ℕ) (i q n r cursor remaining dev w o next : ℕ) (xs : List Xfer)
    → u64 (cursor + min w remaining) ≡ next
    → split_from ctx
        (λ j. some (ids j))
        (i + 1)
        q
        n
        (r - 1)
        next
        (remaining - min w remaining)
        (u64 (dev + min w remaining))
      ≡ some xs
    → round ctx ids i q n r cursor remaining dev w o
      ≡ some (
          record {
            id = ids i;
            device_addr = dev;
            slice = record { sgt = ctx.sgt; sg_byte_offset = o; size = min w remaining };
          }
          ∷ xs)
round_lem ctx ids i q n r cursor remaining dev w o next xs c f = rw (round, c, f) refl

split_from-round :
    (ctx : SgContext) (ids : ℕ → ℕ) (i q n r cursor remaining dev w o : ℕ)
    → u64 (page_floor (u64 (cursor + (if ltb 0 r then q + 1 else q) * page_size)) + 2 ^ 64 - cursor)
      ≡ w
    → u64 (cursor + 2 ^ 64 - ctx.user_addr) ≡ o
    → split_from ctx (λ j. some (ids j)) i q (suc n) r cursor remaining dev
      ≡ round ctx ids i q n r cursor remaining dev w o
unfolding split_from
split_from-round ctx ids i q n r cursor remaining dev w o e f =
    ap (λ v. round ctx ids i q n r cursor remaining dev v (u64 (cursor + 2 ^ 64 - ctx.user_addr))) e
    ∙ ap (λ v. round ctx ids i q n r cursor remaining dev w v) f

-- The loop of alloc_mx_transfers when each allocation succeeds.
split_from-Tiles :
    (ctx : SgContext) (ids : ℕ → ℕ) (i q n r cursor remaining dev off : ℕ)
    → 0 < q
    → ctx.user_addr + ctx.total_size < 2 ^ 63
    → SplitState ctx q n r cursor remaining off
    → (xfers : List Xfer) × (split_from ctx (λ j. some (ids j)) i q n r cursor remaining dev
        ≡ some xfers)
      × Tiles ctx off dev xfers
unfolding split_from
split_from-Tiles ctx ids i q zero r cursor remaining dev off p b s = (
  [],
  refl,
  (elim s.left [
    | inl (a, _, _, _) ↦ absurd (omega (arith, a))
    | inr (_, z) ↦ omega (arith, z, s.rest)
  ]),
)
split_from-Tiles ctx ids i q (suc n) r cursor remaining dev off p b s =
    let num = if ltb 0 r then q + 1 else q in
    let pages = parts q n (r - 1) in
    let size = min (num * page_size - cursor % page_size) remaining in
    let g : 0 < num = ground (arith, p) in
    let (x, y, z) = Left-after cursor remaining num pages size g refl s.left in
    let k : cursor + num * page_size < 2 ^ 64 =
      Left-room cursor remaining num pages g (omega (arith, s.here, s.rest, b)) s.left in
    let e : u64 (page_floor (u64 (cursor + num * page_size)) + 2 ^ 64 - cursor)
        ≡ num * page_size - cursor % page_size =
      split_end cursor num remaining g k in
    let t : SplitState ctx q n (r - 1) (cursor + size) (remaining - size) (off + size) = record {
      here = omega (arith, s.here);
      rest = omega (arith, s.rest);
      left = y;
    } in
    let (xs, f, h) =
      split_from-Tiles ctx ids (i + 1) q n (r - 1) (cursor + size) (remaining - size)
        (u64 (dev + size)) (off + size) p b t in
    let c : u64 (cursor + size) ≡ cursor + size = omega (arith, s.here, s.rest, b) in
    let o : u64 (cursor + 2 ^ 64 - ctx.user_addr) ≡ off = omega (arith, s.here, s.rest, b) in
    let here : Xfer = record {
      id = ids i;
      device_addr = dev;
      slice = record { sgt = ctx.sgt; sg_byte_offset = off; size = size };
    } in
    (
      here ∷ xs,
      split_from-round ctx ids i q n r cursor remaining dev (num * page_size - cursor % page_size)
            off e o
          ∙ round_lem ctx ids i q n r cursor remaining dev (num * page_size - cursor % page_size)
              off (cursor + size) xs c f,
      (
        refl,
        refl,
        refl,
        x,
        (elim z [
          | inl w ↦ inl (omega (arith, w, s.rest))
          | inr w ↦ inr (subst (λ v. v % page_size ≡ 0) (omega (arith, s.here)) w)
        ]),
        h,
      ),
    )

-- Where mx_sg_context_create has mapped a buffer that ends below 2^63 and all allocations
-- succeed, alloc_mx_transfers, for the count that mx_parallel_count_for gives, returns transfers
-- on that mapping that take the bytes of the buffer one piece after the other, none of them
-- empty, up to its end, to consecutive device addresses, and each piece but one that ends the
-- buffer ends with a page.
pub alloc_mx_transfers-Tiles :
    (kernel : Kernel) (par : Parallel) (dma_size buf size device_addr : ℕ) (ids : ℕ → ℕ)
    (ctx : SgContext)
    → mx_sg_context_create kernel buf size ≡ ok ctx
    → buf + size < 2 ^ 63
    → (xfers : List Xfer) × (alloc_mx_transfers true
          (λ i. some (ids i))
          ctx
          device_addr
          (mx_parallel_count_for par dma_size buf size)
        ≡ some xfers)
      × Tiles ctx 0 device_addr xfers
unfolding alloc_mx_transfers
alloc_mx_transfers-Tiles kernel par dma_size buf size device_addr ids ctx e b =
    let m = mx_sg_context_create-IsMapped kernel buf size ctx e in
    let count = mx_parallel_count_for par dma_size buf size in
    let (p, l, _) = mx_parallel_count_for-le par dma_size buf size m.positive b in
    let n : ctx.pages_nr ≡ (buf + size - 1) / page_size - buf / page_size + 1 =
      omega (arith, m.covered, m.tight, m.positive) in
    let k : count ≤ ctx.pages_nr = omega (arith, l, n) in
    let r : ctx.pages_nr % count < count = Nat.mod-lt ctx.pages_nr p in
    let q : 0 < ctx.pages_nr / count = (Nat.le-div_iff_mul-le p).1 (omega (arith, k)) in
    let g : parts (ctx.pages_nr / count) count (ctx.pages_nr % count) ≡ ctx.pages_nr =
      parts_lem (ctx.pages_nr / count) count (ctx.pages_nr % count) (omega (arith, r))
      ∙ Nat.div-add-mod' ctx.pages_nr count in
    split_from-Tiles ctx ids 0 (ctx.pages_nr / count) count (ctx.pages_nr % count) ctx.user_addr
      ctx.total_size device_addr 0 q (omega (arith, m.at, m.sized, b))
      (record {
        here = omega arith;
        rest = omega arith;
        left = subst (Left ctx.user_addr ctx.total_size) (sym g) (
            inl (
              omega (arith, n),
              omega (arith, m.sized, m.positive),
              omega (arith, m.at, m.sized, m.covered),
              omega (arith, m.at, m.sized, m.tight),
            ));
      })
