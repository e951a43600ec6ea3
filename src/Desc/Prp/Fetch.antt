-- ===== src/Desc/Prp/Fetch.antt =====
-- Where the walk puts its descriptors, and what the device reads back by following the links.
use mxdriver.Common.{
  ℕ, zero, suc, ◌+◌, ◌-◌, ◌≤◌, ◌<◌, ◌≡◌, ◌≢◌, refl, ap, sym, ◌∙◌, List, [], ◌∷◌, ok, arith, ltb,
  leb, inl, inr, ◌⊎◌, Bool-cases, true, false, ◌==◌, ◌&&◌, Bool,
}
use mxdriver.Desc.Count.{capacity}
use mxdriver.Desc.Prp.{Cursor, Pages, Lists, write, link, emit, past_chunk}
use mxdriver.Desc.Prp.Walk.{Walks, last, further}

-- The device reads `n` descriptors from a slot of the list at `page` on. It takes the last slot of
-- a list for the address of the next one, unless it is to read one descriptor only.
abbrev pub fetch : Pages → ℕ → ℕ → ℕ → ℕ → List ℕ
fetch mem per page slot zero = []
fetch mem per page slot (suc n) = elim ((slot == per - 1) && ltb 0 n) [
  | true ↦ mem (mem page slot) 0 ∷ fetch mem per (mem page slot) 1 n
  | false ↦ mem page slot ∷ fetch mem per page (slot + 1) n
]

-- The lists that the pool gave are different ones.
abbrev pub AreDistinct : Lists → Type 0
AreDistinct lists =
    (i j : ℕ) → i < lists.list_cnt → j < lists.list_cnt → lists.bus i ≡ lists.bus j → i ≡ j

-- The slots that are filled before slot `i` of list `l`.
abbrev Earlier : Lists → ℕ → ℕ → ℕ → ℕ → Type 0
Earlier lists l i page slot =
    ((k : ℕ) × (k < l) × (page ≡ lists.bus k)) ⊎ ((page ≡ lists.bus l) × (slot < i))

pub record Fills (lists : Lists) (d n l i : ℕ) (c : Cursor) (mem : Pages) (xs : List ℕ)
    : Type 0 where
  pub filled : Pages
  pub emitted : emit lists d n l i c mem ≡ ok filled
  pub fetched : fetch filled lists.descs_per_list (lists.bus l) i n ≡ xs
  kept : (page slot : ℕ) → Earlier lists l i page slot → filled page slot ≡ mem page slot

write_same : (mem : Pages) (p s v : ℕ) → write mem p s v p s ≡ v
write_same mem p s v = ground arith

write_other :
    (mem : Pages) (p s v p' s' : ℕ) → (p' ≢ p) ⊎ (s' ≢ s) → write mem p s v p' s' ≡ mem p' s'
write_other mem p s v p' s' h = ground arith

pub Walks-positive : (d n : ℕ) (c : Cursor) (xs : List ℕ) → Walks d n c xs → 0 < n
Walks-positive d _ c _ (last _ p q) = omega arith
Walks-positive d _ c _ (further _ c' n xs l p w) = omega arith

-- A slot filled before is none that is written now.
Earlier-other :
    (lists : Lists) (l i page slot : ℕ)
    → AreDistinct lists
    → l < lists.list_cnt
    → Earlier lists l i page slot
    → (page ≢ lists.bus l) ⊎ (slot ≢ i)
Earlier-other lists l i page slot u b (inl (k, q, e)) =
    inl (λ f. absurd (omega (arith, u k l (omega (arith, q, b)) b (sym e ∙ f), q)))
Earlier-other lists l i page slot u b (inr (e, q)) = inr (λ f. absurd (omega (arith, f, q)))

and_false : (b : Bool) → (b && false) ≡ false
and_false true = refl
and_false false = refl

Fills-last :
    (lists : Lists) (d l i : ℕ) (c : Cursor) (mem : Pages)
    → AreDistinct lists
    → l < lists.list_cnt
    → i < lists.descs_per_list
    → 0 < c.remaining
    → c.remaining ≤ c.len
    → Fills lists d 1 l i c mem (c.dma_addr ∷ [])
unfolding emit link
Fills-last lists d l i c mem u b j p q = record {
  filled = write mem (lists.bus l) i c.dma_addr;
  emitted =
      let x : (c.remaining == 0) ≡ false = ground (arith, p) in
      let y : (c.remaining - c.len == 0) ≡ true = ground (arith, q) in
      let z : leb lists.descs_per_list i ≡ false = ground (arith, j) in
      rw (x, and_false (i == lists.descs_per_list - 1), z, y) refl;
  fetched =
      rw
        (
          fetch,
          and_false (i == lists.descs_per_list - 1),
          write_same mem (lists.bus l) i c.dma_addr,
        )
        refl;
  kept = λ page slot e.
      write_other mem (lists.bus l) i c.dma_addr page slot
        (Earlier-other lists l i page slot u b e);
}

weaken :
    (lists : Lists) (l i j page slot : ℕ)
    → i ≤ j
    → Earlier lists l i page slot
    → Earlier lists l j page slot
weaken lists l i j page slot h (inl e) = inl e
weaken lists l i j page slot h (inr (e, q)) = inr (e, omega (arith, h, q))

later :
    (lists : Lists) (l i page slot : ℕ)
    → Earlier lists l i page slot
    → Earlier lists l (i + 1) page slot
later lists l i page slot = weaken lists l i (i + 1) page slot (omega arith)

below :
    (lists : Lists) (l i page slot : ℕ)
    → Earlier lists l i page slot
    → Earlier lists (l + 1) 0 page slot
below lists l i page slot (inl (k, q, e)) = inl (k, omega (arith, q), e)
below lists l i page slot (inr (e, q)) = inl (l, omega arith, e)

-- Where a list is full another one follows, with room for the rest.
next_room :
    (per n i m : ℕ)
    → i ≡ per - 1
    → 0 < n
    → 1 < per
    → suc n + i ≤ capacity per (suc m)
    → (k : ℕ) × (m ≡ suc k) × (n + 1 ≤ capacity per (suc k))
next_room per n i zero e p g r = absurd (omega (arith, e, p, g, r))
next_room per n i (suc k) e p g r = (k, refl, omega (arith, e, p, g, r))

-- One more descriptor in this list.
Fills-here :
    (lists : Lists) (d n l i : ℕ) (c c' : Cursor) (mem : Pages) (xs : List ℕ)
    → AreDistinct lists
    → l < lists.list_cnt
    → i < lists.descs_per_list - 1
    → c.len < c.remaining
    → past_chunk c d ≡ ok c'
    → Fills lists d n l (i + 1) c' (write mem (lists.bus l) i c.dma_addr) xs
    → Fills lists d (suc n) l i c mem (c.dma_addr ∷ xs)
unfolding emit link
Fills-here lists d n l i c c' mem xs u b j q p k =
    let x : (c.remaining == 0) ≡ false = ground (arith, q) in
    let y : (c.remaining - c.len == 0) ≡ false = ground (arith, q) in
    let t : (i == lists.descs_per_list - 1) ≡ false = ground (arith, j) in
    let z : leb lists.descs_per_list i ≡ false = ground (arith, j) in
    let s : k.filled (lists.bus l) i ≡ c.dma_addr =
      k.kept (lists.bus l) i (inr (refl, omega arith))
      ∙ write_same mem (lists.bus l) i c.dma_addr in
    record {
      filled = k.filled;
      emitted = rw (x, t, z, y, p) k.emitted;
      fetched = rw (fetch, t, s) (ap (◌∷◌ c.dma_addr) k.fetched);
      kept = λ page slot e.
          k.kept page slot (later lists l i page slot e)
          ∙ write_other mem (lists.bus l) i c.dma_addr page slot
              (Earlier-other lists l i page slot u b e);
    }

-- The link to the next list, and one more descriptor there.
Fills-next :
    (lists : Lists) (d n l i : ℕ) (c c' : Cursor) (mem : Pages) (xs : List ℕ)
    → AreDistinct lists
    → l + 1 < lists.list_cnt
    → 1 < lists.descs_per_list
    → i ≡ lists.descs_per_list - 1
    → 0 < n
    → c.len < c.remaining
    → past_chunk c d ≡ ok c'
    → Fills lists d n
        (l + 1)
        1
        c'
        (write (write mem (lists.bus l) i (lists.bus (l + 1))) (lists.bus (l + 1)) 0 c.dma_addr)
        xs
    → Fills lists d (suc n) l i c mem (c.dma_addr ∷ xs)
unfolding emit link
Fills-next lists d n l i c c' mem xs u b g j m q p k =
    let x : (c.remaining == 0) ≡ false = ground (arith, q) in
    let y : (c.remaining - c.len == 0) ≡ false = ground (arith, q) in
    let t : (i == lists.descs_per_list - 1) ≡ true = ground (arith, j) in
    let v : ltb 1 (suc n) ≡ true = ground (arith, m) in
    let v' : ltb 0 n ≡ true = ground (arith, m) in
    let w : leb lists.list_cnt (l + 1) ≡ false = ground (arith, b) in
    let z : leb lists.descs_per_list 0 ≡ false = ground (arith, g) in
    let linked = write mem (lists.bus l) i (lists.bus (l + 1)) in
    let other : (page slot : ℕ)
        → Earlier lists (l + 1) 0 page slot
        → write linked (lists.bus (l + 1)) 0 c.dma_addr page slot ≡ linked page slot =
      λ page slot e.
        write_other linked (lists.bus (l + 1)) 0 c.dma_addr page slot
          (Earlier-other lists (l + 1) 0 page slot u b e) in
    let s : k.filled (lists.bus l) i ≡ lists.bus (l + 1) =
      k.kept (lists.bus l) i (inl (l, omega arith, refl))
      ∙ other (lists.bus l) i (inl (l, omega arith, refl))
      ∙ write_same mem (lists.bus l) i (lists.bus (l + 1)) in
    let s' : k.filled (lists.bus (l + 1)) 0 ≡ c.dma_addr =
      k.kept (lists.bus (l + 1)) 0 (inr (refl, omega arith))
      ∙ write_same linked (lists.bus (l + 1)) 0 c.dma_addr in
    record {
      filled = k.filled;
      emitted = rw (x, t, v, w, z, y, p) k.emitted;
      fetched = rw (fetch, t, v', s, s') (ap (◌∷◌ c.dma_addr) k.fetched);
      kept = λ page slot e.
          k.kept page slot
            (weaken lists (l + 1) 0 1 page slot (omega arith) (below lists l i page slot e))
          ∙ other page slot (below lists l i page slot e)
          ∙ write_other mem (lists.bus l) i (lists.bus (l + 1)) page slot
              (Earlier-other lists l i page slot u (omega (arith, b)) e);
    }

-- Lists with room for all the descriptors are filled, and the device reads back what was emitted.
pub fills :
    (lists : Lists) (d n l i m : ℕ) (c : Cursor) (mem : Pages) (xs : List ℕ)
    → AreDistinct lists
    → 1 < lists.descs_per_list
    → l + suc m ≡ lists.list_cnt
    → i < lists.descs_per_list
    → n + i ≤ capacity lists.descs_per_list (suc m)
    → Walks d n c xs
    → Fills lists d n l i c mem xs
fills lists d _ l i m c mem _ u g b j r (last _ p q) =
    Fills-last lists d l i c mem u (omega (arith, b)) j p q
fills lists d _ l i m c mem _ u g b j r (further _ c' n xs q p w) =
    elim (Bool-cases (i == lists.descs_per_list - 1)) [
      | inr e ↦
          let h : i < lists.descs_per_list - 1 = ground arith in
          Fills-here lists d n l i c c' mem xs u (omega (arith, b)) h q p
            (fills lists d n l (i + 1) m c' _ xs u g b (omega (arith, h)) (omega (arith, r)) w)
      | inl e ↦
          let h : i ≡ lists.descs_per_list - 1 = ground arith in
          let pos = Walks-positive d n c' xs w in
          let (k, f, room) = next_room lists.descs_per_list n i m h pos g r in
          Fills-next lists d n l i c c' mem xs u (omega (arith, b, f)) g h pos q p (
            fills lists d n (l + 1) 1 k c' _ xs u g (omega (arith, b, f)) (omega (arith, g)) room w)
    ]
