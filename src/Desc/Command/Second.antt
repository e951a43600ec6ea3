-- ===== src/Desc/Command/Second.antt =====
-- The second of two descriptors of a command of version 2, against the walk of its slice.
use mxdriver.Common.{
  ℕ, ◌+◌, ◌-◌, ◌^◌, ◌<◌, ◌≡◌, refl, ap, ◌∙◌, min, List, [], ◌∷◌, Result, ok, err, arith, ltb,
  if◌then◌else◌, inl, inr, Bool-cases, true, false, ◌==◌, u64, nonzero, ◌%◌, einval,
}
use mxdriver.Desc.{Scatter}
use mxdriver.Desc.Prp.{
  Cursor, Slice, past_chunk, mx_prp_first_chunk_len, next_entry, aligned_cursor,
}
use mxdriver.Desc.Prp.Walk.{Walks, last, further}
use mxdriver.Desc.Prp.Agree.{lead, begins}
use mxdriver.Desc.Prp.Fetch.{Walks-positive}
use mxdriver.Desc.Command.{CommandV2, dma_size_v2, second_entry}

-- No entry of the mapping is at bus address 0.
abbrev pub AreNonzero : List Scatter → Type 0
AreNonzero [] = Unit {0}
AreNonzero (sg ∷ sgs) = (0 < sg.dma_address) × AreNonzero sgs

pub one_address : (d : ℕ) (c : Cursor) (xs : List ℕ) → Walks d 1 c xs → xs ≡ c.dma_addr ∷ []
one_address d c _ (last _ p q) = refl
one_address d c _ (further _ c' n xs l p w) = absurd (omega (arith, Walks-positive d n c' xs w))

pub record Second (d : ℕ) (c : Cursor) (xs : List ℕ) : Type 0 where
  pub next : Cursor
  pub short : c.len < c.remaining
  pub reached : past_chunk c d ≡ ok next
  pub split : xs ≡ c.dma_addr ∷ next.dma_addr ∷ []

pub two_addresses : (d : ℕ) (c : Cursor) (xs : List ℕ) → Walks d 2 c xs → Second d c xs
two_addresses d c _ (further _ c' _ xs l p w) = record {
  next = c';
  short = l;
  reached = p;
  split = ap (◌∷◌ c.dma_addr) (one_address d c' xs w);
}

cursor_injective : (c next : Cursor) → ok c ≡ ok next → c.dma_addr ≡ next.dma_addr
cursor_injective c next e = cc

aligned_addr :
    (a v size d : ℕ) (sgs : List Scatter) (next : Cursor)
    → aligned_cursor a v size sgs d ≡ ok next
    → a ≡ next.dma_addr
unfolding aligned_cursor
aligned_addr a v size d sgs next e = elim (Bool-cases (nonzero (a % d))) [
  | inl t ↦ absurd (cc (rw t at e))
  | inr t ↦ cursor_injective _ next (rw t at e)
]

-- Where the walk goes on after a chunk of `f` bytes.
abbrev pub after : ℕ → ℕ → ℕ → List Scatter → Result ℕ
after a v f sgs =
    if ltb f v
    then ok (u64 (a + f))
    else elim sgs [ [] ↦ err einval | (next ∷ rest) ↦ ok next.dma_address ]

past_addr :
    (d a v size f : ℕ) (sgs : List Scatter) (next : Cursor)
    → past_chunk
        (record { dma_addr = a; entry_avail = v; remaining = size; len = f; following = sgs })
        d
      ≡ ok next
    → after a v f sgs ≡ ok next.dma_addr
unfolding past_chunk next_entry
past_addr d a v size f [] next e = elim (Bool-cases (ltb f v)) [
  | inl t ↦
      let z : (v - f == 0) ≡ false = ground arith in
      rw t (ap ok (aligned_addr (u64 (a + f)) (v - f) (size - f) d [] next (rw z at e)))
  | inr t ↦ let z : (v - f == 0) ≡ true = ground arith in absurd (cc (rw z at e))
]
past_addr d a v size f (x ∷ r) next e = elim (Bool-cases (ltb f v)) [
  | inl t ↦
      let z : (v - f == 0) ≡ false = ground arith in
      rw t (ap ok (aligned_addr (u64 (a + f)) (v - f) (size - f) d (x ∷ r) next (rw z at e)))
  | inr t ↦
      let z : (v - f == 0) ≡ true = ground arith in
      rw t (ap ok (aligned_addr x.dma_address x.dma_len (size - f) d r next (rw z at e)))
]

pub entry_after :
    (comm : CommandV2) (sg : Scatter) (sgs : List Scatter) (intra : ℕ)
    → intra < sg.dma_len
    → second_entry comm sg sgs intra
      ≡ after comm.prp_entry1 (sg.dma_len - intra) (mx_prp_first_chunk_len sg intra dma_size_v2) sgs
unfolding second_entry
entry_after comm sg sgs intra i =
    let f = mx_prp_first_chunk_len sg intra dma_size_v2 in
    let t : ltb (intra + f) sg.dma_len ≡ ltb f (sg.dma_len - intra) = ground (arith, i) in rw t refl

-- The second entry of a command of two descriptors is the second chunk.
pub second_lem :
    (slice : Slice) (sg : Scatter) (sgs : List Scatter) (intra : ℕ) (comm : CommandV2) (xs : List ℕ)
    → intra < sg.dma_len
    → comm.prp_entry1 ≡ sg.dma_address + intra
    → (w : Second dma_size_v2 (begins sg sgs intra slice.size dma_size_v2) xs)
    → sg.dma_address + intra < 2 ^ 64
    → second_entry comm sg sgs intra ≡ ok w.next.dma_addr
unfolding mx_prp_first_chunk_len
second_lem slice sg sgs intra comm xs i e w b =
    let a = sg.dma_address + intra in
    let v = sg.dma_len - intra in
    let l = lead sg intra dma_size_v2 in
    let u : u64 a ≡ a = omega (arith, b) in
    let s : min (min l v) slice.size < slice.size = w.short in
    let f : min (min l v) slice.size ≡ min l v = omega (arith, s) in
    entry_after comm sg sgs intra i
    ∙ (let r : after a v (min (min l v) slice.size) sgs ≡ ok w.next.dma_addr =
          past_addr dma_size_v2 a v slice.size (min (min l v) slice.size) sgs w.next w.reached in
        rw (e, u) (rw f at r))

pub after_positive :
    (a v f x : ℕ) (sgs : List Scatter)
    → 0 < a
    → a + v < 2 ^ 64
    → AreNonzero sgs
    → after a v f sgs ≡ ok x
    → 0 < x
after_positive a v f x [] p b z e = ground arith
after_positive a v f x (sg ∷ sgs) p b z e = ground (arith, z.0)
