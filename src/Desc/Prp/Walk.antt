-- ===== src/Desc/Prp/Walk.antt =====
-- The walk over the chunks of a slice, apart from where its descriptors are put.
use mxdriver.Common.{
  ℕ, zero, suc, ◌+◌, ◌-◌, ◌%◌, ◌^◌, ◌≤◌, ◌<◌, ◌≡◌, ap, sym, subst, ◌∙◌, min, List, [], ◌∷◌, ◌++◌,
  ok, arith, u64,
}
use mathlib.Core.List.{append-nil, append_assoc}
use native.Mathlib.Nat as Nat
use mxdriver.Desc.{Scatter}
use mxdriver.Desc.Prp.{Cursor, past_chunk, aligned_cursor, next_entry, min3}
use mxdriver.Desc.Prp.Bytes.{span, span-append, device_bytes, times}

-- `Walks d n c as`: from `c` on the walk emits the `n` addresses `as`.
pub data Walks (d : ℕ) : ℕ → Cursor → List ℕ → Type 0 where
  last : (c : Cursor) → 0 < c.remaining → c.remaining ≤ c.len → Walks d 1 c (c.dma_addr ∷ [])
  further :
      (c c' : Cursor) (n : ℕ) (rest : List ℕ)
      → c.len < c.remaining
      → past_chunk c d ≡ ok c'
      → Walks d n c' rest
      → Walks d (suc n) c (c.dma_addr ∷ rest)

-- The cursor at a chunk boundary.
abbrev pub cursor_at : ℕ → ℕ → ℕ → ℕ → List Scatter → Cursor
cursor_at d a avail size sgs = record {
  dma_addr = a;
  entry_avail = avail;
  remaining = size;
  len = min (min d avail) size;
  following = sgs;
}

-- A walk of `n` chunks that moves the bytes `bytes`.
pub record Covers (d n : ℕ) (c : Cursor) (len : ℕ) (bytes : List ℕ) : Type 0 where
  pub addresses : List ℕ
  pub walked : Walks d n c addresses
  pub moved : device_bytes d addresses len c.remaining ≡ bytes

-- Past a chunk that does not end its entry.
pub past_inside :
    (d a avail size len : ℕ) (sgs : List Scatter)
    → a + avail < 2 ^ 64
    → len < avail
    → (a + len) % d ≡ 0
    → past_chunk
        (record { dma_addr = a; entry_avail = avail; remaining = size; len = len; following = sgs })
        d
      ≡ ok (cursor_at d (a + len) (avail - len) (size - len) sgs)
unfolding past_chunk aligned_cursor min3
past_inside d a avail size len sgs b l e =
    let w : u64 (a + len) ≡ a + len = omega (arith, b, l) in rw w (ground (arith, e, l))

-- Past the last chunk of an entry.
pub past_entry :
    (d a size len : ℕ) (sg : Scatter) (sgs : List Scatter)
    → sg.dma_address % d ≡ 0
    → past_chunk
        (record {
          dma_addr = a;
          entry_avail = len;
          remaining = size;
          len = len;
          following = sg ∷ sgs;
        })
        d
      ≡ ok (cursor_at d sg.dma_address sg.dma_len (size - len) sgs)
unfolding past_chunk aligned_cursor next_entry min3
past_entry d a size len sg sgs e = ground (arith, e)

pub Covers-last :
    (d : ℕ) (c : Cursor) (len : ℕ)
    → 0 < c.remaining
    → c.remaining ≤ c.len
    → c.remaining ≤ len
    → Covers d 1 c len (span c.dma_addr c.remaining)
Covers-last d c len p q l = record {
  addresses = c.dma_addr ∷ [];
  walked = last c p q;
  moved =
      let e : min len c.remaining ≡ c.remaining = omega (arith, l) in
      append-nil (span c.dma_addr (min len c.remaining)) ∙ ap (span c.dma_addr) e;
}

pub Covers-further :
    (d n : ℕ) (c c' : Cursor) (len : ℕ) (bytes : List ℕ)
    → c.len < c.remaining
    → c.len ≡ len
    → past_chunk c d ≡ ok c'
    → c'.remaining ≡ c.remaining - c.len
    → Covers d n c' d bytes
    → Covers d (suc n) c len (span c.dma_addr c.len ++ bytes)
Covers-further d n c c' len bytes l e p r k = record {
  addresses = c.dma_addr ∷ k.addresses;
  walked = further c c' n k.addresses l p k.walked;
  moved =
      let f : min len c.remaining ≡ c.len = omega (arith, l, e) in
      let g : c.remaining - min len c.remaining ≡ c'.remaining = omega (arith, f, r) in
      ap
        (λ x. span c.dma_addr x ++ device_bytes d k.addresses d (c.remaining - min len c.remaining))
        f
      ∙ ap (λ x. span c.dma_addr c.len ++ x) (ap (device_bytes d k.addresses d) g ∙ k.moved);
}

-- A slice that ends in the entry.
pub inside_last :
    (j r d a v : ℕ) (sgs : List Scatter)
    → a % d ≡ 0
    → 0 < r
    → r ≤ d
    → times j d + r ≤ v
    → a + v < 2 ^ 64
    → Covers d (suc j) (cursor_at d a v (times j d + r) sgs) d (span a (times j d + r))
inside_last zero r d a v sgs e p q l b =
    Covers-last d (cursor_at d a v (times zero d + r) sgs) d (omega (arith, p))
      (omega (arith, p, q, l)) (omega (arith, q))
inside_last (suc j) r d a v sgs e p q l b =
    let size = times (suc j) d + r in
    let s : size - d ≡ times j d + r = omega arith in
    let w : min (min d v) size ≡ d = omega (arith, p, l) in
    let k =
      Covers-further d (suc j) (cursor_at d a v size sgs)
        (cursor_at d (a + d) (v - d) (times j d + r) sgs) d (span (a + d) (times j d + r))
        (omega (arith, w, p)) w
        (rw (w, ← s)
          (past_inside d a v size d sgs b (omega (arith, p, l)) (Nat.add-mod_right a d ∙ e)))
        (omega (arith, w))
        (inside_last j r d (a + d) (v - d) sgs (Nat.add-mod_right a d ∙ e) p q (omega (arith, l))
          (omega (arith, b, p, l))) in
    let t : size ≡ d + (times j d + r) = omega arith in
    subst (λ x. Covers d (suc (suc j)) (cursor_at d a v size sgs) d x)
      (ap (λ x. span a x ++ span (a + d) (times j d + r)) w
        ∙ sym (span-append a d (times j d + r))
        ∙ ap (span a) (sym t))
      k

-- A slice that goes on in the next entry, which starts on a boundary as this one ends on one.
pub inside_further :
    (j d a v size m : ℕ) (sg : Scatter) (sgs : List Scatter) (bytes : List ℕ)
    → a % d ≡ 0
    → 0 < d
    → v ≡ times (suc j) d
    → v < size
    → a + v < 2 ^ 64
    → sg.dma_address % d ≡ 0
    → Covers d m (cursor_at d sg.dma_address sg.dma_len (size - v) sgs) d bytes
    → Covers d (suc j + m) (cursor_at d a v size (sg ∷ sgs)) d (span a v ++ bytes)
inside_further zero d a v size m sg sgs bytes e p t l b f k =
    let u : v ≡ d = omega (arith, t) in
    let w : min (min d v) size ≡ d = omega (arith, u, l) in
    let c = cursor_at d a v size (sg ∷ sgs) in
    let q : past_chunk c d ≡ ok (cursor_at d sg.dma_address sg.dma_len (size - v) sgs) =
      rw (w, u) (past_entry d a size d sg sgs f) in
    let n : suc m ≡ suc zero + m = omega arith in
    subst (λ x. Covers d x c d (span a v ++ bytes)) n
      (subst (λ x. Covers d (suc m) c d (span a x ++ bytes)) (w ∙ sym u)
        (Covers-further d m c (cursor_at d sg.dma_address sg.dma_len (size - v) sgs) d bytes
          (omega (arith, w, u, l)) w q (omega (arith, w, u)) k))
inside_further (suc j) d a v size m sg sgs bytes e p t l b f k =
    let w : min (min d v) size ≡ d = omega (arith, t, l) in
    let c = cursor_at d a v size (sg ∷ sgs) in
    let c' = cursor_at d (a + d) (v - d) (size - d) (sg ∷ sgs) in
    let lt : d < v = omega (arith, t, p) in
    let q : past_chunk c d ≡ ok c' =
      rw w (past_inside d a v size d (sg ∷ sgs) b lt (Nat.add-mod_right a d ∙ e)) in
    let s : size - v ≡ size - d - (v - d) = omega (arith, lt, l) in
    let h =
      inside_further j d (a + d) (v - d) (size - d) m sg sgs bytes (Nat.add-mod_right a d ∙ e) p
        (omega (arith, t)) (omega (arith, lt, l)) (omega (arith, b, lt)) f
        (subst (λ x. Covers d m (cursor_at d sg.dma_address sg.dma_len x sgs) d bytes) s k) in
    let n : suc (suc j + m) ≡ suc (suc j) + m = omega arith in
    let z : d + (v - d) ≡ v = omega (arith, lt) in
    subst (λ x. Covers d x c d (span a v ++ bytes)) n
      (subst (λ x. Covers d (suc (suc j + m)) c d x)
        (ap (λ x. span a x ++ (span (a + d) (v - d) ++ bytes)) w
          ∙ sym (append_assoc (span a d) (span (a + d) (v - d)) bytes)
          ∙ ap (λ x. x ++ bytes) (sym (span-append a d (v - d)) ∙ ap (span a) z))
        (Covers-further d (suc j + m) c c' d (span (a + d) (v - d) ++ bytes)
          (omega (arith, w, t, l, p)) w q (omega (arith, w)) h))
