-- ===== src/Desc/Prp/Entry.antt =====
-- One entry of the mapping: its count of descriptors against the walk over it.
use mxdriver.Common.{
  ℕ, zero, suc, ◌+◌, ◌-◌, ◌/◌, ◌%◌, ◌^◌, ◌≤◌, ◌<◌, ◌≡◌, ◌≢◌, ap, sym, subst, ◌∙◌, min, List, ◌∷◌,
  ◌++◌, arith, ltb, if◌then◌else◌, nonzero, inl, inr, ◌⊎◌, Bool-cases, true,
}
use mathlib.Core.List.{append_assoc}
use native.Mathlib.Nat as Nat
use mxdriver.Desc.{Scatter}
use mxdriver.Desc.Prp.{prp_chunk_len_at}
use mxdriver.Desc.Prp.Bytes.{span, span-append, times, Chunks, chunks}
use mxdriver.Desc.Prp.Walk.{
  Covers, cursor_at, Covers-last, Covers-further, inside_last, inside_further, past_inside,
  past_entry,
}

-- The distance from an address to the next chunk boundary.
pub record Distance (a d len : ℕ) : Type 0 where
  pub positive : 0 < len
  pub within : len ≤ d
  pub reaches : (a + len) % d ≡ 0
  pub nearest : (x : ℕ) → 0 < x → x < len → (a + x) % d ≢ 0

pub chunk_len-Distance : (a d : ℕ) → 0 < d → Distance a d (prp_chunk_len_at a d)
unfolding prp_chunk_len_at
chunk_len-Distance a d p = elim (Bool-cases (nonzero (a % d))) [
  | inl e ↦ rw e (
      let l = Nat.mod-lt a p in
      record {
        positive = omega (arith, l);
        within = omega (arith, l);
        reaches =
            sym (Nat.mod-add-mod a d (d - a % d))
            ∙ ap (λ x. x % d) (omega (arith, l))
            ∙ Nat.mod_self d;
        nearest = λ x q s z.
            let s' : a % d + x < d = omega (arith, s, l) in
            let w = sym (Nat.mod-eq_of_lt s') ∙ Nat.mod-add-mod a d x ∙ z in
            absurd (omega (arith, w, q));
      })
  | inr e ↦ rw e (
      let r : a % d ≡ 0 = ground arith in
      record {
        positive = p;
        within = omega arith;
        reaches = Nat.add-mod_right a d ∙ r;
        nearest = λ x q s z.
            let w = Nat.mod-add-mod a d x ∙ z in
            let w' : (a % d + x) % d ≡ x % d = ap (λ y. y % d) (omega (arith, r)) in
            absurd (omega (arith, sym w' ∙ w, Nat.mod-eq_of_lt s, q));
      })
]

-- The descriptors of `c` bytes from a place `len` bytes before a boundary in an entry of which `v`
-- bytes are left.
abbrev pub descs : ℕ → ℕ → ℕ → ℕ → ℕ
descs d len v c =
    let first_len = min (min len v) c in
    1 + (if ltb first_len c then (c - first_len + d - 1) / d else 0)

descs_one : (d len v c : ℕ) → c ≤ len → c ≤ v → descs d len v c ≡ 1
descs_one d len v c p q = let e : min (min len v) c ≡ c = omega (arith, p, q) in rw e (ground arith)

descs_more :
    (d len v c : ℕ) (k : Chunks (c - len) d) → len < c → c ≤ v → descs d len v c ≡ suc (suc k.full)
descs_more d len v c k p q =
    let e : min (min len v) c ≡ len = omega (arith, p, q) in
    let t : ltb len c ≡ true = ground (arith, p) in rw (e, t, k.rounded_up) (omega arith)

-- The slice ends in the entry.
pub entry_last :
    (d a len v size : ℕ) (sgs : List Scatter)
    → 0 < d
    → Distance a d len
    → 0 < size
    → size ≤ v
    → a + v < 2 ^ 64
    → Covers d (descs d len v size) (cursor_at len a v size sgs) len (span a size)
entry_last d a len v size sgs p i q l b = elim (Bool-cases (ltb len size)) [
  | inr e ↦
      let s : size ≤ len = ground arith in
      subst (λ n. Covers d n (cursor_at len a v size sgs) len (span a size))
        (sym (descs_one d len v size s l))
        (Covers-last d (cursor_at len a v size sgs) len q (omega (arith, s, l)) s)
  | inl e ↦
      let s : len < size = ground arith in
      let k = chunks (size - len) d (omega (arith, s)) p in
      let w : min (min len v) size ≡ len = omega (arith, s, l) in
      let c' = cursor_at d (a + len) (v - len) (size - len) sgs in
      let inner : Covers d (suc k.full) c' d (span (a + len) (size - len)) =
        subst
          (λ x. Covers d (suc k.full) (cursor_at d (a + len) (v - len) x sgs) d (span (a + len) x))
          (sym k.adds_up)
          (inside_last k.full k.rest d (a + len) (v - len) sgs i.reaches k.rest_positive k.rest_fits
            (omega (arith, k.adds_up, l)) (omega (arith, b, s, l))) in
      let z : len + (size - len) ≡ size = omega (arith, s) in
      subst (λ n. Covers d n (cursor_at len a v size sgs) len (span a size))
        (sym (descs_more d len v size k s l))
        (subst (λ x. Covers d (suc (suc k.full)) (cursor_at len a v size sgs) len x)
          (ap (λ x. span a x ++ span (a + len) (size - len)) w
            ∙ sym (span-append a len (size - len))
            ∙ ap (span a) z)
          (Covers-further d (suc k.full) (cursor_at len a v size sgs) c' len
            (span (a + len) (size - len)) (omega (arith, w, s)) w
            (rw w (past_inside d a v size len sgs b (omega (arith, s, l)) i.reaches))
            (omega (arith, w)) inner))
]

lt_or_eq : (x y : ℕ) → x ≤ y → (x < y) ⊎ (x ≡ y)
lt_or_eq x y h = grind arith

multiple : (j r d : ℕ) → 0 < r → r ≤ d → (times j d + r) % d ≡ 0 → r ≡ d
multiple zero r d p q e = elim (lt_or_eq r d q) [
  | inl l ↦
      let z : times zero d + r ≡ r = omega arith in
      absurd (omega (arith, sym (Nat.mod-eq_of_lt l) ∙ ap (λ x. x % d) (sym z) ∙ e, p))
  | inr x ↦ x
]
multiple (suc j) r d p q e =
    let t : times (suc j) d + r ≡ d + (times j d + r) = omega arith in
    multiple j r d p q (sym (Nat.add-mod_left d (times j d + r)) ∙ ap (λ x. x % d) (sym t) ∙ e)

remainder : (d x y : ℕ) → x % d ≡ 0 → (x + y) % d ≡ 0 → y % d ≡ 0
remainder d x y e f =
    let z : x % d + y ≡ y = omega (arith, e) in ap (λ w. w % d) (sym z) ∙ Nat.mod-add-mod x d y ∙ f

-- The slice goes on in the next entry.
pub entry_further :
    (d a len v size m : ℕ) (sg : Scatter) (sgs : List Scatter) (bytes : List ℕ)
    → 0 < d
    → Distance a d len
    → 0 < v
    → v < size
    → a + v < 2 ^ 64
    → (a + v) % d ≡ 0
    → sg.dma_address % d ≡ 0
    → Covers d m (cursor_at d sg.dma_address sg.dma_len (size - v) sgs) d bytes
    → Covers d (descs d len v v + m) (cursor_at len a v size (sg ∷ sgs)) len (span a v ++ bytes)
entry_further d a len v size m sg sgs bytes p i q l b e f k = elim (Bool-cases (ltb len v)) [
  | inr x ↦
      let s : v ≡ len = elim (lt_or_eq v len (ground arith)) [
        | inl y ↦ absurd (i.nearest v q y e)
        | inr y ↦ y
      ] in
      let w : min (min len v) size ≡ v = omega (arith, s, l) in
      let n : suc m ≡ descs d len v v + m =
        rw (descs_one d len v v (omega (arith, s)) (omega arith)) (omega arith) in
      let c = cursor_at len a v size (sg ∷ sgs) in
      subst (λ x. Covers d x c len (span a v ++ bytes)) n
        (subst (λ x. Covers d (suc m) c len (span a x ++ bytes)) w
          (Covers-further d m c (cursor_at d sg.dma_address sg.dma_len (size - v) sgs) len bytes
            (omega (arith, w, l)) (w ∙ s) (rw w (past_entry d a size v sg sgs f)) (omega (arith, w))
            k))
  | inl x ↦
      let s : len < v = ground arith in
      let h = chunks (v - len) d (omega (arith, s)) p in
      let y : (times h.full d + h.rest) % d ≡ 0 =
        ap (λ x. x % d) (sym h.adds_up)
        ∙ remainder d (a + len) (v - len) i.reaches (ap (λ x. x % d) (omega (arith, s)) ∙ e) in
      let g : h.rest ≡ d = multiple h.full h.rest d h.rest_positive h.rest_fits y in
      let w : min (min len v) size ≡ len = omega (arith, s, l) in
      let c = cursor_at len a v size (sg ∷ sgs) in
      let c' = cursor_at d (a + len) (v - len) (size - len) (sg ∷ sgs) in
      let u : size - v ≡ size - len - (v - len) = omega (arith, s, l) in
      let inner =
        inside_further h.full d (a + len) (v - len) (size - len) m sg sgs bytes i.reaches p
          (omega (arith, h.adds_up, g)) (omega (arith, s, l)) (omega (arith, b, s)) f
          (subst (λ x. Covers d m (cursor_at d sg.dma_address sg.dma_len x sgs) d bytes) u k) in
      let n : suc (suc h.full + m) ≡ descs d len v v + m =
        rw (descs_more d len v v h s (omega arith)) (omega arith) in
      let z : len + (v - len) ≡ v = omega (arith, s) in
      subst (λ x. Covers d x c len (span a v ++ bytes)) n
        (subst (λ x. Covers d (suc (suc h.full + m)) c len x)
          (ap (λ x. span a x ++ (span (a + len) (v - len) ++ bytes)) w
            ∙ sym (append_assoc (span a len) (span (a + len) (v - len)) bytes)
            ∙ ap (λ x. x ++ bytes) (sym (span-append a len (v - len)) ∙ ap (span a) z))
          (Covers-further d (suc h.full + m) c c' len (span (a + len) (v - len) ++ bytes)
            (omega (arith, w, s, l)) w (rw w (past_inside d a v size len (sg ∷ sgs) b s i.reaches))
            (omega (arith, w)) inner))
]
