-- ===== src/Desc/Prp/Bytes.antt =====
-- The bytes of a slice and those that the device reads or writes for a list of descriptors, as lists
-- of bus addresses.
use mxdriver.Common.{
  ℕ, zero, suc, ◌+◌, ◌-◌, ◌*◌, ◌/◌, ◌%◌, ◌^◌, ◌≤◌, ◌<◌, ◌≡◌, ap, ◌∙◌, min, List, [], ◌∷◌, ◌++◌,
  arith,
}
use native.Mathlib.Nat as Nat
use mxdriver.Desc.{Scatter}

abbrev pub span : ℕ → ℕ → List ℕ
span a zero = []
span a (suc n) = a ∷ span (a + 1) n

pub span-append : (a m n : ℕ) → span a (m + n) ≡ span a m ++ span (a + m) n
span-append a zero n = simp (Nat.zero-add, Nat.add-zero)
span-append a (suc m) n =
    let e : suc m + n ≡ suc (m + n) = omega arith in
    let f : a + 1 + m ≡ a + suc m = omega arith in
    ap (span a) e ∙ ap (◌∷◌ a) (span-append (a + 1) m n ∙ ap (λ x. span (a + 1) m ++ span x n) f)

-- The first `size` bytes from byte `intra_off` of the entries on.
abbrev pub slice_bytes : List Scatter → ℕ → ℕ → List ℕ
slice_bytes [] intra_off size = []
slice_bytes (sg ∷ sgs) intra_off size =
    span (sg.dma_address + intra_off) (min (sg.dma_len - intra_off) size)
    ++ slice_bytes sgs 0 (size - min (sg.dma_len - intra_off) size)

-- The device gets addresses without lengths: it takes `len` bytes at the first address and a full
-- chunk at each later one, until it has all the bytes.
abbrev pub device_bytes : ℕ → List ℕ → ℕ → ℕ → List ℕ
device_bytes dma_size [] len size = []
device_bytes dma_size (a ∷ rest) len size =
    span a (min len size) ++ device_bytes dma_size rest dma_size (size - min len size)

-- Entries that the DMA mapping gives: not empty, and below the top of the address space.
abbrev pub AreMapped : List Scatter → Type 0
AreMapped [] = Unit {0}
AreMapped (sg ∷ sgs) = (0 < sg.dma_len) × (sg.dma_address + sg.dma_len < 2 ^ 64) × AreMapped sgs

-- `j` full chunks.
abbrev pub times : ℕ → ℕ → ℕ
times zero d = 0
times (suc j) d = d + times j d

pub times-mul : (j d : ℕ) → times j d ≡ d * j
times-mul zero d = grind arith
times-mul (suc j) d = grind (arith, times-mul j d)

-- A positive length in chunks: all but the last one full.
pub record Chunks (size d : ℕ) : Type 0 where
  pub full : ℕ
  pub rest : ℕ
  pub adds_up : size ≡ times full d + rest
  pub rest_positive : 0 < rest
  pub rest_fits : rest ≤ d
  pub rounded_up : (size + d - 1) / d ≡ suc full

-- Adding a divisor adds 1 to the quotient.
div_step : (n d : ℕ) → 0 < d → (n + d) / d ≡ suc (n / d)
div_step n d q =
    grind (arith, Nat.mod-add-div (n + d) d, Nat.mod-add-div n d, Nat.add-mod_right n d)

pub chunks : (size d : ℕ) → 0 < size → 0 < d → Chunks size d
chunks size d p q = record {
  full = (size - 1) / d;
  rest = (size - 1) % d + 1;
  adds_up = omega (arith, Nat.mod-add-div (size - 1) d, times-mul ((size - 1) / d) d);
  rest_positive = omega arith;
  rest_fits = omega (arith, Nat.mod-lt (size - 1) q);
  rounded_up = ap (λ x. x / d) (omega (arith, p)) ∙ div_step (size - 1) d q;
}
