-- ===== src/Mbox/Index.antt =====
-- get_next_index: what it does to the position and to the phase.
use mxdriver.Common.{
  ℕ, zero, suc, ◌+◌, ◌-◌, ◌*◌, ◌%◌, ◌^◌, ◌≤◌, ◌<◌, ◌≡◌, refl, Bool, true, ◌&&◌, arith, ◌==◌, leb,
  nonzero, inl, inr, ◌⊎◌, if◌then◌else◌, u32, ap, ◌∙◌,
}
use Prim.Native.Nat.{bit_and}
use native.Mathlib.Nat as Nat
use mxdriver.Mbox.{get_next_index, advance, index_of, phase_of}

-- A test on all numbers below a bound.
every : ℕ → (ℕ → Bool) → Bool
every zero p = true
every (suc n) p = p n && every n p

every_lem : (n : ℕ) (p : ℕ → Bool) (x : ℕ) → every n p ≡ true → x < n → p x ≡ true
unfolding every
every_lem zero p x h lt = absurd (omega arith)
every_lem (suc n) p x h lt = ground (arith, every_lem n p x)

masks : every 8 (λ q. every 256 (λ n. bit_and n (2 ^ q - 1) == n % (2 ^ q))) ≡ true
unfolding every
masks = refl

mask : (q n : ℕ) → q < 8 → n < 256 → bit_and n (2 ^ q - 1) ≡ n % (2 ^ q)
mask q n a b =
    let h : (bit_and n (2 ^ q - 1) == n % (2 ^ q)) ≡ true =
      every_lem 256 _ n (every_lem 8 _ q masks a) b in
    ground (arith, h)

pows : every 8 (λ q. leb (2 ^ q) 128 && leb 1 (2 ^ q)) ≡ true
unfolding every
pows = refl

pub pow_bounds : (q : ℕ) → q < 8 → (1 ≤ 2 ^ q) × (2 ^ q ≤ 128)
pow_bounds q a =
    let h : (leb (2 ^ q) 128 && leb 1 (2 ^ q)) ≡ true = every_lem 8 _ q pows a in ground (arith, h)

lt_or_ge : (x d : ℕ) → (x < d) ⊎ (d ≤ x)
lt_or_ge x d = ground arith

mod_once : (x d : ℕ) → x < d + d → ((x < d) × (x % d ≡ x)) ⊎ ((d ≤ x) × (x % d ≡ x - d))
mod_once x d h = elim (lt_or_ge x d) [
  | inl a ↦ inl (a, Nat.mod-eq_of_lt a)
  | inr a ↦ inr (a, Nat.mod-eq-sub-mod a ∙ Nat.mod-eq_of_lt (omega arith))
]

-- The next position.
Stays : ℕ → ℕ → ℕ → ℕ → Type 0
Stays i count d next =
    ((i + count < d) × (next ≡ i + count)) ⊎ ((d ≤ i + count) × (next ≡ i + count - d))

advance_lem :
    (q i count : ℕ)
    → q < 8
    → i < 2 ^ q
    → count ≤ 2 ^ q
    → Stays i count (2 ^ q) (advance i count (2 ^ q))
unfolding Stays advance
advance_lem q i count a b c =
    let (lo, hi) = pow_bounds q a in
    let m : bit_and (u32 (i + count)) (u32 (2 ^ q + 2 ^ 32 - 1)) ≡ (i + count) % (2 ^ q) =
      ap (bit_and (u32 (i + count))) (omega (arith, lo, hi))
      ∙ ap (λ x. bit_and x (2 ^ q - 1)) (omega (arith, hi, b, c))
      ∙ mask q (i + count) a (omega (arith, hi, b, c)) in
    elim (mod_once (i + count) (2 ^ q) (omega arith)) [
      | inl (x, y) ↦ inl (x, ap (λ z. z % 128) (m ∙ y) ∙ omega (arith, x, hi))
      | inr (x, y) ↦ inr (x, ap (λ z. z % 128) (m ∙ y) ∙ omega (arith, x, hi, b, c))
    ]

-- The index as a counter of the words that passed, modulo twice the depth.
unfoldable pub position : ℕ → ℕ → ℕ
unfolding index_of phase_of
position d full = index_of full + (if phase_of full == 0 then 0 else d)

unfoldable pub IsIndex : ℕ → ℕ → Type 0
unfolding index_of
IsIndex d full = (full < 256) × (index_of full < d)

-- get_next_index moves that counter by `count`.
unfoldable pub Moved : ℕ → ℕ → ℕ → ℕ → Type 0
unfolding position
Moved d full count next =
    ((position d full + count < d + d) × (position d next ≡ position d full + count))
    ⊎ ((d + d ≤ position d full + count) × (position d next ≡ position d full + count - (d + d)))

packed :
    (d full count next : ℕ)
    → d ≤ 128
    → IsIndex d full
    → count ≤ d
    → Stays (index_of full) count d next
    → let n =
        next
        + 128
          * (if nonzero count && leb next (index_of full)
              then 1 - phase_of full
              else phase_of full) in
      IsIndex d n × Moved d full count n
unfolding IsIndex Moved position Stays index_of phase_of
packed d full count next a b c s = ground arith

-- Where the depth is a power of two below 256, the position is below the depth and the count is
-- at most the depth, get_next_index keeps the position below the depth and adds the count, modulo
-- twice the depth, to the counter that position and phase stand for.
pub get_next_index-Moved :
    (q full count : ℕ)
    → q < 8
    → IsIndex (2 ^ q) full
    → count ≤ 2 ^ q
    → IsIndex (2 ^ q) (get_next_index full count (2 ^ q))
      × Moved (2 ^ q) full count (get_next_index full count (2 ^ q))
unfolding get_next_index IsIndex
get_next_index-Moved q full count a b c =
    packed (2 ^ q) full count (advance (index_of full) count (2 ^ q)) (pow_bounds q a).1 b c
      (advance_lem q (index_of full) count a b.1 c)
