-- ===== src/Bar/Counts.antt =====
-- The VMAs in the list of mappings, and the counts that are kept of them.
use mxdriver.Common.{
  ℕ, zero, suc, ◌+◌, ◌-◌, ◌≡◌, ◌≤◌, ◌<◌, refl, sym, ap, ◌∙◌, arith, Bool, true, false, ◌==◌, ltb,
  if◌then◌else◌, Bool-cases, inl, inr, Option, none, List, [], ◌∷◌, u32, u32_max,
}
use native.Mathlib.Nat as Nat
use mxdriver.Mbox.{Mbox}
use mxdriver.Bar.{
  BarVma, set, is_there, refs_at, refer, unrefer, owner_at, drop_at, any_registered, clear,
}

-- The VMAs, and the mmap() objects of a descriptor.
abbrev pub refs_sum : List BarVma → ℕ
refs_sum [] = 0
refs_sum (v ∷ vs) = v.refs + refs_sum vs

abbrev pub owned : ℕ → List BarVma → ℕ
owned c [] = 0
owned c (v ∷ vs) = (if v.owner_ctx == c then 1 else 0) + owned c vs

abbrev pub is_at : ℕ → List BarVma → Bool
is_at i [] = false
is_at zero (v ∷ vs) = true
is_at (suc i) (v ∷ vs) = is_at i vs

pub refs_at-le : (i : ℕ) (vs : List BarVma) → refs_at i vs ≤ refs_sum vs
refs_at-le i [] = omega arith
refs_at-le zero (v ∷ vs) = omega arith
refs_at-le (suc i) (v ∷ vs) = let l = refs_at-le i vs in omega (arith, l)

pub refs_sum-refer :
    (i : ℕ) (vs : List BarVma) → 0 < refs_at i vs → refs_sum (refer i vs) ≡ refs_sum vs + 1
refs_sum-refer i [] l = ground (arith, l)
refs_sum-refer zero (v ∷ vs) l = omega arith
refs_sum-refer (suc i) (v ∷ vs) l = let e = refs_sum-refer i vs l in omega (arith, e)

pub refs_sum-unrefer :
    (i : ℕ) (vs : List BarVma) → 0 < refs_at i vs → refs_sum (unrefer i vs) + 1 ≡ refs_sum vs
refs_sum-unrefer i [] l = ground (arith, l)
refs_sum-unrefer zero (v ∷ vs) l = omega (arith, l)
refs_sum-unrefer (suc i) (v ∷ vs) l = let e = refs_sum-unrefer i vs l in omega (arith, e)

pub owned-refer : (c i : ℕ) (vs : List BarVma) → owned c (refer i vs) ≡ owned c vs
owned-refer c i [] = refl
owned-refer c zero (v ∷ vs) = refl
owned-refer c (suc i) (v ∷ vs) =
    ap (λ n. (if v.owner_ctx == c then 1 else 0) + n) (owned-refer c i vs)

pub owned-unrefer : (c i : ℕ) (vs : List BarVma) → owned c (unrefer i vs) ≡ owned c vs
owned-unrefer c i [] = refl
owned-unrefer c zero (v ∷ vs) = refl
owned-unrefer c (suc i) (v ∷ vs) =
    ap (λ n. (if v.owner_ctx == c then 1 else 0) + n) (owned-unrefer c i vs)

pub refs_sum-drop_at :
    (i : ℕ) (vs : List BarVma) → refs_at i vs ≡ 0 → refs_sum (drop_at i vs) ≡ refs_sum vs
refs_sum-drop_at i [] e = refl
refs_sum-drop_at zero (v ∷ vs) e = omega (arith, e)
refs_sum-drop_at (suc i) (v ∷ vs) e = ap (λ n. v.refs + n) (refs_sum-drop_at i vs e)

pub owned-drop_at :
    (c i : ℕ) (vs : List BarVma)
    → is_at i vs ≡ true
    → (if owner_at i vs == c then 1 else 0) + owned c (drop_at i vs) ≡ owned c vs
owned-drop_at c i [] e = cc
owned-drop_at c zero (v ∷ vs) e = refl
owned-drop_at c (suc i) (v ∷ vs) e = let z = owned-drop_at c i vs e in omega (arith, z)

pub u32-small : (n : ℕ) → n < u32_max → u32 (n + 1) ≡ n + 1
u32-small n l = Nat.mod-eq_of_lt (omega (arith, l))

pub charge :
    (f : ℕ → ℕ) (o c m n : ℕ)
    → f c ≡ n
    → (if o == c then 1 else 0) + m ≡ n
    → set f o (f o - 1) c ≡ m
charge f o c m n e g = elim (Bool-cases (c == o)) [
  | inl t ↦
      let z : c ≡ o = ground (arith, t) in
      let u : (o == c) ≡ true = ground (arith, z) in
      let h : f o ≡ n = ap f (sym z) ∙ e in
      let k : 1 + m ≡ n = rw u at g in rw t (omega (arith, h, k))
  | inr t ↦
      let u : (o == c) ≡ false = ground (arith, t) in
      let k : 0 + m ≡ n = rw u at g in rw t (omega (arith, e, k))
]

pub charge_more :
    (f : ℕ → ℕ) (o c n : ℕ)
    → f c ≡ n
    → f o ≤ u32_max
    → (f o == u32_max) ≡ false
    → set f o (u32 (f o + 1)) c ≡ (if o == c then 1 else 0) + n
charge_more f o c n e l g =
    let s : u32 (f o + 1) ≡ f o + 1 = u32-small (f o) (ground (arith, l, g)) in
    elim (Bool-cases (c == o)) [
      | inl t ↦
          let z : c ≡ o = ground (arith, t) in
          let u : (o == c) ≡ true = ground (arith, z) in
          let h : f o ≡ n = ap f (sym z) ∙ e in rw (t, u) (s ∙ omega (arith, h))
      | inr t ↦ let u : (o == c) ≡ false = ground (arith, t) in rw (t, u) (omega (arith, e))
    ]

pub pin_down : (n : ℕ) (m : Option ℕ) → is_there (if n == 0 then none else m) ≡ true → 0 < n
pin_down n m e = ground (arith, e)

pub clear-none :
    (n m : ℕ) (slots : ℕ → Option Mbox) → n ≤ m → any_registered n (clear m slots) ≡ false
clear-none zero m slots l = refl
clear-none (suc n) m slots l =
    let z = clear-none n m slots (omega (arith, l)) in
    let t : ltb n m ≡ true = ground (arith, l) in rw t z

pub lowered : (f : ℕ → ℕ) (o c : ℕ) → ((d : ℕ) → f d ≤ u32_max) → set f o (f o - 1) c ≤ u32_max
lowered f o c b = elim (Bool-cases (c == o)) [
  | inl t ↦ let l = b o in rw t (omega (arith, l))
  | inr t ↦ rw t (b c)
]

pub raised : (f : ℕ → ℕ) (o c : ℕ) → ((d : ℕ) → f d ≤ u32_max) → set f o (u32 (f o + 1)) c ≤ u32_max
raised f o c b = elim (Bool-cases (c == o)) [ inl t ↦ rw t (omega arith) | inr t ↦ rw t (b c) ]
