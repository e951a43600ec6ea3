-- ===== src/Desc/Count.antt =====
-- mx_get_list_count against what its lists hold.
use mxdriver.Common.{
  ℕ, zero, suc, ◌+◌, ◌-◌, ◌*◌, ◌≤◌, ◌<◌, int_max, u32, ◌≡◌, refl, ap, ◌∙◌, some, Option, arith, ltb,
  Bool-cases, inl, inr, ◌⊎◌,
}
use native.Mathlib.Nat as Nat
use mxdriver.Desc.{count_lists, mx_get_list_count}

-- How many descriptors `count` chained lists hold.
abbrev pub capacity : ℕ → ℕ → ℕ
capacity per zero = 0
capacity per (suc zero) = per
capacity per (suc (suc n)) = (per - 1) + capacity per (suc n)

-- The lists of a run that has counted `n` more of them.
record Fits (total per count : ℕ) (result : Option ℕ) : Type 0 where
  more : ℕ
  counted : result ≡ some (count + more)
  within : count + more ≤ int_max
  holds : total ≤ capacity per (suc more)
  needed : (more ≡ 0) ⊎ (capacity per more < total)

needs :
    (per total n : ℕ)
    → 2 ≤ per
    → per < total
    → (n ≡ 0) ⊎ (capacity per n < total - (per - 1))
    → capacity per (suc n) < total
needs per total zero b lt e = lt
needs per total (suc n) b lt (inl e) = absurd (cc e)
needs per total (suc n) b lt (inr e) = omega (arith, e)

-- What `n` lists hold in all: each but one gives an entry to the next.
capacity_lem : (per n : ℕ) → 1 < per → capacity per (suc n) ≡ suc n * (per - 1) + 1
capacity_lem per zero b = omega arith
capacity_lem per (suc n) b = omega (arith, capacity_lem per n b, Nat.suc-mul (suc n) (per - 1))

-- `left` more lists can be counted below INT_MAX.
count_lists-Fits :
    (fuel total per count left : ℕ)
    → 2 ≤ per
    → total < fuel
    → count + left ≡ int_max
    → total ≤ capacity per (suc left)
    → Fits total per count (count_lists fuel total per count)
unfolding count_lists
count_lists-Fits zero total per count left b f m c = absurd (omega arith)
count_lists-Fits (suc fuel) total per count zero b f m c = elim (Bool-cases (ltb per total)) [
  | inr e ↦ rw e (record {
    more = 0;
    counted = ap some (omega arith);
    within = omega (arith, m);
    holds = ground arith;
    needed = inl refl;
  })
  | inl e ↦ absurd (ground (arith, e, c))
]
count_lists-Fits (suc fuel) total per count (suc left) b f m c = elim (Bool-cases (ltb per total)) [
  | inr e ↦ rw e (record {
    more = 0;
    counted = ap some (omega arith);
    within = omega (arith, m);
    holds = ground arith;
    needed = inl refl;
  })
  | inl e ↦
      let lt : per < total = ground arith in
      let r =
        count_lists-Fits fuel (total - (per - 1)) per (count + 1) left b (omega arith)
          (omega (arith, m)) (omega (arith, c)) in
      let w : u32 (count + 1) ≡ count + 1 = omega (arith, m) in
      rw (e, w)
        (record {
          more = suc r.more;
          counted = r.counted ∙ ap some (omega arith);
          within = omega (arith, r.within);
          holds = omega (arith, r.holds, lt);
          needed = inr (needs per total r.more b lt r.needed);
        })
]

first_list :
    (fuel total per left : ℕ)
    → 2 ≤ per
    → total < fuel
    → suc left ≡ int_max
    → total ≤ suc left * (per - 1) + 1
    → Fits total per 1 (count_lists fuel total per 1)
first_list fuel total per left b f m c =
    count_lists-Fits fuel total per 1 left b f (omega (arith, m))
      (omega (arith, capacity_lem per left b, c))

-- With at least two entries to a list, more fuel than there are descriptors, and no more of these
-- than INT_MAX lists hold, mx_get_list_count returns, its int does not overflow, and what it
-- returns is at least one and the least number of lists that hold the descriptors, each list but
-- the last holding one fewer than its entries.
pub mx_get_list_count-least :
    (fuel total per : ℕ)
    → 2 ≤ per
    → total < fuel
    → total ≤ int_max * (per - 1) + 1
    → (n : ℕ) × (mx_get_list_count fuel total per ≡ some (suc n))
      × (suc n ≤ int_max)
      × (total ≤ capacity per (suc n))
      × ((n ≡ 0) ⊎ (capacity per n < total))
unfolding mx_get_list_count
mx_get_list_count-least fuel total per b f c =
    let r = first_list fuel total per 2147483646 b f refl c in
    (r.more, r.counted ∙ ap some (omega arith), omega (arith, r.within), r.holds, r.needed)
