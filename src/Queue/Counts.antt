-- ===== src/Queue/Counts.antt =====
-- Counting the transfers of a queue, and what changing or taking out one of them does to a count.
use mxdriver.Common.{
  ℕ, ◌+◌, ◌≡◌, refl, subst, arith, Bool, true, false, ◌&&◌, some, List, [], ◌∷◌, ◌++◌, inl, inr,
  Bool-cases, to_nat,
}
use mxdriver.Queue.{Transfer, find, update, remove}

abbrev pub count : (Transfer → Bool) → List Transfer → ℕ
count c [] = 0
count c (t ∷ ts) = to_nat (c t) + count c ts

abbrev pub all : (Transfer → Bool) → List Transfer → Bool
all c [] = true
all c (t ∷ ts) = c t && all c ts

pub count-append :
    (c : Transfer → Bool) (ts : List Transfer) (t : Transfer)
    → count c (ts ++ (t ∷ [])) ≡ count c ts + to_nat (c t)
count-append c [] t = omega arith
count-append c (x ∷ ts) t = omega (arith, count-append c ts t)

pub and_left : (a b : Bool) → (a && b) ≡ true → a ≡ true
and_left true b e = refl
and_left false b e = absurd (cc e)

pub and_right : (a b : Bool) → (a && b) ≡ true → b ≡ true
and_right true b e = e
and_right false b e = absurd (cc e)

pub and_both : (a b : Bool) → a ≡ true → b ≡ true → (a && b) ≡ true
and_both a b e f = rw (e, f) refl

pub all-append :
    (c : Transfer → Bool) (ts : List Transfer) (t : Transfer)
    → all c ts ≡ true
    → c t ≡ true
    → all c (ts ++ (t ∷ [])) ≡ true
all-append c [] t a e = and_both (c t) true e refl
all-append c (x ∷ ts) t a e =
    and_both (c x) (all c (ts ++ (t ∷ []))) (and_left (c x) (all c ts) a)
      (all-append c ts t (and_right (c x) (all c ts) a) e)

pub found :
    (p c : Transfer → Bool) (ts : List Transfer) (t : Transfer)
    → find p ts ≡ some t
    → all c ts ≡ true
    → (p t ≡ true) × (c t ≡ true)
found p c [] t e a = absurd (cc e)
found p c (x ∷ ts) t e a = elim (Bool-cases (p x)) [
  | inl y ↦
      let z : x ≡ t = cc (rw y at e) in
      (subst (λ v. p v ≡ true) z y, subst (λ v. c v ≡ true) z (and_left (c x) (all c ts) a))
  | inr n ↦ found p c ts t (rw n at e) (and_right (c x) (all c ts) a)
]

pub count-update :
    (p c : Transfer → Bool) (f : Transfer → Transfer) (ts : List Transfer) (t : Transfer)
    → find p ts ≡ some t
    → count c (update p f ts) + to_nat (c t) ≡ count c ts + to_nat (c (f t))
count-update p c f [] t e = absurd (cc e)
count-update p c f (x ∷ ts) t e = elim (Bool-cases (p x)) [
  | inl y ↦ let z : x ≡ t = cc (rw y at e) in rw (y, z) (omega arith)
  | inr n ↦ rw n (omega (arith, count-update p c f ts t (rw n at e)))
]

pub all-update :
    (p c : Transfer → Bool) (f : Transfer → Transfer) (ts : List Transfer) (t : Transfer)
    → find p ts ≡ some t
    → all c ts ≡ true
    → c (f t) ≡ true
    → all c (update p f ts) ≡ true
all-update p c f [] t e a g = absurd (cc e)
all-update p c f (x ∷ ts) t e a g = elim (Bool-cases (p x)) [
  | inl y ↦
      let z : x ≡ t = cc (rw y at e) in
      rw (y, z) (and_both (c (f t)) (all c ts) g (and_right (c x) (all c ts) a))
  | inr n ↦ rw n (
      and_both (c x) (all c (update p f ts)) (and_left (c x) (all c ts) a)
        (all-update p c f ts t (rw n at e) (and_right (c x) (all c ts) a) g))
]

pub count-remove :
    (p c : Transfer → Bool) (ts : List Transfer) (t : Transfer)
    → find p ts ≡ some t
    → count c (remove p ts) + to_nat (c t) ≡ count c ts
count-remove p c [] t e = absurd (cc e)
count-remove p c (x ∷ ts) t e = elim (Bool-cases (p x)) [
  | inl y ↦ let z : x ≡ t = cc (rw y at e) in rw (y, z) (omega arith)
  | inr n ↦ rw n (omega (arith, count-remove p c ts t (rw n at e)))
]

pub all-remove :
    (p c : Transfer → Bool) (ts : List Transfer) → all c ts ≡ true → all c (remove p ts) ≡ true
all-remove p c [] a = refl
all-remove p c (x ∷ ts) a = elim (Bool-cases (p x)) [
  | inl y ↦ rw y (and_right (c x) (all c ts) a)
  | inr n ↦ rw n (
      and_both (c x) (all c (remove p ts)) (and_left (c x) (all c ts) a)
        (all-remove p c ts (and_right (c x) (all c ts) a)))
]
