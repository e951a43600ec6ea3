-- ===== src/V2/Sq.antt =====
-- The submission ring as a queue: what the driver has pushed and the device has not reported taken.
use mxdriver.Common.{
  ℕ, suc, ◌+◌, ◌%◌, ◌≡◌, ◌≤◌, ◌<◌, refl, sym, ap, subst, ◌∙◌, arith, true, false, not, List, [],
  ◌∷◌, ◌++◌, ◌==◌, if◌then◌else◌, Bool-cases, inl, inr, ◌↔◌,
}
use native.Mathlib.Nat as Nat
use mxdriver.V2.{RingsV2, set, is_pushable, push_mx_command, update_sq_doorbell}
use mxdriver.V2.Cq.{place}

abbrev pub count : {A : Type 0} → List A → ℕ
count [] = 0
count (x ∷ xs) = suc (count xs)

-- The entries of a ring of depth `d` from its head `h` on are those of the list.
abbrev pub Entries : {A : Type 0} → (ℕ → A) → ℕ → ℕ → ℕ → List A → Type 0
Entries sqes d h j [] = Unit {0}
Entries sqes d h j (x ∷ xs) = (sqes (place d h j) ≡ x) × Entries sqes d h (j + 1) xs

-- `xs` are the commands between the head that the device last reported and the tail. One place
-- stays free.
pub record Submitted {A : Type 0} (q : RingsV2 A) (xs : List A) : Type 0 where
  pub head_in : q.sq_head < q.depth
  pub fits : count xs < q.depth
  pub tail_at : q.sq_tail ≡ place q.depth q.sq_head (count xs)
  pub entries : Entries q.sqes q.depth q.sq_head 0 xs

after_tail : (t d : ℕ) → t < d → (t + 1) % d ≡ (if t + 1 == d then 0 else t + 1)
after_tail t d l = elim (Bool-cases (t + 1 == d)) [
  | inl e ↦ let z : t + 1 ≡ d = ground arith in rw e (ap (λ k. k % d) z ∙ Nat.mod_self d)
  | inr e ↦ let z : t + 1 < d = ground arith in rw e (Nat.mod-eq_of_lt z)
]

room :
    (h n t d : ℕ)
    → h < d
    → n < d
    → t ≡ place d h n
    → (not ((if t + 1 == d then 0 else t + 1) == h) ≡ true) ↔ (n + 1 < d)
room h n t d a b e = ((λ y. ground (arith, e, y)), λ l. ground (arith, e, l))

-- Room.
pub is_pushable-Submitted :
    {A : Type 0} (q : RingsV2 A) (xs : List A)
    → Submitted q xs
    → (is_pushable q ≡ true) ↔ (count xs + 1 < q.depth)
unfolding is_pushable
is_pushable-Submitted q xs s =
    let t : q.sq_tail < q.depth = ground (arith, s.tail_at, s.head_in, s.fits) in
    subst (λ k. (not (k == q.sq_head) ≡ true) ↔ (count xs + 1 < q.depth))
      (sym (after_tail q.sq_tail q.depth t))
      (room q.sq_head (count xs) q.sq_tail q.depth s.head_in s.fits s.tail_at)

Entries-set :
    {A : Type 0} (sqes : ℕ → A) (d h j n : ℕ) (x : A) (xs : List A)
    → h < d
    → n < d
    → j + count xs ≤ n
    → Entries sqes d h j xs
    → Entries (set sqes (place d h n) x) d h j xs
Entries-set sqes d h j n x [] a b c e = tt
Entries-set sqes d h j n x (y ∷ ys) a b c (e, g) =
    let o : (place d h j == place d h n) ≡ false = ground (arith, a, b, c) in
    (rw o e, Entries-set sqes d h (j + 1) n x ys a b (omega (arith, c)) g)

Entries-append :
    {A : Type 0} (sqes : ℕ → A) (d h j : ℕ) (x : A) (xs : List A)
    → sqes (place d h (j + count xs)) ≡ x
    → Entries sqes d h j xs
    → Entries sqes d h j (xs ++ (x ∷ []))
Entries-append sqes d h j x [] e g =
    let z : j + 0 ≡ j = omega arith in (ap (λ i. sqes (place d h i)) (sym z) ∙ e, tt)
Entries-append sqes d h j x (y ∷ ys) e (a, c) =
    let z : j + suc (count ys) ≡ j + 1 + count ys = omega arith in
    (a, Entries-append sqes d h (j + 1) x ys (ap (λ i. sqes (place d h i)) (sym z) ∙ e) c)

count-append : {A : Type 0} (xs : List A) (x : A) → count (xs ++ (x ∷ [])) ≡ suc (count xs)
count-append [] x = refl
count-append (y ∷ ys) x = ap suc (count-append ys x)

-- Where is_pushable holds on a submission ring whose entries between the head that the device
-- last reported and the tail are some commands, after push_mx_command the entries between them
-- are those commands, in order, and then the new one.
pub push_mx_command-Submitted :
    {A : Type 0} (q : RingsV2 A) (xs : List A) (comm : A)
    → Submitted q xs
    → is_pushable q ≡ true
    → Submitted (push_mx_command comm q) (xs ++ (comm ∷ []))
unfolding push_mx_command update_sq_doorbell
push_mx_command-Submitted q xs comm s p =
    let r : count xs + 1 < q.depth = (is_pushable-Submitted q xs s).0 p in
    let d = q.depth in
    let h = q.sq_head in
    let n = count xs in
    let here : (place d h (0 + n) == q.sq_tail) ≡ true = ground (arith, s.tail_at) in
    let others : Entries (set q.sqes q.sq_tail comm) d h 0 xs =
      subst (λ t. Entries (set q.sqes t comm) d h 0 xs) (sym s.tail_at)
        (Entries-set q.sqes d h 0 n comm xs s.head_in s.fits (omega arith) s.entries) in
    let all : Entries (set q.sqes q.sq_tail comm) d h 0 (xs ++ (comm ∷ [])) =
      Entries-append (set q.sqes q.sq_tail comm) d h 0 comm xs (rw here refl) others in
    let l = count-append xs comm in
    elim (Bool-cases (q.sq_tail + 1 == d)) [
      | inl e ↦ rw e (record {
        head_in = s.head_in;
        fits = rw l (omega (arith, r));
        tail_at = rw l (ground (arith, s.tail_at, s.head_in, r));
        entries = all;
      })
      | inr e ↦ rw e (record {
        head_in = s.head_in;
        fits = rw l (omega (arith, r));
        tail_at = rw l (ground (arith, s.tail_at, s.head_in, r));
        entries = all;
      })
    ]
