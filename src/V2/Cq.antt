-- ===== src/V2/Cq.antt =====
-- The completion ring as a queue: what the device has posted and the driver has not taken yet.
use mxdriver.Common.{
  ℕ, suc, ◌+◌, ◌-◌, ◌%◌, ◌≡◌, ◌≤◌, ◌<◌, refl, sym, ap, subst, ◌∙◌, arith, true, false, List, [],
  ◌∷◌, ◌++◌, ◌==◌, ltb, if◌then◌else◌, Bool-cases, inl, inr, Option, some, none,
}
use mxdriver.V2.{Completion, RingsV2, set, is_popable, update_cq_doorbell, flip, pop_mx_completion}

-- The `j`-th place from the head on, and the phase of an entry that is new there.
abbrev pub place : ℕ → ℕ → ℕ → ℕ
place depth head j = if ltb (head + j) depth then head + j else head + j - depth

abbrev pub phase_at : ℕ → ℕ → ℕ → ℕ → ℕ
phase_at depth head phase j = if ltb (head + j) depth then phase else flip phase

abbrev pub length : List Completion → ℕ
length [] = 0
length (x ∷ xs) = suc (length xs)

-- The entries from the `j`-th place on are those of the list, each with the phase of a new one.
abbrev pub Entries : (ℕ → Completion) → ℕ → ℕ → ℕ → ℕ → List Completion → Type 0
Entries cqes d h p j [] = Unit {0}
Entries cqes d h p j (x ∷ xs) =
    (cqes (place d h j) ≡ x) × (x.status % 2 ≡ phase_at d h p j) × Entries cqes d h p (j + 1) xs

-- The other entries have the phase of an old one.
abbrev pub Stale : (ℕ → Completion) → ℕ → ℕ → ℕ → ℕ → Type 0
Stale cqes d h p n =
    (j : ℕ) → n ≤ j → j < d → (cqes (place d h j)).status % 2 ≡ flip (phase_at d h p j)

-- `xs` is what waits in the completion ring.
pub record Holds {A : Type 0} (q : RingsV2 A) (xs : List Completion) : Type 0 where
  pub head_in : q.cq_head < q.depth
  pub phase_bit : q.cq_phase ≤ 1
  pub fits : length xs ≤ q.depth
  pub entries : Entries q.cqes q.depth q.cq_head q.cq_phase 0 xs
  pub stale : Stale q.cqes q.depth q.cq_head q.cq_phase (length xs)

-- Where the driver takes one.
abbrev next_head : ℕ → ℕ → ℕ
next_head d h = if h + 1 == d then 0 else h + 1

abbrev next_phase : ℕ → ℕ → ℕ → ℕ
next_phase d h p = if h + 1 == d then flip p else p

place_next : (d h j : ℕ) → h < d → j + 1 < d → place d (next_head d h) j ≡ place d h (j + 1)
place_next d h j a b = ground arith

phase_next :
    (d h p j : ℕ)
    → h < d
    → p ≤ 1
    → j + 1 < d
    → phase_at d (next_head d h) (next_phase d h p) j ≡ phase_at d h p (j + 1)
phase_next d h p j a b c = ground arith

place_last : (d h : ℕ) → h < d → place d (next_head d h) (d - 1) ≡ h
place_last d h a = ground arith

phase_last :
    (d h p : ℕ) → h < d → p ≤ 1 → flip (phase_at d (next_head d h) (next_phase d h p) (d - 1)) ≡ p
phase_last d h p a b = ground arith

Entries-next :
    (cqes : ℕ → Completion) (d h p j : ℕ) (xs : List Completion)
    → h < d
    → p ≤ 1
    → j + length xs < d
    → Entries cqes d h p (j + 1) xs
    → Entries cqes d (next_head d h) (next_phase d h p) j xs
Entries-next cqes d h p j [] a b c e = tt
Entries-next cqes d h p j (x ∷ xs) a b c (e, f, g) = (
  ap cqes (place_next d h j a (omega (arith, c))) ∙ e,
  f ∙ sym (phase_next d h p j a b (omega (arith, c))),
  Entries-next cqes d h p (j + 1) xs a b (omega (arith, c)) g,
)

Stale-next :
    (cqes : ℕ → Completion) (d h p n : ℕ)
    → h < d
    → p ≤ 1
    → n < d
    → (cqes h).status % 2 ≡ p
    → Stale cqes d h p (suc n)
    → Stale cqes d (next_head d h) (next_phase d h p) n
Stale-next cqes d h p n a b c e s j l k = elim (Bool-cases (j + 1 == d)) [
  | inl t ↦
      let z : j ≡ d - 1 = ground arith in
      subst
        (λ i.
          (cqes (place d (next_head d h) i)).status % 2
          ≡ flip (phase_at d (next_head d h) (next_phase d h p) i))
        (sym z) (ap (λ i. (cqes i).status % 2) (place_last d h a) ∙ e ∙ sym (phase_last d h p a b))
  | inr t ↦
      let z : j + 1 < d = ground arith in
      ap (λ i. (cqes i).status % 2) (place_next d h j a z)
      ∙ s (j + 1) (omega (arith, l)) z
      ∙ ap flip (sym (phase_next d h p j a b z))
]

-- Taking the first of the entries.
pub Holds-pop :
    {A : Type 0} (q : RingsV2 A) (x : Completion) (xs : List Completion)
    → Holds q (x ∷ xs)
    → ((pop_mx_completion q).0 ≡ x) × Holds (pop_mx_completion q).1 xs
unfolding pop_mx_completion update_cq_doorbell
Holds-pop q x xs h =
    let (e, f, g) = h.entries in
    let d = q.depth in
    let at_head : place d q.cq_head 0 ≡ q.cq_head = ground (arith, h.head_in) in
    let first : q.cqes q.cq_head ≡ x = ap q.cqes (sym at_head) ∙ e in
    let same : phase_at d q.cq_head q.cq_phase 0 ≡ q.cq_phase = ground (arith, h.head_in) in
    let b : (q.cqes q.cq_head).status % 2 ≡ q.cq_phase = ap (λ y. y.status % 2) first ∙ f ∙ same in
    let next =
      Entries-next q.cqes d q.cq_head q.cq_phase 0 xs h.head_in h.phase_bit (omega (arith, h.fits))
        g in
    let old =
      Stale-next q.cqes d q.cq_head q.cq_phase (length xs) h.head_in h.phase_bit
        (omega (arith, h.fits)) b h.stale in
    (
      first,
      elim (Bool-cases (q.cq_head + 1 == q.depth)) [
        | inl t ↦ rw t (record {
          head_in = omega (arith, h.head_in);
          phase_bit = omega arith;
          fits = omega (arith, h.fits);
          entries = rw t at next;
          stale = rw t at old;
        })
        | inr t ↦ rw t (record {
          head_in = ground (arith, h.head_in);
          phase_bit = h.phase_bit;
          fits = omega (arith, h.fits);
          entries = rw t at next;
          stale = rw t at old;
        })
      ],
    )

Entries-set :
    (cqes : ℕ → Completion) (d h p j n : ℕ) (x : Completion) (xs : List Completion)
    → h < d
    → n < d
    → j + length xs ≤ n
    → Entries cqes d h p j xs
    → Entries (set cqes (place d h n) x) d h p j xs
Entries-set cqes d h p j n x [] a b c e = tt
Entries-set cqes d h p j n x (y ∷ ys) a b c (e, f, g) =
    let o : (place d h j == place d h n) ≡ false = ground (arith, a, b, c) in
    (rw o e, f, Entries-set cqes d h p (j + 1) n x ys a b (omega (arith, c)) g)

Entries-append :
    (cqes : ℕ → Completion) (d h p j : ℕ) (x : Completion) (xs : List Completion)
    → cqes (place d h (j + length xs)) ≡ x
    → x.status % 2 ≡ phase_at d h p (j + length xs)
    → Entries cqes d h p j xs
    → Entries cqes d h p j (xs ++ (x ∷ []))
Entries-append cqes d h p j x [] e f g =
    let z : j + 0 ≡ j = omega arith in
    (ap (λ i. cqes (place d h i)) (sym z) ∙ e, f ∙ ap (phase_at d h p) z, tt)
Entries-append cqes d h p j x (y ∷ ys) e f (a, b, c) =
    let z : j + suc (length ys) ≡ j + 1 + length ys = omega arith in
    (
      a,
      b,
      Entries-append cqes d h p (j + 1) x ys (ap (λ i. cqes (place d h i)) (sym z) ∙ e)
          (f ∙ ap (phase_at d h p) z) c,
    )

length-append : (xs : List Completion) (x : Completion) → length (xs ++ (x ∷ [])) ≡ suc (length xs)
length-append [] x = refl
length-append (y ∷ ys) x = ap suc (length-append ys x)

-- What the device does to post `x` behind the entries `xs`.
abbrev pub post : {A : Type 0} → RingsV2 A → List Completion → Completion → RingsV2 A
post q xs x = record q { cqes = set q.cqes (place q.depth q.cq_head (length xs)) x }

pub Holds-post :
    {A : Type 0} (q : RingsV2 A) (xs : List Completion) (x : Completion)
    → Holds q xs
    → length xs < q.depth
    → x.status % 2 ≡ phase_at q.depth q.cq_head q.cq_phase (length xs)
    → Holds (post q xs x) (xs ++ (x ∷ []))
Holds-post q xs x h l e =
    let d = q.depth in
    let n = length xs in
    let here : (place d q.cq_head (0 + n) == place d q.cq_head n) ≡ true = ground arith in
    record {
      head_in = h.head_in;
      phase_bit = h.phase_bit;
      fits = rw (length-append xs x) l;
      entries =
          Entries-append (set q.cqes (place d q.cq_head n) x) d q.cq_head q.cq_phase 0 x xs
            (rw here refl)
            (subst (λ k. x.status % 2 ≡ phase_at d q.cq_head q.cq_phase k) (omega arith) e)
            (Entries-set q.cqes d q.cq_head q.cq_phase 0 n x xs h.head_in l (omega arith)
              h.entries);
      stale = λ j a b.
          let c : suc n ≤ j = rw (length-append xs x) at a in
          let o : (place d q.cq_head j == place d q.cq_head n) ≡ false =
            ground (arith, h.head_in, c, b, l) in
          rw o (h.stale j (omega (arith, c)) b);
    }

-- The oldest.
abbrev pub next_of : List Completion → Option Completion
next_of [] = none
next_of (x ∷ xs) = some x

-- Seen.
pub Holds-is_popable :
    {A : Type 0} (q : RingsV2 A) (xs : List Completion)
    → Holds q xs
    → (if is_popable true q then some (pop_mx_completion q).0 else none) ≡ next_of xs
unfolding is_popable
Holds-is_popable q [] h =
    let z : place q.depth q.cq_head 0 ≡ q.cq_head = ground (arith, h.head_in) in
    let s = h.stale 0 (omega arith) (omega (arith, h.head_in)) in
    let y : (q.cqes q.cq_head).status % 2 ≡ flip q.cq_phase =
      ap (λ i. (q.cqes i).status % 2) (sym z) ∙ s ∙ ground (arith, h.head_in) in
    let o : ((q.cqes q.cq_head).status % 2 == q.cq_phase) ≡ false =
      ground (arith, y, h.phase_bit) in
    rw o refl
Holds-is_popable q (x ∷ xs) h =
    let (e, f, _) = h.entries in
    let z : place q.depth q.cq_head 0 ≡ q.cq_head = ground (arith, h.head_in) in
    let first : q.cqes q.cq_head ≡ x = ap q.cqes (sym z) ∙ e in
    let y : (q.cqes q.cq_head).status % 2 ≡ q.cq_phase =
      ap (λ c. c.status % 2) first ∙ f ∙ ground (arith, h.head_in) in
    let o : ((q.cqes q.cq_head).status % 2 == q.cq_phase) ≡ true = ground (arith, y) in
    rw o (ap some (Holds-pop q x xs h).0)
