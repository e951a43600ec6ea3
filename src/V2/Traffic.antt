-- ===== src/V2/Traffic.antt =====
-- What the driver sees of a completion ring after any traffic.
use mxdriver.Common.{
  ◌+◌, ◌%◌, ◌≡◌, ◌<◌, arith, true, List, [], ◌∷◌, ◌++◌, ◌==◌, if◌then◌else◌, Bool-cases, inl, inr,
  some, none,
}
use mxdriver.V2.{
  Completion, RingsV2, is_popable, pop_mx_completion, configure_queue, push_mx_command,
  ring_sq_doorbell, ring_cq_doorbell, update_sq_doorbell,
}
use mxdriver.V2.Cq.{Holds, phase_at, length, post, next_of, Holds-pop, Holds-post, Holds-is_popable}

-- A ring after any traffic: the driver configures it, pushes commands, rings the doorbells and takes
-- the completions that it sees, and the device posts completions in order, with the phase of its
-- round, and never more than fit. `xs` are those posted and not yet taken.
abbrev pub tail : List Completion → List Completion
tail [] = []
tail (x ∷ xs) = xs

pub data Traffic {A : Type 0} : RingsV2 A → List Completion → Type 0 where
  configured :
      (zero_command : A) (q : RingsV2 A) → 0 < q.depth → Traffic (configure_queue zero_command q) []
  posted :
      (q : RingsV2 A) (xs : List Completion) (x : Completion)
      → Traffic q xs
      → length xs < q.depth
      → x.status % 2 ≡ phase_at q.depth q.cq_head q.cq_phase (length xs)
      → Traffic (post q xs x) (xs ++ (x ∷ []))
  taken :
      (q : RingsV2 A) (xs : List Completion)
      → Traffic q xs
      → is_popable true q ≡ true
      → Traffic (pop_mx_completion q).1 (tail xs)
  pushed :
      (comm : A) (q : RingsV2 A) (xs : List Completion)
      → Traffic q xs
      → Traffic (push_mx_command comm q) xs
  sq_rung : (q : RingsV2 A) (xs : List Completion) → Traffic q xs → Traffic (ring_sq_doorbell q) xs
  cq_rung : (q : RingsV2 A) (xs : List Completion) → Traffic q xs → Traffic (ring_cq_doorbell q) xs

configured-Holds :
    {A : Type 0} (zero_command : A) (q : RingsV2 A)
    → 0 < q.depth
    → Holds (configure_queue zero_command q) []
unfolding configure_queue
configured-Holds zero_command q p = record {
  head_in = p;
  phase_bit = omega arith;
  fits = omega arith;
  entries = tt;
  stale = λ j a b. ground (arith, b);
}

pushed-Holds :
    {A : Type 0} (comm : A) (q : RingsV2 A) (xs : List Completion)
    → Holds q xs
    → Holds (push_mx_command comm q) xs
unfolding push_mx_command update_sq_doorbell
pushed-Holds comm q xs h = elim (Bool-cases (q.sq_tail + 1 == q.depth)) [
  | inl e ↦ rw e (record {
    head_in = h.head_in;
    phase_bit = h.phase_bit;
    fits = h.fits;
    entries = h.entries;
    stale = h.stale;
  })
  | inr e ↦ rw e (record {
    head_in = h.head_in;
    phase_bit = h.phase_bit;
    fits = h.fits;
    entries = h.entries;
    stale = h.stale;
  })
]

sq_rung-Holds :
    {A : Type 0} (q : RingsV2 A) (xs : List Completion) → Holds q xs → Holds (ring_sq_doorbell q) xs
unfolding ring_sq_doorbell
sq_rung-Holds q xs h = elim (Bool-cases (q.last_sq_tail == q.sq_tail)) [
  | inl e ↦ rw e (h)
  | inr e ↦ rw e (record {
    head_in = h.head_in;
    phase_bit = h.phase_bit;
    fits = h.fits;
    entries = h.entries;
    stale = h.stale;
  })
]

cq_rung-Holds :
    {A : Type 0} (q : RingsV2 A) (xs : List Completion) → Holds q xs → Holds (ring_cq_doorbell q) xs
unfolding ring_cq_doorbell
cq_rung-Holds q xs h = elim (Bool-cases (q.last_cq_head == q.cq_head)) [
  | inl e ↦ rw e (h)
  | inr e ↦ rw e (record {
    head_in = h.head_in;
    phase_bit = h.phase_bit;
    fits = h.fits;
    entries = h.entries;
    stale = h.stale;
  })
]

taken-Holds :
    {A : Type 0} (q : RingsV2 A) (xs : List Completion)
    → Holds q xs
    → is_popable true q ≡ true
    → Holds (pop_mx_completion q).1 (tail xs)
taken-Holds q [] h e = absurd (cc (rw e at (Holds-is_popable q [] h)))
taken-Holds q (x ∷ xs) h e = (Holds-pop q x xs h).1

Traffic-Holds : {A : Type 0} (q : RingsV2 A) (xs : List Completion) → Traffic q xs → Holds q xs
Traffic-Holds _ _ (configured zero_command q p) = configured-Holds zero_command q p
Traffic-Holds _ _ (posted q xs x t l e) = Holds-post q xs x (Traffic-Holds q xs t) l e
Traffic-Holds _ _ (taken q xs t e) = taken-Holds q xs (Traffic-Holds q xs t) e
Traffic-Holds _ _ (pushed comm q xs t) = pushed-Holds comm q xs (Traffic-Holds q xs t)
Traffic-Holds _ _ (sq_rung q xs t) = sq_rung-Holds q xs (Traffic-Holds q xs t)
Traffic-Holds _ _ (cq_rung q xs t) = cq_rung-Holds q xs (Traffic-Holds q xs t)

-- After any traffic on the rings of a queue (the driver configures it, pushes commands, rings the
-- doorbells and takes the completions it sees; the device posts completions in order, each with
-- the phase of its round, never more than fit), a busy driver sees a completion just where one is
-- posted and not yet taken, and it is the oldest of these.
pub Traffic-is_popable :
    {A : Type 0} (q : RingsV2 A) (xs : List Completion)
    → Traffic q xs
    → (if is_popable true q then some (pop_mx_completion q).0 else none) ≡ next_of xs
Traffic-is_popable q xs t = Holds-is_popable q xs (Traffic-Holds q xs t)
