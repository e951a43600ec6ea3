-- ===== src/Lease/World/Exclusion.antt =====
-- What soundness of the whole device excludes, for any two descriptors of it.
use mxdriver.Common.{
  ℕ, zero, suc, ◌<◌, ◌≡◌, ◌≢◌, refl, ap, ◌∙◌, false, none, some, List, [], ◌∷◌, arith, get_elem?,
  ◌⊎◌,
}
use mathlib.Core.Option.{some-injective}
use mxdriver.Lease.Uapi.{quiescent, workload, no_family}
use mxdriver.Lease.Sm.{Sm, Holder, is_publisher, profile_family}
use mxdriver.Lease.Sm.Tally.{Tally, others, plus, weigh, tally-others}
use mxdriver.Lease.Sm.Account.{Keeps}
use mxdriver.Lease.Device.{FileCtx}
use mxdriver.Lease.Acquire.Laws.{IsSound}
use mxdriver.Lease.Context.{mx_lease_direct_begin}
use mxdriver.Lease.Context.Laws.{direct_begin_refused}
use mxdriver.Lease.World.{World, Step, initial, run}
use mxdriver.Lease.World.Sound.{holders, IsSoundWorld, IsSound-at, get_elem?-holders}
use mxdriver.Lease.World.Steps.{run-initial-IsSoundWorld}

-- A descriptor is one of the others of any other.
abbrev Covers : Holder → Tally → Type 0
Covers h t = (rest : Tally) × (t ≡ plus (weigh h) rest)

swap_weights : (a b c : Tally) → plus a (plus b c) ≡ plus b (plus a c)
swap_weights a b c = ground arith

others-Covers :
    (hs : List Holder) (i j : ℕ) (h : Holder)
    → i ≢ j
    → get_elem? hs j ≡ some h
    → Covers h (others hs i)
unfolding others
others-Covers [] i j h n e = absurd (cc e)
others-Covers (x ∷ hs) zero zero h n e = absurd (n refl)
others-Covers (x ∷ hs) zero (suc j) h n e = (others hs j, tally-others hs j h e)
others-Covers (x ∷ hs) (suc i) zero h n e =
    (others hs i, ap (λ y. plus (weigh y) (others hs i)) (some-injective _ _ e))
others-Covers (x ∷ hs) (suc i) (suc j) h n e =
    let (rest, q) = others-Covers hs i j h (λ m. n (ap suc m)) e in
    (plus (weigh x) rest, ap (plus (weigh x)) q ∙ swap_weights (weigh x) (weigh h) rest)

-- The device as one descriptor sees it, with another one told apart.
IsSound-pair :
    (w : World) (i j : ℕ) (c d : FileCtx)
    → IsSoundWorld w
    → i ≢ j
    → get_elem? w.ctxs i ≡ some c
    → get_elem? w.ctxs j ≡ some d
    → (rest : Tally) × IsSound w.lease c (plus (weigh d.lease) rest)
IsSound-pair w i j c d s n e f =
    let (rest, q) = others-Covers (holders w.ctxs) i j d.lease n (get_elem?-holders w.ctxs j d f) in
    (rest, rw q at (IsSound-at w i c s e))

beside_quiescent :
    (sm : Sm) (h d : Holder) (rest : Tally)
    → Keeps sm h (plus (weigh d) rest)
    → d.phase ≡ quiescent
    → (h.phase ≢ workload)
      × (is_publisher h.profile ≡ false)
      × (h.legacy ≡ false)
      × (0 < (plus (weigh d) rest).quiescing)
beside_quiescent sm h d rest k q = ground arith

beside_held :
    (sm : Sm) (h d : Holder) (rest : Tally)
    → Keeps sm h (plus (weigh d) rest)
    → profile_family h.profile ≢ no_family
    → profile_family d.profile ≢ no_family
    → (profile_family h.profile ≡ profile_family d.profile)
      × ((is_publisher h.profile ≡ false) ⊎ (is_publisher d.profile ≡ false))
      × (h.legacy ≡ false)
      × (d.legacy ≡ false)
beside_held sm h d rest k p q = ground arith

-- After any steps from a freshly initialised device, while one descriptor is quiescent no other
-- descriptor is in its workload phase, publishes or is a legacy user, and mx_lease_direct_begin
-- admits no call of another.
pub quiescent_alone :
    (incarnation : ℕ) (ss : List Step) (i j : ℕ) (c d : FileCtx)
    → i ≢ j
    → get_elem? (run (initial incarnation) ss).ctxs i ≡ some c
    → get_elem? (run (initial incarnation) ss).ctxs j ≡ some d
    → d.lease.phase ≡ quiescent
    → (c.lease.phase ≢ workload)
      × (is_publisher c.lease.profile ≡ false)
      × (c.lease.legacy ≡ false)
      × ((mx_lease_direct_begin (run (initial incarnation) ss).lease c).0 ≢ none)
quiescent_alone incarnation ss i j c d n e f q =
    let w = run (initial incarnation) ss in
    let (rest, s) = IsSound-pair w i j c d (run-initial-IsSoundWorld incarnation ss) n e f in
    let (a, b, l, z) = beside_quiescent w.lease.state c.lease d.lease rest s.keeps q in
    (a, b, l, direct_begin_refused w.lease c (plus (weigh d.lease) rest) s z)

-- After any steps from a freshly initialised device, two descriptors that hold profiles of a
-- family hold profiles of the same family, one of them at least is no publisher, and neither is a
-- legacy user.
pub one_family :
    (incarnation : ℕ) (ss : List Step) (i j : ℕ) (c d : FileCtx)
    → i ≢ j
    → get_elem? (run (initial incarnation) ss).ctxs i ≡ some c
    → get_elem? (run (initial incarnation) ss).ctxs j ≡ some d
    → profile_family c.lease.profile ≢ no_family
    → profile_family d.lease.profile ≢ no_family
    → (profile_family c.lease.profile ≡ profile_family d.lease.profile)
      × ((is_publisher c.lease.profile ≡ false) ⊎ (is_publisher d.lease.profile ≡ false))
      × (c.lease.legacy ≡ false)
      × (d.lease.legacy ≡ false)
one_family incarnation ss i j c d n e f p q =
    let w = run (initial incarnation) ss in
    let (rest, s) = IsSound-pair w i j c d (run-initial-IsSoundWorld incarnation ss) n e f in
    beside_held w.lease.state c.lease d.lease rest s.keeps p q
