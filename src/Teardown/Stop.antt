-- ===== src/Teardown/Stop.antt =====
-- mxdma_stop_device_protocol: what its result says of the device's queues.
pub mod Ends
use mxdriver.Common.{
  ◌≡◌, refl, sym, ap, ◌∙◌, arith, Bool, true, false, not, ◌&&◌, ◌||◌, if◌then◌else◌, Option, none,
  some, ◌⊎◌, inl, inr, List, [], ◌∷◌, Ret, Errno, ebusy, euclean, eopnotsupp, eio, Outcome, waiting,
  returned, if_cases,
}
use mxdriver.Teardown.{
  QueueOps, Device, Check, Round, Course, Ended, stuck, left, passed, drain_device_protocol,
  stop_queue_threads, recover, recover_with, judge, retry, recover_poisoned, poison_device, report,
  queues_released, after_recoveries, after_release, finish, after_partial, first_partial,
  disable_partial, after_poisoned, unbind_protocol, detach_protocol, stop_device_protocol,
}

-- What the teardown relies on: `Inv` is kept by every operation, `Ready` says that the queues have
-- been set up, and in a `Quiet` state the device writes to none of their memory.
pub record QueueLaws {S E : Type 0} (ops : QueueOps S E) : Type 1 where
  pub Inv : S → Type 0
  pub Ready : S → Type 0
  pub Quiet : S → Type 0
  pub poison_inv : (s : S) → Inv s → Inv (ops.poison s)
  pub poison_on : (s : S) → ops.poisoned (ops.poison s) ≡ true
  pub recover_inv : (e : E) (s : S) → Inv s → Inv (recover ops e s).1
  pub recover_ready : (e : E) (s : S) → Ready s → Ready (recover ops e s).1
  pub recover_quiet :
      (e : E) (s : S) → Inv s → (recover ops e s).0 ≡ returned none → Quiet (recover ops e s).1
  pub recover_sound :
      (e : E) (s : S)
      → Inv s
      → (recover ops e s).0 ≡ returned none
      → ops.poisoned (recover ops e s).1 ≡ false
  pub release_quiet :
      (e : E) (s : S)
      → Inv s
      → Ready s
      → ops.poisoned s ≡ false
      → (ops.release_queue e s).0 ≡ none
      → Quiet (ops.release_queue e s).1
  pub release_inv : (e : E) (s : S) → Inv s → ops.poisoned s ≡ false → Inv (ops.release_queue e s).1
  pub unprogrammed : (s : S) → Inv s → ops.programmed s ≡ false → Quiet s

-- Some round that finds the device gone.
abbrev pub any_gone : {E : Type 0} → List (Round E) → Bool
any_gone [] = false
any_gone (r ∷ rs) = r.gone || any_gone rs

abbrev pub any_check : List Check → Bool
any_check [] = false
any_check (c ∷ cs) = c.gone || any_check cs

abbrev pub device_gone : {E : Type 0} → Course E → Bool
device_gone c =
    any_check c.drains
    || any_gone c.poison_rounds
    || any_gone c.partial_rounds
    || any_gone c.release_rounds

module _ {S E : Type 0} (ops : QueueOps S E) (laws : QueueLaws ops) where
  -- A loop of recoveries, after which `Q` holds.
  record Looped (Q : S → Type 0) (rs : List (Round E)) (s : S) (r : Ended × S) : Type 0 where
    inv : laws.Inv r.1
    ready : laws.Ready s → laws.Ready r.1
    was_gone : r.0 ≡ left → any_gone rs ≡ true
    good : r.0 ≡ passed → Q r.1

  judge-Looped :
      (Q : S → Type 0) (round : Round E) (rs : List (Round E)) (s : S) (r : Outcome × S)
      (again : S → Ended × S)
      → laws.Inv r.1
      → (laws.Ready s → laws.Ready r.1)
      → (r.0 ≡ returned none → Q r.1)
      → Looped Q rs r.1 (again r.1)
      → Looped Q (round ∷ rs) s (judge ops r again)
  unfolding judge
  judge-Looped Q round rs s (waiting, t) again i y q l = record {
    inv = i;
    ready = y;
    was_gone = λ z. cc;
    good = λ z. cc;
  }
  judge-Looped Q round rs s (returned none, t) again i y q l = record {
    inv = i;
    ready = y;
    was_gone = λ z. cc;
    good = λ _. q refl;
  }
  judge-Looped Q round rs s (returned (some e), t) again i y q l = record {
    inv = l.inv;
    ready = λ x. l.ready (y x);
    was_gone = λ z. let g = l.was_gone z in ground (arith, g);
    good = l.good;
  }

  gone_round : (r : Round E) (rs : List (Round E)) → r.gone ≡ true → any_gone (r ∷ rs) ≡ true
  gone_round r rs g = ground (arith, g)

  Sound : S → Type 0
  Sound s = ops.poisoned s ≡ false

  Down : S → Type 0
  Down s = (ops.poisoned s ≡ false) × laws.Quiet s

  retry-Looped : (rs : List (Round E)) (s : S) → laws.Inv s → Looped Down rs s (retry ops rs s)
  unfolding retry Down
  retry-Looped [] s i = record { inv = i; ready = λ y. y; was_gone = λ z. cc; good = λ z. cc }
  retry-Looped (r ∷ rs) s i =
      let t = (recover ops r.meets s).1 in
      if_cases (Looped Down (r ∷ rs) s) r.gone _ _
        (λ g. record { inv = i; ready = λ y. y; was_gone = λ _. gone_round r rs g; good = λ z. cc })
        (λ _.
          judge-Looped Down r rs s (recover ops r.meets s) (λ u. retry ops rs u)
            (laws.recover_inv r.meets s i) (laws.recover_ready r.meets s)
            (λ e. (laws.recover_sound r.meets s i e, laws.recover_quiet r.meets s i e))
            (retry-Looped rs t (laws.recover_inv r.meets s i)))

  recover_poisoned-Looped :
      (rs : List (Round E)) (s : S) → laws.Inv s → Looped Sound rs s (recover_poisoned ops rs s)
  unfolding recover_poisoned Sound
  recover_poisoned-Looped [] s i =
      if_cases (Looped Sound [] s) (ops.poisoned s) _ _
        (λ _. record { inv = i; ready = λ y. y; was_gone = λ z. cc; good = λ z. cc })
        (λ e. record { inv = i; ready = λ y. y; was_gone = λ z. cc; good = λ _. e })
  recover_poisoned-Looped (r ∷ rs) s i =
      let t = (recover ops r.meets s).1 in
      if_cases (Looped Sound (r ∷ rs) s) (ops.poisoned s) _ _
        (λ _.
          if_cases (Looped Sound (r ∷ rs) s) r.gone _ _
            (λ g. record {
              inv = i;
              ready = λ y. y;
              was_gone = λ _. gone_round r rs g;
              good = λ z. cc;
            })
            (λ _.
              judge-Looped Sound r rs s (recover ops r.meets s) (λ u. recover_poisoned ops rs u)
                (laws.recover_inv r.meets s i) (laws.recover_ready r.meets s)
                (laws.recover_sound r.meets s i)
                (recover_poisoned-Looped rs t (laws.recover_inv r.meets s i))))
        (λ e. record { inv = i; ready = λ y. y; was_gone = λ z. cc; good = λ _. e })

  -- What is shown of the function, of a device whose rounds are those of the course.
  pub record Stopped (c : Course E) (r : Outcome × Device S) : Type 0 where
    pub inv : laws.Inv r.1.queues
    pub ended : r.0 ≡ returned none → (device_gone c ≡ true) ⊎ laws.Quiet r.1.queues
    pub marked : (e : Errno) → r.0 ≡ returned (some e) → ops.poisoned r.1.queues ≡ true

  report-Stopped :
      (c : Course E) (d : Device S)
      → laws.Inv d.queues
      → laws.Quiet d.queues
      → Stopped c (report ops d)
  unfolding report
  report-Stopped c d i q =
      if_cases (λ k. Stopped c (returned k, d)) (ops.poisoned d.queues) _ _
        (λ e. record { inv = i; ended = λ z. cc; marked = λ _ _. e })
        (λ e. record { inv = i; ended = λ _. inr q; marked = λ _ z. cc })

  -- A call that goes on waiting, and one that ends since the device is gone.
  waits-Stopped : (c : Course E) (d : Device S) → laws.Inv d.queues → Stopped c (waiting, d)
  waits-Stopped c d i = record { inv = i; ended = λ z. cc; marked = λ _ z. cc }

  gone-Stopped :
      (c : Course E) (d : Device S)
      → laws.Inv d.queues
      → device_gone c ≡ true
      → Stopped c (returned none, d)
  gone-Stopped c d i g = record { inv = i; ended = λ _. inl g; marked = λ _ z. cc }

  fails-Stopped :
      (c : Course E) (d : Device S) (e : Errno)
      → laws.Inv d.queues
      → ops.poisoned d.queues ≡ true
      → Stopped c (returned (some e), d)
  fails-Stopped c d e i p = record { inv = i; ended = λ z. cc; marked = λ _ _. p }
