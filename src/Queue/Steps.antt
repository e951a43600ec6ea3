-- ===== src/Queue/Steps.antt =====
-- The completion of commands and the end of waiting keep the accounts of a queue.
use mxdriver.Common.{
  ℕ, ◌≡◌, arith, Bool, true, false, not, ◌||◌, some, inl, inr, Bool-cases, Option-cases, if_cases,
  ◌==◌,
}
use mxdriver.Queue.{
  Transfer, Queue, CompletionInfo, find, is_at, has_id, claim, complete_one, release_mx_transfer,
  park, wait_end, ping_id, alive,
}
use mxdriver.Queue.Counts.{found, count-update, all-update, count-remove, all-remove}
use mxdriver.Queue.Sound.{is_outstanding, is_zombie, fits, IsSound, Answers, claim_updated}

claim-IsSound :
    (info : CompletionInfo) (q : Queue) → Answers info q → IsSound q → IsSound (claim info q)
unfolding claim
claim-IsSound info q h s = elim (Option-cases (find (has_id info.id) q.transfers)) [
  | inl n ↦ rw (claim, n) s
  | inr (t, e) ↦ elim (Bool-cases t.claimed) [
    | inl y ↦ rw (claim, e, y) s
    | inr y ↦ rw (claim, e, y) (claim_updated info t q e (h t e) y s)
  ]
]

pub complete_one-IsSound :
    (now : ℕ) (info : CompletionInfo) (q : Queue)
    → Answers info q
    → IsSound q
    → IsSound (complete_one now info q)
unfolding complete_one
complete_one-IsSound now info q h s =
    let seen : Queue = record q { progress = now; health = alive; inflight = false } in
    let z : IsSound seen = record { fitting = s.fitting; waits = s.waits; zombies = s.zombies } in
    if_cases IsSound (info.id == ping_id) seen (claim info seen) (λ _. z)
      (λ _. claim-IsSound info seen h z)

-- A transfer that may be freed: neither with the device nor parked.
pub release_mx_transfer-IsSound :
    (addr : ℕ) (t : Transfer) (q : Queue)
    → find (is_at addr) q.transfers ≡ some t
    → is_outstanding t ≡ false
    → t.zombie ≡ false
    → IsSound q
    → IsSound (release_mx_transfer addr q)
unfolding release_mx_transfer
release_mx_transfer-IsSound addr t q e o z s =
    let c = count-remove (is_at addr) is_outstanding q.transfers t e in
    let d = count-remove (is_at addr) is_zombie q.transfers t e in
    record {
      fitting = all-remove (is_at addr) fits q.transfers s.fitting;
      waits = omega (arith, s.waits, rw o at c);
      zombies = omega (arith, s.zombies, rw z at d);
    }

-- What the one waiter of a transfer relies on: the transfer was queued and is not yet parked, and a
-- completion that it has seen was signalled.
pub record Waits (addr : ℕ) (completed late : Bool) (t : Transfer) (q : Queue) : Type 0 where
  pub at : find (is_at addr) q.transfers ≡ some t
  pub unparked : t.zombie ≡ false
  pub expected : t.no_completion ≡ false
  pub handed : (t.queued || t.pushed) ≡ true
  pub signalled : (not (completed || late) || t.done) ≡ true

park-IsSound :
    (addr : ℕ) (t : Transfer) (q : Queue)
    → find (is_at addr) q.transfers ≡ some t
    → t.zombie ≡ false
    → t.no_completion ≡ false
    → t.pushed ≡ true
    → IsSound q
    → IsSound (park addr q)
unfolding park
park-IsSound addr t q e z n p s =
    let f : Transfer → Transfer = λ x. record x { zombie = true } in
    let h = (found (is_at addr) fits q.transfers t e s.fitting).1 in
    let g : fits (f t) ≡ true = ground arith in
    let c = count-update (is_at addr) is_outstanding f q.transfers t e in
    let d = count-update (is_at addr) is_zombie f q.transfers t e in
    record {
      fitting = all-update (is_at addr) fits f q.transfers t e s.fitting g;
      waits = omega (arith, s.waits, c);
      zombies = omega (arith, s.zombies, rw z at d);
    }

pub wait_end-IsSound :
    (addr : ℕ) (completed late : Bool) (t : Transfer) (q : Queue)
    → Waits addr completed late t q
    → IsSound q
    → IsSound (wait_end addr completed late t q)
unfolding wait_end
wait_end-IsSound addr completed late t q w s =
    let h = (found (is_at addr) fits q.transfers t w.at s.fitting).1 in
    elim (Bool-cases completed) [
      | inl c ↦
          rw c
            (release_mx_transfer-IsSound addr t q w.at (ground (arith, w.signalled)) w.unparked s)
      | inr c ↦ elim (Bool-cases t.queued) [
        | inl k ↦ rw (c, k) (release_mx_transfer-IsSound addr t q w.at (ground arith) w.unparked s)
        | inr k ↦ elim (Bool-cases late) [
          | inl l ↦
              rw (c, k, l)
                (release_mx_transfer-IsSound addr t q w.at (ground (arith, w.signalled)) w.unparked
                  s)
          | inr l ↦
              rw (c, k, l)
                (park-IsSound addr t q w.at w.unparked w.expected (ground (arith, w.handed)) s)
        ]
      ]
    ]
