-- ===== src/Queue/Sound.antt =====
-- The accounts of a queue: what its counters count, and that each operation keeps them.
use mxdriver.Common.{
  ℕ, ◌+◌, ◌-◌, ◌≡◌, refl, sym, arith, Bool, true, false, not, ◌&&◌, some, List, [], ◌∷◌, inl, inr,
  Bool-cases, Option-cases, if_cases, ◌∙◌, if◌then◌else◌, to_nat,
}
use mxdriver.Queue.{
  Transfer, Queue, CompletionInfo, find, update, remove, is_at, has_id, is_queued,
  alloc_mx_transfer, mx_transfer_queue, pushed_transfer, submit_one, submit_pass, claimed_transfer,
}
use mxdriver.Queue.Counts.{
  count, all, count-append, all-append, found, count-update, all-update, count-remove, all-remove,
}

-- The device has the command and will complete it.
abbrev pub is_outstanding : Transfer → Bool
is_outstanding t = t.pushed && (not t.no_completion && not t.claimed)

abbrev pub is_zombie : Transfer → Bool
is_zombie t = t.zombie

-- The states of a transfer: not yet pushed, or pushed and without completion, or pushed and either
-- still with its id or claimed.
abbrev pub fits : Transfer → Bool
fits t =
    if t.pushed
    then (if t.no_completion
        then not t.queued && (not t.claimed && (not t.zombie && t.done))
        else not t.queued && (if t.claimed then true else t.registered && not t.done))
    else t.registered && (not t.claimed && (not t.zombie && not t.done))

pub record IsSound (q : Queue) : Type 0 where
  pub fitting : all fits q.transfers ≡ true
  pub waits : q.wait_count ≡ count is_outstanding q.transfers
  pub zombies : q.zombie_wait_count ≡ count is_zombie q.transfers

pushed_fits : (t : Transfer) → is_queued t ≡ true → fits t ≡ true → fits (pushed_transfer t) ≡ true
unfolding pushed_transfer
pushed_fits t e f = ground arith

pushed_outstanding :
    (t : Transfer)
    → is_queued t ≡ true
    → fits t ≡ true
    → (is_outstanding t ≡ false) × (is_outstanding (pushed_transfer t) ≡ not t.no_completion)
unfolding pushed_transfer
pushed_outstanding t e f = (ground arith, ground arith)

claimed_fits :
    (info : CompletionInfo) (t : Transfer)
    → t.pushed ≡ true
    → t.no_completion ≡ false
    → fits t ≡ true
    → fits (claimed_transfer info t) ≡ true
unfolding claimed_transfer
claimed_fits info t e n f = ground arith

pub alloc_mx_transfer-IsSound :
    (addr id : ℕ) (no_completion : Bool) (q : Queue)
    → IsSound q
    → IsSound (alloc_mx_transfer addr id no_completion q)
unfolding alloc_mx_transfer
alloc_mx_transfer-IsSound addr id no_completion q s = record {
  fitting = all-append fits q.transfers _ s.fitting refl;
  waits = omega (arith, s.waits, count-append is_outstanding q.transfers _);
  zombies = omega (arith, s.zombies, count-append is_zombie q.transfers _);
}

queue_fits :
    (t : Transfer)
    → t.pushed ≡ false
    → fits t ≡ true
    → (fits (record t { queued = true; done = false }) ≡ true) × (is_zombie t ≡ false)
queue_fits t n f = (ground arith, ground arith)

pub mx_transfer_queue-IsSound :
    (addr : ℕ) (t : Transfer) (q : Queue)
    → find (is_at addr) q.transfers ≡ some t
    → t.pushed ≡ false
    → IsSound q
    → IsSound (mx_transfer_queue addr q)
unfolding mx_transfer_queue
mx_transfer_queue-IsSound addr t q e n s =
    let f = (found (is_at addr) fits q.transfers t e s.fitting).1 in
    let (g, z) = queue_fits t n f in
    let o : is_outstanding t ≡ false = ground arith in
    let t' : Transfer = record t { queued = true; done = false } in
    rw (mx_transfer_queue, e)
      (record {
        fitting =
            all-append fits (remove (is_at addr) q.transfers) t'
              (all-remove (is_at addr) fits q.transfers s.fitting) g;
        waits =
            s.waits
            ∙ sym (count-remove (is_at addr) is_outstanding q.transfers t e)
            ∙ sym (count-append is_outstanding (remove (is_at addr) q.transfers) t');
        zombies =
            s.zombies
            ∙ sym (count-remove (is_at addr) is_zombie q.transfers t e)
            ∙ sym (count-append is_zombie (remove (is_at addr) q.transfers) t');
      })

submit_one-IsSound :
    (now : ℕ) (t : Transfer) (q : Queue)
    → find is_queued q.transfers ≡ some t
    → IsSound q
    → IsSound (submit_one now t q)
unfolding submit_one
submit_one-IsSound now t q e s =
    let (h, f) = found is_queued fits q.transfers t e s.fitting in
    let (a, b) = pushed_outstanding t h f in
    let c = count-update is_queued is_outstanding pushed_transfer q.transfers t e in
    let w : count is_outstanding (update is_queued pushed_transfer q.transfers)
        ≡ count is_outstanding q.transfers + to_nat (not t.no_completion) =
      omega (arith, rw (a, b) at c) in
    record {
      fitting =
          all-update is_queued fits pushed_transfer q.transfers t e s.fitting (pushed_fits t h f);
      waits = elim (Bool-cases t.no_completion) [
        | inl y ↦ rw y (omega (arith, s.waits, rw y at w))
        | inr y ↦ rw y (omega (arith, s.waits, rw y at w))
      ];
      zombies =
          omega
            (arith, s.zombies, count-update is_queued is_zombie pushed_transfer q.transfers t e);
    }

pub submit_pass-IsSound :
    (lv_on : Bool) (now : ℕ) (answers : List Bool) (q : Queue)
    → IsSound q
    → IsSound (submit_pass lv_on now answers q)
unfolding submit_pass
submit_pass-IsSound lv_on now [] q s = s
submit_pass-IsSound lv_on now (pushable ∷ answers) q s =
    elim (Option-cases (find is_queued q.transfers)) [
      | inl n ↦ rw (submit_pass, n) s
      | inr (t, e) ↦
          let r =
            submit_pass-IsSound lv_on now answers (submit_one now t q)
              (submit_one-IsSound now t q e s) in
          rw (submit_pass, e)
            (if_cases IsSound (lv_on && q.inflight) q
              (if pushable then submit_pass lv_on now answers (submit_one now t q) else q) (λ _. s)
              (λ _.
                if_cases IsSound pushable (submit_pass lv_on now answers (submit_one now t q)) q
                  (λ _. r) (λ _. s)))
    ]

-- The device completes only what it holds.
pub record IsAnswer (info : CompletionInfo) (t : Transfer) : Type 0 where
  pub held : t.pushed ≡ true
  pub expected : t.no_completion ≡ false

abbrev pub Answers : CompletionInfo → Queue → Type 0
Answers info q = (t : Transfer) → find (has_id info.id) q.transfers ≡ some t → IsAnswer info t

pub claim_updated :
    (info : CompletionInfo) (t : Transfer) (q : Queue)
    → find (has_id info.id) q.transfers ≡ some t
    → IsAnswer info t
    → t.claimed ≡ false
    → IsSound q
    → IsSound (record q {
      transfers = update (has_id info.id) (claimed_transfer info) q.transfers;
      wait_count = q.wait_count - 1;
    })
unfolding claimed_transfer
claim_updated info t q e w n s =
    let (h, f) = found (has_id info.id) fits q.transfers t e s.fitting in
    let a : is_outstanding t ≡ true = rw (w.held, w.expected, n) refl in
    let b : is_outstanding (claimed_transfer info t) ≡ false = ground arith in
    let z : is_zombie (claimed_transfer info t) ≡ is_zombie t = ground arith in
    let c = count-update (has_id info.id) is_outstanding (claimed_transfer info) q.transfers t e in
    let d = count-update (has_id info.id) is_zombie (claimed_transfer info) q.transfers t e in
    record {
      fitting =
          all-update (has_id info.id) fits (claimed_transfer info) q.transfers t e s.fitting
            (claimed_fits info t w.held w.expected f);
      waits = omega (arith, s.waits, rw (a, b) at c);
      zombies = omega (arith, s.zombies, rw z at d);
    }
