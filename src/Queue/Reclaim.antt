-- ===== src/Queue/Reclaim.antt =====
-- The reclaiming of zombies keeps the accounts of a queue, and frees none that the device holds.
use mxdriver.Common.{
  ℕ, ◌+◌, ◌≡◌, refl, arith, Bool, true, false, not, ◌&&◌, List, [], ◌∷◌, inl, inr, Bool-cases,
  to_nat,
}
use mxdriver.Queue.{Transfer, Queue, is_claimed, drain_zombies, cleanup_round, cleanup_end}
use mxdriver.Queue.Counts.{count, all, and_left, and_right, and_both}
use mxdriver.Queue.Sound.{is_outstanding, is_zombie, fits, IsSound}

-- What is left of `ts`, with `k` outstanding transfers and `m` zombies elsewhere.
record Drained (ts : List Transfer) (k m : ℕ) (q : Queue) : Type 0 where
  fitting : all fits q.transfers ≡ true
  waits : q.wait_count ≡ k + count is_outstanding q.transfers
  zombies : q.zombie_wait_count ≡ m + count is_zombie q.transfers

zombie_lem : (t : Transfer) → t.zombie ≡ true → fits t ≡ true → is_outstanding t ≡ not t.claimed
zombie_lem t z f = ground arith

drain_zombies-Drained :
    (p : Transfer → Bool) (ts : List Transfer) (k m : ℕ) (q : Queue)
    → all fits ts ≡ true
    → q.wait_count ≡ k + count is_outstanding ts
    → q.zombie_wait_count ≡ m + count is_zombie ts
    → Drained ts k m (drain_zombies p ts q)
unfolding drain_zombies
drain_zombies-Drained p [] k m q a w z = record { fitting = refl; waits = w; zombies = z }
drain_zombies-Drained p (t ∷ ts) k m q a w z =
    let f = and_left (fits t) (all fits ts) a in
    let r =
      drain_zombies-Drained p ts (k + to_nat (is_outstanding t)) (m + to_nat (is_zombie t)) q
        (and_right (fits t) (all fits ts) a) (omega (arith, w)) (omega (arith, z)) in
    elim (Bool-cases (t.zombie && p t)) [
      | inr n ↦ rw n (record {
        fitting = and_both (fits t) _ f r.fitting;
        waits = omega (arith, r.waits);
        zombies = omega (arith, r.zombies);
      })
      | inl y ↦
          let v = and_left t.zombie (p t) y in
          let u = zombie_lem t v f in
          rw y (record {
            fitting = r.fitting;
            waits = elim (Bool-cases t.claimed) [
              | inl c ↦ rw c (omega (arith, rw (u, c) at r.waits))
              | inr c ↦ rw c (omega (arith, rw (u, c) at r.waits))
            ];
            zombies = omega (arith, rw v at r.zombies);
          })
    ]

drained-IsSound :
    (p : Transfer → Bool) (q : Queue) → IsSound q → IsSound (drain_zombies p q.transfers q)
drained-IsSound p q s =
    let d =
      drain_zombies-Drained p q.transfers 0 0 q s.fitting (omega (arith, s.waits))
        (omega (arith, s.zombies)) in
    record {
      fitting = d.fitting;
      waits = omega (arith, d.waits);
      zombies = omega (arith, d.zombies);
    }

pub cleanup_round-IsSound : (q : Queue) → IsSound q → IsSound (cleanup_round q)
unfolding cleanup_round
cleanup_round-IsSound q s = drained-IsSound is_claimed q s

pub cleanup_end-IsSound : (safe : Bool) (q : Queue) → IsSound q → IsSound (cleanup_end safe q)
unfolding cleanup_end
cleanup_end-IsSound true q s = drained-IsSound (λ t. true) q s
cleanup_end-IsSound false q s = s

drain_zombies-outstanding :
    (ts : List Transfer) (q : Queue)
    → count is_outstanding (drain_zombies is_claimed ts q).transfers ≡ count is_outstanding ts
unfolding drain_zombies
drain_zombies-outstanding [] q = refl
drain_zombies-outstanding (t ∷ ts) q =
    let h = drain_zombies-outstanding ts q in
    elim (Bool-cases (t.zombie && is_claimed t)) [
      | inr n ↦ rw n (omega (arith, h))
      | inl y ↦
          let o : is_outstanding t ≡ false = ground (arith, and_right t.zombie (is_claimed t) y) in
          rw (y, o) (omega (arith, h))
    ]

-- A round of the cleanup frees no transfer that the device holds.
pub cleanup_round-outstanding :
    (q : Queue)
    → count is_outstanding (cleanup_round q).transfers ≡ count is_outstanding q.transfers
unfolding cleanup_round
cleanup_round-outstanding q = drain_zombies-outstanding q.transfers q
