-- ===== src/Mbox/Ring.antt =====
-- A mailbox as a queue that holds at most `depth` words.
use mxdriver.Common.{
  subst, sym, ℕ, ◌+◌, ◌-◌, ◌^◌, ◌≤◌, ◌<◌, ◌≡◌, true, arith, ◌↔◌, leb, if◌then◌else◌,
}
use mxdriver.Mbox.{
  Mbox, is_empty, is_full, get_free_space, get_pending_count, get_next_index, push, pop, index_of,
  phase_of,
}
use mxdriver.Mbox.Index.{IsIndex, Moved, position, get_next_index-Moved, pow_bounds}

-- The words between a head and a tail, both counted modulo twice the depth.
abbrev pub distance : ℕ → ℕ → ℕ → ℕ
distance d h t = if leb h t then t - h else t + (d + d) - h

-- A mailbox whose size 7 bits can count to, with its head and tail in range and at most `depth` words
-- in between.
pub record IsRing (mbox : Mbox) : Type 0 where
  pub small : mbox.ctx.q_size < 8
  pub sized : mbox.depth ≡ 2 ^ mbox.ctx.q_size
  pub head_valid : IsIndex mbox.depth mbox.ctx.head
  pub tail_valid : IsIndex mbox.depth mbox.ctx.tail
  pub holds :
      distance mbox.depth (position mbox.depth mbox.ctx.head) (position mbox.depth mbox.ctx.tail)
      ≤ mbox.depth

pub bounds : (mbox : Mbox) → IsRing mbox → (1 ≤ mbox.depth) × (mbox.depth ≤ 128)
bounds mbox i = rw i.sized (pow_bounds mbox.ctx.q_size i.small)

counts_at :
    (mbox : Mbox) (d head tail : ℕ)
    → d ≤ 128
    → IsIndex d head
    → IsIndex d tail
    → distance d (position d head) (position d tail) ≤ d
    → (get_pending_count
          (record mbox { depth = d; ctx = record mbox.ctx { head = head; tail = tail } })
        ≡ distance d (position d head) (position d tail))
      × (get_free_space
            (record mbox { depth = d; ctx = record mbox.ctx { head = head; tail = tail } })
          ≡ d - distance d (position d head) (position d tail))
unfolding get_pending_count get_free_space IsIndex position index_of phase_of
counts_at mbox d head tail b i j h = ground arith

pub counts :
    (mbox : Mbox)
    → IsRing mbox
    → let n =
        distance mbox.depth
          (position mbox.depth mbox.ctx.head)
          (position mbox.depth mbox.ctx.tail) in
      (get_pending_count mbox ≡ n) × (get_free_space mbox ≡ mbox.depth - n)
counts mbox i =
    counts_at mbox mbox.depth mbox.ctx.head mbox.ctx.tail (bounds mbox i).1 i.head_valid
      i.tail_valid i.holds

extremes :
    (mbox : Mbox)
    → 1 ≤ mbox.depth
    → IsIndex mbox.depth mbox.ctx.head
    → IsIndex mbox.depth mbox.ctx.tail
    → let n =
        distance mbox.depth
          (position mbox.depth mbox.ctx.head)
          (position mbox.depth mbox.ctx.tail) in
      n ≤ mbox.depth
      → ((is_full mbox ≡ true) ↔ (n ≡ mbox.depth)) × ((is_empty mbox ≡ true) ↔ (n ≡ 0))
unfolding is_full is_empty IsIndex position index_of phase_of
extremes mbox b i j h = ground arith

-- On a mailbox whose size 7 bits can count to and that holds at most its depth, the free space
-- and the pending words add up to the depth, is_full holds just where there is no free space, and
-- is_empty just where nothing is pending.
pub space_lem :
    (mbox : Mbox)
    → IsRing mbox
    → (get_free_space mbox + get_pending_count mbox ≡ mbox.depth)
      × ((is_full mbox ≡ true) ↔ (get_free_space mbox ≡ 0))
      × ((is_empty mbox ≡ true) ↔ (get_pending_count mbox ≡ 0))
space_lem mbox i =
    let (a, b) = counts mbox i in
    let (f, e) = extremes mbox (bounds mbox i).0 i.head_valid i.tail_valid i.holds in
    rw (a, b)
      (omega (arith, i.holds), ((λ x. omega (arith, f.0 x)), λ x. f.1 (omega (arith, i.holds))), e)

Moved-tail :
    (d h t n count : ℕ)
    → 1 ≤ d
    → IsIndex d h
    → IsIndex d t
    → IsIndex d n
    → distance d (position d h) (position d t) + count ≤ d
    → Moved d t count n
    → distance d (position d h) (position d n) ≡ distance d (position d h) (position d t) + count
unfolding Moved IsIndex position index_of phase_of
Moved-tail d h t n count b i j k c m = ground arith

Moved-head :
    (d h t n count : ℕ)
    → 1 ≤ d
    → IsIndex d h
    → IsIndex d t
    → IsIndex d n
    → distance d (position d h) (position d t) ≤ d
    → count ≤ distance d (position d h) (position d t)
    → Moved d h count n
    → distance d (position d n) (position d t) ≡ distance d (position d h) (position d t) - count
unfolding Moved IsIndex position index_of phase_of
Moved-head d h t n count b i j k a c m = ground arith

pub next_in :
    (mbox : Mbox) (full count : ℕ)
    → IsRing mbox
    → IsIndex mbox.depth full
    → count ≤ mbox.depth
    → IsIndex mbox.depth (get_next_index full count mbox.depth)
      × Moved mbox.depth full count (get_next_index full count mbox.depth)
next_in mbox full count i =
    subst
      (λ d.
        IsIndex d full
        → count ≤ d
        → IsIndex d (get_next_index full count d)
          × Moved d full count (get_next_index full count d))
      (sym i.sized) (get_next_index-Moved mbox.ctx.q_size full count i.small)

-- On a mailbox whose size 7 bits can count to and that holds at most its depth, advancing the
-- tail by a count that fits the free space keeps it such a mailbox, adds the count to what is
-- pending and takes it from the free space.
pub push-IsRing :
    (mbox : Mbox) (count : ℕ)
    → IsRing mbox
    → count ≤ get_free_space mbox
    → IsRing (push mbox count)
      × (get_pending_count (push mbox count) ≡ get_pending_count mbox + count)
      × (get_free_space (push mbox count) ≡ get_free_space mbox - count)
unfolding push
push-IsRing mbox count i c =
    let (a, b) = counts mbox i in
    let room : count ≤ mbox.depth = omega (arith, b, c) in
    let (v, m) = next_in mbox mbox.ctx.tail count i i.tail_valid room in
    let e =
      Moved-tail mbox.depth mbox.ctx.head mbox.ctx.tail _ count (bounds mbox i).0 i.head_valid
        i.tail_valid v (omega (arith, b, c, i.holds)) m in
    let j : IsRing (push mbox count) = record {
      small = i.small;
      sized = i.sized;
      head_valid = i.head_valid;
      tail_valid = v;
      holds = omega (arith, e, b, c, i.holds);
    } in
    let (x, y) = counts (push mbox count) j in
    (j, omega (arith, x, e, a), omega (arith, y, e, b, i.holds))

-- On a mailbox whose size 7 bits can count to and that holds at most its depth, advancing the
-- head by a count that is pending keeps it such a mailbox, takes the count from what is pending
-- and adds it to the free space.
pub pop-IsRing :
    (mbox : Mbox) (count : ℕ)
    → IsRing mbox
    → count ≤ get_pending_count mbox
    → IsRing (pop mbox count)
      × (get_pending_count (pop mbox count) ≡ get_pending_count mbox - count)
      × (get_free_space (pop mbox count) ≡ get_free_space mbox + count)
unfolding pop
pop-IsRing mbox count i c =
    let (a, b) = counts mbox i in
    let room : count ≤ mbox.depth = omega (arith, a, c, i.holds) in
    let (v, m) = next_in mbox mbox.ctx.head count i i.head_valid room in
    let e =
      Moved-head mbox.depth mbox.ctx.head mbox.ctx.tail _ count (bounds mbox i).0 i.head_valid
        i.tail_valid v i.holds (omega (arith, a, c)) m in
    let j : IsRing (pop mbox count) = record {
      small = i.small;
      sized = i.sized;
      head_valid = v;
      tail_valid = i.tail_valid;
      holds = omega (arith, e, i.holds);
    } in
    let (x, y) = counts (pop mbox count) j in
    (j, omega (arith, x, e, a), omega (arith, y, e, b, a, c, i.holds))
