-- ===== src/V1/Fifo.antt =====
-- The words that are pending in a mailbox, as a queue.
use mxdriver.Common.{
  ℕ, zero, suc, ◌+◌, ◌-◌, ◌*◌, ◌%◌, ◌≡◌, ◌≤◌, ◌<◌, refl, sym, ap, subst, ◌∙◌, arith, List, [], ◌∷◌,
  ◌++◌, leb, if◌then◌else◌, ◌⊎◌,
}
use mxdriver.Mbox.{
  Mbox, get_data_offset, get_free_space, get_pending_count, push, index_of, phase_of,
}
use mxdriver.Mbox.Index.{IsIndex, Moved, position}
use mxdriver.Mbox.Ring.{IsRing, distance, counts, bounds, next_in, push-IsRing}
use mxdriver.V1.{Memory, Words, store, data_count, push_mx_command}

-- The `j`-th word of a ring from `head` on.
abbrev pub slot : ℕ → ℕ → ℕ → ℕ
slot depth head j = if leb depth (head + j) then head + j - depth else head + j

abbrev pub words_from : Memory → ℕ → ℕ → ℕ → ℕ → ℕ → List ℕ
words_from mem base depth head j zero = []
words_from mem base depth head j (suc n) =
    mem (base + 8 * slot depth head j) ∷ words_from mem base depth head (j + 1) n

-- All that is pending.
abbrev pub contents : Memory → Mbox → List ℕ
contents mem mbox =
    words_from mem mbox.data_addr mbox.depth (index_of mbox.ctx.head) 0 (get_pending_count mbox)

-- A ring in which commands do not wrap around: its depth and both indices are multiples of their
-- four words.
pub record IsAligned (mbox : Mbox) : Type 0 where
  pub ring : IsRing mbox
  pub depth : mbox.depth % 4 ≡ 0
  pub head : index_of mbox.ctx.head % 4 ≡ 0
  pub tail : index_of mbox.ctx.tail % 4 ≡ 0

pub words_append :
    (mem : Memory) (base depth head j n m : ℕ)
    → words_from mem base depth head j (n + m)
      ≡ words_from mem base depth head j n ++ words_from mem base depth head (j + n) m
words_append mem base depth head j zero m =
    subst (λ k. words_from mem base depth head j k ≡ words_from mem base depth head (j + 0) m)
      (omega arith) (ap (λ k. words_from mem base depth head k m) (omega arith))
words_append mem base depth head j (suc n) m =
    let h = words_append mem base depth head (j + 1) n m in
    let e : suc n + m ≡ suc (n + m) = omega arith in
    let f : j + 1 + n ≡ j + suc n = omega arith in
    rw e (
      ap (◌∷◌ (mem (base + 8 * slot depth head j))) (
        subst
          (λ k.
            words_from mem base depth head (j + 1) (n + m)
            ≡ words_from mem base depth head (j + 1) n ++ words_from mem base depth head k m)
          f h))

pub words_same :
    (mem mem' : Memory) (base depth head j n : ℕ)
    → ((i : ℕ)
        → j ≤ i
        → i < j + n
        → mem' (base + 8 * slot depth head i) ≡ mem (base + 8 * slot depth head i))
    → words_from mem' base depth head j n ≡ words_from mem base depth head j n
words_same mem mem' base depth head j zero h = refl
words_same mem mem' base depth head j (suc n) h =
    let e = h j (omega arith) (omega arith) in
    let r =
      words_same mem mem' base depth head (j + 1) n
        (λ i a b. h i (omega (arith, a)) (omega (arith, b))) in
    ap (λ x. x ∷ words_from mem' base depth head (j + 1) n) e
    ∙ ap (◌∷◌ (mem (base + 8 * slot depth head j))) r

tail_slot_at :
    (mbox : Mbox) (d head tail : ℕ)
    → d ≤ 128
    → IsIndex d head
    → IsIndex d tail
    → distance d (position d head) (position d tail) ≤ d
    → index_of tail ≡ slot d (index_of head) (distance d (position d head) (position d tail))
unfolding IsIndex position index_of phase_of
tail_slot_at mbox d head tail b i j h = ground arith

pub record Placed (mbox : Mbox) : Type 0 where
  pub tail_at :
      index_of mbox.ctx.tail ≡ slot mbox.depth (index_of mbox.ctx.head) (get_pending_count mbox)
  pub free : get_free_space mbox ≡ mbox.depth - get_pending_count mbox
  pub few : get_pending_count mbox ≤ mbox.depth
  pub head_in : index_of mbox.ctx.head < mbox.depth
  pub tail_in : index_of mbox.ctx.tail < mbox.depth

pub placed : (mbox : Mbox) → IsRing mbox → Placed mbox
unfolding IsIndex
placed mbox i =
    let (a, b) = counts mbox i in
    record {
      tail_at =
          tail_slot_at mbox mbox.depth mbox.ctx.head mbox.ctx.tail (bounds mbox i).1 i.head_valid
            i.tail_valid i.holds
          ∙ ap (slot mbox.depth (index_of mbox.ctx.head)) (sym a);
      free = omega (arith, a, b);
      few = omega (arith, a, i.holds);
      head_in = i.head_valid.1;
      tail_in = i.tail_valid.1;
    }

pub Moved-aligned :
    (d full n : ℕ)
    → d % 4 ≡ 0
    → index_of full % 4 ≡ 0
    → 1 ≤ d
    → IsIndex d full
    → IsIndex d n
    → Moved d full 4 n
    → index_of n % 4 ≡ 0
unfolding IsIndex Moved position index_of phase_of
Moved-aligned d full n a b p i j m = ground arith

store_other :
    (mem : Memory) (base t s : ℕ) (w : Words)
    → (s < t) ⊎ (t + 3 < s)
    → store mem (base + 8 * t) w (base + 8 * s) ≡ mem (base + 8 * s)
store_other mem base t s w h = ground arith

store_here :
    (mem : Memory) (base t s : ℕ) (w : Words)
    → (s ≡ t → store mem (base + 8 * t) w (base + 8 * s) ≡ w.header)
      × (s ≡ t + 1 → store mem (base + 8 * t) w (base + 8 * s) ≡ w.size)
      × (s ≡ t + 2 → store mem (base + 8 * t) w (base + 8 * s) ≡ w.device_addr)
      × (s ≡ t + 3 → store mem (base + 8 * t) w (base + 8 * s) ≡ w.host_addr)
store_here mem base t s w = (
  (λ e. ground (arith, e)),
  (λ e. ground (arith, e)),
  (λ e. ground (arith, e)),
  λ e. ground (arith, e),
)

slots_behind :
    (d h n t : ℕ)
    → h < d
    → t ≡ slot d h n
    → t < d
    → n + 4 ≤ d
    → t % 4 ≡ 0
    → d % 4 ≡ 0
    → (slot d h (n + 1) ≡ t + 1)
      × (slot d h (n + 1 + 1) ≡ t + 2)
      × (slot d h (n + 1 + 1 + 1) ≡ t + 3)
slots_behind d h n t a e b c f g = (ground arith, ground arith, ground arith)

slots_before :
    (d h n t i : ℕ)
    → h < d
    → t ≡ slot d h n
    → n + 4 ≤ d
    → i < n
    → (slot d h i < t) ⊎ (t + 3 < slot d h i)
slots_before d h n t i a e c l = ground arith

four_words :
    (mem : Memory) (base d h j t : ℕ) (w : Words)
    → slot d h j ≡ t
    → slot d h (j + 1) ≡ t + 1
    → slot d h (j + 1 + 1) ≡ t + 2
    → slot d h (j + 1 + 1 + 1) ≡ t + 3
    → words_from (store mem (base + 8 * t) w) base d h j 4
      ≡ w.header ∷ w.size ∷ w.device_addr ∷ w.host_addr ∷ []
four_words mem base d h j t w a b c e =
    let (x, _, _, _) = store_here mem base t (slot d h j) w in
    let (_, y, _, _) = store_here mem base t (slot d h (j + 1)) w in
    let (_, _, z, _) = store_here mem base t (slot d h (j + 1 + 1)) w in
    let (_, _, _, v) = store_here mem base t (slot d h (j + 1 + 1 + 1)) w in
    ap (λ k. k ∷ words_from (store mem (base + 8 * t) w) base d h (j + 1) 3) (x a)
    ∙ ap (λ k. w.header ∷ k ∷ words_from (store mem (base + 8 * t) w) base d h (j + 1 + 1) 2) (y b)
    ∙ ap
        (λ k.
          w.header
          ∷ w.size
          ∷ k
          ∷ words_from (store mem (base + 8 * t) w) base d h (j + 1 + 1 + 1) 1)
        (z c)
    ∙ ap (λ k. w.header ∷ w.size ∷ w.device_addr ∷ k ∷ []) (v e)

-- On a mailbox whose size 7 bits can count to, that holds at most its depth, and whose depth and
-- indices are multiples of the four words of a command, and with free space for a command,
-- push_mx_command appends the four words of the command to the words that are pending, changes
-- none of these, and keeps it such a mailbox.
pub push_mx_command-contents :
    (mem : Memory) (mbox : Mbox) (comm : Words)
    → IsAligned mbox
    → data_count ≤ get_free_space mbox
    → let (mem', mbox') = push_mx_command mem mbox comm in
      (contents mem' mbox'
        ≡ contents mem mbox ++ (comm.header ∷ comm.size ∷ comm.device_addr ∷ comm.host_addr ∷ []))
      × IsAligned mbox'
unfolding push_mx_command push get_data_offset
push_mx_command-contents mem mbox comm i c =
    let d = mbox.depth in
    let h = index_of mbox.ctx.head in
    let t = index_of mbox.ctx.tail in
    let n = get_pending_count mbox in
    let k = placed mbox i.ring in
    let (j, p, _) = push-IsRing mbox 4 i.ring c in
    let (v, m) = next_in mbox mbox.ctx.tail 4 i.ring i.ring.tail_valid (omega (arith, k.free, c)) in
    let r : n + 4 ≤ d = omega (arith, k.free, c) in
    let (x, y, z) = slots_behind d h n t k.head_in k.tail_at k.tail_in r i.tail i.depth in
    let mem' = store mem (mbox.data_addr + 8 * t) comm in
    (
      ap (λ q. words_from mem' mbox.data_addr d h 0 q) p
          ∙ words_append mem' mbox.data_addr d h 0 n 4
          ∙ ap (λ q. q ++ words_from mem' mbox.data_addr d h (0 + n) 4)
              (words_same mem mem' mbox.data_addr d h 0 n (λ a b e.
                store_other mem mbox.data_addr t (slot d h a) comm
                  (slots_before d h n t a k.head_in k.tail_at r (omega (arith, e)))))
          ∙ ap
              (λ q. words_from mem mbox.data_addr d h 0 n ++ words_from mem' mbox.data_addr d h q 4)
              (omega arith)
          ∙ ap (λ q. words_from mem mbox.data_addr d h 0 n ++ q)
              (four_words mem mbox.data_addr d h n t comm (sym k.tail_at) x y z),
      record {
        ring = j;
        depth = i.depth;
        head = i.head;
        tail =
            Moved-aligned d mbox.ctx.tail _ i.depth i.tail (bounds mbox i.ring).0 i.ring.tail_valid
              v m;
      },
    )
