-- ===== src/Ioctl/Recv.antt =====
-- The words that ioctl_recv_cmds takes from those that are pending.
use mxdriver.Common.{
  ℕ, zero, suc, ◌+◌, ◌-◌, ◌*◌, ◌≡◌, ◌≤◌, ◌<◌, refl, sym, ap, ◌∙◌, arith, ◌⊎◌, inr, Option, none,
  some, List, [], ◌∷◌, ◌++◌, if_cases,
}
use mxdriver.Mbox.{
  Mbox, index_of, phase_of, is_empty, get_data_offset, get_pending_count, get_next_index, pop,
}
use mxdriver.Mbox.Index.{IsIndex, Moved, position}
use mxdriver.Mbox.Ring.{IsRing, distance, bounds, counts, next_in, pop-IsRing, space_lem}
use mxdriver.V1.{Memory}
use mxdriver.V1.Fifo.{slot, words_from, contents, words_append, placed}
use mxdriver.Bar.{Read}
use mxdriver.Ioctl.{
  get_popable_count, Batch, at_most, pop_words, with_tail, is_failed, recv_cmds_locked,
}
use mxdriver.Ioctl.Send.{later_slot}

-- `n` words in the device, one after the other.
abbrev pub read_words : Memory → ℕ → ℕ → List ℕ
read_words mem a zero = []
read_words mem a (suc n) = mem a ∷ read_words mem (a + 8) n

-- What a call reads.
abbrev pub taken_words : Memory → Batch → List ℕ
taken_words mem r = words_at r.payload
  where
    words_at : Option (ℕ × List ℕ) → List ℕ
    words_at none = []
    words_at (some (a, _)) = read_words mem a r.count

popable_at :
    (mbox : Mbox) (d head tail : ℕ)
    → d ≤ 128
    → IsIndex d head
    → IsIndex d tail
    → distance d (position d head) (position d tail) ≤ d
    → let m = record mbox { depth = d; ctx = record mbox.ctx { head = head; tail = tail } } in
      (get_popable_count m ≤ distance d (position d head) (position d tail))
      × (index_of head + get_popable_count m ≤ d)
      × (get_popable_count m ≡ 0 → distance d (position d head) (position d tail) ≡ 0)
unfolding get_popable_count IsIndex position index_of phase_of
popable_at mbox d head tail b i j h = ground arith

popable_lem :
    (mbox : Mbox)
    → IsRing mbox
    → (get_popable_count mbox ≤ get_pending_count mbox)
      × (index_of mbox.ctx.head + get_popable_count mbox ≤ mbox.depth)
      × (get_popable_count mbox ≡ 0 → get_pending_count mbox ≡ 0)
popable_lem mbox i =
    let (a, b) = counts mbox i in
    let (x, y, z) =
      popable_at mbox mbox.depth mbox.ctx.head mbox.ctx.tail (bounds mbox i).1 i.head_valid
        i.tail_valid i.holds in
    (omega (arith, x, a), y, λ e. let w = z e in omega (arith, w, a))

Moved-slot :
    (d full n c : ℕ)
    → c ≤ d
    → 1 ≤ d
    → index_of full + c ≤ d
    → IsIndex d full
    → IsIndex d n
    → Moved d full c n
    → index_of n ≡ slot d (index_of full) c
unfolding IsIndex Moved position index_of phase_of
Moved-slot d full n c l p q i j m = ground arith

slot_shift :
    (d h c j : ℕ) → h < d → h + c ≤ d → j + c < d → slot d h (j + c) ≡ slot d (slot d h c) j
slot_shift d h c j a l k = ground arith

words_shift :
    (mem : Memory) (base d h c j n : ℕ)
    → h < d
    → h + c ≤ d
    → j + n + c ≤ d
    → words_from mem base d h (j + c) n ≡ words_from mem base d (slot d h c) j n
words_shift mem base d h c j zero a l k = refl
words_shift mem base d h c j (suc n) a l k =
    let z : j + c + 1 ≡ j + 1 + c = omega arith in
    let r = words_shift mem base d h c (j + 1) n a l (omega (arith, k)) in
    let e = slot_shift d h c j a l (omega (arith, k)) in
    ap (λ x. mem (base + 8 * x) ∷ words_from mem base d h (j + c + 1) n) e
    ∙ ap (λ x. mem (base + 8 * slot d (slot d h c) j) ∷ x)
        (ap (λ x. words_from mem base d h x n) z ∙ r)

in_line :
    (mem : Memory) (base a d h k t n : ℕ)
    → a ≡ base + 8 * t
    → ((i : ℕ) → i < n → slot d h (k + i) ≡ t + i)
    → words_from mem base d h k n ≡ read_words mem a n
in_line mem base a d h k t zero e f = refl
in_line mem base a d h k t (suc n) e f =
    let z : slot d h k ≡ t = ap (slot d h) (omega arith) ∙ f 0 (omega arith) ∙ omega arith in
    let y : base + 8 * slot d h k ≡ a = ap (λ x. base + 8 * x) z ∙ sym e in
    ap (λ x. mem x ∷ words_from mem base d h (k + 1) n) y
    ∙ ap (◌∷◌ (mem a))
        (in_line mem base (a + 8) d h (k + 1) (t + 1) n (omega (arith, e)) (later_slot d h k t n f))

slots_ahead : (d h c : ℕ) → h + c ≤ d → (i : ℕ) → i < c → slot d h (0 + i) ≡ h + i
slots_ahead d h c l i k = ground arith

take_words :
    (mem : Memory) (mbox : Mbox) (c : ℕ)
    → IsRing mbox
    → c ≤ get_pending_count mbox
    → index_of mbox.ctx.head + c ≤ mbox.depth
    → contents mem mbox
      ≡ read_words mem (mbox.data_addr + get_data_offset mbox.ctx.head) c
        ++ contents mem (pop mbox c)
unfolding pop get_data_offset
take_words mem mbox c i f l =
    let d = mbox.depth in
    let h = index_of mbox.ctx.head in
    let b = mbox.data_addr in
    let n = get_pending_count mbox in
    let k = placed mbox i in
    let (_, p, _) = pop-IsRing mbox c i f in
    let q : c ≤ d = omega (arith, k.few, f) in
    let (v, m) = next_in mbox mbox.ctx.head c i i.head_valid q in
    let s =
      Moved-slot d mbox.ctx.head (get_next_index mbox.ctx.head c d) c q (bounds mbox i).0 l
        i.head_valid v m in
    let w : n ≡ c + (n - c) = omega (arith, f) in
    let u : 0 + (n - c) + c ≤ d = omega (arith, f, k.few) in
    let rest =
      words_shift mem b d h c 0 (n - c) k.head_in l u
      ∙ ap (λ x. words_from mem b d x 0 (n - c)) (sym s)
      ∙ ap (words_from mem b d (index_of (get_next_index mbox.ctx.head c d)) 0) (sym p) in
    ap (words_from mem b d h 0) w
    ∙ words_append mem b d h 0 c (n - c)
    ∙ ap (λ x. x ++ words_from mem b d h (0 + c) (n - c))
        (in_line mem b (b + 8 * h) d h 0 h c refl (slots_ahead d h c l))
    ∙ ap (λ x. read_words mem (b + 8 * h) c ++ x) rest

-- What a call that returns 0 has done to a mailbox.
pub record Taken (mem : Memory) (nr_cmds : ℕ) (mbox : Mbox) (r : Batch) : Type 0 where
  pub ring : IsRing r.mbox
  pub few : r.count ≤ nr_cmds
  pub words : contents mem mbox ≡ taken_words mem r ++ contents mem r.mbox
  pub progress : r.count ≡ 0 → (nr_cmds ≡ 0) ⊎ (get_pending_count mbox ≡ 0)

pop_words-Taken :
    (mem : Memory) (nr_cmds : ℕ) (mbox : Mbox)
    → IsRing mbox
    → Taken mem nr_cmds mbox (pop_words nr_cmds mbox)
unfolding pop_words
pop_words-Taken mem nr_cmds mbox i =
    let (a, b, c) = popable_lem mbox i in
    let n = at_most nr_cmds (get_popable_count mbox) in
    let f : n ≤ get_pending_count mbox = ground (arith, a) in
    if_cases (Taken mem nr_cmds mbox) (is_empty mbox) _ _
      (λ e. record {
        ring = i;
        few = omega arith;
        words = refl;
        progress = λ _. inr ((space_lem mbox i).2.0 e);
      })
      (λ _. record {
        ring = (pop-IsRing mbox n i f).0;
        few = ground arith;
        words = take_words mem mbox n i f (ground (arith, b));
        progress = λ e. ground (arith, e, c);
      })

-- Where the mailbox, with the tail that the call goes by, is one whose size 7 bits can count to
-- and that holds at most its depth, and the call succeeds, the words that ioctl_recv_cmds reads
-- from the device, in one piece, are the first ones of those that are pending, and the others
-- stay pending; it keeps it such a mailbox, reports no more than asked for, and reports 0 only
-- where 0 is asked for or nothing is pending.
pub recv_cmds_locked-Taken :
    (mem : Memory) (read : Read) (nr_cmds : ℕ) (mbox : Mbox)
    → IsRing (with_tail read mbox)
    → (recv_cmds_locked read nr_cmds mbox).ret ≡ none
    → Taken mem nr_cmds (with_tail read mbox) (recv_cmds_locked read nr_cmds mbox)
unfolding recv_cmds_locked
recv_cmds_locked-Taken mem read nr_cmds mbox i =
    if_cases (λ r. r.ret ≡ none → Taken mem nr_cmds (with_tail read mbox) r) (is_failed read) _ _
      (λ _ z. absurd (cc z)) (λ _ _. pop_words-Taken mem nr_cmds (with_tail read mbox) i)
