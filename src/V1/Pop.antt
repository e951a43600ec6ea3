-- ===== src/V1/Pop.antt =====
-- Taking a command from the queue of pending words.
use mxdriver.Common.{ℕ, zero, suc, ◌+◌, ◌-◌, ◌*◌, ◌≡◌, ◌≤◌, ◌<◌, refl, sym, ap, ◌∙◌, arith, ◌∷◌}
use mxdriver.Mbox.{Mbox, get_data_offset, get_pending_count, pop, index_of, phase_of}
use mxdriver.Mbox.Index.{IsIndex, Moved, position}
use mxdriver.Mbox.Ring.{bounds, next_in, pop-IsRing}
use mxdriver.V1.{Memory, data_count, pop_mx_command}
use mxdriver.V1.Fifo.{slot, words_from, contents, IsAligned, words_append, placed, Moved-aligned}

Moved-slot :
    (d full n : ℕ)
    → 4 ≤ d
    → IsIndex d full
    → IsIndex d n
    → Moved d full 4 n
    → index_of n ≡ slot d (index_of full) 4
unfolding IsIndex Moved position index_of phase_of
Moved-slot d full n p i j m = ground arith

slot_shift : (d h j : ℕ) → h < d → 4 ≤ d → j + 4 ≤ d → slot d h (j + 4) ≡ slot d (slot d h 4) j
slot_shift d h j a p l = ground arith

words_shift :
    (mem : Memory) (base d h j n : ℕ)
    → h < d
    → 4 ≤ d
    → j + n + 4 ≤ d
    → words_from mem base d h (j + 4) n ≡ words_from mem base d (slot d h 4) j n
words_shift mem base d h j zero a p l = refl
words_shift mem base d h j (suc n) a p l =
    let r = words_shift mem base d h (j + 1) n a p (omega (arith, l)) in
    let e = slot_shift d h j a p (omega (arith, l)) in
    ap (λ k. mem (base + 8 * k) ∷ words_from mem base d h (j + 4 + 1) n) e
    ∙ ap (λ k. mem (base + 8 * slot d (slot d h 4) j) ∷ words_from mem base d h k n) (omega arith)
    ∙ ap (◌∷◌ (mem (base + 8 * slot d (slot d h 4) j))) r

-- On a mailbox whose size 7 bits can count to, that holds at most its depth, and whose depth and
-- indices are multiples of the four words of a command, and with a command pending,
-- pop_mx_command takes the first four of the words that are pending, returns the first and the
-- last of them as header and host_addr, and keeps it such a mailbox.
pub pop_mx_command-contents :
    (mem : Memory) (mbox : Mbox)
    → IsAligned mbox
    → data_count ≤ get_pending_count mbox
    → let (header, host_addr, mbox') = pop_mx_command mem mbox in
      (size : ℕ) × (device_addr : ℕ) × (contents mem mbox
        ≡ header ∷ size ∷ device_addr ∷ host_addr ∷ contents mem mbox')
      × IsAligned mbox'
unfolding pop_mx_command pop get_data_offset
pop_mx_command-contents mem mbox i c =
    let d = mbox.depth in
    let h = index_of mbox.ctx.head in
    let n = get_pending_count mbox in
    let k = placed mbox i.ring in
    let (j, p, _) = pop-IsRing mbox 4 i.ring c in
    let (v, m) = next_in mbox mbox.ctx.head 4 i.ring i.ring.head_valid (omega (arith, k.few, c)) in
    let g : 4 ≤ d = omega (arith, k.few, c) in
    let w : n ≡ 4 + (n - 4) = omega (arith, c) in
    let b = mbox.data_addr in
    let s = Moved-slot d mbox.ctx.head _ g i.ring.head_valid v m in
    let first : b + 8 * slot d h 0 ≡ b + 8 * h = ground (arith, k.head_in) in
    let last : b + 8 * slot d h 3 ≡ b + 8 * h + 24 = ground (arith, k.head_in, i.depth, i.head) in
    let second = mem (b + 8 * slot d h 1) in
    let third = mem (b + 8 * slot d h 2) in
    let rest = words_from mem b d h 4 (n - 4) in
    (
      second,
      third,
      ap (words_from mem b d h 0) w
          ∙ words_append mem b d h 0 4 (n - 4)
          ∙ ap (λ x. mem x ∷ second ∷ third ∷ mem (b + 8 * slot d h 3) ∷ rest) first
          ∙ ap (λ x. mem (b + 8 * h) ∷ second ∷ third ∷ mem x ∷ rest) last
          ∙ ap (λ x. mem (b + 8 * h) ∷ second ∷ third ∷ mem (b + 8 * h + 24) ∷ x)
              (words_shift mem b d h 0 (n - 4) k.head_in g (omega (arith, k.few, c))
                ∙ ap (λ x. words_from mem b d x 0 (n - 4)) (sym s)
                ∙ ap (words_from mem b d _ 0) (sym p)),
      record {
        ring = j;
        depth = i.depth;
        head =
            Moved-aligned d mbox.ctx.head _ i.depth i.head (bounds mbox i.ring).0 i.ring.head_valid
              v m;
        tail = i.tail;
      },
    )
