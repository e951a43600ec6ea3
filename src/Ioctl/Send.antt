-- ===== src/Ioctl/Send.antt =====
-- The words that ioctl_send_cmds appends to those that are pending.
use mxdriver.Common.{
  ℕ, zero, suc, ◌+◌, ◌-◌, ◌*◌, ◌≡◌, ◌≤◌, ◌<◌, refl, sym, ap, ◌∙◌, arith, true, false, ◌==◌,
  if◌then◌else◌, ◌⊎◌, Option, none, some, List, [], ◌∷◌, ◌++◌,
}
use mxdriver.Mbox.{
  Mbox, index_of, phase_of, get_data_offset, get_free_space, get_pending_count, push,
}
use mxdriver.Mbox.Index.{IsIndex, position}
use mxdriver.Mbox.Ring.{IsRing, distance, push-IsRing}
use mxdriver.V1.{Memory}
use mxdriver.V1.Fifo.{slot, words_from, contents, words_append, words_same, placed}
use mxdriver.Ioctl.{get_pushable_count, list_of}

-- The words in the device after they are written.
abbrev pub store_words : Memory → ℕ → List ℕ → Memory
store_words mem a [] b = mem b
store_words mem a (w ∷ ws) b = if b == a then w else store_words mem (a + 8) ws b

abbrev pub stored : Memory → Option (ℕ × List ℕ) → Memory
stored mem none = mem
stored mem (some (a, ws)) = store_words mem a ws

pub pushable_at :
    (mbox : Mbox) (d head tail : ℕ)
    → d ≤ 128
    → IsIndex d head
    → IsIndex d tail
    → distance d (position d head) (position d tail) ≤ d
    → let m = record mbox { depth = d; ctx = record mbox.ctx { head = head; tail = tail } } in
      (get_pushable_count m ≤ d - distance d (position d head) (position d tail))
      × (index_of tail + get_pushable_count m ≤ d)
      × (get_pushable_count m ≡ 0 → distance d (position d head) (position d tail) ≡ d)
unfolding get_pushable_count IsIndex position index_of phase_of
pushable_at mbox d head tail b i j h = ground arith

store_other :
    (mem : Memory) (cmds : ℕ → ℕ) (base a t s j n : ℕ)
    → a ≡ base + 8 * t
    → (s < t) ⊎ (t + n ≤ s)
    → store_words mem a (list_of cmds j n) (base + 8 * s) ≡ mem (base + 8 * s)
store_other mem cmds base a t s j zero e l = refl
store_other mem cmds base a t s j (suc n) e l =
    let o : (base + 8 * s == a) ≡ false = ground (arith, e, l) in
    let k : (s < t + 1) ⊎ (t + 1 + n ≤ s) = ground (arith, l) in
    rw o (store_other mem cmds base (a + 8) (t + 1) s (j + 1) n (omega (arith, e)) k)

pub later_slot :
    (d h k t n : ℕ)
    → ((i : ℕ) → i < suc n → slot d h (k + i) ≡ t + i)
    → (i : ℕ) → i < n
    → slot d h (k + 1 + i) ≡ t + 1 + i
later_slot d h k t n f i l =
    let z : k + 1 + i ≡ k + (i + 1) = omega arith in
    let y = f (i + 1) (omega (arith, l)) in ap (slot d h) z ∙ y ∙ omega arith

written :
    (mem : Memory) (cmds : ℕ → ℕ) (base a d h k t j n : ℕ)
    → a ≡ base + 8 * t
    → ((i : ℕ) → i < n → slot d h (k + i) ≡ t + i)
    → words_from (store_words mem a (list_of cmds j n)) base d h k n ≡ list_of cmds j n
written mem cmds base a d h k t j zero e f = refl
written mem cmds base a d h k t j (suc n) e f =
    let z : slot d h k ≡ t = ap (slot d h) (omega arith) ∙ f 0 (omega arith) ∙ omega arith in
    let here : (base + 8 * slot d h k == a) ≡ true = ground (arith, e, z) in
    let rest = list_of cmds (j + 1) n in
    let g = later_slot d h k t n f in
    let same =
      words_same (store_words mem (a + 8) rest) (store_words mem a (cmds j ∷ rest)) base d h (k + 1)
        n
        (λ i l m.
          let y = g (i - (k + 1)) (omega (arith, l, m)) in
          let x : k + 1 + (i - (k + 1)) ≡ i = omega (arith, l) in
          let v : slot d h i ≡ t + 1 + (i - (k + 1)) = ap (slot d h) (sym x) ∙ y in
          let o : (base + 8 * slot d h i == a) ≡ false = ground (arith, e, v) in rw o refl) in
    ap (λ w. w ∷ words_from (store_words mem a (cmds j ∷ rest)) base d h (k + 1) n) (rw here refl)
    ∙ ap (◌∷◌ (cmds j))
        (same ∙ written mem cmds base (a + 8) d h (k + 1) (t + 1) (j + 1) n (omega (arith, e)) g)

slots_before :
    (d h n t c i : ℕ)
    → h < d
    → t ≡ slot d h n
    → n + c ≤ d
    → t + c ≤ d
    → i < n
    → (slot d h i < t) ⊎ (t + c ≤ slot d h i)
slots_before d h n t c i a e l m k = ground arith

slots_here :
    (d h n t c : ℕ)
    → h < d
    → t ≡ slot d h n
    → n + c ≤ d
    → t + c ≤ d
    → (i : ℕ) → i < c
    → slot d h (n + i) ≡ t + i
slots_here d h n t c a e l m i k = ground arith

-- Writing `c` words behind those that are pending, without a wrap.
pub append_words :
    (mem : Memory) (mbox : Mbox) (cmds : ℕ → ℕ) (c : ℕ)
    → IsRing mbox
    → c ≤ get_free_space mbox
    → index_of mbox.ctx.tail + c ≤ mbox.depth
    → contents
        (store_words mem (mbox.data_addr + get_data_offset mbox.ctx.tail) (list_of cmds 0 c))
        (push mbox c)
      ≡ contents mem mbox ++ list_of cmds 0 c
unfolding push get_data_offset
append_words mem mbox cmds c i f m =
    let d = mbox.depth in
    let h = index_of mbox.ctx.head in
    let t = index_of mbox.ctx.tail in
    let b = mbox.data_addr in
    let n = get_pending_count mbox in
    let k = placed mbox i in
    let (_, p, _) = push-IsRing mbox c i f in
    let r : n + c ≤ d = omega (arith, k.free, f, k.few) in
    let mem' = store_words mem (b + 8 * t) (list_of cmds 0 c) in
    let kept = words_same mem mem' b d h 0 n (λ a _ e.
      store_other mem cmds b (b + 8 * t) t (slot d h a) 0 c refl
        (slots_before d h n t c a k.head_in k.tail_at r m (omega (arith, e)))) in
    ap (λ q. words_from mem' b d h 0 q) p
    ∙ words_append mem' b d h 0 n c
    ∙ ap (λ q. q ++ words_from mem' b d h (0 + n) c) kept
    ∙ ap (λ q. words_from mem b d h 0 n ++ words_from mem' b d h q c) (omega arith)
    ∙ ap (λ q. words_from mem b d h 0 n ++ q)
        (written mem cmds b (b + 8 * t) d h n t 0 c refl
          (slots_here d h n t c k.head_in k.tail_at r m))
