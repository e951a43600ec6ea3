-- ===== src/Ioctl/Append.antt =====
-- What a batch of commands does to the mailbox and to the words in the device.
use mxdriver.Common.{
  ℕ, ◌+◌, ◌*◌, ◌≡◌, ◌≤◌, refl, ap, arith, ◌&&◌, ◌==◌, ltb, ◌⊎◌, inl, inr, none, List, [], ◌∷◌, ◌++◌,
  if_cases,
}
use mxdriver.Mbox.{Mbox, index_of, get_free_space}
use mxdriver.Mbox.Ring.{IsRing, bounds, counts, push-IsRing}
use mxdriver.V1.{Memory}
use mxdriver.V1.Fifo.{contents}
use mxdriver.Bar.{Read}
use mxdriver.Ioctl.{
  get_pushable_count, Wrote, refused, bytes, Batch, list_of, finish_write, write_batch, at_most,
  push_words, viewed, is_failed, send_cmds_locked,
}
use mxdriver.Ioctl.Send.{stored, pushable_at, append_words}

pushable_lem :
    (mbox : Mbox)
    → IsRing mbox
    → (get_pushable_count mbox ≤ get_free_space mbox)
      × (index_of mbox.ctx.tail + get_pushable_count mbox ≤ mbox.depth)
      × (get_pushable_count mbox ≡ 0 → get_free_space mbox ≡ 0)
pushable_lem mbox i =
    let (a, b) = counts mbox i in
    let (x, y, z) =
      pushable_at mbox mbox.depth mbox.ctx.head mbox.ctx.tail (bounds mbox i).1 i.head_valid
        i.tail_valid i.holds in
    (omega (arith, x, b), y, λ e. let w = z e in omega (arith, w, b))

-- What a call that returns 0 has done to a mailbox.
pub record Appended (mem : Memory) (nr_cmds : ℕ) (cmds : ℕ → ℕ) (mbox : Mbox) (r : Batch)
    : Type 0 where
  pub ring : IsRing r.mbox
  pub few : r.count ≤ nr_cmds
  pub words : contents (stored mem r.payload) r.mbox ≡ contents mem mbox ++ list_of cmds 0 r.count
  pub progress : r.count ≡ 0 → (nr_cmds ≡ 0) ⊎ (get_free_space mbox ≡ 0)

append_nil : {A : Type 0} (xs : List A) → xs ≡ xs ++ []
append_nil [] = refl
append_nil (x ∷ xs) = ap (◌∷◌ x) (append_nil xs)

finish_write-Appended :
    (mem : Memory) (wrote : Wrote) (nr_cmds count : ℕ) (cmds : ℕ → ℕ) (mbox : Mbox)
    → IsRing mbox
    → count ≤ nr_cmds
    → count ≤ get_free_space mbox
    → index_of mbox.ctx.tail + count ≤ mbox.depth
    → (count ≡ 0 → nr_cmds ≡ 0)
    → let r = write_batch wrote count cmds mbox in r.ret ≡ none → Appended mem nr_cmds cmds mbox r
unfolding write_batch finish_write
finish_write-Appended mem (refused e) nr_cmds count cmds mbox i a f m g = λ z. absurd (cc z)
finish_write-Appended mem (bytes n) nr_cmds count cmds mbox i a f m g =
    if_cases (λ r. r.ret ≡ none → Appended mem nr_cmds cmds mbox r) (ltb n (8 * count)) _ _
      (λ _ z. absurd (cc z))
      (λ _ _. record {
        ring = (push-IsRing mbox count i f).0;
        few = a;
        words = append_words mem mbox cmds count i f m;
        progress = λ e. inl (g e);
      })

push_words-Appended :
    (mem : Memory) (wrote : Wrote) (nr_cmds : ℕ) (cmds : ℕ → ℕ) (mbox : Mbox)
    → IsRing mbox
    → (push_words wrote nr_cmds cmds mbox).ret ≡ none
    → Appended mem nr_cmds cmds mbox (push_words wrote nr_cmds cmds mbox)
unfolding push_words
push_words-Appended mem wrote nr_cmds cmds mbox i =
    let (a, b, c) = pushable_lem mbox i in
    let n = get_pushable_count mbox in
    if_cases (λ r. r.ret ≡ none → Appended mem nr_cmds cmds mbox r) (n == 0) _ _
      (λ e _. record {
        ring = i;
        few = omega arith;
        words = append_nil (contents mem mbox);
        progress = λ _. inr (c (ground (arith, e)));
      })
      (λ e.
        finish_write-Appended mem wrote nr_cmds (at_most nr_cmds n) cmds mbox i (ground arith)
          (ground (arith, a)) (ground (arith, b)) (ground (arith, e)))

-- Where the mailbox, with the head that the call goes by, is one whose size 7 bits can count to
-- and that holds at most its depth, and the call succeeds, ioctl_send_cmds appends the words that
-- it reports as sent, the first ones of those given, to the words that are pending, without a
-- wrap in the write, keeps it such a mailbox, reports no more than asked for, and reports 0 only
-- where 0 is asked for or there is no free space.
pub send_cmds_locked-Appended :
    (mem : Memory) (read : Read) (wrote : Wrote) (nr_cmds : ℕ) (cmds : ℕ → ℕ) (mbox : Mbox)
    → IsRing (viewed read nr_cmds mbox)
    → (send_cmds_locked read wrote nr_cmds cmds mbox).ret ≡ none
    → Appended mem nr_cmds cmds
        (viewed read nr_cmds mbox)
        (send_cmds_locked read wrote nr_cmds cmds mbox)
unfolding send_cmds_locked
send_cmds_locked-Appended mem read wrote nr_cmds cmds mbox i =
    if_cases (λ r. r.ret ≡ none → Appended mem nr_cmds cmds (viewed read nr_cmds mbox) r)
      (ltb (get_pushable_count mbox) nr_cmds && is_failed read) _ _ (λ _ z. absurd (cc z))
      (λ _. push_words-Appended mem wrote nr_cmds cmds (viewed read nr_cmds mbox) i)
