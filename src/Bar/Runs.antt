-- ===== src/Bar/Runs.antt =====
-- A device whose BAR processes map while others register mailboxes: each locked section is a step.
use mxdriver.Common.{
  ℕ, ◌≡◌, ◌<◌, ◌≢◌, refl, sym, ap, ◌∙◌, arith, Bool, true, false, not, ◌==◌, ltb, if◌then◌else◌,
  Option, none, some, [], Ret, u32_max, if_cases, Result, ok, err, einval,
}
use mxdriver.Mbox.{Mbox, mx_mbox_init}
use mxdriver.Bar.{
  Bar, Vma, MboxInfo, Read, failed, nothing, word, Built, max_num_of_mbox, refs_at, mx_bar_vma_open,
  vma_close_locked, vma_close_last, mx_bar_mmap, is_there, has_addr, registered_mbox_matches,
  register_check, finish_publish, register_publish, create_mx_mbox, publish_both, is_reserved,
  after_check, ioctl_register_mbox, mx_free_registered_mboxes, mxdma_unmap_all_bar_vmas,
}
use mxdriver.Bar.Counts.{is_at}
use mxdriver.Bar.Sound.{
  IsSound, mx_bar_vma_open-IsSound, vma_close_locked-IsSound, vma_close_last-IsSound,
  mx_bar_mmap-IsSound, register_publish-IsSound, mx_free_registered_mboxes-IsSound,
  mxdma_unmap_all_bar_vmas-IsSound,
}

-- A device as it is allocated.
abbrev pub fresh : ℕ → Option ℕ → Bar
fresh size reserved = record {
  enabled = false;
  count = 0;
  mapping = none;
  bar_vmas = [];
  bar_mapping_count = λ c. 0;
  sq_mbox_list = λ q. none;
  cq_mbox_list = λ q. none;
  bar_mapped_size = size;
  reserved_hio_qid = reserved;
}

-- Any sequence of the sections. There are fewer than 2^32 - 1 VMAs.
pub data Used : Bar → Type 0 where
  created : (size : ℕ) (reserved : Option ℕ) → Used (fresh size reserved)
  switched : (on : Bool) (s : Bar) → Used s → Used (record s { enabled = on })
  mapped :
      (ctx : ℕ) (vma : Vma) (s : Bar) → Used s → s.count < u32_max → Used (mx_bar_mmap ctx vma s).1
  opened :
      (i : ℕ) (s : Bar)
      → Used s
      → 0 < refs_at i s.bar_vmas
      → s.count < u32_max
      → Used (mx_bar_vma_open i s)
  closed : (i : ℕ) (s : Bar) → Used s → 0 < refs_at i s.bar_vmas → Used (vma_close_locked i s).1
  ended :
      (i : ℕ) (s : Bar)
      → Used s
      → is_at i s.bar_vmas ≡ true
      → refs_at i s.bar_vmas ≡ 0
      → Used (vma_close_last i s)
  published :
      (info : MboxInfo) (sq_mbox cq_mbox : Mbox) (s : Bar)
      → Used s
      → Used (register_publish info sq_mbox cq_mbox s).1
  freed : (s : Bar) → Used s → Used (mx_free_registered_mboxes s)
  unmapped : (s : Bar) → Used s → Used (mxdma_unmap_all_bar_vmas s)

switched-IsSound : (on : Bool) (s : Bar) → IsSound s → IsSound (record s { enabled = on })
switched-IsSound on s a = record {
  counted = a.counted;
  charged = a.charged;
  exclusive = a.exclusive;
  bounded = a.bounded;
  paired = a.paired;
  pinned = a.pinned;
}

-- After any sequence of the locked sections of the BAR mapping (mmap, copies of a VMA by fork or
-- split, closes in their two sections) and of mailbox registration on a fresh device, with fewer
-- than 2^32 - 1 VMAs, bar_map counts the VMAs, each descriptor is charged for its mmap objects
-- that are left, no mailbox is registered while a VMA is left, slots have both mailboxes or none,
-- and the address space is kept only while a VMA is left.
pub Used-IsSound : (s : Bar) → Used s → IsSound s
Used-IsSound _ (created size reserved) = record {
  counted = refl;
  charged = λ c. refl;
  exclusive = λ l. ground (arith, l);
  bounded = λ c. omega arith;
  paired = λ q. refl;
  pinned = λ z. cc;
}
Used-IsSound _ (switched on s r) = switched-IsSound on s (Used-IsSound s r)
Used-IsSound _ (mapped ctx vma s r l) = mx_bar_mmap-IsSound ctx vma s (Used-IsSound s r) l
Used-IsSound _ (opened i s r p l) = mx_bar_vma_open-IsSound i s (Used-IsSound s r) p l
Used-IsSound _ (closed i s r p) = vma_close_locked-IsSound i s (Used-IsSound s r) p
Used-IsSound _ (ended i s r e z) = vma_close_last-IsSound i s (Used-IsSound s r) e z
Used-IsSound _ (published info sq_mbox cq_mbox s r) =
    register_publish-IsSound info sq_mbox cq_mbox s (Used-IsSound s r)
Used-IsSound _ (freed s r) = mx_free_registered_mboxes-IsSound s (Used-IsSound s r)
Used-IsSound _ (unmapped s r) = mxdma_unmap_all_bar_vmas-IsSound s (Used-IsSound s r)

abbrev answer : Bool → Option Ret
answer m = some (if m then none else some einval)

result_of : (m : Bool) → answer m ≡ some none → m ≡ true
result_of true z = refl
result_of false z = absurd (cc z)

-- A call that ends at the check with 0 has found its own mailboxes.
register_check-matches :
    (info : MboxInfo) (s : Bar)
    → register_check info s ≡ some none
    → registered_mbox_matches info s ≡ true
unfolding register_check
register_check-matches info s =
    let P : Option Ret → Type 0 = λ r. r ≡ some none → registered_mbox_matches info s ≡ true in
    if_cases P (not (s.count == 0)) _ _ (λ _ z. absurd (cc z))
      (λ _.
        if_cases P (is_there (s.sq_mbox_list info.qid)) _ _
          (λ _ z. result_of (registered_mbox_matches info s) z) (λ _ z. cc))

finish_publish-matches :
    (info : MboxInfo) (sq_mbox cq_mbox : Mbox) (s : Bar) (r : Option Ret)
    → sq_mbox.r_ctx_addr ≡ info.sq_ctx_addr
    → cq_mbox.r_ctx_addr ≡ info.cq_ctx_addr
    → (r ≡ some none → registered_mbox_matches info s ≡ true)
    → (finish_publish info sq_mbox cq_mbox s r).0 ≡ none
    → registered_mbox_matches info (finish_publish info sq_mbox cq_mbox s r).1 ≡ true
unfolding finish_publish registered_mbox_matches
finish_publish-matches info sq_mbox cq_mbox s (some r) a b k z = k (ap some z)
finish_publish-matches info sq_mbox cq_mbox s none a b k z =
    let e : (info.qid == info.qid) ≡ true = ground arith in rw e (ground (arith, a, b))

publish_both-matches :
    (info : MboxInfo) (sq cq : Result Mbox) (s : Bar)
    → ((m : Mbox) → sq ≡ ok m → m.r_ctx_addr ≡ info.sq_ctx_addr)
    → ((m : Mbox) → cq ≡ ok m → m.r_ctx_addr ≡ info.cq_ctx_addr)
    → (publish_both info sq cq s).0 ≡ none
    → registered_mbox_matches info (publish_both info sq cq s).1 ≡ true
unfolding publish_both register_publish
publish_both-matches info (err e) cq s a b z = cc
publish_both-matches info (ok sq_mbox) (err e) s a b z = cc
publish_both-matches info (ok sq_mbox) (ok cq_mbox) s a b z =
    finish_publish-matches info sq_mbox cq_mbox s (register_check info s) (a sq_mbox refl)
      (b cq_mbox refl) (register_check-matches info s) z

mx_mbox_init-r_ctx_addr :
    (ctx_addr data_addr ctx : ℕ) → (mx_mbox_init ctx_addr data_addr ctx).r_ctx_addr ≡ ctx_addr
unfolding mx_mbox_init
mx_mbox_init-r_ctx_addr ctx_addr data_addr ctx = refl

create_mx_mbox-r_ctx_addr :
    (read : Read) (allocated : Bool) (ctx_addr data_addr : ℕ) (m : Mbox)
    → create_mx_mbox read allocated ctx_addr data_addr ≡ ok m
    → m.r_ctx_addr ≡ ctx_addr
unfolding create_mx_mbox
create_mx_mbox-r_ctx_addr (failed e) allocated ctx_addr data_addr m z = absurd (cc z)
create_mx_mbox-r_ctx_addr nothing allocated ctx_addr data_addr m z = absurd (cc z)
create_mx_mbox-r_ctx_addr (word ctx) allocated ctx_addr data_addr m z =
    let P : Result Mbox → Type 0 = λ r. r ≡ ok m → m.r_ctx_addr ≡ ctx_addr in
    if_cases P (ctx == 18446744073709551615) _ _ (λ _ y. absurd (cc y))
      (λ _.
        if_cases P (not allocated) _ _ (λ _ y. absurd (cc y))
          (λ _ y.
            let e : mx_mbox_init ctx_addr data_addr ctx ≡ m = cc in
            ap (λ k. k.r_ctx_addr) (sym e) ∙ mx_mbox_init-r_ctx_addr ctx_addr data_addr ctx))
      z

after_check-matches :
    (info : MboxInfo) (sq cq : Built) (between : Bar → Bar) (s : Bar) (r : Option Ret)
    → (r ≡ some none → registered_mbox_matches info s ≡ true)
    → (after_check info sq cq between s r).0 ≡ none
    → registered_mbox_matches info (after_check info sq cq between s r).1 ≡ true
unfolding after_check
after_check-matches info sq cq between s (some r) k z = k (ap some z)
after_check-matches info sq cq between s none k z =
    publish_both-matches info
      (create_mx_mbox sq.read sq.allocated info.sq_ctx_addr info.sq_data_addr)
      (create_mx_mbox cq.read cq.allocated info.cq_ctx_addr info.cq_data_addr) (between s)
      (create_mx_mbox-r_ctx_addr sq.read sq.allocated info.sq_ctx_addr info.sq_data_addr)
      (create_mx_mbox-r_ctx_addr cq.read cq.allocated info.cq_ctx_addr info.cq_data_addr) z

has_addr_lem :
    (addr : ℕ) (o : Option Mbox)
    → has_addr addr o ≡ true
    → (m : Mbox) × (o ≡ some m) × (m.r_ctx_addr ≡ addr)
has_addr_lem addr none e = absurd (cc e)
has_addr_lem addr (some m) e = (m, refl, ground (arith, e))

-- Both mailboxes are in the slot, at the addresses that were asked for.
abbrev pub HasMailboxes : MboxInfo → Bar → Type 0
HasMailboxes info s =
    ((m : Mbox) × (s.sq_mbox_list info.qid ≡ some m) × (m.r_ctx_addr ≡ info.sq_ctx_addr))
    × ((m : Mbox) × (s.cq_mbox_list info.qid ≡ some m) × (m.r_ctx_addr ≡ info.cq_ctx_addr))

matches-mailboxes :
    (info : MboxInfo) (s : Bar) → registered_mbox_matches info s ≡ true → HasMailboxes info s
unfolding registered_mbox_matches
matches-mailboxes info s e = (
  has_addr_lem info.sq_ctx_addr (s.sq_mbox_list info.qid) (ground (arith, e)),
  has_addr_lem info.cq_ctx_addr (s.cq_mbox_list info.qid) (ground (arith, e)),
)

not_reserved : (qid : ℕ) (o : Option ℕ) → is_reserved qid o ≡ false → o ≢ some qid
not_reserved qid none e z = absurd (cc z)
not_reserved qid (some reserved) e z = let q : reserved ≡ qid = cc z in ground (arith, e, q)

-- Whatever others do while the mailboxes are built, if ioctl_register_mbox returns 0, then the
-- qid is below MAX_NUM_OF_MBOX and not the reserved one, and its slot has both mailboxes, that of
-- the submission queue at the context address that was asked for it, and that of the completion
-- queue at the one that was asked for that.
pub ioctl_register_mbox-matches :
    (copied : Bool) (info : MboxInfo) (sq cq : Built) (between : Bar → Bar) (s : Bar)
    → (ioctl_register_mbox copied info sq cq between s).0 ≡ none
    → (info.qid < max_num_of_mbox)
      × (s.reserved_hio_qid ≢ some info.qid)
      × HasMailboxes info (ioctl_register_mbox copied info sq cq between s).1
unfolding ioctl_register_mbox
ioctl_register_mbox-matches copied info sq cq between s =
    let P : Ret × Bar → Type 0 = λ r.
      r.0 ≡ none
      → (info.qid < max_num_of_mbox)
        × (s.reserved_hio_qid ≢ some info.qid)
        × HasMailboxes info r.1 in
    if_cases P (not copied) _ _ (λ _ z. absurd (cc z))
      (λ _.
        if_cases P (not (ltb info.qid max_num_of_mbox)) _ _ (λ _ z. absurd (cc z))
          (λ a.
            if_cases P (is_reserved info.qid s.reserved_hio_qid) _ _ (λ _ z. absurd (cc z))
              (λ b z. (
                ground (arith, a),
                not_reserved info.qid s.reserved_hio_qid b,
                matches-mailboxes info (after_check info sq cq between s (register_check info s)).1
                    (after_check-matches info sq cq between s (register_check info s)
                      (register_check-matches info s) z),
              ))))
