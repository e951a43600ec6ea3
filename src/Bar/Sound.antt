-- ===== src/Bar/Sound.antt =====
-- The counts of the mappings, and the exclusion of mailboxes.
use mxdriver.Common.{
  ℕ, ◌+◌, ◌-◌, ◌≡◌, ◌≤◌, ◌<◌, refl, sym, ap, ◌∙◌, arith, true, false, not, ◌==◌, ltb, Bool-cases,
  inl, inr, Option, none, some, Ret, u32_max, if_cases,
}
use mxdriver.Mbox.{Mbox}
use mxdriver.Bar.{
  Bar, Vma, MboxInfo, max_num_of_mbox, is_there, refs_at, unrefer, owner_at, drop_at,
  mx_bar_vma_open, vma_close_locked, vma_close_last, any_registered, mmap_check, mmap_commit,
  finish_mmap, mx_bar_mmap, register_check, finish_publish, register_publish,
  mx_free_registered_mboxes, mxdma_unmap_all_bar_vmas,
}
use mxdriver.Bar.Counts.{
  refs_sum, owned, is_at, refs_at-le, refs_sum-refer, refs_sum-unrefer, owned-refer, owned-unrefer,
  refs_sum-drop_at, owned-drop_at, u32-small, charge, charge_more, pin_down, clear-none, lowered,
  raised,
}

-- What is kept.
pub record IsSound (s : Bar) : Type 0 where
  pub counted : s.count ≡ refs_sum s.bar_vmas
  pub charged : (c : ℕ) → s.bar_mapping_count c ≡ owned c s.bar_vmas
  pub exclusive : 0 < s.count → any_registered max_num_of_mbox s.sq_mbox_list ≡ false
  pub bounded : (c : ℕ) → s.bar_mapping_count c ≤ u32_max
  pub paired : (q : ℕ) → is_there (s.sq_mbox_list q) ≡ is_there (s.cq_mbox_list q)
  pub pinned : is_there s.mapping ≡ true → 0 < s.count

pub mx_bar_vma_open-IsSound :
    (i : ℕ) (s : Bar)
    → IsSound s
    → 0 < refs_at i s.bar_vmas
    → s.count < u32_max
    → IsSound (mx_bar_vma_open i s)
unfolding mx_bar_vma_open
mx_bar_vma_open-IsSound i s a l m =
    let e = u32-small s.count m in
    let r = refs_at-le i s.bar_vmas in
    let d = a.counted in
    let p : 0 < s.count = omega (arith, l, r, d) in
    record {
      counted = e ∙ ap (λ n. n + 1) a.counted ∙ sym (refs_sum-refer i s.bar_vmas l);
      charged = λ c. a.charged c ∙ sym (owned-refer c i s.bar_vmas);
      bounded = a.bounded;
      exclusive = λ _. a.exclusive p;
      paired = a.paired;
      pinned = λ _. rw e (omega arith);
    }

pub vma_close_locked-IsSound :
    (i : ℕ) (s : Bar) → IsSound s → 0 < refs_at i s.bar_vmas → IsSound (vma_close_locked i s).1
unfolding vma_close_locked
vma_close_locked-IsSound i s a l =
    let r = refs_at-le i s.bar_vmas in
    let d = a.counted in
    let p : 0 < s.count = omega (arith, l, r, d) in
    let u = refs_sum-unrefer i s.bar_vmas l in
    let vmas = unrefer i s.bar_vmas in
    if_cases (λ x. IsSound (record x { bar_vmas = vmas })) (s.count == 0) _ _
      (λ z. ground (arith, p, z))
      (λ _. record {
        counted = omega (arith, d, u, p);
        charged = λ c. a.charged c ∙ sym (owned-unrefer c i s.bar_vmas);
        bounded = a.bounded;
        exclusive = λ _. a.exclusive p;
        paired = a.paired;
        pinned = pin_down (s.count - 1) s.mapping;
      })

pub vma_close_last-IsSound :
    (i : ℕ) (s : Bar)
    → IsSound s
    → is_at i s.bar_vmas ≡ true
    → refs_at i s.bar_vmas ≡ 0
    → IsSound (vma_close_last i s)
unfolding vma_close_last
vma_close_last-IsSound i s a l e = record {
  counted = a.counted ∙ sym (refs_sum-drop_at i s.bar_vmas e);
  charged = λ c.
      charge s.bar_mapping_count (owner_at i s.bar_vmas) c (owned c (drop_at i s.bar_vmas))
        (owned c s.bar_vmas) (a.charged c) (owned-drop_at c i s.bar_vmas l);
  bounded = λ c. lowered s.bar_mapping_count (owner_at i s.bar_vmas) c a.bounded;
  exclusive = a.exclusive;
  paired = a.paired;
  pinned = a.pinned;
}

pub mx_free_registered_mboxes-IsSound :
    (s : Bar) → IsSound s → IsSound (mx_free_registered_mboxes s)
unfolding mx_free_registered_mboxes
mx_free_registered_mboxes-IsSound s a = record {
  counted = a.counted;
  charged = a.charged;
  bounded = a.bounded;
  exclusive = λ _. clear-none max_num_of_mbox max_num_of_mbox s.sq_mbox_list (omega arith);
  paired = λ q. elim (Bool-cases (ltb q max_num_of_mbox)) [
    | inl e ↦ rw e refl
    | inr e ↦ rw e (a.paired q)
  ];
  pinned = a.pinned;
}

pub mxdma_unmap_all_bar_vmas-IsSound : (s : Bar) → IsSound s → IsSound (mxdma_unmap_all_bar_vmas s)
unfolding mxdma_unmap_all_bar_vmas
mxdma_unmap_all_bar_vmas-IsSound s a = record {
  counted = a.counted;
  charged = a.charged;
  bounded = a.bounded;
  exclusive = a.exclusive;
  paired = a.paired;
  pinned = λ z. cc;
}

-- What the tests of mx_bar_mmap say where they all pass.
mmap_check-none :
    (ctx : ℕ) (vma : Vma) (s : Bar)
    → mmap_check ctx vma s ≡ none
    → (any_registered max_num_of_mbox s.sq_mbox_list ≡ false)
      × ((s.bar_mapping_count ctx == u32_max) ≡ false)
unfolding mmap_check
mmap_check-none ctx vma s =
    let P : Ret → Type 0 = λ r.
      r ≡ none
      → (any_registered max_num_of_mbox s.sq_mbox_list ≡ false)
        × ((s.bar_mapping_count ctx == u32_max) ≡ false) in
    if_cases P (not s.enabled) _ _ (λ _ z. cc)
      (λ _.
        if_cases P (any_registered max_num_of_mbox s.sq_mbox_list) _ _ (λ _ z. cc)
          (λ g.
            if_cases P (not (vma.vm_pgoff == 0)) _ _ (λ _ z. cc)
              (λ _.
                if_cases P (not vma.vm_shared) _ _ (λ _ z. cc)
                  (λ _.
                    if_cases P (not (vma.vm_size == s.bar_mapped_size)) _ _ (λ _ z. cc)
                      (λ _.
                        if_cases P (s.bar_mapping_count ctx == u32_max) _ _ (λ _ z. cc)
                          (λ h _. (g, h)))))))

finish_mmap-IsSound :
    (ctx : ℕ) (vma : Vma) (s : Bar) (r : Ret)
    → IsSound s
    → s.count < u32_max
    → (r ≡ none
        → (any_registered max_num_of_mbox s.sq_mbox_list ≡ false)
          × ((s.bar_mapping_count ctx == u32_max) ≡ false))
    → IsSound (finish_mmap ctx vma s r).1
unfolding finish_mmap mmap_commit
finish_mmap-IsSound ctx vma s (some e) a l k = a
finish_mmap-IsSound ctx vma s none a l k =
    let (g, h) = k refl in
    let m = a.bounded ctx in
    let e = u32-small s.count l in
    let d = a.counted in
    record {
      counted = e ∙ omega (arith, d);
      charged = λ c. charge_more s.bar_mapping_count ctx c (owned c s.bar_vmas) (a.charged c) m h;
      bounded = λ c. raised s.bar_mapping_count ctx c a.bounded;
      exclusive = λ _. g;
      paired = a.paired;
      pinned = λ _. rw e (omega arith);
    }

pub mx_bar_mmap-IsSound :
    (ctx : ℕ) (vma : Vma) (s : Bar)
    → IsSound s
    → s.count < u32_max
    → IsSound (mx_bar_mmap ctx vma s).1
unfolding mx_bar_mmap
mx_bar_mmap-IsSound ctx vma s a l =
    if_cases {A = Ret × Bar} (λ r. IsSound r.1) (not vma.allocated) _ _ (λ _. a)
      (λ _. finish_mmap-IsSound ctx vma s (mmap_check ctx vma s) a l (mmap_check-none ctx vma s))

register_check-none : (info : MboxInfo) (s : Bar) → register_check info s ≡ none → s.count ≡ 0
unfolding register_check
register_check-none info s =
    let P : Option Ret → Type 0 = λ r. r ≡ none → s.count ≡ 0 in
    if_cases P (not (s.count == 0)) _ _ (λ _ z. cc) (λ e _. ground (arith, e))

finish_publish-IsSound :
    (info : MboxInfo) (sq_mbox cq_mbox : Mbox) (s : Bar) (r : Option Ret)
    → IsSound s
    → (r ≡ none → s.count ≡ 0)
    → IsSound (finish_publish info sq_mbox cq_mbox s r).1
unfolding finish_publish
finish_publish-IsSound info sq_mbox cq_mbox s (some r) a k = a
finish_publish-IsSound info sq_mbox cq_mbox s none a k =
    let z = k refl in
    record {
      counted = a.counted;
      charged = a.charged;
      bounded = a.bounded;
      exclusive = λ l. ground (arith, l, z);
      paired =
          λ q. elim (Bool-cases (q == info.qid)) [ inl e ↦ rw e refl | inr e ↦ rw e (a.paired q) ];
      pinned = a.pinned;
    }

pub register_publish-IsSound :
    (info : MboxInfo) (sq_mbox cq_mbox : Mbox) (s : Bar)
    → IsSound s
    → IsSound (register_publish info sq_mbox cq_mbox s).1
unfolding register_publish
register_publish-IsSound info sq_mbox cq_mbox s a =
    finish_publish-IsSound info sq_mbox cq_mbox s (register_check info s) a
      (register_check-none info s)
