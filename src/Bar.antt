-- ===== src/Bar.antt =====
-- core_common.c: the mappings of the BAR by user space; ioctl.c: the registration of mailboxes, which
-- excludes them. The bar_map's lock makes each section one step; the lease's lock makes the end of a
-- mapping a step of its own.
pub mod Counts
pub mod Sound
pub mod Runs
mod Tests
use mxdriver.Common.{
  ℕ, zero, suc, ◌+◌, ◌-◌, Bool, true, false, not, ◌&&◌, ◌||◌, ◌==◌, ltb, if◌then◌else◌, Option,
  none, some, List, [], ◌∷◌, Ret, Errno, enomem, enodev, ebusy, einval, eoverflow, efault, eio,
  Result, ok, err, u32, u32_max,
}
use mxdriver.Mbox.{Mbox, mx_mbox_init}

-- `struct mx_bar_vma`: one for each mmap(), with the VMAs that share it. At 0 it waits for the
-- lease's lock.
pub record BarVma : Type 0 where
  pub owner_ctx : ℕ
  pub refs : ℕ

-- `struct mx_bar_map`, with what its lock protects of `struct mx_pci_dev`, the `bar_vma`s, and the
-- count of each descriptor.
pub record Bar : Type 0 where
  pub enabled : Bool
  pub count : ℕ
  pub mapping : Option ℕ
  pub bar_vmas : List BarVma
  pub bar_mapping_count : ℕ → ℕ
  pub sq_mbox_list : ℕ → Option Mbox
  pub cq_mbox_list : ℕ → Option Mbox
  pub bar_mapped_size : ℕ
  pub reserved_hio_qid : Option ℕ

-- MAX_NUM_OF_MBOX.
abbrev pub max_num_of_mbox : ℕ
max_num_of_mbox = 80

abbrev pub set {ℓ} : {A : Type ℓ} → (ℕ → A) → ℕ → A → ℕ → A
set f i a j = if j == i then a else f j

abbrev pub is_there {ℓ} : {A : Type ℓ} → Option A → Bool
is_there none = false
is_there (some a) = true

-- The `bar_vma` at a position.
abbrev pub refs_at : ℕ → List BarVma → ℕ
refs_at i [] = 0
refs_at zero (v ∷ vs) = v.refs
refs_at (suc i) (v ∷ vs) = refs_at i vs

abbrev pub refer : ℕ → List BarVma → List BarVma
refer i [] = []
refer zero (v ∷ vs) = record v { refs = v.refs + 1 } ∷ vs
refer (suc i) (v ∷ vs) = v ∷ refer i vs

abbrev pub unrefer : ℕ → List BarVma → List BarVma
unrefer i [] = []
unrefer zero (v ∷ vs) = record v { refs = v.refs - 1 } ∷ vs
unrefer (suc i) (v ∷ vs) = v ∷ unrefer i vs

abbrev pub owner_at : ℕ → List BarVma → ℕ
owner_at i [] = 0
owner_at zero (v ∷ vs) = v.owner_ctx
owner_at (suc i) (v ∷ vs) = owner_at i vs

abbrev pub drop_at : ℕ → List BarVma → List BarVma
drop_at i [] = []
drop_at zero (v ∷ vs) = vs
drop_at (suc i) (v ∷ vs) = v ∷ drop_at i vs

unfoldable pub mx_bar_vma_open : ℕ → Bar → Bar
mx_bar_vma_open i s = record s { count = u32 (s.count + 1); bar_vmas = refer i s.bar_vmas }

abbrev pub count_down : ℕ → Bar → Bar
count_down n s = record s { count = n; mapping = if n == 0 then none else s.mapping }

-- mx_bar_vma_close under the bar_map's lock; the result is `last`.
unfoldable pub vma_close_locked : ℕ → Bar → Bool × Bar
vma_close_locked i s =
    let counted = if s.count == 0 then s else count_down (s.count - 1) s in
    let vmas = unrefer i s.bar_vmas in (refs_at i vmas == 0, record counted { bar_vmas = vmas })

-- And under the lease's, where it was the last.
unfoldable pub vma_close_last : ℕ → Bar → Bar
vma_close_last i s =
    let ctx = owner_at i s.bar_vmas in
    record s {
      bar_mapping_count = set s.bar_mapping_count ctx (s.bar_mapping_count ctx - 1);
      bar_vmas = drop_at i s.bar_vmas;
    }

-- Whether one of the first `n` slots has a mailbox.
abbrev pub any_registered : ℕ → (ℕ → Option Mbox) → Bool
any_registered zero slots = false
any_registered (suc n) slots = is_there (slots n) || any_registered n slots

-- The VMA, and what the kernel answers: the allocation and io_remap_pfn_range.
pub record Vma : Type 0 where
  pub allocated : Bool
  pub vm_pgoff : ℕ
  pub vm_shared : Bool
  pub vm_size : ℕ
  pub f_mapping : ℕ
  pub remapped : Ret

-- The tests of mx_bar_mmap, up to the count of the descriptor.
unfoldable pub mmap_check : ℕ → Vma → Bar → Ret
mmap_check ctx vma s =
    if not s.enabled
    then some enodev
    else if any_registered max_num_of_mbox s.sq_mbox_list
    then some ebusy
    else if not (vma.vm_pgoff == 0)
    then some einval
    else if not vma.vm_shared
    then some einval
    else if not (vma.vm_size == s.bar_mapped_size)
    then some einval
    else if s.bar_mapping_count ctx == u32_max
    then some eoverflow
    else vma.remapped

unfoldable pub mmap_commit : ℕ → Vma → Bar → Bar
mmap_commit ctx vma s = record s {
  mapping = some vma.f_mapping;
  bar_mapping_count = set s.bar_mapping_count ctx (u32 (s.bar_mapping_count ctx + 1));
  bar_vmas = record { owner_ctx = ctx; refs = 1 } ∷ s.bar_vmas;
  count = u32 (s.count + 1);
}

unfoldable pub finish_mmap : ℕ → Vma → Bar → Ret → Ret × Bar
unfolding mmap_commit
finish_mmap ctx vma s (some e) = (some e, s)
finish_mmap ctx vma s none = (none, mmap_commit ctx vma s)

unfoldable pub mx_bar_mmap : ℕ → Vma → Bar → Ret × Bar
unfolding mmap_check finish_mmap
mx_bar_mmap ctx vma s =
    if not vma.allocated then (some enomem, s) else finish_mmap ctx vma s (mmap_check ctx vma s)

-- `struct mx_ioctl_mbox_info`.
pub record MboxInfo : Type 0 where
  pub qid : ℕ
  pub sq_ctx_addr : ℕ
  pub sq_data_addr : ℕ
  pub cq_ctx_addr : ℕ
  pub cq_data_addr : ℕ

-- What read_ctrl_from_device does: it fails, reads nothing, or reads a word.
pub data Read : Type 0 where
  failed : Errno → Read
  nothing : Read
  word : ℕ → Read

unfoldable pub create_mx_mbox : Read → Bool → ℕ → ℕ → Result Mbox
create_mx_mbox (failed e) allocated ctx_addr data_addr = err e
create_mx_mbox nothing allocated ctx_addr data_addr = err eio
create_mx_mbox (word ctx) allocated ctx_addr data_addr =
    if ctx == 18446744073709551615
    then err einval
    else if not allocated
    then err enomem
    else ok (mx_mbox_init ctx_addr data_addr ctx)

abbrev pub has_addr : ℕ → Option Mbox → Bool
has_addr addr none = false
has_addr addr (some mbox) = mbox.r_ctx_addr == addr

unfoldable pub registered_mbox_matches : MboxInfo → Bar → Bool
registered_mbox_matches info s =
    has_addr info.sq_ctx_addr (s.sq_mbox_list info.qid)
    && has_addr info.cq_ctx_addr (s.cq_mbox_list info.qid)

-- The section of ioctl_register_mbox before the mailboxes are built, and the tests of the one after:
-- the result where the call ends there.
unfoldable pub register_check : MboxInfo → Bar → Option Ret
unfolding registered_mbox_matches
register_check info s =
    if not (s.count == 0)
    then some (some ebusy)
    else if is_there (s.sq_mbox_list info.qid)
    then some (if registered_mbox_matches info s then none else some einval)
    else none

unfoldable pub finish_publish : MboxInfo → Mbox → Mbox → Bar → Option Ret → Ret × Bar
finish_publish info sq_mbox cq_mbox s (some r) = (r, s)
finish_publish info sq_mbox cq_mbox s none = (
  none,
  record s {
    sq_mbox_list = set s.sq_mbox_list info.qid (some sq_mbox);
    cq_mbox_list = set s.cq_mbox_list info.qid (some cq_mbox);
  },
)

unfoldable pub register_publish : MboxInfo → Mbox → Mbox → Bar → Ret × Bar
unfolding register_check finish_publish
register_publish info sq_mbox cq_mbox s =
    finish_publish info sq_mbox cq_mbox s (register_check info s)

abbrev pub clear : ℕ → (ℕ → Option Mbox) → ℕ → Option Mbox
clear n slots qid = if ltb qid n then none else slots qid

unfoldable pub mx_free_registered_mboxes : Bar → Bar
mx_free_registered_mboxes s = record s {
  sq_mbox_list = clear max_num_of_mbox s.sq_mbox_list;
  cq_mbox_list = clear max_num_of_mbox s.cq_mbox_list;
}

unfoldable pub mxdma_unmap_all_bar_vmas : Bar → Bar
mxdma_unmap_all_bar_vmas s = record s { mapping = none }

-- What the device and the allocator answer for one of the two mailboxes.
pub record Built : Type 0 where
  pub read : Read
  pub allocated : Bool

unfoldable pub publish_both : MboxInfo → Result Mbox → Result Mbox → Bar → Ret × Bar
unfolding register_publish
publish_both info (err e) cq s = (some e, s)
publish_both info (ok sq_mbox) (err e) s = (some e, s)
publish_both info (ok sq_mbox) (ok cq_mbox) s = register_publish info sq_mbox cq_mbox s

abbrev pub is_reserved : ℕ → Option ℕ → Bool
is_reserved qid none = false
is_reserved qid (some reserved) = qid == reserved

unfoldable pub after_check : MboxInfo → Built → Built → (Bar → Bar) → Bar → Option Ret → Ret × Bar
unfolding create_mx_mbox publish_both
after_check info sq cq between s (some r) = (r, s)
after_check info sq cq between s none =
    publish_both info (create_mx_mbox sq.read sq.allocated info.sq_ctx_addr info.sq_data_addr)
      (create_mx_mbox cq.read cq.allocated info.cq_ctx_addr info.cq_data_addr) (between s)

-- `between` is what others do while the mailboxes are built.
unfoldable pub ioctl_register_mbox : Bool → MboxInfo → Built → Built → (Bar → Bar) → Bar → Ret × Bar
unfolding register_check after_check
ioctl_register_mbox copied info sq cq between s =
    if not copied
    then (some efault, s)
    else if not (ltb info.qid max_num_of_mbox)
    then (some einval, s)
    else if is_reserved info.qid s.reserved_hio_qid
    then (some ebusy, s)
    else after_check info sq cq between s (register_check info s)
