-- ===== src/V1/Room.antt =====
-- The test for room by a context that the device has moved on from.
use mxdriver.Common.{ℕ, ◌≡◌, ◌≤◌, ◌*◌, refl, arith, true, leb, ◌↔◌, Bool-cases, inl, inr}
use mxdriver.Mbox.{Mbox, get_free_space, get_pending_count, pop}
use mxdriver.Mbox.Ring.{IsRing, pop-IsRing}
use mxdriver.V1.{data_count, is_pushable}

-- On a mailbox whose size 7 bits can count to and that holds at most its depth, where the device
-- has since taken words that are pending, is_pushable answers true just where the device's
-- context has free space for a command, although it may go by the context that was read before,
-- and the free space of the context that it leaves is at most the true one.
pub is_pushable-get_free_space :
    (mbox : Mbox) (taken : ℕ)
    → IsRing mbox
    → taken ≤ get_pending_count mbox
    → let real = pop mbox taken in
      let (pushable, cached) = is_pushable real.ctx mbox in
      ((pushable ≡ true) ↔ (data_count ≤ get_free_space real))
      × (get_free_space cached ≤ get_free_space real)
unfolding is_pushable pop
is_pushable-get_free_space mbox taken i l =
    let (_, _, f) = pop-IsRing mbox taken i l in
    elim (Bool-cases (leb (data_count * 2) (get_free_space mbox))) [
      | inl t ↦ rw t (((λ _. ground (arith, f)), λ _. refl), omega (arith, f))
      | inr t ↦ rw t (((λ e. ground (arith, e)), λ e. ground (arith, e)), omega arith)
    ]
