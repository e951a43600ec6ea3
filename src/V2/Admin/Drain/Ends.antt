-- ===== src/V2/Admin/Drain/Ends.antt =====
-- That the drain ends where the completion of the pending command arrives.
use mxdriver.Common.{
  Outcome, returned, ℕ, ◌≡◌, ◌<◌, refl, ap, ◌∙◌, arith, Bool, true, false, not, ◌&&◌, ◌||◌, ◌==◌,
  Bool-cases, inl, inr, List, [], ◌∷◌, none, if_cases, to_nat,
}
use mxdriver.V2.{Completion}
use mxdriver.V2.Admin.{
  Proto, Look, gone, sees, settle, drain_round, drain_loop, drain_pending_admin,
}
use mxdriver.V2.Admin.Safe.{IsSafe}
use mxdriver.V2.Admin.Live.{shows, names, seen_popable, taken_completion}
use mxdriver.V2.Admin.Drain.{Draining, IsSafe-Draining, drain_round-Draining}

-- Some round, before any that finds the device gone, sees the completion of the pending command.
abbrev pub answers : List Look → Proto → Bool
answers [] p = false
answers (gone ∷ looks) p = false
answers (sees cqes ∷ looks) p =
    (shows cqes p.admin && names cqes p.admin.pending_cid p.admin)
    || answers looks (drain_round cqes p)

idle_returns :
    (looks : List Look) (p : Proto)
    → p.admin.pending ≡ false
    → (drain_loop looks p).0 ≡ returned none
unfolding drain_loop
idle_returns [] p n = rw n refl
idle_returns (gone ∷ looks) p n = rw n refl
idle_returns (sees cqes ∷ looks) p n = rw n refl

settled_round :
    (cqes : ℕ → Completion) (p : Proto)
    → 0 < p.admin.wait_count
    → shows cqes p.admin ≡ true
    → names cqes p.admin.pending_cid p.admin ≡ true
    → (drain_round cqes p).admin.pending ≡ false
unfolding drain_round settle
settled_round cqes p w e f =
    let a = seen_popable cqes p.admin w ∙ e in
    let b = ap (λ x. x.command_id == p.admin.pending_cid) (taken_completion cqes p.admin) ∙ f in
    rw (a, b) refl

drain_loop_returns :
    (looks : List Look) (p : Proto)
    → Draining p
    → p.admin.pending ≡ true
    → answers looks p ≡ true
    → (drain_loop looks p).0 ≡ returned none
unfolding drain_loop
drain_loop_returns [] p d n e = cc
drain_loop_returns (gone ∷ looks) p d n e = cc
drain_loop_returns (sees cqes ∷ looks) p d n e =
    let w : 0 < p.admin.wait_count = let z = d.waits ∙ ap to_nat n in omega (arith, z) in
    let q = drain_round cqes p in
    let next : (drain_loop looks q).0 ≡ returned none = elim (Bool-cases q.admin.pending) [
      | inl x ↦ elim (Bool-cases (shows cqes p.admin && names cqes p.admin.pending_cid p.admin)) [
        | inl y ↦
            let z = settled_round cqes p w (ground (arith, y)) (ground (arith, y)) in
            idle_returns looks q z
        | inr y ↦ drain_loop_returns looks q (drain_round-Draining cqes p n d) x (rw y at e)
      ]
      | inr x ↦ idle_returns looks q x
    ] in
    if_cases {A = Outcome × Proto} (λ r. r.0 ≡ returned none) p.admin.pending _ _ (λ _. next)
      (λ x. cc)

-- If the bookkeeping of the admin queue holds, a command is pending, and some round, before any
-- that finds the device gone, sees the completion of that command, whatever stale completions
-- come first, then drain_pending_admin returns 0.
pub drain_pending_admin-returns :
    (looks : List Look) (p : Proto)
    → IsSafe p
    → p.admin.pending ≡ true
    → answers looks p ≡ true
    → (drain_pending_admin looks p).0 ≡ returned none
unfolding drain_pending_admin
drain_pending_admin-returns looks p s n e =
    if_cases {A = Outcome × Proto} (λ r. r.0 ≡ returned none)
      (p.admin.desynced && not p.admin.pending) _ _ (λ x. ground (arith, x, n))
      (λ _. drain_loop_returns looks p (IsSafe-Draining p s) n e)
