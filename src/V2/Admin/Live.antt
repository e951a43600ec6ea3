-- ===== src/V2/Admin/Live.antt =====
-- That the waits for the admin queue end where the device answers.
use mxdriver.Common.{
  ℕ, zero, suc, ◌%◌, ◌≡◌, ◌<◌, refl, sym, ap, ◌∙◌, arith, Bool, true, false, ◌==◌, ltb, Bool-cases,
  Option, none, some, inl, inr, if_cases,
}
use mxdriver.V2.{
  pop_mx_completion, Completion, RingsV2, is_pushable, is_popable, push_mx_command,
  ring_sq_doorbell, update_sq_doorbell,
}
use mxdriver.V2.Admin.{
  AdminCommand, Admin, Proto, Dma, is_busy, look, take_completion, await_terminal, issue, conclude,
  submit_sync_command, number, wait_pushable, timeout,
}

-- The memory has a new completion where the queue looks.
abbrev pub shows : (ℕ → Completion) → Admin → Bool
shows cqes a = (cqes a.rings.cq_head).status % 2 == a.rings.cq_phase

abbrev pub names : (ℕ → Completion) → ℕ → Admin → Bool
names cqes cid a = (cqes a.rings.cq_head).command_id == cid

pub seen_popable :
    (cqes : ℕ → Completion) (a : Admin)
    → 0 < a.wait_count
    → is_popable (is_busy (look cqes a)) (look cqes a).rings ≡ shows cqes a
unfolding is_popable look
seen_popable cqes a w = let b : ltb 0 a.wait_count ≡ true = ground (arith, w) in rw b refl

hit :
    (dma : Dma) (n cid : ℕ) (a : Admin)
    → is_popable (is_busy (look (dma n) a)) (look (dma n) a).rings ≡ true
    → ((take_completion (look (dma n) a)).0.command_id == cid) ≡ true
    → (await_terminal dma (suc n) cid a).0 ≡ some (take_completion (look (dma n) a)).0
unfolding await_terminal
hit dma n cid a e f = rw (e, f) refl

miss :
    (dma : Dma) (n cid : ℕ) (a : Admin)
    → is_popable (is_busy (look (dma n) a)) (look (dma n) a).rings ≡ false
    → await_terminal dma (suc n) cid a ≡ await_terminal dma n cid (look (dma n) a)
unfolding await_terminal
miss dma n cid a e = rw e refl

pub taken_completion :
    (cqes : ℕ → Completion) (a : Admin) → (take_completion (look cqes a)).0 ≡ cqes a.rings.cq_head
unfolding take_completion look pop_mx_completion
taken_completion cqes a = refl

await_terminal-answer :
    (dma : Dma) (n k cid : ℕ) (a : Admin)
    → 0 < a.wait_count
    → k < n
    → ((m : ℕ) → k < m → m < n → shows (dma m) a ≡ false)
    → shows (dma k) a ≡ true
    → names (dma k) cid a ≡ true
    → (await_terminal dma n cid a).0 ≡ some (dma k a.rings.cq_head)
unfolding look
await_terminal-answer dma zero k cid a w l q e f = ground (arith, l)
await_terminal-answer dma (suc n) k cid a w l q e f = elim (Bool-cases (k == n)) [
  | inl t ↦
      let z : k ≡ n = ground (arith, t) in
      let p = seen_popable (dma n) a w ∙ ap (λ i. shows (dma i) a) (sym z) ∙ e in
      let c = taken_completion (dma n) a in
      let i = ap (λ x. x.command_id == cid) c ∙ ap (λ i. names (dma i) cid a) (sym z) ∙ f in
      hit dma n cid a p i ∙ ap some c ∙ ap (λ i. some (dma i a.rings.cq_head)) (sym z)
  | inr t ↦
      let o : k < n = ground (arith, t, l) in
      let p = seen_popable (dma n) a w ∙ q n o (omega arith) in
      ap (λ r. r.0) (miss dma n cid a p)
      ∙ await_terminal-answer dma n k cid (look (dma n) a) w o (λ m x y. q m x (omega (arith, y))) e
          f
]

wait_pushable_lem :
    (n : ℕ) (rings : RingsV2 AdminCommand)
    → 0 < n
    → is_pushable rings ≡ true
    → wait_pushable n rings ≡ true
unfolding wait_pushable
wait_pushable_lem zero rings l e = ground (arith, l)
wait_pushable_lem (suc n) rings l e = rw e refl

-- The command goes to the rings without a change to where the next completion is.
issue-cq :
    (c : AdminCommand) (cid : ℕ) (a : Admin)
    → ((issue c cid a).rings.cq_head ≡ a.rings.cq_head)
      × ((issue c cid a).rings.cq_phase ≡ a.rings.cq_phase)
unfolding issue push_mx_command ring_sq_doorbell update_sq_doorbell
issue-cq c cid a = ground arith

shows-same :
    (cqes : ℕ → Completion) (a b : Admin)
    → (a.rings.cq_head ≡ b.rings.cq_head) × (a.rings.cq_phase ≡ b.rings.cq_phase)
    → shows cqes a ≡ shows cqes b
shows-same cqes a b (e, f) = rw (e, f) refl

conclude-some :
    (c : AdminCommand) (p : Proto) (r : Option Completion × Admin) (cmpl : Completion)
    → r.0 ≡ some cmpl
    → (conclude c.opcode p r).0 ≡ some cmpl.result
unfolding conclude
conclude-some c p (none, a) cmpl e = absurd (cc e)
conclude-some c p (some x, a) cmpl e = let z : x ≡ cmpl = cc in ap (λ y. some y.result) z

issue-busy : (c : AdminCommand) (cid : ℕ) (a : Admin) → 0 < (issue c cid a).wait_count
unfolding issue
issue-busy c cid a = omega arith

goes :
    (dma : Dma) (c : AdminCommand) (p : Proto)
    → p.admin.desynced ≡ false
    → wait_pushable timeout (number p.admin).rings ≡ true
    → submit_sync_command dma c p
      ≡ conclude c.opcode p (
          await_terminal dma timeout
            (number p.admin).next_cid
            (issue c (number p.admin).next_cid (number p.admin)))
unfolding submit_sync_command
goes dma c p s w =
    let r = conclude c.opcode p (
      await_terminal dma timeout (number p.admin).next_cid
        (issue c (number p.admin).next_cid (number p.admin))) in
    if_cases (λ x. x ≡ r) p.admin.desynced _ _ (λ x. ground (arith, x, s))
      (λ _.
        if_cases (λ x. x ≡ r) (wait_pushable timeout (number p.admin).rings) _ _ (λ _. refl)
          (λ x. ground (arith, x, w)))

same_rings : (a : Admin) → (number a).rings ≡ a.rings
unfolding number
same_rings a = refl

-- Where the admin queue is not desynced and its submission ring has room, and one of the looks of
-- submit_sync_command, whose number k counts the looks left after it, finds a completion with the
-- number of the command where no earlier look has found any, submit_sync_command succeeds with
-- the result of that completion.
pub submit_sync_command-answered :
    (dma : Dma) (k : ℕ) (c : AdminCommand) (p : Proto)
    → p.admin.desynced ≡ false
    → is_pushable p.admin.rings ≡ true
    → k < timeout
    → ((m : ℕ) → k < m → m < timeout → shows (dma m) p.admin ≡ false)
    → shows (dma k) p.admin ≡ true
    → names (dma k) (number p.admin).next_cid p.admin ≡ true
    → (submit_sync_command dma c p).0 ≡ some (dma k p.admin.rings.cq_head).result
submit_sync_command-answered dma k c p s r l q e f =
    let cid = (number p.admin).next_cid in
    let a = issue c cid (number p.admin) in
    let (h, b) = issue-cq c cid (number p.admin) in
    let u = same_rings p.admin in
    let g : a.rings.cq_head ≡ p.admin.rings.cq_head = h ∙ ap (λ x. x.cq_head) u in
    let same : (a.rings.cq_head ≡ p.admin.rings.cq_head)
        × (a.rings.cq_phase ≡ p.admin.rings.cq_phase) =
      (g, b ∙ ap (λ x. x.cq_phase) u) in
    let w = wait_pushable_lem timeout (number p.admin).rings (omega arith) (ap is_pushable u ∙ r) in
    let got =
      await_terminal-answer dma timeout k cid a (issue-busy c cid (number p.admin)) l
        (λ m x y. shows-same (dma m) a p.admin same ∙ q m x y)
        (shows-same (dma k) a p.admin same ∙ e) (ap (λ x. (dma k x).command_id == cid) g ∙ f) in
    ap (λ x. x.0) (goes dma c p s w)
    ∙ conclude-some c p (await_terminal dma timeout cid a) (dma k a.rings.cq_head) got
    ∙ ap (λ x. some (dma k x).result) g
