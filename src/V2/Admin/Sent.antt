-- ===== src/V2/Admin/Sent.antt =====
-- What an admin command leaves on the submission ring, and what the wait for its end finds.
use mxdriver.Common.{
  ℕ, zero, suc, ◌+◌, ◌<◌, ◌≡◌, ◌≢◌, refl, sym, ap, ◌∙◌, arith, true, false, Option, none, some,
  ◌==◌, if◌then◌else◌, if_cases, Bool-cases, inl, inr,
}
use mxdriver.V2.{
  Completion, RingsV2, set, is_popable, push_mx_command, pop_mx_completion, update_sq_doorbell,
  update_cq_doorbell, ring_sq_doorbell, ring_cq_doorbell,
}
use mxdriver.V2.Admin.{
  AdminCommand, Admin, Dma, is_busy, look, take_completion, await_terminal, issue,
}

-- The submission ring with its doorbell.
abbrev pub sq_side : RingsV2 AdminCommand → (ℕ → AdminCommand) × ℕ × ℕ × ℕ × ℕ
sq_side q = (q.sqes, q.depth, q.sq_tail, q.last_sq_tail, q.sq_db)

update_cq_doorbell-sq_side : (q : RingsV2 AdminCommand) → sq_side (update_cq_doorbell q) ≡ sq_side q
unfolding update_cq_doorbell
update_cq_doorbell-sq_side q =
    if_cases {A = RingsV2 AdminCommand} (λ r. sq_side r ≡ sq_side q) (q.cq_head + 1 == q.depth) _ _
      (λ _. refl) (λ _. refl)

ring_cq_doorbell-sq_side : (q : RingsV2 AdminCommand) → sq_side (ring_cq_doorbell q) ≡ sq_side q
unfolding ring_cq_doorbell
ring_cq_doorbell-sq_side q =
    if_cases {A = RingsV2 AdminCommand} (λ r. sq_side r ≡ sq_side q) (q.last_cq_head == q.cq_head) _
      _ (λ _. refl) (λ _. refl)

take_completion-sq_side : (a : Admin) → sq_side (take_completion a).1.rings ≡ sq_side a.rings
unfolding take_completion pop_mx_completion
take_completion-sq_side a =
    ring_cq_doorbell-sq_side (pop_mx_completion a.rings).1
    ∙ update_cq_doorbell-sq_side
        (record a.rings { sq_head = (a.rings.cqes a.rings.cq_head).sq_head })

-- A completion that the wait has taken for the command is for it, and one of the looks found it.
abbrev pub Seen : Dma → ℕ → ℕ → Option Completion → Type 0
Seen dma looks cid none = Unit {0}
Seen dma looks cid (some cmpl) =
    (cmpl.command_id ≡ cid) × ((n : ℕ) × (i : ℕ) × (n < looks) × (dma n i ≡ cmpl))

Seen-more :
    (dma : Dma) (looks cid : ℕ) (o : Option Completion)
    → Seen dma looks cid o
    → Seen dma (suc looks) cid o
Seen-more dma looks cid none s = tt
Seen-more dma looks cid (some cmpl) (e, (n, i, l, f)) = (e, (n, i, omega (arith, l), f))

-- The wait leaves the submission ring alone.
pub record Awaited (dma : Dma) (looks cid : ℕ) (a : Admin) (r : Option Completion × Admin)
    : Type 0 where
  pub same_sq : sq_side r.1.rings ≡ sq_side a.rings
  pub seen : Seen dma looks cid r.0

pub await_terminal-Awaited :
    (dma : Dma) (n cid : ℕ) (a : Admin) → Awaited dma n cid a (await_terminal dma n cid a)
unfolding await_terminal look take_completion pop_mx_completion
await_terminal-Awaited dma zero cid a = record { same_sq = refl; seen = tt }
await_terminal-Awaited dma (suc n) cid a =
    let seen = look (dma n) a in
    let taken = (take_completion seen).1 in
    let t : sq_side taken.rings ≡ sq_side a.rings = take_completion-sq_side seen in
    elim (Bool-cases (is_popable (is_busy seen) seen.rings)) [
      | inl e ↦ rw e (elim (Bool-cases ((take_completion seen).0.command_id == cid)) [
        | inl f ↦ rw f (record {
          same_sq = t;
          seen = (ground (arith, f), (n, a.rings.cq_head, omega arith, refl));
        })
        | inr f ↦
            let r = await_terminal-Awaited dma n cid taken in
            rw f (record { same_sq = r.same_sq ∙ t; seen = Seen-more dma n cid _ r.seen })
      ])
      | inr e ↦
          let r = await_terminal-Awaited dma n cid seen in
          rw e (record { same_sq = r.same_sq; seen = Seen-more dma n cid _ r.seen })
    ]

-- The command is in the submission ring, with its number, where the tail was; the other entries are
-- as they were, the tail is one place on, and the doorbell has been rung with it, but where the last
-- one was the same.
pub record Given (c : AdminCommand) (cid : ℕ) (old q : RingsV2 AdminCommand) : Type 0 where
  pub placed : q.sqes old.sq_tail ≡ record c { command_id = cid }
  pub others : (i : ℕ) → i ≢ old.sq_tail → q.sqes i ≡ old.sqes i
  pub same_depth : q.depth ≡ old.depth
  pub moved : q.sq_tail ≡ (if old.sq_tail + 1 == old.depth then 0 else old.sq_tail + 1)
  pub rung : q.last_sq_tail ≡ q.sq_tail
  pub doorbell : q.sq_db ≡ (if old.last_sq_tail == q.sq_tail then old.sq_db else q.sq_tail)

-- Whether the doorbell is rung or has been rung with this tail before.
rung-Given :
    (c : AdminCommand) (cid : ℕ) (old q : RingsV2 AdminCommand)
    → q.sqes old.sq_tail ≡ record c { command_id = cid }
    → ((i : ℕ) → i ≢ old.sq_tail → q.sqes i ≡ old.sqes i)
    → q.depth ≡ old.depth
    → q.sq_tail ≡ (if old.sq_tail + 1 == old.depth then 0 else old.sq_tail + 1)
    → q.last_sq_tail ≡ old.last_sq_tail
    → q.sq_db ≡ old.sq_db
    → Given c cid old (ring_sq_doorbell q)
unfolding ring_sq_doorbell
rung-Given c cid old q p o d m l b =
    if_cases {A = RingsV2 AdminCommand} (Given c cid old) (q.last_sq_tail == q.sq_tail) _ _
      (λ e. record {
        placed = p;
        others = o;
        same_depth = d;
        moved = m;
        rung = ground (arith, e);
        doorbell = rw (sym l, e) b;
      })
      (λ e. record {
        placed = p;
        others = o;
        same_depth = d;
        moved = m;
        rung = refl;
        doorbell = rw (sym l, e) refl;
      })

set_here : (f : ℕ → AdminCommand) (t : ℕ) (x : AdminCommand) → set f t x t ≡ x
set_here f t x = let e : (t == t) ≡ true = ground arith in rw e refl

set_there : (f : ℕ → AdminCommand) (t : ℕ) (x : AdminCommand) (i : ℕ) → i ≢ t → set f t x i ≡ f i
set_there f t x i n = let e : (i == t) ≡ false = ground (arith, n) in rw e refl

pub issue-Given :
    (c : AdminCommand) (cid : ℕ) (a : Admin) → Given c cid a.rings (issue c cid a).rings
unfolding issue push_mx_command update_sq_doorbell
issue-Given c cid a =
    let q : RingsV2 AdminCommand = a.rings in
    let sent : AdminCommand = record c { command_id = cid } in
    let here : set q.sqes q.sq_tail sent q.sq_tail ≡ sent = set_here q.sqes q.sq_tail sent in
    let there = set_there q.sqes q.sq_tail sent in
    if_cases {A = RingsV2 AdminCommand} (λ r. Given c cid q (ring_sq_doorbell r))
      (q.sq_tail + 1 == q.depth) _ _
      (λ e. rung-Given c cid q _ here there refl (rw e refl) refl refl)
      (λ e. rung-Given c cid q _ here there refl (rw e refl) refl refl)

pub Given-kept :
    (c : AdminCommand) (cid : ℕ) (old q r : RingsV2 AdminCommand)
    → Given c cid old q
    → sq_side r ≡ sq_side q
    → Given c cid old r
Given-kept c cid old q r g e =
    let f : r.sqes ≡ q.sqes = ap (λ t. t.0) e in
    let d : r.depth ≡ q.depth = ap (λ t. t.1) e in
    let t : r.sq_tail ≡ q.sq_tail = ap (λ t. t.2) e in
    let l : r.last_sq_tail ≡ q.last_sq_tail = ap (λ t. t.3) e in
    let b : r.sq_db ≡ q.sq_db = ap (λ t. t.4) e in
    record {
      placed = ap (λ h. h old.sq_tail) f ∙ g.placed;
      others = λ i n. ap (λ h. h i) f ∙ g.others i n;
      same_depth = d ∙ g.same_depth;
      moved = t ∙ g.moved;
      rung = l ∙ g.rung ∙ sym t;
      doorbell = b ∙ rw t g.doorbell;
    }
