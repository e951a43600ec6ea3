-- ===== src/V2/Admin/Safe.antt =====
-- The state that the admin queue's operations keep: a command that may still complete is known as
-- pending, and the device has no submission ring without its completion ring.
use mxdriver.Common.{
  ℕ, zero, suc, ◌+◌, ◌≡◌, refl, sym, ap, ◌∙◌, arith, Bool, true, false, not, ◌||◌, ◌==◌, Bool-cases,
  inl, inr, Option, none, some, if_cases, to_nat,
}
use mxdriver.V2.{Completion, is_popable}
use mxdriver.V2.Admin.{
  AdminOpcode, create_io_cq, delete_io_cq, create_io_sq, delete_io_sq, AdminCommand, Admin, HwQueue,
  Proto, Dma, record_io, record_admin_terminal, is_busy, look, take_completion, await_terminal,
  issue, settle, conclude, submit_sync_command, wait_pushable, timeout, number,
}
use mxdriver.V2.Admin.Recover.{has_cq, has_sq}

-- Every submission ring of the device has its completion ring.
abbrev pub ordered : Option HwQueue → Bool
ordered io = not (has_sq io) || has_cq io

-- The commands that keep it so, whenever they are carried out.
abbrev pub allows : AdminOpcode → Option HwQueue → Bool
allows create_io_cq io = true
allows create_io_sq io = has_cq io
allows delete_io_sq io = true
allows delete_io_cq io = not (has_sq io)

-- Between the operations.
pub record IsSafe (p : Proto) : Type 0 where
  pub waits : p.admin.wait_count ≡ to_nat p.admin.pending
  pub stuck : p.admin.desynced ≡ p.admin.pending
  pub poisoned : (not p.admin.pending || p.protocol_poisoned) ≡ true
  pub allowed : (not p.admin.pending || allows p.admin.pending_opcode p.io) ≡ true
  pub in_order : ordered p.io ≡ true

pub record_admin_terminal-ordered :
    (opcode : AdminOpcode) (result : ℕ) (io : Option HwQueue)
    → allows opcode io ≡ true
    → ordered io ≡ true
    → ordered (record_admin_terminal opcode result io) ≡ true
unfolding record_admin_terminal record_io
record_admin_terminal-ordered create_io_cq result none a o = o
record_admin_terminal-ordered create_io_cq result (some io) a o = ground arith
record_admin_terminal-ordered create_io_sq result none a o = o
record_admin_terminal-ordered create_io_sq result (some io) a o = a
record_admin_terminal-ordered delete_io_sq result none a o = o
record_admin_terminal-ordered delete_io_sq result (some io) a o = refl
record_admin_terminal-ordered delete_io_cq result none a o = o
record_admin_terminal-ordered delete_io_cq result (some io) a o = ground arith

-- The queue apart from its rings.
pub record SameBooks (a b : Admin) : Type 0 where
  pub same_waits : a.wait_count ≡ b.wait_count
  pub same_next : a.next_cid ≡ b.next_cid
  pub same_cid : a.pending_cid ≡ b.pending_cid
  pub same_opcode : a.pending_opcode ≡ b.pending_opcode
  pub same_pending : a.pending ≡ b.pending
  pub same_desynced : a.desynced ≡ b.desynced

SameBooks-refl : (a : Admin) → SameBooks a a
SameBooks-refl a = record {
  same_waits = refl;
  same_next = refl;
  same_cid = refl;
  same_opcode = refl;
  same_pending = refl;
  same_desynced = refl;
}

pub SameBooks-trans : (a b c : Admin) → SameBooks a b → SameBooks b c → SameBooks a c
SameBooks-trans a b c x y = record {
  same_waits = x.same_waits ∙ y.same_waits;
  same_next = x.same_next ∙ y.same_next;
  same_cid = x.same_cid ∙ y.same_cid;
  same_opcode = x.same_opcode ∙ y.same_opcode;
  same_pending = x.same_pending ∙ y.same_pending;
  same_desynced = x.same_desynced ∙ y.same_desynced;
}

pub SameBooks-look : (cqes : ℕ → Completion) (a : Admin) → SameBooks (look cqes a) a
unfolding look
SameBooks-look cqes a = record {
  same_waits = refl;
  same_next = refl;
  same_cid = refl;
  same_opcode = refl;
  same_pending = refl;
  same_desynced = refl;
}

pub SameBooks-take : (a : Admin) → SameBooks (take_completion a).1 a
unfolding take_completion
SameBooks-take a = record {
  same_waits = refl;
  same_next = refl;
  same_cid = refl;
  same_opcode = refl;
  same_pending = refl;
  same_desynced = refl;
}

pub SameBooks-await :
    (dma : Dma) (n cid : ℕ) (a : Admin) → SameBooks (await_terminal dma n cid a).1 a
unfolding await_terminal
SameBooks-await dma zero cid a = SameBooks-refl a
SameBooks-await dma (suc n) cid a =
    let seen = look (dma n) a in
    let taken = (take_completion seen).1 in
    let popable = is_popable (is_busy seen) seen.rings in
    let s : SameBooks seen a = SameBooks-look (dma n) a in
    let t : SameBooks taken a = SameBooks-trans taken seen a (SameBooks-take seen) s in
    elim (Bool-cases popable) [
      | inl e ↦ rw e (elim (Bool-cases ((take_completion seen).0.command_id == cid)) [
        | inl f ↦ rw f t
        | inr f ↦ rw f (
            SameBooks-trans (await_terminal dma n cid taken).1 taken a
              (SameBooks-await dma n cid taken) t)
      ])
      | inr e ↦ rw e (
          SameBooks-trans (await_terminal dma n cid seen).1 seen a (SameBooks-await dma n cid seen)
            s)
    ]

-- A command that is settled, from a state in which it was allowed.
pub settle-IsSafe :
    (opcode : AdminOpcode) (result : ℕ) (a : Admin) (p : Proto)
    → a.wait_count ≡ 1
    → a.desynced ≡ false
    → allows opcode p.io ≡ true
    → ordered p.io ≡ true
    → IsSafe (settle opcode result a p)
unfolding settle
settle-IsSafe opcode result a p w d l o = record {
  waits = omega (arith, w);
  stuck = d;
  poisoned = refl;
  allowed = refl;
  in_order = record_admin_terminal-ordered opcode result p.io l o;
}

conclude-IsSafe :
    (opcode : AdminOpcode) (p : Proto) (r : Option Completion × Admin)
    → r.1.wait_count ≡ 1
    → r.1.pending ≡ true
    → r.1.pending_opcode ≡ opcode
    → r.1.desynced ≡ false
    → allows opcode p.io ≡ true
    → ordered p.io ≡ true
    → IsSafe (conclude opcode p r).1
unfolding conclude
conclude-IsSafe opcode p (none, a) w b c d l o = record {
  waits = w ∙ ap to_nat (sym b);
  stuck = sym b;
  poisoned = rw b refl;
  allowed = rw (b, c) l;
  in_order = o;
}
conclude-IsSafe opcode p (some cmpl, a) w b c d l o = settle-IsSafe opcode cmpl.result a p w d l o

-- The three ways through submit_sync_command.
pub submit_cases {ℓ} :
    (P : Option ℕ × Proto → Type ℓ) (dma : Dma) (c : AdminCommand) (p : Proto)
    → (p.admin.desynced ≡ true → P (none, p))
    → (p.admin.desynced ≡ false → P (none, record p { admin = number p.admin }))
    → (p.admin.desynced ≡ false
        → P (
            conclude c.opcode p (
              await_terminal dma timeout
                (number p.admin).next_cid
                (issue c (number p.admin).next_cid (number p.admin)))))
    → P (submit_sync_command dma c p)
unfolding submit_sync_command
submit_cases P dma c p x y z =
    if_cases P p.admin.desynced _ _ x
      (λ e. if_cases P (wait_pushable timeout (number p.admin).rings) _ _ (λ _. z e) (λ _. y e))

-- The commands.
pub submit_sync_command-IsSafe :
    (dma : Dma) (c : AdminCommand) (p : Proto)
    → IsSafe p
    → allows c.opcode p.io ≡ true
    → IsSafe (submit_sync_command dma c p).1
unfolding issue number
submit_sync_command-IsSafe dma c p s l =
    let cid = (number p.admin).next_cid in
    let a = issue c cid (number p.admin) in
    let books = SameBooks-await dma timeout cid a in
    submit_cases (λ r. IsSafe r.1) dma c p (λ _. s)
      (λ _. record {
        waits = s.waits;
        stuck = s.stuck;
        poisoned = s.poisoned;
        allowed = s.allowed;
        in_order = s.in_order;
      })
      (λ e.
        let one : p.admin.wait_count + 1 ≡ 1 =
          ap (λ n. n + 1) (s.waits ∙ ap to_nat (sym s.stuck ∙ e)) in
        conclude-IsSafe c.opcode p (await_terminal dma timeout cid a) (books.same_waits ∙ one)
          books.same_pending books.same_opcode (books.same_desynced ∙ e) l s.in_order)
