-- ===== src/V2/Admin/Answer.antt =====
-- What the result of submit_sync_command says of the device.
use mxdriver.Common.{
  ℕ, ◌+◌, ◌<◌, arith, ◌≡◌, refl, ◌∙◌, true, false, Option, none, some, ◌⊎◌, inl, inr,
}
use mxdriver.V2.{Completion}
use mxdriver.V2.Admin.{
  AdminCommand, Admin, Proto, Dma, record_admin_terminal, await_terminal, issue, settle, conclude,
  submit_sync_command, timeout, number,
}
use mxdriver.V2.Admin.Sent.{Given, Seen, Given-kept, issue-Given, await_terminal-Awaited}
use mxdriver.V2.Admin.Safe.{SameBooks-await, submit_cases}

-- The command did not go to the device: the rings are as they were, and so is all else but the
-- number of the next command.
pub record Refused (p : Proto) (r : Option ℕ × Proto) : Type 0 where
  pub fails : r.0 ≡ none
  pub only_number : r.1 ≡ record p { admin = record p.admin { next_cid = r.1.admin.next_cid } }
  pub same_io : r.1.io ≡ p.io
  pub same_pending : r.1.admin.pending ≡ p.admin.pending
  pub same_desynced : r.1.admin.desynced ≡ p.admin.desynced
  pub same_poisoned : r.1.protocol_poisoned ≡ p.protocol_poisoned
  pub same_programmed : r.1.queue_dma_programmed ≡ p.queue_dma_programmed

-- The command went to the device, and what it does there is not known.
pub record Lost (c : AdminCommand) (p : Proto) (r : Option ℕ × Proto) : Type 0 where
  pub fails : r.0 ≡ none
  pub given : Given c (number p.admin).next_cid p.admin.rings r.1.admin.rings
  pub waited : r.1.admin.wait_count ≡ p.admin.wait_count + 1
  pub same_io : r.1.io ≡ p.io
  pub is_pending : r.1.admin.pending ≡ true
  pub is_desynced : r.1.admin.desynced ≡ true
  pub is_poisoned : r.1.protocol_poisoned ≡ true
  pub of_command : r.1.admin.pending_opcode ≡ c.opcode
  pub numbered : r.1.admin.pending_cid ≡ (number p.admin).next_cid
  pub same_programmed : r.1.queue_dma_programmed ≡ p.queue_dma_programmed

-- The device has answered the command with a completion of its number, and the driver has noted it.
pub record Done (dma : Dma) (c : AdminCommand) (p : Proto) (r : Option ℕ × Proto) : Type 0 where
  pub result : ℕ
  pub is : r.0 ≡ some result
  pub given : Given c (number p.admin).next_cid p.admin.rings r.1.admin.rings
  pub answered :
      (cmpl : Completion) × (cmpl.command_id ≡ (number p.admin).next_cid)
      × (cmpl.result ≡ result)
      × ((n : ℕ) × (i : ℕ) × (n < timeout) × (dma n i ≡ cmpl))
  pub waited : r.1.admin.wait_count ≡ p.admin.wait_count
  pub noted : r.1.io ≡ record_admin_terminal c.opcode result p.io
  pub not_pending : r.1.admin.pending ≡ false
  pub not_desynced : r.1.admin.desynced ≡ false
  pub same_poisoned : r.1.protocol_poisoned ≡ p.protocol_poisoned
  pub same_programmed : r.1.queue_dma_programmed ≡ p.queue_dma_programmed

conclude-Answer :
    (dma : Dma) (c : AdminCommand) (p : Proto) (r : Option Completion × Admin)
    → Given c (number p.admin).next_cid p.admin.rings r.1.rings
    → Seen dma timeout (number p.admin).next_cid r.0
    → r.1.wait_count ≡ p.admin.wait_count + 1
    → r.1.pending ≡ true
    → r.1.pending_opcode ≡ c.opcode
    → r.1.pending_cid ≡ (number p.admin).next_cid
    → r.1.desynced ≡ false
    → Refused p (conclude c.opcode p r)
      ⊎ Lost c p (conclude c.opcode p r)
      ⊎ Done dma c p (conclude c.opcode p r)
unfolding conclude settle
conclude-Answer dma c p (none, a) s found w e f g h = inr (
    inl (record {
      fails = refl;
      given = s;
      waited = w;
      same_io = refl;
      is_pending = e;
      is_desynced = refl;
      is_poisoned = refl;
      of_command = f;
      numbered = g;
      same_programmed = refl;
    }))
conclude-Answer dma c p (some cmpl, a) s (own, look) w e f g h = inr (
    inr (record {
      result = cmpl.result;
      is = refl;
      given = s;
      answered = (cmpl, own, refl, look);
      waited = omega (arith, w);
      noted = refl;
      not_pending = refl;
      not_desynced = h;
      same_poisoned = refl;
      same_programmed = refl;
    }))

-- submit_sync_command either fails and changes nothing, the rings and the doorbells included, but
-- the number of the next command; or it fails with the command in the submission ring, at the old
-- tail and with its number, the tail one place on and the doorbell rung with it, unless the last
-- one rung was the same, and this command is counted and pending, the queue is desynced and the
-- protocol poisoned; or it succeeds with the command given in the same way, with the result of a
-- completion of its number that one of the looks has found, notes in the io queue what the
-- command did, and nothing is pending.
pub submit_sync_command-Answer :
    (dma : Dma) (c : AdminCommand) (p : Proto)
    → Refused p (submit_sync_command dma c p)
      ⊎ Lost c p (submit_sync_command dma c p)
      ⊎ Done dma c p (submit_sync_command dma c p)
unfolding issue number
submit_sync_command-Answer dma c p =
    let cid = (number p.admin).next_cid in
    let a = issue c cid (number p.admin) in
    let books = SameBooks-await dma timeout cid a in
    let wait = await_terminal-Awaited dma timeout cid a in
    submit_cases (λ r. Refused p r ⊎ Lost c p r ⊎ Done dma c p r) dma c p
      (λ _. inl (record {
        fails = refl;
        only_number = refl;
        same_io = refl;
        same_pending = refl;
        same_desynced = refl;
        same_poisoned = refl;
        same_programmed = refl;
      }))
      (λ _. inl (record {
        fails = refl;
        only_number = refl;
        same_io = refl;
        same_pending = refl;
        same_desynced = refl;
        same_poisoned = refl;
        same_programmed = refl;
      }))
      (λ e.
        conclude-Answer dma c p (await_terminal dma timeout cid a)
          (Given-kept c cid p.admin.rings a.rings _ (issue-Given c cid (number p.admin))
            wait.same_sq)
          wait.seen books.same_waits books.same_pending books.same_opcode books.same_cid
          (books.same_desynced ∙ e))
