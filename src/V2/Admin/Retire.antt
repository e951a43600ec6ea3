-- ===== src/V2/Admin/Retire.antt =====
-- What is left on the device when the queues are taken down.
use mxdriver.Common.{
  ℕ, ◌≡◌, refl, ap, ◌∙◌, Bool, true, false, not, ◌||◌, Option, none, some, inl, inr, Ret, if_cases,
}
use mxdriver.V2.Admin.{
  AdminCommand, delete_io_cq, delete_io_sq, HwQueue, Proto, Dma, record_admin_terminal, record_io,
  submit_sync_command, delete_sq, delete_cq, command_of, disable_admin_queue,
}
use mxdriver.V2.Admin.Safe.{IsSafe, submit_sync_command-IsSafe}
use mxdriver.V2.Admin.Answer.{Done, submit_sync_command-Answer}
use mxdriver.V2.Admin.Recover.{
  has_cq, has_sq, has_io, cq_id_of, sq_id_of, is_done, delete_created_sq, delete_created_cq,
  tear_down, release_io_queue,
}

-- The rings may be freed: no command is with the device, no ring of its own is left, and it has no
-- address of an admin ring.
pub record Retired (p : Proto) : Type 0 where
  pub settled : p.admin.pending ≡ false
  pub no_sq : has_sq p.io ≡ false
  pub no_cq : has_cq p.io ≡ false
  pub no_address : p.queue_dma_programmed ≡ false

deleted_sq :
    (result : ℕ) (io : Option HwQueue)
    → has_sq (record_admin_terminal delete_io_sq result io) ≡ false
unfolding record_admin_terminal record_io
deleted_sq result none = refl
deleted_sq result (some io) = refl

deleted_cq :
    (result : ℕ) (io : Option HwQueue)
    → has_cq (record_admin_terminal delete_io_cq result io) ≡ false
unfolding record_admin_terminal record_io
deleted_cq result none = refl
deleted_cq result (some io) = refl

kept_sq :
    (result : ℕ) (io : Option HwQueue)
    → has_sq (record_admin_terminal delete_io_cq result io) ≡ has_sq io
unfolding record_admin_terminal record_io
kept_sq result none = refl
kept_sq result (some io) = refl

-- A command that is done.
carried_out :
    (dma : Dma) (c : AdminCommand) (p : Proto)
    → is_done (submit_sync_command dma c p).0 ≡ true
    → Done dma c p (submit_sync_command dma c p)
carried_out dma c p e = elim (submit_sync_command-Answer dma c p) [
  | inl r ↦ cc (ap is_done r.fails, e)
  | inr (inl l) ↦ cc (ap is_done l.fails, e)
  | inr (inr d) ↦ d
]

-- A deletion of the submission ring.
record SqGone (p : Proto) (r : Bool × Proto) : Type 0 where
  safe : IsSafe r.1
  gone_sq : r.0 ≡ true → has_sq r.1.io ≡ false
  at_rest : r.0 ≡ true → p.admin.pending ≡ false → r.1.admin.pending ≡ false
  same_poison : r.0 ≡ true → r.1.protocol_poisoned ≡ p.protocol_poisoned

delete_created_sq-SqGone : (dma : Dma) (p : Proto) → IsSafe p → SqGone p (delete_created_sq dma p)
unfolding delete_created_sq delete_sq
delete_created_sq-SqGone dma p s =
    if_cases (SqGone p) (has_sq p.io) _ _
      (λ e. record {
        safe = submit_sync_command-IsSafe dma (command_of delete_io_sq 0 (sq_id_of p.io)) p s refl;
        gone_sq = λ d.
            let done = carried_out dma (command_of delete_io_sq 0 (sq_id_of p.io)) p d in
            ap has_sq done.noted ∙ deleted_sq done.result p.io;
        at_rest =
            λ d _. (carried_out dma (command_of delete_io_sq 0 (sq_id_of p.io)) p d).not_pending;
        same_poison =
            λ d. (carried_out dma (command_of delete_io_sq 0 (sq_id_of p.io)) p d).same_poisoned;
      })
      (λ e. record { safe = s; gone_sq = λ _. e; at_rest = λ _ q. q; same_poison = λ _. refl })

-- A deletion of the completion ring, where no submission ring is left.
record CqGone (p : Proto) (r : Bool × Proto) : Type 0 where
  safe : IsSafe r.1
  gone_cq : r.0 ≡ true → has_cq r.1.io ≡ false
  still_sq : r.0 ≡ true → has_sq r.1.io ≡ has_sq p.io
  at_rest : r.0 ≡ true → p.admin.pending ≡ false → r.1.admin.pending ≡ false
  same_poison : r.0 ≡ true → r.1.protocol_poisoned ≡ p.protocol_poisoned

delete_created_cq-CqGone :
    (dma : Dma) (p : Proto) → IsSafe p → has_sq p.io ≡ false → CqGone p (delete_created_cq dma p)
unfolding delete_created_cq delete_cq
delete_created_cq-CqGone dma p s n =
    let c = command_of delete_io_cq (cq_id_of p.io) 0 in
    if_cases (CqGone p) (has_cq p.io) _ _
      (λ e. record {
        safe = submit_sync_command-IsSafe dma c p s (ap not n);
        gone_cq = λ d.
            let done = carried_out dma c p d in ap has_cq done.noted ∙ deleted_cq done.result p.io;
        still_sq = λ d.
            let done = carried_out dma c p d in ap has_sq done.noted ∙ kept_sq done.result p.io;
        at_rest = λ d _. (carried_out dma c p d).not_pending;
        same_poison = λ d. (carried_out dma c p d).same_poisoned;
      })
      (λ e. record {
        safe = s;
        gone_cq = λ _. e;
        still_sq = λ _. refl;
        at_rest = λ _ q. q;
        same_poison = λ _. refl;
      })

-- Both.
pub record Down (p : Proto) (r : Bool × Proto) : Type 0 where
  pub safe : IsSafe r.1
  pub gone_sq : r.0 ≡ true → has_sq r.1.io ≡ false
  pub gone_cq : r.0 ≡ true → has_cq r.1.io ≡ false
  pub at_rest : r.0 ≡ true → p.admin.pending ≡ false → r.1.admin.pending ≡ false
  pub same_poison : r.0 ≡ true → r.1.protocol_poisoned ≡ p.protocol_poisoned

pub tear_down-Down :
    (dma_sq dma_cq : Dma) (p : Proto) → IsSafe p → Down p (tear_down dma_sq dma_cq p)
unfolding tear_down
tear_down-Down dma_sq dma_cq p s =
    let first = delete_created_sq-SqGone dma_sq p s in
    let q = (delete_created_sq dma_sq p).1 in
    if_cases (Down p) (delete_created_sq dma_sq p).0 _ _
      (λ e.
        let second = delete_created_cq-CqGone dma_cq q first.safe (first.gone_sq e) in
        record {
          safe = second.safe;
          gone_sq = λ d. second.still_sq d ∙ first.gone_sq e;
          gone_cq = second.gone_cq;
          at_rest = λ d r. second.at_rest d (first.at_rest e r);
          same_poison = λ d. second.same_poison d ∙ first.same_poison e;
        })
      (λ e. record {
        safe = first.safe;
        gone_sq = λ d. cc;
        gone_cq = λ d. cc;
        at_rest = λ d. cc;
        same_poison = λ d. cc;
      })

pub disabled-IsSafe : (p : Proto) → IsSafe p → IsSafe (disable_admin_queue p)
unfolding disable_admin_queue
disabled-IsSafe p s = record {
  waits = s.waits;
  stuck = s.stuck;
  poisoned = s.poisoned;
  allowed = s.allowed;
  in_order = s.in_order;
}

pub poisoning-IsSafe :
    (p : Proto) (b : Bool)
    → (not p.admin.pending || b) ≡ true
    → IsSafe p
    → IsSafe (record p { protocol_poisoned = b })
poisoning-IsSafe p b e s = record {
  waits = s.waits;
  stuck = s.stuck;
  poisoned = e;
  allowed = s.allowed;
  in_order = s.in_order;
}

-- Of the rings that are taken down, with the addresses.
pub Down-Retired :
    (p : Proto) (r : Bool × Proto)
    → Down p r
    → p.admin.pending ≡ false
    → r.0 ≡ true
    → Retired (disable_admin_queue r.1)
unfolding disable_admin_queue
Down-Retired p r d n e = record {
  settled = d.at_rest e n;
  no_sq = d.gone_sq e;
  no_cq = d.gone_cq e;
  no_address = refl;
}

-- Release.
pub release_io_queue-Retired :
    (dma_sq dma_cq : Dma) (p : Proto)
    → IsSafe p
    → p.admin.pending ≡ false
    → has_io p.io ≡ true
    → (release_io_queue dma_sq dma_cq p).0 ≡ none
    → Retired (release_io_queue dma_sq dma_cq p).1
unfolding release_io_queue
release_io_queue-Retired dma_sq dma_cq p s n h =
    let down = tear_down-Down dma_sq dma_cq p s in
    if_cases {A = Ret × Proto} (λ r. r.0 ≡ none → Retired r.1) (has_io p.io) _ _
      (λ _.
        if_cases {A = Ret × Proto} (λ r. r.0 ≡ none → Retired r.1) (tear_down dma_sq dma_cq p).0 _ _
          (λ e _. Down-Retired p (tear_down dma_sq dma_cq p) down n e) (λ _ z. cc))
      (λ z. cc)
