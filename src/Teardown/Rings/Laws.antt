-- ===== src/Teardown/Rings/Laws.antt =====
-- What the teardown relies on, of the queues of version 2.
use mxdriver.Common.{
  ◌≡◌, refl, sym, subst, ◌∙◌, arith, true, false, not, ◌&&◌, none, some, ◌⊎◌, inl, inr, List, [],
  ◌∷◌, Ret, Outcome, waiting, returned, if_cases,
}
use mxdriver.V2.Admin.{
  Proto, Dma, Look, gone, sees, drain_loop, drain_pending_admin, disable_admin_queue,
}
use mxdriver.V2.Admin.Safe.{IsSafe}
use mxdriver.V2.Admin.Recover.{
  has_cq, has_sq, has_io, delete_created_sq, delete_created_cq, tear_down, recover_drained,
  recover_mx_queue, release_io_queue,
}
use mxdriver.V2.Admin.Retire.{
  Retired, tear_down-Down, disabled-IsSafe, poisoning-IsSafe, release_io_queue-Retired,
  Down-Retired,
}
use mxdriver.V2.Admin.Drain.{Recovered, recover_mx_queue-Recovered}
use mxdriver.Teardown.{recover, recover_with}
use mxdriver.Teardown.Stop.{QueueLaws}
use mxdriver.Teardown.Rings.{Meets, ops_v2, Frame, tear_down-Frame, drain-Frame}

-- The end of recover_mx_queue: it returns 0, or the device keeps the addresses.
Fate : Proto → Outcome × Proto → Type 0
Fate p r =
    (has_io r.1.io ≡ has_io p.io)
    × ((r.0 ≡ returned none) ⊎ (r.1.queue_dma_programmed ≡ p.queue_dma_programmed))

drained-Fate : (a b : Dma) (r : Outcome × Proto) → Fate r.1 (recover_drained a b r)
unfolding recover_drained Fate disable_admin_queue
drained-Fate a b (waiting, p) = (refl, inr refl)
drained-Fate a b (returned (some e), p) = (refl, inr refl)
drained-Fate a b (returned none, p) =
    let q = record p { protocol_poisoned = false } in
    let f = tear_down-Frame a b q in
    if_cases (Fate p) (tear_down a b q).0 _ _ (λ _. (f.same_has_io, inl refl))
      (λ _. (f.same_has_io, inr f.same_programmed))

Fate-after : (p q : Proto) (r : Outcome × Proto) → Frame p q → Fate q r → Fate p r
unfolding Fate
Fate-after p q r f (a, inl e) = (a ∙ f.same_has_io, inl e)
Fate-after p q r f (a, inr e) = (a ∙ f.same_has_io, inr (e ∙ f.same_programmed))

recover-Fate : (looks : List Look) (a b : Dma) (p : Proto) → Fate p (recover_mx_queue looks a b p)
unfolding recover_mx_queue
recover-Fate looks a b p =
    let r = drain_pending_admin looks p in
    Fate-after p r.1 (recover_drained a b r) (drain-Frame looks p) (drained-Fate a b r)

-- Queues that are down stay so.
still_down :
    (a b : Dma) (p : Proto) → has_sq p.io ≡ false → has_cq p.io ≡ false → (tear_down a b p).0 ≡ true
unfolding tear_down delete_created_sq delete_created_cq
still_down a b p e f = rw (e, f) refl

in_step : Proto → Proto
in_step p = record p { admin = record p.admin { desynced = false } }

nothing_pending :
    (looks : List Look) (p : Proto)
    → p.admin.pending ≡ false
    → drain_loop looks p ≡ (returned none, in_step p)
unfolding drain_loop in_step
nothing_pending [] p n = rw n refl
nothing_pending (gone ∷ looks) p n = rw n refl
nothing_pending (sees cqes ∷ looks) p n = rw n refl

nothing_to_drain :
    (looks : List Look) (p : Proto)
    → IsSafe p
    → p.admin.pending ≡ false
    → drain_pending_admin looks p ≡ (returned none, in_step p)
unfolding drain_pending_admin
nothing_to_drain looks p s n =
    if_cases {A = Outcome × Proto} (λ x. x ≡ (returned none, in_step p))
      (p.admin.desynced && not p.admin.pending) _ _ (λ c. let d = s.stuck in ground (arith, c, d))
      (λ _. nothing_pending looks p n)

down_recovered :
    (a b : Dma) (p : Proto)
    → has_sq p.io ≡ false
    → has_cq p.io ≡ false
    → (recover_drained a b (returned none, in_step p)).0 ≡ returned none
unfolding recover_drained in_step
down_recovered a b p e f =
    let q = record p { admin = record p.admin { desynced = false }; protocol_poisoned = false } in
    rw (still_down a b q e f) refl

again_recovered :
    (looks : List Look) (a b : Dma) (p : Proto)
    → IsSafe p
    → Retired p
    → (recover_mx_queue looks a b p).0 ≡ returned none
unfolding recover_mx_queue
again_recovered looks a b p s r =
    subst (λ x. (recover_drained a b x).0 ≡ returned none)
      (sym (nothing_to_drain looks p s r.settled)) (down_recovered a b p r.no_sq r.no_cq)

-- The invariant: a device without the addresses has no rings and no command.
pub record Sure (p : Proto) : Type 0 where
  pub safe : IsSafe p
  pub down : p.queue_dma_programmed ≡ false → Retired p

Sure-recover :
    (looks : List Look) (a b : Dma) (p : Proto) → Sure p → Sure (recover_mx_queue looks a b p).1
unfolding Fate
Sure-recover looks a b p s =
    let r = recover_mx_queue-Recovered looks a b p s.safe in
    record {
      safe = r.safe;
      down = λ z. elim (recover-Fate looks a b p).1 [
        | inl e ↦ r.down e
        | inr e ↦ r.down (again_recovered looks a b p s.safe (s.down (sym e ∙ z)))
      ];
    }

pub Sure-poison : (p : Proto) → Sure p → Sure (record p { protocol_poisoned = true })
Sure-poison p s = record {
  safe = poisoning-IsSafe p true (ground arith) s.safe;
  down = λ z.
      let r = s.down z in
      record { settled = r.settled; no_sq = r.no_sq; no_cq = r.no_cq; no_address = r.no_address };
}

pub idle_of : (p : Proto) → IsSafe p → p.protocol_poisoned ≡ false → p.admin.pending ≡ false
idle_of p s e = let z = s.poisoned in ground (arith, e, z)

pub Sure-release :
    (a b : Dma) (p : Proto) → Sure p → p.protocol_poisoned ≡ false → Sure (release_io_queue a b p).1
unfolding release_io_queue
Sure-release a b p s e =
    let d = tear_down-Down a b p s.safe in
    let f = tear_down-Frame a b p in
    let q = (tear_down a b p).1 in
    let n = idle_of p s.safe e in
    if_cases {A = Ret × Proto} (λ r. Sure r.1) (has_io p.io) _ _
      (λ h.
        if_cases {A = Ret × Proto} (λ r. Sure r.1) (tear_down a b p).0 _ _
          (λ t. record {
            safe = disabled-IsSafe q d.safe;
            down = λ _. Down-Retired p (tear_down a b p) d n t;
          })
          (λ t. record {
            safe = d.safe;
            down = λ z.
                let r = s.down (sym f.same_programmed ∙ z) in
                let o = still_down a b p r.no_sq r.no_cq in cc (t, o);
          }))
      (λ _. s)

pub recover-Sure : (m : Meets) (p : Proto) → Sure p → Sure (recover ops_v2 m p).1
unfolding recover recover_with
recover-Sure m p s = Sure-recover m.looks m.at_sq m.at_cq p s

pub recover-has_io :
    (m : Meets) (p : Proto) → has_io p.io ≡ true → has_io (recover ops_v2 m p).1.io ≡ true
unfolding recover recover_with Fate
recover-has_io m p y = (recover-Fate m.looks m.at_sq m.at_cq p).0 ∙ y

pub recover-Recovered : (m : Meets) (p : Proto) → Sure p → Recovered (recover ops_v2 m p)
unfolding recover recover_with
recover-Recovered m p s = recover_mx_queue-Recovered m.looks m.at_sq m.at_cq p s.safe

-- Version 2 keeps what the teardown relies on.
abbrev pub laws_v2 : QueueLaws ops_v2
laws_v2 = record {
  Inv = λ p. Sure p;
  Ready = λ p. has_io p.io ≡ true;
  Quiet = λ p. Retired p;
  poison_inv = λ p s. Sure-poison p s;
  poison_on = λ p. refl;
  recover_inv = λ m p s. recover-Sure m p s;
  recover_ready = λ m p y. recover-has_io m p y;
  recover_quiet = λ m p s e. (recover-Recovered m p s).down e;
  recover_sound = λ m p s e. (recover-Recovered m p s).sound e;
  release_quiet =
      λ m p s y c e. release_io_queue-Retired m.at_sq m.at_cq p s.safe (idle_of p s.safe c) y e;
  release_inv = λ m p s c. Sure-release m.at_sq m.at_cq p s c;
  unprogrammed = λ p s e. s.down e;
}
