-- ===== src/V2/Admin/Install.antt =====
-- What configure_io_queue leaves on the device and in the driver.
use mxdriver.Common.{
  ℕ, ◌+◌, ◌*◌, ◌%◌, ◌^◌, ◌≡◌, ◌≤◌, refl, sym, ap, ◌∙◌, arith, true, false, not, ◌||◌, ◌==◌, ltb,
  Option, none, some, ◌⊎◌, inl, inr, Ret, Errno, eio, einval, if_cases,
}
use mxdriver.V2.Admin.{
  create_io_cq, create_io_sq, AdminOpcode, delete_io_cq, delete_io_sq, HwQueue, Proto, Dma,
  record_admin_terminal, record_io, submit_sync_command,
}
use mxdriver.V2.Admin.Safe.{IsSafe, ordered, allows, submit_sync_command-IsSafe}
use mxdriver.V2.Admin.Answer.{submit_sync_command-Answer}
use mxdriver.V2.Admin.Recover.{has_cq, has_sq, tear_down}
use mxdriver.V2.Admin.Retire.{tear_down-Down, poisoning-IsSafe}
use mxdriver.V2.Admin.Create.{
  Setup, fresh_io, create_cq_command, create_sq_command, unwind, with_db, start, created_sq,
  created_cq, with_storage, configure_io_queue,
}

-- The rings as they are created.
abbrev made : ℕ → ℕ → HwQueue
made cq_id sq_id = record {
  hw_cq_created = true;
  hw_sq_created = true;
  hw_cq_id = cq_id;
  hw_sq_id = sq_id;
  db = none;
}

-- The io queue is ready: both rings exist under one id, and the two doorbells of that id, 8 bytes,
-- lie in the BAR.
pub record Serves (s : Setup) (p : Proto) : Type 0 where
  pub io : HwQueue
  pub is : p.io ≡ some io
  pub cq_made : io.hw_cq_created ≡ true
  pub sq_made : io.hw_sq_created ≡ true
  pub one_id : io.hw_cq_id ≡ io.hw_sq_id
  pub db_at : io.db ≡ some (s.reg_dbs + io.hw_cq_id * 8)
  pub in_bar : s.reg_dbs + io.hw_cq_id * 8 + 8 ≤ s.bar_mapped_size
  pub at_rest : p.admin.pending ≡ false

-- The device is to be recovered, or has no ring for io.
abbrev pub Clean : Proto → Type 0
Clean p = (p.protocol_poisoned ≡ true) ⊎ ((has_sq p.io ≡ false) × (has_cq p.io ≡ false))

pub record Installed (s : Setup) (r : Ret × Proto) : Type 0 where
  pub safe : IsSafe r.1
  pub works : r.0 ≡ none → Serves s r.1
  pub fails : (e : Errno) → r.0 ≡ some e → Clean r.1

unwind-Installed : (s : Setup) (e : Errno) (p : Proto) → IsSafe p → Installed s (unwind s e p)
unfolding unwind
unwind-Installed s e p a =
    let d = tear_down-Down s.at_delete_sq s.at_delete_cq p a in
    let q = (tear_down s.at_delete_sq s.at_delete_cq p).1 in
    if_cases (λ x. Installed s (some e, x)) (tear_down s.at_delete_sq s.at_delete_cq p).0 _ _
      (λ b. record {
        safe = d.safe;
        works = λ z. cc;
        fails = λ _ _. inr (d.gone_sq b, d.gone_cq b);
      })
      (λ b. record {
        safe = poisoning-IsSafe q true (ground arith) d.safe;
        works = λ z. cc;
        fails = λ _ _. inl refl;
      })

allows-with_db :
    (opcode : AdminOpcode) (at : ℕ) (io : Option HwQueue)
    → allows opcode (with_db at io) ≡ allows opcode io
allows-with_db opcode at none = refl
allows-with_db create_io_cq at (some io) = refl
allows-with_db create_io_sq at (some io) = refl
allows-with_db delete_io_cq at (some io) = refl
allows-with_db delete_io_sq at (some io) = refl

ordered-with_db : (at : ℕ) (io : Option HwQueue) → ordered (with_db at io) ≡ ordered io
ordered-with_db at none = refl
ordered-with_db at (some io) = refl

with_db-IsSafe : (at : ℕ) (p : Proto) → IsSafe p → IsSafe (record p { io = with_db at p.io })
with_db-IsSafe at p s = record {
  waits = s.waits;
  stuck = s.stuck;
  poisoned = s.poisoned;
  allowed =
      ap (λ b. not p.admin.pending || b) (allows-with_db p.admin.pending_opcode at p.io)
      ∙ s.allowed;
  in_order = ordered-with_db at p.io ∙ s.in_order;
}

start-Installed :
    (s : Setup) (r : Ret) (cq_id : ℕ) (p : Proto)
    → IsSafe p
    → p.io ≡ some (made cq_id cq_id)
    → p.admin.pending ≡ false
    → s.reg_dbs + cq_id * 8 + 8 ≤ s.bar_mapped_size
    → Installed s (start s r cq_id p)
unfolding start
start-Installed s (some e) cq_id p a i n l =
    unwind-Installed s e (record p { io = with_db (s.reg_dbs + cq_id * 8) p.io })
      (with_db-IsSafe (s.reg_dbs + cq_id * 8) p a)
start-Installed s none cq_id p a i n l = record {
  safe = with_db-IsSafe (s.reg_dbs + cq_id * 8) p a;
  works = λ _. record {
    io = record (made cq_id cq_id) { db = some (s.reg_dbs + cq_id * 8) };
    is = ap (with_db (s.reg_dbs + cq_id * 8)) i;
    cq_made = refl;
    sq_made = refl;
    one_id = refl;
    db_at = refl;
    in_bar = l;
    at_rest = n;
  };
  fails = λ e z. cc;
}

-- What is known of the result of the second command.
Second : ℕ → Option ℕ × Proto → Type 0
Second cq_id r =
    (result : ℕ)
    → r.0 ≡ some result
    → (r.1.io ≡ some (made cq_id (result % 2 ^ 16))) × (r.1.admin.pending ≡ false)

lost : (p : Proto) → IsSafe p → p.admin.desynced ≡ true → p.protocol_poisoned ≡ true
lost p s e = let n : p.admin.pending ≡ true = sym s.stuck ∙ e in let z = s.poisoned in rw n at z

created_sq-Installed :
    (s : Setup) (cq_id : ℕ) (r : Option ℕ × Proto)
    → IsSafe r.1
    → Second cq_id r
    → Installed s (created_sq s cq_id r)
unfolding created_sq Second
created_sq-Installed s cq_id (none, p) a k =
    if_cases (Installed s) p.admin.desynced _ _
      (λ e. record { safe = a; works = λ z. cc; fails = λ _ _. inl (lost p a e) })
      (λ _. unwind-Installed s eio p a)
created_sq-Installed s cq_id (some result, p) a k =
    let (io, n) = k result refl in
    if_cases (Installed s) (not (cq_id == result % 2 ^ 16)) _ _ (λ _. unwind-Installed s einval p a)
      (λ e.
        let same : result % 2 ^ 16 ≡ cq_id = ground (arith, e) in
        if_cases (Installed s) (ltb s.bar_mapped_size (s.reg_dbs + (cq_id + 1) * 8)) _ _
          (λ _. unwind-Installed s eio p a)
          (λ l.
            start-Installed s s.started cq_id p a (io ∙ ap (λ i. some (made cq_id i)) same) n
              (ground (arith, l))))

-- After the first command.
abbrev half : ℕ → HwQueue
half cq_id = record fresh_io { hw_cq_created = true; hw_cq_id = cq_id }

second :
    (dma : Dma) (s : Setup) (cq_id : ℕ) (p : Proto)
    → p.io ≡ some (half cq_id)
    → Second cq_id (submit_sync_command dma (create_sq_command s cq_id) p)
unfolding Second record_admin_terminal record_io
second dma s cq_id p i result e =
    elim (submit_sync_command-Answer dma (create_sq_command s cq_id) p) [
      | inl r ↦ cc (r.fails, e)
      | inr (inl l) ↦ cc (l.fails, e)
      | inr (inr d) ↦
          let same : some d.result ≡ some result = sym d.is ∙ e in
          let z : d.result ≡ result = cc in
          (
            d.noted
                ∙ ap (record_admin_terminal create_io_sq d.result) i
                ∙ ap (λ k. some (made cq_id (k % 2 ^ 16))) z,
            d.not_pending,
          )
    ]

-- What is known of the result of the first command, on rings that are fresh.
First : Option ℕ × Proto → Type 0
First r =
    ((r.0 ≡ none) → Clean r.1)
    × ((result : ℕ) → r.0 ≡ some result → r.1.io ≡ some (half (result % 2 ^ 16)))

first :
    (dma : Dma) (s : Setup) (p : Proto)
    → p.io ≡ some fresh_io
    → First (submit_sync_command dma (create_cq_command s) p)
unfolding First record_admin_terminal record_io
first dma s p i = elim (submit_sync_command-Answer dma (create_cq_command s) p) [
  | inl r ↦
      (λ _. inr (ap has_sq (r.same_io ∙ i), ap has_cq (r.same_io ∙ i)), λ result e. cc (r.fails, e))
  | inr (inl l) ↦ (λ _. inl l.is_poisoned, λ result e. cc (l.fails, e))
  | inr (inr d) ↦ (
    λ e. cc (d.is, e),
    λ result e.
        let same : some d.result ≡ some result = sym d.is ∙ e in
        let z : d.result ≡ result = cc in
        d.noted
        ∙ ap (record_admin_terminal create_io_cq d.result) i
        ∙ ap (λ k. some (half (k % 2 ^ 16))) z,
  )
]

created_cq-Installed :
    (s : Setup) (r : Option ℕ × Proto) → IsSafe r.1 → First r → Installed s (created_cq s r)
unfolding created_cq First
created_cq-Installed s (none, p) a (c, k) = record {
  safe = a;
  works = λ z. cc;
  fails = λ _ _. c refl;
}
created_cq-Installed s (some result, p) a (c, k) =
    let id = result % 2 ^ 16 in
    created_sq-Installed s id (submit_sync_command s.at_create_sq (create_sq_command s id) p)
      (submit_sync_command-IsSafe s.at_create_sq (create_sq_command s id) p a
        (ap has_cq (k result refl)))
      (second s.at_create_sq s id p (k result refl))

fresh_io-IsSafe :
    (p : Proto) → IsSafe p → p.admin.pending ≡ false → IsSafe (record p { io = some fresh_io })
fresh_io-IsSafe p s n = record {
  waits = s.waits;
  stuck = s.stuck;
  poisoned = s.poisoned;
  allowed = ap (λ b. not b || allows p.admin.pending_opcode (some fresh_io)) n;
  in_order = refl;
}

with_storage-Installed :
    (s : Setup) (r : Ret) (p : Proto)
    → IsSafe p
    → p.admin.pending ≡ false
    → p.io ≡ none
    → Installed s (with_storage s r p)
unfolding with_storage
with_storage-Installed s (some e) p a n i = record {
  safe = a;
  works = λ z. cc;
  fails = λ _ _. inr (ap has_sq i, ap has_cq i);
}
with_storage-Installed s none p a n i =
    let q = record p { io = some fresh_io } in
    let b = fresh_io-IsSafe p a n in
    created_cq-Installed s (submit_sync_command s.at_create_cq (create_cq_command s) q)
      (submit_sync_command-IsSafe s.at_create_cq (create_cq_command s) q b refl)
      (first s.at_create_cq s q refl)

-- If the bookkeeping of the admin queue holds, no command is pending and there is no io queue
-- yet, the bookkeeping holds after configure_io_queue; if it returns 0, both rings exist under
-- one id, whose doorbells lie in the mapped BAR, and no command is pending; if it returns an
-- error, the protocol is poisoned or the device has no ring for io.
pub configure_io_queue-Installed :
    (s : Setup) (p : Proto)
    → IsSafe p
    → p.admin.pending ≡ false
    → p.io ≡ none
    → Installed s (configure_io_queue s p)
unfolding configure_io_queue
configure_io_queue-Installed s p a n i =
    if_cases (Installed s) s.allocated _ _ (λ _. with_storage-Installed s s.storage p a n i)
      (λ _. record { safe = a; works = λ z. cc; fails = λ _ _. inr (ap has_sq i, ap has_cq i) })
