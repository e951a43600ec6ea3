-- ===== src/Teardown/Tests.antt =====
-- A device of version 2 that is unbound with its io queue running.
use mxdriver.Common.{refl, [], ◌∷◌, true, false, some, none, ℕ}
use mxdriver.V2.{blank, RingsV2}
use mxdriver.V2.Admin.{AdminCommand, Proto, Dma, create_io_cq, command_of}
use mxdriver.Teardown.{Check}
use mxdriver.Teardown.Destroy.{Pdev, Way, destroy_mx_pdev}
use mxdriver.Teardown.Destroy.Safe.{Freed, destroy_mx_pdev-Freed}
use mxdriver.Teardown.Rings.{Meets, ops_v2}
use mxdriver.Teardown.Rings.Laws.{Sure, laws_v2}

abbrev slots : RingsV2 AdminCommand
slots = record {
  sqes = λ i. command_of create_io_cq 0 0;
  cqes = λ i. blank;
  depth = 4;
  last_sq_tail = 0;
  last_cq_head = 0;
  sq_tail = 0;
  sq_head = 0;
  cq_head = 0;
  cq_phase = 1;
  sq_db = 0;
  cq_db = 0;
}

abbrev running : Proto
running = record {
  admin = record {
    rings = slots;
    wait_count = 0;
    next_cid = 2;
    pending_cid = 2;
    pending_opcode = create_io_cq;
    pending = false;
    desynced = false;
  };
  io = some (record {
    hw_cq_created = true;
    hw_sq_created = true;
    hw_cq_id = 5;
    hw_sq_id = 5;
    db = some 4136;
  });
  protocol_poisoned = false;
  queue_dma_programmed = true;
  reg_aqa = 196611;
  reg_asq = 65536;
  reg_acq = 131072;
}

running-Sure : Sure running
running-Sure = record {
  safe = record { waits = refl; stuck = refl; poisoned = refl; allowed = refl; in_order = refl };
  down = λ z. cc;
}

abbrev answered : ℕ → Dma
answered cid n i = record { result = 0; sq_head = 0; sq_id = 0; command_id = cid; status = 1 }

abbrev meets : Meets
meets = record { looks = []; at_sq = answered 3; at_cq = answered 4 }

abbrev at_rest : Check
at_rest = record { idle = true; gone = false }

abbrev way : Way Meets
way = record {
  drains = at_rest ∷ [];
  quiesced = true ∷ [];
  course = record {
    idle = true;
    drains = at_rest ∷ [];
    poison_rounds = [];
    partial = meets;
    partial_rounds = [];
    release = meets;
    release_rounds = [];
  };
  fences = at_rest ∷ [];
}

abbrev bound : Pdev Proto
bound = record {
  device = record { queues = running; queues_initialized = true; threads = true; async_wq = true };
  teardown_started = false;
  removed = false;
  enabled = true;
  io_ref_dying = false;
  cdevs = true;
  bar_vmas = false;
  latency_request = true;
  dma_reclaim_safe = false;
  cleanup_thread = true;
  chrdev_region = true;
  attach_error = none;
  bus_master = true;
  mboxes = false;
  page_pool = true;
  queue_memory = true;
  bar_mapped = true;
  pci_device = true;
}

destroy_mx_pdev-Freed_example :
    Freed ops_v2 laws_v2 way bound (destroy_mx_pdev ops_v2 true way bound)
destroy_mx_pdev-Freed_example =
    destroy_mx_pdev-Freed ops_v2 laws_v2 true way bound running-Sure (λ _. refl)
