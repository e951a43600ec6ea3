-- ===== src/V2/Admin/Recover.antt =====
-- core_v2.c: how the driver takes the rings of the device down, and how it sets those for io up. The
-- commands of one operation have each their own `Dma`.
use mxdriver.Common.{
  Outcome, waiting, returned, ℕ, Bool, true, false, if◌then◌else◌, Option, none, some, List, Ret,
  eio,
}
use mxdriver.V2.Admin.{
  HwQueue, Proto, Dma, Look, delete_sq, delete_cq, drain_pending_admin, disable_admin_queue,
}

abbrev pub has_cq : Option HwQueue → Bool
has_cq none = false
has_cq (some io) = io.hw_cq_created

abbrev pub has_sq : Option HwQueue → Bool
has_sq none = false
has_sq (some io) = io.hw_sq_created

abbrev pub cq_id_of : Option HwQueue → ℕ
cq_id_of none = 0
cq_id_of (some io) = io.hw_cq_id

abbrev pub sq_id_of : Option HwQueue → ℕ
sq_id_of none = 0
sq_id_of (some io) = io.hw_sq_id

abbrev pub has_io : Option HwQueue → Bool
has_io none = false
has_io (some io) = true

abbrev pub is_done : Option ℕ → Bool
is_done none = false
is_done (some result) = true

-- The two deletions, each of a ring that was created, in their order.
unfoldable pub delete_created_sq : Dma → Proto → Bool × Proto
delete_created_sq dma p =
    let (result, q) = delete_sq dma (sq_id_of p.io) p in
    if has_sq p.io then (is_done result, q) else (true, p)

unfoldable pub delete_created_cq : Dma → Proto → Bool × Proto
delete_created_cq dma p =
    let (result, q) = delete_cq dma (cq_id_of p.io) p in
    if has_cq p.io then (is_done result, q) else (true, p)

unfoldable pub tear_down : Dma → Dma → Proto → Bool × Proto
unfolding delete_created_sq delete_created_cq
tear_down dma_sq dma_cq p =
    let (ok, q) = delete_created_sq dma_sq p in
    let rest = delete_created_cq dma_cq q in if ok then rest else (false, q)

-- recover_mx_queue from the result of drain_pending_admin on.
unfoldable pub recover_drained : Dma → Dma → Outcome × Proto → Outcome × Proto
unfolding tear_down disable_admin_queue
recover_drained dma_sq dma_cq (waiting, p) = (waiting, p)
recover_drained dma_sq dma_cq (returned (some e), p) = (returned (some e), p)
recover_drained dma_sq dma_cq (returned none, p) =
    let (ok, q) = tear_down dma_sq dma_cq (record p { protocol_poisoned = false }) in
    if ok
    then (returned none, disable_admin_queue q)
    else (returned (some eio), record q { protocol_poisoned = true })

-- Of a device that has an admin queue.
unfoldable pub recover_mx_queue : List Look → Dma → Dma → Proto → Outcome × Proto
unfolding drain_pending_admin recover_drained
recover_mx_queue looks dma_sq dma_cq p = recover_drained dma_sq dma_cq (drain_pending_admin looks p)

unfoldable pub release_io_queue : Dma → Dma → Proto → Ret × Proto
unfolding tear_down disable_admin_queue
release_io_queue dma_sq dma_cq p =
    let (ok, q) = tear_down dma_sq dma_cq p in
    if has_io p.io then (if ok then (none, disable_admin_queue q) else (some eio, q)) else (none, p)
