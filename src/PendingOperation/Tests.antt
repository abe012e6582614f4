-- ===== src/PendingOperation/Tests.antt =====
-- Concrete comparisons of pending operations.
use bdbmsgstore.Prelude.{◌<◌, ◌≡◌, ◌↔◌, ◌⊎◌, true}
use bdbmsgstore.PendingOperation.{PendingAsyncOperation, pending_operation, op_lt}
use bdbmsgstore.PendingOperation.Compare.{op_lt-both_ways}

abbrev early : PendingAsyncOperation
early = pending_operation 1 9

abbrev late : PendingAsyncOperation
late = pending_operation 2 3

op_lt-both_ways_example : ((op_lt early late ≡ true) × (op_lt late early ≡ true)) ↔ (
    ((early.msg_id < late.msg_id) × (late.queue_id < early.queue_id))
    ⊎ ((late.msg_id < early.msg_id) × (early.queue_id < late.queue_id)))
op_lt-both_ways_example = op_lt-both_ways early late
