-- ===== src/PendingOperation.antt =====
-- lib/PendingOperationType.h: the values that the pending sets of lib/PendingOperationSet.h hold, and
-- the comparison operators at the end of lib/AsyncOperationLogger.cpp.
pub mod Compare
mod Tests
use bdbmsgstore.Prelude.{ℕ, Bool, true, false, not, ◌&&◌, ◌||◌, List, [], ltb, ◌==◌, if◌then◌else◌}

-- `std::pair<uint64_t, uint64_t>`: the message's id first.
abbrev pub PendingOperationId : Type 0
PendingOperationId = ℕ × ℕ

pub record PendingAsyncOperation : Type 0 where
  pub msg_id : ℕ
  pub queue_id : ℕ

pub record PendingAsyncDequeue : Type 0 where
  pub operation : PendingAsyncOperation
  pub open operation use *

pub record PendingAsyncEnqueue : Type 0 where
  pub operation : PendingAsyncOperation
  pub open operation use *
  pub buff : List ℕ
  pub size : ℕ
  pub transient : Bool

abbrev pub pending_operation : ℕ → ℕ → PendingAsyncOperation
pending_operation mid qid = record { msg_id = mid; queue_id = qid }

abbrev pub pending_dequeue : ℕ → ℕ → PendingAsyncDequeue
pending_dequeue mid qid = record { operation = pending_operation mid qid }

-- The constructor's enqueue has no data yet.
abbrev pub pending_enqueue : ℕ → ℕ → Bool → PendingAsyncEnqueue
pending_enqueue mid qid transient = record {
  operation = pending_operation mid qid;
  buff = [];
  size = 0;
  transient = transient;
}

abbrev pub op_id : PendingAsyncOperation → PendingOperationId
op_id o = (o.msg_id, o.queue_id)

-- operator==
pub op_eq : PendingAsyncOperation → PendingAsyncOperation → Bool
op_eq left right = left.msg_id == right.msg_id && left.queue_id == right.queue_id

-- operator!=
pub op_ne : PendingAsyncOperation → PendingAsyncOperation → Bool
op_ne left right = not (left.msg_id == right.msg_id) || not (left.queue_id == right.queue_id)

-- operator<
pub op_lt : PendingAsyncOperation → PendingAsyncOperation → Bool
op_lt left right =
    if ltb left.msg_id right.msg_id
    then true
    else if ltb left.queue_id right.queue_id
    then true
    else false

-- operator>
pub op_gt : PendingAsyncOperation → PendingAsyncOperation → Bool
op_gt left right =
    if ltb right.msg_id left.msg_id
    then true
    else if ltb right.queue_id left.queue_id
    then true
    else false

-- operator<=
pub op_le : PendingAsyncOperation → PendingAsyncOperation → Bool
unfolding op_eq op_lt
op_le left right = if op_eq left right || op_lt left right then true else false

-- operator>=
pub op_ge : PendingAsyncOperation → PendingAsyncOperation → Bool
unfolding op_eq op_gt
op_ge left right = if op_eq left right || op_gt left right then true else false
