-- ===== src/PendingOperation/Compare.antt =====
-- How the comparison operators of the pending operations relate to one another.
use bdbmsgstore.Prelude.{◌<◌, ◌≡◌, ◌↔◌, ◌⊎◌, true, not, ◌||◌, arith}
use bdbmsgstore.PendingOperation.{PendingAsyncOperation, op_eq, op_ne, op_lt, op_gt, op_le, op_ge}

-- The six operators are consistent with one another: `!=` is the negation of `==`, `>` is `<` with
-- its sides exchanged, `<=` and `>=` are `<` and `>` or equality, and any two operations are
-- comparable by `<=`.
pub operators_agree :
    (a b : PendingAsyncOperation)
    → (op_ne a b ≡ not (op_eq a b))
      × (op_gt a b ≡ op_lt b a)
      × (op_le a b ≡ (op_eq a b || op_lt a b))
      × (op_ge a b ≡ op_le b a)
      × ((op_le a b || op_le b a) ≡ true)
unfolding op_eq op_ne op_lt op_gt op_le op_ge
operators_agree a b = (ground arith, ground arith, ground arith, ground arith, ground arith)

-- `operator<` is no order: it holds both ways between two operations exactly when the one with the
-- smaller message id has the larger queue id.
pub op_lt-both_ways :
    (a b : PendingAsyncOperation)
    → ((op_lt a b ≡ true) × (op_lt b a ≡ true)) ↔ (
        ((a.msg_id < b.msg_id) × (b.queue_id < a.queue_id))
        ⊎ ((b.msg_id < a.msg_id) × (a.queue_id < b.queue_id)))
unfolding op_lt
op_lt-both_ways a b = (λ h. ground arith, λ h. (ground arith, ground arith))
