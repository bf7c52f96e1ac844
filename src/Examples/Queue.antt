-- ===== src/Examples/Queue.antt =====
-- The write queue at concrete inputs, with a sink that records what it is given.
use pi_smart_router.Prelude.{
  ℕ, ◌+◌, ◌≡◌, ◌<◌, ◌≤◌, refl, Bool, true, false, some, List, [], ◌∷◌, ◌++◌, length, arith,
}
use pi_smart_router.Persistence.WriteQueue.{
  WriteOp, put_pin, delete_pin, append_telemetry, WriteQueueOptions, Call, enqueue_call, tick,
  create_write_queue, close, run, stats,
}
use pi_smart_router.Persistence.WriteQueue.Contents.{durable_ops, requested, close-durable_order}
use pi_smart_router.Persistence.WriteQueue.Bounds.{pending_bounded}
use pi_smart_router.Persistence.WriteQueue.Totals.{run-accounted}
use pi_smart_router.Examples.Fixtures.{pin}

abbrev Op : Type 0
Op = WriteOp ℕ ℕ ℕ

abbrev record_batch : List Op → List Op → Bool × List Op
record_batch log batch = (true, log ++ batch)

-- A sink that always throws.
abbrev refuse : List Op → List Op → Bool × List Op
refuse log batch = (false, log)

abbrev log_of : List Op → List Op
log_of log = log

abbrev small_queue : WriteQueueOptions
small_queue = record { max_batch_size = some 3; capacity = some 2 }

abbrev calls : List (Call ℕ ℕ ℕ)
calls =
    enqueue_call (append_telemetry 1)
    ∷ enqueue_call (put_pin pin)
    ∷ enqueue_call (delete_pin "s2")
    ∷ tick
    ∷ enqueue_call (append_telemetry 2)
    ∷ []

recorded : (s batch : List Op) → (record_batch s batch).0 ≡ true
recorded s batch = refl

appended : (s batch : List Op) → log_of (record_batch s batch).1 ≡ log_of s ++ batch
appended s batch = refl

close-durable_order_example :
    let r = (close record_batch (run record_batch calls (create_write_queue small_queue, []))).1 in
    (r.0.pending ≡ [])
    × (durable_ops (log_of r.1) ≡ durable_ops (log_of []) ++ durable_ops (requested calls))
close-durable_order_example =
    close-durable_order record_batch log_of recorded appended small_queue [] calls

pending_bounded_example :
    let q = (run refuse calls (create_write_queue small_queue, [])).0 in
    (length q.pending < 3) × (length q.pending ≤ 2)
pending_bounded_example = pending_bounded refuse small_queue [] calls (omega arith) (omega arith)

run-accounted_example :
    let q = (run record_batch calls (create_write_queue small_queue, [])).0 in
    (stats q).flushed + (stats q).dropped + length q.pending ≡ length (requested calls)
run-accounted_example = run-accounted record_batch recorded small_queue [] calls
