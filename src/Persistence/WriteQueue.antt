-- ===== src/Persistence/WriteQueue.antt =====
-- src/infrastructure/persistence/write-queue.ts: `BoundedWriteQueue`. The sink is a parameter: it gets
-- a batch and a state, and says whether it returned (`true`) or threw. The queue looks at the kind of
-- an operation only, so the types of the three appended records are parameters. The interval timer
-- calls `flush` and catches its error.
pub mod Contents
pub mod Bounds
pub mod Totals
pub mod Preserves
use pi_smart_router.Prelude.{
  ℕ, ◌+◌, suc, String, Bool, true, false, not, Option, none, some, List, [], ◌∷◌, ◌++◌, length,
  get_or, leb, without_first, if◌then◌else◌,
}
use pi_smart_router.Types.{SessionPin}

pub data WriteOp (T D O : Type 0) : Type 0 where
  put_pin : SessionPin → WriteOp T D O
  delete_pin : String → WriteOp T D O
  append_telemetry : T → WriteOp T D O
  append_dataset : D → WriteOp T D O
  append_outcome : O → WriteOp T D O

module _ {T D O : Type 0} where
  -- `DURABLE_OP_KINDS.has(op.kind)`
  abbrev pub is_durable : WriteOp T D O → Bool
  is_durable (put_pin pin) = true
  is_durable (delete_pin id) = true
  is_durable (append_telemetry entry) = false
  is_durable (append_dataset entry) = false
  is_durable (append_outcome entry) = false

pub record WriteQueueOptions : Type 0 where
  pub max_batch_size : Option ℕ
  pub capacity : Option ℕ

pub record BoundedWriteQueue (T D O : Type 0) : Type 0 where
  pub pending : List (WriteOp T D O)
  pub closed : Bool
  pub enqueued_count : ℕ
  pub dropped_count : ℕ
  pub flushed_count : ℕ
  pub flush_cycles : ℕ
  pub max_batch_size : ℕ
  pub capacity : ℕ

pub record WriteQueueStats : Type 0 where
  pub enqueued : ℕ
  pub dropped : ℕ
  pub flushed : ℕ
  pub flush_count : ℕ

abbrev pub default_max_batch_size : ℕ
default_max_batch_size = 64

abbrev pub default_queue_capacity : ℕ
default_queue_capacity = 1024

-- What a caller calls; `tick` is the timer.
pub data Call (T D O : Type 0) : Type 0 where
  enqueue_call : WriteOp T D O → Call T D O
  flush_call close_call tick : Call T D O

module _ {T D O : Type 0} where
  unfoldable pub create_write_queue : WriteQueueOptions → BoundedWriteQueue T D O
  create_write_queue options = record {
    pending = [];
    closed = false;
    enqueued_count = 0;
    dropped_count = 0;
    flushed_count = 0;
    flush_cycles = 0;
    max_batch_size = get_or options.max_batch_size default_max_batch_size;
    capacity = get_or options.capacity default_queue_capacity;
  }

  unfoldable pub stats : BoundedWriteQueue T D O → WriteQueueStats
  stats q = record {
    enqueued = q.enqueued_count;
    dropped = q.dropped_count;
    flushed = q.flushed_count;
    flush_count = q.flush_cycles;
  }

module _ {T D O S : Type 0} (sink : S → List (WriteOp T D O) → Bool × S) where
  -- A queue beside the state of its sink.
  abbrev pub Run : Type 0
  Run = BoundedWriteQueue T D O × S

  -- `flushedCount += batch.length; flushCycles++`, which a throw skips.
  abbrev pub counted : Bool → ℕ → BoundedWriteQueue T D O → BoundedWriteQueue T D O
  counted false n q = q
  counted true n q = record q {
    flushed_count = q.flushed_count + n;
    flush_cycles = q.flush_cycles + 1;
  }

  unfoldable pub flush_batch : List (WriteOp T D O) → Run → Bool × Run
  flush_batch [] r = (true, r)
  flush_batch (op ∷ rest) (q, s) =
      let (ok, after) = sink s (op ∷ rest) in
      (ok, (counted ok (length (op ∷ rest)) (record q { pending = [] }), after))

  -- The Boolean says whether the method returned.
  unfoldable pub flush : Run → Bool × Run
  unfolding flush_batch
  flush (q, s) = flush_batch q.pending (q, s)

  -- The oldest lossy operation goes; a queue of durable ones is flushed.
  unfoldable pub drop_oldest : Option (List (WriteOp T D O)) → Run → Bool × Run
  unfolding flush
  drop_oldest none r = flush r
  drop_oldest (some kept) (q, s) =
      (true, (record q { pending = kept; dropped_count = q.dropped_count + 1 }, s))

  -- The backpressure of a full queue.
  unfoldable pub make_room : WriteOp T D O → Run → Bool × Run
  unfolding flush drop_oldest
  make_room op (q, s) =
      if not (leb q.capacity (length q.pending))
      then (true, (q, s))
      else if is_durable op
      then flush (q, s)
      else drop_oldest (without_first (λ queued. not (is_durable queued)) q.pending) (q, s)

  -- `this.pending.push(op)` and the size trigger.
  unfoldable pub push : WriteOp T D O → Run → Bool × Run
  unfolding flush
  push op (q, s) =
      let pushed : BoundedWriteQueue T D O = record q {
        pending = q.pending ++ (op ∷ []);
        enqueued_count = q.enqueued_count + 1;
      } in
      if leb q.max_batch_size (length (q.pending ++ (op ∷ [])))
      then flush (pushed, s)
      else (true, (pushed, s))

  -- A write after `close`.
  unfoldable pub enqueue_closed : WriteOp T D O → Run → Bool × Run
  enqueue_closed op (q, s) =
      if not (is_durable op)
      then (false, (record q { dropped_count = q.dropped_count + 1 }, s))
      else let (ok, after) = sink s (op ∷ []) in (true, (counted ok 1 q, after))

  abbrev pub then_push : WriteOp T D O → Bool × Run → Bool × Run
  then_push op (false, r) = (false, r)
  then_push op (true, r) = push op r

  -- The result of `enqueue`; none where it throws.
  abbrev pub returned : Bool × Run → Option Bool × Run
  returned (true, r) = (some true, r)
  returned (false, r) = (none, r)

  abbrev pub accepted : Bool × Run → Option Bool × Run
  accepted (b, r) = (some b, r)

  unfoldable pub enqueue : WriteOp T D O → Run → Option Bool × Run
  unfolding enqueue_closed make_room push
  enqueue op (q, s) =
      if q.closed
      then accepted (enqueue_closed op (q, s))
      else returned (then_push op (make_room op (q, s)))

  unfoldable pub close : Run → Bool × Run
  unfolding flush
  close (q, s) = if q.closed then (true, (q, s)) else flush (record q { closed = true }, s)

  unfoldable pub step : Call T D O → Run → Run
  unfolding enqueue flush close
  step (enqueue_call op) r = (enqueue op r).1
  step flush_call r = (flush r).1
  step close_call r = (close r).1
  step tick r = (flush r).1

  unfoldable pub run : List (Call T D O) → Run → Run
  unfolding step
  run [] r = r
  run (c ∷ cs) r = run cs (step c r)
