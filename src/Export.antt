-- ===== src/Export.antt =====
-- internal/export/export.go: the dispatcher's queues and the worker of an exporter, whose select is a
-- sequence of steps. What an exporter answers to its n-th batch is a parameter.
mod Tests
pub mod Conserved
pub mod Drained
pub mod Finished
pub mod Kept
pub mod Offered
pub mod Phases
use optictrace.Prelude.{
  ℕ, zero, suc, ◌+◌, Bool, true, false, not, ◌&&◌, ◌||◌, List, [], ◌∷◌, ◌++◌, map, length, is_empty,
  leb, ltb, if◌then◌else◌,
}

-- `takes_logs` is that `logs` is not nil, `log_open` that the worker's own `logQueue` is not.
pub record Worker (R L : Type 0) : Type 0 where
  pub queue : List R
  pub queue_size : ℕ
  pub batch_size : ℕ
  pub batch : List R
  pub takes_logs : Bool
  pub log_queue : List L
  pub log_open : Bool
  pub log_batch : List L
  pub closed : Bool
  pub returned : Bool
  pub delivered : ℕ
  pub failed : ℕ
  pub dropped : ℕ
  pub log_drop : ℕ
  pub exports : ℕ

module _ {R L : Type 0} where
  -- The worker that New starts.
  unfoldable pub new_worker : ℕ → ℕ → Bool → Worker R L
  new_worker queue_size batch_size takes_logs = record {
    queue = [];
    queue_size = queue_size;
    batch_size = batch_size;
    batch = [];
    takes_logs = takes_logs;
    log_queue = [];
    log_open = takes_logs;
    log_batch = [];
    closed = false;
    returned = false;
    delivered = 0;
    failed = 0;
    dropped = 0;
    log_drop = 0;
    exports = 0;
  }

  -- Enqueue, at one worker.
  unfoldable pub enqueue : R → Worker R L → Worker R L
  enqueue rec w =
      if ltb (length w.queue) w.queue_size
      then record w { queue = w.queue ++ rec ∷ [] }
      else record w { dropped = w.dropped + 1 }

  -- EnqueueAppLog, at one worker.
  unfoldable pub enqueue_app_log : L → Worker R L → Worker R L
  enqueue_app_log l w =
      if w.takes_logs
      then (if ltb (length w.log_queue) w.queue_size
          then record w { log_queue = w.log_queue ++ l ∷ [] }
          else record w { log_drop = w.log_drop + 1 })
      else w

  unfoldable pub enqueue_all : R → List (Worker R L) → List (Worker R L)
  unfolding enqueue
  enqueue_all rec ws = map (enqueue rec) ws

  unfoldable pub enqueue_app_log_all : L → List (Worker R L) → List (Worker R L)
  unfolding enqueue_app_log
  enqueue_app_log_all l ws = map (enqueue_app_log l) ws

  -- Shutdown, at one worker: no record is offered from then on.
  abbrev pub close : Worker R L → Worker R L
  close w = record w { closed = true }

  abbrev pub settle : Bool → ℕ → Worker R L → Worker R L
  settle true n w = record w { delivered = w.delivered + n; exports = w.exports + 1 }
  settle false n w = record w { failed = w.failed + n; exports = w.exports + 1 }

  module _ (succeeds : ℕ → Bool) where
    unfoldable pub flush : Worker R L → Worker R L
    flush w =
        if is_empty w.batch
        then w
        else record (settle (succeeds w.exports) (length w.batch) w) { batch = [] }

    unfoldable pub flush_logs : Worker R L → Worker R L
    flush_logs w =
        if is_empty w.log_batch
        then w
        else record (settle (succeeds w.exports) (length w.log_batch) w) { log_batch = [] }

    unfoldable pub add_record : R → Worker R L → Worker R L
    unfolding flush
    add_record rec w =
        let v = record w { batch = w.batch ++ rec ∷ [] } in
        if leb v.batch_size (length v.batch) then flush v else v

    unfoldable pub add_log : L → Worker R L → Worker R L
    unfolding flush_logs
    add_log l w =
        let v = record w { log_batch = w.log_batch ++ l ∷ [] } in
        if leb v.batch_size (length v.log_batch) then flush_logs v else v

    -- `for l := range logQueue` over a channel that is closed.
    unfoldable pub drain_logs : List L → Worker R L → Worker R L
    unfolding add_log
    drain_logs [] w = w
    drain_logs (l ∷ ls) w = drain_logs ls (add_log l w)

    abbrev pub drain_open : Worker R L → Worker R L
    drain_open w = if w.log_open then drain_logs w.log_queue (record w { log_queue = [] }) else w

    -- The arm of a queue that is closed and empty.
    unfoldable pub finish : Worker R L → Worker R L
    unfolding flush flush_logs drain_logs
    finish w = record (flush_logs (drain_open (flush w))) { returned = true }

    abbrev pub take_record : List R → Worker R L → Worker R L
    take_record [] w = if w.closed then finish w else w
    take_record (rec ∷ recs) w = add_record rec (record w { queue = recs })

    -- `case rec, ok := <-w.queue`; an arm that is not ready is not taken.
    unfoldable pub receive : Worker R L → Worker R L
    unfolding add_record finish
    receive w = if w.returned then w else take_record w.queue w

    abbrev pub take_log : List L → Worker R L → Worker R L
    take_log [] w = if w.closed then flush_logs (record w { log_open = false }) else w
    take_log (l ∷ ls) w = add_log l (record w { log_queue = ls })

    -- `case l, ok := <-logQueue`
    unfoldable pub receive_log : Worker R L → Worker R L
    unfolding add_log flush_logs
    receive_log w = if w.returned then w else if w.log_open then take_log w.log_queue w else w

    -- `case <-ticker.C`
    unfoldable pub tick : Worker R L → Worker R L
    unfolding flush flush_logs
    tick w = if w.returned then w else flush_logs (flush w)

-- A send on a channel that is closed would panic: the callers of Shutdown offer nothing after it. Its
-- two channels are closed in one step.
pub data Step (R L : Type 0) : Type 0 where
  offers : R → Step R L
  offers_log : L → Step R L
  closes receives receives_log ticks : Step R L

module _ {R L : Type 0} (succeeds : ℕ → Bool) where
  unfoldable pub step : Worker R L → Step R L → Worker R L
  step w (offers rec) = enqueue rec w
  step w (offers_log l) = enqueue_app_log l w
  step w closes = close w
  step w receives = receive succeeds w
  step w receives_log = receive_log succeeds w
  step w ticks = tick succeeds w

  unfoldable pub run : Worker R L → List (Step R L) → Worker R L
  unfolding step
  run w [] = w
  run w (s ∷ steps) = run (step w s) steps
