-- ===== src/Async.antt =====
-- internal/store/async.go: the queue between the request path and the store. The caller, the worker
-- and the ticker interleave; each case of a `select` is one step. The channel has a buffer: with a size
-- of 0 the model drops every record, where Go hands one over to a worker that waits.
mod Tests
pub mod Runs
use optictrace.Prelude.{
  ℕ, zero, suc, ◌+◌, ◌<◌, Bool, true, false, not, ◌&&◌, Option, none, some, List, [], ◌∷◌, ◌++◌,
  length, ltb, is_empty, if◌then◌else◌, ◌≡◌,
}

-- The calls that the store gets. A failed one is only logged, so its outcome is not kept.
pub data Call (R : Type 0) : Type 0 where
  save : R → Call R
  prune prune_before prune_app_logs prune_spans : ℕ → Call R

-- Retention of 0 is off; `keeps_app_logs` and `keeps_spans` are the type assertions on the store.
pub record Retention : Type 0 where
  pub max_rows : ℕ
  pub max_age : ℕ
  pub app_log_max_age : ℕ
  pub span_max_age : ℕ
  pub keeps_app_logs : Bool
  pub keeps_spans : Bool

-- `size` is the capacity of the channel, `done` the closed channel of that name, `dropped` how often
-- onDrop ran.
pub record Writer (R : Type 0) : Type 0 where
  pub queue : List R
  pub size : ℕ
  pub retention : Retention
  pub is_closed : Bool
  pub done : Bool
  pub dropped : ℕ
  pub calls : List (Call R)

module _ {R : Type 0} where
  unfoldable pub new_writer : ℕ → Retention → Writer R
  new_writer size retention = record {
    queue = [];
    size = size;
    retention = retention;
    is_closed = false;
    done = false;
    dropped = 0;
    calls = [];
  }

  -- A send on a full channel takes the default case.
  unfoldable pub enqueue : R → Writer R → Writer R
  enqueue rec w =
      if ltb (length w.queue) w.size
      then record w { queue = w.queue ++ rec ∷ [] }
      else record w { dropped = w.dropped + 1 }

  abbrev pub receive : List R → Writer R → Writer R
  receive [] w = if w.is_closed then record w { done = true } else w
  receive (rec ∷ queue) w = record w { queue = queue; calls = w.calls ++ save rec ∷ [] }

  -- The worker's receive: it waits on an empty queue, and ends once that is closed.
  unfoldable pub work : Writer R → Writer R
  work w = if w.done then w else receive w.queue w

  abbrev pub call_if : Bool → Call R → List (Call R)
  call_if true c = c ∷ []
  call_if false c = []

  abbrev pub prunes : Retention → List (Call R)
  prunes r =
      call_if (ltb 0 r.max_rows) (prune r.max_rows)
      ++ (call_if (ltb 0 r.max_age) (prune_before r.max_age)
          ++ (call_if (ltb 0 r.app_log_max_age && r.keeps_app_logs)
                (prune_app_logs r.app_log_max_age)
              ++ call_if (ltb 0 r.span_max_age && r.keeps_spans) (prune_spans r.span_max_age)))

  unfoldable pub tick : Writer R → Writer R
  tick w = if w.done then w else record w { calls = w.calls ++ prunes w.retention }

  -- `close(w.queue)`
  unfoldable pub close_queue : Writer R → Writer R
  close_queue w = record w { is_closed = true }

  -- The interleavings, indexed by the records that were offered. To offer one after the close panics.
  pub data Run (size : ℕ) (retention : Retention) : List R → Writer R → Type 0 where
    start : Run size retention [] (new_writer size retention)
    offered :
        {os : List R} {w : Writer R} (rec : R)
        → w.is_closed ≡ false
        → Run size retention os w
        → Run size retention (os ++ rec ∷ []) (enqueue rec w)
    worked : {os : List R} {w : Writer R} → Run size retention os w → Run size retention os (work w)
    ticked : {os : List R} {w : Writer R} → Run size retention os w → Run size retention os (tick w)
    closed :
        {os : List R} {w : Writer R}
        → w.is_closed ≡ false
        → Run size retention os w
        → Run size retention os (close_queue w)

  -- What the store was given to save, in order.
  abbrev pub saves : List (Call R) → List R
  saves [] = []
  saves (save rec ∷ calls) = rec ∷ saves calls
  saves (c ∷ calls) = saves calls
