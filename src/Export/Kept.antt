-- ===== src/Export/Kept.antt =====
-- internal/export/export.go, run: what delivering a batch leaves alone.
use optictrace.Prelude.{
  ℕ, Bool, true, false, List, [], ◌∷◌, ◌++◌, length, is_empty, leb, ◌≡◌, refl, ◌∙◌, if_cases,
}
use optictrace.Export.{Worker, settle, flush, flush_logs, add_record, add_log, drain_logs}

module _ {R L : Type 0} where
  pub record Kept (v w : Worker R L) : Type 0 where
    pub queue : v.queue ≡ w.queue
    pub log_queue : v.log_queue ≡ w.log_queue
    pub log_open : v.log_open ≡ w.log_open
    pub closed : v.closed ≡ w.closed
    pub returned : v.returned ≡ w.returned
    pub takes_logs : v.takes_logs ≡ w.takes_logs

  pub Kept-refl : (w : Worker R L) → Kept w w
  Kept-refl w = record {
    queue = refl;
    log_queue = refl;
    log_open = refl;
    closed = refl;
    returned = refl;
    takes_logs = refl;
  }

  pub Kept-trans : {u v w : Worker R L} → Kept u v → Kept v w → Kept u w
  Kept-trans p q = record {
    queue = p.queue ∙ q.queue;
    log_queue = p.log_queue ∙ q.log_queue;
    log_open = p.log_open ∙ q.log_open;
    closed = p.closed ∙ q.closed;
    returned = p.returned ∙ q.returned;
    takes_logs = p.takes_logs ∙ q.takes_logs;
  }

  batched : (bs : List R) (w : Worker R L) → Kept (record w { batch = bs }) w
  batched bs w = record {
    queue = refl;
    log_queue = refl;
    log_open = refl;
    closed = refl;
    returned = refl;
    takes_logs = refl;
  }

  log_batched : (bs : List L) (w : Worker R L) → Kept (record w { log_batch = bs }) w
  log_batched bs w = record {
    queue = refl;
    log_queue = refl;
    log_open = refl;
    closed = refl;
    returned = refl;
    takes_logs = refl;
  }

  settle-Kept : (ok : Bool) (n : ℕ) (w : Worker R L) → Kept (settle ok n w) w
  settle-Kept true n w = record {
    queue = refl;
    log_queue = refl;
    log_open = refl;
    closed = refl;
    returned = refl;
    takes_logs = refl;
  }
  settle-Kept false n w = record {
    queue = refl;
    log_queue = refl;
    log_open = refl;
    closed = refl;
    returned = refl;
    takes_logs = refl;
  }

  settle-batch : (ok : Bool) (n : ℕ) (w : Worker R L) → (settle ok n w).batch ≡ w.batch
  settle-batch true n w = refl
  settle-batch false n w = refl

  module _ (succeeds : ℕ → Bool) where
    pub flush-Kept : (w : Worker R L) → Kept (flush succeeds w) w
    unfolding flush
    flush-Kept w =
        if_cases (λ (v : Worker R L). Kept v w) (is_empty w.batch) _ _ (λ e. Kept-refl w)
          (λ e. Kept-trans (batched [] _) (settle-Kept (succeeds w.exports) (length w.batch) w))

    pub flush_logs-Kept : (w : Worker R L) → Kept (flush_logs succeeds w) w
    unfolding flush_logs
    flush_logs-Kept w =
        if_cases (λ (v : Worker R L). Kept v w) (is_empty w.log_batch) _ _ (λ e. Kept-refl w)
          (λ e.
            Kept-trans (log_batched [] _) (settle-Kept (succeeds w.exports) (length w.log_batch) w))

    pub add_record-Kept : (rec : R) (w : Worker R L) → Kept (add_record succeeds rec w) w
    unfolding add_record
    add_record-Kept rec w =
        let v = record w { batch = w.batch ++ rec ∷ [] } in
        if_cases (λ (u : Worker R L). Kept u w) (leb v.batch_size (length v.batch)) _ _
          (λ e. Kept-trans (flush-Kept v) (batched _ w)) (λ e. batched _ w)

    pub add_log-Kept : (l : L) (w : Worker R L) → Kept (add_log succeeds l w) w
    unfolding add_log
    add_log-Kept l w =
        let v = record w { log_batch = w.log_batch ++ l ∷ [] } in
        if_cases (λ (u : Worker R L). Kept u w) (leb v.batch_size (length v.log_batch)) _ _
          (λ e. Kept-trans (flush_logs-Kept v) (log_batched _ w)) (λ e. log_batched _ w)

    pub drain_logs-Kept : (ls : List L) (w : Worker R L) → Kept (drain_logs succeeds ls w) w
    unfolding drain_logs
    drain_logs-Kept [] w = Kept-refl w
    drain_logs-Kept (l ∷ ls) w =
        Kept-trans (drain_logs-Kept ls (add_log succeeds l w)) (add_log-Kept l w)

    pub batch-flush_logs : (w : Worker R L) → (flush_logs succeeds w).batch ≡ w.batch
    unfolding flush_logs
    batch-flush_logs w =
        if_cases (λ (v : Worker R L). v.batch ≡ w.batch) (is_empty w.log_batch) _ _ (λ e. refl)
          (λ e. settle-batch (succeeds w.exports) (length w.log_batch) w)

    batch-add_log : (l : L) (w : Worker R L) → (add_log succeeds l w).batch ≡ w.batch
    unfolding add_log
    batch-add_log l w =
        let v = record w { log_batch = w.log_batch ++ l ∷ [] } in
        if_cases (λ (u : Worker R L). u.batch ≡ w.batch) (leb v.batch_size (length v.log_batch)) _ _
          (λ e. batch-flush_logs v) (λ e. refl)

    pub batch-drain_logs :
        (ls : List L) (w : Worker R L) → (drain_logs succeeds ls w).batch ≡ w.batch
    unfolding drain_logs
    batch-drain_logs [] w = refl
    batch-drain_logs (l ∷ ls) w = batch-drain_logs ls (add_log succeeds l w) ∙ batch-add_log l w
