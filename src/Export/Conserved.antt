-- ===== src/Export/Conserved.antt =====
-- internal/export/export.go: what an exporter was given, and what became of it.
use optictrace.Prelude.{
  ℕ, ◌+◌, Bool, true, false, List, [], ◌∷◌, ◌++◌, length, length-append, leb, ltb, if◌then◌else◌,
  ◌≡◌, refl, arith, ap, ◌∙◌, if_cases,
}
use optictrace.Export.{
  Worker, enqueue, enqueue_app_log, settle, flush, flush_logs, add_record, add_log, drain_logs,
  drain_open, finish, take_record, receive, take_log, receive_log, tick,
}

module _ {R L : Type 0} where
  -- Delivered, failed, dropped, or still on the way.
  unfoldable pub accounted : Worker R L → ℕ
  accounted w =
      w.delivered
      + w.failed
      + w.dropped
      + w.log_drop
      + length w.queue
      + length w.batch
      + length w.log_queue
      + length w.log_batch

  accounted-settle :
      (ok : Bool) (n : ℕ) (w : Worker R L) → accounted (settle ok n w) ≡ accounted w + n
  unfolding accounted
  accounted-settle true n w = omega arith
  accounted-settle false n w = omega arith

  pub accounted-enqueue : (rec : R) (w : Worker R L) → accounted (enqueue rec w) ≡ accounted w + 1
  unfolding accounted enqueue
  accounted-enqueue rec w =
      if_cases (λ (v : Worker R L). accounted v ≡ accounted w + 1)
        (ltb (length w.queue) w.queue_size) _ _
        (λ e. omega (arith, length-append w.queue (rec ∷ []))) (λ e. omega arith)

  pub accounted-enqueue_app_log :
      (l : L) (w : Worker R L)
      → accounted (enqueue_app_log l w) ≡ accounted w + (if w.takes_logs then 1 else 0)
  unfolding accounted enqueue_app_log
  accounted-enqueue_app_log l w = ground (arith, length-append w.log_queue (l ∷ []))

  marked : (w : Worker R L) → accounted (record w { returned = true }) ≡ accounted w
  unfolding accounted
  marked w = refl

  reopened : (w : Worker R L) → accounted (record w { log_open = false }) ≡ accounted w
  unfolding accounted
  reopened w = refl

  taken :
      (rec : R) (recs : List R) (w : Worker R L)
      → rec ∷ recs ≡ w.queue
      → accounted (record w { queue = recs }) + 1 ≡ accounted w
  unfolding accounted
  taken rec recs w e = omega (arith, ap length e)

  log_taken :
      (l : L) (ls : List L) (w : Worker R L)
      → l ∷ ls ≡ w.log_queue
      → accounted (record w { log_queue = ls }) + 1 ≡ accounted w
  unfolding accounted
  log_taken l ls w e = omega (arith, ap length e)

  unqueued :
      (w : Worker R L) → accounted (record w { log_queue = [] }) + length w.log_queue ≡ accounted w
  unfolding accounted
  unqueued w = omega arith

  module _ (succeeds : ℕ → Bool) where
    accounted-flush : (w : Worker R L) → accounted (flush succeeds w) ≡ accounted w
    unfolding accounted flush
    accounted-flush w = ground arith

    accounted-flush_logs : (w : Worker R L) → accounted (flush_logs succeeds w) ≡ accounted w
    unfolding accounted flush_logs
    accounted-flush_logs w = ground arith

    accounted-add_record :
        (rec : R) (w : Worker R L) → accounted (add_record succeeds rec w) ≡ accounted w + 1
    unfolding accounted add_record
    accounted-add_record rec w =
        let v = record w { batch = w.batch ++ rec ∷ [] } in
        if_cases (λ (u : Worker R L). accounted u ≡ accounted w + 1)
          (leb v.batch_size (length v.batch)) _ _
          (λ e. omega (arith, accounted-flush v, length-append w.batch (rec ∷ [])))
          (λ e. omega (arith, length-append w.batch (rec ∷ [])))

    accounted-add_log :
        (l : L) (w : Worker R L) → accounted (add_log succeeds l w) ≡ accounted w + 1
    unfolding accounted add_log
    accounted-add_log l w =
        let v = record w { log_batch = w.log_batch ++ l ∷ [] } in
        if_cases (λ (u : Worker R L). accounted u ≡ accounted w + 1)
          (leb v.batch_size (length v.log_batch)) _ _
          (λ e. omega (arith, accounted-flush_logs v, length-append w.log_batch (l ∷ [])))
          (λ e. omega (arith, length-append w.log_batch (l ∷ [])))

    accounted-drain_logs :
        (ls : List L) (w : Worker R L)
        → accounted (drain_logs succeeds ls w) ≡ accounted w + length ls
    unfolding drain_logs
    accounted-drain_logs [] w = omega arith
    accounted-drain_logs (l ∷ ls) w =
        omega (arith, accounted-drain_logs ls (add_log succeeds l w), accounted-add_log l w)

    accounted-drain_open : (w : Worker R L) → accounted (drain_open succeeds w) ≡ accounted w
    accounted-drain_open w =
        if_cases (λ (u : Worker R L). accounted u ≡ accounted w) w.log_open _ _
          (λ e.
            omega
              (arith, accounted-drain_logs w.log_queue (record w { log_queue = [] }), unqueued w))
          (λ e. refl)

    pub accounted-finish : (w : Worker R L) → accounted (finish succeeds w) ≡ accounted w
    unfolding finish
    accounted-finish w =
        let v = drain_open succeeds (flush succeeds w) in
        marked (flush_logs succeeds v)
        ∙ accounted-flush_logs v
        ∙ accounted-drain_open (flush succeeds w)
        ∙ accounted-flush w

    accounted-take_record :
        (q : List R) (w : Worker R L)
        → q ≡ w.queue
        → accounted (take_record succeeds q w) ≡ accounted w
    accounted-take_record [] w e =
        if_cases (λ (u : Worker R L). accounted u ≡ accounted w) w.closed _ _
          (λ e. accounted-finish w) (λ e. refl)
    accounted-take_record (rec ∷ recs) w e =
        omega (arith, accounted-add_record rec (record w { queue = recs }), taken rec recs w e)

    pub accounted-receive : (w : Worker R L) → accounted (receive succeeds w) ≡ accounted w
    unfolding receive
    accounted-receive w =
        if_cases (λ (u : Worker R L). accounted u ≡ accounted w) w.returned _ _ (λ e. refl)
          (λ e. accounted-take_record w.queue w refl)

    accounted-take_log :
        (q : List L) (w : Worker R L)
        → q ≡ w.log_queue
        → accounted (take_log succeeds q w) ≡ accounted w
    accounted-take_log [] w e =
        if_cases (λ (u : Worker R L). accounted u ≡ accounted w) w.closed _ _
          (λ e. accounted-flush_logs (record w { log_open = false }) ∙ reopened w) (λ e. refl)
    accounted-take_log (l ∷ ls) w e =
        omega (arith, accounted-add_log l (record w { log_queue = ls }), log_taken l ls w e)

    pub accounted-receive_log : (w : Worker R L) → accounted (receive_log succeeds w) ≡ accounted w
    unfolding receive_log
    accounted-receive_log w =
        if_cases (λ (u : Worker R L). accounted u ≡ accounted w) w.returned _ _ (λ e. refl)
          (λ e.
            if_cases (λ (u : Worker R L). accounted u ≡ accounted w) w.log_open _ _
              (λ e. accounted-take_log w.log_queue w refl) (λ e. refl))

    pub accounted-tick : (w : Worker R L) → accounted (tick succeeds w) ≡ accounted w
    unfolding tick
    accounted-tick w =
        if_cases (λ (u : Worker R L). accounted u ≡ accounted w) w.returned _ _ (λ e. refl)
          (λ e. accounted-flush_logs (flush succeeds w) ∙ accounted-flush w)
