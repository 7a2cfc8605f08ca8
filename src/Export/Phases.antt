-- ===== src/Export/Phases.antt =====
-- internal/export/export.go: a worker before and after Shutdown.
use optictrace.Prelude.{
  ℕ, Bool, true, false, List, [], ◌∷◌, ◌++◌, length, ltb, ◌≡◌, refl, sym, arith, ◌∙◌, if_cases,
}
use optictrace.Export.{
  Worker, Step, offers, offers_log, closes, receives, receives_log, ticks, new_worker, enqueue,
  enqueue_app_log, close, flush, take_record, receive, take_log, receive_log, tick, step, run,
}
use optictrace.Export.Kept.{
  Kept, Kept-trans, flush-Kept, flush_logs-Kept, add_record-Kept, add_log-Kept,
}

module _ {R L : Type 0} where
  -- Before Shutdown.
  pub record Open (w : Worker R L) : Type 0 where
    pub closed : w.closed ≡ false
    pub returned : w.returned ≡ false
    pub takes : w.takes_logs ≡ w.log_open
    pub idle : w.log_open ≡ false → w.log_queue ≡ []

  -- After Shutdown, until the worker returns.
  pub record Closing (w : Worker R L) : Type 0 where
    pub closed : w.closed ≡ true
    pub returned : w.returned ≡ false
    pub idle : w.log_open ≡ false → w.log_queue ≡ []

  abbrev pub stays_open : List (Step R L) → Bool
  stays_open [] = true
  stays_open (offers rec ∷ steps) = stays_open steps
  stays_open (offers_log l ∷ steps) = stays_open steps
  stays_open (closes ∷ steps) = false
  stays_open (receives ∷ steps) = stays_open steps
  stays_open (receives_log ∷ steps) = stays_open steps
  stays_open (ticks ∷ steps) = stays_open steps

  Open-Kept : {v w : Worker R L} → Kept v w → Open w → Open v
  Open-Kept p o = record {
    closed = p.closed ∙ o.closed;
    returned = p.returned ∙ o.returned;
    takes = p.takes_logs ∙ o.takes ∙ sym p.log_open;
    idle = λ e. p.log_queue ∙ o.idle (sym p.log_open ∙ e);
  }

  pub Closing-Kept : {v w : Worker R L} → Kept v w → Closing w → Closing v
  Closing-Kept p c = record {
    closed = p.closed ∙ c.closed;
    returned = p.returned ∙ c.returned;
    idle = λ e. p.log_queue ∙ c.idle (sym p.log_open ∙ e);
  }

  pub new_worker-Open :
      (queue_size batch_size : ℕ) (takes : Bool) → Open (new_worker queue_size batch_size takes)
  unfolding new_worker
  new_worker-Open queue_size batch_size takes = record {
    closed = refl;
    returned = refl;
    takes = refl;
    idle = λ e. refl;
  }

  requeued : (q : List R) (w : Worker R L) → Open w → Open (record w { queue = q })
  requeued q w o = record {
    closed = o.closed;
    returned = o.returned;
    takes = o.takes;
    idle = o.idle;
  }

  requeued_logs :
      (q : List L) (w : Worker R L) → w.log_open ≡ true → Open w → Open (record w { log_queue = q })
  requeued_logs q w shown o = record {
    closed = o.closed;
    returned = o.returned;
    takes = o.takes;
    idle = λ e. absurd (ground arith);
  }

  enqueue-Open : (rec : R) (w : Worker R L) → Open w → Open (enqueue rec w)
  unfolding enqueue
  enqueue-Open rec w o =
      if_cases (λ (v : Worker R L). Open v) (ltb (length w.queue) w.queue_size) _ _
        (λ e. requeued (w.queue ++ rec ∷ []) w o)
        (λ e. record { closed = o.closed; returned = o.returned; takes = o.takes; idle = o.idle })

  enqueue_app_log-Open : (l : L) (w : Worker R L) → Open w → Open (enqueue_app_log l w)
  unfolding enqueue_app_log
  enqueue_app_log-Open l w o =
      if_cases (λ (v : Worker R L). Open v) w.takes_logs _ _
        (λ t.
          if_cases (λ (v : Worker R L). Open v) (ltb (length w.log_queue) w.queue_size) _ _
            (λ e. requeued_logs (w.log_queue ++ l ∷ []) w (sym o.takes ∙ t) o)
            (λ e. record {
              closed = o.closed;
              returned = o.returned;
              takes = o.takes;
              idle = o.idle;
            }))
        (λ t. o)

  pub close-Closing : (w : Worker R L) → Open w → Closing (close w)
  close-Closing w o = record { closed = refl; returned = o.returned; idle = o.idle }

  module _ (succeeds : ℕ → Bool) where
    take_record-Open : (q : List R) (w : Worker R L) → Open w → Open (take_record succeeds q w)
    take_record-Open [] w o =
        if_cases (λ (v : Worker R L). Open v) w.closed _ _ (λ e. absurd (ground (arith, o.closed)))
          (λ e. o)
    take_record-Open (rec ∷ recs) w o =
        Open-Kept (add_record-Kept succeeds rec (record w { queue = recs })) (requeued recs w o)

    take_log-Open :
        (q : List L) (w : Worker R L) → w.log_open ≡ true → Open w → Open (take_log succeeds q w)
    take_log-Open [] w shown o =
        if_cases (λ (v : Worker R L). Open v) w.closed _ _ (λ e. absurd (ground (arith, o.closed)))
          (λ e. o)
    take_log-Open (l ∷ ls) w shown o =
        Open-Kept (add_log-Kept succeeds l (record w { log_queue = ls }))
          (requeued_logs ls w shown o)

    receive-Open : (w : Worker R L) → Open w → Open (receive succeeds w)
    unfolding receive
    receive-Open w o =
        if_cases (λ (v : Worker R L). Open v) w.returned _ _ (λ e. o)
          (λ e. take_record-Open w.queue w o)

    receive_log-Open : (w : Worker R L) → Open w → Open (receive_log succeeds w)
    unfolding receive_log
    receive_log-Open w o =
        if_cases (λ (v : Worker R L). Open v) w.returned _ _ (λ e. o)
          (λ e.
            if_cases (λ (v : Worker R L). Open v) w.log_open _ _
              (λ e. take_log-Open w.log_queue w e o) (λ e. o))

    pub tick-Kept : (w : Worker R L) → w.returned ≡ false → Kept (tick succeeds w) w
    unfolding tick
    tick-Kept w r =
        if_cases (λ (v : Worker R L). Kept v w) w.returned _ _ (λ e. absurd (ground arith))
          (λ e. Kept-trans (flush_logs-Kept succeeds (flush succeeds w)) (flush-Kept succeeds w))

    pub run-Open :
        (steps : List (Step R L)) (w : Worker R L)
        → stays_open steps ≡ true
        → Open w
        → Open (run succeeds w steps)
    unfolding run step
    run-Open [] w s o = o
    run-Open (offers rec ∷ steps) w s o = run-Open steps (enqueue rec w) s (enqueue-Open rec w o)
    run-Open (offers_log l ∷ steps) w s o =
        run-Open steps (enqueue_app_log l w) s (enqueue_app_log-Open l w o)
    run-Open (closes ∷ steps) w s o = absurd (ground arith)
    run-Open (receives ∷ steps) w s o = run-Open steps (receive succeeds w) s (receive-Open w o)
    run-Open (receives_log ∷ steps) w s o =
        run-Open steps (receive_log succeeds w) s (receive_log-Open w o)
    run-Open (ticks ∷ steps) w s o =
        run-Open steps (tick succeeds w) s (Open-Kept (tick-Kept w o.returned) o)
