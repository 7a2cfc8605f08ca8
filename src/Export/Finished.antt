-- ===== src/Export/Finished.antt =====
-- internal/export/export.go, run: the arm of a queue that is closed and empty.
use optictrace.Prelude.{
  ℕ, ◌+◌, Bool, true, false, List, [], ◌∷◌, length, if◌then◌else◌, ◌≡◌, refl, sym, arith, ap, ◌∙◌,
  if_cases,
}
use optictrace.Export.{
  Worker, Step, offers, offers_log, closes, receives, receives_log, ticks, flush, flush_logs,
  drain_open, finish, receive, receive_log, tick, step, run,
}
use optictrace.Export.Conserved.{accounted}
use optictrace.Export.Kept.{
  flush-Kept, flush_logs-Kept, drain_logs-Kept, batch-flush_logs, batch-drain_logs,
}
use optictrace.Export.Offered.{count_offers}
use optictrace.Export.Phases.{Closing, Closing-Kept}

module _ {R L : Type 0} where
  pub record Done (w : Worker R L) : Type 0 where
    pub returned : w.returned ≡ true
    pub no_queue : length w.queue ≡ 0
    pub no_batch : length w.batch ≡ 0
    pub no_log_queue : length w.log_queue ≡ 0
    pub no_log_batch : length w.log_batch ≡ 0

  -- What the counters of an exporter hold.
  abbrev pub settled : Worker R L → ℕ
  settled w = w.delivered + w.failed + w.dropped + w.log_drop

  pub settled-Done : (w : Worker R L) → Done w → settled w ≡ accounted w
  unfolding accounted
  settled-Done w d = omega (arith, d.no_queue, d.no_batch, d.no_log_queue, d.no_log_batch)

  -- Only the arms of the select.
  abbrev pub is_quiet : List (Step R L) → Bool
  is_quiet [] = true
  is_quiet (offers rec ∷ steps) = false
  is_quiet (offers_log l ∷ steps) = false
  is_quiet (closes ∷ steps) = false
  is_quiet (receives ∷ steps) = is_quiet steps
  is_quiet (receives_log ∷ steps) = is_quiet steps
  is_quiet (ticks ∷ steps) = is_quiet steps

  -- How often the arm of the records is taken.
  abbrev pub count_receives : List (Step R L) → ℕ
  count_receives [] = 0
  count_receives (offers rec ∷ steps) = count_receives steps
  count_receives (offers_log l ∷ steps) = count_receives steps
  count_receives (closes ∷ steps) = count_receives steps
  count_receives (receives ∷ steps) = count_receives steps + 1
  count_receives (receives_log ∷ steps) = count_receives steps
  count_receives (ticks ∷ steps) = count_receives steps

  stayed : (w v : Worker R L) → Done w → Done (if w.returned then w else v)
  stayed w v d =
      if_cases (λ (u : Worker R L). Done u) w.returned _ _ (λ e. d)
        (λ e. absurd (ground (arith, d.returned)))

  pub count_offers-quiet :
      (takes : Bool) (steps : List (Step R L))
      → is_quiet steps ≡ true
      → count_offers takes steps ≡ 0
  count_offers-quiet takes [] q = refl
  count_offers-quiet takes (offers rec ∷ steps) q = absurd (ground arith)
  count_offers-quiet takes (offers_log l ∷ steps) q = absurd (ground arith)
  count_offers-quiet takes (closes ∷ steps) q = absurd (ground arith)
  count_offers-quiet takes (receives ∷ steps) q = count_offers-quiet takes steps q
  count_offers-quiet takes (receives_log ∷ steps) q = count_offers-quiet takes steps q
  count_offers-quiet takes (ticks ∷ steps) q = count_offers-quiet takes steps q

  module _ (succeeds : ℕ → Bool) where
    no_batch-flush : (w : Worker R L) → length (flush succeeds w).batch ≡ 0
    unfolding flush
    no_batch-flush w = ground arith

    no_log_batch-flush_logs : (w : Worker R L) → length (flush_logs succeeds w).log_batch ≡ 0
    unfolding flush_logs
    no_log_batch-flush_logs w = ground arith

    queue-drain_open : (w : Worker R L) → (drain_open succeeds w).queue ≡ w.queue
    queue-drain_open w =
        if_cases (λ (v : Worker R L). v.queue ≡ w.queue) w.log_open _ _
          (λ e. (drain_logs-Kept succeeds w.log_queue (record w { log_queue = [] })).queue)
          (λ e. refl)

    batch-drain_open : (w : Worker R L) → (drain_open succeeds w).batch ≡ w.batch
    batch-drain_open w =
        if_cases (λ (v : Worker R L). v.batch ≡ w.batch) w.log_open _ _
          (λ e. batch-drain_logs succeeds w.log_queue (record w { log_queue = [] })) (λ e. refl)

    log_queue-drain_open :
        (w : Worker R L)
        → (w.log_open ≡ false → w.log_queue ≡ [])
        → (drain_open succeeds w).log_queue ≡ []
    log_queue-drain_open w idle =
        if_cases (λ (v : Worker R L). v.log_queue ≡ []) w.log_open _ _
          (λ e. (drain_logs-Kept succeeds w.log_queue (record w { log_queue = [] })).log_queue) idle

    pub finish-Done : (w : Worker R L) → Closing w → [] ≡ w.queue → Done (finish succeeds w)
    unfolding finish
    finish-Done w c e =
        let p = flush-Kept succeeds w in
        let u = drain_open succeeds (flush succeeds w) in
        let k = flush_logs-Kept succeeds u in
        let d = Closing-Kept p c in
        record {
          returned = refl;
          no_queue = ap length (k.queue ∙ queue-drain_open (flush succeeds w) ∙ p.queue ∙ sym e);
          no_batch =
              ap length (batch-flush_logs succeeds u ∙ batch-drain_open (flush succeeds w))
              ∙ no_batch-flush w;
          no_log_queue = ap length (k.log_queue ∙ log_queue-drain_open (flush succeeds w) d.idle);
          no_log_batch = no_log_batch-flush_logs u;
        }

    -- A worker that has returned takes no arm.
    pub run-Done :
        (steps : List (Step R L)) (w : Worker R L)
        → is_quiet steps ≡ true
        → Done w
        → Done (run succeeds w steps)
    unfolding run step receive receive_log tick
    run-Done [] w q d = d
    run-Done (offers rec ∷ steps) w q d = absurd (ground arith)
    run-Done (offers_log l ∷ steps) w q d = absurd (ground arith)
    run-Done (closes ∷ steps) w q d = absurd (ground arith)
    run-Done (receives ∷ steps) w q d = run-Done steps (receive succeeds w) q (stayed w _ d)
    run-Done (receives_log ∷ steps) w q d = run-Done steps (receive_log succeeds w) q (stayed w _ d)
    run-Done (ticks ∷ steps) w q d = run-Done steps (tick succeeds w) q (stayed w _ d)
