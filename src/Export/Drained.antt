-- ===== src/Export/Drained.antt =====
-- internal/export/export.go: Shutdown, after which the worker returns with nothing left.
use optictrace.Prelude.{
  ℕ, ◌+◌, ◌<◌, Bool, true, false, List, [], ◌∷◌, ◌++◌, length, ◌≡◌, refl, sym, arith, ap, ◌∙◌,
  if_cases, subst, ◌⊎◌, inl, inr,
}
use optictrace.Export.{
  Worker, Step, offers, offers_log, closes, receives, receives_log, ticks, new_worker, close,
  take_record, receive, take_log, receive_log, tick, step, run,
}
use optictrace.Export.Conserved.{accounted}
use optictrace.Export.Kept.{flush_logs-Kept, add_record-Kept, add_log-Kept}
use optictrace.Export.Offered.{count_offers, accounted-close, accounted-run, run-append}
use optictrace.Export.Phases.{
  Closing, stays_open, Closing-Kept, new_worker-Open, close-Closing, tick-Kept, run-Open,
}
use optictrace.Export.Finished.{
  Done, settled, settled-Done, is_quiet, count_receives, count_offers-quiet, finish-Done, run-Done,
}

module _ {R L : Type 0} where
  module _ (succeeds : ℕ → Bool) where
    take_log-Closing :
        (q : List L) (w : Worker R L)
        → q ≡ w.log_queue
        → w.log_open ≡ true
        → Closing w
        → Closing (take_log succeeds q w)
    take_log-Closing [] w e shown c =
        if_cases (λ (v : Worker R L). Closing v) w.closed _ _
          (λ t.
            Closing-Kept (flush_logs-Kept succeeds (record w { log_open = false }))
              (record { closed = c.closed; returned = c.returned; idle = λ f. sym e }))
          (λ t. c)
    take_log-Closing (l ∷ ls) w e shown c =
        Closing-Kept (add_log-Kept succeeds l (record w { log_queue = ls }))
          (record { closed = c.closed; returned = c.returned; idle = λ f. absurd (ground arith) })

    receive_log-Closing : (w : Worker R L) → Closing w → Closing (receive_log succeeds w)
    unfolding receive_log
    receive_log-Closing w c =
        if_cases (λ (v : Worker R L). Closing v) w.returned _ _ (λ e. c)
          (λ e.
            if_cases (λ (v : Worker R L). Closing v) w.log_open _ _
              (λ e. take_log-Closing w.log_queue w refl e c) (λ e. c))

    queue-take_log : (q : List L) (w : Worker R L) → (take_log succeeds q w).queue ≡ w.queue
    queue-take_log [] w =
        if_cases (λ (v : Worker R L). v.queue ≡ w.queue) w.closed _ _
          (λ e. (flush_logs-Kept succeeds (record w { log_open = false })).queue) (λ e. refl)
    queue-take_log (l ∷ ls) w = (add_log-Kept succeeds l (record w { log_queue = ls })).queue

    queue-receive_log : (w : Worker R L) → (receive_log succeeds w).queue ≡ w.queue
    unfolding receive_log
    queue-receive_log w =
        if_cases (λ (v : Worker R L). v.queue ≡ w.queue) w.returned _ _ (λ e. refl)
          (λ e.
            if_cases (λ (v : Worker R L). v.queue ≡ w.queue) w.log_open _ _
              (λ e. queue-take_log w.log_queue w) (λ e. refl))

    -- The arm of the records takes one of them away, or is the last.
    take_record-next :
        (q : List R) (w : Worker R L)
        → q ≡ w.queue
        → Closing w
        → Done (take_record succeeds q w)
          ⊎ (Closing (take_record succeeds q w)
              × (length (take_record succeeds q w).queue + 1 ≡ length w.queue))
    take_record-next [] w e c =
        if_cases (λ (v : Worker R L). Done v ⊎ (Closing v × (length v.queue + 1 ≡ length w.queue)))
          w.closed _ _ (λ t. inl (finish-Done succeeds w c e))
          (λ t. absurd (ground (arith, c.closed)))
    take_record-next (rec ∷ recs) w e c =
        let k = add_record-Kept succeeds rec (record w { queue = recs }) in
        inr (
          Closing-Kept k (record { closed = c.closed; returned = c.returned; idle = c.idle }),
          omega (arith, ap length k.queue, ap length e),
        )

    receive-next :
        (w : Worker R L)
        → Closing w
        → Done (receive succeeds w)
          ⊎ (Closing (receive succeeds w)
              × (length (receive succeeds w).queue + 1 ≡ length w.queue))
    unfolding receive
    receive-next w c =
        if_cases (λ (v : Worker R L). Done v ⊎ (Closing v × (length v.queue + 1 ≡ length w.queue)))
          w.returned _ _ (λ t. absurd (ground (arith, c.returned)))
          (λ t. take_record-next w.queue w refl c)

    run-Closing :
        (steps : List (Step R L)) (w : Worker R L)
        → is_quiet steps ≡ true
        → Closing w
        → length w.queue < count_receives steps
        → Done (run succeeds w steps)
    unfolding run step
    run-Closing [] w q c b = absurd (omega arith)
    run-Closing (offers rec ∷ steps) w q c b = absurd (ground arith)
    run-Closing (offers_log l ∷ steps) w q c b = absurd (ground arith)
    run-Closing (closes ∷ steps) w q c b = absurd (ground arith)
    run-Closing (receives ∷ steps) w q c b = elim (receive-next w c) [
      | inl d ↦ run-Done succeeds steps (receive succeeds w) q d
      | inr (d, e) ↦ run-Closing steps (receive succeeds w) q d (omega arith)
    ]
    run-Closing (receives_log ∷ steps) w q c b =
        run-Closing steps (receive_log succeeds w) q (receive_log-Closing w c)
          (omega (arith, ap length (queue-receive_log w)))
    run-Closing (ticks ∷ steps) w q c b =
        let k = tick-Kept succeeds w c.returned in
        run-Closing steps (tick succeeds w) q (Closing-Kept k c) (omega (arith, ap length k.queue))

    run-closes :
        (w : Worker R L) (steps : List (Step R L))
        → run succeeds w (closes ∷ steps) ≡ run succeeds (close w) steps
    unfolding run step
    run-closes w steps = refl

    accounted-close-run :
        (w : Worker R L) (steps : List (Step R L))
        → is_quiet steps ≡ true
        → accounted (run succeeds (close w) steps) ≡ accounted w
    accounted-close-run w steps q = omega (
      arith,
      accounted-run succeeds steps (close w),
      accounted-close w,
      count_offers-quiet w.takes_logs steps q,
    )

  accounted-new_worker :
      (queue_size batch_size : ℕ) (takes : Bool) (steps : List (Step R L))
      → accounted (new_worker {R = R} {L = L} queue_size batch_size takes)
          + count_offers (new_worker {R = R} {L = L} queue_size batch_size takes).takes_logs steps
        ≡ count_offers takes steps
  unfolding accounted new_worker
  accounted-new_worker queue_size batch_size takes steps = omega arith

  -- Whatever is offered, received and answered before Shutdown, once the queues are closed and the
  -- arm of the records has been taken more often than records were waiting, with the other arms in
  -- between in any order, the worker has returned, and its counters of delivered, failed and
  -- dropped add up to everything that was offered to it.
  pub run-drained :
      (succeeds : ℕ → Bool) (queue_size batch_size : ℕ) (takes : Bool)
      (before after : List (Step R L))
      → stays_open before ≡ true
      → is_quiet after ≡ true
      → length (run succeeds (new_worker queue_size batch_size takes) before).queue
        < count_receives after
      → ((run succeeds (new_worker queue_size batch_size takes) (before ++ closes ∷ after)).returned
          ≡ true)
        × (settled
              (run succeeds (new_worker queue_size batch_size takes) (before ++ closes ∷ after))
            ≡ count_offers takes before)
  run-drained succeeds queue_size batch_size takes before after s q b =
      let w = new_worker queue_size batch_size takes in
      let v = run succeeds w before in
      let o = run-Open succeeds before w s (new_worker-Open queue_size batch_size takes) in
      let d = run-Closing succeeds after (close v) q (close-Closing v o) b in
      subst (λ (u : Worker R L). (u.returned ≡ true) × (settled u ≡ count_offers takes before))
        (sym (run-append succeeds before (closes ∷ after) w ∙ run-closes succeeds v after))
        (
          d.returned,
          settled-Done (run succeeds (close v) after) d
              ∙ accounted-close-run succeeds v after q
              ∙ accounted-run succeeds before w
              ∙ accounted-new_worker queue_size batch_size takes before,
        )
