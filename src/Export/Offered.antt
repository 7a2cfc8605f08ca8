-- ===== src/Export/Offered.antt =====
-- internal/export/export.go: what an exporter was offered over a run, and what became of it.
use optictrace.Prelude.{
  ℕ, ◌+◌, Bool, false, List, [], ◌∷◌, ◌++◌, length, ltb, if◌then◌else◌, ◌≡◌, refl, arith, ap, ◌∙◌,
  if_cases,
}
use optictrace.Export.{
  Worker, Step, offers, offers_log, closes, receives, receives_log, ticks, enqueue, enqueue_app_log,
  close, flush, drain_open, finish, take_record, receive, take_log, receive_log, tick, step, run,
}
use optictrace.Export.Conserved.{
  accounted, accounted-enqueue, accounted-enqueue_app_log, accounted-receive, accounted-receive_log,
  accounted-tick,
}
use optictrace.Export.Kept.{
  flush-Kept, flush_logs-Kept, add_record-Kept, add_log-Kept, drain_logs-Kept,
}

module _ {R L : Type 0} where
  -- What was offered to an exporter: the log lines only if it takes them.
  abbrev pub count_offers : Bool → List (Step R L) → ℕ
  count_offers takes [] = 0
  count_offers takes (offers rec ∷ steps) = count_offers takes steps + 1
  count_offers takes (offers_log l ∷ steps) = count_offers takes steps + (if takes then 1 else 0)
  count_offers takes (closes ∷ steps) = count_offers takes steps
  count_offers takes (receives ∷ steps) = count_offers takes steps
  count_offers takes (receives_log ∷ steps) = count_offers takes steps
  count_offers takes (ticks ∷ steps) = count_offers takes steps

  takes_logs-enqueue : (rec : R) (w : Worker R L) → (enqueue rec w).takes_logs ≡ w.takes_logs
  unfolding enqueue
  takes_logs-enqueue rec w =
      if_cases (λ (v : Worker R L). v.takes_logs ≡ w.takes_logs) (ltb (length w.queue) w.queue_size)
        _ _ (λ e. refl) (λ e. refl)

  takes_logs-enqueue_app_log :
      (l : L) (w : Worker R L) → (enqueue_app_log l w).takes_logs ≡ w.takes_logs
  unfolding enqueue_app_log
  takes_logs-enqueue_app_log l w =
      if_cases (λ (v : Worker R L). v.takes_logs ≡ w.takes_logs) w.takes_logs _ _
        (λ e.
          if_cases (λ (v : Worker R L). v.takes_logs ≡ w.takes_logs)
            (ltb (length w.log_queue) w.queue_size) _ _ (λ e. refl) (λ e. refl))
        (λ e. refl)

  pub accounted-close : (w : Worker R L) → accounted (close w) ≡ accounted w + 0
  unfolding accounted
  accounted-close w = omega arith

  module _ (succeeds : ℕ → Bool) where
    takes_logs-drain_open : (w : Worker R L) → (drain_open succeeds w).takes_logs ≡ w.takes_logs
    takes_logs-drain_open w =
        if_cases (λ (v : Worker R L). v.takes_logs ≡ w.takes_logs) w.log_open _ _
          (λ e. (drain_logs-Kept succeeds w.log_queue (record w { log_queue = [] })).takes_logs)
          (λ e. refl)

    takes_logs-finish : (w : Worker R L) → (finish succeeds w).takes_logs ≡ w.takes_logs
    unfolding finish
    takes_logs-finish w =
        (flush_logs-Kept succeeds (drain_open succeeds (flush succeeds w))).takes_logs
        ∙ takes_logs-drain_open (flush succeeds w)
        ∙ (flush-Kept succeeds w).takes_logs

    takes_logs-take_record :
        (q : List R) (w : Worker R L) → (take_record succeeds q w).takes_logs ≡ w.takes_logs
    takes_logs-take_record [] w =
        if_cases (λ (v : Worker R L). v.takes_logs ≡ w.takes_logs) w.closed _ _
          (λ e. takes_logs-finish w) (λ e. refl)
    takes_logs-take_record (rec ∷ recs) w =
        (add_record-Kept succeeds rec (record w { queue = recs })).takes_logs

    takes_logs-take_log :
        (q : List L) (w : Worker R L) → (take_log succeeds q w).takes_logs ≡ w.takes_logs
    takes_logs-take_log [] w =
        if_cases (λ (v : Worker R L). v.takes_logs ≡ w.takes_logs) w.closed _ _
          (λ e. (flush_logs-Kept succeeds (record w { log_open = false })).takes_logs) (λ e. refl)
    takes_logs-take_log (l ∷ ls) w =
        (add_log-Kept succeeds l (record w { log_queue = ls })).takes_logs

    takes_logs-step :
        (s : Step R L) (w : Worker R L) → (step succeeds w s).takes_logs ≡ w.takes_logs
    unfolding step receive receive_log tick
    takes_logs-step (offers rec) w = takes_logs-enqueue rec w
    takes_logs-step (offers_log l) w = takes_logs-enqueue_app_log l w
    takes_logs-step closes w = refl
    takes_logs-step receives w =
        if_cases (λ (v : Worker R L). v.takes_logs ≡ w.takes_logs) w.returned _ _ (λ e. refl)
          (λ e. takes_logs-take_record w.queue w)
    takes_logs-step receives_log w =
        if_cases (λ (v : Worker R L). v.takes_logs ≡ w.takes_logs) w.returned _ _ (λ e. refl)
          (λ e.
            if_cases (λ (v : Worker R L). v.takes_logs ≡ w.takes_logs) w.log_open _ _
              (λ e. takes_logs-take_log w.log_queue w) (λ e. refl))
    takes_logs-step ticks w =
        if_cases (λ (v : Worker R L). v.takes_logs ≡ w.takes_logs) w.returned _ _ (λ e. refl)
          (λ e.
            (flush_logs-Kept succeeds (flush succeeds w)).takes_logs
            ∙ (flush-Kept succeeds w).takes_logs)

    accounted-step :
        (s : Step R L) (w : Worker R L)
        → accounted (step succeeds w s) ≡ accounted w + count_offers w.takes_logs (s ∷ [])
    unfolding step
    accounted-step (offers rec) w = omega (arith, accounted-enqueue rec w)
    accounted-step (offers_log l) w = omega (arith, accounted-enqueue_app_log l w)
    accounted-step closes w = accounted-close w
    accounted-step receives w = omega (arith, accounted-receive succeeds w)
    accounted-step receives_log w = omega (arith, accounted-receive_log succeeds w)
    accounted-step ticks w = omega (arith, accounted-tick succeeds w)

    count_offers-cons :
        (takes : Bool) (s : Step R L) (steps : List (Step R L))
        → count_offers takes (s ∷ steps) ≡ count_offers takes (s ∷ []) + count_offers takes steps
    count_offers-cons takes (offers rec) steps = omega arith
    count_offers-cons takes (offers_log l) steps = omega arith
    count_offers-cons takes closes steps = omega arith
    count_offers-cons takes receives steps = omega arith
    count_offers-cons takes receives_log steps = omega arith
    count_offers-cons takes ticks steps = omega arith

    -- Over any sequence of steps of an exporter what is delivered, failed, dropped, queued or
    -- batched grows by exactly what was offered: no record and no log line is lost or counted
    -- twice.
    pub accounted-run :
        (steps : List (Step R L)) (w : Worker R L)
        → accounted (run succeeds w steps) ≡ accounted w + count_offers w.takes_logs steps
    unfolding run
    accounted-run [] w = omega arith
    accounted-run (s ∷ steps) w = omega (
      arith,
      accounted-run steps (step succeeds w s),
      accounted-step s w,
      count_offers-cons w.takes_logs s steps,
      ap (λ b. count_offers b steps) (takes_logs-step s w),
    )

    pub run-append :
        (xs ys : List (Step R L)) (w : Worker R L)
        → run succeeds w (xs ++ ys) ≡ run succeeds (run succeeds w xs) ys
    unfolding run
    run-append [] ys w = refl
    run-append (s ∷ xs) ys w = run-append xs ys (step succeeds w s)
