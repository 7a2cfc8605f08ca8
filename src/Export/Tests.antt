-- ===== src/Export/Tests.antt =====
-- internal/export/export.go: a worker that takes log lines and whose second batch fails.
use optictrace.Prelude.{
  ℕ, ◌+◌, ◌<◌, Bool, true, List, [], ◌∷◌, ◌++◌, length, ◌==◌, not, ◌≡◌, refl, arith,
}
use optictrace.Export.{
  Worker, Step, offers, offers_log, closes, receives, receives_log, ticks, new_worker, run, step,
  enqueue, enqueue_app_log, receive, receive_log, tick, add_record, add_log, flush, flush_logs,
}
use optictrace.Export.Conserved.{accounted}
use optictrace.Export.Offered.{count_offers, accounted-run}
use optictrace.Export.Drained.{run-drained}
use optictrace.Export.Finished.{settled, count_receives}

abbrev second_fails : ℕ → Bool
second_fails n = not (n == 1)

-- Room for two records, batches of two.
abbrev started : Worker ℕ ℕ
started = new_worker 2 2 true

abbrev busy : List (Step ℕ ℕ)
busy =
    offers 1
    ∷ offers 2
    ∷ offers 3
    ∷ offers_log 4
    ∷ receives
    ∷ receives
    ∷ receives_log
    ∷ ticks
    ∷ offers 5
    ∷ offers_log 6
    ∷ []

abbrev shut : List (Step ℕ ℕ)
shut = receives ∷ receives_log ∷ receives_log ∷ receives ∷ []

accounted-run_example :
    accounted (run second_fails started busy) ≡ accounted started + count_offers true busy
unfolding new_worker
accounted-run_example = accounted-run second_fails busy started

counters : (run second_fails started busy).delivered ≡ 2
unfolding run step enqueue enqueue_app_log receive receive_log tick add_record add_log flush
    flush_logs new_worker
counters = refl

lost : (run second_fails started busy).dropped ≡ 1
unfolding run step enqueue enqueue_app_log receive receive_log tick add_record add_log flush
    flush_logs new_worker
lost = refl

few : length (run second_fails started busy).queue < count_receives shut
unfolding run step enqueue enqueue_app_log receive receive_log tick add_record add_log flush
    flush_logs new_worker
few = omega arith

run-drained_example :
    ((run second_fails started (busy ++ closes ∷ shut)).returned ≡ true)
    × (settled (run second_fails started (busy ++ closes ∷ shut)) ≡ 6)
run-drained_example = run-drained second_fails 2 2 true busy shut refl refl few
