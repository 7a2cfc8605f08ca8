-- ===== src/Async/Tests.antt =====
-- A run of the writer: two records are accepted, one is dropped, one is saved before the close.
use optictrace.Prelude.{ℕ, suc, ◌+◌, true, false, List, [], ◌∷◌, length, ◌≡◌, refl}
use mathlib.Core.List.{Sublistᴰ}
use optictrace.Async.{
  Retention, Writer, new_writer, enqueue, work, tick, close_queue, Run, start, offered, worked,
  ticked, closed, saves,
}
use optictrace.Async.Runs.{IsSound, Run-IsSound, work_times, work_times_drains}

abbrev retention : Retention
retention = record {
  max_rows = 1000;
  max_age = 0;
  app_log_max_age = 60;
  span_max_age = 60;
  keeps_app_logs = true;
  keeps_spans = false;
}

abbrev offers : List ℕ
offers = 7 ∷ 8 ∷ 9 ∷ []

abbrev writer : Writer ℕ
writer = close_queue (tick (work (enqueue 9 (enqueue 8 (enqueue 7 (new_writer 2 retention))))))

abbrev run : Run 2 retention offers writer
run =
    unfold new_writer enqueue work tick in
    closed refl (ticked (worked (offered 9 refl (offered 8 refl (offered 7 refl start)))))

Run-IsSound_example : IsSound 2 offers writer
Run-IsSound_example = Run-IsSound 2 retention run

writer_closed : writer.is_closed ≡ true
unfolding close_queue
writer_closed = refl

writer_runs : writer.done ≡ false
unfolding new_writer enqueue work tick close_queue
writer_runs = refl

work_times_drains_example :
    let v = work_times (suc (length writer.queue)) writer in
    (v.done ≡ true)
    × (length (saves v.calls) + writer.dropped ≡ length offers)
    × Sublistᴰ (saves v.calls) offers
work_times_drains_example = work_times_drains 2 retention run writer_closed writer_runs
