-- ===== src/Async/Runs.antt =====
-- internal/store/async.go: the interleavings of callers, worker and ticker.
use optictrace.Prelude.{
  ℕ, zero, suc, ◌+◌, ◌≤◌, Bool, true, false, ◌&&◌, List, [], ◌∷◌, ◌++◌, append-nil, append_assoc,
  length, lengths, joins, length-append, ltb, if◌then◌else◌, if_cases, ◌≡◌, refl, sym, ap, subst,
  ◌∙◌, arith,
}
use mathlib.Core.List.{Sublistᴰ}
use optictrace.Async.{
  Call, save, prune, prune_before, prune_app_logs, prune_spans, Retention, Writer, new_writer,
  enqueue, receive, work, call_if, prunes, tick, close_queue, Run, start, offered, worked, ticked,
  closed, saves,
}

module _ {R : Type 0} where
  saves-append : (xs ys : List (Call R)) → saves (xs ++ ys) ≡ saves xs ++ saves ys
  saves-append [] ys = refl
  saves-append (save rec ∷ xs) ys = rw (saves-append xs ys)
  saves-append (prune n ∷ xs) ys = saves-append xs ys
  saves-append (prune_before n ∷ xs) ys = saves-append xs ys
  saves-append (prune_app_logs n ∷ xs) ys = saves-append xs ys
  saves-append (prune_spans n ∷ xs) ys = saves-append xs ys

  -- The records that were accepted so far: saved, or waiting.
  abbrev pub accepted : Writer R → List R
  accepted w = saves w.calls ++ w.queue

  -- What every run keeps: nothing is lost but what is counted as dropped, in order; the queue fits;
  -- the worker ends only on an empty closed queue.
  pub record IsSound (size : ℕ) (os : List R) (w : Writer R) : Type 0 where
    pub in_order : Sublistᴰ (accepted w) os
    pub all_counted : length (accepted w) + w.dropped ≡ length os
    pub fits : length w.queue ≤ size
    pub same_size : w.size ≡ size
    pub ended : w.done ≡ true → (w.is_closed ≡ true) × (w.queue ≡ [])

  sub-snoc : {xs os : List R} (rec : R) → Sublistᴰ xs os → Sublistᴰ xs (os ++ rec ∷ [])
  sub-snoc rec Sublistᴰ.slnil = Sublistᴰ.cons Sublistᴰ.slnil
  sub-snoc rec (Sublistᴰ.cons s) = Sublistᴰ.cons (sub-snoc rec s)
  sub-snoc rec (Sublistᴰ.cons-cons e s) = Sublistᴰ.cons-cons e (sub-snoc rec s)

  sub-snoc_both :
      {xs os : List R} (rec : R) → Sublistᴰ xs os → Sublistᴰ (xs ++ rec ∷ []) (os ++ rec ∷ [])
  sub-snoc_both rec Sublistᴰ.slnil = Sublistᴰ.cons-cons refl Sublistᴰ.slnil
  sub-snoc_both rec (Sublistᴰ.cons s) = Sublistᴰ.cons (sub-snoc_both rec s)
  sub-snoc_both rec (Sublistᴰ.cons-cons e s) = Sublistᴰ.cons-cons e (sub-snoc_both rec s)

  enqueue-IsSound :
      {size : ℕ} {os : List R} {w : Writer R} (rec : R)
      → w.is_closed ≡ false
      → IsSound size os w
      → IsSound size (os ++ rec ∷ []) (enqueue rec w)
  unfolding enqueue
  enqueue-IsSound {size} {os} {w} rec o s =
      if_cases (λ v. IsSound size (os ++ rec ∷ []) v) (ltb (length w.queue) w.size) _ _
        (λ e.
          let one_more = append_assoc (saves w.calls) w.queue (rec ∷ []) in
          record {
            in_order =
                subst (λ xs. Sublistᴰ xs (os ++ rec ∷ [])) one_more (sub-snoc_both rec s.in_order);
            all_counted = omega (
              arith,
              s.all_counted,
              ap length one_more,
              length-append (accepted w) (rec ∷ []),
              length-append os (rec ∷ []),
            );
            fits = grind (lengths, s.same_size);
            same_size = s.same_size;
            ended = λ d. absurd (ground (arith, s.ended d));
          })
        (λ e. record {
          in_order = sub-snoc rec s.in_order;
          all_counted = grind (lengths, s.all_counted);
          fits = s.fits;
          same_size = s.same_size;
          ended = s.ended;
        })

  receive-IsSound :
      {size : ℕ} {os : List R} {w : Writer R} (queue : List R)
      → w.queue ≡ queue
      → w.done ≡ false
      → IsSound size os w
      → IsSound size os (receive queue w)
  receive-IsSound {size} {os} {w} [] q d s =
      if_cases (λ v. IsSound size os v) w.is_closed _ _
        (λ e. record {
          in_order = s.in_order;
          all_counted = s.all_counted;
          fits = s.fits;
          same_size = s.same_size;
          ended = λ _. (e, q);
        })
        (λ e. s)
  receive-IsSound {size} {os} {w} (rec ∷ queue) q d s =
      let same : accepted w ≡ saves (w.calls ++ save rec ∷ []) ++ queue =
        rw (q, saves-append w.calls (save rec ∷ []))
          (sym (append_assoc (saves w.calls) (rec ∷ []) queue)) in
      record {
        in_order = subst (λ xs. Sublistᴰ xs os) same s.in_order;
        all_counted = ap (λ xs. length xs + w.dropped) (sym same) ∙ s.all_counted;
        fits = omega (arith, s.fits, ap length q);
        same_size = s.same_size;
        ended = λ e. absurd (ground arith);
      }

  work-IsSound :
      {size : ℕ} {os : List R} {w : Writer R} → IsSound size os w → IsSound size os (work w)
  unfolding work
  work-IsSound {size} {os} {w} s =
      if_cases (λ v. IsSound size os v) w.done _ _ (λ e. s) (λ e. receive-IsSound w.queue refl e s)

  saves-call_if : (b : Bool) (c : Call R) → saves (c ∷ []) ≡ [] → saves (call_if b c) ≡ []
  saves-call_if true c h = h
  saves-call_if false c h = refl

  saves-none : (xs ys : List (Call R)) → saves xs ≡ [] → saves ys ≡ [] → saves (xs ++ ys) ≡ []
  saves-none xs ys h k = rw (saves-append xs ys, h, k)

  saves-prunes : (r : Retention) → saves {R = R} (prunes r) ≡ []
  saves-prunes r =
      saves-none (call_if (ltb 0 r.max_rows) (prune r.max_rows)) _
        (saves-call_if (ltb 0 r.max_rows) _ refl)
        (saves-none (call_if (ltb 0 r.max_age) (prune_before r.max_age)) _
          (saves-call_if (ltb 0 r.max_age) _ refl)
          (saves-none
            (call_if (ltb 0 r.app_log_max_age && r.keeps_app_logs)
              (prune_app_logs r.app_log_max_age))
            _ (saves-call_if (ltb 0 r.app_log_max_age && r.keeps_app_logs) _ refl)
            (saves-call_if (ltb 0 r.span_max_age && r.keeps_spans) (prune_spans r.span_max_age)
              refl)))

  tick-IsSound :
      {size : ℕ} {os : List R} {w : Writer R} → IsSound size os w → IsSound size os (tick w)
  unfolding tick
  tick-IsSound {size} {os} {w} s =
      let same : saves (w.calls ++ prunes w.retention) ≡ saves w.calls =
        rw (saves-append w.calls (prunes w.retention), saves-prunes w.retention)
          (append-nil (saves w.calls)) in
      if_cases (λ v. IsSound size os v) w.done _ _ (λ e. s)
        (λ e. record {
          in_order = subst (λ xs. Sublistᴰ (xs ++ w.queue) os) (sym same) s.in_order;
          all_counted = ap (λ xs. length (xs ++ w.queue) + w.dropped) same ∙ s.all_counted;
          fits = s.fits;
          same_size = s.same_size;
          ended = s.ended;
        })

  -- However callers, worker and ticker interleave, what is saved and what waits is, in order, what
  -- was offered less what was counted as dropped, the queue never exceeds its size, and the worker
  -- ends only on a closed and empty queue.
  pub Run-IsSound :
      (size : ℕ) (retention : Retention) {os : List R} {w : Writer R}
      → Run size retention os w
      → IsSound size os w
  unfolding new_writer close_queue
  Run-IsSound size retention start = record {
    in_order = Sublistᴰ.slnil;
    all_counted = refl;
    fits = omega arith;
    same_size = refl;
    ended = λ d. absurd (ground arith);
  }
  Run-IsSound size retention (offered rec o r) =
      enqueue-IsSound rec o (Run-IsSound size retention r)
  Run-IsSound size retention (worked r) = work-IsSound (Run-IsSound size retention r)
  Run-IsSound size retention (ticked r) = tick-IsSound (Run-IsSound size retention r)
  Run-IsSound size retention (closed o r) =
      let s = Run-IsSound size retention r in
      record {
        in_order = s.in_order;
        all_counted = s.all_counted;
        fits = s.fits;
        same_size = s.same_size;
        ended = λ d. (refl, (s.ended d).1);
      }

  pub work_times : ℕ → Writer R → Writer R
  work_times zero w = w
  work_times (suc n) w = work_times n (work w)

  receive_all :
      (queue : List R) (w : Writer R)
      → w.queue ≡ queue
      → w.done ≡ false
      → w.is_closed ≡ true
      → let v = work_times (suc (length queue)) w in
        (v.done ≡ true) × (saves v.calls ≡ saves w.calls ++ queue)
  unfolding work_times work
  receive_all [] w q d c = rw (d, q, c) (refl, sym (append-nil (saves w.calls)))
  receive_all (rec ∷ queue) w q d c =
      let v : Writer R = record w { queue = queue; calls = w.calls ++ save rec ∷ [] } in
      let (e, k) = receive_all queue v refl d c in
      let next : work w ≡ v =
        ap (λ b. if b then w else receive w.queue w) d ∙ ap (λ l. receive l w) q in
      let saved : saves (w.calls ++ save rec ∷ []) ++ queue ≡ saves w.calls ++ rec ∷ queue =
        simp (saves-append, joins) in
      subst
        (λ u.
          ((work_times (suc (length queue)) u).done ≡ true)
          × (saves (work_times (suc (length queue)) u).calls ≡ saves w.calls ++ rec ∷ queue))
        (sym next) (e, k ∙ saved)

  -- Once the queue is closed and before the worker has ended, it ends after one receive for each
  -- waiting record and one more, and has then given the store, in order, every record offered but
  -- those counted as dropped.
  pub work_times_drains :
      (size : ℕ) (retention : Retention) {os : List R} {w : Writer R}
      → Run size retention os w
      → w.is_closed ≡ true
      → w.done ≡ false
      → let v = work_times (suc (length w.queue)) w in
        (v.done ≡ true)
        × (length (saves v.calls) + w.dropped ≡ length os)
        × Sublistᴰ (saves v.calls) os
  work_times_drains size retention {os} {w} r c d =
      let s = Run-IsSound size retention r in
      let (e, k) = receive_all w.queue w refl d c in
      (
        e,
        ap (λ xs. length xs + w.dropped) k ∙ s.all_counted,
        subst (λ xs. Sublistᴰ xs os) (sym k) s.in_order,
      )
