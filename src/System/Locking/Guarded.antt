-- ===== src/System/Locking/Guarded.antt =====
-- What the lock guards.
use mathlib.Core.Path.{subst}
use gokue.Prelude.{
  ◌≡◌, ◌≢◌, refl, sym, ap, ◌∙◌, false, inl, inr, Bool-cases, Option, none, List, [], ◌∷◌, ◌++◌,
}
use gokue.Prelude.Int.{ℤ}
use gokue.Float.{Float64}
use gokue.Config.{Config}
use gokue.Stats.{Collector}
use gokue.Job.{canceled}
use gokue.Submission.Branches.{rejected, dropped_full, dropped_ctx, send-Effect, full_of_not-ready}
use gokue.Submission.{prepare, returns, send, count_sent, drop, enqueue, reject_closed}
use gokue.Shutdown.{immediate_mode, drain_mode, received, no_more, mark_closed}
use gokue.System.{
  System, ended_with, finish, Step, submits, try_submits, counts, closes, drains, takes, finishes,
  exits,
}
use gokue.System.Progress.{worker_steps}
use gokue.System.Invariant.{
  Consistent, Effect-Consistent, Step-Consistent, count_sent-Consistent, await_drain-Consistent,
}
use gokue.System.Locking.{
  Submitter, Locked, with_dispatcher, init_locked, LockStep, rejects, enters, sends,
  counts as counts_sent, gives_up, finds_full, locks, marks, quits, drains, works, LockRuns, start,
  later,
}
use gokue.System.Locking.Discipline.{
  Guarded, middle_not_nil, reader_open, marked_late, send_open, stays_open, stays_closed,
  mark_closed-Consistent, quit_and_return-Consistent, closed-await_drain, closed-after_execute,
  closed-receive, quit_later, mark_closed_works, init-Guarded,
}

module _ (unspecified : Float64 → ℤ) where
  work-closed :
      {s t : System} (st : Step unspecified s t)
      → worker_steps unspecified st ≡ 1
      → (t.dispatcher.closed ≡ s.dispatcher.closed) × (t.dispatcher.sending ≡ s.dispatcher.sending)
  unfolding finish ended_with
  work-closed (submits p now ctx task) one = absurd (cc one)
  work-closed (try_submits now ctx task) one = absurd (cc one)
  work-closed (counts before after name e) one = absurd (cc one)
  work-closed (closes duration ctx mode quiet) one = absurd (cc one)
  work-closed (drains p duration ctx h) one = absurd (cc one)
  work-closed {s} (takes task d free e) one = closed-receive s.dispatcher d (received task) e
  work-closed {s} (finishes before after task run panic_value e q) one =
      closed-after_execute panic_value s.dispatcher _
  work-closed {s} (exits d free e) one = closed-receive s.dispatcher d no_more e

  pub Step-Guarded : {s t : Locked} → LockStep unspecified s t → Guarded s → Guarded t
  unfolding reject_closed drop enqueue count_sent
  Step-Guarded {s} (rejects now task free job c) v =
      stays_closed s _ s.marked v c
        (Effect-Consistent {t = prepare now task} (rejected c) v.consistent) c refl
  Step-Guarded {s} (enters blocking now task free job o) v = stays_open s _ _ v o v.consistent o
  Step-Guarded {s} (sends before after w e ready) v =
      let o = reader_open s before after w v e in
      let d = s.system.dispatcher in
      subst (λ r. Guarded (record (with_dispatcher r.0 s) { readers = before ++ after }))
        (sym (send_open w.task d (v.consistent.channel ∙ o)))
        (stays_open s (enqueue w.task d) (before ++ after) v o
          (subst (λ r. Consistent r.0) (send_open w.task d (v.consistent.channel ∙ o))
            (Effect-Consistent (send-Effect w.task d o ready) v.consistent))
          o)
  Step-Guarded {s} (counts_sent before after name e) v =
      let o : s.system.dispatcher.closed ≡ false = elim (Bool-cases s.system.dispatcher.closed) [
        | inl c ↦ absurd (middle_not_nil before after name (sym e ∙ v.counts_open c))
        | inr o ↦ o
      ] in
      stays_open s _ s.readers v o
        (count_sent-Consistent name (before ++ after) s.system.dispatcher v.consistent) o
  Step-Guarded {s} (gives_up before after w e b) v =
      let o = reader_open s before after w v e in
      stays_open s _ (before ++ after) v o
        (Effect-Consistent {t = w.task} (dropped_ctx canceled o) v.consistent) o
  Step-Guarded {s} (finds_full before after w e b full) v =
      let o = reader_open s before after w v e in
      stays_open s _ (before ++ after) v o
        (Effect-Consistent {t = w.task}
          (dropped_full o (full_of_not-ready s.system.dispatcher full)) v.consistent)
        o
  Step-Guarded {s} (locks mode valid) v = record {
    consistent = record {
      channel = v.consistent.channel;
      quit = v.consistent.quit;
      quit_late = v.consistent.quit_late;
      bounded = v.consistent.bounded;
    };
    readers_open = v.readers_open;
    counts_open = v.counts_open;
    marked_closed = v.marked_closed;
  }
  Step-Guarded {s} (marks before after mode d e idle quiet m) v =
      let (consistent, c, same) = mark_closed-Consistent s.system.dispatcher d m v.consistent in
      record {
        consistent = consistent;
        readers_open = λ h. idle;
        counts_open = λ h. same ∙ quiet;
        marked_closed = λ o. absurd (cc (o, c));
      }
  Step-Guarded {s} (quits before after duration e) v =
      let was = marked_late s before after immediate_mode v e in
      let (consistent, c, same) =
        quit_and_return-Consistent duration s.system.dispatcher v.consistent was in
      stays_closed s _ (before ++ after) v was consistent c same
  Step-Guarded {s} (drains before after p duration ctx e done) v =
      let was = marked_late s before after drain_mode v e in
      let kept = closed-await_drain p duration ctx s.system.dispatcher was in
      stays_closed s _ (before ++ after) v was
        (await_drain-Consistent p duration ctx s.system.dispatcher was v.consistent) kept.0 kept.1
  Step-Guarded {s} (works t st one) v =
      let (same, kept) = work-closed st one in
      record {
        consistent = Step-Consistent unspecified st v.consistent;
        readers_open = λ c. v.readers_open (sym same ∙ c);
        counts_open = λ c. kept ∙ v.counts_open (sym same ∙ c);
        marked_closed = λ o. v.marked_closed (sym same ∙ o);
      }

  Runs-Guarded : {s t : Locked} → LockRuns unspecified s t → Guarded s → Guarded t
  Runs-Guarded start v = v
  Runs-Guarded (later r st) v = Step-Guarded st (Runs-Guarded r v)

  -- In every state that a new dispatcher can reach with its lock, by any interleaving: while a
  -- submission is in its `select`, the dispatcher is open and its send does not panic; no closer is
  -- past the write lock, in whatever mode, and none has told the workers to abandon their retries.
  -- And no closer, past the lock or not, closes the channel of tasks a second time.
  pub lock_guards :
      (cfg : Config) (collector : Option Collector) (s : Locked)
      → LockRuns unspecified (init_locked cfg collector) s
      → ((before after : List Submitter) (w : Submitter)
          → s.readers ≡ before ++ w ∷ after
          → (s.system.dispatcher.closed ≡ false)
            × ((send w.task s.system.dispatcher).1 ≡ returns none)
            × (s.marked ≡ [])
            × (s.system.dispatcher.quit_closed ≡ false))
        × (mark_closed s.system.dispatcher ≢ none)
  lock_guards cfg collector s r =
      let v = Runs-Guarded r (init-Guarded cfg collector) in
      (
        λ before after w e.
            let o = reader_open s before after w v e in
            (
              o,
              ap (λ r. r.1) (send_open w.task s.system.dispatcher (v.consistent.channel ∙ o)),
              v.marked_closed o,
              quit_later s.system.dispatcher v.consistent o,
            ),
        mark_closed_works s.system.dispatcher v.consistent,
      )
