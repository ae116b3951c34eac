-- ===== src/Submission/Branches.antt =====
-- The branches of `Submit` and `TrySubmit`.
use gokue.Prelude.{
  Bool, true, false, ◌&&◌, ◌≡◌, Option, none, some, if_cases, if◌then◌else◌, is_nil, arith,
}
use gokue.Prelude.Int.{ℤ}
use gokue.Job.{ContextError}
use gokue.Dispatcher.{Task, Dispatcher, closed, queue_full, nil_job, nil_ctx, ctx_err}
use gokue.Submission.{
  Context, Submitted, returns, blocks, send_on_closed, prepare, has_room, send_ready, enqueue, send,
  drop, reject_closed, select_submit, submit, try_submit,
}

-- What a submission of the prepared task `t` can do to the dispatcher `d`, and what it then answers.
pub data Effect (d : Dispatcher) (t : Task) : Dispatcher × Submitted → Type 0 where
  refused_ctx : Effect d t (d, returns (some nil_ctx))
  refused_job : Effect d t (d, returns (some nil_job))
  rejected : d.closed ≡ true → Effect d t (reject_closed t d, returns (some closed))
  enqueued :
      d.closed ≡ false
      → d.tasks_closed ≡ false
      → has_room d ≡ true
      → Effect d t (enqueue t d, returns none)
  dropped_full :
      d.closed ≡ false
      → has_room d ≡ false
      → Effect d t (drop t "queue_full" d, returns (some queue_full))
  dropped_ctx :
      (e : ContextError)
      → d.closed ≡ false
      → Effect d t (drop t "context_cancelled" d, returns (some (ctx_err e)))
  blocked : d.closed ≡ false → has_room d ≡ false → Effect d t (d, blocks)
  panicked : d.closed ≡ false → d.tasks_closed ≡ true → Effect d t (d, send_on_closed)

room_of_ready : (d : Dispatcher) → send_ready d ≡ true → d.tasks_closed ≡ false → has_room d ≡ true
room_of_ready d r o = ground arith

pub full_of_not-ready : (d : Dispatcher) → send_ready d ≡ false → has_room d ≡ false
full_of_not-ready d r = ground arith

pub send-Effect :
    (t : Task) (d : Dispatcher) → d.closed ≡ false → send_ready d ≡ true → Effect d t (send t d)
unfolding send
send-Effect t d h r =
    if_cases (Effect d t) d.tasks_closed (d, send_on_closed) (enqueue t d, returns none)
      (panicked h) (λ o. enqueued h o (room_of_ready d r o))

select_submit-Effect :
    (p : Bool) (done : Option ContextError) (t : Task) (d : Dispatcher)
    → d.closed ≡ false
    → Effect d t (select_submit p (record { done = done }) t d)
unfolding select_submit
select_submit-Effect p none t d h =
    if_cases (Effect d t) (send_ready d) (send t d) (d, blocks) (send-Effect t d h)
      (λ f. blocked h (full_of_not-ready d f))
select_submit-Effect p (some e) t d h =
    if_cases (Effect d t) (send_ready d && p) (send t d) _ (λ r. send-Effect t d h (ground arith))
      (λ f. dropped_ctx e h)

-- `Submit` does one of the things that `Effect` lists, under the condition stated there.
pub submit-Effect :
    (p : Bool) (now : ℤ) (ctx : Option Context) (task : Task) (d : Dispatcher)
    → Effect d (prepare now task) (submit p now ctx task d)
unfolding submit
submit-Effect p now none task d = refused_ctx
submit-Effect p now (some ctx) task d =
    if_cases (Effect d t) (is_nil task.job) _ _ (λ h. refused_job)
      (λ h.
        if_cases (Effect d t) d.closed _ _ rejected (λ o. select_submit-Effect p ctx.done t d o))
  where
    t : Task
    t = prepare now task

-- `TrySubmit` does one of the things that `Effect` lists, under the condition stated there.
pub try_submit-Effect :
    (now : ℤ) (ctx : Option Context) (task : Task) (d : Dispatcher)
    → Effect d (prepare now task) (try_submit now ctx task d)
unfolding try_submit
try_submit-Effect now none task d = refused_ctx
try_submit-Effect now (some ctx) task d =
    if_cases (Effect d t) (is_nil task.job) _ _ (λ h. refused_job)
      (λ h. if_cases (Effect d t) d.closed _ _ rejected (λ o.
        if_cases (Effect d t) (send_ready d) (send t d) _ (send-Effect t d o)
          (λ f. dropped_full o (full_of_not-ready d f))))
  where
    t : Task
    t = prepare now task

-- A job with a context that is not done, on a dispatcher that is not closed: where the queue has
-- room, `Submit` and `TrySubmit` add the job behind the queued ones, count it and return nil; where
-- it is full, `Submit` waits, and `TrySubmit` counts the job as dropped and returns `ErrQueueFull`.
pub open_submissions :
    (p : Bool) (now : ℤ) (ctx : Context) (task : Task) (d : Dispatcher)
    → ctx.done ≡ none
    → is_nil task.job ≡ false
    → d.closed ≡ false
    → d.tasks_closed ≡ false
    → let t = prepare now task in
      (submit p now (some ctx) task d
        ≡ (if has_room d then (enqueue t d, returns none) else (d, blocks)))
      × (try_submit now (some ctx) task d ≡ (
          if has_room d
          then (enqueue t d, returns none)
          else (drop t "queue_full" d, returns (some queue_full))))
unfolding submit try_submit select_submit send
open_submissions p now ctx task d live j o c = (ground arith, ground arith)
