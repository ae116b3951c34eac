-- ===== src/System/Locking/Discipline.antt =====
-- What holds of the dispatcher while its lock is held, and what its operations keep of that.
use gokue.Prelude.{
  ◌≡◌, ◌≢◌, refl, sym, ◌∙◌, Bool, true, false, inl, inr, Bool-cases, String, Option, none, some,
  List, [], ◌∷◌, ◌++◌, arith,
}
use gokue.Prelude.Int.{ℤ}
use gokue.Config.{Config}
use gokue.Stats.{Collector}
use gokue.Dispatcher.{Task, Dispatcher, Effects, new_dispatcher}
use gokue.Execute.{Ended, worker_panic, broken}
use gokue.Submission.{Context, returns, send, enqueue}
use gokue.Shutdown.{
  immediate_mode, Received, receive, after_execute, mark_closed, quit_and_return, await_drain,
}
use gokue.System.Invariant.{Consistent, init-Consistent}
use gokue.System.Locking.{Submitter, Locked, with_dispatcher, init_locked}

-- The lock's discipline: no reader is in its `select` or about to count once the dispatcher is closed,
-- and no closer is past its critical section before.
pub record Guarded (s : Locked) : Type 0 where
  pub consistent : Consistent s.system.dispatcher
  pub readers_open : s.system.dispatcher.closed ≡ true → s.readers ≡ []
  pub counts_open : s.system.dispatcher.closed ≡ true → s.system.dispatcher.sending ≡ []
  pub marked_closed : s.system.dispatcher.closed ≡ false → s.marked ≡ []

pub middle_not_nil {ℓ} : {A : Type ℓ} (before after : List A) (a : A) → before ++ a ∷ after ≢ []
middle_not_nil [] after a e = cc
middle_not_nil (b ∷ before) after a e = cc

-- A reader keeps the dispatcher open, and a closer past its critical section left it closed.
pub reader_open :
    (s : Locked) (before after : List Submitter) (w : Submitter)
    → Guarded s
    → s.readers ≡ before ++ w ∷ after
    → s.system.dispatcher.closed ≡ false
reader_open s before after w v e = elim (Bool-cases s.system.dispatcher.closed) [
  | inl c ↦ absurd (middle_not_nil before after w (sym e ∙ v.readers_open c))
  | inr o ↦ o
]

pub marked_late :
    (s : Locked) (before after : List String) (mode : String)
    → Guarded s
    → s.marked ≡ before ++ mode ∷ after
    → s.system.dispatcher.closed ≡ true
marked_late s before after mode v e = elim (Bool-cases s.system.dispatcher.closed) [
  | inl c ↦ c
  | inr o ↦ absurd (middle_not_nil before after mode (sym e ∙ v.marked_closed o))
]

pub send_open :
    (task : Task) (d : Dispatcher)
    → d.tasks_closed ≡ false
    → send task d ≡ (enqueue task d, returns none)
unfolding send
send_open task d o = rw o refl

-- On an open dispatcher the discipline only asks that no closer is past its critical section.
pub stays_open :
    (s : Locked) (d : Dispatcher) (readers : List Submitter)
    → Guarded s
    → s.system.dispatcher.closed ≡ false
    → Consistent d
    → d.closed ≡ false
    → Guarded (record (with_dispatcher d s) { readers = readers })
stays_open s d readers v was consistent now = record {
  consistent = consistent;
  readers_open = λ c. absurd (cc (c, now));
  counts_open = λ c. absurd (cc (c, now));
  marked_closed = λ o. v.marked_closed was;
}

pub stays_closed :
    (s : Locked) (d : Dispatcher) (marked : List String)
    → Guarded s
    → s.system.dispatcher.closed ≡ true
    → Consistent d
    → d.closed ≡ true
    → d.sending ≡ s.system.dispatcher.sending
    → Guarded (record (with_dispatcher d s) { marked = marked })
stays_closed s d marked v was consistent now same = record {
  consistent = consistent;
  readers_open = λ c. v.readers_open was;
  counts_open = λ c. same ∙ v.counts_open was;
  marked_closed = λ o. absurd (cc (o, now));
}

pub mark_closed-Consistent :
    (d d' : Dispatcher)
    → mark_closed d ≡ some d'
    → Consistent d
    → Consistent d' × (d'.closed ≡ true) × (d'.sending ≡ d.sending)
unfolding mark_closed
mark_closed-Consistent d d' e v = ground arith

pub quit_and_return-Consistent :
    (duration : ℤ) (d : Dispatcher)
    → Consistent d
    → d.closed ≡ true
    → let r = quit_and_return immediate_mode duration none d in
      Consistent r.0 × (r.0.closed ≡ true) × (r.0.sending ≡ d.sending)
unfolding quit_and_return
quit_and_return-Consistent duration d v c = ground arith

pub closed-await_drain :
    (p : Bool) (duration : ℤ) (ctx : Context) (d : Dispatcher)
    → d.closed ≡ true
    → let d' = (await_drain p duration ctx d).0 in (d'.closed ≡ true) × (d'.sending ≡ d.sending)
unfolding await_drain
closed-await_drain p duration ctx d c = ground arith

pub closed-after_execute :
    (panic_value : String) (d : Dispatcher) (r : Effects × Ended)
    → let d' = after_execute panic_value d r in (d'.closed ≡ d.closed) × (d'.sending ≡ d.sending)
unfolding after_execute
closed-after_execute panic_value d (x, worker_panic) = (refl, refl)
closed-after_execute panic_value d (x, broken e) = (refl, refl)
closed-after_execute panic_value d (x, _) = (refl, refl)

pub closed-receive :
    (d d' : Dispatcher) (m : Received)
    → receive d ≡ (d', m)
    → (d'.closed ≡ d.closed) × (d'.sending ≡ d.sending)
unfolding receive
closed-receive d d' m e = ground arith

pub quit_later : (d : Dispatcher) → Consistent d → d.closed ≡ false → d.quit_closed ≡ false
quit_later d v o = ground (arith, v.quit_late)

pub mark_closed_works : (d : Dispatcher) → Consistent d → mark_closed d ≢ none
unfolding mark_closed
mark_closed_works d v e = ground arith

pub init-Guarded :
    (cfg : Config) (collector : Option Collector) → Guarded (init_locked cfg collector)
unfolding new_dispatcher
init-Guarded cfg collector = record {
  consistent = init-Consistent cfg collector;
  readers_open = λ c. refl;
  counts_open = λ c. refl;
  marked_closed = λ o. refl;
}
