-- ===== src/Execute/Outcomes.antt =====
-- Which end an execution comes to, from what its attempts do.
use mathlib.Core.Path.{subst}
use native.Mathlib.Decide.{dec_lt}
use gokue.Logger.{Entry}
use gokue.Prelude.{
  List, ◌++◌, ℕ, zero, suc, ◌+◌, ◌-◌, ◌≤◌, ◌<◌, ◌≡◌, refl, ◌&&◌, true, false, Option, none, some,
  arith, ap, sym, ◌∙◌, ◌⊎◌, inl, inr,
}
use gokue.Prelude.Int.{ℤ, pos, ltb_ℤ}
use gokue.Job.{JobError}
use gokue.Stats.{Collector, inc_failed, inc_retried}
use gokue.Float.{Float64}
use gokue.Config.{Config}
use gokue.Dispatcher.{Task, Effects}
use gokue.Execute.{
  Run, Execution, Ended, completed, rejected, abandoned, exhausted, worker_panic, start, rejects,
  delay_after, after_job, attempt_job, begin_attempt, execute_from, go_on, rounds, execute, round,
  report, crash, Point, at_start, at_predicate, at_retry, at_end, broken,
}
use gokue.Execute.Accounting.{tally, times}

-- Each call of the logger and of the retry predicate returns.
abbrev pub IsSteady : Execution → Type 0
IsSteady x = (j : ℕ) (p : Point) → crash x j p ≡ false

pub reported :
    (x : Execution) (j : ℕ) (e : Ended) (es : List Entry) (s : Effects)
    → crash x j at_end ≡ false
    → report x j e es s ≡ (record s { log = s.log ++ es }, e)
unfolding report
reported x j e es s h = rw h refl

module _ (unspecified : Float64 → ℤ) where
  -- Attempt `j` fails, its error may be retried, and the wait behind it is not cut short.
  pub record IsRetried (x : Execution) (j : ℕ) : Type 0 where
    pub err : JobError
    pub delay : ℤ
    pub failed : attempt_job unspecified x j ≡ some err
    pub allowed : rejects x.retry_predicates err ≡ false
    pub delayed : delay_after unspecified x j ≡ some delay
    pub waited : (ltb_ℤ (pos 0) delay && x.run.quits j) ≡ false

  -- Attempt `j` is the last one, and why.
  pub data Stops (x : Execution) (j : ℕ) : Ended → Type 0 where
    by_success : attempt_job unspecified x j ≡ none → Stops x j completed
    by_predicate :
        (e : JobError)
        → attempt_job unspecified x j ≡ some e
        → rejects x.retry_predicates e ≡ true
        → Stops x j rejected
    by_shutdown :
        (e : JobError) (d : ℤ)
        → attempt_job unspecified x j ≡ some e
        → rejects x.retry_predicates e ≡ false
        → ltb_ℤ (pos j) x.max_retries ≡ true
        → delay_after unspecified x j ≡ some d
        → (ltb_ℤ (pos 0) d && x.run.quits j) ≡ true
        → Stops x j abandoned
    by_panic :
        (e : JobError)
        → attempt_job unspecified x j ≡ some e
        → rejects x.retry_predicates e ≡ false
        → ltb_ℤ (pos j) x.max_retries ≡ true
        → delay_after unspecified x j ≡ none
        → Stops x j worker_panic
    by_limit :
        (e : JobError)
        → attempt_job unspecified x j ≡ some e
        → rejects x.retry_predicates e ≡ false
        → x.max_retries ≡ pos j
        → Stops x j exhausted

  -- How many retries are counted when attempt `k` is the last one: a retry is counted before its
  -- delay is computed and waited for.
  abbrev pub retries : Ended → ℕ → ℕ
  retries abandoned k = suc k
  retries worker_panic k = suc k
  retries (broken e) k = retries e k
  retries _ k = k

  abbrev pub EndsWith : Ended → ℕ → Collector → Effects × Ended → Type 0
  EndsWith e k c r = (r.1 ≡ e) × (r.0.collector ≡ tally e (times (retries e k) inc_retried c))

  retried_round :
      (x : Execution) (j : ℕ) (s : Effects)
      → IsSteady x
      → IsRetried x j
      → ltb_ℤ (pos j) x.max_retries ≡ true
      → let r = round unspecified x j s in (r.1 ≡ none) × (r.0.collector ≡ inc_retried s.collector)
  unfolding round after_job begin_attempt
  retried_round x j s g h before = ground (arith, g j at_start, g j at_predicate, g j at_retry)

  last_round :
      (x : Execution) (j m : ℕ) (e : Ended) (s : Effects)
      → IsSteady x
      → Stops x j e
      → x.max_retries ≡ pos m
      → let r = round unspecified x j s in
        ((r.1 ≡ some e) × (r.0.collector ≡ tally e (times (retries e 0) inc_retried s.collector)))
        ⊎ ((e ≡ exhausted) × (j ≡ m) × (r.1 ≡ none) × (r.0.collector ≡ s.collector))
  unfolding round after_job begin_attempt report
  last_round x j m e s g (by_success a) h =
      inl (ground (arith, g j at_start, g j at_predicate, g j at_retry, g j at_end))
  last_round x j m e s g (by_predicate err a b) h =
      inl (ground (arith, g j at_start, g j at_predicate, g j at_retry, g j at_end))
  last_round x j m e s g (by_shutdown err d a b c k q) h =
      inl (ground (arith, g j at_start, g j at_predicate, g j at_retry, g j at_end))
  last_round x j m e s g (by_panic err a b c k) h =
      inl (ground (arith, g j at_start, g j at_predicate, g j at_retry, g j at_end))
  last_round x j m e s g (by_limit err a b c) h =
      inr (ground (arith, g j at_start, g j at_predicate, g j at_retry, g j at_end))

  go_on_next :
      (r : Effects × Option Ended) (k : Effects → Effects × Ended) → r.1 ≡ none → go_on r k ≡ k r.0
  unfolding go_on
  go_on_next (s, none) k h = refl
  go_on_next (s, some e) k h = cc

  go_on_last :
      (r : Effects × Option Ended) (k : Effects → Effects × Ended) (e : Ended)
      → r.1 ≡ some e
      → go_on r k ≡ (r.0, e)
  unfolding go_on
  go_on_last (s, none) k e h = cc
  go_on_last (s, some e') k e h = cc

  retries-suc : (e : Ended) (a b : ℕ) → a < b → retries e (b - a) ≡ suc (retries e (b - suc a))
  retries-suc completed a b h = omega arith
  retries-suc rejected a b h = omega arith
  retries-suc abandoned a b h = omega arith
  retries-suc exhausted a b h = omega arith
  retries-suc worker_panic a b h = omega arith
  retries-suc (broken e) a b h = retries-suc e a b h

  rest_of : Execution → ℕ → ℕ → Effects → Effects × Ended
  rest_of x left a s = execute_from unspecified x left (suc a) (attempt_job unspecified x a) s

  ends_later :
      (e : Ended) (k k' : ℕ) (c c' : Collector) (r : Effects × Ended)
      → c' ≡ inc_retried c
      → retries e k' ≡ suc (retries e k)
      → EndsWith e k c' r
      → EndsWith e k' c r
  ends_later e k k' c c' r p q (ended, counted) = (
    ended,
    counted
        ∙ ap (λ t. tally e (times (retries e k) inc_retried t)) p
        ∙ sym (ap (λ n. tally e (times n inc_retried c)) q),
  )

  ends_here :
      (x : Execution) (m a : ℕ) (e : Ended) (left : ℕ) (err : Option JobError) (s : Effects)
      → IsSteady x
      → x.max_retries ≡ pos m
      → a + suc left ≡ suc m
      → Stops x a e
      → EndsWith e 0 s.collector (execute_from unspecified x (suc left) a err s)
  unfolding execute_from rest_of
  ends_here x m a e left err s g limit l stop = elim (last_round x a m e s g stop limit) [
    | inl (last, counted) ↦
        rw (go_on_last (round unspecified x a s) (rest_of x left a) e last) (refl, counted)
    | inr (out, top, next, counted) ↦
        let none_left : left ≡ 0 = omega arith in
        rw (go_on_next (round unspecified x a s) (rest_of x left a) next, none_left, out)
          (
            ap (λ r. r.1) (reported x (suc a) exhausted _ _ (g (suc a) at_end)),
            ap (λ r. r.0.collector) (reported x (suc a) exhausted _ _ (g (suc a) at_end))
                ∙ ap inc_failed counted,
          )
  ]

  execute_from_ends :
      (x : Execution) (m b : ℕ) (e : Ended) (left a : ℕ) (err : Option JobError) (s : Effects)
      → IsSteady x
      → x.max_retries ≡ pos m
      → a + left ≡ suc m
      → a ≤ b
      → b ≤ m
      → ((j : ℕ) → j < b → IsRetried x j)
      → Stops x b e
      → EndsWith e (b - a) s.collector (execute_from unspecified x left a err s)
  unfolding execute_from rest_of
  execute_from_ends x m b e zero a err s g limit l h k before stop = absurd (omega arith)
  execute_from_ends x m b e (suc left) a err s g limit l h k before stop = elim (dec_lt a b) [
    | yes more ↦
        let (next, counted) = retried_round x a s g (before a more) (rw limit (ground arith)) in
        rw (go_on_next (round unspecified x a s) (rest_of x left a) next) (
          ends_later e (b - suc a) (b - a) s.collector _
            (rest_of x left a (round unspecified x a s).0) counted (retries-suc e a b more)
            (execute_from_ends x m b e left (suc a) _ _ g limit (omega arith) more k before stop))
    | no here ↦
        let same : a ≡ b = omega arith in
        let done : b - a ≡ 0 = omega arith in
        rw done (ends_here x m a e left err s g limit l (rw same stop))
  ]

  loop_ends :
      (x : Execution) (m k : ℕ) (e : Ended) (s : Effects)
      → IsSteady x
      → x.max_retries ≡ pos m
      → k ≤ m
      → ((j : ℕ) → j < k → IsRetried x j)
      → Stops x k e
      → EndsWith e k s.collector (execute_from unspecified x (rounds x.max_retries) 0 none s)
  loop_ends x m k e s g limit below before stop =
      let all : rounds x.max_retries ≡ suc m = ap rounds limit in
      let whole : k - 0 ≡ k = omega arith in
      rw all (
        subst (λ t. EndsWith e t s.collector (execute_from unspecified x (suc m) 0 none s)) whole
          (execute_from_ends x m k e (suc m) 0 none s g limit (omega arith) (omega arith) below
            before stop))

  -- With room for `m` retries and a logger and a retry predicate whose calls return, if the attempts before the `k`-th fail with errors that may be
  -- retried and their waits are not cut short, and the `k`-th attempt stops the loop as `Stops`
  -- says (by its success, an error that the predicate rejects, a wait that the shutdown cuts
  -- short, a panic of the delay's computation, or as the last attempt allowed), then `execute`
  -- ends in that way and counts the retries before that end, and the end, and nothing else.
  pub execute-EndsWith :
      (cfg : Config) (task : Task) (run : Run) (m k : ℕ) (e : Ended) (s : Effects)
      → IsSteady (start cfg task run)
      → (start cfg task run).max_retries ≡ pos m
      → k ≤ m
      → ((j : ℕ) → j < k → IsRetried (start cfg task run) j)
      → Stops (start cfg task run) k e
      → EndsWith e k s.collector (execute unspecified cfg task run s)
  unfolding execute
  execute-EndsWith cfg task run m k e s g limit below before stop =
      loop_ends (start cfg task run) m k e s g limit below before stop
