-- ===== src/System/Once.antt =====
-- How often the tasks that dispatcher/dispatcher.go accepts are executed.
use mathlib.Core.List.{Perm, Permᴰ, append_assoc, append-nil}
use mathlib.Core.List.Permᴰ
use mathlib.Core.Path.{subst}
use gokue.Prelude.{◌≡◌, refl, sym, ap, List, [], ◌∷◌, ◌++◌, Option}
use gokue.Prelude.Int.{ℤ}
use gokue.Float.{Float64}
use gokue.Config.{Config}
use gokue.Stats.{Collector}
use gokue.Dispatcher.{Task, new_dispatcher}
use gokue.System.{
  System, init, ended_with, finish, Step, takes, finishes, Runs, Reach, start, later,
}
use gokue.System.Fifo.{accepted, taken, taken_by, fifo}

-- From one list, by a rearrangement, to the other.
along : {l m : List Task} → l ≡ m → Permᴰ l m
along {l} e = subst (λ m. Permᴰ l m) e (Permᴰ.refl l)

-- The last of the tasks behind becomes the first.
taken_last :
    (others before : List Task) (task : Task)
    → Permᴰ (others ++ (before ++ task ∷ [])) (task ∷ (others ++ before))
taken_last others before task =
    Permᴰ.trans (along (sym (append_assoc others before (task ∷ []))))
      (Permᴰ.append_comm (others ++ before) (task ∷ []))

finished_middle :
    (before after done : List Task) (task : Task)
    → Permᴰ ((before ++ task ∷ after) ++ done) ((before ++ after) ++ task ∷ done)
finished_middle before after done task =
    Permᴰ.trans (Permᴰ.append_right done (Permᴰ.middle task before after))
      (Permᴰ.symm (Permᴰ.middle task (before ++ after) done))

module _ (unspecified : Float64 → ℤ) where
  -- The tasks whose executions have ended, the last one first.
  abbrev executed_by : {s t : System} → Step unspecified s t → List Task
  executed_by (finishes before after task run panic_value e q) = task ∷ []
  executed_by _ = []

  unfoldable pub executed : {s t : System} → Runs unspecified s t → List Task
  executed start = []
  executed (later r st) = executed_by st ++ executed r

  -- A step moves the tasks that it takes to the running ones, and these to the executed ones.
  Step-moves :
      {s t : System} (st : Step unspecified s t) (others before done : List Task)
      → Permᴰ (others ++ before) (s.running ++ done)
      → Permᴰ
          (others ++ (before ++ taken_by unspecified st))
          (t.running ++ (executed_by st ++ done))
  unfolding finish ended_with
  Step-moves {s} (takes task d free e) others before done h =
      Permᴰ.trans (taken_last others before task) (Permᴰ.cons refl h)
  Step-moves {s} (finishes b a task run panic_value e q) others before done h =
      Permᴰ.trans (along (ap (λ l. others ++ l) (append-nil before))) (
        Permᴰ.trans h (Permᴰ.trans (along (ap (λ l. l ++ done) e)) (finished_middle b a done task)))
  Step-moves {s} _ others before done h =
      Permᴰ.trans (along (ap (λ l. others ++ l) (append-nil before))) h

  Runs-moves :
      {s t : System} (r : Runs unspecified s t)
      → Permᴰ (s.running ++ taken unspecified r) (t.running ++ executed r)
  unfolding taken executed
  Runs-moves start = Permᴰ.refl _
  Runs-moves {s} (later r st) =
      Step-moves st s.running (taken unspecified r) (executed r) (Runs-moves r)

  -- Every task that a submission accepted is executed once at most, and none is lost: in each state
  -- that a new dispatcher can reach, whatever the interleaving, the accepted tasks are those whose
  -- executions have ended, those that run and those that are queued, each counted as often as it was
  -- accepted; and nothing else is executed.
  pub executed_once :
      (cfg : Config) (collector : Option Collector) (s : System)
      (r : Reach unspecified cfg collector s)
      → Perm (accepted unspecified r) (s.dispatcher.tasks ++ (s.running ++ executed r))
  unfolding new_dispatcher
  executed_once cfg collector s r =
      ∣ Permᴰ.trans (along (fifo unspecified (init cfg collector) s r)) (
        Permᴰ.trans (Permᴰ.append_comm (taken unspecified r) s.dispatcher.tasks)
          (Permᴰ.append_left s.dispatcher.tasks (Runs-moves r))) ∣₁
