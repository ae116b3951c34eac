-- ===== src/Queue/Refusals.antt =====
-- The arguments that the methods of a queue of gokue.go refuse.
use gokue.Prelude.{Bool, true, ◌||◌, ◌≡◌, refl, Option, none, some, List, is_nil}
use gokue.Prelude.Int.{ℤ}
use gokue.Job.{Job}
use gokue.Submission.{Context}
use gokue.Queue.{Queue, QueueError, Answer, returns, submit, try_submit}
use gokue.Queue.Options.{SubmitOption}

-- The call returned an error and left the queue alone.
abbrev pub Refused : Option Queue → Option Queue × Answer → Type 0
Refused q r = (e : QueueError) × (r ≡ (q, returns (some e)))

submit_refuses :
    (p : Bool) (now : ℤ) (ctx : Option Context) (job : Option Job) (opts : List SubmitOption)
    (q : Option Queue)
    → (is_nil q || (is_nil job || is_nil ctx)) ≡ true
    → Refused q (submit p now ctx job opts q)
unfolding submit
submit_refuses p now ctx job opts none h = (_, refl)
submit_refuses p now ctx none opts (some q) h = (_, refl)
submit_refuses p now none (some job) opts (some q) h = (_, refl)
submit_refuses p now (some ctx) (some job) opts (some q) h = cc

try_submit_refuses :
    (now : ℤ) (ctx : Option Context) (job : Option Job) (opts : List SubmitOption)
    (q : Option Queue)
    → (is_nil q || (is_nil job || is_nil ctx)) ≡ true
    → Refused q (try_submit now ctx job opts q)
unfolding try_submit
try_submit_refuses now ctx job opts none h = (_, refl)
try_submit_refuses now ctx none opts (some q) h = (_, refl)
try_submit_refuses now none (some job) opts (some q) h = (_, refl)
try_submit_refuses now (some ctx) (some job) opts (some q) h = cc

-- With a nil queue, a nil job or a nil context `Submit` and `TrySubmit` return an error and change
-- nothing, whatever the other arguments are.
pub nil-Refused :
    (p : Bool) (now : ℤ) (ctx : Option Context) (job : Option Job) (opts : List SubmitOption)
    (q : Option Queue)
    → (is_nil q || (is_nil job || is_nil ctx)) ≡ true
    → Refused q (submit p now ctx job opts q) × Refused q (try_submit now ctx job opts q)
nil-Refused p now ctx job opts q h =
    (submit_refuses p now ctx job opts q h, try_submit_refuses now ctx job opts q h)
