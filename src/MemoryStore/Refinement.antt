-- ===== src/MemoryStore/Refinement.antt =====
-- backend/memory.go implements the interface of backend/backend.go.
pub mod Calls
use mathlib.Core.Path.{subst, fun_ext}
use mathlib.Core.Option
use gokue.Prelude.{
  ℕ, String, ◌=?◌, eq_iff, Bool, true, false, not, ◌&&◌, Option, none, some, List, ◌≡◌, refl, sym,
  ap, ◌∙◌, ◌⊎◌, inl, inr, arith, Option-cases, if◌then◌else◌, if_cases,
}
use gokue.Prelude.Int.{ℤ, pos, ltb_ℤ, ◌-ℤ◌, ◌≤ℤ◌, ◌<ℤ◌}
use gokue.Prelude.Bytes.{Bytes}
use gokue.Job.{ContextError}
use gokue.Record.{status_running, JobRecord, ListFilter, Result, ok, err, ctx_err}
use gokue.RecordMap.{lookup, map_values, Distinct}
use gokue.RecordMap.Laws.{lookup-map_values}
use gokue.MemoryStore.{
  MemoryStore, save, get, claim, update, delete, list, is_stale, started_after, requeued,
  count_stale, requeue_stale,
}
use gokue.MemoryStore.Validity
use gokue.MemoryStore.Validity.{
  save-IsValid, claim-IsValid, update-IsValid, delete-IsValid, requeue_stale-IsValid, guarded_cases,
}
use gokue.MemoryStore.Members.{count_stale-eq-zero_iff}
use gokue.MemoryStore.Refinement.Calls.{
  keeping, view, Fulfils, guarded-Fulfils, save-Fulfils, get-Fulfils, claim-Fulfils, update-Fulfils,
  delete-Fulfils, list-Fulfils,
}
use gokue.JobStore.{
  Request, saves, updates, gets, deletes, claims, lists, requeues, answers, Answer, done, found,
  listed, counted, back_to_pending, PicksStale, when_cancelled, Allowed, requeue_done,
  lease_refused, unavailable, Store,
}

is_stale-PicksStale : (cutoff : ℤ) → PicksStale keeping cutoff (is_stale cutoff)
unfolding is_stale
is_stale-PicksStale cutoff = record {
  only = λ r h. elim (Option-cases r.started_at) [
    | inl e ↦ absurd (ground arith)
    | inr (t, e) ↦ (ground (arith, eq_iff r.status status_running), (t, e, ground arith))
  ];
  all = λ r t running e early. ground (arith, eq_iff r.status status_running);
}

requeued_lem :
    (cutoff : ℤ) (r : JobRecord)
    → requeued cutoff r ≡ (if is_stale cutoff r then back_to_pending r else r)
unfolding requeued
requeued_lem cutoff r = refl

requeue_stale-Fulfils :
    (ctx : Option ContextError) (now lease : ℤ) (s : MemoryStore)
    → Distinct s.records
    → Fulfils counted now (requeues lease) s (requeue_stale ctx now lease s)
unfolding requeue_stale
requeue_stale-Fulfils (some e) now lease s d =
    unavailable (requeues lease) (ctx_err e) (when_cancelled e) (λ j. refl)
requeue_stale-Fulfils none now lease s d =
    if_cases (Fulfils counted now (requeues lease) s) (ltb_ℤ lease (pos 0)) _ _
      (λ low. lease_refused lease low (λ j. refl))
      (λ fits.
        let c = now -ℤ lease in
        guarded-Fulfils counted none now (requeues lease) s _ (λ o.
          requeue_done lease _ (is_stale c) fits (is_stale-PicksStale c)
            (λ j.
              lookup-map_values (requeued c) j s.records
              ∙ ap (λ f. Option.map f (lookup j s.records)) (fun_ext (requeued_lem c)))
            (count_stale-eq-zero_iff c s.records d)))

-- The methods as one function.
unfoldable pub memory_call : Option ContextError → ℤ → Request → MemoryStore → MemoryStore × Answer
memory_call ctx now (saves rec) s = answers (λ u. done) (save ctx rec s)
memory_call ctx now (updates rec) s = answers (λ u. done) (update ctx rec s)
memory_call ctx now (gets id) s = answers found (get ctx id s)
memory_call ctx now (deletes id) s = answers (λ u. done) (delete ctx id s)
memory_call ctx now claims s = answers found (claim ctx now s)
memory_call ctx now (lists f) s = answers listed (list ctx f s)
memory_call ctx now (requeues lease) s = answers counted (requeue_stale ctx now lease s)

-- Every call of a method of the in-memory store but `Close`, with any context, on records of which no
-- two have the same ID and each stands under its own, takes its content from before
-- the call to that after it as `Allowed` says, and returns the answer that goes
-- with it.
pub memory_call-Allowed :
    (ctx : Option ContextError) (now : ℤ) (q : Request) (s : MemoryStore)
    → Validity.IsValid s.records
    → let r = memory_call ctx now q s in Allowed keeping now (view s) (view r.0) q r.1
unfolding memory_call
memory_call-Allowed ctx now (saves rec) s v = save-Fulfils ctx now rec s
memory_call-Allowed ctx now (updates rec) s v = update-Fulfils ctx now rec s
memory_call-Allowed ctx now (gets id) s v = get-Fulfils ctx now id s
memory_call-Allowed ctx now (deletes id) s v = delete-Fulfils ctx now id s
memory_call-Allowed ctx now claims s v = claim-Fulfils ctx now s v.distinct
memory_call-Allowed ctx now (lists f) s v = list-Fulfils ctx now f s v.distinct
memory_call-Allowed ctx now (requeues lease) s v = requeue_stale-Fulfils ctx now lease s v.distinct

answers-store {ℓ} :
    {A : Type ℓ} (f : A → Answer) (r : MemoryStore × Result A) → (answers f r).0 ≡ r.0
answers-store f (s, ok a) = refl
answers-store f (s, err e) = refl

Valid-answers {ℓ} :
    {A : Type ℓ} (f : A → Answer) (r : MemoryStore × Result A)
    → Validity.IsValid r.0.records
    → Validity.IsValid (answers f r).0.records
Valid-answers f r v = subst (λ t. Validity.IsValid t.records) (sym (answers-store f r)) v

get-IsValid :
    (ctx : Option ContextError) (id : Bytes) (s : MemoryStore)
    → Validity.IsValid s.records
    → Validity.IsValid (get ctx id s).0.records
unfolding get
get-IsValid ctx id s v =
    guarded_cases (λ (r : MemoryStore × Result JobRecord). Validity.IsValid r.0.records) ctx s _
      (λ e. v)
      λ c o. elim (Option-cases (lookup id s.records)) [
        | inl missing ↦ rw (missing, get) v
        | inr (r, there) ↦ rw (there, get) v
      ]

list-IsValid :
    (ctx : Option ContextError) (f : ListFilter) (s : MemoryStore)
    → Validity.IsValid s.records
    → Validity.IsValid (list ctx f s).0.records
unfolding list
list-IsValid ctx f s v =
    guarded_cases (λ (r : MemoryStore × Result (List JobRecord)). Validity.IsValid r.0.records) ctx
      s _ (λ e. v) (λ c o. v)

pub memory_call-IsValid :
    (ctx : Option ContextError) (now : ℤ) (q : Request) (s : MemoryStore)
    → Validity.IsValid s.records
    → Validity.IsValid (memory_call ctx now q s).0.records
unfolding memory_call
memory_call-IsValid ctx now (saves rec) s v = Valid-answers _ _ (save-IsValid ctx rec s v)
memory_call-IsValid ctx now (updates rec) s v = Valid-answers _ _ (update-IsValid ctx rec s v)
memory_call-IsValid ctx now (gets id) s v = Valid-answers _ _ (get-IsValid ctx id s v)
memory_call-IsValid ctx now (deletes id) s v = Valid-answers _ _ (delete-IsValid ctx id s v)
memory_call-IsValid ctx now claims s v = Valid-answers _ _ (claim-IsValid ctx now s v)
memory_call-IsValid ctx now (lists f) s v = Valid-answers _ _ (list-IsValid ctx f s v)
memory_call-IsValid ctx now (requeues lease) s v =
    Valid-answers _ _ (requeue_stale-IsValid ctx now lease s v)

-- The in-memory store as a job store, whose calls have a live context.
abbrev pub memory_store : Store keeping
memory_store = record {
  State = MemoryStore;
  IsValid = λ s. Validity.IsValid s.records;
  Accepts = λ q. Unit;
  view = view;
  call = memory_call none;
  keyed = λ s k r v there. v.keyed k r there;
  call-Allowed = λ now q s v a. memory_call-Allowed none now q s v;
}
