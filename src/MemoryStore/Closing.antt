-- ===== src/MemoryStore/Closing.antt =====
-- What is left of the in-memory store of backend/memory.go after `Close`.
use gokue.Prelude.{ℕ, true, Option, none, some, List, [], ◌∷◌, ◌≡◌, refl, ap, sym, ◌∙◌, if_cases}
use gokue.Prelude.Int.{ℤ, pos, ltb_ℤ}
use gokue.Prelude.Bytes.{Bytes}
use gokue.Job.{ContextError}
use gokue.Record.{ListFilter, Result, err, store_closed}
use gokue.MemoryStore.{
  MemoryStore, guarded, save, get, claim, update, delete, list, requeue_stale, close,
}
use gokue.MemoryStore.History.{
  Call, saves, updates, claims, deletes, requeues, closes, step, history,
}

guarded_closed {ℓ} :
    {A : Type ℓ} (ctx : Option ContextError) (s : MemoryStore) (body : MemoryStore × Result A)
    → s.closed ≡ true
    → (guarded ctx s body).0 ≡ s
unfolding guarded
guarded_closed none s body h = if_cases (λ r. r.0 ≡ s) s.closed _ body (λ c. refl) (λ c. cc)
guarded_closed (some e) s body h = refl

guarded_refuses {ℓ} :
    {A : Type ℓ} (s : MemoryStore) (body : MemoryStore × Result A)
    → s.closed ≡ true
    → (guarded none s body).1 ≡ err store_closed
unfolding guarded
guarded_refuses s body h =
    if_cases (λ r. r.1 ≡ err store_closed) s.closed _ body (λ c. refl) (λ c. cc)

requeue_stale_closed :
    (ctx : Option ContextError) (now lease : ℤ) (s : MemoryStore)
    → s.closed ≡ true
    → (requeue_stale ctx now lease s).0 ≡ s
unfolding requeue_stale
requeue_stale_closed none now lease s h =
    if_cases (λ (r : MemoryStore × Result ℕ). r.0 ≡ s) (ltb_ℤ lease (pos 0)) _ _ (λ c. refl)
      (λ c. guarded_closed none s _ h)
requeue_stale_closed (some e) now lease s h = refl

close_closed : (ctx : Option ContextError) (s : MemoryStore) → s.closed ≡ true → (close ctx s).0 ≡ s
unfolding close
close_closed none s h = ap (λ b. record s { closed = b }) (sym h)
close_closed (some e) s h = refl

step_closed : (c : Call) (s : MemoryStore) → s.closed ≡ true → step c s ≡ s
unfolding step save update claim delete
step_closed (saves ctx rec) s h = guarded_closed ctx s _ h
step_closed (updates ctx rec) s h = guarded_closed ctx s _ h
step_closed (claims ctx now) s h = guarded_closed ctx s _ h
step_closed (deletes ctx id) s h = guarded_closed ctx s _ h
step_closed (requeues ctx now lease) s h = requeue_stale_closed ctx now lease s h
step_closed (closes ctx) s h = close_closed ctx s h

history_closed : (cs : List Call) (s : MemoryStore) → s.closed ≡ true → history cs s ≡ s
unfolding history
history_closed [] s h = refl
history_closed (c ∷ cs) s h = ap (history cs) (step_closed c s h) ∙ history_closed cs s h

close-closed : (s : MemoryStore) → (close none s).0.closed ≡ true
unfolding close
close-closed s = refl

-- Closing is final: whatever calls precede a `Close` whose context is alive and whatever calls
-- follow it, the store is the one that `Close` left, and `Get`, `Claim` and `List` with a live
-- context answer `ErrStoreClosed`.
pub close_final :
    (before after : List Call) (s : MemoryStore) (id : Bytes) (now : ℤ) (f : ListFilter)
    → let left = (close none (history before s)).0 in
      let t = history after left in
      (t ≡ left)
      × ((get none id t).1 ≡ err store_closed)
      × ((claim none now t).1 ≡ err store_closed)
      × ((list none f t).1 ≡ err store_closed)
unfolding get claim list
close_final before after s id now f =
    let left = (close none (history before s)).0 in
    let t = history after left in
    let shut : left.closed ≡ true = close-closed (history before s) in
    let same : t ≡ left = history_closed after left shut in
    let still : t.closed ≡ true = ap (λ u. u.closed) same ∙ shut in
    (same, guarded_refuses t _ still, guarded_refuses t _ still, guarded_refuses t _ still)
