-- ===== src/Mongo/Refinement/Validity.antt =====
-- The methods of backend/mongodb/store.go keep what their refinement needs of the collection.
use gokue.Prelude.{ℕ, Option, none, some, refl, arith, Option-cases, inl, inr, if_cases, ltb}
use gokue.Prelude.Int.{ℤ, pos, ltb_ℤ, ◌-ℤ◌}
use gokue.Record.{JobRecord, Result, ok, err}
use gokue.JobStore.{
  Request, saves, updates, gets, deletes, claims, lists, requeues, Answer, answers, done, found,
  listed, counted, Keeping,
}
use gokue.Mongo.Driver.{
  to_document, no_filter, Reply, replied, no_documents, duplicate_key, driver_error, Driver,
}
use gokue.Mongo.Requests.{with_defaults, claim_changes, update_changes, requeue_changes}
use gokue.Mongo.JobStore.{
  MongoJobStore, handle_error, with_handle, save, get, claim, missing_or_conflict, after_update,
  update, delete, list, requeue_stale,
}
use gokue.Mongo.Laws.{Content, HasRoom, Obeys, IsStored}
use gokue.Mongo.Refinement.{Encodable, encodable, mongo_call}
use gokue.Mongo.Refinement.Stored.{
  insert-IsStored, find_and_update-IsStored, update-IsStored, delete-IsStored, update_many-IsStored,
}
use gokue.Mongo.Refinement.Changes.{pending_filter, version_filter}
use gokue.Mongo.Refinement.Queries.{stale_filter}

module _ {κ} {C : Type κ} (P : C → Type 0) where
  with_handle_keeps {ℓ} :
      {A : Type ℓ} (store : Option MongoJobStore) (c : C) (body : C × Result A)
      → P c
      → P body.0
      → P (with_handle store c body).0
  unfolding with_handle handle_error
  with_handle_keeps store c body old new = elim (Option-cases (handle_error store)) [
    | inl e ↦ rw (e, with_handle) new
    | inr (e, h) ↦ rw (h, with_handle) old
  ]

  answers_keeps {ℓ} : {A : Type ℓ} (f : A → Answer) (r : C × Result A) → P r.0 → P (answers f r).0
  answers_keeps f (c, ok a) h = h
  answers_keeps f (c, err e) h = h

after_update_keeps :
    (driver : Driver) (P : driver.Collection → Type 0) (rec : JobRecord)
    (store : Option MongoJobStore) (r : driver.Collection × Reply ℕ)
    → P r.0
    → P (after_update driver none (λ x. x) rec.id store r).0
unfolding after_update missing_or_conflict
after_update_keeps driver P rec store (c, replied n) h =
    if_cases (λ (r : driver.Collection × Result (Unit {0})). P r.0) (ltb 0 n) _ _
      (λ some_matched. h) (λ none_matched. with_handle_keeps P store c _ h h)
after_update_keeps driver P rec store (c, no_documents) h = h
after_update_keeps driver P rec store (c, duplicate_key) h = h
after_update_keeps driver P rec store (c, driver_error) h = h

module _ (driver : Driver) (keep : Keeping) (content : driver.Collection → Content) (now : ℤ)
    (store : Option MongoJobStore) (c : driver.Collection) where
  abbrev Kept : driver.Collection → Type 0
  Kept d = IsStored keep (content d)

  -- Every call of a method of the MongoDB store but `Close` with a live context, on a collection in
  -- which each document stands under its own `_id` and holds its payload as it is kept, leaves one of
  -- which the same holds: if the operations on the collection keep the promises of the driver's manual,
  -- each document can be incremented once more, a kept payload is kept as it is and a date as one that
  -- is not later, a record to be written has attempts that fit an int64, and no other client changes
  -- the collection during an update.
  pub mongo_call-IsStored :
      Obeys driver keep content c
      → IsStored keep (content c)
      → HasRoom (content c)
      → (q : Request) → Encodable q
      → IsStored keep (content (mongo_call driver store now q c).0)
  unfolding mongo_call save get claim update delete list requeue_stale claim_changes update_changes
      requeue_changes
  mongo_call-IsStored obeys v room (saves rec) fits = answers_keeps Kept _ _ (
      with_handle_keeps Kept store c _ v (
        insert-IsStored keep (to_document (with_defaults rec)) _ _ _ v
          (obeys.insert (to_document (with_defaults rec)) (rw (encodable rec) fits))))
  mongo_call-IsStored obeys v room (updates rec) fits =
      answers_keeps Kept (λ (u : Unit {0}). done) _
        (with_handle_keeps Kept store c _ v (
          after_update_keeps driver Kept rec store
            (driver.update_one none (version_filter keep now rec) (update_changes rec) c)
            (update-IsStored keep (version_filter keep now rec) (update_changes rec) _ _ _ v (
              obeys.update_one (version_filter keep now rec) (update_changes rec) room refl
                (omega arith) fits))))
  mongo_call-IsStored obeys v room (gets id) fits =
      answers_keeps Kept found _ (with_handle_keeps Kept store c _ v v)
  mongo_call-IsStored obeys v room (deletes id) fits = answers_keeps Kept _ _ (
      with_handle_keeps Kept store c _ v (
        delete-IsStored keep (record no_filter { id = some id }) _ _ _ v
          (obeys.delete_one (record no_filter { id = some id }))))
  mongo_call-IsStored obeys v room claims fits = answers_keeps Kept found _ (
      with_handle_keeps Kept store c _ v (
        find_and_update-IsStored keep (pending_filter keep now) (claim_changes now) _ _ _ v (
          obeys.find_one_and_update (pending_filter keep now) (claim_changes now) room refl
            (omega arith))))
  mongo_call-IsStored obeys v room (lists f) fits =
      answers_keeps Kept listed _ (with_handle_keeps Kept store c _ v v)
  mongo_call-IsStored obeys v room (requeues lease) fits = answers_keeps Kept counted _ (
      if_cases (λ (r : driver.Collection × Result ℕ). Kept r.0) (ltb_ℤ lease (pos 0)) _ _ (λ low. v)
        (λ high. with_handle_keeps Kept store c _ v (
          update_many-IsStored keep (stale_filter keep now (now -ℤ lease)) requeue_changes _ _ _ v (
            obeys.update_many (stale_filter keep now (now -ℤ lease)) requeue_changes room refl
              (omega arith)))))
