-- ===== src/Mongo/Refinement.antt =====
-- backend/mongodb/store.go implements the interface of backend/backend.go, given a driver that obeys
-- the laws and no other client between the two operations of an update.
pub mod Views
pub mod Writes
pub mod Changes
pub mod Queries
pub mod Stored
pub mod Validity
pub mod Interleaved
use mathlib.Core.Option
use gokue.Prelude.{
  ℕ, zero, suc, ◌<◌, ◌^◌, String, Bool, true, false, Option, none, some, ◌≡◌, refl, sym, ap, ◌∙◌,
  arith, Option-cases, Bool-cases, inl, inr, if◌then◌else◌, if_cases, is_nil, ltb,
}
use gokue.Prelude.Int.{ℤ, pos, ltb_ℤ, ◌-ℤ◌}
use gokue.Prelude.Bytes.{Bytes}
use gokue.Record.{status_pending, JobRecord, StoreError, Result, ok, err, nil_store, not_connected}
use gokue.JobStore.{
  Request, saves, updates, gets, deletes, claims, lists, requeues, answers, Answer, done, found,
  listed, counted, View, Same, Keeping, when_nil, when_unconnected, IsUnavailable, Allowed,
  lease_refused, unavailable, Store,
}
use gokue.Mongo.Driver.{
  Document, from_document, Filter, no_filter, Reply, replied, no_documents, Driver, to_document,
}
use gokue.Mongo.Requests.{with_defaults, claim_changes, update_changes, requeue_changes}
use gokue.Mongo.Connection.{Connection}
use gokue.Mongo.JobStore.{
  MongoJobStore, handle_error, with_handle, save, get, claim, missing_or_conflict, after_update,
  update, delete, list, requeue_stale,
}
use gokue.Mongo.Laws.{Content, Updates, Counts, one, nothing, HasRoom, Obeys, IsStored}
use gokue.Mongo.Refinement.Views.{viewed, viewed-Same, document_of}
use gokue.Mongo.Refinement.Writes.{save-Allowed, get-Allowed, delete-Allowed}
use gokue.Mongo.Refinement.Changes.{
  claim-Allowed, pending_filter, update-done-Allowed, update-refused-Allowed, version_filter,
}
use gokue.Mongo.Refinement.Queries.{list-Allowed, status_filter, stale_filter, requeue-Allowed}

-- What can be encoded: a number of attempts has to fit into an int64.
abbrev pub Encodable : Request → Type 0
Encodable (saves rec) = rec.attempts < 2 ^ 63
Encodable (updates rec) = rec.attempts < 2 ^ 63
Encodable (gets id) = Unit
Encodable (deletes id) = Unit
Encodable claims = Unit
Encodable (lists f) = Unit
Encodable (requeues lease) = Unit

-- The methods as one function, with a live context.
unfoldable pub mongo_call :
    (driver : Driver)
    → Option MongoJobStore
    → ℤ
    → Request
    → driver.Collection
    → driver.Collection × Answer
mongo_call driver store now (saves rec) c = answers (λ u. done) (save driver none rec store c)
mongo_call driver store now (updates rec) c =
    answers (λ u. done) (update driver none (λ x. x) rec store c)
mongo_call driver store now (gets id) c = answers found (get driver none id store c)
mongo_call driver store now (deletes id) c = answers (λ u. done) (delete driver none id store c)
mongo_call driver store now claims c = answers found (claim driver none now store c)
mongo_call driver store now (lists f) c = answers listed (list driver none f store c)
mongo_call driver store now (requeues lease) c =
    answers counted (requeue_stale driver none now lease store c)

pub encodable : (rec : JobRecord) → (to_document (with_defaults rec)).attempts ≡ rec.attempts
unfolding to_document with_defaults
encodable rec = ground arith

module _ (driver : Driver) (keep : Keeping) (content : driver.Collection → Content) (now : ℤ)
    (store : Option MongoJobStore) (c : driver.Collection) where
  -- The result is allowed.
  abbrev Fulfils {ℓ} : {A : Type ℓ} → (A → Answer) → Request → driver.Collection × Result A → Type 0
  Fulfils f q r = Allowed keep now (viewed (content c)) (viewed (content r.0)) q (answers f r).1

  answered {ℓ} :
      {A : Type ℓ} (f : A → Answer) (q : Request) (r : driver.Collection × Result A)
      → Fulfils f q r
      → let a = answers f r in Allowed keep now (viewed (content c)) (viewed (content a.0)) q a.1
  answered f q (d, ok a) h = h
  answered f q (d, err e) h = h

  with_connection-Fulfils {ℓ} :
      {A : Type ℓ} (f : A → Answer) (q : Request) (d : driver.Collection)
      (body : driver.Collection × Result A) (conn : Option Connection)
      (database collection : String)
      → Same (content d) (content c)
      → Fulfils f q body
      → Fulfils f q (
          with_handle
            (some (record { conn = conn; database = database; collection = collection }))
            d
            body)
  unfolding with_handle handle_error
  with_connection-Fulfils f q d body none database collection same go =
      unavailable q nil_store when_nil (viewed-Same (content c) (content d) same)
  with_connection-Fulfils f q d body (some conn) database collection same go =
      elim (Option-cases conn.client) [
        | inl e ↦
            rw (e, with_handle)
              (unavailable q not_connected when_unconnected
                (viewed-Same (content c) (content d) same))
        | inr (client, e) ↦ rw (e, with_handle) go
      ]

  with_handle-Fulfils {ℓ} :
      {A : Type ℓ} (f : A → Answer) (q : Request) (d : driver.Collection)
      (body : driver.Collection × Result A) (store : Option MongoJobStore)
      → Same (content d) (content c)
      → Fulfils f q body
      → Fulfils f q (with_handle store d body)
  unfolding with_handle handle_error
  with_handle-Fulfils f q d body none same go =
      unavailable q nil_store when_nil (viewed-Same (content c) (content d) same)
  with_handle-Fulfils f q d body (some s) same go =
      with_connection-Fulfils f q d body s.conn s.database s.collection same go

  module _ (obeys : Obeys driver keep content c) (stored : IsStored keep (content c))
      (room : HasRoom (content c)) where
    refused-Fulfils :
        (rec : JobRecord) (d : driver.Collection) (r : Reply ℕ)
        → Updates keep (version_filter keep now rec) (update_changes rec) (content c) (content d) r
        → ((f : Filter) → Counts keep f (content d) (driver.count_documents none f (pos 1) d))
        → Fulfils
            (λ (u : Unit {0}). done)
            (updates rec)
            (after_update driver none (λ x. x) rec.id store (d, r))
    unfolding after_update missing_or_conflict
    refused-Fulfils rec d _ (one k x there fits same) counts =
        update-done-Allowed keep now rec (content c) (content d) k x stored room there fits same
    refused-Fulfils rec d _ (nothing absent same) counts =
        with_handle-Fulfils _ (updates rec) d _ store same (
          update-refused-Allowed keep now rec (content c) (content d) d _ stored absent same
            (counts (record no_filter { id = some rec.id })))

    -- Every call of a method of the MongoDB store but `Close` with a live context takes the content of the
    -- collection, from which the driver's documents are read as records, from before the call to that
    -- after it as `Allowed` says, and returns the answer that goes with it: for every
    -- store, connected or not, if the operations on this collection keep the promises of the driver's
    -- manual, each document stands under its `_id`, holds its payload as it is kept and can be
    -- incremented once more, a kept payload is kept as it is and a date as one that is not later, a
    -- record to be written has attempts that fit an int64, and no other client changes the collection
    -- during an update.
    pub mongo_call-Allowed :
        (q : Request)
        → Encodable q
        → let r = mongo_call driver store now q c in
          Allowed keep now (viewed (content c)) (viewed (content r.0)) q r.1
    unfolding mongo_call save get claim update delete list requeue_stale claim_changes
        update_changes requeue_changes
    mongo_call-Allowed (saves rec) fits = answered _ (saves rec) _ (
        with_handle-Fulfils _ (saves rec) c _ store (λ j. refl)
          (save-Allowed keep now rec (content c) _ _ _
            (obeys.insert (to_document (with_defaults rec)) (rw (encodable rec) fits))))
    mongo_call-Allowed (updates rec) fits = answered _ (updates rec) _ (
        with_handle-Fulfils _ (updates rec) c _ store (λ j. refl)
          (refused-Fulfils rec _ _
            (obeys.update_one (version_filter keep now rec) (update_changes rec) room refl
              (omega arith) fits)
            (λ f. obeys.count_documents f (version_filter keep now rec) (update_changes rec))))
    mongo_call-Allowed (gets id) fits = answered _ (gets id) _ (
        with_handle-Fulfils found (gets id) c _ store (λ j. refl)
          (get-Allowed keep now id (content c) c _ stored
            (obeys.find_one (record no_filter { id = some id }))))
    mongo_call-Allowed (deletes id) fits = answered _ (deletes id) _ (
        with_handle-Fulfils _ (deletes id) c _ store (λ j. refl)
          (delete-Allowed keep now id (content c) _ _ _ stored
            (obeys.delete_one (record no_filter { id = some id }))))
    mongo_call-Allowed claims fits = answered _ claims _ (
        with_handle-Fulfils found claims c _ store (λ j. refl)
          (claim-Allowed keep now (content c) _ _ _ stored room (
            obeys.find_one_and_update (pending_filter keep now) (claim_changes now) room refl
              (omega arith))))
    mongo_call-Allowed (lists f) fits = answered _ (lists f) _ (
        with_handle-Fulfils listed (lists f) c _ store (λ j. refl)
          (list-Allowed keep now f (content c) c _ stored
            (obeys.find (status_filter keep now f.status) _)))
    mongo_call-Allowed (requeues lease) fits = answered _ (requeues lease) _ (
        if_cases (Fulfils counted (requeues lease)) (ltb_ℤ lease (pos 0)) _ _
          (λ low. lease_refused lease low (λ j. refl))
          (λ high.
            with_handle-Fulfils counted (requeues lease) c _ store (λ j. refl)
              (requeue-Allowed keep now lease (content c) _ _ _ stored room high (
                obeys.update_many (stale_filter keep now (now -ℤ lease)) requeue_changes room refl
                  (omega arith)))))

pub keyed_view :
    (keep : Keeping) (m : Content) (k : Bytes) (r : JobRecord)
    → IsStored keep m
    → viewed m k ≡ some r
    → r.id ≡ k
unfolding from_document
keyed_view keep m k r v there =
    let (d, at, made) = document_of m k r there in ap (λ x. x.id) (sym made) ∙ v.keyed k d at

-- The MongoDB store as a job store.
abbrev pub mongo_store :
    (driver : Driver) (keep : Keeping) (content : driver.Collection → Content)
    (store : Option MongoJobStore)
    → Store keep
mongo_store driver keep content store = record {
  State = driver.Collection;
  IsValid = λ c. Obeys driver keep content c × IsStored keep (content c) × HasRoom (content c);
  Accepts = Encodable;
  view = λ c. viewed (content c);
  call = mongo_call driver store;
  keyed = λ c k r (obeys, stored, room) there. keyed_view keep (content c) k r stored there;
  call-Allowed = λ now q c (obeys, stored, room) fits.
      mongo_call-Allowed driver keep content now store c obeys stored room q fits;
}
