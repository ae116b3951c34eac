-- ===== src/Mongo/JobStore.antt =====
-- backend/mongodb/store.go: the job store on a MongoDB collection. A method is a function of the
-- store and the collection; the clock is an argument. Between the two operations of `Update` other
-- clients may change the collection, which is an argument too.
use gokue.Prelude.{
  ℕ, String, ◌=?◌, Bool, Option, none, some, List, ◌⊎◌, inl, inr, ltb, if◌then◌else◌, is_nil,
}
use gokue.Prelude.Int.{ℤ, pos, ltb_ℤ, ◌-ℤ◌}
use gokue.Prelude.Bytes.{Bytes}
use gokue.Job.{ContextError}
use gokue.Record.{
  status_pending, status_running, JobRecord, ListFilter, StoreError, Result, ok, err, not_found,
  conflict, nil_store, not_connected, lease_negative, ctx_err, driver_failed,
}
use gokue.Mongo.Driver.{
  to_document, no_filter, by_created_at, by_created_at_and_id, Reply, replied, no_documents,
  duplicate_key, driver_error, Driver,
}
use gokue.Mongo.Requests.{
  with_defaults, wrapped, inserted, decoded, deleted, listed_documents, claim_changes,
  update_changes, requeue_changes,
}
use gokue.Mongo.Connection.{Connection, ConnectionError, setup_connection, close_connection}

pub record MongoJobStore : Type 0 where
  pub conn : Option Connection
  pub database : String
  pub collection : String

pub data NewStoreError : Type 0 where
  nil_conn empty_database empty_collection : NewStoreError

unfoldable pub new_store : Option Connection → String → String → NewStoreError ⊎ MongoJobStore
new_store none database collection = inl nil_conn
new_store (some conn) database collection =
    if database =? ""
    then inl empty_database
    else if collection =? ""
    then inl empty_collection
    else inr (record { conn = some conn; database = database; collection = collection })

-- `collectionHandle`, whose result is the collection itself: the error, or none.
unfoldable pub handle_error : Option MongoJobStore → Option StoreError
handle_error none = some nil_store
handle_error (some s) = elim s.conn [
  | none ↦ some nil_store
  | some c ↦ if is_nil c.client then some not_connected else none
]

-- The methods begin with `collectionHandle`.
unfoldable pub with_handle {ℓ κ} :
    {C : Type κ} {A : Type ℓ} → Option MongoJobStore → C → C × Result A → C × Result A
unfolding handle_error
with_handle store c body = elim (handle_error store) [ some e ↦ (c, err e) | none ↦ body ]

module _ (driver : Driver) where
  open driver use {
    Collection, create_index, insert_one, find_one, find_one_and_update, update_one, delete_one,
    find, update_many, count_documents,
  }

  unfoldable pub ensure_indexes :
      Option ContextError → Option MongoJobStore → Collection → Collection × Result (Unit {0})
  unfolding with_handle wrapped
  ensure_indexes ctx store c =
      with_handle store c
        (let (c', r) = create_index ctx c in (c', wrapped "create index" (λ u. ok tt) r))

  unfoldable pub save :
      Option ContextError
      → JobRecord
      → Option MongoJobStore
      → Collection
      → Collection × Result (Unit {0})
  unfolding with_handle with_defaults to_document inserted
  save ctx rec store c = with_handle store c (elim ctx [
    | some e ↦ (c, err (ctx_err e))
    | none ↦ let (c', r) = insert_one none (to_document (with_defaults rec)) c in (c', inserted r)
  ])

  unfoldable pub get :
      Option ContextError
      → Bytes
      → Option MongoJobStore
      → Collection
      → Collection × Result JobRecord
  unfolding with_handle decoded
  get ctx id store c =
      with_handle store c
        (c, decoded "find job record" (find_one ctx (record no_filter { id = some id }) c))

  unfoldable pub claim :
      Option ContextError
      → (now : ℤ) → Option MongoJobStore
      → Collection
      → Collection × Result JobRecord
  unfolding with_handle decoded claim_changes
  claim ctx now store c = with_handle store c (
      let (c', r) =
        find_one_and_update ctx (record no_filter { status = some status_pending })
          (claim_changes now) by_created_at c in
      (c', decoded "claim job record" r))

  -- `exists`, and what `Update` makes of it.
  unfoldable pub missing_or_conflict :
      Option ContextError
      → Bytes
      → Option MongoJobStore
      → Collection
      → Collection × Result (Unit {0})
  unfolding with_handle wrapped
  missing_or_conflict ctx id store c = with_handle store c (
    c,
    wrapped "count job record" (λ n. if ltb 0 n then err conflict else err not_found)
        (count_documents ctx (record no_filter { id = some id }) (pos 1) c),
  )

  unfoldable pub after_update :
      Option ContextError
      → (others : Collection → Collection) → Bytes
      → Option MongoJobStore
      → Collection × Reply ℕ
      → Collection × Result (Unit {0})
  unfolding missing_or_conflict
  after_update ctx others id store (c, replied n) =
      if ltb 0 n then (c, ok tt) else missing_or_conflict ctx id store (others c)
  after_update ctx others id store (c, no_documents) = (c, err (driver_failed "update job record"))
  after_update ctx others id store (c, duplicate_key) = (c, err (driver_failed "update job record"))
  after_update ctx others id store (c, driver_error) = (c, err (driver_failed "update job record"))

  unfoldable pub update :
      Option ContextError
      → (others : Collection → Collection) → JobRecord
      → Option MongoJobStore
      → Collection
      → Collection × Result (Unit {0})
  unfolding with_handle update_changes after_update
  update ctx others rec store c = with_handle store c (
      after_update ctx others rec.id store (
        update_one ctx (record no_filter { id = some rec.id; version = some rec.version })
          (update_changes rec) c))

  unfoldable pub delete :
      Option ContextError
      → Bytes
      → Option MongoJobStore
      → Collection
      → Collection × Result (Unit {0})
  unfolding with_handle deleted
  delete ctx id store c =
      with_handle store c
        (let (c', r) = delete_one ctx (record no_filter { id = some id }) c in (c', deleted r))

  unfoldable pub list :
      Option ContextError
      → ListFilter
      → Option MongoJobStore
      → Collection
      → Collection × Result (List JobRecord)
  unfolding with_handle wrapped listed_documents
  list ctx f store c = with_handle store c (
    c,
    wrapped "list job records" listed_documents (
        find ctx (record no_filter { status = f.status }) by_created_at_and_id
          (if ltb_ℤ (pos 0) f.limit then some f.limit else none) c),
  )

  unfoldable pub requeue_stale :
      Option ContextError
      → (now lease : ℤ) → Option MongoJobStore
      → Collection
      → Collection × Result ℕ
  unfolding with_handle wrapped requeue_changes
  requeue_stale ctx now lease store c =
      if ltb_ℤ lease (pos 0)
      then (c, err lease_negative)
      else with_handle store c (
          let (c', r) =
            update_many ctx
              (record no_filter {
                status = some status_running;
                started_before = some (now -ℤ lease);
              })
              requeue_changes c in
          (c', wrapped "requeue stale job records" ok r))

-- `Close`, with the answer of `Disconnect` and the connected clients. A store that is nil itself is
-- left out: the method would dereference it.
unfoldable pub close :
    (disconnects : Bool) → MongoJobStore → List ℕ → MongoJobStore × List ℕ × Option ConnectionError
unfolding close_connection
close disconnects s clients =
    let (conn, clients', e) = close_connection disconnects s.conn clients in
    (record s { conn = conn }, clients', e)

-- What a failed `Setup` reports.
pub data SetupError : Type 0 where
  connection_error : ConnectionError → SetupError
  index_error : StoreError → SetupError

abbrev indexed : Result (Unit {0}) → Option SetupError
indexed (ok u) = none
indexed (err e) = some (index_error e)

-- `Setup`, given the answers of `Connect` and `Ping`.
unfoldable pub setup :
    (driver : Driver)
    → (dialed : Option ℕ) → (pings : Bool) → Option ContextError
    → MongoJobStore
    → List ℕ
    → driver.Collection
    → MongoJobStore × List ℕ × driver.Collection × Option SetupError
unfolding setup_connection ensure_indexes
setup driver dialed pings ctx s clients c =
    let (conn, clients', e) = setup_connection dialed pings s.conn clients in
    let s' = record s { conn = conn } in
    elim e [
      | some failure ↦ (s', clients', c, some (connection_error failure))
      | none ↦ let (c', r) = ensure_indexes driver ctx (some s') c in (s', clients', c', indexed r)
    ]
