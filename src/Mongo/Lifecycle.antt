-- ===== src/Mongo/Lifecycle.antt =====
-- Setting up and closing the connection of backend/mongodb/mongodb.go, and what the methods of
-- backend/mongodb/store.go answer afterwards.
use mathlib.Core.List.{Mem, mem-cons_self}
use gokue.Prelude.{
  ℕ, String, Bool, true, false, Option, none, some, List, ◌∷◌, ◌≡◌, ◌≢◌, refl, sym, ap, ◌∙◌, arith,
  Bool-cases, inl, inr, if◌then◌else◌,
}
use gokue.Prelude.Int.{ℤ, pos, ltb_ℤ}
use gokue.Job.{ContextError}
use gokue.Record.{StoreError, nil_store, not_connected, lease_negative, Result}
use gokue.JobStore.{
  Request, saves, updates, gets, deletes, claims, lists, requeues, answers, Answer, done, found,
  listed, counted, failed,
}
use gokue.Mongo.Driver.{Driver}
use gokue.Mongo.Connection.{Connection, setup_connection, close_connection, disconnected}
use gokue.Mongo.JobStore.{
  MongoJobStore, handle_error, with_handle, save, get, claim, update, delete, list, requeue_stale,
  close, setup,
}
use gokue.Mongo.Refinement.{mongo_call}

disconnected_self :
    (client : ℕ) (clients : List ℕ)
    → disconnected client (client ∷ clients) ≡ disconnected client clients
unfolding disconnected
disconnected_self client clients = ground arith

disconnected_other :
    (client c : ℕ) (clients : List ℕ)
    → c ≢ client
    → disconnected client (c ∷ clients) ≡ c ∷ disconnected client clients
unfolding disconnected
disconnected_other client c clients other = ground arith

close_idle :
    (disconnects : Bool) (uri : String) (idle : Option ℕ) (clients : List ℕ)
    → idle ≡ none
    → let c : Connection = record { uri = uri; client = idle } in
      close_connection disconnects (some c) clients ≡ (some c, clients, none)
unfolding close_connection
close_idle disconnects uri none clients e = refl
close_idle disconnects uri (some client) clients e = absurd (ground arith)

close_twice_at :
    (disconnects again : Bool) (uri : String) (client : Option ℕ) (clients : List ℕ)
    → let r = close_connection disconnects (some (record { uri = uri; client = client })) clients in
      close_connection again r.0 r.1 ≡ (r.0, r.1, none)
unfolding close_connection
close_twice_at disconnects again uri none clients = refl
close_twice_at disconnects again uri (some client) clients = refl

-- Closing after a setup, whatever `Ping` and `Disconnect` answer, leaves a connection that had no
-- client as it was, and the connected clients without the one that was dialed.
pub close-setup :
    (client : ℕ) (pings disconnects : Bool) (c : Connection) (clients : List ℕ)
    → c.client ≡ none
    → let (conn, dialed, e) = setup_connection (some client) pings (some c) clients in
      let (conn', left, e') = close_connection disconnects conn dialed in
      (conn' ≡ some c) × (left ≡ disconnected client clients)
unfolding setup_connection close_connection disconnected
close-setup client true disconnects c clients idle =
    (ap (λ i. some (record c { client = i })) (sym idle), disconnected_self client clients)
close-setup client false disconnects c clients idle =
    let e = close_idle disconnects c.uri c.client (disconnected client (client ∷ clients)) idle in
    (ap (λ r. r.0) e, ap (λ r. r.1) e ∙ disconnected_self client clients)

-- `CloseConnection` is idempotent: closing again changes nothing and does not fail.
pub close_twice :
    (disconnects again : Bool) (conn : Option Connection) (clients : List ℕ)
    → let (conn', left, e) = close_connection disconnects conn clients in
      close_connection again conn' left ≡ (conn', left, none)
unfolding close_connection
close_twice disconnects again none clients = refl
close_twice disconnects again (some c) clients =
    close_twice_at disconnects again c.uri c.client clients

-- A connection that is set up a second time forgets its first client: it stays connected when the
-- connection is closed.
pub second_setup_leaks :
    (first second : ℕ) (disconnects : Bool) (c : Connection) (clients : List ℕ)
    → first ≢ second
    → let (conn, dialed, e) = setup_connection (some first) true (some c) clients in
      let (conn', dialed', e') = setup_connection (some second) true conn dialed in
      let (conn'', left, e'') = close_connection disconnects conn' dialed' in Mem first left
unfolding setup_connection close_connection
second_setup_leaks first second disconnects c clients other =
    rw (disconnected_self second (first ∷ clients))
      (rw (disconnected_other second first clients other) mem-cons_self)

abbrev no_client : Option Connection → StoreError
no_client none = nil_store
no_client (some c) = not_connected

-- The first check of a method that fails on a connection without a client.
abbrev refusal : Option Connection → Request → StoreError
refusal conn (requeues lease) = if ltb_ℤ lease (pos 0) then lease_negative else no_client conn
refusal conn (saves rec) = no_client conn
refusal conn (updates rec) = no_client conn
refusal conn (gets id) = no_client conn
refusal conn (deletes id) = no_client conn
refusal conn claims = no_client conn
refusal conn (lists f) = no_client conn

closed_at :
    (disconnects : Bool) (uri : String) (client : Option ℕ) (database collection : String)
    (clients : List ℕ)
    → let conn : Option Connection = some (record { uri = uri; client = client }) in
      let s : MongoJobStore = record {
        conn = conn;
        database = database;
        collection = collection;
      } in
      let r = close disconnects s clients in handle_error (some r.0) ≡ some (no_client r.0.conn)
unfolding close handle_error close_connection
closed_at disconnects uri none database collection clients = refl
closed_at disconnects uri (some client) database collection clients = refl

handle_error-close :
    (disconnects : Bool) (s : MongoJobStore) (clients : List ℕ)
    → let r = close disconnects s clients in handle_error (some r.0) ≡ some (no_client r.0.conn)
unfolding close handle_error close_connection
handle_error-close disconnects s clients =
    elim s.conn
      as (λ conn.
        let r = close disconnects (record s { conn = conn }) clients in
        handle_error (some r.0) ≡ some (no_client r.0.conn)) [
          | none ↦ refl
          | some c ↦ closed_at disconnects c.uri c.client s.database s.collection clients
        ]

refused_answer {ℓ κ} :
    {C : Type κ} {A : Type ℓ} (f : A → Answer) (store : Option MongoJobStore) (e : StoreError)
    (c : C) (body : C × Result A)
    → handle_error store ≡ some e
    → answers f (with_handle store c body) ≡ (c, failed e)
unfolding with_handle handle_error
refused_answer f store e c body h = rw (h, with_handle) refl

-- Closing a store, whatever `Disconnect` answers, makes every method fail and leave the collection as
-- it is: with the error of an unconnected store, or of a nil one if there was no connection, and
-- `RequeueStale` first refuses a negative lease.
pub call-close :
    (driver : Driver) (disconnects : Bool) (s : MongoJobStore) (clients : List ℕ) (now : ℤ)
    (q : Request) (c : driver.Collection)
    → let (closed, left, e) = close disconnects s clients in
      mongo_call driver (some closed) now q c ≡ (c, failed (refusal closed.conn q))
unfolding mongo_call save get claim update delete list requeue_stale
call-close driver disconnects s clients now (saves rec) c =
    refused_answer (λ (u : Unit {0}). done) (some (close disconnects s clients).0) _ c _
      (handle_error-close disconnects s clients)
call-close driver disconnects s clients now (updates rec) c =
    refused_answer (λ (u : Unit {0}). done) (some (close disconnects s clients).0) _ c _
      (handle_error-close disconnects s clients)
call-close driver disconnects s clients now (gets id) c =
    refused_answer found (some (close disconnects s clients).0) _ c _
      (handle_error-close disconnects s clients)
call-close driver disconnects s clients now (deletes id) c =
    refused_answer (λ (u : Unit {0}). done) (some (close disconnects s clients).0) _ c _
      (handle_error-close disconnects s clients)
call-close driver disconnects s clients now claims c =
    refused_answer found (some (close disconnects s clients).0) _ c _
      (handle_error-close disconnects s clients)
call-close driver disconnects s clients now (lists f) c =
    refused_answer listed (some (close disconnects s clients).0) _ c _
      (handle_error-close disconnects s clients)
call-close driver disconnects s clients now (requeues lease) c =
    elim (Bool-cases (ltb_ℤ lease (pos 0))) [
      | inl low ↦ rw low refl
      | inr high ↦ rw high (
          refused_answer counted (some (close disconnects s clients).0) _ c _
            (handle_error-close disconnects s clients))
    ]

-- After a setup that reports no error, the methods reach the collection.
pub handle_error-setup :
    (driver : Driver) (dialed : Option ℕ) (pings : Bool) (ctx : Option ContextError)
    (s : MongoJobStore) (clients : List ℕ) (c : driver.Collection)
    → let (ready, connected, c', e) = setup driver dialed pings ctx s clients c in
      e ≡ none → handle_error (some ready) ≡ none
unfolding setup handle_error setup_connection
handle_error-setup driver dialed pings ctx s clients c = setup_at dialed pings s.conn
  where
    setup_at :
        (dialed : Option ℕ) (pings : Bool) (conn : Option Connection)
        → let (ready, connected, c', e) =
            setup driver dialed pings ctx (record s { conn = conn }) clients c in
          e ≡ none → handle_error (some ready) ≡ none
    setup_at none pings none e = absurd (ground arith)
    setup_at none pings (some conn) e = absurd (ground arith)
    setup_at (some client) pings none e = absurd (ground arith)
    setup_at (some client) true (some conn) e = refl
    setup_at (some client) false (some conn) e = absurd (ground arith)
