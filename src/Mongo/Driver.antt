-- ===== src/Mongo/Driver.antt =====
-- What backend/mongodb uses of the MongoDB driver: the documents, filters and updates that it builds,
-- and the operations on a collection, which are parameters.
use gokue.Prelude.{ℕ, String, Option, none, List}
use gokue.Prelude.Int.{ℤ}
use gokue.Prelude.Bytes.{Bytes}
use gokue.Job.{ContextError}
use gokue.Record.{JobRecord}

-- `jobDocument`
pub record Document : Type 0 where
  pub id : Bytes
  pub name : String
  pub payload : Option Bytes
  pub attempts : ℕ
  pub status : String
  pub version : ℤ
  pub created_at : ℤ
  pub started_at : Option ℤ
  pub finished_at : Option ℤ

unfoldable pub to_document : JobRecord → Document
to_document rec = record {
  id = rec.id;
  name = rec.name;
  payload = rec.payload;
  attempts = rec.attempts;
  status = rec.status;
  version = rec.version;
  created_at = rec.created_at;
  started_at = rec.started_at;
  finished_at = rec.finished_at;
}

unfoldable pub from_document : Document → JobRecord
from_document doc = record {
  id = doc.id;
  name = doc.name;
  payload = doc.payload;
  attempts = doc.attempts;
  status = doc.status;
  version = doc.version;
  created_at = doc.created_at;
  started_at = doc.started_at;
  finished_at = doc.finished_at;
}

-- A filter `bson.M` by the keys that the store uses, `none` for an absent one; `started_before` is
-- `started_at: {$lt: …}`.
pub record Filter : Type 0 where
  pub id : Option Bytes
  pub version : Option ℤ
  pub status : Option String
  pub started_before : Option ℤ

abbrev pub no_filter : Filter
no_filter = record { id = none; version = none; status = none; started_before = none }

-- An update: the fields under `$set`, `none` for an absent one, and the increments under `$inc`.
pub record Changes : Type 0 where
  pub name : Option String
  pub payload : Option (Option Bytes)
  pub attempts : Option ℕ
  pub status : Option String
  pub started_at : Option (Option ℤ)
  pub finished_at : Option (Option ℤ)
  pub inc_version : ℕ
  pub inc_attempts : ℕ

abbrev pub no_changes : Changes
no_changes = record {
  name = none;
  payload = none;
  attempts = none;
  status = none;
  started_at = none;
  finished_at = none;
  inc_version = 0;
  inc_attempts = 0;
}

pub data Order : Type 0 where
  by_created_at by_created_at_and_id : Order

-- What an operation returns: a value or an error, of which the store tells two kinds apart.
pub data Reply {ℓ} (A : Type ℓ) : Type ℓ where
  replied : A → Reply A
  no_documents duplicate_key driver_error : Reply A

-- The operations on a collection. `update_one` answers the matched count, `delete_one` the deleted
-- and `update_many` the modified one; `find` includes `All`, whose error is the inner `none`;
-- `find_one_and_update` returns the document after the update.
pub record Driver : Type 1 where
  pub Collection : Type 0
  pub create_index : Option ContextError → Collection → Collection × Reply (Unit {0})
  pub insert_one : Option ContextError → Document → Collection → Collection × Reply (Unit {0})
  pub find_one : Option ContextError → Filter → Collection → Reply Document
  pub find_one_and_update :
      Option ContextError → Filter → Changes → Order → Collection → Collection × Reply Document
  pub update_one : Option ContextError → Filter → Changes → Collection → Collection × Reply ℕ
  pub delete_one : Option ContextError → Filter → Collection → Collection × Reply ℕ
  pub find :
      Option ContextError
      → Filter
      → Order
      → (limit : Option ℤ) → Collection
      → Reply (Option (List Document))
  pub update_many : Option ContextError → Filter → Changes → Collection → Collection × Reply ℕ
  pub count_documents : Option ContextError → Filter → (limit : ℤ) → Collection → Reply ℕ
