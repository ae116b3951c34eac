-- ===== src/Mongo/Requests.antt =====
-- What the methods of backend/mongodb/store.go send to the driver, and what they make of its replies.
use gokue.Prelude.{ℕ, String, ◌=?◌, ◌==◌, Option, none, some, List, map, if◌then◌else◌}
use gokue.Prelude.Int.{ℤ, pos, eqb_ℤ}
use gokue.Record.{
  status_pending, status_running, JobRecord, Result, ok, err, not_found, already_exists,
  driver_failed,
}
use gokue.Mongo.Driver.{
  Document, from_document, Changes, no_changes, Reply, replied, no_documents, duplicate_key,
  driver_error,
}

-- The lines of `Save` before its insertion.
unfoldable pub with_defaults : JobRecord → JobRecord
with_defaults rec =
    let r = if rec.status =? "" then record rec { status = status_pending } else rec in
    if eqb_ℤ r.version (pos 0) then record r { version = pos 1 } else r

-- A reply whose every error is wrapped by `fmt.Errorf`.
unfoldable pub wrapped {ℓ κ} :
    {A : Type ℓ} {B : Type κ} → String → (A → Result B) → Reply A → Result B
wrapped action f (replied a) = f a
wrapped action f no_documents = err (driver_failed action)
wrapped action f duplicate_key = err (driver_failed action)
wrapped action f driver_error = err (driver_failed action)

-- The reply of `InsertOne` in `Save`.
unfoldable pub inserted : Reply (Unit {0}) → Result (Unit {0})
inserted (replied u) = ok tt
inserted duplicate_key = err already_exists
inserted no_documents = err (driver_failed "insert job record")
inserted driver_error = err (driver_failed "insert job record")

-- The reply of `FindOne` in `Get` and of `FindOneAndUpdate` in `Claim`.
unfoldable pub decoded : String → Reply Document → Result JobRecord
unfolding from_document
decoded action (replied doc) = ok (from_document doc)
decoded action no_documents = err not_found
decoded action duplicate_key = err (driver_failed action)
decoded action driver_error = err (driver_failed action)

-- The reply of `DeleteOne` in `Delete`.
unfoldable pub deleted : Reply ℕ → Result (Unit {0})
unfolding wrapped
deleted = wrapped "delete job record" (λ n. if n == 0 then err not_found else ok tt)

-- The reply of `Find` and `All` in `List`.
unfoldable pub listed_documents : Option (List Document) → Result (List JobRecord)
unfolding from_document
listed_documents none = err (driver_failed "decode job records")
listed_documents (some docs) = ok (map from_document docs)

-- The update of `Claim`, of `Update` and of `RequeueStale`.
unfoldable pub claim_changes : ℤ → Changes
claim_changes now = record no_changes {
  status = some status_running;
  started_at = some (some now);
  inc_version = 1;
  inc_attempts = 1;
}

unfoldable pub update_changes : JobRecord → Changes
update_changes rec = record {
  name = some rec.name;
  payload = some rec.payload;
  attempts = some rec.attempts;
  status = some rec.status;
  started_at = some rec.started_at;
  finished_at = some rec.finished_at;
  inc_version = 1;
  inc_attempts = 0;
}

unfoldable pub requeue_changes : Changes
requeue_changes = record no_changes {
  status = some status_pending;
  started_at = some none;
  inc_version = 1;
}
