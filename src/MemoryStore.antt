-- ===== src/MemoryStore.antt =====
-- backend/memory.go: the in-memory job store. Every method runs in one critical section, so it is a
-- function of the store; the error of its context and the clock are arguments.
pub mod Validity
pub mod Choice
pub mod History
pub mod Claiming
pub mod Versions
pub mod Listing
pub mod Requeue
pub mod Closing
pub mod Members
pub mod Refinement
use gokue.Prelude.{
  ℕ, zero, suc, ◌+◌, String, ◌=?◌, Bool, true, false, not, ◌&&◌, ◌||◌, Option, none, some, List, [],
  ◌∷◌, if◌then◌else◌, take, length, ltb,
}
use gokue.Prelude.Int.{ℤ, pos, pos_part, ltb_ℤ, eqb_ℤ, ◌+ℤ◌, ◌-ℤ◌, int64, uint64}
use gokue.Prelude.Bytes.{Bytes, bytes_lt}
use gokue.Job.{ContextError}
use gokue.Record.{
  status_pending, status_running, JobRecord, ListFilter, not_found, already_exists, conflict,
  store_closed, lease_negative, ctx_err, Result, ok, err, clone_record, earlier,
}
use gokue.RecordMap.{lookup, insert, erase, map_values}

abbrev pub Records : Type 0
Records = List (Bytes × JobRecord)

pub record MemoryStore : Type 0 where
  pub records : Records
  pub closed : Bool

abbrev pub new_memory_store : MemoryStore
new_memory_store = record { records = []; closed = false }

-- The checks that every method begins with: the context, then, under the lock, `closed`.
unfoldable pub guarded {ℓ} :
    {A : Type ℓ}
    → Option ContextError
    → MemoryStore
    → MemoryStore × Result A
    → MemoryStore × Result A
guarded none s body = if s.closed then (s, err store_closed) else body
guarded (some e) s body = (s, err (ctx_err e))

-- The status and the version that `Save` fills in.
unfoldable pub with_defaults : JobRecord → JobRecord
with_defaults rec =
    let r = if rec.status =? "" then record rec { status = status_pending } else rec in
    if eqb_ℤ r.version (pos 0) then record r { version = pos 1 } else r

unfoldable pub save :
    Option ContextError → JobRecord → MemoryStore → MemoryStore × Result (Unit {0})
unfolding guarded
save ctx rec s = guarded ctx s (elim (lookup rec.id s.records) [
  | some old ↦ (s, err already_exists)
  | none ↦
      (record s { records = insert rec.id (clone_record (with_defaults rec)) s.records }, ok tt)
])

unfoldable pub get : Option ContextError → Bytes → MemoryStore → MemoryStore × Result JobRecord
unfolding guarded
get ctx id s = guarded ctx s (elim (lookup id s.records) [
  | none ↦ (s, err not_found)
  | some rec ↦ (s, ok (clone_record rec))
])

-- The body of the loop of `Claim`. The keys that it compares are those of the map.
abbrev pub precedes : Bytes × JobRecord → Bytes × JobRecord → Bool
precedes (id, rec) (chosen, chosen_rec) =
    ltb_ℤ rec.created_at chosen_rec.created_at
    || (eqb_ℤ rec.created_at chosen_rec.created_at && bytes_lt id chosen)

unfoldable pub consider :
    Bytes × JobRecord → Option (Bytes × JobRecord) → Option (Bytes × JobRecord)
consider (id, rec) none = if rec.status =? status_pending then some (id, rec) else none
consider (id, rec) (some best) =
    if rec.status =? status_pending && precedes (id, rec) best then some (id, rec) else some best

unfoldable pub choose : Option (Bytes × JobRecord) → Records → Option (Bytes × JobRecord)
unfolding consider
choose best [] = best
choose best (entry ∷ m) = choose (consider entry best) m

-- The fields that `Claim` changes.
unfoldable pub claimed : ℤ → JobRecord → JobRecord
claimed now rec = record rec {
  status = status_running;
  started_at = some now;
  attempts = uint64 (rec.attempts + 1);
  version = int64 (rec.version +ℤ pos 1);
}

-- What `Claim` does after its loop.
unfoldable pub claim_found :
    ℤ → MemoryStore → Option (Bytes × JobRecord) → MemoryStore × Result JobRecord
unfolding claimed
claim_found now s none = (s, err not_found)
claim_found now s (some (id, rec)) = (
  record s { records = insert id (clone_record (claimed now rec)) s.records },
  ok (clone_record (claimed now rec)),
)

unfoldable pub claim : Option ContextError → ℤ → MemoryStore → MemoryStore × Result JobRecord
unfolding guarded choose claim_found
claim ctx now s = guarded ctx s (claim_found now s (choose none s.records))

unfoldable pub replaced : JobRecord → JobRecord → JobRecord
replaced stored rec = clone_record (record rec { version = int64 (stored.version +ℤ pos 1) })

unfoldable pub update :
    Option ContextError → JobRecord → MemoryStore → MemoryStore × Result (Unit {0})
unfolding guarded replaced
update ctx rec s = guarded ctx s (elim (lookup rec.id s.records) [
  | none ↦ (s, err not_found)
  | some stored ↦
      if eqb_ℤ stored.version rec.version
      then (record s { records = insert rec.id (replaced stored rec) s.records }, ok tt)
      else (s, err conflict)
])

unfoldable pub delete : Option ContextError → Bytes → MemoryStore → MemoryStore × Result (Unit {0})
unfolding guarded
delete ctx id s = guarded ctx s (elim (lookup id s.records) [
  | none ↦ (s, err not_found)
  | some rec ↦ (record s { records = erase id s.records }, ok tt)
])

-- The loop of `List`.
abbrev pub matches : Option String → JobRecord → Bool
matches none rec = true
matches (some status) rec = rec.status =? status

unfoldable pub matching : Option String → Records → List JobRecord
matching status [] = []
matching status ((id, rec) ∷ m) =
    let rest = matching status m in if matches status rec then clone_record rec ∷ rest else rest

-- `sort.Slice` with the comparison of `List`; the IDs differ, so every sorting gives this list.
unfoldable pub insert_sorted : JobRecord → List JobRecord → List JobRecord
insert_sorted a [] = a ∷ []
insert_sorted a (b ∷ l) = if earlier b a then b ∷ insert_sorted a l else a ∷ b ∷ l

unfoldable pub sort_records : List JobRecord → List JobRecord
unfolding insert_sorted
sort_records [] = []
sort_records (a ∷ l) = insert_sorted a (sort_records l)

-- `if f.Limit > 0 && int64(len(out)) > f.Limit`
unfoldable pub limited : ℤ → List JobRecord → List JobRecord
limited limit out =
    if ltb_ℤ (pos 0) limit && ltb (pos_part limit) (length out)
    then take (pos_part limit) out
    else out

unfoldable pub list :
    Option ContextError → ListFilter → MemoryStore → MemoryStore × Result (List JobRecord)
unfolding guarded matching sort_records limited
list ctx f s = guarded ctx s (s, ok (limited f.limit (sort_records (matching f.status s.records))))

-- `rec.StartedAt.After(cutoff)` of a pointer, where nil counts as running too.
abbrev started_after : ℤ → Option ℤ → Bool
started_after cutoff none = true
started_after cutoff (some t) = ltb_ℤ cutoff t

unfoldable pub is_stale : ℤ → JobRecord → Bool
is_stale cutoff rec = (rec.status =? status_running) && not (started_after cutoff rec.started_at)

-- The body of the loop of `RequeueStale`.
unfoldable pub requeued : ℤ → JobRecord → JobRecord
unfolding is_stale
requeued cutoff rec =
    if is_stale cutoff rec
    then record rec {
      status = status_pending;
      started_at = none;
      version = int64 (rec.version +ℤ pos 1);
    }
    else rec

unfoldable pub count_stale : ℤ → Records → ℕ
unfolding is_stale
count_stale cutoff [] = 0
count_stale cutoff ((id, rec) ∷ m) =
    let rest = count_stale cutoff m in if is_stale cutoff rec then suc rest else rest

unfoldable pub requeue_stale : Option ContextError → ℤ → ℤ → MemoryStore → MemoryStore × Result ℕ
unfolding guarded requeued count_stale
requeue_stale (some e) now lease s = (s, err (ctx_err e))
requeue_stale none now lease s =
    if ltb_ℤ lease (pos 0)
    then (s, err lease_negative)
    else let cutoff = now -ℤ lease in
      guarded none s (
        record s { records = map_values (requeued cutoff) s.records },
        ok (count_stale cutoff s.records),
      )

-- Unlike the others, `Close` is not refused by a closed store.
unfoldable pub close : Option ContextError → MemoryStore → MemoryStore × Result (Unit {0})
close none s = (record s { closed = true }, ok tt)
close (some e) s = (s, err (ctx_err e))
