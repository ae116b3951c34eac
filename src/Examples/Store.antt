-- ===== src/Examples/Store.antt =====
-- The theorems on the in-memory store at concrete inputs.
use mathlib.Core.Path.{subst}
use mathlib.Core.Option
use gokue.MemoryStore.Requeue.{expired, count_expired}
use gokue.JobStore.{back_to_pending}
use gokue.Prelude.{if◌then◌else◌, ◌≡◌, refl, false, none, some, List, [], ◌∷◌, arith, if◌then◌else◌}
use gokue.Prelude.Int.{pos, int64, ◌+ℤ◌, ◌-ℤ◌}
use gokue.Prelude.Bytes.{Bytes, bytes_eq, bytes_eq_iff}
use gokue.Record.{
  status_pending, status_running, JobRecord, ListFilter, ok, err, conflict, clone_record,
}
use gokue.RecordMap.{lookup, insert, Distinct}
use gokue.MemoryStore.{
  MemoryStore, new_memory_store, with_defaults, save, get, claim, update, list, requeue_stale,
}
use gokue.MemoryStore.Validity.{IsValid}
use gokue.MemoryStore.{close}
use gokue.Record.{store_closed}
use gokue.MemoryStore.Closing.{close_final}
use gokue.MemoryStore.History.{saves, Call, history, history-IsValid}
use gokue.MemoryStore.Claiming.{Claims, claim_oldest, claim_order_irrelevant}
use gokue.MemoryStore.Versions.{no_lost_update}
use gokue.MemoryStore.Requeue.{requeue_stale_once}

abbrev pub older : JobRecord
older = record {
  id = 1 ∷ [];
  name = "older";
  payload = some (9 ∷ []);
  attempts = 0;
  status = "";
  version = pos 0;
  created_at = pos 10;
  started_at = none;
  finished_at = none;
}

abbrev newer : JobRecord
newer = record older { id = 2 ∷ []; name = "newer"; created_at = pos 20 }

abbrev calls : List Call
calls = saves none newer ∷ saves none older ∷ []

abbrev pub two : MemoryStore
two = record {
  records = (2 ∷ [], with_defaults newer) ∷ (1 ∷ [], with_defaults older) ∷ [];
  closed = false;
}

abbrev swapped : MemoryStore
swapped = record {
  records = (1 ∷ [], with_defaults older) ∷ (2 ∷ [], with_defaults newer) ∷ [];
  closed = false;
}

two-history : history calls new_memory_store ≡ two
unfolding history save with_defaults clone_record lookup insert bytes_eq
two-history = refl

pub two-IsValid : IsValid two.records
two-IsValid = subst (λ s. IsValid s.records) two-history (history-IsValid calls)

claim_oldest_example : Claims (pos 50) two (claim none (pos 50) two)
claim_oldest_example = claim_oldest (pos 50) two refl two-IsValid.distinct

same_content : (j : Bytes) → lookup j two.records ≡ lookup j swapped.records
unfolding lookup
same_content j = ground (arith, bytes_eq_iff (2 ∷ []) j, bytes_eq_iff (1 ∷ []) j)

swapped-Distinct : Distinct swapped.records
unfolding lookup bytes_eq
swapped-Distinct = (refl, (refl, tt))

claim_order_irrelevant_example : (claim none (pos 50) two).1 ≡ (claim none (pos 50) swapped).1
claim_order_irrelevant_example =
    claim_order_irrelevant (pos 50) two swapped refl refl two-IsValid.distinct swapped-Distinct
      same_content

abbrev pub taken : JobRecord
taken = record older {
  status = status_running;
  version = pos 2;
  attempts = 1;
  started_at = some (pos 50);
}

abbrev pub taken_later : JobRecord
taken_later = record newer {
  status = status_running;
  version = pos 2;
  attempts = 1;
  started_at = some (pos 60);
}

abbrev pub one_taken : MemoryStore
one_taken = record {
  records = (2 ∷ [], with_defaults newer) ∷ (1 ∷ [], taken) ∷ [];
  closed = false;
}

abbrev pub both_taken : MemoryStore
both_taken = record { records = (2 ∷ [], taken_later) ∷ (1 ∷ [], taken) ∷ []; closed = false }

pub first_claim : claim none (pos 50) two ≡ (one_taken, ok taken)
unfolding claim with_defaults clone_record insert bytes_eq int64 ◌+ℤ◌
first_claim = refl

pub second_claim : claim none (pos 60) one_taken ≡ (both_taken, ok taken_later)
unfolding claim with_defaults clone_record insert bytes_eq int64 ◌+ℤ◌
second_claim = refl

abbrev pub finished : JobRecord
finished = record taken { finished_at = some (pos 70) }

abbrev pub updated : MemoryStore
updated = record one_taken {
  records = (2 ∷ [], with_defaults newer) ∷ (1 ∷ [], record finished { version = pos 3 }) ∷ [];
}

pub first_update : update none finished one_taken ≡ (updated, ok tt)
unfolding update clone_record lookup insert bytes_eq int64 ◌+ℤ◌
first_update = refl

no_lost_update_example : update none taken updated ≡ (updated, err conflict)
no_lost_update_example = no_lost_update finished taken one_taken updated refl first_update refl refl

abbrev oldest_pending : ListFilter
oldest_pending = record { status = some status_pending; limit = pos 1 }

requeue_stale_once_example :
    (t : MemoryStore) × (requeue_stale none (pos 90) (pos 30) one_taken
      ≡ (t, ok (count_expired (pos 90 -ℤ pos 30) one_taken.records)))
    × ((id : Bytes)
        → lookup id t.records
          ≡ Option.map
              (λ r. if expired (pos 90 -ℤ pos 30) r then back_to_pending r else r)
              (lookup id one_taken.records))
    × (requeue_stale none (pos 90) (pos 30) t ≡ (t, ok 0))
requeue_stale_once_example = requeue_stale_once (pos 90) (pos 30) one_taken refl refl

close_final_example :
    (history calls (close none (history [] new_memory_store)).0
      ≡ (close none (history [] new_memory_store)).0)
    × ((get none (1 ∷ []) (history calls (close none (history [] new_memory_store)).0)).1
        ≡ err store_closed)
    × ((claim none (pos 5) (history calls (close none (history [] new_memory_store)).0)).1
        ≡ err store_closed)
    × ((list none oldest_pending (history calls (close none (history [] new_memory_store)).0)).1
        ≡ err store_closed)
close_final_example = close_final [] calls new_memory_store (1 ∷ []) (pos 5) oldest_pending
