-- ===== src/MemoryStore/History.antt =====
-- Histories of calls on the in-memory store of backend/memory.go.
use gokue.Prelude.{Option, none, some, List, [], ◌∷◌}
use gokue.Prelude.Int.{ℤ}
use gokue.Prelude.Bytes.{Bytes}
use gokue.Job.{ContextError}
use gokue.Record.{JobRecord}
use gokue.RecordMap.{lookup}
use gokue.MemoryStore.{
  MemoryStore, new_memory_store, save, claim, update, delete, requeue_stale, close,
}
use gokue.MemoryStore.Validity.{
  IsValid, save-IsValid, claim-IsValid, update-IsValid, delete-IsValid, requeue_stale-IsValid,
}

-- The methods that change the store. `Get` and `List` do not.
pub data Call : Type 0 where
  saves updates : Option ContextError → JobRecord → Call
  claims : Option ContextError → (now : ℤ) → Call
  deletes : Option ContextError → Bytes → Call
  requeues : Option ContextError → (now lease : ℤ) → Call
  closes : Option ContextError → Call

unfoldable pub step : Call → MemoryStore → MemoryStore
step (saves ctx rec) s = (save ctx rec s).0
step (updates ctx rec) s = (update ctx rec s).0
step (claims ctx now) s = (claim ctx now s).0
step (deletes ctx id) s = (delete ctx id s).0
step (requeues ctx now lease) s = (requeue_stale ctx now lease s).0
step (closes ctx) s = (close ctx s).0

unfoldable pub history : List Call → MemoryStore → MemoryStore
unfolding step
history [] s = s
history (c ∷ cs) s = history cs (step c s)

pub step-IsValid : (c : Call) (s : MemoryStore) → IsValid s.records → IsValid (step c s).records
unfolding step close
step-IsValid (saves ctx rec) s v = save-IsValid ctx rec s v
step-IsValid (updates ctx rec) s v = update-IsValid ctx rec s v
step-IsValid (claims ctx now) s v = claim-IsValid ctx now s v
step-IsValid (deletes ctx id) s v = delete-IsValid ctx id s v
step-IsValid (requeues ctx now lease) s v = requeue_stale-IsValid ctx now lease s v
step-IsValid (closes none) s v = v
step-IsValid (closes (some e)) s v = v

history_from-IsValid :
    (cs : List Call) (s : MemoryStore) → IsValid s.records → IsValid (history cs s).records
unfolding history
history_from-IsValid [] s v = v
history_from-IsValid (c ∷ cs) s v = history_from-IsValid cs (step c s) (step-IsValid c s v)

-- After any history of calls on a new store, in any order and with any contexts and clocks, no ID
-- stands twice in the map and every record stands under its own ID.
pub history-IsValid : (cs : List Call) → IsValid (history cs new_memory_store).records
unfolding lookup
history-IsValid cs =
    history_from-IsValid cs new_memory_store (record { distinct = tt; keyed = λ k r e. cc })
