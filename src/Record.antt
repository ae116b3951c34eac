-- ===== src/Record.antt =====
-- backend/backend.go: the records of a job store, their statuses and the errors of its operations,
-- and `cloneRecord` of backend/memory.go. A time is in nanoseconds since the zero `time.Time`; a
-- pointer to a time is the time it points to, or nil.
use gokue.Prelude.{
  All, List, false, ℕ, String, Option, none, some, [], ◌∷◌, Bool, ◌||◌, ◌&&◌, ◌≡◌, refl, ap,
}
use gokue.Prelude.Int.{ℤ, ltb_ℤ, eqb_ℤ}
use gokue.Prelude.Bytes.{Bytes, bytes_lt}
use gokue.Job.{ContextError}

abbrev pub status_pending : String
status_pending = "pending"

abbrev pub status_running : String
status_running = "running"

abbrev pub status_succeeded : String
status_succeeded = "succeeded"

abbrev pub status_failed : String
status_failed = "failed"

-- `payload` is `none` for a nil slice.
pub record JobRecord : Type 0 where
  pub id : Bytes
  pub name : String
  pub payload : Option Bytes
  pub attempts : ℕ
  pub status : String
  pub version : ℤ
  pub created_at : ℤ
  pub started_at : Option ℤ
  pub finished_at : Option ℤ

pub record ListFilter : Type 0 where
  pub status : Option String
  pub limit : ℤ

pub data StoreError : Type 0 where
  not_found already_exists conflict store_closed nil_store not_connected : StoreError
  lease_negative : StoreError
  ctx_err : ContextError → StoreError
  driver_failed : (action : String) → StoreError

pub data Result {ℓ} (A : Type ℓ) : Type ℓ where
  ok : A → Result A
  err : StoreError → Result A

-- `append([]byte(nil), b...)`: the copy of an empty slice is nil.
abbrev pub clone_bytes : Option Bytes → Option Bytes
clone_bytes none = none
clone_bytes (some []) = none
clone_bytes (some (b ∷ bs)) = some (b ∷ bs)

unfoldable pub clone_record : JobRecord → JobRecord
clone_record rec = record rec { payload = clone_bytes rec.payload }

clone_bytes_twice : (o : Option Bytes) → clone_bytes (clone_bytes o) ≡ clone_bytes o
clone_bytes_twice none = refl
clone_bytes_twice (some []) = refl
clone_bytes_twice (some (b ∷ bs)) = refl

pub clone-clone : (rec : JobRecord) → clone_record (clone_record rec) ≡ clone_record rec
unfolding clone_record
clone-clone rec = ap (λ p. record rec { payload = p }) (clone_bytes_twice rec.payload)

-- Ordered by creation time, then by ID: the comparison of `Claim` and of `List`.
unfoldable pub earlier : JobRecord → JobRecord → Bool
earlier a b =
    ltb_ℤ a.created_at b.created_at || (eqb_ℤ a.created_at b.created_at && bytes_lt a.id b.id)

-- No record stands after one that is earlier.
abbrev pub Sorted : List JobRecord → Type 0
Sorted [] = Unit
Sorted (a ∷ l) = All (λ b. earlier b a ≡ false) l × Sorted l
