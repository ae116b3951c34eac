-- ===== src/JobStore.antt =====
-- The interface `JobStore` of backend/backend.go: what both stores keep of the promises of its
-- comments, on a view of the store as a function from IDs to records, for every store and every way
-- to keep payloads and times. Left open are the reason of a refusal, how often a listed record
-- appears, the number of records that `RequeueStale` reverts (but whether it is zero), and what
-- the two stores do differently: the creation time that `Update` writes, and a record that started
-- exactly at the cutoff.
pub mod Clients
use mathlib.Core.Option
use mathlib.Core.List.{Mem}
use gokue.Prelude.{
  ℕ, ◌+◌, String, ◌=?◌, Bool, true, false, Option, none, some, List, [], ◌∷◌, ◌≡◌, ◌≢◌, ◌↔◌,
  if◌then◌else◌, All, take,
}
use gokue.Prelude.Int.{ℤ, pos, pos_part, ltb_ℤ, eqb_ℤ, ◌+ℤ◌, ◌-ℤ◌, ◌≤ℤ◌, ◌<ℤ◌, int64, uint64}
use gokue.Prelude.Bytes.{Bytes, bytes_eq}
use gokue.Job.{ContextError}
use gokue.Record.{
  status_pending, status_running, JobRecord, ListFilter, StoreError, not_found, already_exists,
  conflict, store_closed, nil_store, not_connected, lease_negative, ctx_err, Sorted, Result, ok,
  err,
}

-- A call of one of the methods but `Close`, and what it returns.
pub data Request : Type 0 where
  saves updates : JobRecord → Request
  gets deletes : Bytes → Request
  claims : Request
  lists : ListFilter → Request
  requeues : (lease : ℤ) → Request

pub data Answer : Type 0 where
  done : Answer
  found : JobRecord → Answer
  listed : List JobRecord → Answer
  counted : ℕ → Answer
  failed : StoreError → Answer

-- A method's result as an answer.
abbrev pub answers {ℓ κ} : {S : Type κ} {A : Type ℓ} → (A → Answer) → S × Result A → S × Answer
answers f (s, ok a) = (s, f a)
answers f (s, err e) = (s, failed e)

abbrev pub View : Type 0
View = Bytes → Option JobRecord

module _ {ℓ} {V : Type ℓ} where
  abbrev pub put : Bytes → V → (Bytes → Option V) → Bytes → Option V
  put k r m j = if bytes_eq k j then some r else m j

  abbrev pub remove : Bytes → (Bytes → Option V) → Bytes → Option V
  remove k m j = if bytes_eq k j then none else m j

  abbrev pub Same : (Bytes → Option V) → (Bytes → Option V) → Type ℓ
  Same m n = (j : Bytes) → m j ≡ n j

-- How a store keeps payloads and times.
pub record Keeping : Type 0 where
  pub payload : Option Bytes → Option Bytes
  pub time : ℤ → ℤ

abbrev pub is_pending : JobRecord → Bool
is_pending r = r.status =? status_pending

abbrev pub has_status : Option String → JobRecord → Bool
has_status none r = true
has_status (some status) r = r.status =? status

module _ (keep : Keeping) where
  -- `x` is what `Save` keeps of `rec`.
  pub record IsSaved (rec x : JobRecord) : Type 0 where
    pub id : x.id ≡ rec.id
    pub name : x.name ≡ rec.name
    pub payload : x.payload ≡ keep.payload rec.payload
    pub attempts : x.attempts ≡ rec.attempts
    pub status : x.status ≡ (if rec.status =? "" then status_pending else rec.status)
    pub version : x.version ≡ (if eqb_ℤ rec.version (pos 0) then pos 1 else rec.version)
    pub created_at : x.created_at ≡ keep.time rec.created_at
    pub started_at : x.started_at ≡ Option.map keep.time rec.started_at
    pub finished_at : x.finished_at ≡ Option.map keep.time rec.finished_at

  -- `x` is what `Claim` makes of the stored record `r`.
  pub record IsClaimed (now : ℤ) (r x : JobRecord) : Type 0 where
    pub id : x.id ≡ r.id
    pub name : x.name ≡ r.name
    pub payload : x.payload ≡ keep.payload r.payload
    pub attempts : x.attempts ≡ uint64 (r.attempts + 1)
    pub status : x.status ≡ status_running
    pub version : x.version ≡ int64 (r.version +ℤ pos 1)
    pub created_at : x.created_at ≡ r.created_at
    pub started_at : x.started_at ≡ some (keep.time now)
    pub finished_at : x.finished_at ≡ r.finished_at

  -- `x` is what `Update` makes of the stored record `old`, given `rec`. What becomes of a creation
  -- time that is not the stored one is left open.
  pub record IsUpdated (old rec x : JobRecord) : Type 0 where
    pub id : x.id ≡ rec.id
    pub name : x.name ≡ rec.name
    pub payload : x.payload ≡ keep.payload rec.payload
    pub attempts : x.attempts ≡ rec.attempts
    pub status : x.status ≡ rec.status
    pub version : x.version ≡ int64 (rec.version +ℤ pos 1)
    pub created_at : rec.created_at ≡ old.created_at → x.created_at ≡ old.created_at
    pub started_at : x.started_at ≡ Option.map keep.time rec.started_at
    pub finished_at : x.finished_at ≡ Option.map keep.time rec.finished_at

  -- What a caller of `Get` and `List` sees of a stored record.
  abbrev pub shown : JobRecord → JobRecord
  shown r = record r { payload = keep.payload r.payload }

-- No pending record was created before `r`.
abbrev pub IsOldest : View → JobRecord → Type 0
IsOldest m r =
    (j : Bytes) (q : JobRecord) → m j ≡ some q → is_pending q ≡ true → r.created_at ≤ℤ q.created_at

abbrev pub back_to_pending : JobRecord → JobRecord
back_to_pending r = record r {
  status = status_pending;
  started_at = none;
  version = int64 (r.version +ℤ pos 1);
}

-- The records that `RequeueStale` reverts: running ones that started at the cutoff at the latest,
-- and all that started before it, as far as the store keeps the cutoff.
pub record PicksStale (keep : Keeping) (cutoff : ℤ) (picks : JobRecord → Bool) : Type 0 where
  pub only :
      (r : JobRecord)
      → picks r ≡ true
      → (r.status ≡ status_running) × ((t : ℤ) × (r.started_at ≡ some t) × (t ≤ℤ cutoff))
  pub all :
      (r : JobRecord) (t : ℤ)
      → r.status ≡ status_running
      → r.started_at ≡ some t
      → t <ℤ keep.time cutoff
      → picks r ≡ true

-- The errors of a store that cannot be used.
pub data IsUnavailable : StoreError → Type 0 where
  when_closed : IsUnavailable store_closed
  when_nil : IsUnavailable nil_store
  when_unconnected : IsUnavailable not_connected
  when_cancelled : (e : ContextError) → IsUnavailable (ctx_err e)

-- The calls that take a store with the view `m` to the view `n`, and their answers.
pub data Allowed (keep : Keeping) (now : ℤ) (m n : View) : Request → Answer → Type 0 where
  save_new :
      (rec x : JobRecord)
      → m rec.id ≡ none
      → IsSaved keep rec x
      → Same n (put rec.id x m)
      → Allowed keep now m n (saves rec) done
  save_taken :
      (rec old : JobRecord)
      → m rec.id ≡ some old
      → Same n m
      → Allowed keep now m n (saves rec) (failed already_exists)
  get_found :
      (id : Bytes) (r : JobRecord)
      → m id ≡ some r
      → Same n m
      → Allowed keep now m n (gets id) (found (shown keep r))
  get_missing :
      (id : Bytes) → m id ≡ none → Same n m → Allowed keep now m n (gets id) (failed not_found)
  claim_oldest :
      (k : Bytes) (r x : JobRecord)
      → m k ≡ some r
      → is_pending r ≡ true
      → IsOldest m r
      → IsClaimed keep now r x
      → Same n (put k x m)
      → Allowed keep now m n claims (found x)
  claim_none :
      ((j : Bytes) (q : JobRecord) → m j ≡ some q → is_pending q ≡ false)
      → Same n m
      → Allowed keep now m n claims (failed not_found)
  update_done :
      (rec old x : JobRecord)
      → m rec.id ≡ some old
      → old.version ≡ rec.version
      → IsUpdated keep old rec x
      → Same n (put rec.id x m)
      → Allowed keep now m n (updates rec) done
  update_missing :
      (rec : JobRecord)
      → m rec.id ≡ none
      → Same n m
      → Allowed keep now m n (updates rec) (failed not_found)
  update_conflict :
      (rec old : JobRecord)
      → m rec.id ≡ some old
      → old.version ≢ rec.version
      → Same n m
      → Allowed keep now m n (updates rec) (failed conflict)
  delete_done :
      (id : Bytes) (old : JobRecord)
      → m id ≡ some old
      → Same n (remove id m)
      → Allowed keep now m n (deletes id) done
  delete_missing :
      (id : Bytes) → m id ≡ none → Same n m → Allowed keep now m n (deletes id) (failed not_found)
  list_done :
      (f : ListFilter) (all : List JobRecord)
      → Sorted all
      → ((k : Bytes) (r : JobRecord)
          → m k ≡ some r
          → has_status f.status r ≡ true
          → Mem (shown keep r) all)
      → ((x : JobRecord)
          → Mem x all
          → ∥ (
              (k : Bytes) × (r : JobRecord) × (m k ≡ some r)
              × (has_status f.status r ≡ true)
              × (x ≡ shown keep r)) ∥₁)
      → Same n m
      → Allowed keep now m n
          (lists f)
          (listed (if ltb_ℤ (pos 0) f.limit then take (pos_part f.limit) all else all))
  requeue_done :
      (lease : ℤ) (count : ℕ) (picks : JobRecord → Bool)
      → ltb_ℤ lease (pos 0) ≡ false
      → PicksStale keep (now -ℤ lease) picks
      → ((j : Bytes) → n j ≡ Option.map (λ r. if picks r then back_to_pending r else r) (m j))
      → (count ≡ 0) ↔ ((j : Bytes) (r : JobRecord) → m j ≡ some r → picks r ≡ false)
      → Allowed keep now m n (requeues lease) (counted count)
  lease_refused :
      (lease : ℤ)
      → ltb_ℤ lease (pos 0) ≡ true
      → Same n m
      → Allowed keep now m n (requeues lease) (failed lease_negative)
  unavailable :
      (request : Request) (e : StoreError)
      → IsUnavailable e
      → Same n m
      → Allowed keep now m n request (failed e)

-- A job store: a state with a view, in which each record stands under its own ID, and a function for
-- the methods, whose calls are allowed in valid states. `Accepts` says which requests the store can
-- represent.
pub record Store (keep : Keeping) : Type 1 where
  pub State : Type 0
  pub IsValid : State → Type 0
  pub Accepts : Request → Type 0
  pub view : State → View
  pub call : ℤ → Request → State → State × Answer
  pub keyed : (s : State) (k : Bytes) (r : JobRecord) → IsValid s → view s k ≡ some r → r.id ≡ k
  pub call-Allowed :
      (now : ℤ) (q : Request) (s : State)
      → IsValid s
      → Accepts q
      → let r = call now q s in Allowed keep now (view s) (view r.0) q r.1
