-- ===== src/Mongo/Laws.antt =====
-- What the manuals of MongoDB and of its Go driver promise of the operations on a collection whose
-- server can be reached, on the content of the collection as a function from IDs to documents.
use mathlib.Core.Option
use mathlib.Core.List.{Mem}
use gokue.Prelude.{
  ℕ, ◌+◌, ◌<◌, ◌≤◌, ◌^◌, ◌=?◌, Bool, true, false, ◌&&◌, Option, none, some, List, ◌≡◌, ◌↔◌,
  if◌then◌else◌, map, take,
}
use gokue.Prelude.Int.{ℤ, pos, pos_part, ltb_ℤ, eqb_ℤ, ◌+ℤ◌, ◌≤ℤ◌, IsInt64}
use gokue.Prelude.Bytes.{Bytes, bytes_eq}
use gokue.Record.{Sorted}
use gokue.JobStore.{Keeping, put, remove, Same}
use gokue.Mongo.Driver.{
  Document, from_document, Filter, Changes, by_created_at, by_created_at_and_id, Reply, replied,
  no_documents, duplicate_key, Driver,
}

abbrev pub Content : Type 0
Content = Bytes → Option Document

abbrev meets {ℓ} : {A : Type ℓ} → (A → Bool) → Option A → Bool
meets test none = true
meets test (some a) = test a

-- A comparison with a missing or null date fails.
abbrev pub before : Option ℤ → ℤ → Bool
before none cutoff = false
before (some t) cutoff = ltb_ℤ t cutoff

abbrev or_old {ℓ} : {A : Type ℓ} → Option A → A → A
or_old none a = a
or_old (some b) a = b

abbrev pub at_most : Option ℤ → List Document → List Document
at_most none l = l
at_most (some n) l = take (pos_part n) l

-- A BSON date holds milliseconds, and a byte slice may come back as another one: `keep` says how.
module _ (keep : Keeping) where
  abbrev pub satisfies : Filter → Document → Bool
  satisfies f d =
      meets (λ id. bytes_eq id d.id) f.id
      && (meets (λ v. eqb_ℤ d.version v) f.version
          && (meets (λ s. d.status =? s) f.status
              && meets (λ t. before d.started_at (keep.time t)) f.started_before))

  abbrev pub stored : Document → Document
  stored d = record d {
    payload = keep.payload d.payload;
    created_at = keep.time d.created_at;
    started_at = Option.map keep.time d.started_at;
    finished_at = Option.map keep.time d.finished_at;
  }

  abbrev pub changed : Changes → Document → Document
  changed ch d = record d {
    name = or_old ch.name d.name;
    payload = or_old (Option.map keep.payload ch.payload) d.payload;
    attempts = or_old ch.attempts d.attempts + ch.inc_attempts;
    status = or_old ch.status d.status;
    version = d.version +ℤ pos ch.inc_version;
    started_at = or_old (Option.map (Option.map keep.time) ch.started_at) d.started_at;
    finished_at = or_old (Option.map (Option.map keep.time) ch.finished_at) d.finished_at;
  }

  abbrev pub NoneSatisfies : Filter → Content → Type 0
  NoneSatisfies f m = (k : Bytes) (d : Document) → m k ≡ some d → satisfies f d ≡ false

  -- The outcomes of the operations on a collection with the content `m`, which is `n` afterwards.
  pub data Inserts (d : Document) (m n : Content) : Reply (Unit {0}) → Type 0 where
    new_id : m d.id ≡ none → Same n (put d.id (stored d) m) → Inserts d m n (replied tt)
    old_id : (old : Document) → m d.id ≡ some old → Same n m → Inserts d m n duplicate_key

  pub data Finds (f : Filter) (m : Content) : Reply Document → Type 0 where
    one : (k : Bytes) (d : Document) → m k ≡ some d → satisfies f d ≡ true → Finds f m (replied d)
    nothing : NoneSatisfies f m → Finds f m no_documents

  -- The first document by creation time, as it is after the update.
  pub data FindsAndUpdates (f : Filter) (ch : Changes) (m n : Content)
      : Reply Document → Type 0 where
    first :
        (k : Bytes) (d : Document)
        → m k ≡ some d
        → satisfies f d ≡ true
        → ((j : Bytes) (q : Document)
            → m j ≡ some q
            → satisfies f q ≡ true
            → d.created_at ≤ℤ q.created_at)
        → Same n (put k (changed ch d) m)
        → FindsAndUpdates f ch m n (replied (changed ch d))
    nothing : NoneSatisfies f m → Same n m → FindsAndUpdates f ch m n no_documents

  pub data Updates (f : Filter) (ch : Changes) (m n : Content) : Reply ℕ → Type 0 where
    one :
        (k : Bytes) (d : Document)
        → m k ≡ some d
        → satisfies f d ≡ true
        → Same n (put k (changed ch d) m)
        → Updates f ch m n (replied 1)
    nothing : NoneSatisfies f m → Same n m → Updates f ch m n (replied 0)

  pub data Deletes (f : Filter) (m n : Content) : Reply ℕ → Type 0 where
    one :
        (k : Bytes) (d : Document)
        → m k ≡ some d
        → satisfies f d ≡ true
        → Same n (remove k m)
        → Deletes f m n (replied 1)
    nothing : NoneSatisfies f m → Same n m → Deletes f m n (replied 0)

  -- All documents that satisfy the filter, by creation time and then by ID, up to the limit.
  pub data Lists (f : Filter) (limit : Option ℤ) (m : Content)
      : Reply (Option (List Document)) → Type 0 where
    in_order :
        (all : List Document)
        → Sorted (map from_document all)
        → ((k : Bytes) (d : Document) → m k ≡ some d → satisfies f d ≡ true → Mem d all)
        → ((d : Document)
            → Mem d all
            → ∥ ((k : Bytes) × (m k ≡ some d) × (satisfies f d ≡ true)) ∥₁)
        → Lists f limit m (replied (some (at_most limit all)))

  -- The count is that of the documents that satisfied the filter, each of which was modified.
  pub data UpdatesMany (f : Filter) (ch : Changes) (m n : Content) : Reply ℕ → Type 0 where
    each :
        (count : ℕ)
        → ((j : Bytes) → n j ≡ Option.map (λ d. if satisfies f d then changed ch d else d) (m j))
        → (count ≡ 0) ↔ NoneSatisfies f m
        → UpdatesMany f ch m n (replied count)

  pub data Counts (f : Filter) (m : Content) : Reply ℕ → Type 0 where
    up_to_limit : (count : ℕ) → (count ≡ 0) ↔ NoneSatisfies f m → Counts f m (replied count)

-- No counter of the content reaches its limit by one more increment.
abbrev pub HasRoom : Content → Type 0
HasRoom m =
    (k : Bytes) (d : Document)
    → m k ≡ some d
    → IsInt64 (d.version +ℤ pos 1) × (d.attempts + 1 < 2 ^ 63)

-- The operations on the collection `c`, with a live context, end as promised. `$inc` fails where
-- a counter leaves the range of an int64, and a larger number of attempts than an int64 holds cannot
-- be encoded. Documents are counted after an update, as the store does it.
pub record Obeys (driver : Driver) (keep : Keeping) (content : driver.Collection → Content)
    (c : driver.Collection) : Type 0 where
  pub insert :
      (d : Document)
      → d.attempts < 2 ^ 63
      → let r = driver.insert_one none d c in Inserts keep d (content c) (content r.0) r.1
  pub find_one : (f : Filter) → Finds keep f (content c) (driver.find_one none f c)
  pub find_one_and_update :
      (f : Filter) (ch : Changes)
      → HasRoom (content c)
      → ch.inc_version ≡ 1
      → ch.inc_attempts ≤ 1
      → let r = driver.find_one_and_update none f ch by_created_at c in
        FindsAndUpdates keep f ch (content c) (content r.0) r.1
  pub update_one :
      (f : Filter) (ch : Changes)
      → HasRoom (content c)
      → ch.inc_version ≡ 1
      → ch.inc_attempts ≤ 1
      → or_old ch.attempts 0 < 2 ^ 63
      → let r = driver.update_one none f ch c in Updates keep f ch (content c) (content r.0) r.1
  pub delete_one :
      (f : Filter)
      → let r = driver.delete_one none f c in Deletes keep f (content c) (content r.0) r.1
  pub find :
      (f : Filter) (limit : Option ℤ)
      → Lists keep f limit (content c) (driver.find none f by_created_at_and_id limit c)
  pub update_many :
      (f : Filter) (ch : Changes)
      → HasRoom (content c)
      → ch.inc_version ≡ 1
      → ch.inc_attempts ≤ 1
      → let r = driver.update_many none f ch c in
        UpdatesMany keep f ch (content c) (content r.0) r.1
  pub count_documents :
      (f g : Filter) (ch : Changes)
      → let r = driver.update_one none g ch c in
        Counts keep f (content r.0) (driver.count_documents none f (pos 1) r.0)

-- What the stored documents look like: each stands under its own `_id`, and holds a payload as it is
-- kept; what is kept of a payload is kept as it is, and a date is kept as one that is not later.
pub record IsStored (keep : Keeping) (m : Content) : Type 0 where
  pub keyed : (k : Bytes) (d : Document) → m k ≡ some d → d.id ≡ k
  pub payloads : (k : Bytes) (d : Document) → m k ≡ some d → keep.payload d.payload ≡ d.payload
  pub payloads_kept : (p : Option Bytes) → keep.payload (keep.payload p) ≡ keep.payload p
  pub dates : (t : ℤ) → keep.time t ≤ℤ t
