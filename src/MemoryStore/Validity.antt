-- ===== src/MemoryStore/Validity.antt =====
-- The invariant of the in-memory store of backend/memory.go.
use gokue.Prelude.{
  false, Option, none, some, ◌≡◌, refl, arith, Option-cases, inl, inr, Bool-cases, if_cases,
  if_false,
}
use gokue.Prelude.Int.{ℤ, eqb_ℤ, ltb_ℤ, ◌-ℤ◌, pos}
use gokue.Prelude.Bytes.{Bytes, bytes_eq, bytes_eq_iff}
use gokue.Job.{ContextError}
use gokue.Record.{JobRecord, StoreError, Result, err, store_closed, ctx_err, clone_record}
use gokue.RecordMap.{lookup, insert, erase, map_values, Distinct}
use gokue.RecordMap.Laws.{
  lookup-insert, lookup-erase, insert-Distinct, erase-Distinct, lookup-map_values,
  map_values-Distinct,
}
use gokue.MemoryStore.{
  Records, MemoryStore, guarded, with_defaults, save, choose, claim_found, claim, update, delete,
  requeued, requeue_stale,
}
use gokue.MemoryStore.Choice.{Entry, Found, choose-Found, lookup-In}

-- Every record stands under its own ID.
abbrev pub Keyed : Records → Type 0
Keyed m = (k : Bytes) (r : JobRecord) → lookup k m ≡ some r → r.id ≡ k

pub record IsValid (m : Records) : Type 0 where
  pub distinct : Distinct m
  pub keyed : Keyed m

insert-IsValid :
    (k : Bytes) (v : JobRecord) (m : Records) → v.id ≡ k → IsValid m → IsValid (insert k v m)
insert-IsValid k v m e h = record {
  distinct = insert-Distinct k v m h.distinct;
  keyed = λ j r found. elim (Bool-cases (bytes_eq k j)) [
    | inl hit ↦ ground (arith, lookup-insert k j v m, bytes_eq_iff k j)
    | inr miss ↦ h.keyed j r (ground (arith, lookup-insert k j v m))
  ];
}

erase-IsValid : (k : Bytes) (m : Records) → IsValid m → IsValid (erase k m)
erase-IsValid k m h = record {
  distinct = erase-Distinct k m h.distinct;
  keyed = λ j r found. elim (Bool-cases (bytes_eq k j)) [
    | inl hit ↦ absurd (ground (arith, lookup-erase k j m))
    | inr miss ↦ h.keyed j r (ground (arith, lookup-erase k j m))
  ];
}

requeued-id : (cutoff : ℤ) (r : JobRecord) → (requeued cutoff r).id ≡ r.id
unfolding requeued
requeued-id cutoff r = ground arith

requeued-IsValid : (cutoff : ℤ) (m : Records) → IsValid m → IsValid (map_values (requeued cutoff) m)
requeued-IsValid cutoff m h = record {
  distinct = map_values-Distinct (requeued cutoff) m h.distinct;
  keyed = λ j r found. elim (Option-cases (lookup j m)) [
    | inl missing ↦ absurd (ground (arith, lookup-map_values (requeued cutoff) j m))
    | inr (q, there) ↦
        ground
          (arith, lookup-map_values (requeued cutoff) j m, requeued-id cutoff q, h.keyed j q there)
  ];
}

-- A method that begins with `guarded` leaves the store alone, or does what its body says.
pub guarded_cases {ℓ κ} :
    {A : Type ℓ} (P : MemoryStore × Result A → Type κ) (ctx : Option ContextError) (s : MemoryStore)
    (body : MemoryStore × Result A)
    → ((e : StoreError) → P (s, err e))
    → (ctx ≡ none → s.closed ≡ false → P body)
    → P (guarded ctx s body)
unfolding guarded
guarded_cases P none s body refused go =
    if_cases P s.closed (s, err store_closed) body (λ c. refused store_closed) (go refl)
guarded_cases P (some e) s body refused go = refused (ctx_err e)

-- The store behind a result is valid.
abbrev Keeps {ℓ} : {A : Type ℓ} → MemoryStore × Result A → Type 0
Keeps r = IsValid r.0.records

with_defaults-id : (r : JobRecord) → (with_defaults r).id ≡ r.id
unfolding with_defaults
with_defaults-id r = ground arith

pub save-IsValid :
    (ctx : Option ContextError) (rec : JobRecord) (s : MemoryStore)
    → IsValid s.records
    → Keeps (save ctx rec s)
unfolding save clone_record
save-IsValid ctx rec s v =
    guarded_cases Keeps ctx s _ (λ e. v)
      λ c o. elim (Option-cases (lookup rec.id s.records)) [
        | inl free ↦ rw (free, save) (insert-IsValid rec.id _ s.records (with_defaults-id rec) v)
        | inr (old, taken) ↦ rw (taken, save) v
      ]

claim_found-IsValid :
    (now : ℤ) (s : MemoryStore) (o : Option Entry)
    → Found s.records o
    → IsValid s.records
    → Keeps (claim_found now s o)
unfolding claim_found clone_record
claim_found-IsValid now s none f v = v
claim_found-IsValid now s (some (id, rec)) f v =
    insert-IsValid id _ s.records (v.keyed id rec (lookup-In (id, rec) s.records v.distinct f.0)) v

pub claim-IsValid :
    (ctx : Option ContextError) (now : ℤ) (s : MemoryStore)
    → IsValid s.records
    → Keeps (claim ctx now s)
unfolding claim
claim-IsValid ctx now s v =
    guarded_cases Keeps ctx s _ (λ e. v)
      (λ c o. claim_found-IsValid now s (choose none s.records) (choose-Found s.records) v)

pub update-IsValid :
    (ctx : Option ContextError) (rec : JobRecord) (s : MemoryStore)
    → IsValid s.records
    → Keeps (update ctx rec s)
unfolding update clone_record
update-IsValid ctx rec s v =
    guarded_cases Keeps ctx s _ (λ e. v)
      λ c o. elim (Option-cases (lookup rec.id s.records)) [
        | inl missing ↦ rw (missing, update) v
        | inr (stored, there) ↦
            rw (there, update)
              (if_cases Keeps (eqb_ℤ stored.version rec.version) _ _
                (λ h. insert-IsValid rec.id _ s.records refl v) (λ h. v))
      ]

pub delete-IsValid :
    (ctx : Option ContextError) (id : Bytes) (s : MemoryStore)
    → IsValid s.records
    → Keeps (delete ctx id s)
unfolding delete
delete-IsValid ctx id s v =
    guarded_cases Keeps ctx s _ (λ e. v)
      λ c o. elim (Option-cases (lookup id s.records)) [
        | inl missing ↦ rw (missing, delete) v
        | inr (stored, there) ↦ rw (there, delete) (erase-IsValid id s.records v)
      ]

pub requeue_stale-IsValid :
    (ctx : Option ContextError) (now lease : ℤ) (s : MemoryStore)
    → IsValid s.records
    → Keeps (requeue_stale ctx now lease s)
unfolding requeue_stale
requeue_stale-IsValid (some e) now lease s v = v
requeue_stale-IsValid none now lease s v =
    if_cases Keeps (ltb_ℤ lease (pos 0)) _ _ (λ h. v)
      λ h.
        guarded_cases Keeps none s _ (λ e. v) (λ c o. requeued-IsValid (now -ℤ lease) s.records v)

-- On an open store with a live context a method does what its body says.
pub guarded_open {ℓ} :
    {A : Type ℓ} (s : MemoryStore) (body : MemoryStore × Result A)
    → s.closed ≡ false
    → guarded none s body ≡ body
unfolding guarded
guarded_open s body o = if_false s.closed (s, err store_closed) body o
