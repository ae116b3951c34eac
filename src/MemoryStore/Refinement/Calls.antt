-- ===== src/MemoryStore/Refinement/Calls.antt =====
-- Each method of backend/memory.go does what the interface of backend/backend.go allows.
use mathlib.Core.Path.{subst}
use mathlib.Core.Option
use mathlib.Core.List.Permᴰ
use mathlib.Core.Logic.{∥∥₁_map}
use gokue.Prelude.{
  String, true, false, Option, none, some, ◌≡◌, refl, sym, ap, inl, inr, arith, Option-cases,
  if_cases,
}
use gokue.Prelude.Int.{ℤ, pos, eqb_ℤ, eqb_ℤ_iff, ◌+ℤ◌, ◌≤ℤ◌, int64}
use gokue.Prelude.Bytes.{Bytes}
use gokue.Job.{ContextError}
use gokue.Record.{
  JobRecord, ListFilter, Result, err, store_closed, ctx_err, clone_bytes, clone_record,
}
use gokue.RecordMap.{lookup, Distinct}
use gokue.RecordMap.Laws.{lookup-insert, lookup-erase}
use gokue.MemoryStore.{
  MemoryStore, guarded, with_defaults, save, get, choose, claimed, claim, replaced, update, delete,
  matches, matching, sort_records, list,
}
use gokue.MemoryStore.Choice.{choose-Found}
use gokue.MemoryStore.Claiming.{NotAfter, Claims, claim_found_oldest}
use gokue.MemoryStore.Listing.{sort_records_permutes, sort_records-Sorted, limited_lem}
use gokue.MemoryStore.Members.{All-Mem, IsCopy, matching-IsCopy, Mem-matching}
use gokue.JobStore.{
  Request, saves, updates, gets, deletes, claims, lists, answers, Answer, done, found, listed, View,
  Keeping, has_status, IsSaved, IsClaimed, IsUpdated, shown, when_closed, when_cancelled, Allowed,
  save_new, save_taken, get_found, get_missing, claim_oldest, claim_none, update_done,
  update_missing, update_conflict, delete_done, delete_missing, list_done, unavailable,
}

-- Payloads are copied, and times are kept as they are.
abbrev pub keeping : Keeping
keeping = record { payload = clone_bytes; time = λ t. t }

abbrev pub view : MemoryStore → View
view s j = lookup j s.records

-- The result is allowed.
abbrev pub Fulfils {ℓ} :
    {A : Type ℓ} → (A → Answer) → ℤ → Request → MemoryStore → MemoryStore × Result A → Type 0
Fulfils f now q s r = let a = answers f r in Allowed keeping now (view s) (view a.0) q a.1

pub guarded-Fulfils {ℓ} :
    {A : Type ℓ} (f : A → Answer) (ctx : Option ContextError) (now : ℤ) (q : Request)
    (s : MemoryStore) (body : MemoryStore × Result A)
    → (s.closed ≡ false → Fulfils f now q s body)
    → Fulfils f now q s (guarded ctx s body)
unfolding guarded
guarded-Fulfils f none now q s body go =
    if_cases (Fulfils f now q s) s.closed (s, err store_closed) body
      (λ c. unavailable q store_closed when_closed (λ j. refl)) go
guarded-Fulfils f (some e) now q s body go =
    unavailable q (ctx_err e) (when_cancelled e) (λ j. refl)

map_same : (o : Option ℤ) → Option.map (λ t. t) o ≡ o
map_same o = ap (λ f. f o) Option.map-id

save-IsSaved : (rec : JobRecord) → IsSaved keeping rec (clone_record (with_defaults rec))
unfolding clone_record with_defaults
save-IsSaved rec = record {
  id = ground arith;
  name = ground arith;
  payload = ground arith;
  attempts = ground arith;
  status = ground arith;
  version = ground arith;
  created_at = ground arith;
  started_at = ground (arith, map_same rec.started_at);
  finished_at = ground (arith, map_same rec.finished_at);
}

pub save-Fulfils :
    (ctx : Option ContextError) (now : ℤ) (rec : JobRecord) (s : MemoryStore)
    → Fulfils (λ u. done) now (saves rec) s (save ctx rec s)
unfolding save
save-Fulfils ctx now rec s = guarded-Fulfils _ ctx now (saves rec) s _ λ o.
    elim (Option-cases (lookup rec.id s.records)) [
      | inl free ↦
          rw (free, save)
            (save_new rec _ free (save-IsSaved rec) (λ j. lookup-insert rec.id j _ s.records))
      | inr (old, taken) ↦ rw (taken, save) (save_taken rec old taken (λ j. refl))
    ]

pub get-Fulfils :
    (ctx : Option ContextError) (now : ℤ) (id : Bytes) (s : MemoryStore)
    → Fulfils found now (gets id) s (get ctx id s)
unfolding get clone_record
get-Fulfils ctx now id s = guarded-Fulfils _ ctx now (gets id) s _ λ o.
    elim (Option-cases (lookup id s.records)) [
      | inl missing ↦ rw (missing, get) (get_missing id missing (λ j. refl))
      | inr (r, there) ↦ rw (there, get) (get_found id r there (λ j. refl))
    ]

oldest_bound : (k j : Bytes) (r q : JobRecord) → NotAfter k r j q → r.created_at ≤ℤ q.created_at
oldest_bound k j r q (inl before) = omega arith
oldest_bound k j r q (inr (same, later)) = ground arith

claimed-IsClaimed :
    (now : ℤ) (r : JobRecord) → IsClaimed keeping now r (clone_record (claimed now r))
unfolding clone_record claimed
claimed-IsClaimed now r = record {
  id = refl;
  name = refl;
  payload = refl;
  attempts = refl;
  status = refl;
  version = refl;
  created_at = refl;
  started_at = refl;
  finished_at = refl;
}

Claims-Fulfils :
    (now : ℤ) (s : MemoryStore) (r : MemoryStore × Result JobRecord)
    → Claims now s r
    → Fulfils found now claims s r
unfolding claimed
Claims-Fulfils now s r (inl (e, empty)) =
    subst (Fulfils found now claims s) (sym e) (claim_none empty (λ j. refl))
Claims-Fulfils now s r (inr (k, q, o, e)) = subst (Fulfils found now claims s) (sym e) (
    claim_oldest k q _ o.stored o.pending
      (λ j p there pend. oldest_bound k j q p (o.oldest j p there pend)) (claimed-IsClaimed now q)
      (λ j. lookup-insert k j _ s.records))

pub claim-Fulfils :
    (ctx : Option ContextError) (now : ℤ) (s : MemoryStore)
    → Distinct s.records
    → Fulfils found now claims s (claim ctx now s)
unfolding claim
claim-Fulfils ctx now s d = guarded-Fulfils _ ctx now claims s _ (λ o.
    Claims-Fulfils now s _
      (claim_found_oldest now s (choose none s.records) d (choose-Found s.records)))

replaced-IsUpdated :
    (old rec : JobRecord) → old.version ≡ rec.version → IsUpdated keeping old rec (replaced old rec)
unfolding replaced clone_record
replaced-IsUpdated old rec same = record {
  id = refl;
  name = refl;
  payload = refl;
  attempts = refl;
  status = refl;
  version = ap (λ v. int64 (v +ℤ pos 1)) same;
  created_at = λ e. e;
  started_at = sym (map_same rec.started_at);
  finished_at = sym (map_same rec.finished_at);
}

pub update-Fulfils :
    (ctx : Option ContextError) (now : ℤ) (rec : JobRecord) (s : MemoryStore)
    → Fulfils (λ u. done) now (updates rec) s (update ctx rec s)
unfolding update
update-Fulfils ctx now rec s = guarded-Fulfils _ ctx now (updates rec) s _ λ o.
    elim (Option-cases (lookup rec.id s.records)) [
      | inl missing ↦ rw (missing, update) (update_missing rec missing (λ j. refl))
      | inr (old, there) ↦
          rw (there, update)
            (if_cases (Fulfils (λ (u : Unit {0}). done) now (updates rec) s)
              (eqb_ℤ old.version rec.version) _ _
              (λ same.
                let e = (eqb_ℤ_iff old.version rec.version).0 same in
                update_done rec old _ there e (replaced-IsUpdated old rec e)
                  (λ j. lookup-insert rec.id j _ s.records))
              (λ other.
                update_conflict rec old there
                  (λ e. cc ((eqb_ℤ_iff old.version rec.version).1 e, other)) (λ j. refl)))
    ]

pub delete-Fulfils :
    (ctx : Option ContextError) (now : ℤ) (id : Bytes) (s : MemoryStore)
    → Fulfils (λ u. done) now (deletes id) s (delete ctx id s)
unfolding delete
delete-Fulfils ctx now id s = guarded-Fulfils _ ctx now (deletes id) s _ λ o.
    elim (Option-cases (lookup id s.records)) [
      | inl missing ↦ rw (missing, delete) (delete_missing id missing (λ j. refl))
      | inr (old, there) ↦
          rw (there, delete) (delete_done id old there (λ j. lookup-erase id j s.records))
    ]

has_status-matches :
    (status : Option String) (r : JobRecord) → has_status status r ≡ true → matches status r ≡ true
has_status-matches none r h = refl
has_status-matches (some t) r h = h

matches-has_status :
    (status : Option String) (r : JobRecord) → matches status r ≡ true → has_status status r ≡ true
matches-has_status none r h = refl
matches-has_status (some t) r h = h

shown_copy :
    (status : Option String) (s : MemoryStore) (x : JobRecord)
    → ∥ IsCopy status s.records x ∥₁
    → ∥ (
        (k : Bytes) × (r : JobRecord) × (view s k ≡ some r)
        × (has_status status r ≡ true)
        × (x ≡ shown keeping r)) ∥₁
unfolding clone_record
shown_copy status s x h =
    ∥∥₁_map h (λ (k, r, there, fits, same). (k, r, there, matches-has_status status r fits, same))

pub list-Fulfils :
    (ctx : Option ContextError) (now : ℤ) (f : ListFilter) (s : MemoryStore)
    → Distinct s.records
    → Fulfils listed now (lists f) s (list ctx f s)
unfolding list clone_record
list-Fulfils ctx now f s d = guarded-Fulfils listed ctx now (lists f) s _ λ o.
    let all = matching f.status s.records in
    let sorts = sort_records_permutes all in
    subst (λ l. Allowed keeping now (view s) (view s) (lists f) (listed l))
      (sym (limited_lem f.limit (sort_records all)))
      (list_done f (sort_records all) (sort_records-Sorted all)
        (λ k r there fits.
          Permᴰ.mem (Permᴰ.symm sorts)
            (Mem-matching f.status k r s.records there (has_status-matches f.status r fits)))
        (λ x h. shown_copy f.status s x (
          All-Mem (IsCopy f.status s.records) all x (matching-IsCopy f.status s.records d)
            (Permᴰ.mem sorts h)))
        (λ j. refl))
