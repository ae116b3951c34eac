-- ===== src/Mongo/Refinement/Writes.antt =====
-- Each method of backend/mongodb/store.go that reads or writes one document, given the outcome of its
-- operation on the collection.
use mathlib.Core.Path.{subst}
use gokue.Prelude.{ℕ, some, ◌≡◌, refl, sym, ap, ◌∙◌, arith}
use gokue.Prelude.Int.{ℤ}
use gokue.Prelude.Bytes.{Bytes}
use gokue.Record.{JobRecord}
use gokue.JobStore.{
  saves, gets, deletes, answers, done, found, Keeping, put, remove, Same, IsSaved, Allowed,
  save_new, save_taken, get_found, get_missing, delete_done, delete_missing,
}
use gokue.Mongo.Driver.{Document, to_document, from_document, no_filter, Reply}
use gokue.Mongo.Requests.{with_defaults, inserted, decoded, deleted}
use gokue.Mongo.Laws.{
  Content, stored, Inserts, new_id, old_id, Finds, Deletes, one, nothing, IsStored,
}
use gokue.Mongo.Refinement.Views.{
  viewed, viewed-put, viewed-remove, viewed-Same, viewed-some, viewed-none, satisfies-id_iff,
  found_by_id, missing_by_id, shown_stored,
}

module _ (keep : Keeping) (now : ℤ) where
  save-IsSaved :
      (rec : JobRecord)
      → IsSaved keep rec (from_document (stored keep (to_document (with_defaults rec))))
  unfolding from_document to_document with_defaults
  save-IsSaved rec = record {
    id = ground arith;
    name = ground arith;
    payload = ground arith;
    attempts = ground arith;
    status = ground arith;
    version = ground arith;
    created_at = ground arith;
    started_at = ground arith;
    finished_at = ground arith;
  }

  document-id : (rec : JobRecord) → (to_document (with_defaults rec)).id ≡ rec.id
  unfolding to_document with_defaults
  document-id rec = ground arith

  pub save-Allowed {ℓ} :
      {C : Type ℓ} (rec : JobRecord) (m n : Content) (c : C) (r : Reply (Unit {0}))
      → Inserts keep (to_document (with_defaults rec)) m n r
      → Allowed keep now (viewed m) (viewed n) (saves rec) (answers (λ u. done) (c, inserted r)).1
  unfolding inserted
  save-Allowed rec m n c _ (new_id free same) =
      let d = to_document (with_defaults rec) in
      let key = document-id rec in
      save_new rec (from_document (stored keep d)) (viewed-none m rec.id (ap m (sym key) ∙ free))
        (save-IsSaved rec)
        (subst (λ k. Same (viewed n) (put k (from_document (stored keep d)) (viewed m))) key
          (viewed-put d.id (stored keep d) m n same))
  save-Allowed rec m n c _ (old_id old taken same) =
      save_taken rec (from_document old)
        (viewed-some m rec.id old (ap m (sym (document-id rec)) ∙ taken)) (viewed-Same m n same)

  pub get-Allowed {ℓ} :
      {C : Type ℓ} (id : Bytes) (m : Content) (c : C) (r : Reply Document)
      → IsStored keep m
      → Finds keep (record no_filter { id = some id }) m r
      → Allowed keep now
          (viewed m)
          (viewed m)
          (gets id)
          (answers found (c, decoded "find job record" r)).1
  unfolding decoded
  get-Allowed id m c _ v (one k d there fits) =
      let at = found_by_id keep m id k d v there ((satisfies-id_iff keep id d).0 fits) in
      subst (λ x. Allowed keep now (viewed m) (viewed m) (gets id) (found x))
        (shown_stored keep m id d v at)
        (get_found id (from_document d) (viewed-some m id d at) (λ j. refl))
  get-Allowed id m c _ v (nothing absent) =
      get_missing id (viewed-none m id (missing_by_id keep m id v absent)) (λ j. refl)

  pub delete-Allowed {ℓ} :
      {C : Type ℓ} (id : Bytes) (m n : Content) (c : C) (r : Reply ℕ)
      → IsStored keep m
      → Deletes keep (record no_filter { id = some id }) m n r
      → Allowed keep now (viewed m) (viewed n) (deletes id) (answers (λ u. done) (c, deleted r)).1
  unfolding deleted
  delete-Allowed id m n c _ v (one k d there fits same) =
      let e = (satisfies-id_iff keep id d).0 fits in
      let key : k ≡ id = sym (v.keyed k d there) ∙ sym e in
      delete_done id (from_document d) (viewed-some m id d (found_by_id keep m id k d v there e))
        (viewed-remove id m n (subst (λ j. Same n (remove j m)) key same))
  delete-Allowed id m n c _ v (nothing absent same) =
      delete_missing id (viewed-none m id (missing_by_id keep m id v absent)) (viewed-Same m n same)
