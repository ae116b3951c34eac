-- ===== src/Mongo/Refinement/Changes.antt =====
-- `Claim` and `Update` of backend/mongodb/store.go, given the outcomes of their operations on the
-- collection.
use mathlib.Core.Path.{subst}
use gokue.Prelude.{
  ℕ, zero, suc, ◌&&◌, ◌+◌, ◌<◌, ◌^◌, Bool, true, false, none, some, ◌≡◌, ◌≢◌, refl, sym, ap, ◌∙◌,
  arith, Bool-cases, Option-cases, inl, inr, if◌then◌else◌, ltb,
}
use gokue.Prelude.Int.{ℤ, pos, ◌+ℤ◌, ◌≤ℤ◌, int64, int64_of_IsInt64, uint64}
use gokue.Prelude.Bytes.{Bytes, bytes_eq, bytes_eq_iff}
use gokue.Record.{status_pending, JobRecord, err, not_found, conflict}
use gokue.JobStore.{
  Answer, updates, claims, answers, done, found, Keeping, put, Same, is_pending, IsClaimed,
  IsUpdated, Allowed, claim_oldest, claim_none, update_done, update_missing, update_conflict,
}
use gokue.Mongo.Driver.{Document, from_document, Filter, no_filter, Reply}
use gokue.Mongo.Requests.{decoded, wrapped, claim_changes, update_changes}
use gokue.Mongo.Laws.{
  Content, satisfies, changed, NoneSatisfies, FindsAndUpdates, Counts, up_to_limit, nothing, first,
  HasRoom, IsStored,
}
use gokue.Mongo.Refinement.Views.{
  viewed, viewed-put, viewed-Same, viewed-some, viewed-none, document_of, satisfies-id-version_iff,
  satisfies-status, found_by_id, missing_by_id,
}

uint64_of_lt : (n : ℕ) → n < 2 ^ 63 → uint64 n ≡ n
uint64_of_lt n h = omega arith

module _ (keep : Keeping) (now : ℤ) where
  abbrev pub pending_filter : Filter
  pending_filter = record no_filter { status = some status_pending }

  claim_changes-IsClaimed :
      (m : Content) (k : Bytes) (d : Document)
      → IsStored keep m
      → HasRoom m
      → m k ≡ some d
      → IsClaimed keep now (from_document d) (from_document (changed keep (claim_changes now) d))
  unfolding from_document claim_changes
  claim_changes-IsClaimed m k d v room there = record {
    id = refl;
    name = refl;
    payload = sym (v.payloads k d there);
    attempts = sym (uint64_of_lt (d.attempts + 1) (room k d there).1);
    status = refl;
    version = sym (int64_of_IsInt64 (d.version +ℤ pos 1) (room k d there).0);
    created_at = refl;
    started_at = refl;
    finished_at = refl;
  }

  pending_fits :
      (d : Document) (r : _)
      → from_document d ≡ r
      → is_pending r ≡ true
      → satisfies keep pending_filter d ≡ true
  unfolding from_document
  pending_fits d r e h = satisfies-status keep status_pending d ∙ ap is_pending e ∙ h

  pub claim-Allowed {ℓ} :
      {C : Type ℓ} (m n : Content) (c : C) (r : Reply Document)
      → IsStored keep m
      → HasRoom m
      → FindsAndUpdates keep pending_filter (claim_changes now) m n r
      → Allowed keep now
          (viewed m)
          (viewed n)
          claims
          (answers found (c, decoded "claim job record" r)).1
  unfolding decoded from_document
  claim-Allowed m n c _ v room (first k d there fits oldest same) =
      claim_oldest k (from_document d) (from_document (changed keep (claim_changes now) d))
        (viewed-some m k d there) (sym (satisfies-status keep status_pending d) ∙ fits)
        (λ j q at pend.
          let (e, stored, made) = document_of m j q at in
          subst (λ x. d.created_at ≤ℤ x.created_at) made
            (oldest j e stored (pending_fits e q made pend)))
        (claim_changes-IsClaimed m k d v room there)
        (viewed-put k (changed keep (claim_changes now) d) m n same)
  claim-Allowed m n c _ v room (nothing absent same) =
      claim_none
        (λ j q at.
          let (e, stored, made) = document_of m j q at in
          sym (ap is_pending made)
          ∙ sym (satisfies-status keep status_pending e)
          ∙ absent j e stored)
        (viewed-Same m n same)

  abbrev pub version_filter : JobRecord → Filter
  version_filter rec = record no_filter { id = some rec.id; version = some rec.version }

  update_changes-IsUpdated :
      (rec : JobRecord) (m : Content) (k : Bytes) (d : Document)
      → HasRoom m
      → m k ≡ some d
      → d.id ≡ rec.id
      → d.version ≡ rec.version
      → IsUpdated keep (from_document d) rec (from_document (changed keep (update_changes rec) d))
  unfolding from_document update_changes
  update_changes-IsUpdated rec m k d room there id version = record {
    id = id;
    name = refl;
    payload = refl;
    attempts = omega arith;
    status = refl;
    version =
        sym (int64_of_IsInt64 (d.version +ℤ pos 1) (room k d there).0)
        ∙ ap (λ v. int64 (v +ℤ pos 1)) version;
    created_at = λ e. refl;
    started_at = refl;
    finished_at = refl;
  }

  -- The update found the document with this version.
  pub update-done-Allowed :
      (rec : JobRecord) (m n : Content) (k : Bytes) (d : Document)
      → IsStored keep m
      → HasRoom m
      → m k ≡ some d
      → satisfies keep (version_filter rec) d ≡ true
      → Same n (put k (changed keep (update_changes rec) d) m)
      → Allowed keep now (viewed m) (viewed n) (updates rec) done
  unfolding from_document
  update-done-Allowed rec m n k d v room there fits same =
      let (e, version) = (satisfies-id-version_iff keep rec.id rec.version d).0 fits in
      let key : k ≡ rec.id = sym (v.keyed k d there) ∙ sym e in
      let x = changed keep (update_changes rec) d in
      update_done rec (from_document d) (from_document x)
        (viewed-some m rec.id d (found_by_id keep m rec.id k d v there e)) version
        (update_changes-IsUpdated rec m k d room there (sym e) version)
        (viewed-put rec.id x m n (subst (λ j. Same n (put j x m)) key same))

  no_suc : (n : ℕ) → suc n ≢ 0
  no_suc n = ground arith

  positive : (n : ℕ) → true ≡ ltb 0 (suc n)
  positive n = ground arith

  abbrev refusal {ℓ} : {C : Type ℓ} → C → Bool → Answer
  refusal {C = C} c b =
      (answers {S = C} {A = Unit {0}} (λ u. done) (c, if b then err conflict else err not_found)).1

  unmatched :
      (m : Content) (id k : Bytes) (d : Document)
      → IsStored keep m
      → m id ≡ none
      → m k ≡ some d
      → satisfies keep (record no_filter { id = some id }) d ≡ false
  unmatched m id k d v missing there = elim (Bool-cases (bytes_eq id d.id)) [
    | inl same ↦
        absurd (cc (missing, found_by_id keep m id k d v there ((bytes_eq_iff id d.id).0 same)))
    | inr other ↦ ap (λ b. b && true) other
  ]

  -- The update found none, and then the documents with this ID were counted.
  pub update-refused-Allowed {ℓ} :
      {C : Type ℓ} (rec : JobRecord) (m n : Content) (c : C) (r : Reply ℕ)
      → IsStored keep m
      → NoneSatisfies keep (version_filter rec) m
      → Same n m
      → Counts keep (record no_filter { id = some rec.id }) n r
      → Allowed keep now
          (viewed m)
          (viewed n)
          (updates rec)
          (answers
            (λ (u : Unit {0}). done)
            (
              c,
              wrapped "count job record" (λ n. if ltb 0 n then err conflict else err not_found) r,
            )).1
  unfolding wrapped from_document
  update-refused-Allowed rec m n c _ v absent same (up_to_limit zero counts) =
      update_missing rec
        (viewed-none m rec.id
          (missing_by_id keep m rec.id v (λ k d h. counts.0 refl k d (same k ∙ h))))
        (viewed-Same m n same)
  update-refused-Allowed rec m n c _ v absent same (up_to_limit (suc count) counts) =
      elim (Option-cases (m rec.id)) [
        | inl missing ↦
            absurd (
              no_suc count
                (counts.1 (λ k d h. unmatched m rec.id k d v missing (sym (same k) ∙ h))))
        | inr (d, there) ↦
            subst (λ b. Allowed keep now (viewed m) (viewed n) (updates rec) (refusal c b))
              (positive count)
              (update_conflict rec (from_document d) (viewed-some m rec.id d there)
                (λ e. cc (
                  absent rec.id d there,
                  (satisfies-id-version_iff keep rec.id rec.version d).1
                      (sym (v.keyed rec.id d there), e),
                ))
                (viewed-Same m n same))
      ]
