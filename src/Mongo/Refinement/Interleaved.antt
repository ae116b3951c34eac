-- ===== src/Mongo/Refinement/Interleaved.antt =====
-- `Update` of backend/mongodb/store.go, with other clients that change the collection between its two
-- operations.
use gokue.Prelude.{ℕ, ◌<◌, ◌^◌, Option, none, some, ◌≡◌, refl, arith, Option-cases, inl, inr, ◌⊎◌}
use gokue.Prelude.Int.{ℤ, pos}
use gokue.Record.{JobRecord, Result}
use gokue.JobStore.{updates, answers, done, Same, Keeping, Allowed}
use gokue.Mongo.Driver.{Driver, Filter, no_filter, Reply}
use gokue.Mongo.Requests.{update_changes}
use gokue.Mongo.JobStore.{
  MongoJobStore, handle_error, with_handle, missing_or_conflict, after_update, update,
}
use gokue.Mongo.Laws.{
  Content, Updates, Counts, one, nothing, HasRoom, Obeys, IsStored, NoneSatisfies,
}
use gokue.Mongo.Refinement.{mongo_call, mongo_call-Allowed}
use gokue.Mongo.Refinement.Views.{viewed}
use gokue.Mongo.Refinement.Changes.{update-done-Allowed, update-refused-Allowed, version_filter}

module _ (driver : Driver) (keep : Keeping) (content : driver.Collection → Content) (now : ℤ)
    (store : Option MongoJobStore) (c : driver.Collection)
    (others : driver.Collection → driver.Collection) (rec : JobRecord) where
  abbrev Outcome : driver.Collection × Result (Unit {0}) → Type 0
  Outcome r =
      Allowed keep now (viewed (content c)) (viewed (content r.0)) (updates rec)
        (answers (λ u. done) r).1

  -- The call as a single operation: on what it found at the beginning, or on what the other clients
  -- made of the collection `d` behind its first operation, which then has changed nothing, and
  -- neither has the second one.
  abbrev pub IsAtomic : driver.Collection → driver.Collection × Result (Unit {0}) → Type 0
  IsAtomic d r =
      Outcome r
      ⊎ (Same (content d) (content c)
          × (r.0 ≡ others d)
          × Allowed keep now (viewed (content (others d))) (viewed (content (others d)))
              (updates rec) (answers (λ (u : Unit {0}). done) r).1)

  -- The other clients leave a collection as the store makes them, on which documents are counted as
  -- promised, and in which the record does not stand with the version of the update.
  pub record Leaves (e : driver.Collection) : Type 0 where
    pub stored : IsStored keep (content e)
    pub counts : (f : Filter) → Counts keep f (content e) (driver.count_documents none f (pos 1) e)
    pub outdated : NoneSatisfies keep (version_filter keep now rec) (content e)

  module _ (obeys : Obeys driver keep content c) (stored : IsStored keep (content c))
      (room : HasRoom (content c)) where
    after_update-IsAtomic :
        (r : Reply ℕ) (d : driver.Collection)
        → handle_error store ≡ none
        → Updates keep (version_filter keep now rec) (update_changes rec) (content c) (content d) r
        → Leaves (others d)
        → IsAtomic d (after_update driver none others rec.id store (d, r))
    unfolding after_update missing_or_conflict
    after_update-IsAtomic _ d open_store (one k x there fits same) left =
        inl
          (update-done-Allowed keep now rec (content c) (content d) k x stored room there fits same)
    after_update-IsAtomic _ d open_store (nothing absent same) left =
        rw (open_store, with_handle)
          (inr (
            same,
            refl,
            update-refused-Allowed keep now rec (content (others d)) (content (others d)) (others d)
                _ left.stored left.outdated (λ j. refl)
                (left.counts (record no_filter { id = some rec.id })),
          ))

    -- `Update` with other clients between its two operations acts at one moment: it does what
    -- `Allowed` says of an update that nobody interrupts, either on the collection that it
    -- found, or, where its first operation matched nothing and left the collection alone, on the one
    -- that the other clients then left, which it does not change either. The conditions are those of
    -- an update that nobody interrupts; that the other clients leave well-formed documents; and that
    -- they do not leave the record with the version of the update, which it did not have at first.
    pub update-IsAtomic :
        rec.attempts < 2 ^ 63
        → let d = (driver.update_one none (version_filter keep now rec) (update_changes rec) c).0 in
          Leaves (others d) → IsAtomic d (update driver none others rec store c)
    unfolding update mongo_call
    update-IsAtomic fits left = elim (Option-cases (handle_error store)) [
      | inl open_store ↦
          rw (open_store, with_handle)
            (after_update-IsAtomic _ _ open_store
              (obeys.update_one (version_filter keep now rec) (update_changes rec) room refl
                (omega arith) fits)
              left)
      | inr (e, shut) ↦
          let h =
            mongo_call-Allowed driver keep content now store c obeys stored room (updates rec)
              fits in
          rw (shut, with_handle) (inl (rw (shut, with_handle) at h))
    ]
