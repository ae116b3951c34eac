-- ===== src/Mongo/Refinement/Queries.antt =====
-- `List` and `RequeueStale` of backend/mongodb/store.go, given the outcomes of their operations on
-- the collection.
use mathlib.Core.Path.{subst}
use mathlib.Core.Option
use mathlib.Core.Logic.{∥∥₁_elim, ∥∥₁_map, ∥∥₁_prop}
use mathlib.Core.List.{Mem, mem-map_of_mem, exists_of_mem-map}
use gokue.Prelude.{
  ℕ, zero, suc, ◌+◌, String, ◌=?◌, eq_iff, Bool, true, false, ◌&&◌, Option, none, some, List, [],
  ◌∷◌, ◌≡◌, refl, sym, ap, ◌∙◌, arith, Option-cases, inl, inr, if◌then◌else◌, if_cases, map, take,
}
use gokue.Prelude.Int.{ℤ, pos, pos_part, ltb_ℤ, ◌+ℤ◌, ◌-ℤ◌, ◌≤ℤ◌, int64_of_IsInt64}
use gokue.Prelude.Bytes.{Bytes}
use gokue.Record.{status_running, JobRecord, ListFilter, ok}
use gokue.JobStore.{
  lists, requeues, answers, listed, counted, Keeping, has_status, shown, back_to_pending,
  PicksStale, Allowed, list_done, requeue_done,
}
use gokue.Mongo.Driver.{Document, from_document, Filter, no_filter, Reply}
use gokue.Mongo.Requests.{wrapped, listed_documents, requeue_changes}
use gokue.Mongo.Laws.{
  Content, satisfies, changed, before, at_most, Lists, in_order, UpdatesMany, each, HasRoom,
  IsStored,
}
use gokue.Mongo.Refinement.Views.{viewed, viewed-some, document_of, shown_stored}

map-take {ℓ κ} :
    {A : Type ℓ} {B : Type κ} (f : A → B) (n : ℕ) (l : List A) → map f (take n l) ≡ take n (map f l)
map-take f zero l = refl
map-take f (suc n) [] = refl
map-take f (suc n) (x ∷ l) = ap (λ t. f x ∷ t) (map-take f n l)

-- The records that a limit leaves.
map-at_most :
    (b : Bool) (limit : ℤ) (all : List Document)
    → map from_document (at_most (if b then some limit else none) all)
      ≡ (if b then take (pos_part limit) (map from_document all) else map from_document all)
map-at_most true limit all = map-take from_document (pos_part limit) all
map-at_most false limit all = refl

module _ (keep : Keeping) (now : ℤ) where
  abbrev pub status_filter : Option String → Filter
  status_filter status = record no_filter { status = status }

  satisfies-has_status :
      (status : Option String) (d : Document)
      → satisfies keep (status_filter status) d ≡ has_status status (from_document d)
  unfolding from_document
  satisfies-has_status none d = refl
  satisfies-has_status (some s) d = ground arith

  listed_document :
      (f : ListFilter) (m : Content) (all : List Document) (k : Bytes) (r : JobRecord)
      → IsStored keep m
      → ((j : Bytes) (d : Document)
          → m j ≡ some d
          → satisfies keep (status_filter f.status) d ≡ true
          → Mem d all)
      → viewed m k ≡ some r
      → has_status f.status r ≡ true
      → Mem (shown keep r) (map from_document all)
  listed_document f m all k r v every there fits =
      let (d, at, made) = document_of m k r there in
      subst (λ x. Mem x (map from_document all))
        (sym (shown_stored keep m k d v at) ∙ ap (shown keep) made)
        (mem-map_of_mem from_document
          (every k d at (satisfies-has_status f.status d ∙ ap (has_status f.status) made ∙ fits)))

  document_listed :
      (f : ListFilter) (m : Content) (all : List Document) (x : JobRecord)
      → IsStored keep m
      → ((d : Document)
          → Mem d all
          → ∥ (
              (j : Bytes) × (m j ≡ some d) × (satisfies keep (status_filter f.status) d ≡ true)) ∥₁)
      → Mem x (map from_document all)
      → ∥ (
          (j : Bytes) × (r : JobRecord) × (viewed m j ≡ some r)
          × (has_status f.status r ≡ true)
          × (x ≡ shown keep r)) ∥₁
  document_listed f m all x v only h = ∥∥₁_elim (exists_of_mem-map h) ∥∥₁_prop (λ (d, member, made).
      ∥∥₁_map (only d member) (λ (j, at, fits). (
        j,
        from_document d,
        viewed-some m j d at,
        sym (satisfies-has_status f.status d) ∙ fits,
        sym made ∙ sym (shown_stored keep m j d v at),
      )))

  pub list-Allowed {ℓ} :
      {C : Type ℓ} (f : ListFilter) (m : Content) (c : C) (r : Reply (Option (List Document)))
      → IsStored keep m
      → Lists keep
          (status_filter f.status)
          (if ltb_ℤ (pos 0) f.limit then some f.limit else none)
          m
          r
      → Allowed keep now
          (viewed m)
          (viewed m)
          (lists f)
          (answers listed (c, wrapped "list job records" listed_documents r)).1
  unfolding wrapped listed_documents
  list-Allowed f m c _ v (in_order all sorted every only) =
      subst (λ l. Allowed keep now (viewed m) (viewed m) (lists f) (listed l))
        (sym (map-at_most (ltb_ℤ (pos 0) f.limit) f.limit all))
        (list_done f (map from_document all) sorted
          (λ k r there fits. listed_document f m all k r v every there fits)
          (λ x h. document_listed f m all x v only h) (λ j. refl))

  abbrev pub stale_filter : ℤ → Filter
  stale_filter cutoff = record no_filter {
    status = some status_running;
    started_before = some cutoff;
  }

  abbrev stale_record : ℤ → JobRecord → Bool
  stale_record cutoff r = (r.status =? status_running) && before r.started_at (keep.time cutoff)

  satisfies-stale :
      (cutoff : ℤ) (d : Document)
      → satisfies keep (stale_filter cutoff) d ≡ stale_record cutoff (from_document d)
  unfolding from_document
  satisfies-stale cutoff d = refl

  stale_record-PicksStale :
      (cutoff : ℤ) → keep.time cutoff ≤ℤ cutoff → PicksStale keep cutoff (stale_record cutoff)
  stale_record-PicksStale cutoff low = record {
    only = λ r h. elim (Option-cases r.started_at) [
      | inl e ↦ absurd (ground arith)
      | inr (t, e) ↦ (ground (arith, eq_iff r.status status_running), (t, e, ground arith))
    ];
    all = λ r t running e early. ground (arith, eq_iff r.status status_running);
  }

  plus_zero : (n : ℕ) → n + 0 ≡ n
  plus_zero n = omega arith

  requeued_document :
      (m : Content) (k : Bytes) (d : Document)
      → HasRoom m
      → m k ≡ some d
      → from_document (changed keep requeue_changes d) ≡ back_to_pending (from_document d)
  unfolding from_document requeue_changes
  requeued_document m k d room there =
      let back = back_to_pending (from_document d) in
      ap (λ a. record back { attempts = a; version = d.version +ℤ pos 1 }) (plus_zero d.attempts)
      ∙ ap (λ v. record back { version = v })
          (sym (int64_of_IsInt64 (d.version +ℤ pos 1) (room k d there).0))

  requeued_at :
      (cutoff : ℤ) (m : Content) (j : Bytes) (o : Option Document)
      → HasRoom m
      → m j ≡ o
      → Option.map from_document (
          Option.map
            (λ d.
              if satisfies keep (stale_filter cutoff) d then changed keep requeue_changes d else d)
            o)
        ≡ Option.map
            (λ r. if stale_record cutoff r then back_to_pending r else r)
            (Option.map from_document o)
  requeued_at cutoff m j none room e = refl
  requeued_at cutoff m j (some d) room e = rw (sym (satisfies-stale cutoff d)) (
      if_cases
        (λ b.
          some (from_document b)
          ≡ some (
              if satisfies keep (stale_filter cutoff) d
              then back_to_pending (from_document d)
              else from_document d))
        (satisfies keep (stale_filter cutoff) d) _ _
        (λ h. rw h (ap some (requeued_document m j d room e))) (λ h. rw h refl))

  pub requeue-Allowed {ℓ} :
      {C : Type ℓ} (lease : ℤ) (m n : Content) (c : C) (r : Reply ℕ)
      → IsStored keep m
      → HasRoom m
      → ltb_ℤ lease (pos 0) ≡ false
      → UpdatesMany keep (stale_filter (now -ℤ lease)) requeue_changes m n r
      → Allowed keep now
          (viewed m)
          (viewed n)
          (requeues lease)
          (answers counted (c, wrapped "requeue stale job records" ok r)).1
  unfolding wrapped
  requeue-Allowed lease m n c _ v room fits (each count same zero_iff) =
      let cutoff = now -ℤ lease in
      requeue_done lease count (stale_record cutoff) fits
        (stale_record-PicksStale cutoff (v.dates cutoff))
        (λ j. ap (Option.map from_document) (same j) ∙ requeued_at cutoff m j (m j) room refl)
        (
          λ e j r there.
              let (d, at, made) = document_of m j r there in
              sym (ap (stale_record cutoff) made)
              ∙ sym (satisfies-stale cutoff d)
              ∙ zero_iff.0 e j d at,
          λ h.
              zero_iff.1
                (λ j d at. satisfies-stale cutoff d ∙ h j (from_document d) (viewed-some m j d at)),
        )
