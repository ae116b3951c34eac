-- ===== src/Mongo/Refinement/Views.antt =====
-- The content of a collection of backend/mongodb/store.go as the view of a job store.
use mathlib.Core.Option
use gokue.Prelude.{
  String, ◌=?◌, Bool, true, false, Option, none, some, ◌≡◌, refl, sym, ap, ◌∙◌, ◌↔◌, arith,
  Option-cases, inl, inr, if◌then◌else◌,
}
use gokue.Prelude.Int.{ℤ, eqb_ℤ_iff}
use gokue.Prelude.Bytes.{Bytes, bytes_eq, bytes_eq_iff}
use gokue.Record.{JobRecord}
use gokue.JobStore.{View, Keeping, shown, put, remove, Same}
use gokue.Mongo.Driver.{Document, from_document, no_filter}
use gokue.Mongo.Laws.{Content, satisfies, NoneSatisfies, IsStored}

abbrev pub viewed : Content → View
viewed m j = Option.map from_document (m j)

map-if {ℓ κ} :
    {A : Type ℓ} {B : Type κ} (f : A → B) (b : Bool) (a : Option A) (o : Option A)
    → Option.map f (if b then a else o) ≡ (if b then Option.map f a else Option.map f o)
map-if f true a o = refl
map-if f false a o = refl

pub viewed-put :
    (k : Bytes) (d : Document) (m n : Content)
    → Same n (put k d m)
    → Same (viewed n) (put k (from_document d) (viewed m))
viewed-put k d m n same j =
    ap (Option.map from_document) (same j) ∙ map-if from_document (bytes_eq k j) (some d) (m j)

pub viewed-remove :
    (k : Bytes) (m n : Content) → Same n (remove k m) → Same (viewed n) (remove k (viewed m))
viewed-remove k m n same j =
    ap (Option.map from_document) (same j) ∙ map-if from_document (bytes_eq k j) none (m j)

pub viewed-Same : (m n : Content) → Same n m → Same (viewed n) (viewed m)
viewed-Same m n same j = ap (Option.map from_document) (same j)

pub viewed-some :
    (m : Content) (k : Bytes) (d : Document) → m k ≡ some d → viewed m k ≡ some (from_document d)
viewed-some m k d h = ap (Option.map from_document) h

pub viewed-none : (m : Content) (k : Bytes) → m k ≡ none → viewed m k ≡ none
viewed-none m k h = ap (Option.map from_document) h

-- A record of the view comes from a document.
pub document_of :
    (m : Content) (k : Bytes) (r : JobRecord)
    → viewed m k ≡ some r
    → (d : Document) × (m k ≡ some d) × (from_document d ≡ r)
document_of m k r h = elim (Option-cases (m k)) [
  | inl missing ↦ absurd (ground arith)
  | inr (d, there) ↦ (d, there, ground arith)
]

module _ (keep : Keeping) where
  pub satisfies-id_iff :
      (id : Bytes) (d : Document)
      → (satisfies keep (record no_filter { id = some id }) d ≡ true) ↔ (id ≡ d.id)
  satisfies-id_iff id d = ground (arith, bytes_eq_iff id d.id)

  pub satisfies-id-version_iff :
      (id : Bytes) (v : ℤ) (d : Document)
      → (satisfies keep (record no_filter { id = some id; version = some v }) d ≡ true)
        ↔ ((id ≡ d.id) × (d.version ≡ v))
  satisfies-id-version_iff id v d = ground (arith, bytes_eq_iff id d.id, eqb_ℤ_iff d.version v)

  pub satisfies-status :
      (s : String) (d : Document)
      → satisfies keep (record no_filter { status = some s }) d ≡ (d.status =? s)
  satisfies-status s d = ground arith

  -- A document with this `_id` stands under it.
  pub found_by_id :
      (m : Content) (id k : Bytes) (d : Document)
      → IsStored keep m
      → m k ≡ some d
      → id ≡ d.id
      → m id ≡ some d
  found_by_id m id k d v h e = ap m (e ∙ v.keyed k d h) ∙ h

  pub missing_by_id :
      (m : Content) (id : Bytes)
      → IsStored keep m
      → NoneSatisfies keep (record no_filter { id = some id }) m
      → m id ≡ none
  missing_by_id m id v h = elim (Option-cases (m id)) [
    | inl missing ↦ missing
    | inr (d, there) ↦
        absurd (cc (h id d there, (satisfies-id_iff id d).1 (sym (v.keyed id d there))))
  ]

  pub shown_stored :
      (m : Content) (k : Bytes) (d : Document)
      → IsStored keep m
      → m k ≡ some d
      → shown keep (from_document d) ≡ from_document d
  unfolding from_document
  shown_stored m k d v there =
      ap (λ p. record (from_document d) { payload = p }) (v.payloads k d there)
