-- ===== src/MemoryStore/Versions.antt =====
-- What the methods of backend/memory.go do to the records that `Get` sees, and the versions that
-- `Update` compares.
use gokue.Prelude.{
  Bool, true, false, ◌&&◌, Option, none, some, ◌≡◌, inl, inr, arith, Option-cases, Bool-cases,
  if◌then◌else◌, is_nil, sym, ◌∙◌, ap,
}
use gokue.Prelude.Int.{eqb_ℤ_iff, int64_add_one_ne, pos, eqb_ℤ, ◌+ℤ◌, int64}
use gokue.Prelude.Bytes.{Bytes, bytes_eq, bytes_eq_iff, bytes_eq_refl}
use gokue.Record.{
  JobRecord, Result, ok, err, not_found, already_exists, conflict, clone_record, clone-clone,
}
use gokue.RecordMap.{lookup, insert, erase}
use gokue.RecordMap.Laws.{lookup-insert, lookup-erase}
use gokue.MemoryStore.{MemoryStore, with_defaults, save, get, replaced, update, delete}
use gokue.MemoryStore.Validity.{guarded_open}

-- What `Get` answers when the map has this entry.
answer : Option JobRecord → Result JobRecord
answer none = err not_found
answer (some r) = ok (clone_record r)

get-answer :
    (id : Bytes) (s : MemoryStore)
    → s.closed ≡ false
    → (get none id s).1 ≡ answer (lookup id s.records)
unfolding get answer
get-answer id s o = elim (Option-cases (lookup id s.records)) [
  | inl h ↦ rw (h, get, o)
  | inr (r, h) ↦ rw (h, get, o)
]

-- The store after a `Save` of a free ID.
abbrev stored : JobRecord → MemoryStore → MemoryStore
stored rec s = record s { records = insert rec.id (clone_record (with_defaults rec)) s.records }

save_free :
    (rec : JobRecord) (s : MemoryStore)
    → s.closed ≡ false
    → lookup rec.id s.records ≡ none
    → save none rec s ≡ (stored rec s, ok tt)
unfolding save
save_free rec s o h = guarded_open s _ o ∙ rw h

save_taken :
    (rec old : JobRecord) (s : MemoryStore)
    → s.closed ≡ false
    → lookup rec.id s.records ≡ some old
    → save none rec s ≡ (s, err already_exists)
unfolding save
save_taken rec old s o h = guarded_open s _ o ∙ rw h

-- On an open store `Save` stores the record with the default status and version if its ID is free,
-- and else changes nothing: a later `Get` of this ID returns what was stored, and a `Get` of any
-- other ID what it returned before.
pub get-save :
    (id : Bytes) (rec : JobRecord) (s : MemoryStore)
    → s.closed ≡ false
    → (get none id (save none rec s).0).1 ≡ (
        if bytes_eq rec.id id && is_nil (lookup rec.id s.records)
        then ok (clone_record (with_defaults rec))
        else (get none id s).1)
unfolding answer
get-save id rec s o = elim (Option-cases (lookup rec.id s.records)) [
  | inl free ↦ ground (
    arith,
    save_free rec s o free,
    get-answer id (stored rec s) o,
    get-answer id s o,
    lookup-insert rec.id id (clone_record (with_defaults rec)) s.records,
    clone-clone (with_defaults rec),
  )
  | inr (old, taken) ↦ ground (arith, save_taken rec old s o taken)
]

-- `rec` is for the stored version.
abbrev pub is_current : Option JobRecord → JobRecord → Bool
is_current none rec = false
is_current (some old) rec = eqb_ℤ old.version rec.version

-- The record that `Update` leaves.
abbrev pub next_version : JobRecord → JobRecord
next_version rec = clone_record (record rec { version = int64 (rec.version +ℤ pos 1) })

replaced_current :
    (old rec : JobRecord)
    → eqb_ℤ old.version rec.version ≡ true
    → replaced old rec ≡ next_version rec
unfolding replaced
replaced_current old rec h =
    ap (λ v. clone_record (record rec { version = int64 (v +ℤ pos 1) }))
      ((eqb_ℤ_iff old.version rec.version).0 h)

next_version_ne : (rec : JobRecord) → eqb_ℤ (next_version rec).version rec.version ≡ false
unfolding clone_record
next_version_ne rec = int64_add_one_ne rec.version

-- The store after an `Update` of the stored version.
abbrev updated : JobRecord → MemoryStore → MemoryStore
updated rec s = record s { records = insert rec.id (next_version rec) s.records }

update_missing :
    (rec : JobRecord) (s : MemoryStore)
    → s.closed ≡ false
    → lookup rec.id s.records ≡ none
    → update none rec s ≡ (s, err not_found)
unfolding update
update_missing rec s o h = guarded_open s _ o ∙ rw h

update_outdated :
    (rec old : JobRecord) (s : MemoryStore)
    → s.closed ≡ false
    → lookup rec.id s.records ≡ some old
    → eqb_ℤ old.version rec.version ≡ false
    → update none rec s ≡ (s, err conflict)
unfolding update
update_outdated rec old s o h e = guarded_open s _ o ∙ rw (h, e)

update_current :
    (rec old : JobRecord) (s : MemoryStore)
    → s.closed ≡ false
    → lookup rec.id s.records ≡ some old
    → eqb_ℤ old.version rec.version ≡ true
    → update none rec s ≡ (updated rec s, ok tt)
unfolding update
update_current rec old s o h e = guarded_open s _ o ∙ rw (h, e, replaced_current old rec e)

-- On an open store `Update` replaces the record of its ID if it is given the stored version, and
-- else changes nothing: a later `Get` of this ID returns what was given with the next version, and a
-- `Get` of any other ID what it returned before.
pub get-update :
    (id : Bytes) (rec : JobRecord) (s : MemoryStore)
    → s.closed ≡ false
    → (get none id (update none rec s).0).1 ≡ (
        if bytes_eq rec.id id && is_current (lookup rec.id s.records) rec
        then ok (next_version rec)
        else (get none id s).1)
unfolding answer
get-update id rec s o = elim (Option-cases (lookup rec.id s.records)) [
  | inl missing ↦ ground (arith, update_missing rec s o missing)
  | inr (old, there) ↦ elim (Bool-cases (eqb_ℤ old.version rec.version)) [
    | inl current ↦ ground (
      arith,
      update_current rec old s o there current,
      get-answer id (updated rec s) o,
      get-answer id s o,
      lookup-insert rec.id id (next_version rec) s.records,
      clone-clone (record rec { version = int64 (rec.version +ℤ pos 1) }),
    )
    | inr old_version ↦ ground (arith, update_outdated rec old s o there old_version)
  ]
]

-- Of two updates of the same version of a record the second is refused: after a successful `Update`
-- another one with this ID and this version answers `ErrConflict` and changes nothing.
pub no_lost_update :
    (first second : JobRecord) (s s1 : MemoryStore)
    → s.closed ≡ false
    → update none first s ≡ (s1, ok tt)
    → second.id ≡ first.id
    → second.version ≡ first.version
    → update none second s1 ≡ (s1, err conflict)
no_lost_update first second s s1 o done id version =
    elim (Option-cases (lookup first.id s.records)) [
      | inl missing ↦ cc (update_missing first s o missing, done)
      | inr (old, there) ↦ elim (Bool-cases (eqb_ℤ old.version first.version)) [
        | inl current ↦
            let next : s1 ≡ updated first s =
              ap (λ t. t.0) (sym done ∙ update_current first old s o there current) in
            update_outdated second (next_version first) s1 (ap (λ t. t.closed) next ∙ o)
              (ap (λ t. lookup second.id t.records) next
                ∙ ap (λ t. lookup t (updated first s).records) id
                ∙ lookup-insert first.id first.id (next_version first) s.records
                ∙ rw (bytes_eq_refl first.id))
              (ap (eqb_ℤ (next_version first).version) version ∙ next_version_ne first)
        | inr outdated ↦ cc (update_outdated first old s o there outdated, done)
      ]
    ]

delete_missing :
    (k : Bytes) (s : MemoryStore)
    → s.closed ≡ false
    → lookup k s.records ≡ none
    → delete none k s ≡ (s, err not_found)
unfolding delete
delete_missing k s o h = guarded_open s _ o ∙ rw h

delete_stored :
    (k : Bytes) (old : JobRecord) (s : MemoryStore)
    → s.closed ≡ false
    → lookup k s.records ≡ some old
    → delete none k s ≡ (record s { records = erase k s.records }, ok tt)
unfolding delete
delete_stored k old s o h = guarded_open s _ o ∙ rw h

-- On an open store `Delete` takes away the record of its ID and no other: a later `Get` of this ID
-- answers `ErrNotFound`, and a `Get` of any other ID what it answered before.
pub get-delete :
    (id k : Bytes) (s : MemoryStore)
    → s.closed ≡ false
    → (get none id (delete none k s).0).1
      ≡ (if bytes_eq k id then err not_found else (get none id s).1)
unfolding delete answer
get-delete id k s o = elim (Option-cases (lookup k s.records)) [
  | inl missing ↦ ground (arith, delete_missing k s o missing, get-answer id s o, bytes_eq_iff k id)
  | inr (old, there) ↦ ground (
    arith,
    delete_stored k old s o there,
    get-answer id (record s { records = erase k s.records }) o,
    get-answer id s o,
    lookup-erase k id s.records,
  )
]
