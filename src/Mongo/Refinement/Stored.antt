-- ===== src/Mongo/Refinement/Stored.antt =====
-- What the methods of backend/mongodb/store.go leave in the collection is stored as it has to be.
use mathlib.Core.Path.{subst}
use mathlib.Core.Option
use gokue.Prelude.{
  ℕ, Option, none, some, ◌≡◌, refl, sym, ap, ◌∙◌, arith, Bool-cases, Option-cases, inl, inr,
  if◌then◌else◌, if_cases,
}
use gokue.Prelude.Bytes.{Bytes, bytes_eq, bytes_eq_iff}
use gokue.JobStore.{Keeping, put, remove, Same}
use gokue.Mongo.Driver.{Document, Filter, Changes, Reply}
use gokue.Mongo.Laws.{
  Content, satisfies, stored, changed, Inserts, new_id, old_id, FindsAndUpdates, Updates, Deletes,
  UpdatesMany, one, nothing, first, each, IsStored,
}

module _ (keep : Keeping) where
  IsStored-Same : (m n : Content) → Same n m → IsStored keep m → IsStored keep n
  IsStored-Same m n same v = record {
    keyed = λ k d at. v.keyed k d (sym (same k) ∙ at);
    payloads = λ k d at. v.payloads k d (sym (same k) ∙ at);
    payloads_kept = v.payloads_kept;
    dates = v.dates;
  }

  -- The document under an ID, after one was put.
  put_cases :
      (P : Bytes → Document → Type 0) (m : Content) (k : Bytes) (x : Document)
      → P k x
      → ((j : Bytes) (d : Document) → m j ≡ some d → P j d)
      → (j : Bytes) (d : Document) → put k x m j ≡ some d
      → P j d
  put_cases P m k x new old j d at = elim (Bool-cases (bytes_eq k j)) [
    | inl hit ↦
        let there : some x ≡ some d = sym (ap (λ b. if b then some x else m j) hit) ∙ at in
        let same : x ≡ d = cc there in
        subst (λ i. P i d) ((bytes_eq_iff k j).0 hit) (subst (P k) same new)
    | inr miss ↦ old j d (sym (ap (λ b. if b then some x else m j) miss) ∙ at)
  ]

  IsStored-put :
      (m n : Content) (k : Bytes) (x : Document)
      → IsStored keep m
      → x.id ≡ k
      → keep.payload x.payload ≡ x.payload
      → Same n (put k x m)
      → IsStored keep n
  IsStored-put m n k x v key kept same = record {
    keyed = λ j d at. put_cases (λ i y. y.id ≡ i) m k x key v.keyed j d (sym (same j) ∙ at);
    payloads = λ j d at.
        put_cases (λ i y. keep.payload y.payload ≡ y.payload) m k x kept v.payloads j d
          (sym (same j) ∙ at);
    payloads_kept = v.payloads_kept;
    dates = v.dates;
  }

  removed_old : (m : Content) (k j : Bytes) (d : Document) → remove k m j ≡ some d → m j ≡ some d
  removed_old m k j d at = ground arith

  IsStored-remove :
      (m n : Content) (k : Bytes) → IsStored keep m → Same n (remove k m) → IsStored keep n
  IsStored-remove m n k v same = record {
    keyed = λ j d at. v.keyed j d (removed_old m k j d (sym (same j) ∙ at));
    payloads = λ j d at. v.payloads j d (removed_old m k j d (sym (same j) ∙ at));
    payloads_kept = v.payloads_kept;
    dates = v.dates;
  }

  -- An update whose payload, if it has one, is kept as it is stored.
  IsKept-changed :
      (ch : Changes) (d : Document)
      → ((p : Option Bytes) → keep.payload (keep.payload p) ≡ keep.payload p)
      → keep.payload d.payload ≡ d.payload
      → keep.payload (changed keep ch d).payload ≡ (changed keep ch d).payload
  IsKept-changed ch d twice old = elim (Option-cases ch.payload) [
    | inl absent ↦ rw absent old
    | inr (p, given) ↦ rw given (twice p)
  ]

  pub insert-IsStored :
      (d : Document) (m n : Content) (r : Reply (Unit {0}))
      → IsStored keep m
      → Inserts keep d m n r
      → IsStored keep n
  insert-IsStored d m n _ v (new_id free same) =
      IsStored-put m n d.id (stored keep d) v refl (v.payloads_kept d.payload) same
  insert-IsStored d m n _ v (old_id old there same) = IsStored-Same m n same v

  changed-IsStored :
      (ch : Changes) (m n : Content) (k : Bytes) (d : Document)
      → IsStored keep m
      → m k ≡ some d
      → Same n (put k (changed keep ch d) m)
      → IsStored keep n
  changed-IsStored ch m n k d v at same =
      IsStored-put m n k (changed keep ch d) v (v.keyed k d at)
        (IsKept-changed ch d v.payloads_kept (v.payloads k d at)) same

  pub find_and_update-IsStored :
      (f : Filter) (ch : Changes) (m n : Content) (r : Reply Document)
      → IsStored keep m
      → FindsAndUpdates keep f ch m n r
      → IsStored keep n
  find_and_update-IsStored f ch m n _ v (first k d at fits oldest same) =
      changed-IsStored ch m n k d v at same
  find_and_update-IsStored f ch m n _ v (nothing absent same) = IsStored-Same m n same v

  pub update-IsStored :
      (f : Filter) (ch : Changes) (m n : Content) (r : Reply ℕ)
      → IsStored keep m
      → Updates keep f ch m n r
      → IsStored keep n
  update-IsStored f ch m n _ v (one k d at fits same) = changed-IsStored ch m n k d v at same
  update-IsStored f ch m n _ v (nothing absent same) = IsStored-Same m n same v

  pub delete-IsStored :
      (f : Filter) (m n : Content) (r : Reply ℕ)
      → IsStored keep m
      → Deletes keep f m n r
      → IsStored keep n
  delete-IsStored f m n _ v (one k d at fits same) = IsStored-remove m n k v same
  delete-IsStored f m n _ v (nothing absent same) = IsStored-Same m n same v

  -- Where a document of the content comes from after an update of many.
  updated_from :
      (f : Filter) (ch : Changes) (P : Document → Type 0) (o : Option Document) (x : Document)
      → ((d : Document) → o ≡ some d → P d × P (changed keep ch d))
      → Option.map (λ d. if satisfies keep f d then changed keep ch d else d) o ≡ some x
      → P x
  updated_from f ch P none x h e = absurd (cc e)
  updated_from f ch P (some d) x h e =
      let made : (if satisfies keep f d then changed keep ch d else d) ≡ x = cc e in
      subst P made
        (if_cases P (satisfies keep f d) _ _ (λ hit. (h d refl).1) (λ miss. (h d refl).0))

  pub update_many-IsStored :
      (f : Filter) (ch : Changes) (m n : Content) (r : Reply ℕ)
      → IsStored keep m
      → UpdatesMany keep f ch m n r
      → IsStored keep n
  update_many-IsStored f ch m n _ v (each count same zero_iff) = record {
    keyed = λ j x at.
        updated_from f ch (λ y. y.id ≡ j) (m j) x
          (λ d there. (v.keyed j d there, v.keyed j d there)) (sym (same j) ∙ at);
    payloads = λ j x at.
        updated_from f ch (λ y. keep.payload y.payload ≡ y.payload) (m j) x
          (λ d there.
            let old = v.payloads j d there in (old, IsKept-changed ch d v.payloads_kept old))
          (sym (same j) ∙ at);
    payloads_kept = v.payloads_kept;
    dates = v.dates;
  }
