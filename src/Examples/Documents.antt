-- ===== src/Examples/Documents.antt =====
-- A driver for collections of one document, which keeps the laws: on longer collections it looks at
-- the first document only.
use mathlib.Core.Path.{subst}
use mathlib.Core.Option
use mathlib.Core.Logic.{∥∥₁_elim, ∥∥₁_map, ∥∥₁_prop}
use mathlib.Core.List.{Mem, Memᴰ, mem-cons_self}
use gokue.Prelude.{
  ℕ, true, false, Option, none, some, List, [], ◌∷◌, ◌≡◌, ◌↔◌, refl, sym, ap, ◌∙◌, arith,
  Bool-cases, inl, inr, if◌then◌else◌, if_cases,
}
use gokue.Prelude.Int.{ℤ, ◌≤ℤ◌}
use gokue.Prelude.Bytes.{Bytes, bytes_eq, bytes_eq_iff, bytes_eq_refl}
use gokue.JobStore.{Keeping, put, remove, Same}
use gokue.Mongo.Driver.{
  Document, Filter, Changes, Reply, replied, no_documents, duplicate_key, Driver,
}
use gokue.Mongo.Laws.{
  Content, satisfies, stored, changed, NoneSatisfies, Inserts, new_id, old_id, Finds,
  FindsAndUpdates, Updates, Deletes, Lists, in_order, at_most, UpdatesMany, each, Counts,
  up_to_limit, one, nothing, first, Obeys,
}

unfoldable pub content : List Document → Content
content [] j = none
content (d ∷ l) j = let rest = content l j in if bytes_eq d.id j then some d else rest

module _ (keep : Keeping) where
  abbrev insert_one : Document → List Document → List Document × Reply (Unit {0})
  insert_one e [] = (stored keep e ∷ [], replied tt)
  insert_one e (d ∷ l) =
      if bytes_eq d.id e.id then (d ∷ l, duplicate_key) else (stored keep e ∷ d ∷ l, replied tt)

  abbrev find_one : Filter → List Document → Reply Document
  find_one f [] = no_documents
  find_one f (d ∷ l) = if satisfies keep f d then replied d else no_documents

  abbrev find_one_and_update : Filter → Changes → List Document → List Document × Reply Document
  find_one_and_update f ch [] = ([], no_documents)
  find_one_and_update f ch (d ∷ l) =
      if satisfies keep f d
      then (changed keep ch d ∷ l, replied (changed keep ch d))
      else (d ∷ l, no_documents)

  abbrev update_one : Filter → Changes → List Document → List Document × Reply ℕ
  update_one f ch [] = ([], replied 0)
  update_one f ch (d ∷ l) =
      if satisfies keep f d then (changed keep ch d ∷ l, replied 1) else (d ∷ l, replied 0)

  abbrev delete_one : Filter → List Document → List Document × Reply ℕ
  delete_one f [] = ([], replied 0)
  delete_one f (d ∷ l) = if satisfies keep f d then (l, replied 1) else (d ∷ l, replied 0)

  abbrev fitting : Filter → List Document → List Document
  fitting f [] = []
  fitting f (d ∷ l) = if satisfies keep f d then d ∷ [] else []

  abbrev count : Filter → List Document → ℕ
  count f [] = 0
  count f (d ∷ l) = if satisfies keep f d then 1 else 0

  abbrev pub one_document : Driver
  one_document = record {
    Collection = List Document;
    create_index = λ ctx l. (l, replied tt);
    insert_one = λ ctx. insert_one;
    find_one = λ ctx. find_one;
    find_one_and_update = λ ctx f ch order. find_one_and_update f ch;
    update_one = λ ctx. update_one;
    delete_one = λ ctx. delete_one;
    find = λ ctx f order limit l. replied (some (at_most limit (fitting f l)));
    update_many = λ ctx. update_one;
    count_documents = λ ctx f limit l. replied (count f l);
  }

  module _ (d : Document) where
    pub single : (k : Bytes) (e : Document) → content (d ∷ []) k ≡ some e → (d ≡ e) × (d.id ≡ k)
    unfolding content
    single k e h = ground (arith, bytes_eq_iff d.id k)

    own : content (d ∷ []) d.id ≡ some d
    unfolding content
    own = ground (arith, bytes_eq_refl d.id)

    none_fits : (f : Filter) → satisfies keep f d ≡ false → NoneSatisfies keep f (content (d ∷ []))
    none_fits f h k e at = subst (λ x. satisfies keep f x ≡ false) (single k e at).0 h

    missing : (e : Document) → bytes_eq d.id e.id ≡ false → content (d ∷ []) e.id ≡ none
    unfolding content
    missing e h = ap (λ b. if b then some d else none) h

    prepended :
        (e : Document)
        → Same (content (stored keep e ∷ d ∷ [])) (put e.id (stored keep e) (content (d ∷ [])))
    unfolding content
    prepended e j = refl

    changed-put :
        (ch : Changes)
        → Same (content (changed keep ch d ∷ [])) (put d.id (changed keep ch d) (content (d ∷ [])))
    unfolding content
    changed-put ch j = ground arith

    removed : Same (content []) (remove d.id (content (d ∷ [])))
    unfolding content
    removed j = ground arith

    changed_each :
        (f : Filter) (ch : Changes) (j : Bytes)
        → satisfies keep f d ≡ true
        → content (changed keep ch d ∷ []) j
          ≡ Option.map
              (λ e. if satisfies keep f e then changed keep ch e else e)
              (content (d ∷ []) j)
    unfolding content
    changed_each f ch j h = elim (Bool-cases (bytes_eq d.id j)) [
      | inl hit ↦ rw hit (ap some (sym (ap (λ b. if b then changed keep ch d else d) h)))
      | inr miss ↦ rw miss refl
    ]

    kept_each :
        (f : Filter) (ch : Changes) (j : Bytes)
        → satisfies keep f d ≡ false
        → content (d ∷ []) j
          ≡ Option.map
              (λ e. if satisfies keep f e then changed keep ch e else e)
              (content (d ∷ []) j)
    unfolding content
    kept_each f ch j h = elim (Bool-cases (bytes_eq d.id j)) [
      | inl hit ↦ rw hit (ap some (sym (ap (λ b. if b then changed keep ch d else d) h)))
      | inr miss ↦ rw miss refl
    ]

    count_iff : (f : Filter) → (count f (d ∷ []) ≡ 0) ↔ NoneSatisfies keep f (content (d ∷ []))
    count_iff f =
        if_cases (λ n. (n ≡ 0) ↔ NoneSatisfies keep f (content (d ∷ []))) (satisfies keep f d) 1 0
          (λ h. (λ e. absurd (cc e), λ absent. absurd (cc (h, absent d.id d own))))
          (λ h. (λ e. none_fits f h, λ absent. refl))

    listed :
        (f : Filter) (limit : Option ℤ)
        → Lists keep f limit
            (content (d ∷ []))
            (replied (some (at_most limit (fitting f (d ∷ [])))))
    listed f limit =
        if_cases (λ all. Lists keep f limit (content (d ∷ [])) (replied (some (at_most limit all))))
          (satisfies keep f d) (d ∷ []) []
          (λ h.
            in_order (d ∷ []) (tt, tt)
              (λ k e at fits. subst (λ x. Mem x (d ∷ [])) (single k e at).0 mem-cons_self)
              (λ e member. ∥∥₁_map member (λ m. only e m h)))
          (λ h.
            in_order [] tt (λ k e at fits. absurd (cc (none_fits f h k e at, fits)))
              (λ e member. ∥∥₁_elim member ∥∥₁_prop (λ m. elim m [ ])))
      where
        only :
            (e : Document)
            → Memᴰ e (d ∷ [])
            → satisfies keep f d ≡ true
            → (k : Bytes) × (content (d ∷ []) k ≡ some e) × (satisfies keep f e ≡ true)
        only e (Memᴰ.head same) h = (d.id, own ∙ ap some (sym same), ap (satisfies keep f) same ∙ h)
        only e (Memᴰ.tail m) h = elim m [ ]

    updated :
        (f : Filter) (ch : Changes)
        → let r = update_one f ch (d ∷ []) in Updates keep f ch (content (d ∷ [])) (content r.0) r.1
    updated f ch =
        if_cases
          (λ (r : List Document × Reply ℕ). Updates keep f ch (content (d ∷ [])) (content r.0) r.1)
          (satisfies keep f d) _ _ (λ h. one d.id d own h (changed-put ch))
          (λ h. nothing (none_fits f h) (λ j. refl))

  pub one_document-Obeys : (d : Document) → Obeys one_document keep content (d ∷ [])
  one_document-Obeys d = record {
    insert = λ e fits.
        if_cases
          (λ (r : List Document × Reply (Unit {0})).
            Inserts keep e (content (d ∷ [])) (content r.0) r.1)
          (bytes_eq d.id e.id) _ _
          (λ h.
            old_id d (ap (content (d ∷ [])) (sym ((bytes_eq_iff d.id e.id).0 h)) ∙ own d)
              (λ j. refl))
          (λ h. new_id (missing d e h) (prepended d e));
    find_one = λ f.
        if_cases (Finds keep f (content (d ∷ []))) (satisfies keep f d) _ _
          (λ h. one d.id d (own d) h) (λ h. nothing (none_fits d f h));
    find_one_and_update = λ f ch room one_version attempts.
        if_cases
          (λ (r : List Document × Reply Document).
            FindsAndUpdates keep f ch (content (d ∷ [])) (content r.0) r.1)
          (satisfies keep f d) _ _
          (λ h.
            first d.id d (own d) h
              (λ j q at fits.
                subst (λ x. d.created_at ≤ℤ x.created_at) (single d j q at).0 (omega arith))
              (changed-put d ch))
          (λ h. nothing (none_fits d f h) (λ j. refl));
    update_one = λ f ch room one_version attempts fits. updated d f ch;
    delete_one = λ f.
        if_cases
          (λ (r : List Document × Reply ℕ). Deletes keep f (content (d ∷ [])) (content r.0) r.1)
          (satisfies keep f d) _ _ (λ h. one d.id d (own d) h (removed d))
          (λ h. nothing (none_fits d f h) (λ j. refl));
    find = λ f limit. listed d f limit;
    update_many = λ f ch room one_version attempts.
        if_cases
          (λ (r : List Document × Reply ℕ).
            UpdatesMany keep f ch (content (d ∷ [])) (content r.0) r.1)
          (satisfies keep f d) _ _
          (λ h.
            each 1 (λ j. changed_each d f ch j h)
              (λ e. absurd (cc e), λ absent. absurd (cc (h, absent d.id d (own d)))))
          (λ h. each 0 (λ j. kept_each d f ch j h) (λ e. none_fits d f h, λ absent. refl));
    count_documents = λ f g ch.
        if_cases
          (λ (r : List Document × Reply ℕ). Counts keep f (content r.0) (replied (count f r.0)))
          (satisfies keep g d) _ _ (λ h. up_to_limit _ (count_iff (changed keep ch d) f))
          (λ h. up_to_limit _ (count_iff d f));
  }
