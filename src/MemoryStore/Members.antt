-- ===== src/MemoryStore/Members.antt =====
-- Which records the loops of `List` and `RequeueStale` of backend/memory.go reach.
use mathlib.Core.Path.{subst}
use mathlib.Core.Logic.{∥∥₁_map}
use mathlib.Core.List.{Mem, Memᴰ, mem-cons_self, mem-cons_of_mem}
use gokue.Prelude.{
  String, true, false, Option, none, some, List, [], ◌∷◌, ◌≡◌, ◌↔◌, refl, sym, arith, All, inl, inr,
  Bool-cases, if_cases,
}
use gokue.Prelude.Int.{ℤ}
use gokue.Prelude.Bytes.{Bytes, bytes_eq, bytes_eq_iff}
use gokue.Record.{JobRecord, clone_record}
use gokue.RecordMap.{lookup, Distinct}
use gokue.MemoryStore.{Records, matches, matching, is_stale, count_stale}
use gokue.MemoryStore.Choice.{Entry, All-lookup}
use gokue.MemoryStore.Listing.{All-mono}

pub All-Mem :
    (P : JobRecord → Type 0) (l : List JobRecord) (x : JobRecord) → All P l → Mem x l → ∥ P x ∥₁
All-Mem P l x a h = ∥∥₁_map h (here l a)
  where
    here : (l : List JobRecord) → All P l → Memᴰ x l → P x
    here [] a m = elim m [ ]
    here (y ∷ l) a (Memᴰ.head e) = subst P (sym e) a.0
    here (y ∷ l) a (Memᴰ.tail m) = here l a.1 m

-- `x` is the copy of a record of the map with this status.
abbrev pub IsCopy : Option String → Records → JobRecord → Type 0
IsCopy status m x =
    (k : Bytes) × (r : JobRecord) × (lookup k m ≡ some r)
    × (matches status r ≡ true)
    × (x ≡ clone_record r)

lookup_later :
    (j k : Bytes) (q r : JobRecord) (m : Records)
    → lookup j m ≡ none
    → lookup k m ≡ some r
    → lookup k ((j, q) ∷ m) ≡ some r
unfolding lookup
lookup_later j k q r m free h = ground (arith, bytes_eq_iff j k)

lookup_first : (j : Bytes) (q : JobRecord) (m : Records) → lookup j ((j, q) ∷ m) ≡ some q
unfolding lookup
lookup_first j q m = ground (arith, bytes_eq_iff j j)

-- `List` copies nothing else.
pub matching-IsCopy :
    (status : Option String) (m : Records) → Distinct m → All (IsCopy status m) (matching status m)
unfolding matching
matching-IsCopy status [] d = tt
matching-IsCopy status ((j, q) ∷ m) d =
    let rest : All (IsCopy status ((j, q) ∷ m)) (matching status m) =
      All-mono _ _ (matching status m)
        (λ x (k, r, there, fits, same). (k, r, lookup_later j k q r m d.0 there, fits, same))
        (matching-IsCopy status m d.1) in
    if_cases (All (IsCopy status ((j, q) ∷ m))) (matches status q) _ _
      (λ fits. ((j, q, lookup_first j q m, fits, refl), rest)) (λ h. rest)

-- `List` copies every record of the map with this status.
pub Mem-matching :
    (status : Option String) (k : Bytes) (r : JobRecord) (m : Records)
    → lookup k m ≡ some r
    → matches status r ≡ true
    → Mem (clone_record r) (matching status m)
unfolding lookup matching
Mem-matching status k r [] h fits = cc
Mem-matching status k r ((j, q) ∷ m) h fits = elim (Bool-cases (bytes_eq j k)) [
  | inl hit ↦
      let same : q ≡ r = ground arith in
      if_cases (Mem (clone_record r)) (matches status q) _ _
        (λ f.
          subst (λ p. Mem (clone_record r) (clone_record p ∷ matching status m)) (sym same)
            mem-cons_self)
        (λ f. cc)
  | inr miss ↦
      let there = Mem-matching status k r m (ground arith) fits in
      if_cases (Mem (clone_record r)) (matches status q) _ _ (λ f. mem-cons_of_mem _ there)
        (λ f. there)
]

-- What holds of every record that can be looked up holds of every entry.
All-of_lookup :
    (P : Entry → Type 0) (m : Records)
    → Distinct m
    → ((j : Bytes) (r : JobRecord) → lookup j m ≡ some r → P (j, r))
    → All P m
All-of_lookup P [] d h = tt
All-of_lookup P ((k, q) ∷ m) d h = (
  h k q (lookup_first k q m),
  All-of_lookup P m d.1 (λ j r there. h j r (lookup_later k j q r m d.0 there)),
)

none_stale_iff :
    (cutoff : ℤ) (m : Records)
    → (count_stale cutoff m ≡ 0) ↔ All (λ e. is_stale cutoff e.1 ≡ false) m
unfolding count_stale
none_stale_iff cutoff [] = (λ h. tt, λ h. refl)
none_stale_iff cutoff ((k, q) ∷ m) =
    let rest = none_stale_iff cutoff m in
    (
      λ h.
          let (fresh, others) : (is_stale cutoff q ≡ false) × (count_stale cutoff m ≡ 0) =
            ground arith in
          (fresh, rest.0 others),
      λ (fresh, others). let e = rest.1 others in ground arith,
    )

-- `RequeueStale` counts 0 exactly if no record of the map is stale.
pub count_stale-eq-zero_iff :
    (cutoff : ℤ) (m : Records)
    → Distinct m
    → (count_stale cutoff m ≡ 0)
      ↔ ((j : Bytes) (r : JobRecord) → lookup j m ≡ some r → is_stale cutoff r ≡ false)
count_stale-eq-zero_iff cutoff m d = (
  λ h j r there. All-lookup _ j r m ((none_stale_iff cutoff m).0 h) there,
  λ h. (none_stale_iff cutoff m).1 (All-of_lookup _ m d h),
)
