-- ===== src/MemoryStore/Choice.antt =====
-- What the loop of `Claim` of backend/memory.go finds in the map.
use mathlib.Core.Path.{subst}
use gokue.Prelude.{
  ◌=?◌, Bool, true, false, ◌&&◌, Option, none, some, [], ◌∷◌, ◌≡◌, refl, ◌⊎◌, inl, inr, arith, All,
  Bool-cases, ap, sym, ◌∙◌,
}
use gokue.Prelude.Bytes.{Bytes, bytes_eq, bytes_eq_iff, bytes_lt_irrefl, bytes_lt_trans}
use gokue.Record.{status_pending, JobRecord}
use gokue.RecordMap.{lookup, Distinct}
use gokue.MemoryStore.{Records, precedes, consider, choose}

abbrev pub Entry : Type 0
Entry = Bytes × JobRecord

precedes_trans : (a b c : Entry) → precedes a b ≡ true → precedes b c ≡ true → precedes a c ≡ true
precedes_trans (i, a) (j, b) (k, c) h l = ground (arith, bytes_lt_trans i j k)

precedes_irrefl : (a : Entry) → precedes a a ≡ false
precedes_irrefl (i, a) = ground (arith, bytes_lt_irrefl i)

precedes_asymm : (a b : Entry) → precedes a b ≡ true → precedes b a ≡ false
precedes_asymm a b h = elim (Bool-cases (precedes b a)) [
  | inl k ↦ ground (arith, precedes_trans a b a h k, precedes_irrefl a)
  | inr k ↦ k
]

precedes_none : (a b c : Entry) → precedes a c ≡ false → precedes b c ≡ true → precedes a b ≡ false
precedes_none a b c h l = elim (Bool-cases (precedes a b)) [
  | inl k ↦ ground (arith, precedes_trans a b c k l)
  | inr k ↦ k
]

abbrev pub is_pending : Entry → Bool
is_pending e = e.1.status =? status_pending

-- An entry of the map.
abbrev pub In : Entry → Records → Type 0
In x [] = ⊥
In x (y ∷ m) = (x ≡ y) ⊎ In x m

-- No pending entry comes before `x`.
abbrev pub Least : Entry → Records → Type 0
Least x m = All (λ e. is_pending e ≡ true → precedes e x ≡ false) m

-- `x` is `b`, or a pending entry of `m` that comes before `b`.
abbrev Improves : Entry → Entry → Records → Type 0
Improves x b m = (x ≡ b) ⊎ ((precedes x b ≡ true) × In x m × (is_pending x ≡ true))

not_before_improved :
    (e x b : Entry) (m : Records) → Improves x b m → precedes e b ≡ false → precedes e x ≡ false
not_before_improved e x b m (inl same) h = subst (λ t. precedes e t ≡ false) (sym same) h
not_before_improved e x b m (inr (before, at, pend)) h = precedes_none e x b h before

Improves-step :
    (e x b : Entry) (m : Records)
    → is_pending e ≡ true
    → precedes e b ≡ true
    → Improves x e m
    → Improves x b (e ∷ m)
Improves-step e x b m pend before (inl same) = inr (
  subst (λ t. precedes t b ≡ true) (sym same) before,
  inl same,
  subst (λ t. is_pending t ≡ true) (sym same) pend,
)
Improves-step e x b m pend before (inr (less, at, p)) =
    inr (precedes_trans x e b less before, inr at, p)

Improves-tail : (e x b : Entry) (m : Records) → Improves x b m → Improves x b (e ∷ m)
Improves-tail e x b m (inl same) = inl same
Improves-tail e x b m (inr (less, at, p)) = inr (less, inr at, p)

consider_takes :
    (e b : Entry) → is_pending e ≡ true → precedes e b ≡ true → consider e (some b) ≡ some e
unfolding consider
consider_takes (i, e) b h l = rw (h, l)

consider_keeps :
    (e b : Entry) → (is_pending e && precedes e b) ≡ false → consider e (some b) ≡ some b
unfolding consider
consider_keeps (i, e) b h = rw h

choose-Improves :
    (b : Entry) (m : Records)
    → (x : Entry) × (choose (some b) m ≡ some x) × Improves x b m × Least x m
unfolding choose
choose-Improves b [] = (b, refl, inl refl, tt)
choose-Improves b (e ∷ m) = elim (Bool-cases (is_pending e && precedes e b)) [
  | inl takes ↦
      let pend : is_pending e ≡ true = ground arith in
      let before : precedes e b ≡ true = ground arith in
      let (x, found, better, least) = choose-Improves e m in
      (
        x,
        ap (λ t. choose t m) (consider_takes e b pend before) ∙ found,
        Improves-step e x b m pend before better,
        ((λ h. not_before_improved e x e m better (precedes_irrefl e)), least),
      )
  | inr keeps ↦
      let (x, found, better, least) = choose-Improves b m in
      (
        x,
        ap (λ t. choose t m) (consider_keeps e b keeps) ∙ found,
        Improves-tail e x b m better,
        ((λ h. not_before_improved e x b m better (ground arith)), least),
      )
]

-- What the loop of `Claim` finds: nothing if no entry is pending, or a pending entry that no pending
-- entry precedes.
abbrev pub Found : Records → Option Entry → Type 0
Found m none = All (λ e. is_pending e ≡ false) m
Found m (some x) = In x m × (is_pending x ≡ true) × Least x m

Found-improved :
    (e x : Entry) (m : Records)
    → is_pending e ≡ true
    → Improves x e m
    → Least x m
    → Found (e ∷ m) (some x)
Found-improved e x m pend better least =
    let first =
      λ (h : is_pending e ≡ true). not_before_improved e x e m better (precedes_irrefl e) in
    elim better [
      | inl same ↦ (inl same, subst (λ t. is_pending t ≡ true) (sym same) pend, (first, least))
      | inr (less, at, p) ↦ (inr at, p, (first, least))
    ]

Found-skip :
    (e : Entry) (m : Records) (o : Option Entry)
    → is_pending e ≡ false
    → Found m o
    → Found (e ∷ m) o
Found-skip e m none h f = (h, f)
Found-skip e m (some x) h (at, p, least) = (inr at, p, ((λ k. cc), least))

consider_first : (e : Entry) → is_pending e ≡ true → consider e none ≡ some e
unfolding consider
consider_first (i, e) h = rw h

consider_skips : (e : Entry) → is_pending e ≡ false → consider e none ≡ none
unfolding consider
consider_skips (i, e) h = rw h

pub choose-Found : (m : Records) → Found m (choose none m)
unfolding choose
choose-Found [] = tt
choose-Found (e ∷ m) = elim (Bool-cases (is_pending e)) [
  | inl pend ↦
      let (x, found, better, least) = choose-Improves e m in
      subst (Found (e ∷ m)) (sym (ap (λ t. choose t m) (consider_first e pend) ∙ found))
        (Found-improved e x m pend better least)
  | inr skip ↦
      subst (λ t. Found (e ∷ m) (choose t m)) (sym (consider_skips e skip))
        (Found-skip e m (choose none m) skip (choose-Found m))
]

pub lookup-In : (x : Entry) (m : Records) → Distinct m → In x m → lookup x.0 m ≡ some x.1
unfolding lookup
lookup-In x [] d h = elim h [ ]
lookup-In x (y ∷ m) d (inl same) = ground (arith, bytes_eq_iff y.0 x.0)
lookup-In x (y ∷ m) d (inr at) = ground (arith, bytes_eq_iff y.0 x.0, lookup-In x m d.1 at)

pub All-lookup :
    (P : Entry → Type 0) (k : Bytes) (r : JobRecord) (m : Records)
    → All P m
    → lookup k m ≡ some r
    → P (k, r)
unfolding lookup
All-lookup P k r [] a h = cc
All-lookup P k r ((j, v) ∷ m) a h = elim (Bool-cases (bytes_eq j k)) [
  | inl hit ↦ let same : (j, v) ≡ (k, r) = ground (arith, bytes_eq_iff j k) in subst P same a.0
  | inr miss ↦ All-lookup P k r m a.1 (ground arith)
]
