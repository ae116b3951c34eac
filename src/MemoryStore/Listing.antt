-- ===== src/MemoryStore/Listing.antt =====
-- What `List` of backend/memory.go answers.
use mathlib.Core.List.{Permᴰ}
use mathlib.Core.List.Permᴰ
use gokue.JobStore.{has_status}
use gokue.Prelude.{
  String, Option, ℕ, ◌≤◌, zero, suc, true, false, List, [], ◌∷◌, ◌≡◌, refl, arith, All,
  if◌then◌else◌, take, length, ap, if_cases,
}
use gokue.Prelude.Int.{ℤ, pos, pos_part, ltb_ℤ}
use gokue.Prelude.Bytes.{bytes_lt_irrefl, bytes_lt_trans, eq_of_not-bytes_lt}
use gokue.Record.{clone_record, JobRecord, earlier, Sorted}
use gokue.MemoryStore.{Records, MemoryStore, insert_sorted, sort_records, limited}

earlier_trans : (a b c : JobRecord) → earlier a b ≡ true → earlier b c ≡ true → earlier a c ≡ true
unfolding earlier
earlier_trans a b c h k = ground (arith, bytes_lt_trans a.id b.id c.id)

insert_sorted_permutes : (a : JobRecord) (l : List JobRecord) → Permᴰ (insert_sorted a l) (a ∷ l)
unfolding insert_sorted
insert_sorted_permutes a [] = Permᴰ.refl _
insert_sorted_permutes a (b ∷ l) =
    if_cases (λ t. Permᴰ t (a ∷ b ∷ l)) (earlier b a) _ _
      (λ h. Permᴰ.trans (Permᴰ.cons refl (insert_sorted_permutes a l)) (Permᴰ.swap refl refl))
      (λ h. Permᴰ.refl _)

pub sort_records_permutes : (l : List JobRecord) → Permᴰ (sort_records l) l
unfolding sort_records
sort_records_permutes [] = Permᴰ.nil
sort_records_permutes (a ∷ l) =
    Permᴰ.trans (insert_sorted_permutes a (sort_records l))
      (Permᴰ.cons refl (sort_records_permutes l))

not_earlier_trans :
    (a b c : JobRecord) → earlier b a ≡ false → earlier c b ≡ false → earlier c a ≡ false
unfolding earlier
not_earlier_trans a b c h k = ground (
  arith,
  bytes_lt_trans a.id b.id c.id,
  bytes_lt_trans c.id a.id b.id,
  eq_of_not-bytes_lt a.id b.id,
  eq_of_not-bytes_lt b.id c.id,
  bytes_lt_irrefl a.id,
)

earlier_asymm : (a b : JobRecord) → earlier a b ≡ true → earlier b a ≡ false
unfolding earlier
earlier_asymm a b h = ground (arith, bytes_lt_trans a.id b.id a.id, bytes_lt_irrefl a.id)

pub All-mono :
    (P Q : JobRecord → Type 0) (l : List JobRecord)
    → ((b : JobRecord) → P b → Q b)
    → All P l
    → All Q l
All-mono P Q [] f h = tt
All-mono P Q (b ∷ l) f (p, h) = (f b p, All-mono P Q l f h)

All-insert_sorted :
    (P : JobRecord → Type 0) (a : JobRecord) (l : List JobRecord)
    → P a
    → All P l
    → All P (insert_sorted a l)
unfolding insert_sorted
All-insert_sorted P a [] p h = (p, tt)
All-insert_sorted P a (b ∷ l) p (q, h) =
    if_cases (All P) (earlier b a) _ _ (λ e. (q, All-insert_sorted P a l p h)) (λ e. (p, (q, h)))

insert_sorted-Sorted : (a : JobRecord) (l : List JobRecord) → Sorted l → Sorted (insert_sorted a l)
unfolding insert_sorted
insert_sorted-Sorted a [] h = (tt, tt)
insert_sorted-Sorted a (b ∷ l) (first, h) =
    if_cases Sorted (earlier b a) _ _
      (λ e. (
        All-insert_sorted (λ c. earlier c b ≡ false) a l (earlier_asymm b a e) first,
        insert_sorted-Sorted a l h,
      ))
      (λ e. ((e, All-mono _ _ l (λ c k. not_earlier_trans a b c e k) first), (first, h)))

pub sort_records-Sorted : (l : List JobRecord) → Sorted (sort_records l)
unfolding sort_records
sort_records-Sorted [] = tt
sort_records-Sorted (a ∷ l) = insert_sorted-Sorted a (sort_records l) (sort_records-Sorted l)

take_all : (n : ℕ) (l : List JobRecord) → length l ≤ n → take n l ≡ l
take_all zero [] h = refl
take_all zero (a ∷ l) h = absurd (omega arith)
take_all (suc n) [] h = refl
take_all (suc n) (a ∷ l) h = ap (λ t. a ∷ t) (take_all n l (omega arith))

-- A positive limit cuts the list, and any other does not.
pub limited_lem :
    (limit : ℤ) (l : List JobRecord)
    → limited limit l ≡ (if ltb_ℤ (pos 0) limit then take (pos_part limit) l else l)
unfolding limited
limited_lem limit l = ground (arith, take_all (pos_part limit) l)

-- The copies of the records that have the status, or of all of them without one.
abbrev pub of_status : Option String → Records → List JobRecord
of_status status [] = []
of_status status ((id, rec) ∷ m) =
    let rest = of_status status m in if has_status status rec then clone_record rec ∷ rest else rest
