-- ===== src/MemoryStore/Claiming.antt =====
-- What `Claim` of backend/memory.go guarantees.
use mathlib.Core.Path.{subst}
use gokue.Prelude.{
  ◌+◌, ◌↔◌, ◌=?◌, true, false, Option, none, some, ◌≡◌, ◌≢◌, refl, ◌⊎◌, inl, inr, arith, sym, ◌∙◌,
  ap,
}
use gokue.Prelude.Int.{◌<ℤ◌, ◌+ℤ◌, ℤ, pos, int64, uint64}
use gokue.Prelude.Bytes.{bytes_lt, Bytes, bytes_eq_iff, eq_of_not-bytes_lt}
use gokue.Record.{status_pending, JobRecord, Result, ok, err, not_found, clone_record}
use gokue.RecordMap.{lookup, insert, Distinct}
use gokue.RecordMap.Laws.{lookup-insert}
use gokue.MemoryStore.{Records, MemoryStore, precedes, choose, claimed, claim_found, claim}
use gokue.MemoryStore.Choice.{Entry, Found, choose-Found, lookup-In, All-lookup}
use gokue.MemoryStore.Validity.{IsValid, guarded_open, claim-IsValid}

-- `r` under the ID `k` comes before `q` under `j`, or they are the same: it is older, or as old with
-- an ID that is not greater.
abbrev pub NotAfter : Bytes → JobRecord → Bytes → JobRecord → Type 0
NotAfter k r j q =
    (r.created_at <ℤ q.created_at) ⊎ ((r.created_at ≡ q.created_at) × (bytes_lt j k ≡ false))

NotAfter-precedes :
    (k j : Bytes) (r q : JobRecord) → (precedes (j, q) (k, r) ≡ false) ↔ NotAfter k r j q
NotAfter-precedes k j r q = (λ h. ground arith, λ h. ground arith)

-- The record `r` with ID `k` is pending, and no pending record of the map comes before it.
pub record IsOldestPending (m : Records) (k : Bytes) (r : JobRecord) : Type 0 where
  pub stored : lookup k m ≡ some r
  pub pending : (r.status =? status_pending) ≡ true
  pub oldest :
      (j : Bytes) (q : JobRecord)
      → lookup j m ≡ some q
      → (q.status =? status_pending) ≡ true
      → NotAfter k r j q

Found-oldest :
    (m : Records) (k : Bytes) (r : JobRecord)
    → Distinct m
    → Found m (some (k, r))
    → IsOldestPending m k r
Found-oldest m k r d (at, pend, least) = record {
  stored = lookup-In (k, r) m d at;
  pending = pend;
  oldest = λ j q there p. (NotAfter-precedes k j r q).0 (All-lookup _ j q m least there p);
}

abbrev pub NonePending : Records → Type 0
NonePending m =
    (j : Bytes) (q : JobRecord) → lookup j m ≡ some q → (q.status =? status_pending) ≡ false

-- The record as a claim at the time `now` leaves it.
abbrev pub started : ℤ → JobRecord → JobRecord
started now q = record {
  id = q.id;
  name = q.name;
  payload = q.payload;
  attempts = uint64 (q.attempts + 1);
  status = "running";
  version = int64 (q.version +ℤ pos 1);
  created_at = q.created_at;
  started_at = some now;
  finished_at = q.finished_at;
}

-- What `Claim` reports, and what it then does.
abbrev pub Claims : ℤ → MemoryStore → MemoryStore × Result JobRecord → Type 0
Claims now s r =
    ((r ≡ (s, err not_found)) × NonePending s.records)
    ⊎ ((k : Bytes) × (q : JobRecord) × IsOldestPending s.records k q
        × (r ≡ (
          record s { records = insert k (clone_record (started now q)) s.records },
          ok (clone_record (started now q)),
        )))

pub claim_found_oldest :
    (now : ℤ) (s : MemoryStore) (o : Option Entry)
    → Distinct s.records
    → Found s.records o
    → Claims now s (claim_found now s o)
unfolding claim_found claimed
claim_found_oldest now s none d f = inl (refl, λ j q there. All-lookup _ j q s.records f there)
claim_found_oldest now s (some (k, r)) d f = inr (k, r, Found-oldest s.records k r d f, refl)

-- On an open store `Claim` either reports `ErrNotFound` and changes nothing, and then no record is
-- pending; or it takes the oldest pending record, by creation time and then by ID, and returns and
-- stores a copy of it that is running, started now, with one attempt and one version more.
pub claim_oldest :
    (now : ℤ) (s : MemoryStore)
    → s.closed ≡ false
    → Distinct s.records
    → Claims now s (claim none now s)
unfolding claim
claim_oldest now s o d =
    subst (Claims now s) (sym (guarded_open s (claim_found now s (choose none s.records)) o))
      (claim_found_oldest now s (choose none s.records) d (choose-Found s.records))

-- Two maps with the same content have the same oldest pending record.
oldest_unique :
    (m m' : Records) (k k' : Bytes) (r r' : JobRecord)
    → ((j : Bytes) → lookup j m ≡ lookup j m')
    → IsOldestPending m k r
    → IsOldestPending m' k' r'
    → (k ≡ k') × (r ≡ r')
oldest_unique m m' k k' r r' same a b =
    let first : NotAfter k r k' r' = a.oldest k' r' (same k' ∙ b.stored) b.pending in
    let second : NotAfter k' r' k r = b.oldest k r (sym (same k) ∙ a.stored) a.pending in
    let keys : k ≡ k' = ground (arith, eq_of_not-bytes_lt k k') in
    (keys, ground (arith, same k, same k', a.stored, b.stored))

same_answer :
    (now : ℤ) (s s' : MemoryStore) (a b : MemoryStore × Result JobRecord)
    → ((j : Bytes) → lookup j s.records ≡ lookup j s'.records)
    → Claims now s a
    → Claims now s' b
    → a.1 ≡ b.1
unfolding claimed
same_answer now s s' a b same (inl (p, _)) (inl (q, _)) = ap (λ t. t.1) p ∙ sym (ap (λ t. t.1) q)
same_answer now s s' a b same (inl (p, empty)) (inr (k, r, o, q)) =
    absurd (ground (arith, empty k r (same k ∙ o.stored), o.pending))
same_answer now s s' a b same (inr (k, r, o, p)) (inl (q, empty)) =
    absurd (ground (arith, empty k r (sym (same k) ∙ o.stored), o.pending))
same_answer now s s' a b same (inr (k, r, o, p)) (inr (k', r', o', q)) =
    let (keys, values) = oldest_unique s.records s'.records k k' r r' same o o' in
    ap (λ t. t.1) p ∙ ap (λ t. ok (clone_record (claimed now t))) values ∙ sym (ap (λ t. t.1) q)

-- The answer of `Claim` does not depend on the order in which the map is visited: two open stores
-- whose maps hold the same records give the same answer.
pub claim_order_irrelevant :
    (now : ℤ) (s s' : MemoryStore)
    → s.closed ≡ false
    → s'.closed ≡ false
    → Distinct s.records
    → Distinct s'.records
    → ((j : Bytes) → lookup j s.records ≡ lookup j s'.records)
    → (claim none now s).1 ≡ (claim none now s').1
claim_order_irrelevant now s s' o o' d d' same =
    same_answer now s s' _ _ same (claim_oldest now s o d) (claim_oldest now s' o' d')

claimed_not_pending :
    (now : ℤ) (r : JobRecord) → ((clone_record (started now r)).status =? status_pending) ≡ false
unfolding clone_record claimed
claimed_not_pending now r = refl

-- The answer of a claim is the record it found with the claim's changes, stored under its ID.
Handed : ℤ → MemoryStore → MemoryStore → JobRecord → Type 0
Handed now s s' r =
    (q : JobRecord) × IsOldestPending s.records r.id q
    × (r ≡ clone_record (started now q))
    × (s' ≡ record s { records = insert r.id r s.records })

claimed-id : (now : ℤ) (r : JobRecord) → (clone_record (started now r)).id ≡ r.id
unfolding clone_record claimed
claimed-id now r = refl

handed :
    (now : ℤ) (s s' : MemoryStore) (r : JobRecord)
    → IsValid s.records
    → Claims now s (s', ok r)
    → Handed now s s' r
unfolding Handed
handed now s s' r v (inl (p, _)) = cc
handed now s s' r v (inr (k, q, o, p)) =
    let answer : r ≡ clone_record (started now q) = cc in
    let key : k ≡ r.id = cc (answer, claimed-id now q, v.keyed k q o.stored) in
    (q, subst (λ j. IsOldestPending s.records j q) key o, answer, cc (p, answer, key))

not_oldest :
    (now : ℤ) (m : Records) (k : Bytes) (q r : JobRecord)
    → IsOldestPending (insert k (clone_record (started now q)) m) k r
    → ⊥
not_oldest now m k q r o = ground (
  arith,
  o.stored,
  o.pending,
  lookup-insert k k (clone_record (started now q)) m,
  bytes_eq_iff k k,
  claimed_not_pending now q,
)

-- Two claims in a row never hand out the same record: the answer of the second has another ID.
pub claim_exclusive :
    (now later : ℤ) (s s1 s2 : MemoryStore) (r1 r2 : JobRecord)
    → s.closed ≡ false
    → IsValid s.records
    → claim none now s ≡ (s1, ok r1)
    → claim none later s1 ≡ (s2, ok r2)
    → r1.id ≢ r2.id
unfolding Handed
claim_exclusive now later s s1 s2 r1 r2 o v first second same =
    let (q, old, answer, next) =
      handed now s s1 r1 v (subst (Claims now s) first (claim_oldest now s o v.distinct)) in
    let open1 : s1.closed ≡ false = ap (λ t. t.closed) next ∙ o in
    let valid1 : IsValid s1.records =
      subst (λ t. IsValid t.0.records) first (claim-IsValid none now s v) in
    let (q', old', _, _) =
      handed later s1 s2 r2 valid1
        (subst (Claims later s1) second (claim_oldest later s1 open1 valid1.distinct)) in
    let where_stored : s1.records ≡ insert r1.id (clone_record (started now q)) s.records =
      ap (λ t. t.records) next ∙ ap (λ t. insert r1.id t s.records) answer in
    not_oldest now s.records r1.id q q' (
      subst (λ m. IsOldestPending m r1.id q') where_stored
        (subst (λ j. IsOldestPending s1.records j q') (sym same) old'))
