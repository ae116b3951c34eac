-- ===== src/MemoryStore/Requeue.antt =====
-- What `RequeueStale` of backend/memory.go does to a store.
use mathlib.Core.Option
use gokue.JobStore.{back_to_pending}
use gokue.Prelude.{
  ℕ, suc, Bool, ◌=?◌, ◌&&◌, Option, some, ap, arith, if◌then◌else◌, false, none, [], ◌∷◌, ◌≡◌, refl,
  ◌∙◌, if_false, if_cases,
}
use gokue.Prelude.Int.{ℤ, pos, leb_ℤ, ltb_ℤ, ◌-ℤ◌}
use gokue.Prelude.Bytes.{Bytes}
use gokue.Record.{JobRecord, ok}
use gokue.RecordMap.{lookup, map_values}
use gokue.RecordMap.Laws.{lookup-map_values}
use gokue.MemoryStore.{Records, MemoryStore, is_stale, requeued, count_stale, requeue_stale}
use gokue.MemoryStore.Validity.{guarded_open}

-- A requeued record is pending, so it is not stale.
requeued_not_stale : (cutoff : ℤ) (r : JobRecord) → is_stale cutoff (requeued cutoff r) ≡ false
unfolding requeued is_stale
requeued_not_stale cutoff r =
    if_cases (λ t. is_stale cutoff t ≡ false) (is_stale cutoff r) _ r (λ h. refl) (λ h. h)

requeued_twice :
    (cutoff : ℤ) (r : JobRecord) → requeued cutoff (requeued cutoff r) ≡ requeued cutoff r
unfolding requeued
requeued_twice cutoff r = if_false _ _ _ (requeued_not_stale cutoff r)

none_stale : (cutoff : ℤ) (m : Records) → count_stale cutoff (map_values (requeued cutoff) m) ≡ 0
unfolding count_stale map_values
none_stale cutoff [] = refl
none_stale cutoff ((k, r) ∷ m) = rw (requeued_not_stale cutoff r) (none_stale cutoff m)

none_requeued :
    (cutoff : ℤ) (m : Records)
    → map_values (requeued cutoff) (map_values (requeued cutoff) m) ≡ map_values (requeued cutoff) m
unfolding map_values
none_requeued cutoff [] = refl
none_requeued cutoff ((k, r) ∷ m) = rw (requeued_twice cutoff r, none_requeued cutoff m)

requeue_stale_open :
    (now lease : ℤ) (s : MemoryStore)
    → s.closed ≡ false
    → ltb_ℤ lease (pos 0) ≡ false
    → requeue_stale none now lease s ≡ (
      record s { records = map_values (requeued (now -ℤ lease)) s.records },
      ok (count_stale (now -ℤ lease) s.records),
    )
unfolding requeue_stale
requeue_stale_open now lease s o h = if_false _ _ _ h ∙ guarded_open s _ o

-- Running, and started at the cutoff at the latest.
abbrev pub started_by : ℤ → Option ℤ → Bool
started_by cutoff none = false
started_by cutoff (some t) = leb_ℤ t cutoff

abbrev pub expired : ℤ → JobRecord → Bool
expired cutoff r = (r.status =? "running") && started_by cutoff r.started_at

abbrev pub count_expired : ℤ → Records → ℕ
count_expired cutoff [] = 0
count_expired cutoff ((k, r) ∷ m) =
    let rest = count_expired cutoff m in if expired cutoff r then suc rest else rest

is_stale-expired : (cutoff : ℤ) (r : JobRecord) → is_stale cutoff r ≡ expired cutoff r
unfolding is_stale
is_stale-expired cutoff r = ground arith

requeued-expired :
    (cutoff : ℤ) (r : JobRecord)
    → requeued cutoff r ≡ (if expired cutoff r then back_to_pending r else r)
unfolding requeued
requeued-expired cutoff r = ap (λ b. if b then back_to_pending r else r) (is_stale-expired cutoff r)

map_same :
    (f g : JobRecord → JobRecord)
    → ((r : JobRecord) → f r ≡ g r)
    → (o : Option JobRecord) → Option.map f o ≡ Option.map g o
map_same f g h none = refl
map_same f g h (some r) = ap some (h r)

count_stale-expired : (cutoff : ℤ) (m : Records) → count_stale cutoff m ≡ count_expired cutoff m
unfolding count_stale
count_stale-expired cutoff [] = refl
count_stale-expired cutoff ((k, r) ∷ m) =
    ground (arith, is_stale-expired cutoff r, count_stale-expired cutoff m)

-- On an open store and with a lease that is not negative `RequeueStale` keeps the IDs and puts each
-- record that is running and started at the cutoff now - lease or earlier back to pending, without a
-- start and with the next version; it changes no other record and answers how many it put back; and
-- another call with the same clock and lease answers 0 and changes nothing.
pub requeue_stale_once :
    (now lease : ℤ) (s : MemoryStore)
    → s.closed ≡ false
    → ltb_ℤ lease (pos 0) ≡ false
    → let cutoff = now -ℤ lease in
      (t : MemoryStore) × (requeue_stale none now lease s
        ≡ (t, ok (count_expired cutoff s.records)))
      × ((id : Bytes)
          → lookup id t.records
            ≡ Option.map
                (λ r. if expired cutoff r then back_to_pending r else r)
                (lookup id s.records))
      × (requeue_stale none now lease t ≡ (t, ok 0))
requeue_stale_once now lease s o h =
    let c = now -ℤ lease in
    let t : MemoryStore = record s { records = map_values (requeued c) s.records } in
    (
      t,
      requeue_stale_open now lease s o h ∙ ap (λ n. (t, ok n)) (count_stale-expired c s.records),
      λ id.
          lookup-map_values (requeued c) id s.records
          ∙ map_same (requeued c) _ (requeued-expired c) (lookup id s.records),
      requeue_stale_open now lease t o h ∙ rw (none_stale c s.records, none_requeued c s.records),
    )
