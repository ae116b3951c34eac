-- ===== src/JobStore/Clients.antt =====
-- What the clients of any job store can rely on, whatever its implementation.
use mathlib.Core.Path.{subst}
use gokue.Prelude.{◌=?◌, true, false, some, ◌≡◌, ◌≢◌, sym, ap, ◌∙◌, arith}
use gokue.Prelude.Int.{ℤ, pos, ◌+ℤ◌, int64, int64_add_one_ne, eqb_ℤ_iff}
use gokue.Prelude.Bytes.{Bytes, bytes_eq_refl}
use gokue.Record.{status_pending, status_running, JobRecord}
use gokue.JobStore.{
  updates, claims, done, found, View, put, Same, Keeping, is_pending, IsClaimed, IsUpdated, Allowed,
  claim_oldest, update_done, Store,
}

-- The stored record that a successful claim leaves, and that it was pending before.
ClaimOf : Keeping → ℤ → View → View → JobRecord → Type 0
ClaimOf keep now m n x =
    (k : Bytes) × (r : JobRecord) × (m k ≡ some r)
    × (is_pending r ≡ true)
    × IsClaimed keep now r x
    × Same n (put k x m)

claim_of :
    (keep : Keeping) (now : ℤ) (m n : View) (x : JobRecord)
    → Allowed keep now m n claims (found x)
    → ClaimOf keep now m n x
unfolding ClaimOf
claim_of keep now m n x (claim_oldest k r _ at pend old made same) = (k, r, at, pend, made, same)

-- The stored record that a successful update leaves.
UpdateOf : Keeping → View → View → JobRecord → Type 0
UpdateOf keep m n rec =
    (old : JobRecord) × (x : JobRecord) × (m rec.id ≡ some old)
    × (old.version ≡ rec.version)
    × IsUpdated keep old rec x
    × Same n (put rec.id x m)

update_of :
    (keep : Keeping) (now : ℤ) (m n : View) (rec : JobRecord)
    → Allowed keep now m n (updates rec) done
    → UpdateOf keep m n rec
unfolding UpdateOf
update_of keep now m n rec (update_done _ old x at e made same) = (old, x, at, e, made, same)

put_self : (k : Bytes) (x : JobRecord) (m n : View) → Same n (put k x m) → n k ≡ some x
put_self k x m n same = same k ∙ ground (arith, bytes_eq_refl k)

running_not_pending : (r : JobRecord) → r.status ≡ status_running → is_pending r ≡ false
running_not_pending r h = ap (λ s. s =? status_pending) h

module _ {keep : Keeping} (store : Store keep) where
  open store use {State, IsValid, view, Accepts, call, keyed, call-Allowed}

  -- Two claims in a row on any job store that accepts claims, in valid states, never hand out the
  -- same record.
  pub claims_differ :
      (now later : ℤ) (s s1 s2 : State) (x y : JobRecord)
      → IsValid s
      → IsValid s1
      → Accepts claims
      → call now claims s ≡ (s1, found x)
      → call later claims s1 ≡ (s2, found y)
      → x.id ≢ y.id
  unfolding ClaimOf
  claims_differ now later s s1 s2 x y v v1 fits first second same =
      let (k, r, at, pend, made, puts) = claim_of keep now (view s) (view s1) x (
        subst (λ r. Allowed keep now (view s) (view r.0) claims r.1) first
          (call-Allowed now claims s v fits)) in
      let (k', r', at', pend', made', puts') = claim_of keep later (view s1) (view s2) y (
        subst (λ r. Allowed keep later (view s1) (view r.0) claims r.1) second
          (call-Allowed later claims s1 v1 fits)) in
      let key : k' ≡ k =
        sym (keyed s1 k' r' v1 at') ∙ sym made'.id ∙ sym same ∙ made.id ∙ keyed s k r v at in
      let again : r' ≡ x = cc (at', ap (view s1) key, put_self k x (view s) (view s1) puts) in
      cc (pend', ap is_pending again, running_not_pending x made.status)

  -- On any job store, in valid states and with records that it accepts, of two updates in a row of
  -- the same version of a record the second does not succeed.
  pub second_update_fails :
      (now later : ℤ) (s s1 s2 : State) (a b : JobRecord)
      → IsValid s
      → IsValid s1
      → Accepts (updates a)
      → Accepts (updates b)
      → call now (updates a) s ≡ (s1, done)
      → b.id ≡ a.id
      → b.version ≡ a.version
      → call later (updates b) s1 ≢ (s2, done)
  unfolding UpdateOf
  second_update_fails now later s s1 s2 a b v v1 fits fits1 first id version second =
      let (old, x, at, e, made, puts) = update_of keep now (view s) (view s1) a (
        subst (λ r. Allowed keep now (view s) (view r.0) (updates a) r.1) first
          (call-Allowed now (updates a) s v fits)) in
      let (old', x', at', e', made', puts') = update_of keep later (view s1) (view s2) b (
        subst (λ r. Allowed keep later (view s1) (view r.0) (updates b) r.1) second
          (call-Allowed later (updates b) s1 v1 fits1)) in
      let again : old' ≡ x = cc (at', ap (view s1) id, put_self a.id x (view s) (view s1) puts) in
      let wraps : int64 (a.version +ℤ pos 1) ≡ a.version =
        sym made.version ∙ ap (λ r. r.version) (sym again) ∙ e' ∙ version in
      cc (int64_add_one_ne a.version, (eqb_ℤ_iff _ _).1 wraps)
