-- ===== src/Server/Locks/Exclusion.antt =====
-- The lock of an upload (server/handlers.go) lets one goroutine in at a time, and leaves the table when
-- nobody uses it.
use send_to.Prelude.{
  ℕ, zero, suc, ◌≤◌, ◌≡◌, refl, ap, sym, ◌∙◌, subst, Option, none, some, List, [], ◌∷◌, ◌++◌, arith,
}
use send_to.Server.Locks.{
  claim_with, drop_with, Thread, outside, waiting, holding, releasing, LockTable, claim,
  drop_reference, to_release, Step, enters, acquires, leaves, releases, Reach, here, next,
  all_outside, idle,
}
use send_to.Server.Locks.Counting.{
  total, uses, owns, holds, All, Current, some-injective, none-ne-some, as_nat_le, IsConsistent,
  currents,
}
use send_to.Server.Locks.Steps.{enters_none, enters_some, acquires_lem, releases_lem, leaves_some}

pub Step-IsConsistent :
    (s u : LockTable) (before after : List Thread)
    → Step s before after u
    → IsConsistent s
    → IsConsistent u
unfolding claim drop_reference
Step-IsConsistent s u before after (enters e) inv = with_entry s.entry refl
  where
    with_entry :
        (o : Option ℕ)
        → s.entry ≡ o
        → IsConsistent (record (claim_with s.entry s).1 {
          threads = before ++ waiting (claim_with s.entry s).0 ∷ after;
        })
    with_entry none same =
        subst
          (λ o.
            IsConsistent (record (claim_with o s).1 {
              threads = before ++ waiting (claim_with o s).0 ∷ after;
            }))
          (sym same) (enters_none s before after inv e same)
    with_entry (some k) same =
        subst
          (λ o.
            IsConsistent (record (claim_with o s).1 {
              threads = before ++ waiting (claim_with o s).0 ∷ after;
            }))
          (sym same) (enters_some s before after inv k e same)
Step-IsConsistent s u before after (acquires l e free) inv =
    acquires_lem s before after inv l e free
Step-IsConsistent s u before after (leaves l e) inv =
    let same : s.entry ≡ some l = (currents s before after (holding l) inv e).1.0 in
    subst
      (λ o.
        IsConsistent
          (record (drop_with o s).1 { threads = before ++ to_release (drop_with o s).0 ∷ after }))
      (sym same) (leaves_some s before after inv l e same)
Step-IsConsistent s u before after (releases l e) inv = releases_lem s before after inv l e

pub total_outside : (n : ℕ) (f : Thread → ℕ) → f outside ≡ 0 → total f (all_outside n) ≡ 0
total_outside zero f e = refl
total_outside (suc n) f e = omega (arith, total_outside n f e)

pub idle-IsConsistent : (n : ℕ) → IsConsistent (idle n)
idle-IsConsistent n = record {
  counted = λ l below. absurd (omega arith);
  owned = λ l below. absurd (omega arith);
  current = nobody n;
  used = λ l same. absurd (none-ne-some same);
}
  where
    nobody : (n : ℕ) → All (Current none 0) (all_outside n)
    nobody zero = tt
    nobody (suc n) = (tt, nobody n)

pub Reach-IsConsistent : {s t : LockTable} → IsConsistent s → Reach s t → IsConsistent t
Reach-IsConsistent inv here = inv
Reach-IsConsistent inv (next before after r step) =
    Step-IsConsistent _ _ before after step (Reach-IsConsistent inv r)

-- Those who hold the lock all hold the one in the table.
holds_le :
    (entry : Option ℕ) (k fresh : ℕ) (ts : List Thread)
    → entry ≡ some k
    → All (Current entry fresh) ts
    → total holds ts ≤ total (owns k) ts
holds_le entry k fresh [] at c = omega arith
holds_le entry k fresh (t ∷ ts) at c =
    let rest = holds_le entry k fresh ts at c.1 in
    let first = alone t c.0 in omega (arith, rest, first)
  where
    alone : (t : Thread) → Current entry fresh t → holds t ≤ owns k t
    alone outside c = omega arith
    alone (waiting l) c = omega arith
    alone (holding l) c = let same : k ≡ l = some-injective (sym at ∙ c.0) in ground arith
    alone (releasing l) c = omega arith

no_holder :
    (entry : Option ℕ) (fresh : ℕ) (ts : List Thread)
    → entry ≡ none
    → All (Current entry fresh) ts
    → total holds ts ≡ 0
no_holder entry fresh [] at c = refl
no_holder entry fresh (t ∷ ts) at c = omega (arith, no_holder entry fresh ts at c.1, alone t c.0)
  where
    alone : (t : Thread) → Current entry fresh t → holds t ≡ 0
    alone outside c = refl
    alone (waiting l) c = refl
    alone (holding l) c = absurd (none-ne-some (sym at ∙ c.0))
    alone (releasing l) c = refl

IsConsistent-exclusive : (s : LockTable) → IsConsistent s → total holds s.threads ≤ 1
IsConsistent-exclusive s inv = with_entry s.entry refl
  where
    with_entry : (o : Option ℕ) → s.entry ≡ o → total holds s.threads ≤ 1
    with_entry none at = omega (arith, no_holder s.entry s.fresh s.threads at inv.current)
    with_entry (some k) at = omega (
      arith,
      holds_le s.entry k s.fresh s.threads at inv.current,
      inv.owned k (inv.used k at).0,
      as_nat_le (s.heap k).locked,
    )

-- When every goroutine is outside again, the table has no lock.
all_outside-Empty :
    (s : LockTable) (n : ℕ) → IsConsistent s → s.threads ≡ all_outside n → s.entry ≡ none
all_outside-Empty s n inv e = with_entry s.entry refl
  where
    with_entry : (o : Option ℕ) → s.entry ≡ o → o ≡ none
    with_entry none at = refl
    with_entry (some k) at =
        let (made, some_refs) = inv.used k at in
        absurd
          (omega (arith, inv.counted k made, ap (total (uses k)) e, total_outside n (uses k) refl))

-- From no lock and any number of goroutines, after any steps of theirs in any order, at most one is
-- between `lock` and `unlock`.
pub Reach-exclusive : (n : ℕ) (s : LockTable) → Reach (idle n) s → total holds s.threads ≤ 1
Reach-exclusive n s r = IsConsistent-exclusive s (Reach-IsConsistent (idle-IsConsistent n) r)

-- From no lock and n goroutines, after any steps of theirs in any order that leave all of them
-- outside, the table has no lock.
pub Reach-dropped :
    (n : ℕ) (s : LockTable) → Reach (idle n) s → s.threads ≡ all_outside n → s.entry ≡ none
Reach-dropped n s r e = all_outside-Empty s n (Reach-IsConsistent (idle-IsConsistent n) r) e
