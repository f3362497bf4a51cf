-- ===== src/Server/Locks/Steps.antt =====
-- Each step of `lock` and `unlock` in server/handlers.go keeps the table consistent.
use send_to.Prelude.{
  ℕ, ◌+◌, ◌-◌, ◌<◌, ◌≡◌, refl, ap, sym, ◌∙◌, subst, true, false, Bool-cases, inl, inr, none, some,
  List, ◌∷◌, ◌++◌, arith, ◌==◌, if◌then◌else◌,
}
use send_to.Server.Locks.{
  claim_with, drop_with, Thread, outside, waiting, holding, releasing, LockTable, set_locked,
}
use send_to.Server.Locks.Counting.{
  total-split, uses, owns, All, All-join, All-mono, Current, some-injective, none-ne-some,
  as_nat_le, IsConsistent, others, refs_of, locked_of, unmade_of, currents, unused,
}

module _ (s : LockTable) (before after : List Thread) (inv : IsConsistent s) where
  pub enters_none :
      s.threads ≡ before ++ outside ∷ after
      → s.entry ≡ none
      → IsConsistent (record (claim_with none s).1 { threads = before ++ waiting s.fresh ∷ after })
  enters_none e empty = record {
    counted = λ l below. ground (
      arith,
      refs_of s before after outside inv e l,
      unmade_of s before after outside inv e l,
      total-split (uses l) before after (waiting s.fresh),
    );
    owned = λ l below. ground (
      arith,
      locked_of s before after outside inv e l,
      unmade_of s before after outside inv e l,
      total-split (owns l) before after (waiting s.fresh),
    );
    current =
        let (b, _, a) = currents s before after outside inv e in
        All-join (Current (some s.fresh) (s.fresh + 1)) before after (waiting s.fresh)
          (All-mono _ _ before later b) (refl, omega arith) (All-mono _ _ after later a);
    used = λ l same. ground arith;
  }
    where
      later : (t : Thread) → Current s.entry s.fresh t → Current (some s.fresh) (s.fresh + 1) t
      later outside c = tt
      later (waiting l) c = absurd cc
      later (holding l) c = absurd cc
      later (releasing l) c = omega arith

  pub enters_some :
      (k : ℕ)
      → s.threads ≡ before ++ outside ∷ after
      → s.entry ≡ some k
      → IsConsistent (record (claim_with (some k) s).1 { threads = before ++ waiting k ∷ after })
  enters_some k e there = record {
    counted = λ l below. ground (
      arith,
      refs_of s before after outside inv e l,
      total-split (uses l) before after (waiting k),
    );
    owned = λ l below. ground (
      arith,
      locked_of s before after outside inv e l,
      total-split (owns l) before after (waiting k),
    );
    current =
        let (b, _, a) = currents s before after outside inv e in
        All-join (Current s.entry s.fresh) before after (waiting k) b (there, (inv.used k there).0)
          a;
    used = λ l same. let (made, some_refs) = inv.used l same in ground arith;
  }

  pub acquires_lem :
      (k : ℕ)
      → s.threads ≡ before ++ waiting k ∷ after
      → (s.heap k).locked ≡ false
      → IsConsistent (record (set_locked k true s) { threads = before ++ holding k ∷ after })
  acquires_lem k e free = record {
    counted = λ l below. ground (
      arith,
      refs_of s before after (waiting k) inv e l,
      total-split (uses l) before after (holding k),
    );
    owned = λ l below. ground (
      arith,
      locked_of s before after (waiting k) inv e l,
      total-split (owns l) before after (holding k),
    );
    current =
        let (b, m, a) = currents s before after (waiting k) inv e in
        All-join (Current s.entry s.fresh) before after (holding k) b m a;
    used = λ l same. let (made, some_refs) = inv.used l same in ground arith;
  }

  pub releases_lem :
      (k : ℕ)
      → s.threads ≡ before ++ releasing k ∷ after
      → IsConsistent (record (set_locked k false s) { threads = before ++ outside ∷ after })
  releases_lem k e = record {
    counted = λ l below. ground (
      arith,
      refs_of s before after (releasing k) inv e l,
      total-split (uses l) before after outside,
    );
    owned = λ l below. ground (
      arith,
      locked_of s before after (releasing k) inv e l,
      total-split (owns l) before after outside,
      as_nat_le (s.heap l).locked,
    );
    current =
        let (b, _, a) = currents s before after (releasing k) inv e in
        All-join (Current s.entry s.fresh) before after outside b tt a;
    used = λ l same. let (made, some_refs) = inv.used l same in ground arith;
  }

  pub leaves_some :
      (k : ℕ)
      → s.threads ≡ before ++ holding k ∷ after
      → s.entry ≡ some k
      → IsConsistent (record (drop_with (some k) s).1 { threads = before ++ releasing k ∷ after })
  leaves_some k e there = record {
    counted = λ l below. ground (
      arith,
      refs_of s before after (holding k) inv e l,
      total-split (uses l) before after (releasing k),
    );
    owned = λ l below. ground (
      arith,
      locked_of s before after (holding k) inv e l,
      total-split (owns l) before after (releasing k),
    );
    current = elim (Bool-cases ((s.heap k).refs - 1 == 0)) [
      | inl last ↦ rw last (
          let none_left : others s before after (holding k) inv e (uses k) ≡ 0 =
            ground (arith, refs_of s before after (holding k) inv e k made) in
          All-join (Current none s.fresh) before after (releasing k)
            (unused s.entry none k s.fresh before there (omega (arith, none_left)) b) made
            (unused s.entry none k s.fresh after there (omega (arith, none_left)) a))
      | inr more ↦ rw more (
          All-join (Current (some k) s.fresh) before after (releasing k)
            (subst (λ o. All (Current o s.fresh) before) there b) made
            (subst (λ o. All (Current o s.fresh) after) there a))
    ];
    used = λ l same. elim (Bool-cases ((s.heap k).refs - 1 == 0)) [
      | inl last ↦ absurd (none-ne-some (sym (ap (λ b. if b then none else some k) last) ∙ same))
      | inr more ↦
          let here : k ≡ l =
            some-injective (sym (ap (λ b. if b then none else some k) more) ∙ same) in
          ground (arith, made)
    ];
  }
    where
      made : k < s.fresh
      made = (inv.used k there).0

      b : All (Current s.entry s.fresh) before
      b = (currents s before after (holding k) inv e).0

      a : All (Current s.entry s.fresh) after
      a = (currents s before after (holding k) inv e).2
