-- ===== src/Server/Locks/Counting.antt =====
-- What holds of the lock of an upload (server/handlers.go) at any time, and how its counts fall apart
-- at one goroutine.
use send_to.Prelude.{
  ℕ, ◌+◌, ◌<◌, ◌≤◌, ◌≡◌, ◌≢◌, refl, ap, sym, ◌∙◌, subst, Bool, true, false, Option, none, some,
  List, [], ◌∷◌, ◌++◌, arith, ◌==◌, if◌then◌else◌,
}
use send_to.Server.Locks.{Thread, outside, waiting, holding, releasing, LockTable}

abbrev pub total : (Thread → ℕ) → List Thread → ℕ
total f [] = 0
total f (t ∷ ts) = f t + total f ts

pub total-split :
    (f : Thread → ℕ) (before after : List Thread) (t : Thread)
    → total f (before ++ t ∷ after) ≡ f t + (total f before + total f after)
total-split f [] after t = omega arith
total-split f (x ∷ before) after t = omega (arith, total-split f before after t)

-- waits for the lock at l or has it; has its mutex; is between `lock` and `unlock`
abbrev pub uses : ℕ → Thread → ℕ
uses l outside = 0
uses l (waiting k) = if k == l then 1 else 0
uses l (holding k) = if k == l then 1 else 0
uses l (releasing k) = 0

abbrev pub owns : ℕ → Thread → ℕ
owns l outside = 0
owns l (waiting k) = 0
owns l (holding k) = if k == l then 1 else 0
owns l (releasing k) = if k == l then 1 else 0

abbrev pub holds : Thread → ℕ
holds outside = 0
holds (waiting l) = 0
holds (holding l) = 1
holds (releasing l) = 0

abbrev pub All : (Thread → Type 0) → List Thread → Type 0
All P [] = Unit
All P (t ∷ ts) = P t × All P ts

pub All-split :
    (P : Thread → Type 0) (before after : List Thread) (t : Thread)
    → All P (before ++ t ∷ after)
    → All P before × P t × All P after
All-split P [] after t h = (tt, h.0, h.1)
All-split P (x ∷ before) after t h =
    let (b, m, a) = All-split P before after t h.1 in ((h.0, b), m, a)

pub All-join :
    (P : Thread → Type 0) (before after : List Thread) (t : Thread)
    → All P before
    → P t
    → All P after
    → All P (before ++ t ∷ after)
All-join P [] after t b m a = (m, a)
All-join P (x ∷ before) after t b m a = (b.0, All-join P before after t b.1 m a)

pub All-mono :
    (P Q : Thread → Type 0) (ts : List Thread) → ((t : Thread) → P t → Q t) → All P ts → All Q ts
All-mono P Q [] f h = tt
All-mono P Q (t ∷ ts) f h = (f t h.0, All-mono P Q ts f h.1)

-- The lock that a goroutine waits for or has is the one in the table, and was made.
abbrev pub Current : Option ℕ → ℕ → Thread → Type 0
Current entry fresh outside = Unit
Current entry fresh (waiting l) = (entry ≡ some l) × (l < fresh)
Current entry fresh (holding l) = (entry ≡ some l) × (l < fresh)
Current entry fresh (releasing l) = l < fresh

pub some-injective : {a b : ℕ} → some a ≡ some b → a ≡ b
some-injective e = ap (λ o. elim o [ none ↦ 0 | some n ↦ n ]) e

pub none-ne-some : {a : ℕ} → ◌≢◌ {A = Option ℕ} none (some a)
none-ne-some e = absurd cc

abbrev pub as_nat : Bool → ℕ
as_nat true = 1
as_nat false = 0

pub as_nat_le : (b : Bool) → as_nat b ≤ 1
as_nat_le true = omega arith
as_nat_le false = omega arith

-- The references are counted, the mutex has one owner, and a lock without references is not in the
-- table.
pub record IsConsistent (s : LockTable) : Type 0 where
  pub counted : (l : ℕ) → l < s.fresh → (s.heap l).refs ≡ total (uses l) s.threads
  pub owned : (l : ℕ) → l < s.fresh → as_nat (s.heap l).locked ≡ total (owns l) s.threads
  pub current : All (Current s.entry s.fresh) s.threads
  pub used : (l : ℕ) → s.entry ≡ some l → (l < s.fresh) × (0 < (s.heap l).refs)

-- A lock that is not made yet has no users and no owner.
pub unmade :
    (entry : Option ℕ) (fresh l : ℕ) (ts : List Thread)
    → fresh ≤ l
    → All (Current entry fresh) ts
    → (total (uses l) ts ≡ 0) × (total (owns l) ts ≡ 0)
unmade entry fresh l [] h c = (refl, refl)
unmade entry fresh l (t ∷ ts) h c =
    let (u, o) = unmade entry fresh l ts h c.1 in
    let (u', o') = alone t c.0 in (omega arith, omega arith)
  where
    alone : (t : Thread) → Current entry fresh t → (uses l t ≡ 0) × (owns l t ≡ 0)
    alone outside c = (refl, refl)
    alone (waiting k) c = (ground arith, refl)
    alone (holding k) c = (ground arith, ground arith)
    alone (releasing k) c = (refl, ground arith)

module _ (s : LockTable) (before after : List Thread) (t : Thread) (inv : IsConsistent s)
    (e : s.threads ≡ before ++ t ∷ after) where
  -- the goroutines beside the one that makes the step
  abbrev pub others : (Thread → ℕ) → ℕ
  others f = total f before + total f after

  pub refs_of : (l : ℕ) → l < s.fresh → (s.heap l).refs ≡ uses l t + others (uses l)
  refs_of l below =
      inv.counted l below ∙ ap (total (uses l)) e ∙ total-split (uses l) before after t

  pub locked_of : (l : ℕ) → l < s.fresh → as_nat (s.heap l).locked ≡ owns l t + others (owns l)
  locked_of l below =
      inv.owned l below ∙ ap (total (owns l)) e ∙ total-split (owns l) before after t

  pub unmade_of :
      (l : ℕ) → s.fresh ≤ l → (uses l t + others (uses l) ≡ 0) × (owns l t + others (owns l) ≡ 0)
  unmade_of l above =
      let (u, o) = unmade s.entry s.fresh l s.threads above inv.current in
      (
        sym (total-split (uses l) before after t) ∙ sym (ap (total (uses l)) e) ∙ u,
        sym (total-split (owns l) before after t) ∙ sym (ap (total (owns l)) e) ∙ o,
      )

  pub currents :
      All (Current s.entry s.fresh) before
      × Current s.entry s.fresh t
      × All (Current s.entry s.fresh) after
  currents =
      All-split (Current s.entry s.fresh) before after t
        (subst (All (Current s.entry s.fresh)) e inv.current)

-- Goroutines of which none uses the lock in the table are there for any entry.
pub unused :
    (entry entry' : Option ℕ) (k fresh : ℕ) (ts : List Thread)
    → entry ≡ some k
    → total (uses k) ts ≡ 0
    → All (Current entry fresh) ts
    → All (Current entry' fresh) ts
unused entry entry' k fresh [] at none_left c = tt
unused entry entry' k fresh (t ∷ ts) at none_left c =
    (alone t (omega arith) c.0, unused entry entry' k fresh ts at (omega arith) c.1)
  where
    alone : (t : Thread) → uses k t ≡ 0 → Current entry fresh t → Current entry' fresh t
    alone outside u c = tt
    alone (waiting l) u c =
        let same : k ≡ l = some-injective (sym at ∙ c.0) in absurd (ground arith)
    alone (holding l) u c =
        let same : k ≡ l = some-injective (sym at ∙ c.0) in absurd (ground arith)
    alone (releasing l) u c = c
