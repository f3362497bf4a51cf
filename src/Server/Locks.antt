-- ===== src/Server/Locks.antt =====
-- The lock of an upload in server/handlers.go: `lock` and `unlock` for one key of the table, with any
-- number of goroutines. Each step is one that no other goroutine can be inside of: a section under
-- `locksMu`, or an operation of a mutex.
pub mod Counting
pub mod Steps
pub mod Exclusion
mod Tests
use send_to.Prelude.{
  ℕ, zero, suc, ◌+◌, ◌-◌, ◌≡◌, Bool, true, false, Option, none, some, List, [], ◌∷◌, ◌++◌, ◌==◌,
  if◌then◌else◌,
}

-- A goroutine outside, waiting for the mutex of the lock at an address, between `lock` and `unlock`,
-- or about to release the mutex.
pub data Thread : Type 0 where
  outside : Thread
  waiting holding releasing : ℕ → Thread

-- `fileLock`
pub record FileLock : Type 0 where
  pub locked : Bool
  pub refs : ℕ

-- `heap` are the locks by their address, from `fresh` on none has been made, and `entry` is the lock
-- in the table.
pub record LockTable : Type 0 where
  pub entry : Option ℕ
  pub heap : ℕ → FileLock
  pub fresh : ℕ
  pub threads : List Thread

abbrev pub set : ℕ → FileLock → (ℕ → FileLock) → ℕ → FileLock
set l x heap k = if k == l then x else heap k

abbrev pub claim_with : Option ℕ → LockTable → ℕ × LockTable
claim_with none s = (
  s.fresh,
  record s {
    entry = some s.fresh;
    heap = set s.fresh (record { locked = false; refs = 1 }) s.heap;
    fresh = s.fresh + 1;
  },
)
claim_with (some l) s =
    (l, record s { heap = set l (record (s.heap l) { refs = (s.heap l).refs + 1 }) s.heap })

-- The section of `lock` under `locksMu`: the lock that the goroutine will wait for, and the table.
unfoldable pub claim : LockTable → ℕ × LockTable
claim s = claim_with s.entry s

abbrev pub drop_with : Option ℕ → LockTable → Option ℕ × LockTable
drop_with none s = (none, s)
drop_with (some l) s = (
  some l,
  record s {
    heap = set l (record (s.heap l) { refs = (s.heap l).refs - 1 }) s.heap;
    entry = if (s.heap l).refs - 1 == 0 then none else some l;
  },
)

-- The section of `unlock` under `locksMu`: the lock whose mutex is released next, if there is one.
unfoldable pub drop_reference : LockTable → Option ℕ × LockTable
drop_reference s = drop_with s.entry s

abbrev pub set_locked : ℕ → Bool → LockTable → LockTable
set_locked l b s = record s { heap = set l (record (s.heap l) { locked = b }) s.heap }

abbrev pub to_release : Option ℕ → Thread
to_release none = outside
to_release (some l) = releasing l

-- One step of the goroutine between `before` and `after`.
pub data Step (s : LockTable) (before after : List Thread) : LockTable → Type 0 where
  enters :
      s.threads ≡ before ++ outside ∷ after
      → Step s before after (record (claim s).1 { threads = before ++ waiting (claim s).0 ∷ after })
  acquires :
      (l : ℕ)
      → s.threads ≡ before ++ waiting l ∷ after
      → (s.heap l).locked ≡ false
      → Step s before after (record (set_locked l true s) { threads = before ++ holding l ∷ after })
  leaves :
      (l : ℕ)
      → s.threads ≡ before ++ holding l ∷ after
      → Step s before after (record (drop_reference s).1 {
        threads = before ++ to_release (drop_reference s).0 ∷ after;
      })
  releases :
      (l : ℕ)
      → s.threads ≡ before ++ releasing l ∷ after
      → Step s before after (record (set_locked l false s) { threads = before ++ outside ∷ after })

pub data Reach (s : LockTable) : LockTable → Type 0 where
  here : Reach s s
  next :
      {t u : LockTable} (before after : List Thread) → Reach s t → Step t before after u → Reach s u

abbrev pub all_outside : ℕ → List Thread
all_outside zero = []
all_outside (suc n) = outside ∷ all_outside n

-- n goroutines and no lock
abbrev pub idle : ℕ → LockTable
idle n = record {
  entry = none;
  heap = λ l. record { locked = false; refs = 0 };
  fresh = 0;
  threads = all_outside n;
}
