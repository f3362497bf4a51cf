-- ===== src/Server/Locks/Tests.antt =====
-- Goroutines that use one upload (server/handlers.go).
use send_to.Prelude.{◌≤◌, ◌≡◌, refl, true, false, none, [], ◌∷◌}
use send_to.Server.Locks.{
  LockTable, outside, waiting, holding, releasing, claim, drop_reference, set_locked, enters,
  acquires, leaves, releases, Reach, here, next, idle,
}
use send_to.Server.Locks.Counting.{total, holds}
use send_to.Server.Locks.Exclusion.{Reach-exclusive, Reach-dropped}

-- one of two goroutines enters, the other enters behind it, and the first has the lock
abbrev entered : LockTable
entered = record (claim (idle 2)).1 { threads = waiting (claim (idle 2)).0 ∷ outside ∷ [] }

abbrev queued : LockTable
queued = record (claim entered).1 { threads = waiting 0 ∷ waiting (claim entered).0 ∷ [] }

abbrev held : LockTable
held = record (set_locked 0 true queued) { threads = holding 0 ∷ waiting 0 ∷ [] }

held-Reach : Reach (idle 2) held
unfolding claim
held-Reach =
    next [] (waiting 0 ∷ [])
      (next (waiting 0 ∷ []) [] (next [] (outside ∷ []) here (enters refl)) (enters refl))
      (acquires 0 refl refl)

Reach-exclusive_example : total holds held.threads ≤ 1
Reach-exclusive_example = Reach-exclusive 2 held held-Reach

-- one goroutine alone, there and back
abbrev alone : LockTable
alone = record (claim (idle 1)).1 { threads = waiting (claim (idle 1)).0 ∷ [] }

abbrev inside : LockTable
inside = record (set_locked 0 true alone) { threads = holding 0 ∷ [] }

abbrev left : LockTable
left = record (drop_reference inside).1 { threads = releasing 0 ∷ [] }

abbrev back : LockTable
back = record (set_locked 0 false left) { threads = outside ∷ [] }

back-Reach : Reach (idle 1) back
unfolding claim drop_reference
back-Reach =
    next [] []
      (next [] [] (next [] [] (next [] [] here (enters refl)) (acquires 0 refl refl))
        (leaves 0 refl))
      (releases 0 refl)

Reach-dropped_example : back.entry ≡ none
Reach-dropped_example = Reach-dropped 1 back back-Reach refl
