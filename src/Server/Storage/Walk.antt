-- ===== src/Server/Storage/Walk.antt =====
-- server/storage/local.go: `Purge` and `Usage`, which walk the storage directory (`filepath.Walk`). The
-- names are read first, and then each file is examined; a call that fails ends the walk. Folders are
-- no part of the state, so that the removal of empty ones leaves nothing but its first call.
use send_to.Prelude.{
  ℕ, ◌+◌, ◌%◌, ◌^◌, Bool, true, false, List, [], ◌∷◌, Bytes, ltb, length, if◌then◌else◌,
}
use send_to.Server.Fs.{Folder, token_dir, session_dir, temp_dir, Files, FilePath}
use send_to.Server.Exec.{World, Fault, works, fails, Exec, pure, gets, system_call, ◌>>=◌}
use send_to.Server.Storage.{IoResult, good, missing, broken, read_file, remove_file}

-- whether a folder lies in the storage directory
abbrev pub is_token_dir : Folder → Bool
is_token_dir (token_dir t) = true
is_token_dir session_dir = false
is_token_dir temp_dir = false

unfoldable pub stored_files : Files → List FilePath
stored_files [] = []
stored_files ((p, content) ∷ files) =
    let rest = stored_files files in if is_token_dir p.folder then p ∷ rest else rest

-- `info.ModTime().Before(cutoff)`
abbrev pub is_before_cutoff : ℕ → FilePath → World → Bool
is_before_cutoff days p w = ltb (w.modified p + days) w.now

abbrev pub remove_old : FilePath → Bool → Exec (IoResult (Unit {0}))
remove_old p true = remove_file p
remove_old p false = pure (good tt)

abbrev pub purge_seen : ℕ → FilePath → IoResult Bytes → Exec (IoResult (Unit {0}))
purge_seen days p missing = pure missing
purge_seen days p broken = pure broken
purge_seen days p (good content) = do old ← gets (is_before_cutoff days p); remove_old p old

-- what the function that `filepath.Walk` is given does with one file
unfoldable pub purge_file : ℕ → FilePath → Exec (IoResult (Unit {0}))
purge_file days p = do info ← read_file p; purge_seen days p info

abbrev pub go_on : IoResult (Unit {0}) → Exec (IoResult (Unit {0})) → Exec (IoResult (Unit {0}))
go_on (good _) rest = rest
go_on missing rest = pure missing
go_on broken rest = pure broken

unfoldable pub purge_files : ℕ → List FilePath → Exec (IoResult (Unit {0}))
purge_files days [] = pure (good tt)
purge_files days (p ∷ paths) = do done ← purge_file days p; go_on done (purge_files days paths)

-- `removeEmptyTokenDirs`: only a storage directory that cannot be read is an error
abbrev pub read_dir : Fault → IoResult (Unit {0})
read_dir works = good tt
read_dir (fails n) = broken

unfoldable pub remove_empty_token_dirs : Exec (IoResult (Unit {0}))
remove_empty_token_dirs = do fault ← system_call; pure (read_dir fault)

unfoldable pub purge : ℕ → Exec (IoResult (Unit {0}))
purge days = do
  paths ← gets (λ w. stored_files w.files)
  walked ← purge_files days paths
  go_on walked remove_empty_token_dirs

-- A uint64 counts the bytes. A file that is not there any more ends the walk, and `Usage` passes over
-- that error with what it has counted before.
unfoldable pub usage_of : List FilePath → ℕ → Exec (IoResult ℕ)
usage_of [] total = pure (good total)
usage_of (p ∷ paths) total = do
  info ← read_file p
  elim info [
    | good content ↦ usage_of paths ((total + length content) % 2 ^ 64)
    | missing ↦ pure (good total)
    | broken ↦ pure broken
  ]

unfoldable pub usage : Exec (IoResult ℕ)
usage = do paths ← gets (λ w. stored_files w.files); usage_of paths 0
