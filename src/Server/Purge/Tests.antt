-- ===== src/Server/Purge/Tests.antt =====
-- Two uploads, one of which is too old, and a session.
use send_to.Prelude.{ℕ, ◌≡◌, ◌≢◌, refl, ◌⊎◌, List, [], ◌∷◌, codes, eq_bytes, if◌then◌else◌}
use send_to.Server.Fs.{Files, session_dir, lookup, eq_path, eq_folder, remove}
use send_to.Server.Exec.{World, Fault, next, system_call}
use send_to.Server.Storage.{good, stored_path, read_file, remove_file}
use send_to.Server.Storage.Walk.{
  stored_files, purge_file, purge_files, remove_empty_token_dirs, purge, usage_of, usage,
}
use send_to.Server.Sample.{limits, world}
use send_to.Server.Purge.{reseed_storage_quota, purge_round}
use send_to.Server.Purge.Files.{IsDistinct}
use send_to.Server.Purge.Sweep.{Spares}
use send_to.Server.Purge.Round.{IsSwept, recounted, purge_round-Sweeps}

abbrev two_uploads : World
two_uploads =
    record (world [] (
      (stored_path (codes "abc") (codes "old"), codes "hello")
      ∷ (stored_path (codes "def") (codes "new"), codes "you")
      ∷ (record { folder = session_dir; name = codes "old" }, codes "part")
      ∷ [])) { modified = λ p. if eq_bytes p.name (codes "new") then 4 else 0 }

two_uploads-IsDistinct : IsDistinct two_uploads.files
unfolding lookup eq_path eq_folder eq_bytes
two_uploads-IsDistinct = (refl, (refl, (refl, tt)))

one_round : (purge_round limits 3 two_uploads).1.quota_used ≡ 3
unfolding purge_round purge purge_files purge_file stored_files remove_empty_token_dirs
    reseed_storage_quota usage usage_of read_file remove_file system_call remove lookup eq_path
    eq_folder eq_bytes
one_round = refl

-- A file that is removed while the files are counted ends the count, and counts as no error.
cut_short :
    usage_of
      (stored_path (codes "x") (codes "gone") ∷ stored_path (codes "def") (codes "new") ∷ [])
      0
      two_uploads
    ≡ (next (good 0), two_uploads)
unfolding usage_of read_file system_call lookup eq_path eq_folder eq_bytes
cut_short = refl

purge_round-Sweeps_example :
    (faults : List Fault) × (files : Files) × (used : ℕ) × (purge_round limits 3 two_uploads
      ≡ (next tt, record two_uploads { faults = faults; files = files; quota_used = used }))
    × Spares 3 two_uploads files
    × ((IsSwept 3 two_uploads files × (used ≡ recounted limits two_uploads files))
        ⊎ ((◌≢◌ {A = List Fault} [] []) × (used ≡ two_uploads.quota_used)))
purge_round-Sweeps_example = purge_round-Sweeps limits 3 two_uploads two_uploads-IsDistinct
