-- ===== src/Server/Purge/Usage.antt =====
-- server/storage/local.go: what `Usage` counts.
use send_to.Prelude.{
  ℕ, ◌+◌, ◌%◌, ◌^◌, ◌<◌, ◌≡◌, ◌≢◌, refl, ap, ◌∙◌, subst, ◌⊎◌, inl, inr, List, [], ◌∷◌, arith,
  Bool-cases, if◌then◌else◌, length,
}
use send_to.Server.Fs.{Files, lookup, eq_path_refl}
use send_to.Server.Exec.{World, Fault, next, tail_faults}
use send_to.Server.Storage.{IoResult, good, broken}
use send_to.Server.Storage.Walk.{is_token_dir, stored_files, usage_of, usage}
use send_to.Server.Purge.Files.{IsDistinct, IsWithin, IsWithin-tail, more_faults}
use send_to.Server.Purge.Step.{read_file-Step}

-- the bytes of the files in the storage directory
unfoldable pub stored_size : Files → ℕ
stored_size [] = 0
stored_size ((p, content) ∷ files) =
    let rest = stored_size files in if is_token_dir p.folder then length content + rest else rest

-- `usage` as it counts on, in 64 bits
abbrev pub Counts : World → ℕ → IoResult ℕ → Type 0
Counts w size r = (r ≡ good (size % 2 ^ 64)) ⊎ ((r ≡ broken) × (w.faults ≢ []))

usage_of-Counts :
    (fs : Files) (w : World) (total : ℕ)
    → IsDistinct fs
    → IsWithin fs w.files
    → total < 2 ^ 64
    → (r : IoResult ℕ) × (faults : List Fault) × (usage_of (stored_files fs) total w
        ≡ (next r, record w { faults = faults }))
      × Counts w (total + stored_size fs) r
unfolding usage_of stored_files stored_size lookup
usage_of-Counts [] w total d within small =
    (good total, w.faults, refl, inl (ap good (omega arith)))
usage_of-Counts ((p, content) ∷ fs) w total (fresh, d) within small =
    let tail : IsWithin fs w.files =
      λ q c h. (IsWithin-tail p content fs w.files fresh within q c h).0 in
    elim (Bool-cases (is_token_dir p.folder)) [
      | inr other ↦
          let (r, faults, run, counts) = usage_of-Counts fs w total d tail small in
          (r, faults, rw other run, rw other counts)
      | inl stored ↦
          let (r, read, seen) =
            read_file-Step p content w (within p content (rw (eq_path_refl p) refl)) in
          elim seen [
            | inr (broken_, some_) ↦
                (broken, tail_faults w.faults, rw (stored, read, broken_) refl, inr (refl, some_))
            | inl good_ ↦
                let v : World = record w { faults = tail_faults w.faults } in
                let (r', faults, run, counts) =
                  usage_of-Counts fs v ((total + length content) % 2 ^ 64) d tail (omega arith) in
                (
                  r',
                  faults,
                  rw (stored, read, good_) run,
                  elim counts [
                    | inl done ↦ inl (done ∙ ap good (rw stored (omega arith)))
                    | inr (broken_, some_) ↦ inr (broken_, more_faults w.faults some_)
                  ],
                )
          ]
    ]

pub usage-Counts :
    (w : World)
    → IsDistinct w.files
    → (r : IoResult ℕ) × (faults : List Fault) × (usage w ≡ (next r, record w { faults = faults }))
      × Counts w (stored_size w.files) r
unfolding usage
usage-Counts w distinct =
    let (r, faults, run, counts) =
      usage_of-Counts w.files w 0 distinct (λ q c h. h) (omega arith) in
    let zero_first : 0 + stored_size w.files ≡ stored_size w.files = omega arith in
    (r, faults, run, subst (λ n. Counts w n r) zero_first counts)
