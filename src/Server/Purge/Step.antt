-- ===== src/Server/Purge/Step.antt =====
-- server/storage/local.go: what the walk of `Purge` does with one file, whatever calls fail.
use send_to.Prelude.{
  ℕ, ◌≡◌, ◌≢◌, refl, ap, ◌∙◌, ◌⊎◌, inl, inr, Bool, true, false, ◌&&◌, none, some, List, [], Bytes,
  if◌then◌else◌,
}
use send_to.Server.Fs
use send_to.Server.Fs.{Files, FilePath, lookup, lookup-remove, eq_path, eq_path_iff, eq_path_refl}
use send_to.Server.Exec.{World, Fault, next, tail_faults, system_call}
use send_to.Server.Storage.{IoResult, good, broken, read_file, remove_file}
use send_to.Server.Storage.Walk.{is_token_dir, is_before_cutoff, purge_file, remove_old}
use send_to.Server.Purge.Files.{IsDistinct, remove-IsDistinct, first_fault, more_faults}

-- An outcome of a step: it works and the files are those given, or it fails, which takes a fault, and
-- no file has changed.
abbrev pub StepOf : World → Files → IoResult (Unit {0}) → Files → Type 0
StepOf w swept r files =
    ((r ≡ good tt) × (files ≡ swept)) ⊎ ((r ≡ broken) × (w.faults ≢ []) × (files ≡ w.files))

StepOf-later :
    (w : World) (swept : Files) (r : IoResult (Unit {0})) (files : Files)
    → StepOf (record w { faults = tail_faults w.faults }) swept r files
    → StepOf w swept r files
StepOf-later w swept r files step = elim step [
  | inl done ↦ inl done
  | inr (broken_, some_, kept) ↦ inr (broken_, more_faults w.faults some_, kept)
]

remove_file-StepOf :
    (p : FilePath) (content : Bytes) (w : World)
    → lookup p w.files ≡ some content
    → (r : IoResult (Unit {0})) × (files : Files) × (remove_file p w
        ≡ (next r, record w { faults = tail_faults w.faults; files = files }))
      × StepOf w (Fs.remove p w.files) r files
unfolding remove_file system_call
remove_file-StepOf p content w there = elim (first_fault w.faults) [
  | inl works_ ↦ (good tt, Fs.remove p w.files, rw (works_, there) refl, inl (refl, refl))
  | inr (n, fails_, some_) ↦ (broken, w.files, rw fails_ refl, inr (refl, some_, refl))
]

pub read_file-Step :
    (p : FilePath) (content : Bytes) (w : World)
    → lookup p w.files ≡ some content
    → (r : IoResult Bytes) × (read_file p w ≡ (next r, record w { faults = tail_faults w.faults }))
      × ((r ≡ good content) ⊎ ((r ≡ broken) × (w.faults ≢ [])))
unfolding read_file system_call
read_file-Step p content w there = elim (first_fault w.faults) [
  | inl works_ ↦ (good content, rw (works_, there) refl, inl refl)
  | inr (n, fails_, some_) ↦ (broken, rw fails_ refl, inr (refl, some_))
]

-- the files behind a step that works
abbrev pub taken : FilePath → Bool → Files → Files
taken p old files = if old then Fs.remove p files else files

pub lookup-taken :
    (p q : FilePath) (old : Bool) (files : Files)
    → lookup q (taken p old files) ≡ (if old && eq_path p q then none else lookup q files)
lookup-taken p q true files = lookup-remove p q files
lookup-taken p q false files = refl

pub taken-IsDistinct :
    (p : FilePath) (old : Bool) (files : Files) → IsDistinct files → IsDistinct (taken p old files)
taken-IsDistinct p true files h = remove-IsDistinct p files h
taken-IsDistinct p false files h = h

module _ (days : ℕ) where
  -- whether a sweep takes a file away
  abbrev pub is_swept : World → FilePath → Bool
  is_swept w p = is_token_dir p.folder && is_before_cutoff days p w

  pub purge_file-StepOf :
      (p : FilePath) (content : Bytes) (w : World) (old : Bool)
      → lookup p w.files ≡ some content
      → is_before_cutoff days p w ≡ old
      → (r : IoResult (Unit {0})) × (faults : List Fault) × (files : Files) × (purge_file days p w
          ≡ (next r, record w { faults = faults; files = files }))
        × StepOf w (taken p old w.files) r files
        × (faults ≢ [] → w.faults ≢ [])
  unfolding purge_file
  purge_file-StepOf p content w old there age =
      let (info, read, seen) = read_file-Step p content w there in
      elim seen [
        | inl good_ ↦ go old age (rw (read, good_) refl)
        | inr (broken_, some_) ↦ (
          broken,
          tail_faults w.faults,
          w.files,
          rw (read, broken_) refl,
          inr (refl, some_, refl),
          more_faults w.faults,
        )
      ]
    where
      v : World
      v = record w { faults = tail_faults w.faults }

      go :
          (b : Bool)
          → is_before_cutoff days p w ≡ b
          → purge_file days p w ≡ remove_old p (is_before_cutoff days p w) v
          → (r : IoResult (Unit {0})) × (faults : List Fault) × (files : Files) × (purge_file days p
                w
              ≡ (next r, record w { faults = faults; files = files }))
            × StepOf w (taken p b w.files) r files
            × (faults ≢ [] → w.faults ≢ [])
      go true h e =
          let (r, files, removed, step) = remove_file-StepOf p content v there in
          (
            r,
            tail_faults (tail_faults w.faults),
            files,
            e ∙ ap (λ b. remove_old p b v) h ∙ removed,
            StepOf-later w (Fs.remove p w.files) r files step,
            λ more. more_faults w.faults (more_faults (tail_faults w.faults) more),
          )
      go false h e = (
        good tt,
        tail_faults w.faults,
        w.files,
        e ∙ ap (λ b. remove_old p b v) h,
        inl (refl, refl),
        more_faults w.faults,
      )
