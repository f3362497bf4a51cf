-- ===== src/Server/Purge/Files.antt =====
-- The files of a walk: no path twice, and the outcomes of the next call.
use send_to.Prelude.{
  ℕ, ◌≡◌, ◌≢◌, refl, ◌⊎◌, inl, inr, false, none, some, List, [], ◌∷◌, Bytes, arith, Bool-cases,
}
use send_to.Server.Fs
use send_to.Server.Fs.{Files, FilePath, lookup, lookup-remove, eq_path, eq_path_iff, eq_path_refl}
use send_to.Server.Exec.{Fault, works, fails, head_fault, tail_faults}
use send_to.Server.Storage.Walk.{}

-- No path stands twice among the files.
abbrev pub IsDistinct : Files → Type 0
IsDistinct [] = Unit
IsDistinct ((p, content) ∷ files) = (lookup p files ≡ none) × IsDistinct files

pub remove-IsDistinct :
    (p : FilePath) (files : Files) → IsDistinct files → IsDistinct (Fs.remove p files)
unfolding Fs.remove lookup
remove-IsDistinct p [] h = tt
remove-IsDistinct p ((q, content) ∷ files) (fresh, rest) = elim (Bool-cases (eq_path q p)) [
  | inl same ↦ rw same (remove-IsDistinct p files rest)
  | inr other ↦ rw other (ground (arith, lookup-remove p q files), remove-IsDistinct p files rest)
]

-- The first files are among the second.
abbrev pub IsWithin : Files → Files → Type 0
IsWithin fs files =
    (q : FilePath) (content : Bytes) → lookup q fs ≡ some content → lookup q files ≡ some content

pub IsWithin-tail :
    (p : FilePath) (c : Bytes) (fs files : Files)
    → lookup p fs ≡ none
    → IsWithin ((p, c) ∷ fs) files
    → (q : FilePath) (content : Bytes) → lookup q fs ≡ some content
    → (lookup q files ≡ some content) × (eq_path p q ≡ false)
unfolding lookup
IsWithin-tail p c fs files fresh within q content h = elim (Bool-cases (eq_path p q)) [
  | inl same ↦ absurd (ground (arith, (eq_path_iff p q).0 same))
  | inr other ↦ (within q content (rw other h), other)
]

pub first_fault :
    (fs : List Fault) → (head_fault fs ≡ works) ⊎ ((n : ℕ) × (head_fault fs ≡ fails n) × (fs ≢ []))
first_fault [] = inl refl
first_fault (works ∷ fs) = inl refl
first_fault (fails n ∷ fs) = inr (n, refl, ground arith)

pub more_faults : (fs : List Fault) → tail_faults fs ≢ [] → fs ≢ []
more_faults [] h = h
more_faults (f ∷ fs) h = ground arith
