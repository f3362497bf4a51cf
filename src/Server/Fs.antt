-- ===== src/Server/Fs.antt =====
-- The files of an instance: the storage directory with one folder for each token, the folder of
-- upload sessions and the temporary folder. They are distinct folders.
use send_to.Prelude.{
  ℕ, ◌+◌, ◌≡◌, ◌↔◌, refl, Bool, true, false, ◌&&◌, Option, none, some, List, [], ◌∷◌, Bytes, arith,
  eq_bytes, eq_bytes_iff, if◌then◌else◌, length,
}

pub data Folder : Type 0 where
  token_dir : Bytes → Folder
  session_dir temp_dir : Folder

pub record FilePath : Type 0 where
  pub folder : Folder
  pub name : Bytes

unfoldable pub eq_folder : Folder → Folder → Bool
eq_folder (token_dir t) (token_dir u) = eq_bytes t u
eq_folder session_dir session_dir = true
eq_folder temp_dir temp_dir = true
eq_folder _ _ = false

pub eq_folder_iff : (a b : Folder) → (eq_folder a b ≡ true) ↔ (a ≡ b)
unfolding eq_folder
eq_folder_iff (token_dir t) (token_dir u) = ground (arith, eq_bytes_iff t u)
eq_folder_iff session_dir session_dir = ground arith
eq_folder_iff temp_dir temp_dir = ground arith
eq_folder_iff _ _ = ground arith

unfoldable pub eq_path : FilePath → FilePath → Bool
eq_path p q = eq_folder p.folder q.folder && eq_bytes p.name q.name

pub eq_path_iff : (p q : FilePath) → (eq_path p q ≡ true) ↔ (p ≡ q)
unfolding eq_path
eq_path_iff p q = ground (arith, eq_folder_iff p.folder q.folder, eq_bytes_iff p.name q.name)

pub eq_path_refl : (p : FilePath) → eq_path p p ≡ true
eq_path_refl p = (eq_path_iff p p).1 refl

abbrev pub Files : Type 0
Files = List (FilePath × Bytes)

unfoldable pub lookup : FilePath → Files → Option Bytes
lookup p [] = none
lookup p ((q, content) ∷ files) = if eq_path q p then some content else lookup p files

unfoldable pub remove : FilePath → Files → Files
remove p [] = []
remove p ((q, content) ∷ files) =
    let rest = remove p files in if eq_path q p then rest else (q, content) ∷ rest

unfoldable pub put : FilePath → Bytes → Files → Files
unfolding remove
put p content files = (p, content) ∷ remove p files

pub lookup-remove :
    (p q : FilePath) (files : Files)
    → lookup q (remove p files) ≡ (if eq_path p q then none else lookup q files)
unfolding lookup remove
lookup-remove p q [] = ground arith
lookup-remove p q ((r, content) ∷ files) =
    ground (arith, lookup-remove p q files, eq_path_iff r p, eq_path_iff r q, eq_path_iff p q)

pub lookup-put :
    (p q : FilePath) (content : Bytes) (files : Files)
    → lookup q (put p content files) ≡ (if eq_path p q then some content else lookup q files)
unfolding lookup put
lookup-put p q content files = ground (arith, lookup-remove p q files)

pub lookup-put_self :
    (p : FilePath) (content : Bytes) (files : Files) → lookup p (put p content files) ≡ some content
lookup-put_self p content files = rw (lookup-put p p content files, eq_path_refl p)

pub ruleset file_laws = (lookup-remove, lookup-put, eq_path_refl)

-- The sizes of all files of a folder: `os.ReadDir` and the sum of `Info().Size()`.
unfoldable pub folder_size : Folder → Files → ℕ
folder_size d [] = 0
folder_size d ((p, content) ∷ files) =
    (if eq_folder p.folder d then length content else 0) + folder_size d files
