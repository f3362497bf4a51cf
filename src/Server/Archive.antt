-- ===== src/Server/Archive.antt =====
-- server/archive.go: the files that an archive link names, with `resolveKey` of server/handlers.go.
pub mod Keys
pub mod Link
pub mod Stream
mod Tests
use send_to.Prelude.{
  ◌||◌, Option, none, some, List, [], ◌∷◌, Bytes, ◌==◌, if◌then◌else◌, codes, ℕ, ◌-◌, ◌++◌,
  eq_bytes, take, drop, length, strip_prefix,
}
use send_to.Server.Redact.{split, trim_prefix}
use send_to.Server.Upload.{is_unset}

-- `strings.ReplaceAll(key, "\\", "/")`
unfoldable pub replace_backslashes : Bytes → Bytes
replace_backslashes [] = []
replace_backslashes (c ∷ s) = (if c == 92 then b'/' else c) ∷ replace_backslashes s

unfoldable pub resolve_key : Bytes → Bytes → Bytes
resolve_key key proxy_path =
    replace_backslashes (trim_prefix proxy_path (trim_prefix (codes "/") key))

abbrev longer : ℕ → Option (Bytes × Bytes) → Option (Bytes × Bytes)
longer c none = none
longer c (some (before, after)) = some (c ∷ before, after)

-- `strings.Cut` at one character
unfoldable pub cut : ℕ → Bytes → Option (Bytes × Bytes)
cut sep [] = none
cut sep (c ∷ s) = let rest = cut sep s in if c == sep then some ([], s) else longer c rest

pub record ArchiveEntry : Type 0 where
  pub token : Bytes
  pub filename : Bytes

module _ (sanitize : Bytes → Bytes) (proxy_path : Bytes) where
  abbrev pub add_entry : Option (Bytes × Bytes) → List ArchiveEntry → List ArchiveEntry
  add_entry none entries = entries
  add_entry (some (token, filename)) entries =
      if is_unset token || is_unset filename
      then entries
      else record { token = token; filename = sanitize filename } ∷ entries

  unfoldable pub entries_of : List Bytes → List ArchiveEntry
  entries_of [] = []
  entries_of (key ∷ keys) = add_entry (cut b'/' (resolve_key key proxy_path)) (entries_of keys)

  unfoldable pub parse_archive_keys : Bytes → List ArchiveEntry
  parse_archive_keys files = entries_of (split b',' files)

-- what stands before a text at the end
unfoldable pub strip_suffix : Bytes → Bytes → Option Bytes
strip_suffix suffix s =
    if eq_bytes (drop (length s - length suffix) s) suffix
    then some (take (length s - length suffix) s)
    else none

-- The routes `/({files:.*}).zip`, `.tar` and `.tar.gz`: what the path of a request has for `files`.
unfoldable pub archive_route : Bytes → Bytes → Option Bytes
archive_route format path = elim (strip_prefix (codes "/(") path) [
  | none ↦ none
  | some rest ↦ strip_suffix (codes ")." ++ format) rest
]
