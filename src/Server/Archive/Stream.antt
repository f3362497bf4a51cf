-- ===== src/Server/Archive/Stream.antt =====
-- server/archive.go: the files of an archive link are written into one archive, one after the other. The
-- formats zip, tar and tar.gz (archive/zip, archive/tar, compress/gzip) are left out: an archive is the
-- list of its complete members, and whether it ends as it should. A member that is broken off in the
-- middle is left out of the list, also where some of its bytes have been sent before the answer is an
-- error.
pub mod Budget
mod Tests
use send_to.Prelude.{
  ℕ, ◌+◌, Bool, true, false, Option, none, some, List, [], ◌∷◌, Bytes, length, if◌then◌else◌,
}
use send_to.Server.Exec.{
  World, Fault, works, fails, Exec, MsgId, refused, pure, modify, answer, system_call,
  msg_no_valid_files, msg_file_not_found, msg_retrieve_failed, ◌>>=◌, ◌>>◌,
}
use send_to.Server.Storage
use send_to.Server.Storage.{IoResult, good, missing, broken}
use send_to.Server.Types.{Env, Config, Metadata}
use send_to.Server.Lifecycle.{check_metadata, increase_download}
use send_to.Server.Archive.{ArchiveEntry, parse_archive_keys}

-- the members with their names
pub record ArchiveFile : Type 0 where
  pub members : List (Bytes × Bytes)
  pub complete : Bool

abbrev pub add_to : Bytes → Bytes → ArchiveFile → ArchiveFile
add_to name content a = record { members = (name, content) ∷ a.members; complete = a.complete }

-- `archiveError`: `sent` says whether a member has been written before
unfoldable pub archive_error : Bool → ℕ → MsgId → Exec ArchiveFile
archive_error sent status msg = do
  modify λ w. record w {
    metrics = record w.metrics { download_errors = w.metrics.download_errors + 1 };
  }
  if sent
      then pure (record { members = []; complete = false })
      else answer (refused status msg none)

module _ (env : Env) (c : Config) where
  -- the copy into the archive, and what is counted behind it
  abbrev pub copied_entry : ArchiveEntry → Bytes → Fault → Exec (IoResult Bytes)
  copied_entry e content (fails n) = pure broken
  copied_entry e content works = do
    _ ← increase_download env c e.token e.filename
    modify λ w. record w {
      metrics = record w.metrics {
        downloads = w.metrics.downloads + 1;
        download_bytes = w.metrics.download_bytes + length content;
      };
    }
    pure (good content)

  abbrev pub got_entry : ArchiveEntry → IoResult Bytes → Exec (IoResult Bytes)
  got_entry e missing = pure missing
  got_entry e broken = pure broken
  got_entry e (good content) = do fault ← system_call; copied_entry e content fault

  unfoldable pub copy_archive_entry : ArchiveEntry → Exec (IoResult Bytes)
  copy_archive_entry e = do got ← Storage.get e.token e.filename; got_entry e got

  -- the rest of the loop behind a copy, and behind the check of the metadata
  abbrev pub entry_copied :
      (Bool → Exec ArchiveFile) → Bool → ArchiveEntry → IoResult Bytes → Exec ArchiveFile
  entry_copied rest sent e missing = archive_error sent 404 msg_file_not_found
  entry_copied rest sent e broken = archive_error sent 500 msg_retrieve_failed
  entry_copied rest sent e (good content) =
      rest true >>= λ others. pure (add_to e.filename content others)

  abbrev pub entry_checked :
      (Bool → Exec ArchiveFile) → Bool → ArchiveEntry → Option Metadata → Exec ArchiveFile
  entry_checked rest sent e none = rest sent
  entry_checked rest sent e (some m) = do
    copied ← copy_archive_entry e
    entry_copied rest sent e copied

  -- the loop over the entries; one whose metadata cannot be had is passed over
  unfoldable pub write_entries : Bool → List ArchiveEntry → Exec ArchiveFile
  write_entries sent [] = pure (record { members = []; complete = true })
  write_entries sent (e ∷ entries) = do
    m ← check_metadata env c e.token e.filename
    entry_checked (λ written. write_entries written entries) sent e m

  abbrev pub archive_of : List ArchiveEntry → Exec ArchiveFile
  archive_of [] = answer (refused 400 msg_no_valid_files none)
  archive_of (e ∷ entries) = write_entries false (e ∷ entries)

  module _ (proxy_path : Bytes) where
    unfoldable pub zip_handler : Bytes → Exec ArchiveFile
    zip_handler files = archive_of (parse_archive_keys env.sanitize proxy_path files)

    unfoldable pub tar_handler : Bytes → Exec ArchiveFile
    tar_handler files = archive_of (parse_archive_keys env.sanitize proxy_path files)

    unfoldable pub tar_gz_handler : Bytes → Exec ArchiveFile
    tar_gz_handler files = archive_of (parse_archive_keys env.sanitize proxy_path files)
