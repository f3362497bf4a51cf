-- ===== src/Server/Session.antt =====
-- server/resumable.go: upload sessions. A session is two files of the session folder, the spool file
-- `<id>.part` and the sidecar `<id>.json`. The lock that PATCH and DELETE hold is not modelled: each
-- handler runs alone.
pub mod ContentRange
pub mod Patch
pub mod Create
pub mod Spool
pub mod Announced
pub mod Silent
pub mod Offset
pub mod Refines
mod Tests
use send_to.Prelude.{
  ℕ, zero, suc, ◌+◌, ◌-◌, ◌*◌, ◌^◌, Bool, true, false, ◌&&◌, ◌||◌, not, Option, none, some, List,
  [], ◌∷◌, ◌++◌, Bytes, codes, eq_bytes, ltb, leb, ◌==◌, if◌then◌else◌, length, take, all,
  strip_prefix,
}
use send_to.Prelude.Int.{ℤ, pos, negsuc}
use send_to.Prelude.Decimal.{parse_uint, span_digits, is_digit, format}
use send_to.E2e.{Source, End, eof, failed, is_eof}
use send_to.Server.Fs
use send_to.Server.Fs.{Files, FilePath, session_dir, lookup, eq_folder}
use send_to.Server.Exec.{
  bind_reply, World, Metrics, Fault, works, fails, Exec, Reply, Answer, refused, session_at,
  offset_at, stored, plain, next, answered, pure, gets, modify, answer, system_call, upload_error,
  count_upload_error, MsgId, msg_not_found, msg_upload_length, msg_entity_too_large,
  msg_resumable_no_pass, msg_session_failed, msg_session_expired, msg_content_range_form,
  msg_content_range_from, msg_content_range_to, msg_content_range_all, msg_content_range_span,
  msg_session_mismatch, msg_session_continue, msg_session_offset, msg_chunk_incomplete,
  msg_save_failed, ◌>>=◌, ◌>>◌,
}
use send_to.Server.Storage.{
  IoResult, good, missing, broken, read_file, remove_file, write_file, write,
}
use send_to.Server.Types.{Env, Config, Headers, Request, UploadSession, Metadata}
use send_to.Server.Quota.{check_storage_quota, check_upload_budget, check_temp_quota}
use send_to.Server.Owner.{owner_hash_from_headers, record_ownership}
use send_to.Server.Upload.{
  atoi, token, metadata_for_headers, prescan, store, new_upload_result, is_unset,
}

abbrev pub session_id_length : ℕ
session_id_length = 24

abbrev pub session_ttl : ℕ
session_ttl = 24 * 3600

abbrev pub session_sweep_interval : ℕ
session_sweep_interval = 3600

abbrev pub part_path : Bytes → FilePath
part_path id = record { folder = session_dir; name = id ++ codes ".part" }

abbrev pub session_sidecar : Bytes → FilePath
session_sidecar id = record { folder = session_dir; name = id ++ codes ".json" }

abbrev is_alphanumeric : ℕ → Bool
is_alphanumeric c = is_digit c || (leb b'a' c && leb c b'z') || (leb b'A' c && leb c b'Z')

-- `^[0-9a-zA-Z]{8,64}$`
unfoldable pub session_id_matches : Bytes → Bool
session_id_matches id = leb 8 (length id) && leb (length id) 64 && all is_alphanumeric id

-- `removeSession`: errors are logged only
unfoldable pub remove_session : Bytes → Exec (Unit {0})
remove_session id = do _ ← remove_file (part_path id); _ ← remove_file (session_sidecar id); pure tt

module _ (env : Env) where
  abbrev decoded : Option UploadSession → IoResult UploadSession
  decoded none = broken
  decoded (some sess) = good sess

  abbrev loaded : IoResult Bytes → IoResult UploadSession
  loaded (good content) = decoded (env.decode_session content)
  loaded missing = missing
  loaded broken = broken

  unfoldable pub load_session : Bytes → Exec (IoResult UploadSession)
  load_session id = do content ← read_file (session_sidecar id); pure (loaded content)

  abbrev opened : Bytes → Bytes → IoResult UploadSession → Exec UploadSession
  opened id filename missing = answer (refused 404 msg_not_found none)
  opened id filename broken = answer (refused 404 msg_not_found none)
  opened id filename (good sess) =
      if eq_bytes sess.id id && eq_bytes sess.filename (env.sanitize filename)
      then (do
        now ← gets (λ w. w.now)
        if ltb session_ttl (now - sess.created_at)
            then (do remove_session id; answer (refused 410 msg_session_expired none))
            else pure sess)
      else answer (refused 404 msg_not_found none)

  unfoldable pub open_session : Bytes → Bytes → Exec UploadSession
  open_session id filename =
      if session_id_matches id
      then (do sess ← load_session id; opened id filename sess)
      else answer (refused 404 msg_not_found none)

  abbrev pub reported : IoResult Bytes → Exec (Unit {0})
  reported (good content) = answer (offset_at 200 (length content))
  reported missing = answer (refused 404 msg_not_found none)
  reported broken = answer (refused 404 msg_not_found none)

  unfoldable pub head_upload_session_handler : Bytes → Bytes → Exec (Unit {0})
  head_upload_session_handler id filename = do
    sess ← open_session id filename
    info ← read_file (part_path sess.id)
    reported info

  unfoldable pub delete_upload_session_handler : Bytes → Bytes → Exec (Unit {0})
  delete_upload_session_handler id filename = do
    sess ← open_session id filename
    remove_session sess.id
    answer (plain 204)
