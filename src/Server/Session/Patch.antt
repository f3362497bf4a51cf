-- ===== src/Server/Session/Patch.antt =====
-- The PATCH handler of server/resumable.go: one chunk, and the end of an upload.
use send_to.Prelude.{
  ℕ, zero, suc, ◌+◌, ◌-◌, Bool, true, false, ◌&&◌, not, Option, none, some, [], ◌++◌, Bytes, ltb,
  ◌==◌, if◌then◌else◌, length, take,
}
use send_to.Prelude.Int.{ℤ, pos, negsuc}
use send_to.Prelude.Decimal.{format}
use send_to.E2e.{Source, eof}
use send_to.Server.Fs.{FilePath, lookup}
use send_to.Server.Exec.{
  bind_reply, World, Fault, works, fails, Exec, Reply, refused, offset_at, stored, next, answered,
  pure, gets, answer, system_call, upload_error, count_upload_error, msg_not_found,
  msg_session_mismatch, msg_session_continue, msg_session_offset, msg_chunk_incomplete,
  msg_save_failed, ◌>>=◌, ◌>>◌,
}
use send_to.Server.Storage.{IoResult, good, missing, broken, read_file, write}
use send_to.Server.Types.{Env, Config, Headers, Request, UploadSession, Metadata}
use send_to.Server.Quota.{check_storage_quota, check_temp_quota}
use send_to.Server.Owner.{record_ownership}
use send_to.Server.Upload.{token, metadata_for_headers, prescan, store, new_upload_result}
use send_to.Server.Session.{part_path, remove_session, open_session}
use send_to.Server.Session.ContentRange.{Span, Parsed, parsed, unparsed, parse_upload_content_range}

-- How the appending of a chunk ends: all of it written and flushed, cut short and rolled back, cut
-- short with a failed roll-back, or written with a failed close.
pub data Appended : Type 0 where
  complete cut unflushed : Appended

-- `f.Truncate(offset)`: on an error the file stays as the copy left it
abbrev pub roll_back : FilePath → Bytes → Fault → Exec (Unit {0})
roll_back p before works = write p before
roll_back p before (fails n) = pure tt

abbrev pub is_work : Fault → Bool
is_work works = true
is_work (fails n) = false

-- `io.Copy(f, io.LimitReader(r.Body, want))`: what arrives, and then the write of it
abbrev pub copied : Fault → Bytes → Bytes
copied works arrived = arrived
copied (fails n) arrived = take n arrived

-- `f.Close()`
abbrev pub closed : Fault → Appended
closed works = complete
closed (fails n) = unflushed

module _ (p : FilePath) (before : Bytes) (want : ℕ) (body : Source) where
  -- the roll-back of a short copy, or the close of a full one
  abbrev pub append_end : Bool → Exec Appended
  append_end false = do truncate ← system_call; roll_back p before truncate; pure cut
  append_end true = do close ← system_call; pure (closed close)

  abbrev pub append_copy : Fault → Exec Appended
  append_copy fault = do
    let written = copied fault (take want body.content)
    write p (before ++ written)
    append_end (is_work fault && (length written == want))

  -- The copy at the end of the spool file; on a read or write error, or a short body, the roll-back;
  -- and the close. A body that ends early is one that has fewer than `want` bytes.
  unfoldable pub append_chunk : Exec Appended
  append_chunk = do fault ← system_call; append_copy fault

module _ (env : Env) (c : Config) where
  abbrev positive_header : ℤ → Bytes
  positive_header (pos zero) = []
  positive_header (pos (suc k)) = format (suc k)
  positive_header (negsuc k) = []

  -- the headers that the session was opened with, as `finishUploadSession` sets them again
  abbrev session_headers : UploadSession → Headers
  session_headers sess = record {
    max_downloads = positive_header sess.max_downloads;
    max_days = positive_header sess.max_days;
    encrypt_password = [];
    owner_token = [];
    upload_length = [];
    content_range = [];
    range = [];
    if_none_match = [];
    decrypt_password = [];
  }

  abbrev pub finished :
      Request → UploadSession → Bytes → Metadata → IoResult (Unit {0}) → Exec (Unit {0})
  finished r sess t m missing = upload_error 500 msg_save_failed
  finished r sess t m broken = upload_error 500 msg_save_failed
  finished r sess t m (good _) = do
    remove_session sess.id
    record_ownership env (new_upload_result r t sess.filename m) m t
    answer (stored (new_upload_result r t sess.filename m))

  abbrev pub finish_with : Request → UploadSession → IoResult Bytes → Exec (Unit {0})
  finish_with r sess missing = upload_error 500 msg_save_failed
  finish_with r sess broken = upload_error 500 msg_save_failed
  finish_with r sess (good content) = do
    made ← metadata_for_headers env c sess.content_type sess.total (session_headers sess)
    check_storage_quota c sess.total
    let m = record made { owner_hash = sess.owner_hash }
    t ← token c.random_token_length
    put ← store env c t sess.filename (record { content = content; ending = eof }) sess.total m []
    finished r sess t m put

  -- an answer of `prescan` comes with the removal of the session
  abbrev pub or_drop : Bytes → Reply (Unit {0}) × World → Reply (Unit {0}) × World
  or_drop id (next _, w) = (next tt, w)
  or_drop id (answered a, w) = bind_reply (remove_session id w) (λ _. answer a)

  abbrev pub spooled : Option Bytes → Bytes
  spooled none = []
  spooled (some content) = content

  unfoldable pub finish_upload_session : Request → UploadSession → Exec (Unit {0})
  finish_upload_session r sess = do
    scan ← gets (λ w. spooled (lookup (part_path sess.id) w.files))
    λ w. or_drop sess.id (prescan env c scan w)
    content ← read_file (part_path sess.id)
    finish_with r sess content

  abbrev pub after_append : Request → UploadSession → ℕ → ℕ → Appended → Exec (Unit {0})
  after_append r sess offset want cut = do
    count_upload_error
    answer (refused 408 msg_chunk_incomplete (some offset))
  after_append r sess offset want unflushed = upload_error 500 msg_session_continue
  after_append r sess offset want complete =
      if ltb (offset + want) sess.total
      then answer (offset_at 204 (offset + want))
      else finish_upload_session r sess

  -- The spool file is open: `stat`, the offset, the quota, `seek` and the chunk.
  abbrev pub at_spool : Request → UploadSession → Span → Source → Bytes → Fault → Exec (Unit {0})
  at_spool r sess span body content (fails n) = answer (refused 500 msg_session_continue none)
  at_spool r sess span body content works =
      if not (span.start == length content)
      then answer (refused 409 msg_session_offset (some (length content)))
      else do
        let want = span.finish - span.start + 1
        check_temp_quota c want
        seek ← system_call
        if is_work seek
            then (do
              done ← append_chunk (part_path sess.id) content want body
              after_append r sess (length content) want done)
            else answer (refused 500 msg_session_continue none)

  abbrev pub on_spool : Request → UploadSession → Span → Source → IoResult Bytes → Exec (Unit {0})
  on_spool r sess span body missing = answer (refused 404 msg_not_found none)
  on_spool r sess span body broken = answer (refused 404 msg_not_found none)
  on_spool r sess span body (good content) = do
    stat ← system_call
    at_spool r sess span body content stat

  abbrev pub on_range : Request → UploadSession → Source → Parsed → Exec (Unit {0})
  on_range r sess body (unparsed msg) = upload_error 400 msg
  on_range r sess body (parsed span) =
      if not (span.total == sess.total)
      then upload_error 400 msg_session_mismatch
      else do content ← read_file (part_path sess.id); on_spool r sess span body content

  unfoldable pub patch_upload_session_handler : Bytes → Bytes → Request → Source → Exec (Unit {0})
  patch_upload_session_handler id filename r body = do
    sess ← open_session env id filename
    on_range r sess body (parse_upload_content_range (env.trim_space r.headers.content_range))
