-- ===== src/Server/Session/Create.antt =====
-- The POST handler of server/resumable.go: a new session, after a sweep of the old ones.
use send_to.Prelude.{
  zero, suc, ◌+◌, Bool, true, false, ◌&&◌, not, Option, none, some, [], ◌∷◌, Bytes, codes, ltb, leb,
  if◌then◌else◌,
}
use send_to.Prelude.Int.{ℤ, pos, negsuc}
use send_to.Server.Fs.{Files, FilePath, session_dir, eq_folder}
use send_to.Server.Exec.{
  Fault, works, fails, Exec, refused, session_at, pure, gets, modify, answer, system_call,
  upload_error, msg_upload_length, msg_entity_too_large, msg_resumable_no_pass, msg_session_failed,
  ◌>>=◌, ◌>>◌,
}
use send_to.Server.Storage.{IoResult, good, missing, broken, remove_file, write_file}
use send_to.Server.Types.{Env, Config, Request, UploadSession}
use send_to.Server.Quota.{check_storage_quota, check_upload_budget, check_temp_quota}
use send_to.Server.Owner.{owner_hash_from_headers}
use send_to.Server.Upload.{atoi, token, metadata_for_headers, is_unset}
use send_to.Server.Session.{
  session_id_length, session_ttl, session_sweep_interval, part_path, session_sidecar,
  remove_session,
}
use send_to.Server.Session.Patch.{is_work}

module _ (env : Env) (c : Config) where
  -- `sweepSessions`: at most once in an interval, each file of the folder that has not been modified
  -- for a session's lifetime is removed
  abbrev sweep_with : FilePath → Bool → Exec (Unit {0})
  sweep_with p false = pure tt
  sweep_with p true = do _ ← remove_file p; pure tt

  unfoldable pub sweep_files : Files → Exec (Unit {0})
  sweep_files [] = pure tt
  sweep_files ((p, content) ∷ files) = do
    info ← system_call
    stale ← gets (λ w.
        is_work info && eq_folder p.folder session_dir && leb (w.modified p + session_ttl) w.now)
    sweep_with p stale
    sweep_files files

  abbrev swept : Fault → Exec (Unit {0})
  swept (fails n) = pure tt
  swept works = do files ← gets (λ w. w.files); sweep_files files

  unfoldable pub sweep_sessions : Exec (Unit {0})
  sweep_sessions = do
    due ← gets (λ w. leb (w.last_session_sweep + session_sweep_interval) w.now)
    if due
        then (do
          modify (λ w. record w { last_session_sweep = w.now })
          read_dir ← system_call
          swept read_dir)
        else pure tt

  abbrev number_or_zero : Option ℤ → ℤ
  number_or_zero none = pos 0
  number_or_zero (some n) = n

  abbrev created : Request → UploadSession → IoResult (Unit {0}) → Exec (Unit {0})
  created r sess (good _) =
      answer (session_at 201 (r.resolve (codes "upload" ∷ sess.id ∷ sess.filename ∷ [])) 0)
  created r sess missing = do remove_session sess.id; upload_error 500 msg_session_failed
  created r sess broken = do remove_session sess.id; upload_error 500 msg_session_failed

  abbrev saved : Request → UploadSession → IoResult (Unit {0}) → Exec (Unit {0})
  saved r sess missing = upload_error 500 msg_session_failed
  saved r sess broken = upload_error 500 msg_session_failed
  saved r sess (good _) = do part ← write_file (part_path sess.id) []; created r sess part

  -- `saveSession`: `os.MkdirAll`, then the sidecar
  abbrev save_with : UploadSession → Fault → Exec (IoResult (Unit {0}))
  save_with sess (fails n) = pure broken
  save_with sess works = write_file (session_sidecar sess.id) (env.encode_session sess)

  abbrev create_of_length : Bytes → Request → Option ℤ → Exec (Unit {0})
  create_of_length filename r none = upload_error 400 msg_upload_length
  create_of_length filename r (some (negsuc n)) = upload_error 400 msg_upload_length
  create_of_length filename r (some (pos zero)) = upload_error 400 msg_upload_length
  create_of_length filename r (some (pos (suc n))) =
      let total = suc n in
      if ltb 0 c.max_upload_size && ltb c.max_upload_size total
      then upload_error 413 msg_entity_too_large
      else if not (is_unset r.headers.encrypt_password)
      then answer (refused 400 msg_resumable_no_pass none)
      else do
        check_storage_quota c total
        check_temp_quota c total
        check_upload_budget c total
        let content_type = env.content_type_for_filename filename
        _ ← metadata_for_headers env c content_type total r.headers
        sweep_sessions
        id ← token session_id_length
        now ← gets (λ w. w.now)
        let sess : UploadSession = record {
          id = id;
          filename = env.sanitize filename;
          content_type = content_type;
          total = total;
          max_days = number_or_zero (atoi r.headers.max_days);
          max_downloads = number_or_zero (atoi r.headers.max_downloads);
          owner_hash = owner_hash_from_headers env r.headers;
          created_at = now;
        }
        folder ← system_call
        side ← save_with sess folder
        saved r sess side

  -- `strconv.ParseInt` reads what `strconv.Atoi` reads.
  unfoldable pub create_upload_session_handler : Bytes → Request → Exec (Unit {0})
  create_upload_session_handler filename r =
      create_of_length filename r (atoi r.headers.upload_length)
