-- ===== src/Server/Upload/Put.antt =====
-- The PUT and POST handlers of server/upload.go, with the file that a body is spooled to. A body that
-- ends before the announced length ends in an error (net/http), which a `Source` says.
pub mod Counts
pub mod Charge
pub mod Charged
mod Tests
use send_to.Prelude.{
  ℕ, zero, suc, ◌-◌, ◌^◌, Bool, true, false, ◌&&◌, ◌||◌, Option, none, some, List, [], ◌∷◌, Bytes,
  ltb, ◌==◌, if◌then◌else◌, length, take,
}
use send_to.Prelude.Int.{ℤ, pos, negsuc}
use send_to.E2e.{Source, End, eof, failed}
use send_to.Server.Fs.{Files, FilePath, lookup, temp_dir}
use send_to.Server.Exec.{
  World, Fault, works, fails, Exec, Reply, UploadResult, stored, stored_all, pure, gets, answer,
  refused, system_call, upload_error, msg_buffer_failed, msg_reset_cache, msg_entity_too_large,
  msg_empty_upload, msg_save_failed, msg_read_upload, msg_multipart_failed, bind_reply, ◌>>=◌, ◌>>◌,
}
use send_to.Server.Storage.{IoResult, good, missing, broken, write, remove_file}
use send_to.Server.Types.{Env, Config, Request, Metadata}
use send_to.Server.Quota.{check_storage_quota, check_temp_quota, check_upload_budget}
use send_to.Server.Owner.{record_ownership}
use send_to.Server.Upload.{token, metadata_for_headers, prescan, store, new_upload_result}

-- `defer`: the second part runs in any case, and its outcome is passed over.
abbrev pub finally {ℓ} : {A : Type ℓ} → Exec A → Exec (Unit {0}) → Exec A
finally m k w = let out = m w in (out.0, (k out.1).1)

-- the int64 pattern of an integer
abbrev pub int64 : ℤ → ℕ
int64 (pos n) = n
int64 (negsuc n) = 2 ^ 64 - suc n

abbrev ended : End → IoResult (Unit {0})
ended eof = good tt
ended failed = broken

-- `io.Copy(file, r.Body)`
abbrev pub copied : FilePath → Source → Fault → Exec (IoResult (Unit {0}))
copied p body (fails n) = do write p (take n body.content); pure broken
copied p body works = do write p body.content; pure (ended body.ending)

-- `cleanTmpFile`: errors are logged only
abbrev pub clean_tmp_file : FilePath → Exec (Unit {0})
clean_tmp_file p = do _ ← remove_file p; pure tt

abbrev text_of : Option Bytes → Bytes
text_of none = []
text_of (some content) = content

abbrev pub after_seek : FilePath → Fault → Exec Bytes
after_seek p (fails n) = upload_error 500 msg_reset_cache
after_seek p works = gets λ w. text_of (lookup p w.files)

abbrev pub after_copy : FilePath → IoResult (Unit {0}) → Exec Bytes
after_copy p missing = upload_error 500 msg_buffer_failed
after_copy p broken = upload_error 500 msg_buffer_failed
after_copy p (good _) = do fault ← system_call; after_seek p fault

-- the copy into the temporary file, and the seek back to its start
unfoldable pub fill_spool : FilePath → Source → Exec Bytes
fill_spool p body = do fault ← system_call; copy ← copied p body fault; after_copy p copy

-- `os.CreateTemp`, what is done with the file, and its deferred removal
abbrev pub with_created {ℓ} : {A : Type ℓ} → FilePath → Source → (Bytes → Exec A) → Fault → Exec A
with_created p body k (fails n) = upload_error 500 msg_buffer_failed
with_created p body k works = do
  write p []
  finally (do content ← fill_spool p body; k content) (clean_tmp_file p)

abbrev pub temp_path : Bytes → FilePath
temp_path name = record { folder = temp_dir; name = name }

abbrev pub complete : Bytes → Source
complete content = record { content = content; ending = eof }

-- A part of a multipart form: its name and its bytes.
pub record Part : Type 0 where
  pub filename : Bytes
  pub content : Source

module _ (c : Config) where
  -- `http.MaxBytesReader`, where there is a limit
  unfoldable pub limit_body : Source → Source
  limit_body body =
      if ltb 0 c.max_upload_size && ltb c.max_upload_size (length body.content)
      then record { content = take c.max_upload_size body.content; ending = failed }
      else body

  unfoldable pub check_size : ℕ → Exec (Unit {0})
  check_size n =
      if ltb 0 c.max_upload_size && ltb c.max_upload_size n
      then upload_error 413 msg_entity_too_large
      else pure tt

abbrev pub check_filled : ℕ → Exec (Unit {0})
check_filled n = if n == 0 then upload_error 400 msg_empty_upload else pure tt

module _ (env : Env) where
  unfoldable pub with_spool {ℓ} : {A : Type ℓ} → Source → (Bytes → Exec A) → Exec A
  with_spool body k = do
    fault ← system_call
    name ← gets (λ w. env.temp_name w.files)
    with_created (temp_path name) body k fault

module _ (env : Env) (c : Config) where
  -- the end of both handlers: `newUploadResult` and `recordOwnership`
  abbrev pub after_store :
      Request → Bytes → Bytes → Metadata → IoResult (Unit {0}) → Exec UploadResult
  after_store r t filename m missing = upload_error 500 msg_save_failed
  after_store r t filename m broken = upload_error 500 msg_save_failed
  after_store r t filename m (good _) = do
    let result = new_upload_result r t filename m
    record_ownership env result m t
    pure result

  -- the metadata, the stored file, and the result
  unfoldable pub save : Request → Bytes → Bytes → Source → ℕ → Exec UploadResult
  save r t raw body content_length = do
    m ← metadata_for_headers env c (env.content_type_for_filename raw) content_length r.headers
    put ← store env c t (env.sanitize raw) body content_length m r.headers.encrypt_password
    after_store r t (env.sanitize raw) m put

  -- `putHandler` from its size test on
  unfoldable pub put_sized : Request → Bytes → Source → ℕ → Exec (Unit {0})
  put_sized r raw body content_length = do
    check_size c content_length
    check_filled content_length
    check_storage_quota c content_length
    check_upload_budget c content_length
    t ← token c.random_token_length
    result ← save r t raw body content_length
    answer (stored result)

  abbrev pub put_spooled : Request → Bytes → Bytes → Exec (Unit {0})
  put_spooled r raw content = do
    prescan env c content
    put_sized r raw (complete content) (length content)

  -- A length that is not announced is -1.
  unfoldable pub put_handler : Request → Bytes → ℤ → Source → Exec (Unit {0})
  put_handler r raw content_length body =
      let spooled = do
        check_temp_quota c (int64 content_length)
        with_spool env (limit_body c body) (put_spooled r raw)
      in elim content_length [
        | negsuc n ↦ spooled
        | pos zero ↦ spooled
        | pos (suc n) ↦
            if c.perform_clamav_prescan
            then spooled
            else put_sized r raw (limit_body c body) (suc n)
      ]

  abbrev pub store_part : Request → Bytes → Bytes → Bytes → Exec UploadResult
  store_part r t raw content = do
    check_size c (length content)
    prescan env c content
    check_storage_quota c (length content)
    check_upload_budget c (length content)
    save r t raw (complete content) (length content)

  abbrev pub opened_part : Request → Bytes → Part → Fault → Exec UploadResult
  opened_part r t part (fails n) = upload_error 500 msg_read_upload
  opened_part r t part works = do
    check_temp_quota c 0
    with_spool env part.content (store_part r t part.filename)

  unfoldable pub store_multipart_file : Request → Bytes → Part → Exec UploadResult
  store_multipart_file r t part = do fault ← system_call; opened_part r t part fault

  -- The first part that is refused ends the request.
  unfoldable pub store_parts : Request → Bytes → List Part → Exec (List UploadResult)
  store_parts r t [] = pure []
  store_parts r t (part ∷ parts) = do
    result ← store_multipart_file r t part
    results ← store_parts r t parts
    pure (result ∷ results)

  -- The form as `ParseMultipartForm` reads it, or its error; the order of its fields is any.
  unfoldable pub post_handler : Request → Option (List Part) → Exec (Unit {0})
  post_handler r none = upload_error 400 msg_multipart_failed
  post_handler r (some parts) = do
    t ← token c.random_token_length
    results ← store_parts r t parts
    answer (stored_all results)
