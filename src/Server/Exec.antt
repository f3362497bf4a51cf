-- ===== src/Server/Exec.antt =====
-- A handler runs on the state of the instance and either goes on or has answered the request.
use send_to.Prelude.{ℕ, ◌+◌, Bool, Option, none, List, [], ◌∷◌, Bytes}
use send_to.Prelude.Int.{ℤ}
use send_to.Server.Types.{OwnerEntry, CollectionData}
use send_to.Server.Fs.{Files, FilePath}

-- How the next calls of the operating system go: a call works, or it fails, and a failing write has
-- written its first n bytes. When the list is used up, calls work.
pub data Fault : Type 0 where
  works : Fault
  fails : ℕ → Fault

pub record Metrics : Type 0 where
  pub uploads : ℕ
  pub upload_bytes : ℕ
  pub upload_errors : ℕ
  pub download_errors : ℕ
  pub downloads : ℕ
  pub download_bytes : ℕ
  pub deletes : ℕ
  pub expired_purged : ℕ
  pub virus_scan_blocked : ℕ
  pub rate_limited : ℕ

-- Time in seconds; `modified` are the modification times of files; `random i` is the i-th draw of
-- `crypto/rand`; `allowances` are the answers of the token bucket (golang.org/x/time/rate), which
-- allows when the list is used up.
pub record World : Type 0 where
  pub files : Files
  pub faults : List Fault
  pub now : ℕ
  pub modified : FilePath → ℕ
  pub random : ℕ → ℕ
  pub drawn : ℕ
  pub allowances : List Bool
  pub quota_used : ℕ
  pub last_session_sweep : ℕ
  pub metrics : Metrics

-- The message of an error response (server/messages.go).
pub data MsgId : Type 0 where
  msg_not_found msg_internal_error msg_forbidden msg_too_many_requests msg_entity_too_large : MsgId
  msg_not_authorized msg_file_not_found msg_retrieve_failed msg_no_valid_files msg_collection_body :
      MsgId
  msg_collection_empty msg_collection_full msg_not_a_share_link msg_file_unavailable
        msg_collection_failed :
      MsgId
  msg_collection_delete msg_decrypt_failed msg_copy_failed msg_delete_failed msg_qr_missing_url :
      MsgId
  msg_qr_foreign_url msg_qr_render_failed msg_owner_token_short msg_owner_list_failed
        msg_server_full :
      MsgId
  msg_spool_full msg_upload_quota msg_upload_length msg_resumable_no_pass msg_session_failed : MsgId
  msg_session_expired msg_session_mismatch msg_session_continue msg_session_offset
        msg_chunk_incomplete :
      MsgId
  msg_save_failed msg_multipart_failed msg_read_upload msg_buffer_failed msg_reset_cache : MsgId
  msg_empty_upload msg_prescan_failed msg_virus_found msg_no_virus_total msg_max_downloads : MsgId
  msg_max_days msg_max_days_too_large msg_content_range_form msg_content_range_from
        msg_content_range_to :
      MsgId
  msg_content_range_all msg_content_range_span : MsgId

-- `*int` and `*time.Time` fields are options.
pub record UploadResult : Type 0 where
  pub url : Bytes
  pub delete_url : Bytes
  pub filename : Bytes
  pub size : ℕ
  pub content_type : Bytes
  pub encrypted : Bool
  pub max_downloads : Option ℤ
  pub expires_at : Option ℕ

-- The answer to a download: its headers (an absent one is empty or `none`), the body, and whether the
-- body has broken off.
pub record Download : Type 0 where
  pub status : ℕ
  pub content_type : Bytes
  pub content_length : ℕ
  pub content_range : Bytes
  pub inline : Bool
  pub etag : Bytes
  pub max_age : Option ℕ
  pub remaining_downloads : Option ℤ
  pub remaining_days : Option ℕ
  pub content : Bytes
  pub broken_off : Bool

pub data Answer : Type 0 where
  -- `httpError`, with the `Upload-Offset` header where it has been set
  refused : ℕ → MsgId → Option ℕ → Answer
  -- the URL of a new session and the `Upload-Offset` header
  session_at : ℕ → Bytes → ℕ → Answer
  -- a status with the `Upload-Offset` header and no body
  offset_at : ℕ → ℕ → Answer
  stored : UploadResult → Answer
  -- the uploads of a form
  stored_all : List UploadResult → Answer
  served : Download → Answer
  -- 304, with the `ETag` header and the seconds that a cache may keep the upload
  not_modified : Bytes → Option ℕ → Answer
  -- a list of uploads, each as JSON or as its URL
  listed : List OwnerEntry → Answer
  -- a status and a collection under its token
  collected : ℕ → Bytes → CollectionData → Answer
  -- the path that a request is redirected to
  redirected : Bytes → Answer
  plain : ℕ → Answer

pub data Reply {ℓ} (A : Type ℓ) : Type ℓ where
  next : A → Reply A
  answered : Answer → Reply A

abbrev pub Exec {ℓ} : Type ℓ → Type ℓ
Exec A = World → Reply A × World

abbrev pub pure {ℓ} : {A : Type ℓ} → A → Exec A
pure a w = (next a, w)

abbrev pub answer {ℓ} : {A : Type ℓ} → Answer → Exec A
answer a w = (answered a, w)

abbrev pub bind_reply {ℓ κ} :
    {A : Type ℓ} {B : Type κ} → Reply A × World → (A → Exec B) → Reply B × World
bind_reply (next a, w) f = f a w
bind_reply (answered r, w) f = (answered r, w)

infixl 5 ◌>>=◌ ◌>>◌
abbrev pub ◌>>=◌ {ℓ κ} : {A : Type ℓ} {B : Type κ} → Exec A → (A → Exec B) → Exec B
◌>>=◌ m f w = bind_reply (m w) f

abbrev pub ◌>>◌ {ℓ} : {B : Type ℓ} → Exec (Unit {0}) → Exec B → Exec B
m >> k = m >>= λ _. k

abbrev pub gets {ℓ} : {A : Type ℓ} → (World → A) → Exec A
gets f w = (next (f w), w)

abbrev pub modify : (World → World) → Exec (Unit {0})
modify f w = (next tt, f w)

abbrev pub count_upload_error : Exec (Unit {0})
count_upload_error =
    modify
      λ w. record w { metrics = record w.metrics { upload_errors = w.metrics.upload_errors + 1 } }

-- `s.metrics.uploadErrors.Add(1)` and `s.httpError(w, r, status, msg)`, then `return`
abbrev pub upload_error {ℓ} : {A : Type ℓ} → ℕ → MsgId → Exec A
upload_error status msg = do count_upload_error; answer (refused status msg none)

abbrev pub tail_faults : List Fault → List Fault
tail_faults [] = []
tail_faults (f ∷ fs) = fs

abbrev pub head_fault : List Fault → Fault
head_fault [] = works
head_fault (f ∷ fs) = f

-- the outcome of the next call of the operating system
unfoldable pub system_call : Exec Fault
system_call w = (next (head_fault w.faults), record w { faults = tail_faults w.faults })
