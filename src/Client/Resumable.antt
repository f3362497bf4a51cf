-- ===== src/Client/Resumable.antt =====
-- client/resumable.go: sending a file in chunks, with retries from the offset that the server reports.
-- The server and the connection to it are an interface; the request's context is never cancelled.
pub mod Ends
pub mod Finishes
pub mod Spool
mod Tests
use send_to.Prelude.{
  ℕ, zero, suc, ◌+◌, ◌-◌, ◌*◌, ◌^◌, ◌<◌, ◌≤◌, ◌≡◌, Bool, true, false, ◌||◌, not, Option, none, some,
  Bytes, ltb, leb, ◌==◌, if◌then◌else◌, length, take,
}
use send_to.E2e.{Source, End, eof, failed}
use send_to.Server.Upload.{is_unset}

-- `UploadChunkSize` and `uploadChunkAttempts`
abbrev pub upload_chunk_size : ℕ
upload_chunk_size = 8 * 2 ^ 20

abbrev pub upload_chunk_attempts : ℕ
upload_chunk_attempts = 5

-- the fields of `Result` that this part reads and fills
pub record UploadedFile : Type 0 where
  pub url : Bytes
  pub delete_url : Bytes

-- A response: its status, its `Upload-Offset` header as a number, its body as JSON, and its
-- `X-Url-Delete` header. A negative offset, which no server reports, counts as none.
pub record Response : Type 0 where
  pub status : ℕ
  pub upload_offset : Option ℕ
  pub result : Option UploadedFile
  pub delete_header : Bytes

pub data UploadError : Type 0 where
  source_error transport_error no_offset bad_result lost_confirmation : UploadError
  conflict_at api_error : ℕ → UploadError

pub data ChunkResult : Type 0 where
  finished : UploadedFile → ChunkResult
  moved : ℕ → ChunkResult
  failed_with : UploadError → ChunkResult

abbrev offset_or : (ℕ → ChunkResult) → Option ℕ → ChunkResult
offset_or f none = failed_with no_offset
offset_or f (some o) = f o

abbrev uploaded : Bytes → Option UploadedFile → ChunkResult
uploaded delete_header none = failed_with bad_result
uploaded delete_header (some r) =
    if is_unset r.url
    then failed_with bad_result
    else finished
        (record r { delete_url = if is_unset r.delete_url then delete_header else r.delete_url })

-- `sendChunk` on the response to its request; no response is `none`
unfoldable pub send_chunk : Option Response → ChunkResult
send_chunk none = failed_with transport_error
send_chunk (some r) =
    if r.status == 409
    then offset_or (λ o. failed_with (conflict_at o)) r.upload_offset
    else if ltb r.status 200 || leb 300 r.status
    then failed_with (api_error r.status)
    else if r.status == 204
    then offset_or moved r.upload_offset
    else uploaded r.delete_header r.result

unfoldable pub retryable_upload_error : UploadError → Bool
retryable_upload_error (api_error status) = status == 408 || leb 500 status
retryable_upload_error _ = true

-- The two requests of an upload in progress.
pub record Server {ℓ} : Type (ℓ + 1) where
  pub State : Type ℓ
  -- the first byte, the number of bytes, the total, and the body
  pub patch : ℕ → ℕ → ℕ → Source → State → Option Response × State
  -- the offset of `SessionStatus`
  pub session_status : State → Option ℕ × State

pub data Outcome : Type 0 where
  gives : UploadedFile → Outcome
  fails_with : UploadError → Outcome

-- `io.LimitReader`
abbrev pub limit_reader : ℕ → Source → Source
limit_reader n body =
    if leb n (length body.content)
    then record { content = take n body.content; ending = eof }
    else body

abbrev resynchronised : ℕ → Option ℕ → ℕ
resynchronised offset none = offset
resynchronised offset (some o) = o

module _ {ℓ} (server : Server {ℓ}) (total : ℕ) (src : ℕ → Option Source) where
  -- `sendOneChunk`
  abbrev sent_one : ℕ → ℕ → server.State → Option Source → ChunkResult × server.State
  sent_one start n s none = (failed_with source_error, s)
  sent_one start n s (some body) =
      let reply = server.patch start n total (limit_reader n body) s in
      (send_chunk reply.0, reply.1)

  unfoldable pub send_one_chunk : ℕ → ℕ → server.State → ChunkResult × server.State
  send_one_chunk start n s = sent_one start n s (src start)

  -- the chunk at an offset
  abbrev pub chunk_at : ℕ → ℕ
  chunk_at offset =
      if ltb (total - offset) upload_chunk_size then total - offset else upload_chunk_size

  -- Where the next round starts: its attempts, its offset and the state of the server.
  abbrev pub Next : Type ℓ
  Next = ℕ → ℕ → server.State → Option (Outcome × server.State)

  -- another attempt, from where the server is
  abbrev pub try_again : Next → ℕ → ℕ → UploadError → server.State → Option (Outcome × server.State)
  try_again again attempts offset e s =
      if leb upload_chunk_attempts (attempts + 1)
      then some (fails_with e, s)
      else (let status = server.session_status s in
          again (attempts + 1) (resynchronised offset status.0) status.1)

  abbrev pub after_error :
      Next → ℕ → ℕ → UploadError → server.State → Option (Outcome × server.State)
  after_error again attempts offset (conflict_at o) s = try_again again attempts o (conflict_at o) s
  after_error again attempts offset e s =
      if retryable_upload_error e
      then try_again again attempts offset e s
      else some (fails_with e, s)

  abbrev pub after_chunk :
      Next → ℕ → ℕ → ChunkResult × server.State → Option (Outcome × server.State)
  after_chunk again attempts offset (finished r, s) = some (gives r, s)
  after_chunk again attempts offset (moved o, s) = again 0 o s
  after_chunk again attempts offset (failed_with e, s) = after_error again attempts offset e s

  abbrev pub round : Next → Next
  round again attempts offset s =
      if leb total offset
      then some (fails_with lost_confirmation, s)
      else after_chunk again attempts offset (send_one_chunk offset (chunk_at offset) s)

  -- `UploadSession`, for at most `fuel` rounds: `none` is the fuel used up
  unfoldable pub upload_session : ℕ → Next
  upload_session zero attempts offset s = none
  upload_session (suc fuel) attempts offset s = round (upload_session fuel) attempts offset s
