-- ===== src/Client/Resumable/Ends.antt =====
-- client/resumable.go: with a server that makes progress, the client's loop ends.
use send_to.Prelude.{
  ℕ, zero, suc, ◌+◌, ◌-◌, ◌*◌, ◌<◌, ◌≤◌, ◌≡◌, refl, Option, none, some, arith, leb, Bool-cases, inl,
  inr,
}
use send_to.E2e.{Source}
use send_to.Client.Resumable.{
  Server, ChunkResult, finished, moved, failed_with, UploadError, source_error, transport_error,
  no_offset, bad_result, lost_confirmation, conflict_at, api_error, fails_with, send_chunk,
  send_one_chunk, sent_one, chunk_at, try_again, after_error, after_chunk, upload_session,
  retryable_upload_error, resynchronised, limit_reader,
}

-- A chunk that the client takes for accepted leaves less to send, and nothing else leaves more.
abbrev pub Advanced : ChunkResult → ℕ → ℕ → Type 0
Advanced (moved o) before after = after < before
Advanced (finished r) before after = after ≤ before
Advanced (failed_with e) before after = after ≤ before

-- `left` measures what a state of the server has left to send.
pub record Advances {ℓ} (server : Server {ℓ}) (total : ℕ) (left : server.State → ℕ) : Type ℓ where
  pub patch :
      (start n : ℕ) (body : Source) (s : server.State)
      → Advanced
          (send_chunk (server.patch start n total body s).0)
          (left s)
          (left (server.patch start n total body s).1)
  pub session_status : (s : server.State) → left (server.session_status s).1 ≤ left s

-- The loop has a result.
abbrev pub Ends {ℓ} : {A : Type ℓ} → Option A → Type ℓ
Ends {A = A} x = (a : A) × (x ≡ some a)

module _ {ℓ} (server : Server {ℓ}) (total : ℕ) (src : ℕ → Option Source) (left : server.State → ℕ)
    (advances : Advances server total left) where
  -- With k rounds more than five for each step of the server and the attempts that are left, the loop
  -- ends.
  abbrev EndsWithin : ℕ → Type ℓ
  EndsWithin fuel =
      (attempts offset : ℕ) (s : server.State)
      → attempts < 5
      → 5 * left s + (5 - attempts) ≤ fuel
      → Ends (upload_session server total src fuel attempts offset s)

  send_one_chunk-Advanced :
      (start n : ℕ) (s : server.State)
      → Advanced
          (send_one_chunk server total src start n s).0
          (left s)
          (left (send_one_chunk server total src start n s).1)
  unfolding send_one_chunk
  send_one_chunk-Advanced start n s = of_source (src start)
    where
      of_source :
          (body : Option Source)
          → Advanced
              (sent_one server total src start n s body).0
              (left s)
              (left (sent_one server total src start n s body).1)
      of_source none = omega arith
      of_source (some body) = advances.patch start n (limit_reader n body) s

  try_again-Ends :
      (fuel : ℕ)
      → EndsWithin fuel
      → (attempts offset : ℕ) (e : UploadError) (s : server.State) → attempts < 5
      → 5 * left s + (5 - attempts) ≤ fuel + 1
      → Ends (try_again server total src (upload_session server total src fuel) attempts offset e s)
  try_again-Ends fuel ih attempts offset e s low enough = elim (Bool-cases (leb 5 (attempts + 1))) [
    | inl last ↦ ((fails_with e, s), rw last refl)
    | inr more ↦
        let (o, ends) =
          ih (attempts + 1) (resynchronised offset (server.session_status s).0)
            (server.session_status s).1 (ground arith)
            (ground (arith, advances.session_status s)) in
        (o, rw more ends)
  ]

  after_error-Ends :
      (fuel : ℕ)
      → EndsWithin fuel
      → (attempts offset : ℕ) (e : UploadError) (s : server.State) → attempts < 5
      → 5 * left s + (5 - attempts) ≤ fuel + 1
      → Ends
          (after_error server total src (upload_session server total src fuel) attempts offset e s)
  unfolding retryable_upload_error
  after_error-Ends fuel ih attempts offset (conflict_at o) s low enough =
      try_again-Ends fuel ih attempts o (conflict_at o) s low enough
  after_error-Ends fuel ih attempts offset (api_error status) s low enough =
      elim (Bool-cases (retryable_upload_error (api_error status))) [
        | inl again ↦
            let (o, ends) =
              try_again-Ends fuel ih attempts offset (api_error status) s low enough in
            (o, rw again ends)
        | inr over ↦ ((fails_with (api_error status), s), rw over refl)
      ]
  after_error-Ends fuel ih attempts offset source_error s low enough =
      try_again-Ends fuel ih attempts offset source_error s low enough
  after_error-Ends fuel ih attempts offset transport_error s low enough =
      try_again-Ends fuel ih attempts offset transport_error s low enough
  after_error-Ends fuel ih attempts offset no_offset s low enough =
      try_again-Ends fuel ih attempts offset no_offset s low enough
  after_error-Ends fuel ih attempts offset bad_result s low enough =
      try_again-Ends fuel ih attempts offset bad_result s low enough
  after_error-Ends fuel ih attempts offset lost_confirmation s low enough =
      try_again-Ends fuel ih attempts offset lost_confirmation s low enough

  after_chunk-Ends :
      (fuel : ℕ)
      → EndsWithin fuel
      → (attempts offset : ℕ) (s : server.State) (x : ChunkResult × server.State) → attempts < 5
      → 5 * left s + (5 - attempts) ≤ fuel + 1
      → Advanced x.0 (left s) (left x.1)
      → Ends (after_chunk server total src (upload_session server total src fuel) attempts offset x)
  after_chunk-Ends fuel ih attempts offset s (finished r, s') low enough step = (_, refl)
  after_chunk-Ends fuel ih attempts offset s (moved o, s') low enough step =
      ih 0 o s' (omega arith) (omega arith)
  after_chunk-Ends fuel ih attempts offset s (failed_with e, s') low enough step =
      after_error-Ends fuel ih attempts offset e s' low (omega arith)

  -- With a server on which what is left to send gets less with each chunk that it reports as
  -- accepted, and never more, the client's loop ends, from any attempt, offset and state: five rounds
  -- for each step that is left, and the attempts that are left, are enough.
  pub upload_session-Ends :
      (fuel attempts offset : ℕ) (s : server.State)
      → attempts < 5
      → 5 * left s + (5 - attempts) ≤ fuel
      → Ends (upload_session server total src fuel attempts offset s)
  unfolding upload_session
  upload_session-Ends zero attempts offset s low enough = absurd (omega arith)
  upload_session-Ends (suc fuel) attempts offset s low enough =
      elim (Bool-cases (leb total offset)) [
        | inl over ↦ ((fails_with lost_confirmation, s), rw over refl)
        | inr more ↦
            let chunk =
              send_one_chunk server total src offset (chunk_at server total src offset) s in
            let (o, ends) =
              after_chunk-Ends fuel (upload_session-Ends fuel) attempts offset s chunk low
                (omega arith)
                (send_one_chunk-Advanced offset (chunk_at server total src offset) s) in
            (o, rw more ends)
      ]
