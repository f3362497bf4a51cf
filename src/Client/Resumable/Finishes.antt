-- ===== src/Client/Resumable/Finishes.antt =====
-- client/resumable.go: with a server that accepts every chunk at the end of what it holds, the client's
-- loop uploads the whole file.
use send_to.Prelude.{
  ℕ, zero, suc, ◌+◌, ◌-◌, ◌<◌, ◌≤◌, ◌≡◌, refl, ap, ◌∙◌, true, false, Option, some, ◌++◌, Bytes,
  arith, leb, inl, inr, length, take, drop, take-plus, take-all, length-drop, length-take, le_or_lt,
}
use send_to.E2e.{Source, eof}
use send_to.Client.Resumable.{
  Server, UploadedFile, ChunkResult, finished, moved, Response, Outcome, gives, send_chunk,
  send_one_chunk, sent_one, chunk_at, after_chunk, upload_session, limit_reader, upload_chunk_size,
}

abbrev source : Bytes → Source
source content = record { content = content; ending = eof }

-- A server that holds `held`, and takes a chunk of a complete body at its end.
pub record Accepts {ℓ} (server : Server {ℓ}) (total : ℕ) (held : server.State → Bytes)
    : Type ℓ where
  pub patch_more :
      (start n : ℕ) (content : Bytes) (s : server.State)
      → start ≡ length (held s)
      → length content ≡ n
      → 0 < n
      → start + n < total
      → (send_chunk (server.patch start n total (source content) s).0 ≡ moved (start + n))
        × (held (server.patch start n total (source content) s).1 ≡ held s ++ content)
  pub patch_last :
      (start n : ℕ) (content : Bytes) (s : server.State)
      → start ≡ length (held s)
      → length content ≡ n
      → 0 < n
      → start + n ≡ total
      → ((r : UploadedFile) × (send_chunk (server.patch start n total (source content) s).0
            ≡ finished r))
        × (held (server.patch start n total (source content) s).1 ≡ held s ++ content)

-- the file, from any offset
abbrev pub file_from : Bytes → ℕ → Option Source
file_from content offset = some (source (drop offset content))

-- the upload is done: the server holds the file
abbrev pub Done {ℓ} :
    (server : Server {ℓ}) (content : Bytes)
    → (server.State → Bytes)
    → Option (Outcome × server.State)
    → Type ℓ
Done server content held x =
    (r : UploadedFile) × (s : server.State) × (x ≡ some (gives r, s)) × (held s ≡ content)

module _ {ℓ} (server : Server {ℓ}) (content : Bytes) (held : server.State → Bytes)
    (accepts : Accepts server (length content) held) (src : ℕ → Option Source)
    (right : (offset : ℕ) → offset < length content → src offset ≡ file_from content offset) where
  limit_reader-src :
      (offset n : ℕ)
      → n ≤ length content - offset
      → limit_reader n (source (drop offset content)) ≡ source (take n (drop offset content))
  limit_reader-src offset n h =
      let enough : leb n (length (drop offset content)) ≡ true =
        ground (arith, length-drop offset content) in
      rw enough refl

  -- the answer to the chunk of n bytes at an offset, and the server behind it
  abbrev patched : ℕ → ℕ → server.State → Option Response × server.State
  patched offset n s =
      server.patch offset n (length content) (source (take n (drop offset content))) s

  send_one_chunk-src :
      (offset n : ℕ) (s : server.State) (x : ChunkResult)
      → offset < length content
      → n ≤ length content - offset
      → send_chunk (patched offset n s).0 ≡ x
      → send_one_chunk server (length content) src offset n s ≡ (x, (patched offset n s).1)
  unfolding send_one_chunk
  send_one_chunk-src offset n s x below h answered =
      ap (sent_one server (length content) src offset n s) (right offset below)
      ∙ ap
          (λ b.
            let reply = server.patch offset n (length content) b s in (send_chunk reply.0, reply.1))
          (limit_reader-src offset n h)
      ∙ ap (λ y. (y, (patched offset n s).1)) answered

  length-chunk :
      (offset n : ℕ) → n ≤ length content - offset → length (take n (drop offset content)) ≡ n
  length-chunk offset n h =
      ground (arith, length-take n (drop offset content), length-drop offset content)

  -- what the server holds behind a chunk
  held-chunk :
      (offset n : ℕ) (before after : Bytes)
      → before ≡ take offset content
      → after ≡ before ++ take n (drop offset content)
      → after ≡ take (offset + n) content
  held-chunk offset n before after b a =
      a ∙ ap (λ l. l ++ take n (drop offset content)) b ∙ take-plus offset n content

  upload_session-round :
      (fuel attempts offset n : ℕ) (s s' : server.State) (x : ChunkResult)
      → offset < length content
      → chunk_at server (length content) src offset ≡ n
      → send_one_chunk server (length content) src offset n s ≡ (x, s')
      → upload_session server (length content) src (suc fuel) attempts offset s
        ≡ after_chunk server
            (length content)
            src
            (upload_session server (length content) src fuel)
            attempts
            offset
            (x, s')
  unfolding upload_session
  upload_session-round fuel attempts offset n s s' x below size sent =
      let more : leb (length content) offset ≡ false = ground arith in rw (more, size, sent) refl

  -- for any reader of the file that is right before the end of it
  pub upload_session-FinishesFrom :
      (fuel attempts offset : ℕ) (s : server.State)
      → held s ≡ take offset content
      → offset < length content
      → length content - offset ≤ fuel
      → Done server content held (upload_session server (length content) src fuel attempts offset s)
  upload_session-FinishesFrom zero attempts offset s here below enough = absurd (omega arith)
  upload_session-FinishesFrom (suc fuel) attempts offset s here below enough =
      let at : offset ≡ length (held s) =
        ground (arith, ap length here, length-take offset content) in
      elim (le_or_lt (length content - offset) upload_chunk_size) [
        | inl rest ↦
            let n = length content - offset in
            let size : chunk_at server (length content) src offset ≡ n = ground arith in
            let ((r, answered), held') =
              accepts.patch_last offset n (take n (drop offset content)) s at
                (length-chunk offset n (omega arith)) (omega arith) (omega arith) in
            (
              r,
              (patched offset n s).1,
              upload_session-round fuel attempts offset n s _ (finished r) below size
                  (send_one_chunk-src offset n s _ below (omega arith) answered),
              held-chunk offset n (held s) _ here held'
                  ∙ take-all (offset + n) content (omega arith),
            )
        | inr some_left ↦
            let n = upload_chunk_size in
            let size : chunk_at server (length content) src offset ≡ n = ground arith in
            let (answered, held') =
              accepts.patch_more offset n (take n (drop offset content)) s at
                (length-chunk offset n (omega arith)) (omega arith) (omega arith) in
            let (r, s', loop, whole) =
              upload_session-FinishesFrom fuel 0 (offset + n) (patched offset n s).1
                (held-chunk offset n (held s) _ here held') (omega arith) (omega arith) in
            (
              r,
              s',
              upload_session-round fuel attempts offset n s _ (moved (offset + n)) below size
                    (send_one_chunk-src offset n s _ below (omega arith) answered)
                  ∙ loop,
              whole,
            )
      ]

-- Where the server takes every chunk at the end of what it holds, and holds the file up to an
-- offset before its end, the client's loop gives the result of the upload, and the server holds
-- exactly the file; a round for each byte that is left is enough.
pub upload_session-Finishes {ℓ} :
    (server : Server {ℓ}) (content : Bytes) (held : server.State → Bytes)
    (accepts : Accepts server (length content) held) (fuel attempts offset : ℕ) (s : server.State)
    → held s ≡ take offset content
    → offset < length content
    → length content - offset ≤ fuel
    → Done server content held
        (upload_session server (length content) (file_from content) fuel attempts offset s)
upload_session-Finishes server content held accepts =
    upload_session-FinishesFrom server content held accepts (file_from content) (λ o below. refl)
