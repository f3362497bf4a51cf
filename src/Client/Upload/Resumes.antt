-- ===== src/Client/Upload/Resumes.antt =====
-- cmd/send/upload.go: an encrypted upload that was interrupted goes on, in a later run of the command, with
-- the same ciphertext.
use send_to.Prelude.{
  ℕ, ◌-◌, ◌<◌, ◌≤◌, ◌≡◌, ap, sym, ◌∙◌, subst, true, not, ◌&&◌, if◌then◌else◌, Option, none, some,
  ◌++◌, [], Bytes, codes, length, take,
}
use mathlib.Core.Option
use send_to.Client.Pending
use send_to.Client.Pending.{Pending}
use send_to.E2e.{Source, E2eStream, ok, e2e_decrypt, complete}
use send_to.E2e.Steps.{all_of, reader-all_of}
use send_to.E2e.RoundTrip.{e2e_decrypt-reader}
use send_to.Server.Exec.{works}
use send_to.Server.Upload.{is_unset}
use send_to.Client.Resumable.{UploadedFile, UploadError, gives, upload_session}
use send_to.Client.Resumable.Finishes.{Accepts, upload_session-FinishesFrom}
use send_to.Client.Upload.{
  Services, Service, Session, Command, Run, Ending, sent, not_sent, interrupted, Begun,
  two_encryptions, e2e_metadata_for, src, sent_file, session_server, resume_session, create_session,
  start, opened, finish, upload_begun, upload_started, upload_stated, upload_resumable, on_status,
}
use send_to.Client.Upload.Recorded.{
  stream, Encrypts, resume_key, ciphertext_size, Recorded, loaded, fresh, again, here, size_lem,
  src-file_from, start-fresh, fresh-Recorded, start-Recorded, finish-interrupted,
}

module _ {ℓ} (env : Services) (service : Service {ℓ}) (held : service.State → Bytes) (c : Command)
    (mod_time : ℕ) (key prefix : Bytes) (out : Source)
    (enc : Encrypts env c mod_time key prefix out) where
  -- The command has printed a link with the key, and what the server holds is decrypted with that key to
  -- the metadata and the whole file.
  abbrev pub Sends : Option (Ending × Run service.State) → Type ℓ
  Sends x =
      (r : UploadedFile) × (run : Run service.State) × (x
        ≡ some (
          sent (record {
            url = r.url ++ codes "#k=" ++ env.text.encode key;
            delete_url = r.delete_url;
            plain_size = some (length c.content);
          }),
          run,
        ))
      × (e2e_decrypt env.aead env.json (all_of (held run.state)) key
          ≡ ok (e2e_metadata_for env c.name, (c.content, complete)))

  decrypts :
      e2e_decrypt env.aead env.json (all_of out.content) key
      ≡ ok (e2e_metadata_for env c.name, (c.content, complete))
  decrypts =
      let (out', opens, plain) =
        e2e_decrypt-reader env.aead env.json (stream env c mod_time key prefix out) c.content
          enc.key_size enc.prefix_size enc.meta_size enc.meta_back in
      let (shape, _, _, _) = reader-all_of env.aead env.json _ c.content out enc.opens in
      let same : ok out' ≡ ok out = sym opens ∙ enc.opens in
      let same_out : out' ≡ out = cc in
      let whole : out ≡ all_of out.content =
        shape ∙ sym (ap (λ (o : Source). all_of o.content) shape) in
      subst
        (λ o.
          e2e_decrypt env.aead env.json o key
          ≡ ok (e2e_metadata_for env c.name, (c.content, complete)))
        (same_out ∙ whole) plain

  abbrev pub first : E2eStream
  first = stream env c mod_time key prefix out

  abbrev pub found_by : Bytes
  found_by = resume_key env c mod_time key prefix out

  abbrev pub size : ℕ
  size = ciphertext_size env c mod_time key prefix out

  abbrev pub in_session : Bytes → ℕ → Session
  in_session url offset = here env c mod_time key prefix out enc url offset

  -- the same command in a later run, with draws of its own
  abbrev pub later : Option Bytes → Option Bytes → ℕ → Command
  later k' p' now' = again env c mod_time key prefix out enc k' p' now'

  pub upload_resumable-start {κ} :
      (service' : Service {κ}) (fuel : ℕ) (c' : Command) (run : Run service'.State)
      → c'.options.password ≡ []
      → c'.mod_time ≡ some mod_time
      → upload_resumable env service' fuel c' run
        ≡ upload_started env service' fuel c'
            (Pending.pending_key env.digest c'.server c'.abs_path (length c'.content) mod_time)
            (start env service' c' mod_time run)
  unfolding upload_resumable
  upload_resumable-start service' fuel c' run password stat =
      ap
        (λ p.
          if not (is_unset p) && c'.e2e
          then some (not_sent two_encryptions, run)
          else upload_stated env service' fuel c' c'.mod_time run)
        password
      ∙ ap (λ m. upload_stated env service' fuel c' m run) stat

  upload_begun-Sends :
      (fuel : ℕ) (k' p' : Option Bytes) (now' : ℕ) (p : Pending) (url : Bytes) (offset : ℕ)
      (file : Option Bytes) (s : service.State)
      → Accepts (session_server env service url) (length out.content) held
      → held s ≡ take offset out.content
      → offset < length out.content
      → length out.content - offset ≤ fuel
      → Sends (
          upload_begun env service fuel (later k' p' now') found_by (record {
            pending = p;
            session = in_session url offset;
            stream = some first;
            run = record { file = file; state = s };
          }))
  unfolding sent_file
  upload_begun-Sends fuel k' p' now' p url offset file s accepts holds below enough =
      let b : Begun env service = record {
        pending = p;
        session = in_session url offset;
        stream = some first;
        run = record { file = file; state = s };
      } in
      let (r, s', loop, whole) =
        upload_session-FinishesFrom (session_server env service url) out.content held accepts
          (src env (some first) c.content) (src-file_from env c mod_time key prefix out enc) fuel 0
          offset s holds below enough in
      (
        r,
        (finish env service (later k' p' now') found_by b (gives r, s')).1,
        ap
              (λ n. Option.map (finish env service (later k' p' now') found_by b) (
                upload_session (session_server env service url) n (src env (some first) c.content)
                  fuel 0 offset s))
              (size_lem env c mod_time key prefix out enc)
            ∙ ap (Option.map (finish env service (later k' p' now') found_by b)) loop,
        subst
            (λ content.
              e2e_decrypt env.aead env.json (all_of content) key
              ≡ ok (e2e_metadata_for env c.name, (c.content, complete)))
            (sym whole) decrypts,
      )

  -- Let a run with --e2e find no upload to go on with, open a session, record it, and end with its
  -- loop interrupted, whatever its server and connection do. Let the same command run again on the
  -- same file, with other random draws and at any time, when the server has the session, holds the
  -- ciphertext of the first run up to an offset before its end, and takes every chunk at the end of
  -- what it holds. Then the second run gives a link with the key of the first, and what the server
  -- holds is decrypted with that key to the metadata and the whole file; a round for each byte that
  -- is left is enough.
  pub upload_resumable-Sends {κ} :
      (service0 : Service {κ}) (fuel fuel' : ℕ) (url : Bytes) (run run' : Run service0.State)
      (s0 s1 : service0.State) (e : UploadError)
      → c.drawn_key ≡ some key
      → c.drawn_prefix ≡ some prefix
      → c.save_opened ≡ record { make_dir = works; write_file = works }
      → resume_session env service0
          (loaded env c mod_time key prefix out enc run.file)
          found_by
          c.name
          true
          run.state
        ≡ (none, s0)
      → create_session env service0 c size s0 ≡ (opened (in_session url 0), s1)
      → upload_resumable env service0 fuel c run ≡ some (not_sent (interrupted e), run')
      → (k' p' : Option Bytes) (now' offset : ℕ) (s s' : service.State)
      → on_status url (service.head_upload url s).0 ≡ some (in_session url offset)
      → (service.head_upload url s).1 ≡ s'
      → Accepts (session_server env service url) (length out.content) held
      → held s' ≡ take offset out.content
      → offset < length out.content
      → length out.content - offset ≤ fuel'
      → Sends (
          upload_resumable env service fuel'
            (later k' p' now')
            (record { file = run'.file; state = s }))
  upload_resumable-Sends service0 fuel fuel' url run run' s0 s1 e drawn_key drawn_prefix calls
        nothing created ran k' p' now' offset s s' status after accepts holds below enough =
      let begins =
        start-fresh env c mod_time key prefix out enc service0 url run s0 s1 drawn_key drawn_prefix
          calls nothing created in
      let b = fresh env c mod_time key prefix out enc service0 url run s1 in
      let looped =
        sym (
          upload_resumable-start service0 fuel c run enc.password enc.stat
          ∙ ap (upload_started env service0 fuel c found_by) begins)
        ∙ ran in
      let left : run'.file ≡ b.run.file =
        finish-interrupted env c mod_time key prefix out enc service0 b e _ run' looped in
      let recorded : Recorded env c mod_time key prefix out url run'.file =
        subst (Recorded env c mod_time key prefix out url) (sym left)
          (fresh-Recorded env c mod_time key prefix out enc service0 url run s1) in
      let (p, resumes) =
        start-Recorded env c mod_time key prefix out enc service k' p' now' url offset run'.file s
          s' recorded status after in
      subst Sends
        (sym (
          upload_resumable-start service fuel' (later k' p' now')
            (record { file = run'.file; state = s }) enc.password enc.stat
          ∙ ap (upload_started env service fuel' (later k' p' now') found_by) resumes))
        (upload_begun-Sends fuel' k' p' now' p url offset run'.file s' accepts holds below enough)
