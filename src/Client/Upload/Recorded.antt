-- ===== src/Client/Upload/Recorded.antt =====
-- cmd/send/upload.go: what a run of the command records of an encrypted upload, and what a later run finds.
use send_to.Prelude.{
  ℕ, ◌<◌, ◌≤◌, ◌^◌, ◌≡◌, refl, ap, sym, ◌∙◌, not, if◌then◌else◌, true, false, Option, none, some,
  [], ◌∷◌, ◌++◌, Bytes, arith, length, ◌==◌,
}
use mathlib.Core.Option
use send_to.E2e.{
  E2eStream, Source, ok, reader, e2e_key_size, e2e_nonce_prefix_size, new_e2e_stream_with_prefix,
  e2e_encrypted_size,
}
use send_to.E2e.Steps.{all_of}
use send_to.E2e.Size.{length-reader}
use send_to.E2e.Resume.{reader_from-reader}
use send_to.E2e.Key.{parse_e2e_key}
use send_to.Server.Exec.{works}
use send_to.Server.Upload.{is_unset}
use send_to.Client.Resumable.{UploadError, Outcome, gives, fails_with}
use send_to.Client.Resumable.Finishes.{file_from}
use send_to.Client.Pending
use send_to.Client.Pending.{PendingUpload, Pending, load_pending, or_empty, find_in}
use send_to.Client.Pending.Laws.{find-put-kept}
use send_to.Client.Upload.{
  Services, Service, Session, Command, Run, not_sent, interrupted, Begun, begun, e2e_metadata_for,
  stream_of, continued, stream_of_entry, new_stream, src, entry_of, resume_session, resume_entry,
  revive, if_length, same, Created, create_session, start, start_with, open_new, opened_with,
  finish, on_status, opened, of_result,
}

module _ (env : Services) (c : Command) (mod_time : ℕ) (key prefix : Bytes) (out : Source) where
  -- the stream of the first run
  abbrev pub stream : E2eStream
  stream = record { key = key; prefix = prefix; meta = e2e_metadata_for env c.name }

  -- A command with --e2e, and the stream of its file, which opens.
  pub record Encrypts : Type 0 where
    pub e2e : c.e2e ≡ true
    pub password : c.options.password ≡ []
    pub stat : c.mod_time ≡ some mod_time
    pub key_size : length key ≡ e2e_key_size
    pub prefix_size : length prefix ≡ e2e_nonce_prefix_size
    pub key_text : is_unset (env.text.encode key) ≡ false
    pub small : length c.content < 2 ^ 62
    pub meta_size : length (env.json.marshal (e2e_metadata_for env c.name)) ≤ 65519
    pub meta_back :
        env.json.unmarshal (env.json.marshal (e2e_metadata_for env c.name))
        ≡ some (e2e_metadata_for env c.name)
    pub opens : reader env.aead env.json stream (all_of c.content) ≡ ok out

  abbrev pub resume_key : Bytes
  resume_key = Pending.pending_key env.digest c.server c.abs_path (length c.content) mod_time

  abbrev pub ciphertext_size : ℕ
  ciphertext_size = e2e_encrypted_size env.json (length c.content) (e2e_metadata_for env c.name)

  -- The file of interrupted uploads has an entry for the stream and the session.
  abbrev pub Recorded : Bytes → Option Bytes → Type 0
  Recorded url file =
      (p : Pending) × (entry : PendingUpload) × (load_pending env.pending_json works file ≡ some p)
      × (Pending.find p resume_key ≡ some entry)
      × (is_unset entry.e2e_key ≡ false)
      × (stream_of_entry env entry c.name true ≡ some (some stream))
      × (entry.session_url ≡ url)
      × (entry.length ≡ ciphertext_size)

  module _ (enc : Encrypts) where
    stream_of-key : stream_of env c.name (some key) (some prefix) ≡ some stream
    unfolding new_e2e_stream_with_prefix
    stream_of-key =
        let first : (length key == e2e_key_size) ≡ true = ground (arith, enc.key_size) in
        let second : (length prefix == e2e_nonce_prefix_size) ≡ true =
          ground (arith, enc.prefix_size) in
        rw (first, second)

    parse-key : parse_e2e_key env.text (env.text.encode key) ≡ some key
    unfolding parse_e2e_key
    parse-key =
        let first : (length key == e2e_key_size) ≡ true = ground (arith, enc.key_size) in
        rw (env.text.trim_space-encode key, env.text.decode-encode key, first)

    -- an entry of this stream is one that continues it
    stream_of_entry-entry_of :
        (sess : Session)
        → stream_of_entry env (entry_of env c resume_key sess (some stream)) c.name true
          ≡ some (some stream)
    unfolding stream_of_entry entry_of
    stream_of_entry-entry_of sess = ap (continued env) (
        ap (λ k. stream_of env c.name k (env.text.decode (env.text.encode prefix))) parse-key
        ∙ ap (λ p. stream_of env c.name (some key) p) (env.text.decode-encode prefix)
        ∙ stream_of-key)

    -- the size that is declared is the size of the ciphertext
    pub size_lem : ciphertext_size ≡ length out.content
    size_lem =
        sym
          (length-reader env.aead env.json stream c.content out enc.prefix_size enc.small enc.opens)

    pub src-file_from :
        (offset : ℕ)
        → offset < length out.content
        → src env (some stream) c.content offset ≡ file_from out.content offset
    unfolding src
    src-file_from offset below =
        ap of_result
          (reader_from-reader env.aead env.json stream c.content offset out enc.opens below)

    abbrev pub opening : Bytes → Session
    opening url = record { url = url; offset = 0; length = ciphertext_size }

    abbrev pub entry : Bytes → PendingUpload
    entry url = entry_of env c resume_key (opening url) (some stream)

    abbrev pub loaded : Option Bytes → Pending
    loaded file = or_empty (record { uploads = [] }) (load_pending env.pending_json c.read file)

    -- the entries behind the record of the session
    abbrev pub recorded : Bytes → Option Bytes → Pending
    recorded url file = record {
      uploads =
          Pending.kept c.now
            (Pending.put (Pending.remove (loaded file) resume_key) (entry url)).uploads;
    }

    new_stream-stream :
        c.drawn_key ≡ some key
        → c.drawn_prefix ≡ some prefix
        → new_stream env c ≡ some (some stream, ciphertext_size)
    unfolding new_stream
    new_stream-stream drawn_key drawn_prefix =
        let made : stream_of env c.name c.drawn_key c.drawn_prefix ≡ some stream =
          ap (λ k. stream_of env c.name k c.drawn_prefix) drawn_key
          ∙ ap (λ p. stream_of env c.name (some key) p) drawn_prefix
          ∙ stream_of-key in
        rw (enc.e2e, made)

    -- the same command in a later run
    abbrev pub again : Option Bytes → Option Bytes → ℕ → Command
    again drawn_key drawn_prefix now = record c {
      drawn_key = drawn_key;
      drawn_prefix = drawn_prefix;
      now = now;
      read = works;
    }

    abbrev pub here : Bytes → ℕ → Session
    here url offset = record { url = url; offset = offset; length = ciphertext_size }

    module _ {ℓ} (service : Service {ℓ}) where
      abbrev pub fresh : Bytes → Run service.State → service.State → Begun env service
      fresh url run s = record {
        pending = recorded url run.file;
        session = opening url;
        stream = some stream;
        run = record {
          file = some (env.pending_json.marshal (recorded url run.file) ++ 10 ∷ []);
          state = s;
        };
      }

      -- A run that finds no upload to go on with opens a session, and records it with the stream.
      pub start-fresh :
          (url : Bytes) (run : Run service.State) (s0 s1 : service.State)
          → c.drawn_key ≡ some key
          → c.drawn_prefix ≡ some prefix
          → c.save_opened ≡ record { make_dir = works; write_file = works }
          → resume_session env service (loaded run.file) resume_key c.name true run.state
            ≡ (none, s0)
          → create_session env service c ciphertext_size s0 ≡ (opened (opening url), s1)
          → start env service c mod_time run ≡ begun (fresh url run s1)
      unfolding start Pending.save Pending.after_save
      start-fresh url run s0 s1 drawn_key drawn_prefix calls nothing created =
          ap
            (λ b.
              start_with env service c resume_key (loaded run.file) run.file
                (resume_session env service (loaded run.file) resume_key c.name b run.state))
            enc.e2e
          ∙ ap (start_with env service c resume_key (loaded run.file) run.file) nothing
          ∙ ap
              (λ n.
                open_new env service c resume_key (Pending.remove (loaded run.file) resume_key)
                  run.file s0 n)
              (new_stream-stream drawn_key drawn_prefix)
          ∙ ap
              (λ (made : Created × service.State).
                opened_with env service c resume_key (Pending.remove (loaded run.file) resume_key)
                  (some stream) run.file made.0 made.1)
              created
          ∙ ap
              (λ k. begun (record {
                pending =
                    Pending.after_save c.now k
                      (Pending.put (Pending.remove (loaded run.file) resume_key) (entry url));
                session = opening url;
                stream = some stream;
                run = record {
                  file =
                      (Pending.save env.pending_json c.now k
                        (Pending.put (Pending.remove (loaded run.file) resume_key) (entry url))
                        run.file).1;
                  state = s1;
                };
              }))
              calls

      -- what such a run records is found again
      pub fresh-Recorded :
          (url : Bytes) (run : Run service.State) (s1 : service.State)
          → Recorded url (fresh url run s1).run.file
      unfolding load_pending
      fresh-Recorded url run s1 = (
        recorded url run.file,
        entry url,
        ap (λ o. some (or_empty (record { uploads = [] }) o))
            (env.pending_json.unmarshal-marshal (recorded url run.file)),
        unfold entry_of in
            find-put-kept c.now (Pending.remove (loaded run.file) resume_key) (entry url) refl,
        unfold entry_of in enc.key_text,
        stream_of_entry-entry_of (opening url),
        unfold entry_of in refl,
        unfold entry_of in refl,
      )

      if_length-here :
          (url : Bytes) (offset : ℕ)
          → if_length env service ciphertext_size (some stream) (some (here url offset))
            ≡ some (here url offset, some stream)
      if_length-here url offset =
          let equal : (ciphertext_size == ciphertext_size) ≡ true = ground arith in rw equal

      resume_session-Recorded :
          (url : Bytes) (offset : ℕ) (s s' : service.State) (p : Pending) (e : PendingUpload)
          → Pending.find p resume_key ≡ some e
          → is_unset e.e2e_key ≡ false
          → stream_of_entry env e c.name true ≡ some (some stream)
          → e.session_url ≡ url
          → e.length ≡ ciphertext_size
          → on_status url (service.head_upload url s).0 ≡ some (here url offset)
          → (service.head_upload url s).1 ≡ s'
          → resume_session env service p resume_key c.name true s
            ≡ (some (here url offset, some stream), s')
      unfolding resume_session
      resume_session-Recorded url offset s s' p e found has_key continues same_url same_length
            status after =
          ap (λ o. resume_entry env service c.name true o s) found
          ∙ ap
              (λ b.
                if same env (not b) true
                then revive env service e (stream_of_entry env e c.name true) s
                else (none, s))
              has_key
          ∙ ap (λ st. revive env service e st s) continues
          ∙ ap
              (λ u.
                let reply = service.head_upload u s in
                (if_length env service e.length (some stream) (on_status u reply.0), reply.1))
              same_url
          ∙ ap
              (λ n. (
                if_length env service n (some stream) (on_status url (service.head_upload url s).0),
                (service.head_upload url s).1,
              ))
              same_length
          ∙ ap
              (λ o. (
                if_length env service ciphertext_size (some stream) o,
                (service.head_upload url s).1,
              ))
              status
          ∙ ap (λ o. (o, (service.head_upload url s).1)) (if_length-here url offset)
          ∙ ap (λ v. (some (here url offset, some stream), v)) after

      -- a later run with an entry for the stream takes it and the session up again
      pub start-Recorded :
          (k' p' : Option Bytes) (now' : ℕ) (url : Bytes) (offset : ℕ) (file : Option Bytes)
          (s s' : service.State)
          → Recorded url file
          → on_status url (service.head_upload url s).0 ≡ some (here url offset)
          → (service.head_upload url s).1 ≡ s'
          → (p : Pending) × (start env service
                (again k' p' now')
                mod_time
                (record { file = file; state = s })
              ≡ begun (record {
                pending = p;
                session = here url offset;
                stream = some stream;
                run = record { file = file; state = s' };
              }))
      unfolding start
      start-Recorded k' p' now' url offset file s s'
            (p, e, found, in_file, has_key, continues, same_url, same_length) status after =
          (
            p,
            ap
                  (λ o.
                    let pending = or_empty (record { uploads = [] }) o in
                    start_with env service (again k' p' now') resume_key pending file
                      (resume_session env service pending resume_key c.name c.e2e s))
                  found
                ∙ ap
                    (λ b.
                      start_with env service (again k' p' now') resume_key p file
                        (resume_session env service p resume_key c.name b s))
                    enc.e2e
                ∙ ap (start_with env service (again k' p' now') resume_key p file) (
                    resume_session-Recorded url offset s s' p e in_file has_key continues same_url
                      same_length status after),
          )

      -- the file that an interrupted loop leaves is the one it began with
      pub finish-interrupted :
          (b : Begun env service) (e : UploadError) (x : Option (Outcome × service.State))
          (r : Run service.State)
          → Option.map (finish env service c resume_key b) x ≡ some (not_sent (interrupted e), r)
          → r.file ≡ b.run.file
      finish-interrupted b e none r h = cc
      finish-interrupted b e (some (gives u, s)) r h = cc
      finish-interrupted b e (some (fails_with e', s)) r h = cc
