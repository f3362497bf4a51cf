-- ===== src/Client/Upload.antt =====
-- cmd/send/upload.go with `CreateSession` and `SessionStatus` of client/resumable.go: the command that
-- sends a large file, and takes an interrupted upload up again. The file does not change while the
-- command runs. Messages and the progress bar are left out.
pub mod Recorded
pub mod Resumes
mod Tests
use send_to.Prelude.{
  ℕ, Bool, true, false, ◌||◌, not, Option, none, some, Bytes, ltb, leb, ◌==◌, ◌&&◌, if◌then◌else◌,
  length, drop, ◌++◌, codes, [], ◌∷◌,
}
use mathlib.Core.Option
use send_to.Prelude.Int.{pos}
use send_to.E2e.{
  Aead, MetaJson, E2eMetadata, E2eStream, Result, ok, err, Source, eof, reader_from,
  new_e2e_stream_with_prefix, e2e_encrypted_size,
}
use send_to.E2e.Key.{KeyText, parse_e2e_key}
use send_to.Server.Exec.{Fault}
use send_to.Server.Upload.{is_unset}
use send_to.Client.Resumable
use send_to.Client.Resumable.{
  Server, Response, UploadedFile, UploadError, Outcome, gives, fails_with, upload_session,
}
use send_to.Client.Pending
use send_to.Client.Pending.{PendingUpload, Pending, JsonFile, SaveCalls, load_pending, or_empty}

pub record UploadOptions : Type 0 where
  pub days : ℕ
  pub max_downloads : ℕ
  pub password : Bytes

pub record Session : Type 0 where
  pub url : Bytes
  pub offset : ℕ
  pub length : ℕ

-- The response to the request for a session: its status, the URL in its body and its `Location` header.
pub record CreateResponse : Type 0 where
  pub status : ℕ
  pub upload_url : Bytes
  pub location : Bytes

-- The response to a HEAD of a session; an `Upload-Length` that is no number counts as 0.
pub record StatusResponse : Type 0 where
  pub status : ℕ
  pub upload_offset : Option ℕ
  pub upload_length : ℕ

-- The requests of the command to the server. No response is `none`.
pub record Service {ℓ} : Type (ℓ + 1) where
  pub State : Type ℓ
  -- the name, `Upload-Length`, `Max-Days` and `Max-Downloads`, where they are above 0
  pub post_upload : Bytes → ℕ → ℕ → ℕ → State → Option CreateResponse × State
  pub head_upload : Bytes → State → Option StatusResponse × State
  pub patch_upload : Bytes → ℕ → ℕ → ℕ → Source → State → Option Response × State

pub data CommandError : Type 0 where
  two_encryptions stat_failed key_failed resumable_unsupported create_failed : CommandError
  interrupted : UploadError → CommandError

-- `ErrResumableUnsupported` is the answer of a server without sessions.
abbrev pub is_failure : ℕ → Bool
is_failure status = ltb status 200 || leb 300 status

pub data Created : Type 0 where
  opened : Session → Created
  refused_with : CommandError → Created

abbrev session_of : ℕ → Bytes → Bytes → Created
session_of size upload_url location =
    let url = if is_unset upload_url then location else upload_url in
    if is_unset url
    then refused_with create_failed
    else opened (record { url = url; offset = 0; length = size })

-- `CreateSession` on the response to its request
unfoldable pub on_created : ℕ → Option CreateResponse → Created
on_created size none = refused_with create_failed
on_created size (some r) =
    if is_failure r.status
    then refused_with
        (if r.status == 404 || r.status == 405 then resumable_unsupported else create_failed)
    else session_of size r.upload_url r.location

abbrev at_offset : Bytes → ℕ → Option ℕ → Option Session
at_offset url size none = none
at_offset url size (some o) = some (record { url = url; offset = o; length = size })

-- `SessionStatus` on the response to its request
unfoldable pub on_status : Bytes → Option StatusResponse → Option Session
on_status url none = none
on_status url (some r) =
    if is_failure r.status then none else at_offset url r.upload_length r.upload_offset

-- What the command is run with: the clock, the random draws and the outcomes of the calls are its input.
pub record Command : Type 0 where
  pub server : Bytes
  pub abs_path : Bytes
  pub name : Bytes
  pub content : Bytes
  -- the modification time that `Stat` reports, if it does
  pub mod_time : Option ℕ
  pub options : UploadOptions
  pub e2e : Bool
  pub drawn_key : Option Bytes
  pub drawn_prefix : Option Bytes
  pub now : ℕ
  pub read : Fault
  pub save_opened : SaveCalls
  pub save_done : SaveCalls

-- The link that the command prints; with end-to-end encryption, the size of the file that it sets.
pub record SentFile : Type 0 where
  pub url : Bytes
  pub delete_url : Bytes
  pub plain_size : Option ℕ

pub data Ending : Type 0 where
  sent : SentFile → Ending
  not_sent : CommandError → Ending

-- the file of interrupted uploads and the server, before or behind a run
pub record Run {ℓ} (State : Type ℓ) : Type ℓ where
  pub file : Option Bytes
  pub state : State

-- The cipher, the JSON and base64 forms, SHA-256 and the MIME table.
pub record Services : Type 0 where
  pub aead : Aead
  pub json : MetaJson
  pub text : KeyText
  pub pending_json : JsonFile Pending
  pub digest : Bytes → Bytes
  pub type_of : Bytes → Bytes

abbrev pub has_stream : Option E2eStream → Bool
has_stream none = false
has_stream (some stream) = true

abbrev of_result {ℓ} : {A : Type ℓ} → Result A → Option A
of_result (ok a) = some a
of_result (err e) = none

module _ (env : Services) where
  abbrev pub e2e_metadata_for : Bytes → E2eMetadata
  e2e_metadata_for name = record { name = name; media_type = env.type_of name }

  abbrev stream_of : Bytes → Option Bytes → Option Bytes → Option E2eStream
  stream_of name (some key) (some prefix) =
      of_result (new_e2e_stream_with_prefix key prefix (e2e_metadata_for name))
  stream_of name none prefix = none
  stream_of name (some key) none = none

  abbrev continued : Option E2eStream → Option (Option E2eStream)
  continued none = none
  continued (some stream) = some (some stream)

  -- the stream that an entry continues; the outer `none` is an entry that cannot be continued
  unfoldable pub stream_of_entry : PendingUpload → Bytes → Bool → Option (Option E2eStream)
  stream_of_entry entry name false = some none
  stream_of_entry entry name true =
      continued
        (stream_of name (parse_e2e_key env.text entry.e2e_key) (env.text.decode entry.e2e_prefix))

  abbrev same : Bool → Bool → Bool
  same true b = b
  same false b = not b

  -- `src`: the bytes of the upload from an offset
  unfoldable pub src : Option E2eStream → Bytes → ℕ → Option Source
  src none content offset = some (record { content = drop offset content; ending = eof })
  src (some stream) content offset = of_result (
      reader_from env.aead env.json stream (record { content = content; ending = eof })
        (pos offset))

  abbrev encrypted_size : ℕ → Option E2eStream → Option (Option E2eStream × ℕ)
  encrypted_size n none = none
  encrypted_size n (some stream) = some (some stream, e2e_encrypted_size env.json n stream.meta)

  -- A new stream of an upload that is encrypted, and how many bytes are sent.
  unfoldable pub new_stream : Command → Option (Option E2eStream × ℕ)
  new_stream c =
      if c.e2e
      then encrypted_size (length c.content) (stream_of c.name c.drawn_key c.drawn_prefix)
      else some (none, length c.content)

  abbrev key_text : Option E2eStream → Bytes
  key_text none = []
  key_text (some stream) = env.text.encode stream.key

  abbrev prefix_text : Option E2eStream → Bytes
  prefix_text none = []
  prefix_text (some stream) = env.text.encode stream.prefix

  unfoldable pub entry_of : Command → Bytes → Session → Option E2eStream → PendingUpload
  entry_of c key sess stream = record {
    key = key;
    session_url = sess.url;
    server = c.server;
    path = c.abs_path;
    name = c.name;
    size = length c.content;
    length = sess.length;
    e2e_key = key_text stream;
    e2e_prefix = prefix_text stream;
    started_at = c.now;
  }

  unfoldable pub sent_file : Command → Option E2eStream → UploadedFile → SentFile
  sent_file c none r = record { url = r.url; delete_url = r.delete_url; plain_size = none }
  sent_file c (some stream) r = record {
    url = r.url ++ codes "#k=" ++ env.text.encode stream.key;
    delete_url = r.delete_url;
    plain_size = some (length c.content);
  }

  module _ {ℓ} (service : Service {ℓ}) where
    -- a session as the server of the loop
    abbrev pub session_server : Bytes → Server {ℓ}
    session_server url = record {
      State = service.State;
      patch = service.patch_upload url;
      session_status = λ s.
          let reply = service.head_upload url s in
          (Option.map (λ sess. sess.offset) (on_status url reply.0), reply.1);
    }

    abbrev if_length : ℕ → Option E2eStream → Option Session → Option (Session × Option E2eStream)
    if_length n stream none = none
    if_length n stream (some sess) = if sess.length == n then some (sess, stream) else none

    abbrev revive :
        PendingUpload
        → Option (Option E2eStream)
        → service.State
        → Option (Session × Option E2eStream) × service.State
    revive entry none s = (none, s)
    revive entry (some stream) s =
        let reply = service.head_upload entry.session_url s in
        (if_length entry.length stream (on_status entry.session_url reply.0), reply.1)

    abbrev resume_entry :
        Bytes
        → Bool
        → Option PendingUpload
        → service.State
        → Option (Session × Option E2eStream) × service.State
    resume_entry name e2e none s = (none, s)
    resume_entry name e2e (some entry) s =
        if same (not (is_unset entry.e2e_key)) e2e
        then revive entry (stream_of_entry entry name e2e) s
        else (none, s)

    unfoldable pub resume_session :
        Pending
        → Bytes
        → Bytes
        → Bool
        → service.State
        → Option (Session × Option E2eStream) × service.State
    resume_session pending key name e2e s = resume_entry name e2e (Pending.find pending key) s

    -- The session and the stream that a run works on, with the file, or the error that ends it.
    pub record Begun : Type ℓ where
      pub pending : Pending
      pub session : Session
      pub stream : Option E2eStream
      pub run : Run service.State

    pub data Start : Type ℓ where
      begun : Begun → Start
      ended : CommandError → Run service.State → Start

    abbrev opened_with :
        Command
        → Bytes
        → Pending
        → Option E2eStream
        → Option Bytes
        → Created
        → service.State
        → Start
    opened_with c key pending stream file (refused_with e) s =
        ended e (record { file = file; state = s })
    opened_with c key pending stream file (opened sess) s =
        let pending' = Pending.put pending (entry_of c key sess stream) in
        begun (record {
          pending = Pending.after_save c.now c.save_opened pending';
          session = sess;
          stream = stream;
          run = record {
            file = (Pending.save env.pending_json c.now c.save_opened pending' file).1;
            state = s;
          };
        })

    -- `CreateSession`
    unfoldable pub create_session : Command → ℕ → service.State → Created × service.State
    create_session c size s =
        if is_unset c.options.password
        then (let reply =
              service.post_upload c.name size c.options.days c.options.max_downloads s in
            (on_created size reply.0, reply.1))
        else (refused_with create_failed, s)

    abbrev open_new :
        Command
        → Bytes
        → Pending
        → Option Bytes
        → service.State
        → Option (Option E2eStream × ℕ)
        → Start
    open_new c key pending file s none = ended key_failed (record { file = file; state = s })
    open_new c key pending file s (some (stream, size)) =
        let made = create_session c size s in opened_with c key pending stream file made.0 made.1

    abbrev start_with :
        Command
        → Bytes
        → Pending
        → Option Bytes
        → Option (Session × Option E2eStream) × service.State
        → Start
    start_with c key pending file (none, s) =
        open_new c key (Pending.remove pending key) file s (new_stream c)
    start_with c key pending file (some (sess, stream), s) = begun (record {
      pending = pending;
      session = sess;
      stream = stream;
      run = record { file = file; state = s };
    })

    -- the part before the upload
    unfoldable pub start : Command → ℕ → Run service.State → Start
    start c mod_time run =
        let key = Pending.pending_key env.digest c.server c.abs_path (length c.content) mod_time in
        let pending =
          or_empty (record { uploads = [] }) (load_pending env.pending_json c.read run.file) in
        start_with c key pending run.file (resume_session pending key c.name c.e2e run.state)

    abbrev finish : Command → Bytes → Begun → Outcome × service.State → Ending × Run service.State
    finish c key b (fails_with e, s) = (not_sent (interrupted e), record b.run { state = s })
    finish c key b (gives r, s) = (
      sent (sent_file c b.stream r),
      record {
        file =
            (Pending.save env.pending_json c.now c.save_done (Pending.remove b.pending key)
              b.run.file).1;
        state = s;
      },
    )

    abbrev upload_begun : ℕ → Command → Bytes → Begun → Option (Ending × Run service.State)
    upload_begun fuel c key b = Option.map (finish c key b) (
        upload_session (session_server b.session.url) b.session.length (src b.stream c.content) fuel
          0 b.session.offset b.run.state)

    abbrev upload_started : ℕ → Command → Bytes → Start → Option (Ending × Run service.State)
    upload_started fuel c key (ended e run) = some (not_sent e, run)
    upload_started fuel c key (begun b) = upload_begun fuel c key b

    abbrev upload_stated :
        ℕ → Command → Option ℕ → Run service.State → Option (Ending × Run service.State)
    upload_stated fuel c none run = some (not_sent stat_failed, run)
    upload_stated fuel c (some mod_time) run =
        upload_started fuel c
          (Pending.pending_key env.digest c.server c.abs_path (length c.content) mod_time)
          (start c mod_time run)

    -- `uploadResumable`, with fuel for the rounds of the loop: `none` is the fuel used up
    unfoldable pub upload_resumable :
        ℕ → Command → Run service.State → Option (Ending × Run service.State)
    upload_resumable fuel c run =
        if not (is_unset c.options.password) && c.e2e
        then some (not_sent two_encryptions, run)
        else upload_stated fuel c c.mod_time run
