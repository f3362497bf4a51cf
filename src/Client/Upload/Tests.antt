-- ===== src/Client/Upload/Tests.antt =====
-- An encrypted upload over two concrete servers: one that is never reached again once the session is open, and
-- one that keeps what it is sent.
use send_to.Prelude.{
  ℕ, ◌++◌, ◌≡◌, refl, ap, sym, ◌∙◌, true, Option, none, some, [], Bytes, arith, codes, length, take,
  length-take, replicate,
}
use mathlib.Core.Option
use send_to.E2e.{Source, e2e_encrypted_size}
use send_to.E2e.Steps.{all_of, head_bytes, body_bytes}
use send_to.E2e.RoundTrip.{reader_runs}
use send_to.E2e.Toy.{toy_aead, toy_json}
use send_to.Server.Exec.{works}
use send_to.Client.Resumable.{
  transport_error, Server, Next, round, try_again, after_chunk, failed_with, fails_with, send_chunk,
  send_one_chunk, upload_session, retryable_upload_error,
}
use send_to.Client.Resumable.Spool.{spool_server, spool_server-Accepts}
use send_to.Client.Resumable.Finishes.{Accepts}
use send_to.Client.Pending.{SaveCalls, load_pending, find}
use send_to.Client.Toy.{toy_services}
use send_to.Client.Upload.{
  Service, Command, Run, Begun, interrupted, not_sent, on_status, on_created, opened,
  create_session, resume_session, upload_started, upload_resumable, finish, session_server, src,
}
use send_to.Client.Upload.Recorded.{
  stream, loaded, Encrypts, fresh, start-fresh, src-file_from, size_lem,
}
use send_to.Client.Upload.Resumes.{
  Sends, first, found_by, size, in_session, later, upload_resumable-start, upload_resumable-Sends,
}

abbrev calm : SaveCalls
calm = record { make_dir = works; write_file = works }

abbrev hello : Bytes
hello = codes "hello"

abbrev secret : Bytes
secret = replicate 32 9

abbrev put_hello : Command
put_hello = record {
  server = codes "https://send.to";
  abs_path = codes "/home/me/a.txt";
  name = codes "a.txt";
  content = hello;
  mod_time = some 7;
  options = record { days = 0; max_downloads = 0; password = [] };
  e2e = true;
  drawn_key = some secret;
  drawn_prefix = some (codes "1234567");
  now = 100;
  read = works;
  save_opened = calm;
  save_done = calm;
}

abbrev link : Bytes
link = codes "https://send.to/upload/1/a.txt"

abbrev unreachable : Service {0}
unreachable = record {
  State = Unit;
  post_upload = λ name n days downloads s.
      (some (record { status = 201; upload_url = link; location = [] }), s);
  head_upload = λ url s. (none, s);
  patch_upload = λ url start n total body s. (none, s);
}

abbrev ciphertext : Source
ciphertext =
    let s = stream toy_services put_hello 7 secret (codes "1234567") (all_of []) in
    all_of (head_bytes toy_aead toy_json s ++ body_bytes toy_aead toy_json s hello)

put_hello-Encrypts : Encrypts toy_services put_hello 7 secret (codes "1234567") ciphertext
put_hello-Encrypts = record {
  e2e = refl;
  password = refl;
  stat = refl;
  key_size = refl;
  prefix_size = refl;
  key_text = refl;
  small = omega arith;
  meta_size = omega arith;
  meta_back = refl;
  opens = reader_runs toy_aead toy_json _ hello refl (omega arith);
}

length-ciphertext : length ciphertext.content ≡ 55
unfolding e2e_encrypted_size
length-ciphertext =
    sym (size_lem toy_services put_hello 7 secret (codes "1234567") ciphertext put_hello-Encrypts)

-- the server behind the connection
abbrev keeping : Service {0}
keeping = record {
  State = Bytes;
  post_upload = λ name n days downloads s. (none, s);
  head_upload = λ url s.
      (some (record { status = 200; upload_offset = some (length s); upload_length = 55 }), s);
  patch_upload = λ url. spool_server.patch;
}

abbrev before : Run (Unit {0})
before = record { file = none; state = tt }

abbrev begun_run : Begun toy_services unreachable
begun_run =
    fresh toy_services put_hello 7 secret (codes "1234567") ciphertext put_hello-Encrypts
      unreachable link before tt

no_entry :
    resume_session toy_services unreachable
      (record { uploads = [] })
      (found_by toy_services keeping
        (λ s. s)
        put_hello
        7
        secret
        (codes "1234567")
        ciphertext
        put_hello-Encrypts)
      (codes "a.txt")
      true
      tt
    ≡ (none, tt)
unfolding resume_session find
no_entry = refl

no_entry_loaded :
    resume_session toy_services unreachable
      (loaded toy_services put_hello 7 secret (codes "1234567") ciphertext put_hello-Encrypts none)
      (found_by toy_services keeping
        (λ s. s)
        put_hello
        7
        secret
        (codes "1234567")
        ciphertext
        put_hello-Encrypts)
      (codes "a.txt")
      true
      tt
    ≡ (none, tt)
unfolding resume_session find load_pending
no_entry_loaded = refl

opens_session :
    create_session toy_services unreachable put_hello
      (size toy_services keeping
        (λ s. s)
        put_hello
        7
        secret
        (codes "1234567")
        ciphertext
        put_hello-Encrypts)
      tt
    ≡ (
      opened (
          in_session toy_services keeping
            (λ s. s)
            put_hello
            7
            secret
            (codes "1234567")
            ciphertext
            put_hello-Encrypts
            link
            0),
      tt,
    )
unfolding create_session on_created
opens_session = refl

module _ (src : ℕ → Option Source) (body : Source) (reads : src 0 ≡ some body) where
  abbrev lost : Server {0}
  lost = session_server toy_services unreachable link

  without_response :
      (again : Next lost 55 src) (attempts : ℕ)
      → round lost 55 src again attempts 0 tt
        ≡ try_again lost 55 src again attempts 0 transport_error tt
  unfolding send_one_chunk send_chunk retryable_upload_error
  without_response again attempts =
      let sent : send_one_chunk lost 55 src 0 55 tt ≡ (failed_with transport_error, tt) =
        rw reads refl in
      ap (after_chunk lost 55 src again attempts 0) sent

  -- five rounds without a response
  gives_up : upload_session lost 55 src 5 0 0 tt ≡ some (fails_with transport_error, tt)
  unfolding upload_session on_status
  gives_up =
      let rounds = λ (fuel : ℕ). upload_session lost 55 src fuel in
      without_response (rounds 4) 0
      ∙ without_response (rounds 3) 1
      ∙ without_response (rounds 2) 2
      ∙ without_response (rounds 1) 3
      ∙ without_response (rounds 0) 4

abbrev source_of : ℕ → Option Source
source_of =
    src toy_services
      (some (
        first toy_services keeping (λ s. s) put_hello 7 secret (codes "1234567") ciphertext
          put_hello-Encrypts))
      hello

abbrev entry_key : Bytes
entry_key =
    found_by toy_services keeping (λ s. s) put_hello 7 secret (codes "1234567") ciphertext
      put_hello-Encrypts

size_55 :
    size toy_services keeping
      (λ s. s)
      put_hello
      7
      secret
      (codes "1234567")
      ciphertext
      put_hello-Encrypts
    ≡ 55
unfolding e2e_encrypted_size
size_55 = refl

abbrev after : Run (Unit {0})
after = record { file = begun_run.run.file; state = tt }

first_run :
    upload_resumable toy_services unreachable 5 put_hello before
    ≡ some (not_sent (interrupted transport_error), after)
first_run =
    upload_resumable-start toy_services keeping (λ s. s) put_hello 7 secret (codes "1234567")
      ciphertext put_hello-Encrypts unreachable 5 put_hello before refl refl
    ∙ ap (upload_started toy_services unreachable 5 put_hello entry_key) (
        start-fresh toy_services put_hello 7 secret (codes "1234567") ciphertext put_hello-Encrypts
          unreachable link before tt tt refl refl refl no_entry_loaded opens_session)
    ∙ ap
        (λ n.
          Option.map (finish toy_services unreachable put_hello entry_key begun_run)
            (upload_session (session_server toy_services unreachable link) n source_of 5 0 0 tt))
        size_55
    ∙ ap (Option.map (finish toy_services unreachable put_hello entry_key begun_run)) (
        gives_up source_of (all_of ciphertext.content) (
          src-file_from toy_services put_hello 7 secret (codes "1234567") ciphertext
            put_hello-Encrypts 0 (omega (arith, length-ciphertext))))

-- the server has the first ten bytes of the ciphertext
abbrev some_bytes : Bytes
some_bytes = take 10 ciphertext.content

length-some_bytes : length some_bytes ≡ 10
length-some_bytes = omega (arith, length-take {0} 10 ciphertext.content, length-ciphertext)

status_of :
    on_status link (keeping.head_upload link some_bytes).0
    ≡ some (
        in_session toy_services keeping
          (λ s. s)
          put_hello
          7
          secret
          (codes "1234567")
          ciphertext
          put_hello-Encrypts
          link
          10)
unfolding on_status
status_of =
    ap (λ o. some (record { url = link; offset = o; length = 55 })) length-some_bytes
    ∙ ap (λ n. some (record { url = link; offset = 10; length = n })) (sym size_55)

keeping-Accepts :
    Accepts (session_server toy_services keeping link) (length ciphertext.content) (λ s. s)
keeping-Accepts =
    let spool = spool_server-Accepts (length ciphertext.content) in
    record { patch_more = spool.patch_more; patch_last = spool.patch_last }

upload_resumable-Sends_example :
    Sends toy_services keeping
      (λ s. s)
      put_hello
      7
      secret
      (codes "1234567")
      ciphertext
      put_hello-Encrypts
      (upload_resumable toy_services keeping 45
        (later toy_services keeping
          (λ s. s)
          put_hello
          7
          secret
          (codes "1234567")
          ciphertext
          put_hello-Encrypts
          none
          none
          900)
        (record { file = after.file; state = some_bytes }))
upload_resumable-Sends_example =
    upload_resumable-Sends toy_services keeping (λ s. s) put_hello 7 secret (codes "1234567")
      ciphertext put_hello-Encrypts unreachable 5 45 link before after tt tt transport_error refl
      refl refl no_entry_loaded opens_session first_run none none 900 10 some_bytes some_bytes
      status_of refl keeping-Accepts refl (omega (arith, length-ciphertext))
      (omega (arith, length-ciphertext))
