-- ===== src/Client/Download.antt =====
-- `Download` of client/client.go, and `get` of cmd/send/main.go into a file: a download lands in a partial
-- file that a later run goes on with. The model does not follow an encrypted upload whose name is that of
-- the partial file. The progress bar and the output to a terminal are left out.
pub mod Copied
pub mod Whole
mod Tests
use send_to.Prelude.{
  ℕ, ◌+◌, Bool, true, false, ◌&&◌, ◌||◌, not, Option, none, some, List, [], ◌∷◌, ◌++◌, Bytes, codes,
  ltb, leb, ◌==◌, if◌then◌else◌, length, take,
}
use send_to.E2e.{
  Aead, MetaJson, E2eMetadata, Source, End, eof, failed, Result, ok, err, Outcome, complete,
  stopped, e2e_decrypt,
}
use send_to.Server.Exec.{Fault, works, fails}
use send_to.Server.Upload.{is_unset}
use send_to.Client.Disk
use send_to.Client.Disk.{Disk, lookup}

-- A response to a GET: its status and its body, which may break off.
pub record GetResponse : Type 0 where
  pub status : ℕ
  pub body : Source

-- The calls of a run to the operating system.
pub record GetCalls : Type 0 where
  pub open_part : Fault
  pub write_part : Fault
  pub close_part : Fault
  pub open_in : Fault
  pub create_dest : Fault
  pub write_dest : Fault
  pub close_dest : Fault
  pub rename : Fault

pub data GetError : Type 0 where
  not_opened no_response broken_off not_resumed not_closed not_renamed not_decrypted not_written :
      GetError
  api_error : ℕ → GetError

pub data GetResult : Type 0 where
  saved_to : Bytes → GetResult
  get_failed : GetError → GetResult

-- What `Download` returns: whether the server has gone on from the offset, or its error.
pub data Downloaded : Type 0 where
  copied : Bool → Downloaded
  download_failed : GetError → Downloaded

-- `io.Copy` of the body to the end of a file
abbrev pub copy_body : Fault → Source → Bytes → Bool × Bytes
copy_body works body before =
    (elim body.ending [ eof ↦ true | failed ↦ false ], before ++ body.content)
copy_body (fails n) body before = (false, before ++ take n body.content)

abbrev copied_if : Bool → Bool → Downloaded
copied_if resumed true = copied resumed
copied_if resumed false = download_failed broken_off

-- `Download` on the response, to a file with some bytes
unfoldable pub download : Fault → Option GetResponse → Bytes → Downloaded × Bytes
download write none before = (download_failed no_response, before)
download write (some r) before =
    if ltb r.status 200 || leb 300 r.status
    then (download_failed (api_error r.status), before)
    else (let copy = copy_body write r.body before in (copied_if (r.status == 206) copy.0, copy.1))

abbrev pub part_of : Bytes → Bytes
part_of dest = dest ++ codes ".part"

abbrev size_of : Option Bytes → ℕ
size_of none = 0
size_of (some content) = length content

abbrev bytes_of : Option Bytes → Bytes
bytes_of none = []
bytes_of (some content) = content

-- what the partial file has when it is opened: nothing with --no-resume
abbrev pub opened_part : Bool → Option Bytes → Bytes
opened_part no_resume part = if no_resume then [] else bytes_of part

module _ (aead : Aead) (json : MetaJson) (base : Bytes → Bytes) where
  -- the name of the file: the one given, or the one in the metadata
  abbrev pub dest_of : Bytes → Bool → E2eMetadata → Bytes
  dest_of dest explicit meta =
      if not explicit && not (is_unset meta.name) then base meta.name else dest

  abbrev pub closed_dest : Fault → Bytes → Bytes → Disk → GetResult × Disk
  closed_dest (fails n) part dest disk = (get_failed not_written, disk)
  closed_dest works part dest disk = (saved_to dest, Disk.remove part disk)

  abbrev pub written_dest : GetCalls → Bytes → Bytes → Bytes → Disk → Fault → GetResult × Disk
  written_dest calls part dest content disk works =
      closed_dest calls.close_dest part dest (Disk.put dest content disk)
  written_dest calls part dest content disk (fails n) =
      (get_failed not_written, Disk.remove dest disk)

  -- the plaintext is copied to the file; an error on the way removes it
  abbrev pub write_plain :
      GetCalls → Bytes → Bytes → Bytes × Outcome → Disk → Fault → GetResult × Disk
  write_plain calls part dest plain disk (fails n) = (get_failed not_written, disk)
  write_plain calls part dest (content, stopped e) disk works =
      (get_failed not_decrypted, Disk.remove dest disk)
  write_plain calls part dest (content, complete) disk works =
      written_dest calls part dest content disk calls.write_dest

  abbrev pub decrypt_to :
      GetCalls
      → Bytes
      → Bytes
      → Bool
      → Result (E2eMetadata × (Bytes × Outcome))
      → Disk
      → GetResult × Disk
  decrypt_to calls part dest explicit (err e) disk = (get_failed not_decrypted, disk)
  decrypt_to calls part dest explicit (ok (meta, plain)) disk =
      write_plain calls part (dest_of dest explicit meta) plain disk calls.create_dest

  abbrev pub decrypt_opened :
      GetCalls → Bytes → Bool → Bytes → Bytes → Disk → Fault → GetResult × Disk
  decrypt_opened calls dest explicit key content disk (fails n) = (get_failed not_opened, disk)
  decrypt_opened calls dest explicit key content disk works =
      decrypt_to calls (part_of dest) dest explicit
        (e2e_decrypt aead json (record { content = content; ending = eof }) key) disk

  unfoldable pub decrypt_file : GetCalls → Bytes → Bool → Bytes → Bytes → Disk → GetResult × Disk
  decrypt_file calls dest explicit key content disk =
      decrypt_opened calls dest explicit key content disk calls.open_in

  abbrev pub rename_part : Bytes → Bytes → Disk → Fault → GetResult × Disk
  rename_part dest content disk works =
      (saved_to dest, Disk.put dest content (Disk.remove (part_of dest) disk))
  rename_part dest content disk (fails n) = (get_failed not_renamed, disk)

  abbrev pub complete_part :
      GetCalls → Bytes → Bool → Option Bytes → Bytes → Disk → Fault → GetResult × Disk
  complete_part calls dest explicit key content disk (fails n) = (get_failed not_closed, disk)
  complete_part calls dest explicit none content disk works =
      rename_part dest content disk calls.rename
  complete_part calls dest explicit (some key) content disk works =
      decrypt_file calls dest explicit key content disk

  -- behind the download, whose bytes the partial file has by now
  abbrev pub downloaded :
      GetCalls → Bytes → Bool → Option Bytes → ℕ → Downloaded × Bytes → Disk → GetResult × Disk
  downloaded calls dest explicit key offset (download_failed e, content) disk =
      (get_failed e, Disk.put (part_of dest) content disk)
  downloaded calls dest explicit key offset (copied resumed, content) disk =
      if ltb 0 offset && not resumed
      then (get_failed not_resumed, Disk.remove (part_of dest) disk)
      else complete_part calls dest explicit key content (Disk.put (part_of dest) content disk)
          calls.close_part

  abbrev pub get_opened :
      GetCalls
      → Bytes
      → Bool
      → Option Bytes
      → (ℕ → Option GetResponse)
      → Bytes
      → Disk
      → Fault
      → GetResult × Disk
  get_opened calls dest explicit key respond before disk (fails n) = (get_failed not_opened, disk)
  get_opened calls dest explicit key respond before disk works =
      downloaded calls dest explicit key (length before)
        (download calls.write_part (respond (length before)) before) disk

  -- `get` on the response to its request: the name that the file is saved under, whether it was given,
  -- --no-resume, the key in the link, and the response by the offset that the request asks for
  unfoldable pub run_get :
      GetCalls
      → Bytes
      → Bool
      → Bool
      → Option Bytes
      → (ℕ → Option GetResponse)
      → Disk
      → GetResult × Disk
  run_get calls dest explicit no_resume key respond disk =
      get_opened calls dest explicit key respond
        (opened_part no_resume (lookup (part_of dest) disk)) disk calls.open_part
