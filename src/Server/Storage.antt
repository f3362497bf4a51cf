-- ===== src/Server/Storage.antt =====
-- server/storage/local.go: an upload is two files in its token's folder, the payload and the
-- `.metadata` sidecar. Reads, writes and deletions may fail at each call of the operating system.
pub mod Works
pub mod Walk
use send_to.Prelude.{
  ◌≡◌, Bool, true, false, Option, none, some, [], ◌∷◌, ◌++◌, Bytes, codes, length, take, drop, ltb,
  ℕ, ◌^◌, if◌then◌else◌,
}
use send_to.E2e.{Source, eof, failed}
use send_to.Range.{Range, accept_length}
use send_to.Server.Fs
use send_to.Server.Fs.{FilePath, token_dir, lookup}
use send_to.Server.Exec.{
  World, Fault, works, fails, Exec, Reply, next, pure, gets, modify, system_call, ◌>>=◌, ◌>>◌,
}

-- A value, `os.IsNotExist(err)`, or any other error.
pub data IoResult {ℓ} (A : Type ℓ) : Type ℓ where
  good : A → IoResult A
  missing broken : IoResult A

-- an existing file is opened, examined or read
abbrev pub on_file : Fault → Option Bytes → IoResult Bytes
on_file (fails n) file = broken
on_file works none = missing
on_file works (some content) = good content

unfoldable pub read_file : FilePath → Exec (IoResult Bytes)
read_file p = do fault ← system_call; gets (λ w. on_file fault (lookup p w.files))

abbrev pub remove_with : FilePath → Fault → Option Bytes → Exec (IoResult (Unit {0}))
remove_with p (fails n) file = pure broken
remove_with p works none = pure missing
remove_with p works (some content) = do
  modify (λ w. record w { files = Fs.remove p w.files })
  pure (good tt)

-- `os.Remove`
unfoldable pub remove_file : FilePath → Exec (IoResult (Unit {0}))
remove_file p = do
  fault ← system_call
  file ← gets (λ w. lookup p w.files)
  remove_with p fault file

abbrev pub write : FilePath → Bytes → Exec (Unit {0})
write p content = modify λ w. record w { files = Fs.put p content w.files }

abbrev pub copy_with : FilePath → Bytes → Fault → Exec (IoResult (Unit {0}))
copy_with p content works = do write p content; pure (good tt)
copy_with p content (fails n) = do write p (take n content); pure broken

abbrev pub create_with : FilePath → Bytes → Fault → Exec (IoResult (Unit {0}))
create_with p content (fails n) = pure broken
create_with p content works = do write p []; fault ← system_call; copy_with p content fault

-- `os.OpenFile` with O_CREATE and O_TRUNC, and the copy into it; a failed copy leaves what it wrote.
unfoldable pub write_file : FilePath → Bytes → Exec (IoResult (Unit {0}))
write_file p content = do fault ← system_call; create_with p content fault

abbrev pub stored_path : Bytes → Bytes → FilePath
stored_path token filename = record { folder = token_dir token; name = filename }

-- `fmt.Sprintf("%s.metadata", filename)`
abbrev pub sidecar : Bytes → Bytes
sidecar filename = filename ++ codes ".metadata"

abbrev pub then_put : FilePath → Bytes → Fault → Exec (IoResult (Unit {0}))
then_put p content (fails n) = pure broken
then_put p content works = write_file p content

abbrev pub then_stat : FilePath → IoResult Bytes → Exec (IoResult Bytes)
then_stat p (good content) = read_file p
then_stat p missing = pure missing
then_stat p broken = pure broken

abbrev size_of : IoResult Bytes → IoResult ℕ
size_of (good content) = good (length content)
size_of missing = missing
size_of broken = broken

-- `Put`: `os.MkdirAll`, then the file
unfoldable pub put : Bytes → Bytes → Bytes → Exec (IoResult (Unit {0}))
put token filename content = do
  fault ← system_call
  then_put (stored_path token filename) content fault

-- `Put` of a body that may break off: `io.Copy` returns its error
unfoldable pub put_from : Bytes → Bytes → Source → Exec (IoResult (Unit {0}))
put_from token filename body = elim body.ending [
  | eof ↦ put token filename body.content
  | failed ↦ put token filename body.content >>= λ _. pure broken
]

-- `Get` of the whole file: `os.Open`, then `os.Lstat`
unfoldable pub get : Bytes → Bytes → Exec (IoResult Bytes)
get token filename = do
  opened ← read_file (stored_path token filename)
  then_stat (stored_path token filename) opened

-- `int64(rng.Start)` is not negative, or the seek fails
abbrev pub sought : Range → Bytes → Fault → IoResult (Bytes × ℕ × Range)
sought r content (fails n) = broken
sought r content works =
    let accepted = accept_length r (length content) in
    if ltb r.start (2 ^ 63) then good (drop r.start content, accepted.1, accepted.0) else broken

abbrev pub then_seek : Range → IoResult Bytes → Exec (IoResult (Bytes × ℕ × Range))
then_seek r missing = pure missing
then_seek r broken = pure broken
then_seek r (good content) = do seek ← system_call; pure (sought r content seek)

-- `Get` with a range: the reader stands at the start of the range in any case
unfoldable pub get_range : Bytes → Bytes → Range → Exec (IoResult (Bytes × ℕ × Range))
get_range token filename r = do content ← get token filename; then_seek r content

-- `Head`
unfoldable pub head : Bytes → Bytes → Exec (IoResult ℕ)
head token filename = do file ← read_file (stored_path token filename); pure (size_of file)

-- `Delete`: an error on the sidecar is passed over
unfoldable pub delete : Bytes → Bytes → Exec (IoResult (Unit {0}))
delete token filename = do
  _ ← remove_file (stored_path token (sidecar filename))
  remove_file (stored_path token filename)
