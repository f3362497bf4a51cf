-- ===== src/Server/Storage/Works.antt =====
-- server/storage/local.go where no call of the operating system fails: each operation as one equation.
use send_to.Prelude.{
  ◌≡◌, refl, sym, ap, ◌∙◌, true, false, Bool, Option, none, some, [], ◌∷◌, Bytes, arith, codes,
  length, length-append, Bool-cases, inl, inr, if◌then◌else◌,
}
use send_to.Server.Fs
use send_to.Server.Fs.{Files, FilePath, lookup, lookup-remove, eq_path, eq_path_iff, eq_path_refl}
use send_to.Server.Exec.{World, works, next, head_fault, tail_faults, system_call}
use send_to.Server.Storage
use send_to.Server.Storage.{
  IoResult, good, read_file, remove_file, write_file, stored_path, sidecar, on_file, remove_with,
}

pub system_call_works : (w : World) → w.faults ≡ [] → system_call w ≡ (next works, w)
unfolding system_call
system_call_works w h =
    ap (λ fs. (next (head_fault fs), record w { faults = tail_faults fs })) h
    ∙ ap (λ fs. (next works, record w { faults = fs })) (sym h)

pub remove-remove :
    (p : FilePath) (files : Files) → Fs.remove p (Fs.remove p files) ≡ Fs.remove p files
unfolding Fs.remove
remove-remove p [] = refl
remove-remove p ((q, content) ∷ files) = ground (arith, remove-remove p files)

pub put-put :
    (p : FilePath) (c c' : Bytes) (files : Files)
    → Fs.put p c (Fs.put p c' files) ≡ Fs.put p c files
unfolding Fs.put Fs.remove
put-put p c c' files = ap (λ fs. (p, c) ∷ fs) (rw (eq_path_refl p, remove-remove p files))

-- an upload and its sidecar are two files
pub sidecar-ne :
    (t filename : Bytes)
    → eq_path (stored_path t (sidecar filename)) (stored_path t filename) ≡ false
sidecar-ne t filename =
    elim (Bool-cases (eq_path (stored_path t (sidecar filename)) (stored_path t filename))) [
      | inl same ↦
          let names : length (sidecar filename) ≡ length filename =
            ap (λ p. length p.name)
              ((eq_path_iff (stored_path t (sidecar filename)) (stored_path t filename)).0 same) in
          absurd (omega (arith, names, length-append filename (codes ".metadata")))
      | inr distinct ↦ distinct
    ]

module _ (t filename content : Bytes) (w : World) (calm : w.faults ≡ []) where
  pub read_file_works :
      (p : FilePath) → lookup p w.files ≡ some content → read_file p w ≡ (next (good content), w)
  unfolding read_file
  read_file_works p h = rw (system_call_works w calm, h)

  pub get_works :
      lookup (stored_path t filename) w.files ≡ some content
      → Storage.get t filename w ≡ (next (good content), w)
  unfolding Storage.get
  get_works h =
      rw (read_file_works (stored_path t filename) h, read_file_works (stored_path t filename) h)

  remove_file_works :
      (p : FilePath)
      → lookup p w.files ≡ some content
      → remove_file p w ≡ (next (good tt), record w { files = Fs.remove p w.files })
  unfolding remove_file
  remove_file_works p h = rw (system_call_works w calm, h)

  write_file_works :
      (p : FilePath)
      → write_file p content w ≡ (next (good tt), record w { files = Fs.put p content w.files })
  unfolding write_file
  write_file_works p = rw (
    system_call_works w calm,
    system_call_works (record w { files = Fs.put p [] w.files }) calm,
    put-put p content [] w.files,
  )

  pub put_works :
      Storage.put t filename content w
      ≡ (next (good tt), record w { files = Fs.put (stored_path t filename) content w.files })
  unfolding Storage.put
  put_works = rw (system_call_works w calm, write_file_works (stored_path t filename))

-- The files without an upload and its sidecar.
unfoldable pub without : Bytes → Bytes → Files → Files
without t filename files =
    Fs.remove (stored_path t filename) (Fs.remove (stored_path t (sidecar filename)) files)

pub delete_works :
    (t filename content side : Bytes) (w : World)
    → w.faults ≡ []
    → lookup (stored_path t filename) w.files ≡ some content
    → lookup (stored_path t (sidecar filename)) w.files ≡ some side
    → Storage.delete t filename w
      ≡ (next (good tt), record w { files = without t filename w.files })
unfolding Storage.delete without
delete_works t filename content side w calm h hs =
    let there : lookup (stored_path t filename)
          (Fs.remove (stored_path t (sidecar filename)) w.files)
        ≡ some content =
      lookup-remove _ (stored_path t filename) w.files ∙ rw (sidecar-ne t filename, h) in
    rw (
      remove_file_works t filename side w calm (stored_path t (sidecar filename)) hs,
      remove_file_works t filename content
          (record w { files = Fs.remove (stored_path t (sidecar filename)) w.files }) calm
          (stored_path t filename) there,
    )

pub lookup-without :
    (t filename : Bytes) (files : Files)
    → (lookup (stored_path t filename) (without t filename files) ≡ none)
      × (lookup (stored_path t (sidecar filename)) (without t filename files) ≡ none)
unfolding without
lookup-without t filename files = (
  lookup-remove (stored_path t filename) (stored_path t filename) _
      ∙ rw (eq_path_refl (stored_path t filename)),
  lookup-remove (stored_path t filename) (stored_path t (sidecar filename)) _
      ∙ rw (
        lookup-remove (stored_path t (sidecar filename)) (stored_path t (sidecar filename)) files,
        eq_path_refl (stored_path t (sidecar filename)),
        if_same (eq_path (stored_path t filename) (stored_path t (sidecar filename))),
      ),
)
  where
    if_same : (b : Bool) → ◌≡◌ {A = Option Bytes} (if b then none else none) none
    if_same true = refl
    if_same false = refl
