-- ===== src/Client/Download/Whole.antt =====
-- cmd/send/main.go: with a server that goes on where the partial file ends, the file that `get` saves is
-- the whole file, after any number of runs that have failed anywhere.
use send_to.Prelude.{
  ℕ, ◌≡◌, ◌≢◌, refl, ap, sym, ◌∙◌, subst, Bool, Option, none, some, Bytes, arith, length, take-all,
  eq_bytes_iff, eq_bytes_refl,
}
use send_to.E2e.{
  Aead, MetaJson, E2eMetadata, Result, ok, err, Outcome, complete, stopped, e2e_decrypt,
}
use send_to.E2e.Steps.{all_of}
use send_to.Server.Exec.{Fault, works, fails}
use send_to.Client.Disk
use send_to.Client.Disk.{Disk, lookup, lookup-put, lookup-remove}
use send_to.Client.Download.{
  GetResponse, GetCalls, GetError, not_opened, GetResult, saved_to, get_failed, Downloaded, copied,
  download_failed, download, part_of, dest_of, downloaded, run_get, decrypt_file, rename_part,
  complete_part, decrypt_to, write_plain, closed_dest, written_dest, decrypt_opened, get_opened,
}
use send_to.Client.Download.Copied.{
  Honours, IsBeginning, opened_part-IsBeginning, Comes, length-beginning, download-Comes,
}

module _ (aead : Aead) (json : MetaJson) (base : Bytes → Bytes) (dest : Bytes) (explicit : Bool)
    (file : Bytes) where
  -- What a run leaves. Saved without a key: the whole file under its name; with a key: what the whole
  -- file is decrypted to, under the name that it has. Failed: a partial file that can be gone on with.
  abbrev pub IsSaved : Option Bytes → GetResult → Disk → Type 0
  IsSaved none (saved_to d) disk = (d ≡ dest) × (lookup d disk ≡ some file)
  IsSaved (some key) (saved_to d) disk =
      (meta : E2eMetadata) × (content : Bytes) × (e2e_decrypt aead json (all_of file) key
        ≡ ok (meta, (content, complete)))
      × (d ≡ dest_of aead json base dest explicit meta)
      × (lookup d disk ≡ some content)
  IsSaved key (get_failed e) disk = IsBeginning file (lookup (part_of dest) disk)

  abbrev Leaves : Option Bytes → GetResult × Disk → Type 0
  Leaves key x = IsSaved key x.0 x.1

  put_part-IsBeginning :
      (content : Bytes) (disk : Disk)
      → IsBeginning file (some content)
      → IsBeginning file (lookup (part_of dest) (Disk.put (part_of dest) content disk))
  put_part-IsBeginning content disk h =
      let self : lookup (part_of dest) (Disk.put (part_of dest) content disk) ≡ some content =
        rw (lookup-put (part_of dest) (part_of dest) content disk, eq_bytes_refl (part_of dest)) in
      rw self h

  remove_other-IsBeginning :
      (d : Bytes) (disk : Disk)
      → d ≢ part_of dest
      → IsBeginning file (lookup (part_of dest) disk)
      → IsBeginning file (lookup (part_of dest) (Disk.remove d disk))
  remove_other-IsBeginning d disk other h =
      let same : lookup (part_of dest) (Disk.remove d disk) ≡ lookup (part_of dest) disk =
        ground (arith, lookup-remove d (part_of dest) disk, eq_bytes_iff d (part_of dest)) in
      rw same h

  -- With a key: the name under which the decrypted file is saved is not that of the partial file.
  abbrev pub IsApart : Option Bytes → Type 0
  IsApart none = Unit
  IsApart (some key) =
      (meta : E2eMetadata) (plain : Bytes × Outcome)
      → e2e_decrypt aead json (all_of file) key ≡ ok (meta, plain)
      → dest_of aead json base dest explicit meta ≢ part_of dest

  rename_part-Leaves :
      (disk : Disk) (rename : Fault)
      → IsBeginning file (lookup (part_of dest) disk)
      → Leaves none (rename_part aead json base dest file disk rename)
  rename_part-Leaves disk (fails n) h = h
  rename_part-Leaves disk works h =
      (refl, rw (lookup-put dest dest file (Disk.remove (part_of dest) disk), eq_bytes_refl dest))

  module _ (key : Bytes) (calls : GetCalls) (disk : Disk) (apart : IsApart (some key))
      (h : IsBeginning file (lookup (part_of dest) disk)) where
    closed_dest-Leaves :
        (meta : E2eMetadata) (content : Bytes) (close : Fault)
        → e2e_decrypt aead json (all_of file) key ≡ ok (meta, (content, complete))
        → Leaves (some key) (
            closed_dest aead json base close
              (part_of dest)
              (dest_of aead json base dest explicit meta)
              (Disk.put (dest_of aead json base dest explicit meta) content disk))
    closed_dest-Leaves meta content (fails n) plain =
        let d = dest_of aead json base dest explicit meta in
        let same : lookup (part_of dest) (Disk.put d content disk) ≡ lookup (part_of dest) disk =
          ground (
            arith,
            lookup-put d (part_of dest) content disk,
            eq_bytes_iff d (part_of dest),
            apart meta (content, complete) plain,
          ) in
        rw same h
    closed_dest-Leaves meta content works plain =
        let d = dest_of aead json base dest explicit meta in
        let kept : lookup d (Disk.remove (part_of dest) (Disk.put d content disk)) ≡ some content =
          ground (
            arith,
            lookup-remove (part_of dest) d (Disk.put d content disk),
            lookup-put d d content disk,
            eq_bytes_refl d,
            eq_bytes_iff (part_of dest) d,
            apart meta (content, complete) plain,
          ) in
        (meta, content, plain, refl, kept)

    written_dest-Leaves :
        (meta : E2eMetadata) (content : Bytes) (write : Fault)
        → e2e_decrypt aead json (all_of file) key ≡ ok (meta, (content, complete))
        → Leaves (some key) (
            written_dest aead json base calls
              (part_of dest)
              (dest_of aead json base dest explicit meta)
              content
              disk
              write)
    written_dest-Leaves meta content works plain =
        closed_dest-Leaves meta content calls.close_dest plain
    written_dest-Leaves meta content (fails n) plain =
        remove_other-IsBeginning _ disk (apart meta (content, complete) plain) h

    write_plain-Leaves :
        (meta : E2eMetadata) (plain : Bytes × Outcome) (create : Fault)
        → e2e_decrypt aead json (all_of file) key ≡ ok (meta, plain)
        → Leaves (some key) (
            write_plain aead json base calls
              (part_of dest)
              (dest_of aead json base dest explicit meta)
              plain
              disk
              create)
    write_plain-Leaves meta plain (fails n) e = h
    write_plain-Leaves meta (content, stopped why) works e =
        remove_other-IsBeginning _ disk (apart meta (content, stopped why) e) h
    write_plain-Leaves meta (content, complete) works e =
        written_dest-Leaves meta content calls.write_dest e

    decrypt_to-Leaves :
        (x : Result (E2eMetadata × (Bytes × Outcome)))
        → e2e_decrypt aead json (all_of file) key ≡ x
        → Leaves (some key) (decrypt_to aead json base calls (part_of dest) dest explicit x disk)
    decrypt_to-Leaves (err e) plain = h
    decrypt_to-Leaves (ok (meta, content)) plain =
        write_plain-Leaves meta content calls.create_dest plain

    decrypt_opened-Leaves :
        (open_in : Fault)
        → Leaves
            (some key)
            (decrypt_opened aead json base calls dest explicit key file disk open_in)
    decrypt_opened-Leaves (fails n) = h
    decrypt_opened-Leaves works = decrypt_to-Leaves _ refl

  complete_part-Leaves :
      (key : Option Bytes) (calls : GetCalls) (disk : Disk) (close : Fault)
      → IsApart key
      → IsBeginning file (lookup (part_of dest) disk)
      → Leaves key (complete_part aead json base calls dest explicit key file disk close)
  unfolding decrypt_file
  complete_part-Leaves none calls disk (fails n) apart h = h
  complete_part-Leaves (some key) calls disk (fails n) apart h = h
  complete_part-Leaves none calls disk works apart h = rename_part-Leaves disk calls.rename h
  complete_part-Leaves (some key) calls disk works apart h =
      decrypt_opened-Leaves key calls disk apart h calls.open_in

  failed-Leaves :
      (key : Option Bytes) (e : GetError) (disk : Disk)
      → IsBeginning file (lookup (part_of dest) disk)
      → Leaves key (get_failed e, disk)
  failed-Leaves none e disk h = h
  failed-Leaves (some key) e disk h = h

  failed-IsBeginning :
      (key : Option Bytes) (e : GetError) (disk : Disk)
      → IsSaved key (get_failed e) disk
      → IsBeginning file (lookup (part_of dest) disk)
  failed-IsBeginning none e disk h = h
  failed-IsBeginning (some key) e disk h = h

  downloaded-Leaves :
      (key : Option Bytes) (calls : GetCalls) (disk : Disk) (o : ℕ) (x : Downloaded × Bytes)
      → IsApart key
      → Comes file o x
      → Leaves key (downloaded aead json base calls dest explicit key o x disk)
  downloaded-Leaves key calls disk o (download_failed e, content) apart come =
      failed-Leaves key e _ (put_part-IsBeginning content disk come)
  downloaded-Leaves key calls disk o (copied resumed, content) apart (goes_on, all) =
      subst
        (λ s.
          Leaves key (downloaded aead json base calls dest explicit key o (copied resumed, s) disk))
        (sym all)
        (rw goes_on (
          complete_part-Leaves key calls (Disk.put (part_of dest) file disk) calls.close_part apart
            (put_part-IsBeginning file disk
              (length file, omega arith, sym (take-all (length file) file (omega arith))))))

  get_opened-Leaves :
      (key : Option Bytes) (calls : GetCalls) (disk : Disk) (respond : ℕ → Option GetResponse)
      (before : Bytes) (fault : Fault)
      → IsApart key
      → Honours file respond
      → IsBeginning file (some before)
      → IsBeginning file (lookup (part_of dest) disk)
      → Leaves key (get_opened aead json base calls dest explicit key respond before disk fault)
  get_opened-Leaves key calls disk respond before (fails n) apart honours begins h =
      failed-Leaves key not_opened disk h
  get_opened-Leaves key calls disk respond before works apart honours (n, within, same) h =
      let size : length before ≡ n = ap length same ∙ length-beginning file n within in
      let come : Comes file (length before)
          (download calls.write_part (respond (length before)) before) =
        subst (λ k. Comes file k (download calls.write_part (respond k) before)) (sym size)
          (subst (λ s. Comes file n (download calls.write_part (respond n) s)) (sym same)
            (download-Comes file calls.write_part n (respond n) within (honours n within))) in
      downloaded-Leaves key calls disk (length before) _ apart come

  run_get-IsSaved :
      (key : Option Bytes) (calls : GetCalls) (no_resume : Bool) (respond : ℕ → Option GetResponse)
      (disk : Disk)
      → IsApart key
      → Honours file respond
      → IsBeginning file (lookup (part_of dest) disk)
      → Leaves key (run_get aead json base calls dest explicit no_resume key respond disk)
  unfolding run_get
  run_get-IsSaved key calls no_resume respond disk apart honours h =
      get_opened-Leaves key calls disk respond _ calls.open_part apart honours
        (opened_part-IsBeginning file no_resume (lookup (part_of dest) disk) h) h

  -- The files of the user after any number of runs that have failed, from where there is no partial file.
  pub data AfterFailures (key : Option Bytes) : Disk → Type 0 where
    none_yet : (disk : Disk) → lookup (part_of dest) disk ≡ none → AfterFailures key disk
    again :
        {disk disk' : Disk} (calls : GetCalls) (no_resume : Bool) (respond : ℕ → Option GetResponse)
        (e : GetError)
        → AfterFailures key disk
        → Honours file respond
        → run_get aead json base calls dest explicit no_resume key respond disk
          ≡ (get_failed e, disk')
        → AfterFailures key disk'

  AfterFailures-IsBeginning :
      (key : Option Bytes) {disk : Disk}
      → IsApart key
      → AfterFailures key disk
      → IsBeginning file (lookup (part_of dest) disk)
  AfterFailures-IsBeginning key apart (none_yet disk h) = rw h tt
  AfterFailures-IsBeginning key apart (again {disk} calls no_resume respond e runs honours ran) =
      failed-IsBeginning key e _ (
        subst (Leaves key) ran (
          run_get-IsSaved key calls no_resume respond disk apart honours
            (AfterFailures-IsBeginning key apart runs)))

  -- After any number of runs that have failed anywhere, a run that saves a file has saved the whole
  -- one: without a key the file of the server under the name that was asked for, with a key what it
  -- is decrypted to in full, under the name that was given or that its metadata has. Every response
  -- goes on from where the partial file ends or is an error, and may break off; with a key, the name
  -- that the decrypted file is saved under is not that of the partial file.
  pub run_get-whole :
      (key : Option Bytes) {disk disk' : Disk} (calls : GetCalls) (no_resume : Bool)
      (respond : ℕ → Option GetResponse) (d : Bytes)
      → IsApart key
      → AfterFailures key disk
      → Honours file respond
      → run_get aead json base calls dest explicit no_resume key respond disk ≡ (saved_to d, disk')
      → IsSaved key (saved_to d) disk'
  run_get-whole key {disk} calls no_resume respond d apart runs honours ran =
      subst (Leaves key) ran (
        run_get-IsSaved key calls no_resume respond disk apart honours
          (AfterFailures-IsBeginning key apart runs))
