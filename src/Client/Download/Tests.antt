-- ===== src/Client/Download/Tests.antt =====
-- An encrypted download that breaks off, and the run that goes on with it; the name of the file is the
-- one in its metadata.
use send_to.Prelude.{
  ℕ, ◌≡◌, refl, ap, sym, ◌∙◌, subst, false, Option, none, some, [], ◌∷◌, ◌++◌, Bytes, arith, codes,
  eq_bytes, length, take, drop, replicate,
}
use send_to.E2e.{
  E2eStream, E2eMetadata, Result, ok, err, Outcome, complete, eof, failed, e2e_decrypt,
  encrypt_chunks, decrypt_chunks, e2e_nonce, be16,
}
use send_to.E2e.Steps.{all_of, head_bytes, body_bytes}
use send_to.E2e.Toy.{toy_aead, toy_json, toy_seal, toy_unseal, double, halve, tag}
use send_to.Server.Exec.{works}
use send_to.Client.Disk
use send_to.Client.Disk.{Disk, lookup}
use send_to.Client.Download.{
  GetResponse, GetCalls, saved_to, get_failed, broken_off, download, part_of, dest_of, run_get,
  decrypt_file,
}
use send_to.Client.Download.Copied.{rest, whole, broken}
use send_to.Client.Download.Whole.{none_yet, again, IsApart, IsSaved, run_get-whole}

abbrev hello : Bytes
hello = codes "hello"

abbrev note : Bytes
note = codes "a.txt"

abbrev stream : E2eStream
stream = record {
  key = replicate 32 9;
  prefix = codes "1234567";
  meta = record { name = codes "b.txt"; media_type = [] };
}

abbrev sealed : Bytes
sealed = head_bytes toy_aead toy_json stream ++ body_bytes toy_aead toy_json stream hello

abbrev calm : GetCalls
calm = record {
  open_part = works;
  write_part = works;
  close_part = works;
  open_in = works;
  create_dest = works;
  write_dest = works;
  close_dest = works;
  rename = works;
}

-- the connection breaks behind two bytes
abbrev breaks : ℕ → Option GetResponse
breaks o =
    some
      (record { status = 206; body = record { content = take 2 (drop o sealed); ending = failed } })

abbrev serves : ℕ → Option GetResponse
serves o = some (record { status = 206; body = record { content = drop o sealed; ending = eof } })

decrypted :
    e2e_decrypt toy_aead toy_json (all_of sealed) stream.key ≡ ok (stream.meta, (hello, complete))
unfolding e2e_decrypt decrypt_chunks head_bytes body_bytes encrypt_chunks toy_seal toy_unseal double
    halve tag be16 e2e_nonce eq_bytes
decrypted = refl

abbrev meta_of : Result (E2eMetadata × (Bytes × Outcome)) → E2eMetadata
meta_of (ok (meta, plain)) = meta
meta_of (err e) = stream.meta

apart : IsApart toy_aead toy_json (λ s. s) note false sealed (some stream.key)
apart meta plain found same =
    let named : meta ≡ stream.meta = sym (ap meta_of (sym decrypted ∙ found)) in
    let names : codes "b.txt" ≡ part_of note =
      subst (λ m. dest_of toy_aead toy_json (λ s. s) note false m ≡ part_of note) named same in
    let sizes : ◌≡◌ {A = ℕ} 5 10 = ap length names in absurd (omega arith)

first_run :
    run_get toy_aead toy_json (λ s. s) calm note false false (some stream.key) breaks []
    ≡ (get_failed broken_off, (part_of note, take 2 sealed) ∷ [])
unfolding run_get download Disk.put lookup
first_run = refl

second_run :
    run_get toy_aead toy_json
      (λ s. s)
      calm
      note
      false
      false
      (some stream.key)
      serves
      ((part_of note, take 2 sealed) ∷ [])
    ≡ (saved_to (codes "b.txt"), (codes "b.txt", hello) ∷ [])
unfolding run_get download decrypt_file Disk.put Disk.remove lookup eq_bytes e2e_decrypt
    decrypt_chunks head_bytes body_bytes encrypt_chunks toy_seal toy_unseal double halve tag be16
    e2e_nonce
second_run = refl

-- without a key, under the name that was asked for
plain_run :
    run_get toy_aead toy_json
      (λ s. s)
      calm
      note
      false
      false
      none
      serves
      ((part_of note, take 2 sealed) ∷ [])
    ≡ (saved_to note, (note, sealed) ∷ [])
unfolding run_get download Disk.put Disk.remove lookup eq_bytes head_bytes body_bytes encrypt_chunks
    toy_seal double tag be16 e2e_nonce
plain_run = refl

run_get-whole_example :
    IsSaved toy_aead toy_json
      (λ s. s)
      note
      false
      sealed
      (some stream.key)
      (saved_to (codes "b.txt"))
      ((codes "b.txt", hello) ∷ [])
unfolding lookup
run_get-whole_example =
    run_get-whole toy_aead toy_json (λ s. s) note false sealed (some stream.key) calm false serves
      (codes "b.txt") apart
      (again calm false breaks broken_off (none_yet [] refl) (λ o within. rest (broken 2))
        first_run)
      (λ o within. rest whole) second_run
