-- ===== src/Client/Resumable/Tests.antt =====
-- The client's loop against a server that keeps the chunks it is sent.
use send_to.Prelude.{
  ℕ, ◌+◌, ◌-◌, ◌≡◌, refl, Bool, true, false, [], Bytes, arith, codes, ltb, length, length-append,
}
use send_to.Client.Resumable.{send_chunk, upload_session}
use send_to.Client.Resumable.Spool.{spool_server, spool_server-Accepts, at_end, keep}
use send_to.Client.Resumable.Ends.{Advanced, Advances, Ends, upload_session-Ends}
use send_to.Client.Resumable.Finishes.{upload_session-Finishes, Done, file_from}

spool_server-Advances : (total : ℕ) → Advances spool_server total (λ s. total - length s)
unfolding send_chunk
spool_server-Advances total = record {
  patch = λ start n body s.
      kept start n body.content s (at_end start n total body.content s) (ltb (start + n) total) refl
        refl;
  session_status = λ s. omega arith;
}
  where
    kept :
        (start n : ℕ) (body s : Bytes) (fits more : Bool)
        → at_end start n total body s ≡ fits
        → ltb (start + n) total ≡ more
        → Advanced
            (send_chunk (keep fits more start n body s).0)
            (total - length s)
            (total - length (keep fits more start n body s).1)
    kept start n body s true true fits more = ground (arith, length-append s body)
    kept start n body s true false fits more = ground (arith, length-append s body)
    kept start n body s false more fits e = omega arith

abbrev hello : Bytes
hello = codes "hello"

upload_session-Ends_example : Ends (upload_session spool_server 5 (file_from hello) 30 0 0 [])
upload_session-Ends_example =
    upload_session-Ends spool_server 5 (file_from hello) (λ s. 5 - length s)
      (spool_server-Advances 5) 30 0 0 [] (omega arith) (omega arith)

upload_session-Finishes_example :
    Done spool_server hello
      (λ s. s)
      (upload_session spool_server 5 (file_from hello) 3 0 2 (codes "he"))
upload_session-Finishes_example =
    upload_session-Finishes spool_server hello (λ s. s) (spool_server-Accepts 5) 3 0 2 (codes "he")
      refl (omega arith) (omega arith)
