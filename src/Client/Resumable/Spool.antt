-- ===== src/Client/Resumable/Spool.antt =====
-- A server that keeps the chunks it is sent, for concrete runs of the client.
use send_to.Prelude.{
  ℕ, ◌+◌, ◌≡◌, refl, Bool, true, false, ◌&&◌, Option, none, some, [], ◌++◌, Bytes, arith, codes,
  ltb, leb, ◌==◌, length,
}
use send_to.Client.Resumable.{Server, Response, UploadedFile, send_chunk}
use send_to.Client.Resumable.Finishes.{Accepts}

abbrev pub link : UploadedFile
link = record { url = codes "https://send.to/abc/a.txt"; delete_url = [] }

abbrev pub at_offset : ℕ → ℕ → Response
at_offset status o = record {
  status = status;
  upload_offset = some o;
  result = none;
  delete_header = [];
}

abbrev pub created : Response
created = record { status = 201; upload_offset = none; result = some link; delete_header = [] }

abbrev pub keep : Bool → Bool → ℕ → ℕ → Bytes → Bytes → Option Response × Bytes
keep true true start n body s = (some (at_offset 204 (start + n)), s ++ body)
keep true false start n body s = (some created, s ++ body)
keep false more start n body s = (some (at_offset 409 (length s)), s)

abbrev pub at_end : ℕ → ℕ → ℕ → Bytes → Bytes → Bool
at_end start n total body s =
    start == length s && ltb 0 n && length body == n && leb (start + n) total

abbrev pub spool_server : Server {0}
spool_server = record {
  State = Bytes;
  patch = λ start n total body s.
      keep (at_end start n total body.content s) (ltb (start + n) total) start n body.content s;
  session_status = λ s. (some (length s), s);
}

pub spool_server-Accepts : (total : ℕ) → Accepts spool_server total (λ s. s)
unfolding send_chunk
spool_server-Accepts total = record {
  patch_more = λ start n content s at size some_bytes below.
      let fits : at_end start n total content s ≡ true = ground arith in
      let more : ltb (start + n) total ≡ true = ground arith in
      (rw (fits, more) refl, rw (fits, more) refl);
  patch_last = λ start n content s at size some_bytes all.
      let fits : at_end start n total content s ≡ true = ground arith in
      let last : ltb (start + n) total ≡ false = ground arith in
      ((link, rw (fits, last) refl), rw (fits, last) refl);
}
