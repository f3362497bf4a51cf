-- ===== src/Server/Upload.antt =====
-- server/upload.go and server/token.go: the metadata of an upload, the scan, storing and the answer.
pub mod Put
use send_to.Prelude.{
  ℕ, zero, suc, ◌+◌, ◌*◌, ◌%◌, ◌^◌, Bool, true, false, Option, none, some, [], ◌∷◌, ◌++◌, Bytes,
  codes, ltb, ◌==◌, if◌then◌else◌,
}
use send_to.Prelude.Int.{ℤ, pos, negsuc}
use send_to.E2e.{Source, eof, failed}
use send_to.Prelude.Decimal.{parse_uint}
use send_to.Server.Exec.{
  Exec, UploadResult, refused, pure, gets, modify, answer, msg_max_downloads, msg_max_days,
  msg_max_days_too_large, msg_prescan_failed, msg_virus_found, upload_error, ◌>>=◌, ◌>>◌,
}
use send_to.Server.Storage
use send_to.Server.Storage.{IoResult, good, missing, broken, sidecar}
use send_to.Server.Types.{
  Env, Config, Headers, Request, Metadata, ScanResult, clean, infected, scan_failed,
}
use send_to.Server.Quota.{add_used}
use send_to.Server.Owner.{owner_hash_from_headers}

abbrev pub symbols : Bytes
symbols = codes "0123456789abcdefghijklmnopqrstuvwxyzABCDEFGHIJKLMNOPQRSTUVWXYZ"

abbrev pub symbol : Bytes → ℕ → ℕ
symbol [] i = 0
symbol (c ∷ s) zero = c
symbol (c ∷ s) (suc i) = symbol s i

-- `rand.Int(rand.Reader, 62)` for each symbol
token_from : (ℕ → ℕ) → ℕ → ℕ → Bytes
token_from random drawn zero = []
token_from random drawn (suc length) =
    symbol symbols (random drawn % 62) ∷ token_from random (drawn + 1) length

unfoldable pub token : ℕ → Exec Bytes
unfolding token_from
token length = do
  t ← gets (λ w. token_from w.random w.drawn length)
  modify (λ w. record w { drawn = w.drawn + length })
  pure t

-- `strconv.Atoi`: a sign, then digits, in the range of int64
unfoldable pub atoi : Bytes → Option ℤ
atoi [] = none
atoi (c ∷ s) =
    if c == b'-'
    then elim (parse_uint (2 ^ 63 + 1) s) [
      | none ↦ none
      | some zero ↦ some (pos 0)
      | some (suc n) ↦ some (negsuc n)
    ]
    else elim (parse_uint (2 ^ 63) (if c == b'+' then s else c ∷ s)) [
      | none ↦ none
      | some n ↦ some (pos n)
    ]

abbrev pub max_days_limit : ℕ
max_days_limit = 36500

abbrev pub day : ℕ
day = 24 * 3600

abbrev pub is_unset : Bytes → Bool
is_unset [] = true
is_unset (c ∷ s) = false

-- A limit header: absent, a positive number, or an error.
pub data Limit : Type 0 where
  unset bad : Limit
  at : ℕ → Limit

abbrev limit_of : Option ℤ → Limit
limit_of none = bad
limit_of (some (negsuc n)) = bad
limit_of (some (pos zero)) = bad
limit_of (some (pos (suc n))) = at (suc n)

unfoldable pub limit_header : Bytes → Limit
unfolding atoi
limit_header v = if is_unset v then unset else limit_of (atoi v)

abbrev downloads_limit : Limit → Exec ℤ
downloads_limit unset = pure (negsuc 0)
downloads_limit bad = upload_error 400 msg_max_downloads
downloads_limit (at n) = pure (pos n)

abbrev date_limit : Limit → ℕ → Exec (Option ℕ)
date_limit unset now = pure none
date_limit bad now = upload_error 400 msg_max_days
date_limit (at n) now =
    if ltb max_days_limit n
    then upload_error 400 msg_max_days_too_large
    else pure (some (now + n * day))

module _ (env : Env) (c : Config) where
  -- `metadataForHeaders`, and the 400 that each caller answers with its error
  unfoldable pub metadata_for_headers : Bytes → ℕ → Headers → Exec Metadata
  metadata_for_headers content_type content_length h = do
    first ← token c.random_token_length
    second ← token c.random_token_length
    max_downloads ← downloads_limit (limit_header h.max_downloads)
    now ← gets (λ w. w.now)
    max_date ← date_limit (limit_header h.max_days) now
    let encrypted = if is_unset h.encrypt_password then false else true
    pure (record {
      content_type =
          if encrypted then codes "text/plain; charset=utf-8" else env.to_lower content_type;
      content_length = content_length;
      downloads = 0;
      max_downloads = max_downloads;
      max_date = max_date;
      deletion_token = first ++ second;
      encrypted = encrypted;
      decrypted_content_type = if encrypted then env.to_lower content_type else [];
      owner_hash = owner_hash_from_headers env h;
    })

  abbrev scanned : ScanResult → Exec (Unit {0})
  scanned clean = pure tt
  scanned scan_failed = upload_error 500 msg_prescan_failed
  scanned infected = do
    modify (λ w. record w {
      metrics = record w.metrics { virus_scan_blocked = w.metrics.virus_scan_blocked + 1 };
    })
    answer (refused 412 msg_virus_found none)

  unfoldable pub prescan : Bytes → Exec (Unit {0})
  prescan content = if c.perform_clamav_prescan then scanned (env.scan content) else pure tt

  -- `attachEncryptionReader`: an error of the encryption comes out of its pipe as an error of reading, and
  -- what comes of it breaks off where the body does
  abbrev pub payload : Bytes → Source → Source
  payload password body =
      if is_unset password
      then body
      else (let sealed = env.encrypt password body.content in
          record {
            content = sealed.content;
            ending = elim body.ending [ eof ↦ sealed.ending | failed ↦ failed ];
          })

  abbrev pub after_payload : Bytes → Bytes → ℕ → IoResult (Unit {0}) → Exec (IoResult (Unit {0}))
  after_payload t filename content_length (good _) = do
    modify (λ w. record w {
      quota_used = add_used c w.quota_used content_length;
      metrics = record w.metrics {
        uploads = w.metrics.uploads + 1;
        upload_bytes = w.metrics.upload_bytes + content_length;
      };
    })
    pure (good tt)
  after_payload t filename content_length missing = do _ ← Storage.delete t filename; pure missing
  after_payload t filename content_length broken = do _ ← Storage.delete t filename; pure broken

  abbrev pub after_sidecar :
      Bytes → Bytes → Source → ℕ → IoResult (Unit {0}) → Exec (IoResult (Unit {0}))
  after_sidecar t filename body content_length (good _) = do
    put ← Storage.put_from t filename body
    after_payload t filename content_length put
  after_sidecar t filename body content_length missing = pure missing
  after_sidecar t filename body content_length broken = pure broken

  -- `store`: the sidecar, the payload, and the counters; a payload that fails takes both away again
  unfoldable pub store : Bytes → Bytes → Source → ℕ → Metadata → Bytes → Exec (IoResult (Unit {0}))
  store t filename body content_length m password = do
    put ← Storage.put t (sidecar filename) (env.encode_metadata m)
    after_sidecar t filename (payload password body) content_length put

unfoldable pub new_upload_result : Request → Bytes → Bytes → Metadata → UploadResult
new_upload_result r t filename m = record {
  url = r.resolve (t ∷ filename ∷ []);
  delete_url = r.resolve (t ∷ filename ∷ m.deletion_token ∷ []);
  filename = filename;
  size = m.content_length;
  content_type = if m.encrypted then m.decrypted_content_type else m.content_type;
  encrypted = m.encrypted;
  max_downloads = elim m.max_downloads [
    | negsuc zero ↦ none
    | negsuc (suc n) ↦ some (negsuc (suc n))
    | pos n ↦ some (pos n)
  ];
  expires_at = m.max_date;
}
