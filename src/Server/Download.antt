-- ===== src/Server/Download.antt =====
-- server/download.go and the parts of server/handlers.go and server/caching.go that a download uses.
pub mod Delivery
pub mod Ranges
mod Tests
use send_to.Prelude.{
  ℕ, zero, suc, ◌+◌, ◌-◌, ◌/◌, Bool, true, false, ◌&&◌, ◌||◌, not, Option, none, some, Bytes, codes,
  ltb, leb, if◌then◌else◌, length, take, contains,
}
use send_to.Prelude.Int.{ℤ, pos, negsuc}
use send_to.E2e.{Source, End, eof, failed}
use send_to.Range.{Range, parse_range}
use send_to.Server.Exec.{
  World, Fault, works, fails, Exec, Download, served, not_modified, pure, gets, modify, answer,
  refused, system_call, msg_not_found, msg_retrieve_failed, msg_decrypt_failed, ◌>>=◌, ◌>>◌,
}
use send_to.Server.Storage
use send_to.Server.Storage.{IoResult, good, missing, broken}
use send_to.Server.Types.{Env, Config, Headers, Metadata}
use send_to.Server.Lifecycle.{check_metadata, increase_download, is_unlimited}
use send_to.Server.Caching.{upload_etag, etag_matches, cache_control}
use send_to.Server.Upload.{is_unset, day}
use send_to.Server.Upload.Put.{complete}

unfoldable pub can_contains_xss : Bytes → Bool
can_contains_xss content_type =
    contains (codes "cache-manifest") content_type
    || contains (codes "html") content_type
    || contains (codes "rdf") content_type
    || contains (codes "vtt") content_type
    || contains (codes "xml") content_type
    || contains (codes "xsl") content_type
    || contains (codes "x-mixed-replace") content_type

-- i - d
abbrev sub_int : ℤ → ℕ → ℤ
sub_int (pos n) d = if leb d n then pos (n - d) else negsuc (d - suc n)
sub_int (negsuc n) d = negsuc (n + d)

-- `remainingLimitHeaderValues`; "n/a" is `none`. The date is not over where these are called.
abbrev pub remaining_downloads : Metadata → Option ℤ
remaining_downloads m =
    if is_unlimited m.max_downloads then none else some (sub_int m.max_downloads m.downloads)

abbrev pub remaining_days : ℕ → Option ℕ → Option ℕ
remaining_days now none = none
remaining_days now (some date) = some ((date - now) / day + 1)

-- the `Range` header, where there is one that can be parsed
unfoldable pub requested_range : Bytes → Option Range
requested_range header = if is_unset header then none else parse_range header

-- an accepted range limits the reader
abbrev pub limited : Option Range → Bytes → Bytes
limited none content = content
limited (some r) content =
    if not (is_unset r.content_range) && ltb 0 r.limit then take r.limit content else content

abbrev pub content_range_of : Option Range → Bytes
content_range_of none = codes ""
content_range_of (some r) = r.content_range

-- `rng != nil && rng.Start > 0`
abbrev starts_later : Option Range → Bool
starts_later none = false
starts_later (some r) = ltb 0 r.start

abbrev whole : IoResult Bytes → IoResult (Bytes × ℕ × Option Range)
whole missing = missing
whole broken = broken
whole (good content) = good (content, length content, none)

abbrev part : IoResult (Bytes × ℕ × Range) → IoResult (Bytes × ℕ × Option Range)
part missing = missing
part broken = broken
part (good (content, n, r)) = good (content, n, some r)

-- `storage.Get`
abbrev pub fetch : Bytes → Bytes → Option Range → Exec (IoResult (Bytes × ℕ × Option Range))
fetch t filename none = do got ← Storage.get t filename; pure (whole got)
fetch t filename (some r) = do got ← Storage.get_range t filename r; pure (part got)

abbrev count_download_error : Exec (Unit {0})
count_download_error =
    modify λ w. record w {
      metrics = record w.metrics { download_errors = w.metrics.download_errors + 1 };
    }

abbrev attach_html : (Bytes → Bytes) → Bool → Source → Source
attach_html sanitize_html sanitizing body =
    if sanitizing
    then record { content = sanitize_html body.content; ending = body.ending }
    else body

module _ (env : Env) (c : Config) (t filename : Bytes) where
  -- the 304, where the client already holds the upload
  unfoldable pub serve_not_modified : Headers → Metadata → Bool → Exec (Unit {0})
  serve_not_modified h m decrypting = do
    now ← gets (λ w. w.now)
    let etag = upload_etag env.etag_hash t filename m decrypting
    if etag_matches env.trim_space h.if_none_match etag
        then answer (not_modified etag (cache_control c.cache_max_age now m))
        else pure tt

  abbrev head_sized : Metadata → IoResult ℕ → Exec (Unit {0})
  head_sized m missing = answer (refused 404 msg_not_found none)
  head_sized m broken = answer (refused 500 msg_retrieve_failed none)
  head_sized m (good content_length) = do
    now ← gets (λ w. w.now)
    answer (
        served (record {
          status = 200;
          content_type = m.content_type;
          content_length = content_length;
          content_range = codes "";
          inline = false;
          etag = upload_etag env.etag_hash t filename m false;
          max_age = cache_control c.cache_max_age now m;
          remaining_downloads = remaining_downloads m;
          remaining_days = remaining_days now m.max_date;
          content = codes "";
          broken_off = false;
        }))

  abbrev head_with : Headers → Option Metadata → Exec (Unit {0})
  head_with h none = answer (refused 404 msg_not_found none)
  head_with h (some m) = do
    serve_not_modified h m false
    size ← Storage.head t filename
    head_sized m size

  unfoldable pub head_handler : Headers → Exec (Unit {0})
  head_handler h = do m ← check_metadata env c t filename; head_with h m

  -- A completed download is counted, unless it starts later or there is no limit.
  unfoldable pub count_download : Metadata → Option Range → Exec (Unit {0})
  count_download m rng =
      if starts_later rng || is_unlimited m.max_downloads
      then pure tt
      else do _ ← increase_download env c t filename; pure tt

  -- `io.Copy` to the client; a copy that fails has sent the first n bytes, and the error comes behind
  abbrev pub transferred : Metadata → Option Range → Download → End → Fault → Exec (Unit {0})
  transferred m rng d ending (fails n) = do
    count_download_error
    answer (served (record d { content = take n d.content; broken_off = true }))
  transferred m rng d failed works = do
    count_download_error
    answer (served (record d { broken_off = true }))
  transferred m rng d eof works = do
    modify λ w. record w {
      metrics = record w.metrics {
        downloads = w.metrics.downloads + 1;
        download_bytes = w.metrics.download_bytes + length d.content;
      };
    }
    count_download m rng
    answer (served d)

  -- from the decryption on
  abbrev pub deliver :
      Bool → Headers → Metadata → Option Range → ℕ → Option Source → Exec (Unit {0})
  deliver inline h m rng content_length none = answer (refused 500 msg_decrypt_failed none)
  deliver inline h m rng content_length (some body) = do
    now ← gets (λ w. w.now)
    fault ← system_call
    let decrypting = not (is_unset h.decrypt_password)
    let typed =
        if inline && is_unset (env.trim_space m.content_type)
        then codes "text/plain; charset=utf-8"
        else m.content_type
    let content_type = if m.encrypted && decrypting then m.decrypted_content_type else typed
    let sent = attach_html env.sanitize_html (inline && can_contains_xss content_type) body
    transferred m rng
        (record {
          status = if is_unset (content_range_of rng) then 200 else 206;
          content_type = content_type;
          content_length = if m.encrypted && decrypting then m.content_length else content_length;
          content_range = content_range_of rng;
          inline = inline;
          etag = upload_etag env.etag_hash t filename m decrypting;
          max_age = cache_control c.cache_max_age now m;
          remaining_downloads = remaining_downloads m;
          remaining_days = remaining_days now m.max_date;
          content = sent.content;
          broken_off = false;
        })
        sent.ending fault

  -- `attachDecryptionReader`
  abbrev pub decryption : Bytes → Bytes → Option Source
  decryption password content =
      if is_unset password then some (complete content) else env.decrypt password content

  abbrev pub fetched :
      Bool → Headers → Metadata → IoResult (Bytes × ℕ × Option Range) → Exec (Unit {0})
  fetched inline h m missing = answer (refused 404 msg_not_found none)
  fetched inline h m broken = do count_download_error; answer (refused 500 msg_retrieve_failed none)
  fetched inline h m (good (content, content_length, rng)) =
      deliver inline h m rng content_length (decryption h.decrypt_password (limited rng content))

  abbrev pub get_with : Bool → Headers → Option Metadata → Exec (Unit {0})
  get_with inline h none = answer (refused 404 msg_not_found none)
  get_with inline h (some m) = do
    serve_not_modified h m (not (is_unset h.decrypt_password))
    got ← fetch t filename (requested_range h.range)
    fetched inline h m got

  unfoldable pub get_handler : Bool → Headers → Exec (Unit {0})
  get_handler inline h = do m ← check_metadata env c t filename; get_with inline h m
