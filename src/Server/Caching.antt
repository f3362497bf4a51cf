-- ===== src/Server/Caching.antt =====
-- server/caching.go: what a cache may keep of an upload, and for how long. Times are in seconds.
use send_to.Prelude.{
  ℕ, ◌+◌, ◌-◌, ◌≤◌, ◌≡◌, Bool, true, false, ◌||◌, not, Option, none, some, List, [], ◌∷◌, ◌++◌,
  Bytes, arith, codes, eq_bytes, ltb, leb, ◌==◌, if◌then◌else◌,
}
use send_to.Prelude.Decimal.{format}
use send_to.Server.Types.{Metadata}
use send_to.Server.Lifecycle.{is_unlimited}
use send_to.Server.Redact.{split, trim_prefix}

-- `strconv.FormatBool`
abbrev format_bool : Bool → Bytes
format_bool true = codes "true"
format_bool false = codes "false"

-- `hash` is `hex.EncodeToString(sum[:16])` of the SHA-256 sum
unfoldable pub upload_etag : (Bytes → Bytes) → Bytes → Bytes → Metadata → Bool → Bytes
upload_etag hash t filename m decrypting =
    b'"'
    ∷ (hash (t ++ 0 ∷ (filename ++ 0 ∷ (format m.content_length ++ 0 ∷ format_bool decrypting)))
        ++ b'"' ∷ [])

any_candidate : (Bytes → Bytes) → Bytes → List Bytes → Bool
any_candidate trim_space want [] = false
any_candidate trim_space want (c ∷ cs) =
    let rest = any_candidate trim_space want cs in
    let candidate = trim_space c in
    eq_bytes candidate (b'*' ∷ []) || eq_bytes (trim_prefix (codes "W/") candidate) want || rest

unfoldable pub etag_matches : (Bytes → Bytes) → Bytes → Bytes → Bool
unfolding any_candidate
etag_matches trim_space [] etag = false
etag_matches trim_space (c ∷ if_none_match) etag =
    any_candidate trim_space (trim_prefix (codes "W/") etag) (split b',' (c ∷ if_none_match))

abbrev until_date : ℕ → ℕ → Option ℕ → Option ℕ
until_date max_age now none = some max_age
until_date max_age now (some date) =
    if leb date now
    then none
    else if ltb (date - now) max_age
    then some (date - now)
    else some max_age

-- `no-store` is `none`, and a number of seconds is `public, max-age=…, immutable`.
unfoldable pub cache_control : ℕ → ℕ → Metadata → Option ℕ
cache_control max_age now m =
    if max_age == 0 || not (is_unlimited m.max_downloads) || m.encrypted
    then none
    else until_date max_age now m.max_date

-- What a cache may keep is an upload without a download limit that the server has not encrypted, for
-- no longer than the instance allows, and no longer than the upload lives.
pub cache_control_lem :
    (max_age now date age : ℕ) (m : Metadata)
    → m.max_date ≡ some date
    → cache_control max_age now m ≡ some age
    → (age ≤ max_age)
      × (now + age ≤ date)
      × (is_unlimited m.max_downloads ≡ true)
      × (m.encrypted ≡ false)
unfolding cache_control
cache_control_lem max_age now date age m dated kept = ground arith
