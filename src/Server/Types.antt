-- ===== src/Server/Types.antt =====
-- The records that are stored as JSON (metadata in handlers.go, uploadSession in resumable.go,
-- ownerEntry in owner.go, collectionData in collection.go), the settings of an instance, and what it calls outside this repository.
use send_to.Prelude.{
  ℕ, ◌≡◌, Bool, true, false, ◌&&◌, not, Option, some, List, ◌∷◌, Bytes, ◌==◌, all, has_prefix, ltb,
  codes,
}
use send_to.Prelude.Int.{ℤ}
use send_to.E2e.{Source}
use send_to.Server.Fs.{Files}

pub record Metadata : Type 0 where
  pub content_type : Bytes
  pub content_length : ℕ
  pub downloads : ℕ
  -- -1 is no limit
  pub max_downloads : ℤ
  -- the zero time is `none`
  pub max_date : Option ℕ
  pub deletion_token : Bytes
  pub encrypted : Bool
  pub decrypted_content_type : Bytes
  pub owner_hash : Bytes

pub record UploadSession : Type 0 where
  pub id : Bytes
  pub filename : Bytes
  pub content_type : Bytes
  pub total : ℕ
  pub max_days : ℤ
  pub max_downloads : ℤ
  pub owner_hash : Bytes
  pub created_at : ℕ

pub record OwnerEntry : Type 0 where
  pub url : Bytes
  pub delete_url : Bytes
  pub token : Bytes
  pub filename : Bytes
  pub size : ℕ
  pub content_type : Bytes
  pub encrypted : Bool
  pub max_downloads : Option ℤ
  pub expires_at : Option ℕ
  pub uploaded_at : ℕ

-- `collectionFile` and `collectionData` of collection.go
pub record CollectionFile : Type 0 where
  pub token : Bytes
  pub filename : Bytes
  pub size : ℕ
  pub content_type : Bytes
  pub encrypted : Bool

pub record CollectionData : Type 0 where
  pub name : Bytes
  pub files : List CollectionFile
  pub deletion_token : Bytes
  pub created_at : ℕ

-- A size of 0 is no limit; `upload_budget` is the burst of the per-address bucket in kilobytes.
pub record Config : Type 0 where
  pub max_upload_size : ℕ
  pub max_storage_size : ℕ
  pub max_temp_size : ℕ
  pub upload_budget : Option ℕ
  pub perform_clamav_prescan : Bool
  pub random_token_length : ℕ
  pub cache_max_age : ℕ

-- The headers that the handlers read; an absent header is the empty text.
pub record Headers : Type 0 where
  pub max_downloads : Bytes
  pub max_days : Bytes
  pub encrypt_password : Bytes
  pub owner_token : Bytes
  pub upload_length : Bytes
  pub content_range : Bytes
  pub range : Bytes
  pub if_none_match : Bytes
  pub decrypt_password : Bytes

-- `resolve` joins the parts of a path, escapes the filename and resolves it against the host that the
-- request arrived on (net/url).
pub record Request : Type 0 where
  pub headers : Headers
  pub resolve : List Bytes → Bytes

pub data ScanResult : Type 0 where
  clean infected scan_failed : ScanResult

-- neither `%`, `?`, `#` nor `:`, and no control character
abbrev pub is_plain : ℕ → Bool
is_plain c =
    not (c == b'%')
    && not (c == b'?')
    && not (c == b'#')
    && not (c == b':')
    && not (ltb c 32)
    && not (c == 127)

-- encoding/json at the stored records, crypto/sha256 (`etag_hash` is 16 bytes of it), OpenPGP,
-- golang.org/x/text (`sanitize`), bluemonday (`sanitize_html`), the name that `os.CreateTemp`
-- picks, the system's MIME table, net/url (a path that is not empty, its unescaping, and in
-- `parse_reference` the unescaped path of a reference, which is the text itself where it is plain
-- and names no host) and the ClamAV daemon. `encrypt` makes a message, which may break off;
-- `decrypt` opens one, and what it holds may break off.
pub record Env : Type 0 where
  pub encode_metadata : Metadata → Bytes
  pub decode_metadata : Bytes → Option Metadata
  pub encode_session : UploadSession → Bytes
  pub decode_session : Bytes → Option UploadSession
  pub encode_index : List OwnerEntry → Bytes
  pub decode_index : Bytes → Option (List OwnerEntry)
  pub encode_collection : CollectionData → Bytes
  pub decode_collection : Bytes → Option CollectionData
  pub url_path : Bytes → Option Bytes
  pub path_unescape : Bytes → Option Bytes
  pub parse_reference : Bytes → Option Bytes
  pub sha256_hex : Bytes → Bytes
  pub encrypt : Bytes → Bytes → Source
  pub decrypt : Bytes → Bytes → Option Source
  pub etag_hash : Bytes → Bytes
  pub temp_name : Files → Bytes
  pub sanitize : Bytes → Bytes
  pub content_type_for_filename : Bytes → Bytes
  pub to_lower : Bytes → Bytes
  pub trim_space : Bytes → Bytes
  pub sanitize_html : Bytes → Bytes
  pub scan : Bytes → ScanResult
  pub parse_reference_plain :
      (c : ℕ) (s : Bytes)
      → all is_plain (c ∷ s) ≡ true
      → has_prefix (codes "//") (c ∷ s) ≡ false
      → parse_reference (c ∷ s) ≡ some (c ∷ s)
  pub decode-encode_metadata : (m : Metadata) → decode_metadata (encode_metadata m) ≡ some m
  pub decode-encode_session : (s : UploadSession) → decode_session (encode_session s) ≡ some s
  pub decode-encode_index : (l : List OwnerEntry) → decode_index (encode_index l) ≡ some l
  pub decode-encode_collection :
      (d : CollectionData) → decode_collection (encode_collection d) ≡ some d
