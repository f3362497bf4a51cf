-- ===== src/Server/Owner.antt =====
-- server/owner.go: the uploads of an owner, listed in one object under the token `.owners`.
pub mod Frame
use send_to.Prelude.{
  ℕ, Bool, true, false, ◌&&◌, Option, none, some, List, [], ◌∷◌, ◌++◌, Bytes, codes, eq_bytes, ltb,
  ◌==◌, if◌then◌else◌, length, take,
}
use send_to.Server.Exec.{
  Exec, answer, refused, listed, msg_owner_list_failed, msg_owner_token_short, ◌>>◌, pure, gets,
  ◌>>=◌,
}
use send_to.Server.Storage
use send_to.Server.Storage.{IoResult, sidecar, good, missing, broken}
use send_to.Server.Types.{Env, Headers, Metadata, OwnerEntry}
use send_to.Server.Exec.{UploadResult}

abbrev pub owner_index_token : Bytes
owner_index_token = codes ".owners"

abbrev pub owner_index_limit : ℕ
owner_index_limit = 200

abbrev pub owner_token_min_length : ℕ
owner_token_min_length = 22

abbrev pub owner_index_name : Bytes → Bytes
owner_index_name hash = hash ++ codes ".json"

abbrev pub is_empty : {A : Type 0} → List A → Bool
is_empty [] = true
is_empty (x ∷ xs) = false

-- the entries but those of this upload
unfoldable pub without_upload : Bytes → Bytes → List OwnerEntry → List OwnerEntry
without_upload token filename [] = []
without_upload token filename (e ∷ entries) =
    let kept = without_upload token filename entries in
    if eq_bytes e.token token && eq_bytes e.filename filename then kept else e ∷ kept

module _ (env : Env) where
  unfoldable pub owner_hash_from_headers : Headers → Bytes
  owner_hash_from_headers h =
      let secret = env.trim_space h.owner_token in
      if ltb (length secret) owner_token_min_length then [] else env.sha256_hex secret

  abbrev decoded_index : Option (List OwnerEntry) → IoResult (List OwnerEntry)
  decoded_index none = broken
  decoded_index (some entries) = good entries

  -- A missing index is an empty one.
  abbrev index_of : IoResult Bytes → IoResult (List OwnerEntry)
  index_of missing = good []
  index_of broken = broken
  index_of (good content) = decoded_index (env.decode_index content)

  unfoldable pub read_owner_index : Bytes → Exec (IoResult (List OwnerEntry))
  read_owner_index hash = do
    object ← Storage.get owner_index_token (owner_index_name hash)
    pure (index_of object)

  unfoldable pub write_owner_index : Bytes → List OwnerEntry → Exec (IoResult (Unit {0}))
  write_owner_index hash entries =
      Storage.put owner_index_token (owner_index_name hash)
        (env.encode_index (take owner_index_limit entries))

  abbrev pub entry_of : UploadResult → Bytes → ℕ → OwnerEntry
  entry_of result upload_token now = record {
    url = result.url;
    delete_url = result.delete_url;
    token = upload_token;
    filename = result.filename;
    size = result.size;
    content_type = result.content_type;
    encrypted = result.encrypted;
    max_downloads = result.max_downloads;
    expires_at = result.expires_at;
    uploaded_at = now;
  }

  abbrev pub record_in : Bytes → OwnerEntry → IoResult (List OwnerEntry) → Exec (Unit {0})
  record_in hash entry (good entries) = do _ ← write_owner_index hash (entry ∷ entries); pure tt
  record_in hash entry missing = pure tt
  record_in hash entry broken = pure tt

  -- Best effort: no error reaches the request.
  unfoldable pub record_ownership : UploadResult → Metadata → Bytes → Exec (Unit {0})
  record_ownership result m upload_token = if is_empty m.owner_hash then pure tt else do
    entries ← read_owner_index m.owner_hash
    now ← gets (λ w. w.now)
    record_in m.owner_hash (entry_of result upload_token now) entries

  abbrev pub forget_in : Bytes → Bytes → Bytes → IoResult (List OwnerEntry) → Exec (Unit {0})
  forget_in hash upload_token filename (good entries) =
      let kept = without_upload upload_token filename entries in
      if length kept == length entries then pure tt else do _ ← write_owner_index hash kept; pure tt
  forget_in hash upload_token filename missing = pure tt
  forget_in hash upload_token filename broken = pure tt

  unfoldable pub forget_ownership : Bytes → Bytes → Bytes → Exec (Unit {0})
  forget_ownership hash upload_token filename =
      if is_empty hash
      then pure tt
      else do entries ← read_owner_index hash; forget_in hash upload_token filename entries

  abbrev kept_if : OwnerEntry → IoResult ℕ → List OwnerEntry → List OwnerEntry
  kept_if e (good size) rest = e ∷ rest
  kept_if e missing rest = rest
  kept_if e broken rest = rest

  -- the entries whose sidecar is found
  unfoldable pub live_entries : List OwnerEntry → Exec (List OwnerEntry)
  live_entries [] = pure []
  live_entries (e ∷ entries) = do
    found ← Storage.head e.token (sidecar e.filename)
    rest ← live_entries entries
    pure (kept_if e found rest)

  abbrev listing : Bytes → IoResult (List OwnerEntry) → Exec (Unit {0})
  listing hash missing = answer (refused 500 msg_owner_list_failed none)
  listing hash broken = answer (refused 500 msg_owner_list_failed none)
  listing hash (good entries) = do
    live ← live_entries entries
    if length live == length entries then pure tt else do _ ← write_owner_index hash live; pure tt
    answer (listed live)

  -- `ownerFilesHandler`: the entries whose upload is gone are dropped from the list.
  unfoldable pub owner_files_handler : Headers → Exec (Unit {0})
  owner_files_handler h =
      let hash = owner_hash_from_headers h in
      if is_empty hash
      then answer (refused 400 msg_owner_token_short none)
      else do entries ← read_owner_index hash; listing hash entries
