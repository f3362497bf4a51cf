-- ===== src/Server/Collection.antt =====
-- server/collection.go: collections of uploads. The page for a browser and the URLs of the answers are
-- left out: an answer holds the collection itself.
pub mod Created
pub mod Deleted
mod Tests
use send_to.Prelude.{
  ℕ, ◌+◌, Bool, true, false, ◌&&◌, ◌||◌, Option, none, some, List, [], ◌∷◌, ◌++◌, Bytes, codes,
  eq_bytes, ltb, ◌==◌, if◌then◌else◌, length, take, contains,
}
use send_to.Server.Exec.{
  World, Exec, pure, gets, modify, answer, refused, plain, collected, redirected,
  msg_collection_body, msg_collection_empty, msg_collection_full, msg_not_a_share_link,
  msg_file_unavailable, msg_collection_failed, msg_collection_delete, msg_not_found,
  msg_internal_error, ◌>>=◌, ◌>>◌,
}
use send_to.Server.Storage
use send_to.Server.Storage.{IoResult, good, missing, broken}
use send_to.Server.Types.{Env, Config, Metadata, CollectionFile, CollectionData}
use send_to.Server.Lifecycle.{check_metadata}
use send_to.Server.Upload.{token, is_unset}
use send_to.Server.Archive.{resolve_key, cut}
use send_to.Server.Redact.{split}

abbrev pub collection_object : Bytes
collection_object = codes "collection.json"

abbrev pub collection_max_files : ℕ
collection_max_files = 100

abbrev before_cut : Bytes → Option (Bytes × Bytes) → Bytes
before_cut s none = s
before_cut s (some (before, after)) = before

-- `strings.Trim(ref, "/")`
unfoldable pub trim_right : Bytes → Bytes
trim_right [] = []
trim_right (c ∷ s) =
    let rest = trim_right s in if is_unset rest && (c == b'/') then [] else c ∷ rest

trim_slashes : Bytes → Bytes
unfolding trim_right
trim_slashes [] = []
trim_slashes (c ∷ s) = let rest = trim_slashes s in if c == b'/' then rest else trim_right (c ∷ s)

last_two : List Bytes → Option (Bytes × Bytes)
last_two [] = none
last_two (a ∷ []) = none
last_two (a ∷ b ∷ []) = some (a, b)
last_two (a ∷ b ∷ c ∷ parts) = last_two (b ∷ c ∷ parts)

abbrev or_else : Bytes → Option Bytes → Bytes
or_else s none = s
or_else s (some t) = t

abbrev pub key_of : Bytes × Bytes → Bytes
key_of (t, filename) = t ++ b'/' ∷ filename

abbrev pub has_key : Bytes → List Bytes → Bool
has_key key [] = false
has_key key (k ∷ seen) = eq_bytes k key || has_key key seen

abbrev pub is_dots : Bytes → Bool
is_dots filename = eq_bytes filename (codes ".") || eq_bytes filename (codes "..")

-- `path.Join` of a token and a name that is one element of a path
abbrev pub path_key : Bytes × Bytes → Bytes
path_key (t, filename) =
    if is_dots filename
    then (if eq_bytes filename (codes ".") then t else codes ".")
    else key_of (t, filename)

-- the keys of the members with commas between them
unfoldable pub join_keys : List CollectionFile → Bytes
join_keys [] = []
join_keys (f ∷ []) = path_key (f.token, f.filename)
join_keys (f ∷ g ∷ files) = path_key (f.token, f.filename) ++ b',' ∷ join_keys (g ∷ files)

-- `path.Join` of the path of the proxy, which is taken to be clean but for slashes at its end, and an
-- element of a path
abbrev pub join_path : Bytes → Bytes → Bytes
join_path [] s = s
join_path (c ∷ p) s = trim_right (c ∷ p) ++ b'/' ∷ s

-- the reference to the archive of the members: no name is escaped
unfoldable pub archive_reference : Bytes → Bytes → List CollectionFile → Bytes
archive_reference proxy_path format files =
    join_path proxy_path (b'(' ∷ (join_keys files ++ (codes ")." ++ format)))

module _ (env : Env) (c : Config) (proxy_path : Bytes) where
  abbrev named : Option (Bytes × Bytes) → Option (Bytes × Bytes)
  named none = none
  named (some (t, last)) =
      let filename = env.sanitize last in
      if is_unset t || is_unset filename || contains (codes ".") t
      then none
      else elim (env.path_unescape filename) [
        | none ↦ some (t, filename)
        | some unescaped ↦ some (t, env.sanitize unescaped)
      ]

  -- The token and the name that a text of the client names.
  unfoldable pub parse_collection_ref : Bytes → Option (Bytes × Bytes)
  unfolding trim_slashes last_two
  parse_collection_ref ref =
      let trimmed = env.trim_space ref in
      let link = before_cut trimmed (cut b'#' trimmed) in
      let path = or_else link (env.url_path link) in
      if is_unset trimmed
      then none
      else named (last_two (split b'/' (trim_slashes (resolve_key path proxy_path))))

  abbrev read_with : IoResult Bytes → Option CollectionData
  read_with missing = none
  read_with broken = none
  read_with (good content) = env.decode_collection content

  unfoldable pub read_collection : Bytes → Exec (Option CollectionData)
  read_collection t = do content ← Storage.get t collection_object; pure (read_with content)

  unfoldable pub write_collection : Bytes → CollectionData → Exec (IoResult (Unit {0}))
  write_collection t coll = Storage.put t collection_object (env.encode_collection coll)

  abbrev member : Bytes → Bytes → Metadata → CollectionFile
  member t filename m = record {
    token = t;
    filename = filename;
    size = m.content_length;
    content_type = m.content_type;
    encrypted = m.encrypted;
  }

  -- what the loop does next
  abbrev pub Rest : Type 0
  Rest = List Bytes → Exec (List CollectionFile)

  abbrev pub add_member :
      Rest → List Bytes → Bytes → Bytes → Option Metadata → Exec (List CollectionFile)
  add_member rest seen t filename none = answer (refused 404 msg_file_unavailable none)
  add_member rest seen t filename (some m) = do
    files ← rest (key_of (t, filename) ∷ seen)
    pure (member t filename m ∷ files)

  abbrev pub add_ref : Rest → List Bytes → Option (Bytes × Bytes) → Exec (List CollectionFile)
  add_ref rest seen none = answer (refused 400 msg_not_a_share_link none)
  add_ref rest seen (some (t, filename)) =
      if has_key (key_of (t, filename)) seen
      then rest seen
      else do m ← check_metadata env c t filename; add_member rest seen t filename m

  -- The loop over the texts: the keys that were seen, and the members in their order.
  unfoldable pub gather : List Bytes → Rest
  gather [] seen = pure []
  gather (ref ∷ refs) seen = add_ref (gather refs) seen (parse_collection_ref ref)

  unfoldable pub sanitize_collection_name : Bytes → Bytes
  sanitize_collection_name name =
      let clean = env.sanitize (env.trim_space name) in
      if eq_bytes clean (codes "_")
      then []
      else if ltb 120 (length clean)
      then take 120 clean
      else clean

  abbrev pub created : Bytes → CollectionData → IoResult (Unit {0}) → Exec (Unit {0})
  created t coll missing = answer (refused 500 msg_collection_failed none)
  created t coll broken = answer (refused 500 msg_collection_failed none)
  created t coll (good _) = answer (collected 201 t coll)

  abbrev pub store_collection : CollectionData → Exec (Unit {0})
  store_collection coll = do
    t ← token c.random_token_length
    put ← write_collection t coll
    created t coll put

  abbrev pub create_with : Bytes → List Bytes → Exec (Unit {0})
  create_with name refs = do
    first ← token c.random_token_length
    second ← token c.random_token_length
    now ← gets (λ w. w.now)
    files ← gather refs []
    store_collection (record {
      name = sanitize_collection_name name;
      files = files;
      deletion_token = first ++ second;
      created_at = now;
    })

  abbrev pub check_count : List Bytes → Exec (Unit {0})
  check_count refs =
      if length refs == 0
      then answer (refused 400 msg_collection_empty none)
      else if ltb collection_max_files (length refs)
      then answer (refused 400 msg_collection_full none)
      else pure tt

  -- The body as its name and its files, or the error of reading it.
  unfoldable pub create_collection_handler : Option (Bytes × List Bytes) → Exec (Unit {0})
  create_collection_handler none = answer (refused 400 msg_collection_body none)
  create_collection_handler (some (name, refs)) = do check_count refs; create_with name refs

  abbrev keep_if : CollectionFile → Option Metadata → List CollectionFile → List CollectionFile
  keep_if f none rest = rest
  keep_if f (some m) rest = f ∷ rest

  unfoldable pub live_members : List CollectionFile → Exec (List CollectionFile)
  live_members [] = pure []
  live_members (f ∷ files) = do
    m ← check_metadata env c f.token f.filename
    rest ← live_members files
    pure (keep_if f m rest)

  abbrev pruned : Bytes → CollectionData → List CollectionFile → Exec CollectionData
  pruned t coll [] = do
    _ ← Storage.delete t collection_object
    answer (refused 404 msg_not_found none)
  pruned t coll (f ∷ files) = do
    _ ← write_collection t (record coll { files = f ∷ files })
    pure (record coll { files = f ∷ files })

  abbrev live_with : Bytes → Option CollectionData → Exec CollectionData
  live_with t none = answer (refused 404 msg_not_found none)
  live_with t (some coll) = do
    live ← live_members coll.files
    if length live == length coll.files then pure coll else pruned t coll live

  -- `liveCollection`
  unfoldable pub live_collection : Bytes → Exec CollectionData
  live_collection t = do coll ← read_collection t; live_with t coll

  unfoldable pub collection_handler : Bytes → Exec (Unit {0})
  collection_handler t = do coll ← live_collection t; answer (collected 200 t coll)

  -- A reference that cannot be parsed is the nil URL: the handler panics, which answers 500.
  abbrev pub redirect : Option Bytes → Exec (Unit {0})
  redirect none = answer (refused 500 msg_internal_error none)
  redirect (some path) = answer (redirected path)

  unfoldable pub collection_archive_handler : Bytes → Bytes → Exec (Unit {0})
  collection_archive_handler t format = do
    coll ← live_collection t
    redirect (env.parse_reference (archive_reference proxy_path format coll.files))

  abbrev pub deleted : IoResult (Unit {0}) → Exec (Unit {0})
  deleted broken = answer (refused 500 msg_collection_delete none)
  deleted _ = do
    modify (λ w. record w { metrics = record w.metrics { deletes = w.metrics.deletes + 1 } })
    answer (plain 200)

  abbrev pub delete_with : Bytes → Bytes → Option CollectionData → Exec (Unit {0})
  delete_with t deletion_token none = answer (refused 404 msg_not_found none)
  delete_with t deletion_token (some coll) =
      if eq_bytes coll.deletion_token deletion_token
      then (do found ← Storage.delete t collection_object; deleted found)
      else answer (refused 404 msg_not_found none)

  unfoldable pub delete_collection_handler : Bytes → Bytes → Exec (Unit {0})
  delete_collection_handler t deletion_token = do
    coll ← read_collection t
    delete_with t deletion_token coll
