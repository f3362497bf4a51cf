-- ===== src/Server/Archive/Keys.antt =====
-- server/archive.go and server/collection.go: what the archive link of a collection names.
use send_to.Prelude.{
  ℕ, ◌≡◌, ◌<◌, refl, ap, ◌∙◌, Bool, true, false, ◌&&◌, not, none, some, List, [], ◌∷◌, ◌++◌, Bytes,
  arith, ◌==◌, codes, length, all, strip_prefix,
}
use send_to.Server.Redact.{split, trim_prefix}
use send_to.Server.Types.{CollectionFile}
use send_to.Server.Collection.{key_of, path_key, is_dots, join_keys}
use send_to.Server.Archive.{
  ArchiveEntry, replace_backslashes, resolve_key, cut, entries_of, parse_archive_keys,
}

abbrev other_than : ℕ → ℕ → Bool
other_than sep c = not (c == sep)

-- no comma, and no backslash
abbrev pub is_safe : ℕ → Bool
is_safe c = other_than b',' c && other_than 92 c

abbrev pub is_in_token : ℕ → Bool
is_in_token c = other_than b'/' c && is_safe c

all-key :
    (p : ℕ → Bool) (s t : Bytes)
    → all p s ≡ true
    → all p t ≡ true
    → p b'/' ≡ true
    → all p (s ++ b'/' ∷ t) ≡ true
all-key p [] t first second slash = ground arith
all-key p (c ∷ s) t first second slash = ground (arith, all-key p s t)

all_weaker :
    (p q : ℕ → Bool) (s : Bytes)
    → ((c : ℕ) → p c ≡ true → q c ≡ true)
    → all p s ≡ true
    → all q s ≡ true
all_weaker p q [] imp h = refl
all_weaker p q (c ∷ s) imp h = ground (arith, imp c, all_weaker p q s imp)

split_one : (s : Bytes) → all is_safe s ≡ true → split b',' s ≡ s ∷ []
unfolding split
split_one [] h = refl
split_one (c ∷ s) h = ground (arith, split_one s)

split-comma :
    (s rest : Bytes) → all is_safe s ≡ true → split b',' (s ++ b',' ∷ rest) ≡ s ∷ split b',' rest
unfolding split
split-comma [] rest h = refl
split-comma (c ∷ s) rest h = ground (arith, split-comma s rest)

cut-slash :
    (t rest : Bytes) → all is_in_token t ≡ true → cut b'/' (t ++ b'/' ∷ rest) ≡ some (t, rest)
unfolding cut
cut-slash [] rest h = refl
cut-slash (c ∷ t) rest h = ground (arith, cut-slash t rest)

replace_backslashes_id : (s : Bytes) → all is_safe s ≡ true → replace_backslashes s ≡ s
unfolding replace_backslashes
replace_backslashes_id [] h = refl
replace_backslashes_id (c ∷ s) h = ground (arith, replace_backslashes_id s)

cut_slashless : (s : Bytes) → all is_in_token s ≡ true → cut b'/' s ≡ none
unfolding cut
cut_slashless [] h = refl
cut_slashless (c ∷ s) h = ground (arith, cut_slashless s)

append_assoc : (s t u : Bytes) → s ++ (t ++ u) ≡ (s ++ t) ++ u
append_assoc [] t u = refl
append_assoc (c ∷ s) t u = ap (λ v. c ∷ v) (append_assoc s t u)

-- The path that a proxy puts before every path is empty or begins with a slash.
abbrev pub IsProxyPath : Bytes → Type 0
IsProxyPath [] = Unit
IsProxyPath (c ∷ p) = c ≡ b'/'

trim_prefix_id :
    (p : Bytes) (c : ℕ) (s : Bytes)
    → IsProxyPath p
    → other_than b'/' c ≡ true
    → trim_prefix p (c ∷ s) ≡ c ∷ s
unfolding trim_prefix strip_prefix
trim_prefix_id [] c s h different = refl
trim_prefix_id (d ∷ p) c s h different = ground arith

-- A text that begins with a token's symbol and has no backslash is its own key.
resolve_key_id :
    (c : ℕ) (s proxy_path : Bytes)
    → IsProxyPath proxy_path
    → other_than b'/' c ≡ true
    → all is_safe (c ∷ s) ≡ true
    → resolve_key (c ∷ s) proxy_path ≡ c ∷ s
unfolding resolve_key
resolve_key_id c s proxy_path proxy different safe =
    rw
      (trim_prefix_id (codes "/") c s refl different, trim_prefix_id proxy_path c s proxy different)
      (replace_backslashes_id (c ∷ s) safe)

resolve_key_empty : (proxy_path : Bytes) → resolve_key [] proxy_path ≡ []
unfolding resolve_key trim_prefix strip_prefix replace_backslashes
resolve_key_empty [] = refl
resolve_key_empty (c ∷ p) = refl

-- the keys of members whose names are not `.` or `..`
unfoldable plain_keys : List CollectionFile → Bytes
plain_keys [] = []
plain_keys (f ∷ []) = key_of (f.token, f.filename)
plain_keys (f ∷ g ∷ files) = key_of (f.token, f.filename) ++ b',' ∷ plain_keys (g ∷ files)

abbrev pub entries : List CollectionFile → List ArchiveEntry
entries [] = []
entries (f ∷ files) = record { token = f.token; filename = f.filename } ∷ entries files

module _ (sanitize : Bytes → Bytes) (proxy_path : Bytes) where
  -- A token that is not empty, without slash, comma and backslash; a name that is not empty, without
  -- comma and backslash, is not `.` or `..`, and that `sanitize` keeps.
  abbrev pub IsLinked : CollectionFile → Type 0
  IsLinked f =
      (0 < length f.token)
      × (all is_in_token f.token ≡ true)
      × (0 < length f.filename)
      × (all is_safe f.filename ≡ true)
      × (sanitize f.filename ≡ f.filename)
      × (is_dots f.filename ≡ false)

  abbrev pub AreLinked : List CollectionFile → Type 0
  AreLinked [] = Unit
  AreLinked (f ∷ files) = IsLinked f × AreLinked files

  key_of-IsSafe :
      (t n : Bytes)
      → all is_in_token t ≡ true
      → all is_safe n ≡ true
      → all is_safe (key_of (t, n)) ≡ true
  key_of-IsSafe t n token name =
      all-key is_safe t n (all_weaker is_in_token is_safe t (λ c h. ground arith) token) name refl

  -- the key of a member among the entries
  entries_of-key :
      (t n : Bytes) (keys : List Bytes)
      → IsProxyPath proxy_path
      → 0 < length t
      → all is_in_token t ≡ true
      → 0 < length n
      → all is_safe n ≡ true
      → entries_of sanitize proxy_path (key_of (t, n) ∷ keys)
        ≡ record { token = t; filename = sanitize n } ∷ entries_of sanitize proxy_path keys
  unfolding entries_of
  entries_of-key [] n keys proxy some_token token some_name name = absurd (omega arith)
  entries_of-key (c ∷ t) [] keys proxy some_token token some_name name = absurd (omega arith)
  entries_of-key (c ∷ t) (d ∷ n) keys proxy some_token token some_name name =
      rw
        (
          resolve_key_id c (t ++ b'/' ∷ (d ∷ n)) proxy_path proxy (ground arith)
              (key_of-IsSafe (c ∷ t) (d ∷ n) token name),
          cut-slash (c ∷ t) (d ∷ n) token,
        )
        refl

  -- a key without a slash is passed over
  entries_of_slashless :
      (s : Bytes)
      → IsProxyPath proxy_path
      → all is_in_token s ≡ true
      → entries_of sanitize proxy_path (s ∷ []) ≡ []
  unfolding entries_of cut
  entries_of_slashless [] proxy h = rw (resolve_key_empty proxy_path) refl
  entries_of_slashless (c ∷ s) proxy h =
      rw
        (
          resolve_key_id c s proxy_path proxy (ground arith)
              (all_weaker is_in_token is_safe (c ∷ s) (λ d e. ground arith) h),
          cut_slashless (c ∷ s) h,
        )
        refl

  parse_archive_keys_one :
      (f : CollectionFile)
      → IsProxyPath proxy_path
      → IsLinked f
      → entries_of sanitize proxy_path (key_of (f.token, f.filename) ∷ []) ≡ entries (f ∷ [])
  unfolding entries_of
  parse_archive_keys_one f proxy (some_token, token, some_name, name, kept, no_dots) =
      entries_of-key f.token f.filename [] proxy some_token token some_name name
      ∙ ap (λ n. record { token = f.token; filename = n } ∷ []) kept

  join_keys-plain_keys :
      (files : List CollectionFile) → AreLinked files → join_keys files ≡ plain_keys files
  unfolding join_keys plain_keys
  join_keys-plain_keys [] linked = refl
  join_keys-plain_keys (f ∷ []) ((_, _, _, _, _, no_dots), _) = rw no_dots refl
  join_keys-plain_keys (f ∷ g ∷ files) ((_, _, _, _, _, no_dots), linked) =
      rw (no_dots, join_keys-plain_keys (g ∷ files) linked) refl

  parse_archive_keys-plain_keys :
      (files : List CollectionFile)
      → IsProxyPath proxy_path
      → AreLinked files
      → parse_archive_keys sanitize proxy_path (plain_keys files) ≡ entries files
  unfolding parse_archive_keys plain_keys split
  parse_archive_keys-plain_keys [] proxy linked = entries_of_slashless [] proxy refl
  parse_archive_keys-plain_keys (f ∷ []) proxy
        ((some_token, token, some_name, name, kept, no_dots), _) =
      ap (entries_of sanitize proxy_path)
        (split_one (key_of (f.token, f.filename)) (key_of-IsSafe f.token f.filename token name))
      ∙ parse_archive_keys_one f proxy (some_token, token, some_name, name, kept, no_dots)
  parse_archive_keys-plain_keys (f ∷ g ∷ files) proxy
        ((some_token, token, some_name, name, kept, no_dots), linked) =
      ap (entries_of sanitize proxy_path) (
        split-comma (key_of (f.token, f.filename)) (plain_keys (g ∷ files))
          (key_of-IsSafe f.token f.filename token name))
      ∙ entries_of-key f.token f.filename (split b',' (plain_keys (g ∷ files))) proxy some_token
          token some_name name
      ∙ rw (kept, parse_archive_keys-plain_keys (g ∷ files) proxy linked) refl

  -- The keys of members name exactly these, in their order.
  pub parse_archive_keys-join_keys :
      (files : List CollectionFile)
      → IsProxyPath proxy_path
      → AreLinked files
      → parse_archive_keys sanitize proxy_path (join_keys files) ≡ entries files
  parse_archive_keys-join_keys files proxy linked =
      ap (parse_archive_keys sanitize proxy_path) (join_keys-plain_keys files linked)
      ∙ parse_archive_keys-plain_keys files proxy linked

  -- The key of a member with a name of the form `a,b` names the file with the name that a is sanitized to.
  pub parse_archive_keys_comma :
      (f : CollectionFile) (a b : Bytes)
      → f.filename ≡ a ++ b',' ∷ b
      → is_dots f.filename ≡ false
      → IsProxyPath proxy_path
      → 0 < length f.token
      → all is_in_token f.token ≡ true
      → 0 < length a
      → all is_safe a ≡ true
      → all is_in_token b ≡ true
      → parse_archive_keys sanitize proxy_path (join_keys (f ∷ []))
        ≡ record { token = f.token; filename = sanitize a } ∷ []
  unfolding parse_archive_keys join_keys
  parse_archive_keys_comma f a b named no_dots proxy some_token token some_name name rest =
      ap (λ k. entries_of sanitize proxy_path (split b',' k)) whole_key
      ∙ ap (λ n. entries_of sanitize proxy_path (split b',' (key_of (f.token, n)))) named
      ∙ ap (λ k. entries_of sanitize proxy_path (split b',' k))
          (append_assoc f.token (b'/' ∷ a) (b',' ∷ b))
      ∙ ap (entries_of sanitize proxy_path)
          (split-comma (key_of (f.token, a)) b (key_of-IsSafe f.token a token name))
      ∙ ap (λ words. entries_of sanitize proxy_path (key_of (f.token, a) ∷ words))
          (split_one b (all_weaker is_in_token is_safe b (λ d e. ground arith) rest))
      ∙ entries_of-key f.token a (b ∷ []) proxy some_token token some_name name
      ∙ ap (λ es. record { token = f.token; filename = sanitize a } ∷ es)
          (entries_of_slashless b proxy rest)
    where
      whole_key : path_key (f.token, f.filename) ≡ key_of (f.token, f.filename)
      whole_key = rw no_dots refl
