-- ===== src/Server/Archive/Link.antt =====
-- server/collection.go and server/archive.go: where the archive link of a collection leads. A
-- redirection is the path of its target (net/url escapes it, and the server unescapes it again), and the
-- proxy takes its own path away before it passes a request on.
use send_to.Prelude.{
  ℕ, ◌-◌, ◌<◌, ◌≡◌, refl, ap, ◌∙◌, Bool, true, false, Option, none, some, List, [], ◌∷◌, ◌++◌,
  Bytes, arith, codes, length, all, strip_prefix, strip_prefix-append, has_prefix, take-append,
  drop-append, length-append, eq_bytes, eq_bytes_refl, Bool-cases, inl, inr, if◌then◌else◌,
}
use send_to.Server.Redact.{trim_prefix}
use send_to.Server.Types.{Env, CollectionFile, is_plain}
use send_to.Server.Collection.{
  path_key, is_dots, join_keys, join_path, trim_right, archive_reference,
}
use send_to.Server.Archive.{ArchiveEntry, archive_route, strip_suffix, parse_archive_keys}
use send_to.Server.Archive.Keys.{
  is_safe, is_in_token, entries, IsProxyPath, AreLinked, parse_archive_keys-join_keys,
  parse_archive_keys_comma,
}

-- the path of the request that the server sees
abbrev pub behind_proxy : Bytes → Bytes → Bytes
behind_proxy proxy_path path =
    b'/' ∷ trim_prefix (codes "/") (trim_prefix (trim_right proxy_path) path)

all-append : (p : ℕ → Bool) (s t : Bytes) → all p s ≡ true → all p t ≡ true → all p (s ++ t) ≡ true
all-append p [] t first second = second
all-append p (c ∷ s) t first second = ground (arith, all-append p s t)

-- The tokens and the names of the members have only plain symbols.
abbrev pub ArePlain : List CollectionFile → Type 0
ArePlain [] = Unit
ArePlain (f ∷ files) =
    (all is_plain f.token ≡ true) × (all is_plain f.filename ≡ true) × ArePlain files

path_key-plain :
    (t n : Bytes)
    → all is_plain t ≡ true
    → all is_plain n ≡ true
    → all is_plain (path_key (t, n)) ≡ true
path_key-plain t n token name = elim (Bool-cases (is_dots n)) [
  | inl dots ↦ rw dots (dotted (eq_bytes n (codes ".")))
  | inr none_ ↦ rw none_ (all-append is_plain t (b'/' ∷ n) token name)
]
  where
    dotted : (b : Bool) → all is_plain (if b then t else codes ".") ≡ true
    dotted true = token
    dotted false = refl

join_keys-plain :
    (files : List CollectionFile) → ArePlain files → all is_plain (join_keys files) ≡ true
unfolding join_keys
join_keys-plain [] plain = refl
join_keys-plain (f ∷ []) (token, name, _) = path_key-plain f.token f.filename token name
join_keys-plain (f ∷ g ∷ files) (token, name, others) =
    all-append is_plain (path_key (f.token, f.filename)) (b',' ∷ join_keys (g ∷ files))
      (path_key-plain f.token f.filename token name) (join_keys-plain (g ∷ files) others)

strip_suffix-append : (s suffix : Bytes) → strip_suffix suffix (s ++ suffix) ≡ some s
unfolding strip_suffix
strip_suffix-append s suffix =
    let size : length (s ++ suffix) - length suffix ≡ length s =
      omega (arith, length-append s suffix) in
    rw
      (
        size,
        drop-append (length s) s suffix refl,
        take-append (length s) s suffix refl,
        eq_bytes_refl suffix,
      )
      refl

archive_route-archive :
    (format keys : Bytes)
    → archive_route format (codes "/(" ++ (keys ++ (codes ")." ++ format))) ≡ some keys
unfolding archive_route strip_prefix
archive_route-archive format keys = strip_suffix-append keys (codes ")." ++ format)

trim_prefix-append : (p s : Bytes) → trim_prefix p (p ++ s) ≡ s
unfolding trim_prefix
trim_prefix-append p s = rw (trim_prefix, strip_prefix-append p s) refl

-- a text with its own beginning taken away, and the slash behind it
behind-append : (b x : Bytes) → trim_prefix (codes "/") (trim_prefix b (b ++ b'/' ∷ x)) ≡ x
unfolding trim_prefix strip_prefix
behind-append b x = ap (trim_prefix (codes "/")) (trim_prefix-append b (b'/' ∷ x))

is_dots_comma : (a b : Bytes) → 0 < length a → is_dots (a ++ b',' ∷ b) ≡ false
unfolding eq_bytes
is_dots_comma [] b some_name = absurd (omega arith)
is_dots_comma (c ∷ []) b some_name = ground arith
is_dots_comma (c ∷ d ∷ []) b some_name = ground arith
is_dots_comma (c ∷ d ∷ e ∷ a) b some_name = ground arith

module _ (env : Env) where
  parse_reference-base :
      (b x : Bytes)
      → all is_plain (b ++ b'/' ∷ (b'(' ∷ x)) ≡ true
      → has_prefix (codes "//") (b ++ b'/' ∷ []) ≡ false
      → env.parse_reference (b ++ b'/' ∷ (b'(' ∷ x)) ≡ some (b ++ b'/' ∷ (b'(' ∷ x))
  unfolding has_prefix strip_prefix
  parse_reference-base [] x plain single = env.parse_reference_plain b'/' (b'(' ∷ x) plain refl
  parse_reference-base (c ∷ []) x plain single =
      env.parse_reference_plain c (b'/' ∷ (b'(' ∷ x)) plain (ground (arith, single))
  parse_reference-base (c ∷ d ∷ b) x plain single =
      env.parse_reference_plain c (d ∷ (b ++ b'/' ∷ (b'(' ∷ x))) plain (ground (arith, single))

  join_path-leads :
      (proxy_path x : Bytes)
      → all is_plain (trim_right proxy_path) ≡ true
      → has_prefix (codes "//") (trim_right proxy_path ++ b'/' ∷ []) ≡ false
      → all is_plain x ≡ true
      → (path : Bytes) × (env.parse_reference (join_path proxy_path (b'(' ∷ x)) ≡ some path)
        × (behind_proxy proxy_path path ≡ codes "/(" ++ x)
  unfolding trim_prefix strip_prefix trim_right has_prefix
  join_path-leads [] x clean single plain =
      (b'(' ∷ x, env.parse_reference_plain b'(' x plain refl, refl)
  join_path-leads (c ∷ p) x clean single plain = (
    trim_right (c ∷ p) ++ b'/' ∷ (b'(' ∷ x),
    parse_reference-base (trim_right (c ∷ p)) x
        (all-append is_plain (trim_right (c ∷ p)) (b'/' ∷ (b'(' ∷ x)) clean plain) single,
    ap (λ s. b'/' ∷ s) (behind-append (trim_right (c ∷ p)) (b'(' ∷ x)),
  )

module _ (env : Env) (proxy_path format : Bytes) where
  abbrev served : Option Bytes → Option (List ArchiveEntry)
  served none = none
  served (some keys) = some (parse_archive_keys env.sanitize proxy_path keys)

  abbrev led : Option Bytes → Option (List ArchiveEntry)
  led none = none
  led (some path) = served (archive_route format (behind_proxy proxy_path path))

  -- The files of the archive that the link of a collection leads to.
  unfoldable pub follow_archive : List CollectionFile → Option (List ArchiveEntry)
  follow_archive files = led (env.parse_reference (archive_reference proxy_path format files))

  -- The path of the proxy, without the slashes at its end: plain, and no two slashes at its beginning.
  abbrev pub IsPlainProxy : Type 0
  IsPlainProxy =
      IsProxyPath proxy_path
      × (all is_plain (trim_right proxy_path) ≡ true)
      × (has_prefix (codes "//") (trim_right proxy_path ++ b'/' ∷ []) ≡ false)

  -- what the reference is, with the symbol that it begins with
  abbrev archived_text : List CollectionFile → Bytes
  archived_text files = join_keys files ++ (codes ")." ++ format)

  -- The link of plain members, and its route, lead to their keys.
  follow_archive-join_keys :
      (files : List CollectionFile)
      → IsPlainProxy
      → all is_plain format ≡ true
      → ArePlain files
      → follow_archive files ≡ some (parse_archive_keys env.sanitize proxy_path (join_keys files))
  unfolding follow_archive archive_reference
  follow_archive-join_keys files (proxy, clean, single) known plain =
      let ending : all is_plain (archived_text files) ≡ true =
        all-append is_plain (join_keys files) (codes ")." ++ format) (join_keys-plain files plain)
          (all-append is_plain (codes ").") format refl known) in
      let (path, parsed, behind) =
        join_path-leads env proxy_path (archived_text files) clean single ending in
      ap led parsed
      ∙ ap (λ s. served (archive_route format s)) behind
      ∙ ap served (archive_route-archive format (join_keys files))

  -- The archive link of a collection, whose path is parsed from the reference to it, leads to a route
  -- that takes exactly its members for the files of the archive, in their order. Their tokens are not
  -- empty and have no slash, comma or backslash; their names are not empty and not `.` or `..`, have no comma or
  -- backslash and stay as they are when they are sanitized; tokens, names, format and the path of the proxy have
  -- none of `%`, `?`, `#` and `:` and no control character. The path of the proxy is empty or begins with
  -- one slash.
  pub follow_archive-entries :
      (files : List CollectionFile)
      → IsPlainProxy
      → all is_plain format ≡ true
      → ArePlain files
      → AreLinked env.sanitize proxy_path files
      → follow_archive files ≡ some (entries files)
  follow_archive-entries files proxy known plain linked =
      follow_archive-join_keys files proxy known plain
      ∙ ap some (parse_archive_keys-join_keys env.sanitize proxy_path files proxy.0 linked)

  -- The archive link of a collection whose only member has a name of the form `a,b`, where a is not
  -- empty and has no comma or backslash, and b has no slash, comma or backslash, leads to another file: the
  -- one with the name that a is sanitized to. The token is not empty and has no slash, comma or
  -- backslash; token, name, format and the path of the proxy are as for the link of the members.
  pub follow_archive_comma :
      (f : CollectionFile) (a b : Bytes)
      → f.filename ≡ a ++ b',' ∷ b
      → IsPlainProxy
      → all is_plain format ≡ true
      → ArePlain (f ∷ [])
      → 0 < length f.token
      → all is_in_token f.token ≡ true
      → 0 < length a
      → all is_safe a ≡ true
      → all is_in_token b ≡ true
      → follow_archive (f ∷ []) ≡ some (record { token = f.token; filename = env.sanitize a } ∷ [])
  follow_archive_comma f a b named proxy known plain some_token token some_name name rest =
      follow_archive-join_keys (f ∷ []) proxy known plain
      ∙ ap some (
          parse_archive_keys_comma env.sanitize proxy_path f a b named
            (ap is_dots named ∙ is_dots_comma a b some_name) proxy.0 some_token token some_name name
            rest)
