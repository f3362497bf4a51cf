-- ===== src/Server/Archive/Tests.antt =====
-- Archive links of concrete collections.
use send_to.Prelude.{
  ◌≡◌, refl, false, none, some, [], ◌∷◌, Bytes, codes, arith, has_prefix, strip_prefix, eq_bytes,
}
use send_to.Server.Types.{CollectionFile}
use send_to.Server.Toy.{toy_env, reference, before_query}
use send_to.Server.Collection.{join_keys, archive_reference, trim_right}
use send_to.Server.Redact.{trim_prefix}
use send_to.Server.Archive.{archive_route, strip_suffix}
use send_to.Server.Archive.Keys.{entries}
use send_to.Server.Archive.Link.{follow_archive, follow_archive-entries, follow_archive_comma}

abbrev file : Bytes → CollectionFile
file name = record {
  token = codes "abc";
  filename = name;
  size = 5;
  content_type = codes "text/plain";
  encrypted = false;
}

-- names that are not escaped cut the reference off, or make it one that cannot be parsed
cut_off : follow_archive toy_env (codes "/drop/") (codes "zip") (file (codes "a#b") ∷ []) ≡ none
unfolding follow_archive toy_env reference archive_reference trim_right join_keys eq_bytes
    archive_route strip_prefix trim_prefix before_query strip_suffix
cut_off = refl

unparsed :
    follow_archive toy_env (codes "/drop/") (codes "zip") (file (codes "100%.txt") ∷ []) ≡ none
unfolding follow_archive toy_env reference archive_reference trim_right join_keys eq_bytes
unparsed = refl

follow_archive-entries_example :
    follow_archive toy_env
      (codes "/drop/")
      (codes "zip")
      (file (codes "a.txt") ∷ file (codes "b") ∷ [])
    ≡ some (entries (file (codes "a.txt") ∷ file (codes "b") ∷ []))
unfolding toy_env trim_right has_prefix strip_prefix eq_bytes
follow_archive-entries_example =
    follow_archive-entries toy_env (codes "/drop/") (codes "zip")
      (file (codes "a.txt") ∷ file (codes "b") ∷ []) (refl, refl, refl) refl
      (refl, refl, (refl, refl, tt))
      (
        (omega arith, refl, omega arith, refl, refl, refl),
        ((omega arith, refl, omega arith, refl, refl, refl), tt),
      )

follow_archive_comma_example :
    follow_archive toy_env (codes "/drop/") (codes "zip") (file (codes "a,b") ∷ [])
    ≡ some (record { token = codes "abc"; filename = toy_env.sanitize (codes "a") } ∷ [])
unfolding toy_env trim_right has_prefix strip_prefix eq_bytes
follow_archive_comma_example =
    follow_archive_comma toy_env (codes "/drop/") (codes "zip") (file (codes "a,b")) (codes "a")
      (codes "b") refl (refl, refl, refl) refl (refl, refl, tt) (omega arith) refl (omega arith)
      refl refl
