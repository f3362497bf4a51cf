-- ===== src/Server/Archive/Stream/Tests.antt =====
-- An upload with two downloads left that an archive link names three times.
use send_to.Prelude.{◌≡◌, refl, strip_prefix, [], codes, Bytes, replicate, arith}
use send_to.Server.Redact.{split, trim_prefix}
use send_to.Server.Toy.{toy_env}
use send_to.Server.Sample.{not_index, limits, note, hello, shelf, shelf-Live}
use send_to.Server.Archive.{parse_archive_keys, entries_of, resolve_key, replace_backslashes, cut}
use send_to.Server.Archive.Stream.{zip_handler, tar_handler, tar_gz_handler}
use send_to.Server.Archive.Stream.Budget.{entry, Spends, zip_handler-Spends}

abbrev files : Bytes
files = codes "abc/a.txt,/abc/a.txt,abc/a.txt"

named_thrice :
    parse_archive_keys toy_env.sanitize [] files ≡ replicate 3 (entry (codes "abc") (codes "a.txt"))
unfolding parse_archive_keys entries_of resolve_key replace_backslashes cut split trim_prefix
    strip_prefix toy_env
named_thrice = refl

zip_handler-Spends_example :
    Spends toy_env limits
      (codes "abc")
      (codes "a.txt")
      hello
      note
      2
      not_index
      0
      3
      (zip_handler toy_env limits [] files shelf)
    × Spends toy_env limits
        (codes "abc")
        (codes "a.txt")
        hello
        note
        2
        not_index
        0
        3
        (tar_handler toy_env limits [] files shelf)
    × Spends toy_env limits
        (codes "abc")
        (codes "a.txt")
        hello
        note
        2
        not_index
        0
        3
        (tar_gz_handler toy_env limits [] files shelf)
zip_handler-Spends_example =
    zip_handler-Spends toy_env limits (codes "abc") (codes "a.txt") hello note 2 not_index [] files
      3 0 shelf shelf-Live (omega arith) (omega arith) named_thrice
