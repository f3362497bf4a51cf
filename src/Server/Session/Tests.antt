-- ===== src/Server/Session/Tests.antt =====
-- Upload sessions of a concrete instance (server/resumable.go).
use send_to.Prelude.{
  ◌≡◌, ◌<◌, ◌^◌, ◌≤◌, ◌+◌, ◌-◌, eq_bytes, refl, some, [], ◌∷◌, Bytes, codes, arith,
}
use send_to.Prelude.Int.{pos}
use send_to.E2e.{Source, failed, eof}
use send_to.Server.Fs.{lookup, eq_path, eq_folder}
use send_to.Server.Exec.{World, works, fails}
use send_to.Server.Post.{Post}
use send_to.Server.Types.{UploadSession, Request}
use send_to.Server.Toy.{toy_env}
use send_to.Server.Sample.{limits, world, hello, no_headers}
use send_to.Server.Session.{part_path, session_sidecar, session_id_matches}
use send_to.Server.Session.Refines.{Holds, Names, Steps, patch_upload_session_handler-Refines}
use send_to.Server.Session.ContentRange.{parse_upload_content_range, parsed, Span}
use send_to.Server.Session.ContentRange.Laws.{
  content_range_header, parse_upload_content_range-header, parse_upload_content_range_sound,
}
use send_to.Server.Session.Patch.{append_chunk, patch_upload_session_handler}
use send_to.Server.Session.Spool.{Appends, append_chunk_lem}
use send_to.Server.Session.Announced.{Announces, patch_upload_session_handler-Announces}
use send_to.Server.Session.{head_upload_session_handler}
use send_to.Server.Session.Offset.{Reports, head_upload_session_handler-Reports}

parse_upload_content_range-header_example :
    parse_upload_content_range (content_range_header 5 (5 + 10 - 1) 20)
    ≡ parsed (record { start = 5; finish = 5 + 10 - 1; total = 20 })
parse_upload_content_range-header_example =
    parse_upload_content_range-header 5 10 20 (omega arith) (omega arith) (omega arith)

span : Span
span = record { start = 5; finish = 14; total = 20 }

parse_upload_content_range_sound_example : (5 ≤ 14) × (14 < 20) × (20 < 2 ^ 63)
parse_upload_content_range_sound_example =
    parse_upload_content_range_sound (content_range_header 5 (5 + 10 - 1) 20)
      (record { start = 5; finish = 14; total = 20 }) parse_upload_content_range-header_example

-- a chunk of ten bytes, of which the connection lets four through
abbrev torn : Source
torn = record { content = codes "worl"; ending = failed }

abbrev session_id : Bytes
session_id = codes "0123456789abcdef01234567"

abbrev open_upload : UploadSession
open_upload = record {
  id = session_id;
  filename = codes "a.txt";
  content_type = codes "text/plain";
  total = 20;
  max_days = pos 0;
  max_downloads = pos 0;
  owner_hash = [];
  created_at = 0;
}

-- and the call that would roll it back fails too
abbrev spool : World
spool = world (works ∷ works ∷ works ∷ works ∷ works ∷ fails 0 ∷ []) (
    (part_path session_id, hello)
    ∷ (session_sidecar session_id, toy_env.encode_session open_upload)
    ∷ [])

spool_part : lookup (part_path session_id) spool.files ≡ some hello
unfolding lookup eq_path eq_folder eq_bytes
spool_part = refl

append_chunk_lem_example :
    Post
      (Appends (part_path session_id) hello 10 torn)
      (λ _ _. ⊥)
      (append_chunk (part_path session_id) hello 10 torn spool)
append_chunk_lem_example = append_chunk_lem (part_path session_id) hello 10 torn spool

abbrev patch : Request
patch = record {
  headers = record no_headers { content_range = content_range_header 5 (5 + 10 - 1) 20 };
  resolve = λ parts. [];
}

patch_upload_session_handler-Announces_example :
    Post
      (λ _ _. ⊥)
      (Announces (part_path session_id) hello torn)
      (patch_upload_session_handler toy_env limits session_id (codes "a.txt") patch torn spool)
patch_upload_session_handler-Announces_example =
    patch_upload_session_handler-Announces toy_env limits patch torn hello session_id
      (codes "a.txt") spool spool_part

head_upload_session_handler-Reports_example :
    Post
      (λ _ _. ⊥)
      (Reports toy_env hello spool.files)
      (head_upload_session_handler toy_env session_id (codes "a.txt") spool)
head_upload_session_handler-Reports_example =
    head_upload_session_handler-Reports toy_env hello spool.files session_id (codes "a.txt") spool
      refl spool_part

-- the same session, with no call that fails, and a chunk of ten bytes that arrives
abbrev quiet : World
quiet = world [] spool.files

quiet-Holds : Holds toy_env limits open_upload (codes "a.txt") hello quiet
unfolding Holds lookup eq_path eq_folder eq_bytes
quiet-Holds = (refl, spool_part, refl, refl)

open_upload-Names : Names toy_env limits open_upload (codes "a.txt")
unfolding session_id_matches toy_env
open_upload-Names = (refl, refl)

patch_upload_session_handler-Refines_example :
    Steps toy_env limits open_upload (codes "a.txt") 5 (codes "0123456789") hello (
      patch_upload_session_handler toy_env limits session_id
        (codes "a.txt")
        patch
        (record { content = codes "0123456789"; ending = eof })
        quiet)
unfolding content_range_header toy_env
patch_upload_session_handler-Refines_example =
    patch_upload_session_handler-Refines toy_env limits open_upload (codes "a.txt") patch 5
      (codes "0123456789") hello quiet refl open_upload-Names quiet-Holds (omega arith)
      (omega arith) (omega arith) refl
