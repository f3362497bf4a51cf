-- ===== src/Server/Tests.antt =====
-- The handlers of server/ on a concrete instance.
use send_to.Prelude.{
  ◌++◌, ◌≡◌, ◌^◌, ◌≤◌, ◌+◌, ◌-◌, eq_bytes, refl, true, false, none, some, ◌∷◌, codes, arith,
}
use send_to.Prelude.Int.{negsuc}
use send_to.Server.Fs.{lookup}
use send_to.Server.Exec.{next, refused, plain, msg_not_found}
use send_to.Server.Post.{Post}
use send_to.Server.Storage.{stored_path}
use send_to.Server.Types.{Metadata}
use send_to.Server.Toy.{toy_env}
use send_to.Server.Sample.{
  not_index, limits, note, hello, shelf, shelf_file, shelf_side, shelf-Live,
}
use send_to.Server.Quota.{allows, add_used, sub_used}
use send_to.Server.Quota.Laws.{allows_wrapped, sub_used-add_used}
use send_to.Server.Lifecycle.Downloads.{Gone, downloads, after, downloads-Live}
use send_to.Server.Lifecycle.LastDownload.{downloads-Gone}
use send_to.Server.Lifecycle.Deletion.{delete_handler_denied, delete_handler_granted}
use send_to.Server.Lifecycle.{delete_handler, check_metadata}
use send_to.Server.Session.ContentRange.Laws.{}
use send_to.Server.Caching.{cache_control, cache_control_lem}
use send_to.Server.Redact.{redact_path, redact_path_hides, is_download_action}
use send_to.Server.Lifecycle.{is_unlimited}

downloads-Live_example :
    Post
      (λ _ w'.
        (lookup (stored_path (codes "abc") (codes "a.txt")) w'.files ≡ some hello)
        × (check_metadata toy_env limits (codes "abc") (codes "a.txt") w'
            ≡ (next (some (after note 2 1)), w')))
      (λ _ _. ⊥)
      (downloads toy_env limits (codes "abc") (codes "a.txt") 1 shelf)
downloads-Live_example =
    downloads-Live toy_env limits (codes "abc") (codes "a.txt") hello note 2 1 shelf shelf-Live
      (omega arith)

downloads-Gone_example :
    Post
      (λ _ w'.
        Gone (codes "abc") (codes "a.txt") w'
        × ((check_metadata toy_env limits (codes "abc") (codes "a.txt") w').0 ≡ next none))
      (λ _ _. ⊥)
      (downloads toy_env limits (codes "abc") (codes "a.txt") 2 shelf)
downloads-Gone_example =
    downloads-Gone toy_env limits (codes "abc") (codes "a.txt") hello note 2 not_index shelf
      shelf-Live (omega arith)

delete_handler_denied_example :
    Post
      (λ _ _. ⊥)
      (λ a w'.
        (a ≡ refused 404 msg_not_found none)
        × (w'.files ≡ shelf.files)
        × (w'.quota_used ≡ shelf.quota_used)
        × (w'.metrics ≡ shelf.metrics))
      (delete_handler toy_env limits (codes "abc") (codes "a.txt") (codes "guess") shelf)
delete_handler_denied_example =
    delete_handler_denied toy_env limits (codes "abc") (codes "a.txt") note (codes "guess") shelf
      shelf_side (λ e. absurd cc)

delete_handler_granted_example :
    Post
      (λ _ _. ⊥)
      (λ a w'. (a ≡ plain 200) × Gone (codes "abc") (codes "a.txt") w')
      (delete_handler toy_env limits (codes "abc") (codes "a.txt") (codes "secret") shelf)
delete_handler_granted_example =
    delete_handler_granted toy_env limits (codes "abc") (codes "a.txt") note (codes "secret") hello
      shelf refl not_index shelf_file shelf_side refl

allows_wrapped_example : allows limits 1 (2 ^ 63 - 1) ≡ true
allows_wrapped_example =
    allows_wrapped limits (omega arith) (omega arith) 1 (2 ^ 63 - 1) (omega arith) (omega arith)
      (omega arith)

sixty_allowed : allows limits 60 40 ≡ true
unfolding allows
sixty_allowed = refl

sub_used-add_used_example :
    (add_used limits 60 40 ≤ 100)
    × (sub_used limits (add_used limits 60 40) 40 ≡ 60)
    × (sub_used limits 60 40 ≤ 60)
sub_used-add_used_example =
    sub_used-add_used limits (omega arith) (omega arith) 60 40 (omega arith) sixty_allowed

-- an upload without a limit that has ten seconds to live, and a cache that may keep things for an hour
abbrev lasting : Metadata
lasting = record note { max_downloads = negsuc 0; max_date = some 15 }

ten_seconds : cache_control 3600 5 lasting ≡ some 10
unfolding cache_control
ten_seconds = refl

cache_control_lem_example :
    (10 ≤ 3600)
    × (5 + 10 ≤ 15)
    × (is_unlimited lasting.max_downloads ≡ true)
    × (lasting.encrypted ≡ false)
cache_control_lem_example = cache_control_lem 3600 5 15 10 lasting refl ten_seconds

abc_is_token : is_download_action (codes "abc") ≡ false
unfolding is_download_action eq_bytes
abc_is_token = refl

abd_is_token : is_download_action (codes "abd") ≡ false
unfolding is_download_action eq_bytes
abd_is_token = refl

redact_path_hides_example :
    redact_path (b'/' ∷ (codes "abc" ++ b'/' ∷ codes "a.txt/secret"))
    ≡ redact_path (b'/' ∷ (codes "abd" ++ b'/' ∷ codes "a.txt/secret"))
redact_path_hides_example =
    redact_path_hides (codes "abc") (codes "abd") (codes "a.txt/secret") (omega arith) refl refl
      abc_is_token abd_is_token refl refl
