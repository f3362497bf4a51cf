-- ===== src/Server/Lifecycle.antt =====
-- server/handlers.go: the end of an upload. Its metadata is checked at every access, a completed download
-- is counted, and an upload that is used up, too old or deleted goes away. The lock of an upload is not
-- modelled: each operation runs alone.
pub mod Downloads
pub mod LastDownload
pub mod Deletion
pub mod Unanswered
use send_to.Prelude.{
  ℕ, zero, suc, ◌+◌, Bool, true, false, Option, none, some, Bytes, eq_bytes, ltb, leb,
  if◌then◌else◌,
}
use send_to.Prelude.Int.{ℤ, pos, negsuc}
use send_to.Server.Exec.{
  World, Exec, pure, gets, modify, answer, plain, refused, msg_not_found, msg_delete_failed, ◌>>=◌,
  ◌>>◌,
}
use send_to.Server.Storage
use send_to.Server.Storage.{IoResult, good, missing, broken, sidecar}
use send_to.Server.Types.{Env, Config, Metadata}
use send_to.Server.Quota.{sub_used}
use send_to.Server.Owner.{forget_ownership}

-- `MaxDownloads != -1 && Downloads >= MaxDownloads`
unfoldable pub used_up : ℕ → ℤ → Bool
used_up downloads (negsuc zero) = false
used_up downloads (negsuc (suc n)) = true
used_up downloads (pos n) = leb n downloads

-- `!MaxDate.IsZero() && time.Now().After(MaxDate)`
unfoldable pub too_old : ℕ → Option ℕ → Bool
too_old now none = false
too_old now (some date) = ltb date now

abbrev pub is_unlimited : ℤ → Bool
is_unlimited (negsuc zero) = true
is_unlimited (negsuc (suc n)) = false
is_unlimited (pos n) = false

module _ (env : Env) (c : Config) (t filename : Bytes) where
  abbrev pub read_back : IoResult Bytes → Option Metadata
  read_back missing = none
  read_back broken = none
  read_back (good content) = env.decode_metadata content

  abbrev pub after_purge : Metadata → IoResult (Unit {0}) → Exec (Unit {0})
  after_purge m broken = pure tt
  after_purge m _ = do
    modify (λ w. record w { quota_used = sub_used c w.quota_used m.content_length })
    forget_ownership env m.owner_hash t filename
    modify (λ w. record w {
      metrics = record w.metrics { expired_purged = w.metrics.expired_purged + 1 };
    })

  -- an upload whose deletion fails is left for the scheduled purge
  unfoldable pub purge_expired : Metadata → Exec (Unit {0})
  purge_expired m = do deleted ← Storage.delete t filename; after_purge m deleted

  abbrev pub checked : Option Metadata → Exec (Option Metadata)
  checked none = pure none
  checked (some m) = do
    now ← gets (λ w. w.now)
    if used_up m.downloads m.max_downloads
        then (do purge_expired m; pure none)
        else if too_old now m.max_date
        then (do purge_expired m; pure none)
        else pure (some m)

  -- The metadata, or any of the errors.
  unfoldable pub read_metadata : Exec (Option Metadata)
  read_metadata = do object ← Storage.get t (sidecar filename); checked (read_back object)

  abbrev pub check_metadata : Exec (Option Metadata)
  check_metadata = read_metadata

  abbrev pub after_count : Metadata → IoResult (Unit {0}) → Exec Bool
  after_count m missing = pure false
  after_count m broken = pure false
  after_count m (good _) =
      if used_up m.downloads m.max_downloads then (do purge_expired m; pure true) else pure true

  abbrev pub counted : Option Metadata → Exec Bool
  counted none = pure false
  counted (some m) = if is_unlimited m.max_downloads then pure true else do
    let more = record m { downloads = m.downloads + 1 }
    put ← Storage.put t (sidecar filename) (env.encode_metadata more)
    after_count more put

  -- Whether the download has been recorded.
  unfoldable pub increase_download : Exec Bool
  increase_download = do m ← read_metadata; counted m

  abbrev matched : Bytes → Option Metadata → Option Metadata
  matched deletion_token none = none
  matched deletion_token (some m) =
      if eq_bytes m.deletion_token deletion_token then some m else none

  -- The metadata, or any of the errors.
  unfoldable pub check_deletion_token : Bytes → Exec (Option Metadata)
  check_deletion_token deletion_token = do
    object ← Storage.get t (sidecar filename)
    pure (matched deletion_token (read_back object))

  abbrev pub after_delete : Metadata → IoResult (Unit {0}) → Exec (Unit {0})
  after_delete m missing = answer (refused 404 msg_not_found none)
  after_delete m broken = answer (refused 500 msg_delete_failed none)
  after_delete m (good _) = do
    modify (λ w. record w { quota_used = sub_used c w.quota_used m.content_length })
    forget_ownership env m.owner_hash t filename
    modify (λ w. record w { metrics = record w.metrics { deletes = w.metrics.deletes + 1 } })
    answer (plain 200)

  abbrev pub deletion : Option Metadata → Exec (Unit {0})
  deletion none = answer (refused 404 msg_not_found none)
  deletion (some m) = do deleted ← Storage.delete t filename; after_delete m deleted

  unfoldable pub delete_handler : Bytes → Exec (Unit {0})
  delete_handler deletion_token = do m ← check_deletion_token deletion_token; deletion m
