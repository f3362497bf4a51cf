-- ===== src/Server/Lifecycle/Unanswered.antt =====
-- server/handlers.go: counting a download goes on whatever fails, and leaves the answer to its caller.
use send_to.Prelude.{◌+◌, Bool, true, false, Option, none, some, List, Bytes, arith, if◌then◌else◌}
use send_to.Server.Fs.{FilePath}
use send_to.Server.Exec.{World, Exec, pure, gets, modify, system_call, ◌>>=◌, ◌>>◌}
use send_to.Server.Post.{Post, Post-bind}
use send_to.Server.Storage
use send_to.Server.Storage.{
  IoResult, good, missing, broken, sidecar, remove_file, read_file, write_file,
}
use send_to.Server.Types.{Env, Config, Metadata, OwnerEntry}
use send_to.Server.Quota.{sub_used}
use send_to.Server.Owner.{
  forget_ownership, forget_in, read_owner_index, write_owner_index, is_empty,
}
use send_to.Server.Lifecycle.{
  purge_expired, after_purge, read_metadata, checked, read_back, counted, after_count,
  increase_download, used_up, too_old, is_unlimited,
}

-- Whatever the state, the part goes on.
abbrev pub Unanswered {ℓ} : {A : Type ℓ} → Exec A → Type 0
Unanswered m = (w : World) → Post (λ _ _. Unit) (λ _ _. ⊥) (m w)

pub Unanswered-bind {ℓ ℓ'} :
    {A : Type ℓ} {B : Type ℓ'} (m : Exec A) (f : A → Exec B)
    → Unanswered m
    → ((a : A) → Unanswered (f a))
    → Unanswered (m >>= f)
Unanswered-bind m f h k w =
    Post-bind (λ _ _. Unit) (λ _ _. ⊥) (m w) f (h w) (λ a w' _. k a w') (λ _ _ e. e)

remove_file-Unanswered : (p : FilePath) → Unanswered (remove_file p)
unfolding remove_file system_call
remove_file-Unanswered p w = ground arith

delete-Unanswered : (t filename : Bytes) → Unanswered (Storage.delete t filename)
unfolding Storage.delete
delete-Unanswered t filename =
    Unanswered-bind _ _ (remove_file-Unanswered _) λ _. remove_file-Unanswered _

pub put-Unanswered : (t filename content : Bytes) → Unanswered (Storage.put t filename content)
unfolding Storage.put system_call write_file
put-Unanswered t filename content w = ground arith

get-Unanswered : (t filename : Bytes) → Unanswered (Storage.get t filename)
unfolding Storage.get read_file system_call
get-Unanswered t filename w = ground arith

module _ (env : Env) (c : Config) (t filename : Bytes) where
  forget_ownership-Unanswered : (hash : Bytes) → Unanswered (forget_ownership env hash t filename)
  unfolding forget_ownership read_owner_index write_owner_index
  forget_ownership-Unanswered hash = owned (is_empty hash)
    where
      rewritten :
          (kept : List OwnerEntry) (same : Bool)
          → Unanswered {0}
              (if same then pure tt else do _ ← write_owner_index env hash kept; pure tt)
      rewritten kept true = λ _. tt
      rewritten kept false = Unanswered-bind _ _ (put-Unanswered _ _ _) λ _ _. tt

      forgotten : (x : IoResult (List OwnerEntry)) → Unanswered (forget_in env hash t filename x)
      forgotten (good entries) = rewritten _ _
      forgotten missing = λ _. tt
      forgotten broken = λ _. tt

      owned :
          (no_owner : Bool)
          → Unanswered {0} (
              if no_owner
              then pure tt
              else do entries ← read_owner_index env hash; forget_in env hash t filename entries)
      owned true = λ _. tt
      owned false =
          Unanswered-bind _ _ (Unanswered-bind _ _ (get-Unanswered _ _) λ _ _. tt) forgotten

  purge_expired-Unanswered : (m : Metadata) → Unanswered (purge_expired env c t filename m)
  unfolding purge_expired
  purge_expired-Unanswered m = Unanswered-bind _ _ (delete-Unanswered _ _) after
    where
      gone : Unanswered {0} (do
        modify (λ w. record w { quota_used = sub_used c w.quota_used m.content_length })
        forget_ownership env m.owner_hash t filename
        modify (λ w. record w {
          metrics = record w.metrics { expired_purged = w.metrics.expired_purged + 1 };
        }))
      gone w = Unanswered-bind _ _ (forget_ownership-Unanswered m.owner_hash) (λ _ _. tt) _

      after : (x : IoResult (Unit {0})) → Unanswered (after_purge env c t filename m x)
      after broken = λ _. tt
      after missing = gone
      after (good _) = gone

  pub read_metadata-Unanswered : Unanswered (read_metadata env c t filename)
  unfolding read_metadata
  read_metadata-Unanswered =
      Unanswered-bind _ _ (get-Unanswered _ _)
        λ x. checked-Unanswered (read_back env c t filename x)
    where
      purged :
          (m : Metadata)
          → Unanswered (purge_expired env c t filename m >> pure {A = Option Metadata} none)
      purged m = Unanswered-bind _ _ (purge_expired-Unanswered m) λ _ _. tt

      aged :
          (m : Metadata) (old : Bool)
          → Unanswered {0}
              (if old then (do purge_expired env c t filename m; pure none) else pure (some m))
      aged m true = purged m
      aged m false = λ _. tt

      used :
          (m : Metadata) (over : Bool)
          → Unanswered {0} (do
            now ← gets (λ w. w.now)
            if over
                then (do purge_expired env c t filename m; pure none)
                else if too_old now m.max_date
                then (do purge_expired env c t filename m; pure none)
                else pure (some m))
      used m true = purged m
      used m false = λ w. aged m (too_old w.now m.max_date) w

      checked-Unanswered : (o : Option Metadata) → Unanswered (checked env c t filename o)
      checked-Unanswered none = λ _. tt
      checked-Unanswered (some m) = used m (used_up m.downloads m.max_downloads)

  pub increase_download-Unanswered : Unanswered (increase_download env c t filename)
  unfolding increase_download
  increase_download-Unanswered = Unanswered-bind _ _ read_metadata-Unanswered counted-Unanswered
    where
      spent :
          (m : Metadata) (over : Bool)
          → Unanswered {0}
              (if over then (do purge_expired env c t filename m; pure true) else pure true)
      spent m true = Unanswered-bind _ _ (purge_expired-Unanswered m) λ _ _. tt
      spent m false = λ _. tt

      put : (m : Metadata) (x : IoResult (Unit {0})) → Unanswered (after_count env c t filename m x)
      put m (good _) = spent m (used_up m.downloads m.max_downloads)
      put m missing = λ _. tt
      put m broken = λ _. tt

      limited :
          (m : Metadata) (free : Bool)
          → Unanswered {0} (
              if free then pure true else do
                let more = record m { downloads = m.downloads + 1 }
                put ← Storage.put t (sidecar filename) (env.encode_metadata more)
                after_count env c t filename more put)
      limited m true = λ _. tt
      limited m false =
          Unanswered-bind _ _ (put-Unanswered _ _ _)
            (put (record m { downloads = m.downloads + 1 }))

      counted-Unanswered : (o : Option Metadata) → Unanswered (counted env c t filename o)
      counted-Unanswered none = λ _. tt
      counted-Unanswered (some m) = limited m (is_unlimited m.max_downloads)
