-- ===== src/Server/Lifecycle/LastDownload.antt =====
-- server/handlers.go: the last download of an upload with a Max-Downloads budget.
use send_to.Prelude.{
  ℕ, zero, suc, ◌+◌, ◌-◌, ◌<◌, ◌≡◌, ◌≢◌, refl, ap, subst, ◌∙◌, true, none, some, Bytes, arith, leb,
}
use send_to.Server.Fs
use send_to.Server.Fs.{
  Files, FilePath, token_dir, lookup, lookup-put, lookup-put_self, lookup-remove, eq_path,
  eq_path_iff, eq_path_refl,
}
use send_to.Server.Exec.{
  World, bind_reply, Fault, works, fails, next, pure, head_fault, tail_faults, system_call,
}
use send_to.Server.Post.{Post, Post-mono, Post-and, Post-bind}
use send_to.Server.Storage
use send_to.Server.Storage.{
  IoResult, on_file, then_stat, good, missing, broken, read_file, stored_path, sidecar,
}
use send_to.Server.Storage.Works.{put_works, delete_works, without, lookup-without, sidecar-ne}
use send_to.Server.Types.{Env, Config, Metadata}
use send_to.Server.Owner.{owner_index_token, forget_ownership}
use send_to.Server.Owner.Frame.{forget_ownership-Leaves}
use send_to.Server.Lifecycle.{
  used_up, read_back, after_purge, purge_expired, checked, read_metadata, check_metadata,
  increase_download,
}
use send_to.Server.Lifecycle.Downloads.{
  after, Live, Gone, downloads, Live-step, increase_download_more, read_metadata-Live,
}

-- An upload whose two files have been removed is gone when it has been taken off its owner's list.
pub forget_ownership-Gone :
    (env : Env) (t filename hash : Bytes) (files : Files) (w : World)
    → t ≢ owner_index_token
    → w.files ≡ without t filename files
    → Post (λ _ w'. Gone t filename w') (λ _ _. ⊥) (forget_ownership env hash t filename w)
unfolding Gone
forget_ownership-Gone env t filename hash files w upload gone =
    Post-mono (forget_ownership env hash t filename w)
      (λ _ w' same. (
        same.0 ∙ ap (lookup (stored_path t filename)) gone ∙ (lookup-without t filename files).0,
        same.1
            ∙ ap (lookup (stored_path t (sidecar filename))) gone
            ∙ (lookup-without t filename files).1,
      ))
      (λ _ _ e. e)
      (Post-and _ _ _ (forget_ownership env hash t filename w)
        (forget_ownership-Leaves env (stored_path t filename) other hash t filename w)
        (forget_ownership-Leaves env (stored_path t (sidecar filename)) other hash t filename w))
  where
    other : token_dir t ≢ token_dir owner_index_token
    other same = upload cc

module _ (env : Env) (c : Config) (t filename content : Bytes) (m : Metadata) (n : ℕ)
    (upload : t ≢ owner_index_token) where
  purged :
      (x : Metadata) (w : World)
      → Post
          (λ _ w'. Gone t filename w')
          (λ _ _. ⊥)
          (after_purge env c t filename x
            (good tt)
            (record w { files = without t filename w.files }))
  unfolding Gone
  purged x w =
      Post-bind (λ _ w'. Gone t filename w') (λ _ _. ⊥)
        (forget_ownership env x.owner_hash t filename _) _
        (forget_ownership-Gone env t filename x.owner_hash w.files _ upload refl) (λ _ _ gone. gone)
        (λ _ _ e. e)

  -- the last download
  pub increase_download_last :
      (k : ℕ) (w : World)
      → Live env c t filename content m n k w
      → k + 1 ≡ n
      → Post
          (λ ok w'. (ok ≡ true) × Gone t filename w')
          (λ _ _. ⊥)
          (increase_download env c t filename w)
  unfolding increase_download used_up Live purge_expired
  increase_download_last k w (calm, file, side, young) h =
      let full : leb n (k + 1) ≡ true = ground arith in
      rw
        (
          read_metadata-Live env c t filename content m n k w (calm, file, side, young)
              (omega arith),
          put_works t (sidecar filename) (env.encode_metadata (after m n (k + 1))) w calm,
          full,
        )
        (Post-bind (λ ok w'. (ok ≡ true) × Gone t filename w') (λ _ _. ⊥)
          (purge_expired env c t filename (after m n (k + 1)) counted_world) _
          (purge_lem (lookup-put _ _ _ w.files ∙ rw (sidecar-ne t filename, file))
            (lookup-put_self (stored_path t (sidecar filename)) _ w.files))
          (λ _ w' gone. (refl, gone)) (λ _ _ e. e))
    where
      counted_world : World
      counted_world = record w {
        files =
            Fs.put (stored_path t (sidecar filename)) (env.encode_metadata (after m n (k + 1)))
              w.files;
      }

      purge_lem :
          lookup (stored_path t filename) counted_world.files ≡ some content
          → lookup (stored_path t (sidecar filename)) counted_world.files
            ≡ some (env.encode_metadata (after m n (k + 1)))
          → Post
              (λ _ w'. Gone t filename w')
              (λ _ _. ⊥)
              (purge_expired env c t filename (after m n (k + 1)) counted_world)
      purge_lem f s =
          rw (delete_works t filename content _ counted_world calm f s)
            (purged (after m n (k + 1)) counted_world)

  -- what an access finds when no file is there
  pub read_metadata-Gone :
      (w : World) → Gone t filename w → (read_metadata env c t filename w).0 ≡ next none
  unfolding read_metadata Gone Storage.get read_file system_call
  read_metadata-Gone w (file, side) = rw side (none_found (head_fault w.faults))
    where
      none_found :
          (fault : Fault)
          → (bind_reply
              (then_stat
                (stored_path t (sidecar filename))
                (on_file fault none)
                (record w { faults = tail_faults w.faults }))
              (λ object. checked env c t filename (read_back env c t filename object))).0
            ≡ next none
      none_found works = refl
      none_found (fails n) = refl

  downloads-to_end :
      (k d : ℕ) (w : World)
      → Live env c t filename content m n d w
      → d + suc k ≡ n
      → Post (λ _ w'. Gone t filename w') (λ _ _. ⊥) (downloads env c t filename (suc k) w)
  unfolding downloads
  downloads-to_end zero d w live h =
      Post-bind _ _ (increase_download env c t filename w) (λ _. pure tt)
        (increase_download_last d w live h) (λ _ _ done. done.1) (λ _ _ x. x)
  downloads-to_end (suc k) d w live h =
      rw (increase_download_more env c t filename content m n d w live (omega arith)) (
        downloads-to_end k (d + 1) _ (Live-step env c t filename content m n d w live)
          (omega arith))

  -- An upload with the budget n > 0, stored under a token that is not the one of the owner lists, not
  -- too old and not yet downloaded, where no call of the operating system fails: after n completed
  -- downloads its file and its sidecar are gone, and the next access finds nothing.
  pub downloads-Gone :
      (w : World)
      → Live env c t filename content m n 0 w
      → 0 < n
      → Post
          (λ _ w'. Gone t filename w' × ((check_metadata env c t filename w').0 ≡ next none))
          (λ _ _. ⊥)
          (downloads env c t filename n w)
  downloads-Gone w live h =
      Post-mono (downloads env c t filename n w) (λ _ w' gone. (gone, read_metadata-Gone w' gone))
        (λ _ _ x. x)
        (subst (λ k. Post (λ _ w'. Gone t filename w') (λ _ _. ⊥) (downloads env c t filename k w))
          (omega arith) (downloads-to_end (n - 1) 0 w live (omega arith)))
