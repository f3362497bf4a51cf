-- ===== src/Server/Lifecycle/Deletion.antt =====
-- The DELETE handler of server/handlers.go: who can delete an upload, and what is left of it.
use send_to.Prelude.{
  ◌≡◌, ◌≢◌, refl, sym, subst, none, some, [], Bytes, arith, eq_bytes_iff, eq_bytes_refl,
}
use send_to.Server.Fs.{lookup}
use send_to.Server.Exec.{World, Answer, refused, plain, msg_not_found, system_call}
use send_to.Server.Post.{Post, Post-bind}
use send_to.Server.Storage
use send_to.Server.Storage.{
  IoResult, good, missing, broken, read_file, on_file, then_stat, stored_path, sidecar,
}
use send_to.Server.Storage.Works.{get_works, delete_works, without}
use send_to.Server.Types.{Env, Config, Metadata}
use send_to.Server.Quota.{sub_used}
use send_to.Server.Owner.{owner_index_token, forget_ownership}
use send_to.Server.Lifecycle.{check_deletion_token, deletion, delete_handler}
use send_to.Server.Lifecycle.Downloads.{Gone}
use send_to.Server.Lifecycle.LastDownload.{forget_ownership-Gone}

module _ (env : Env) (c : Config) (t filename : Bytes) (m : Metadata) (secret : Bytes) where
  check_denied :
      (w : World)
      → lookup (stored_path t (sidecar filename)) w.files ≡ some (env.encode_metadata m)
      → secret ≢ m.deletion_token
      → Post
          (λ x w'.
            (x ≡ none)
            × (w'.files ≡ w.files)
            × (w'.quota_used ≡ w.quota_used)
            × (w'.metrics ≡ w.metrics))
          (λ _ _. ⊥)
          (check_deletion_token env c t filename secret w)
  unfolding check_deletion_token Storage.get read_file system_call
  check_denied w side wrong =
      ground (arith, side, env.decode-encode_metadata m, eq_bytes_iff m.deletion_token secret)

  -- A deletion token that is not the one in the sidecar deletes nothing, whatever calls of the
  -- operating system fail: the answer is 404, and no file, the storage counter and no metric has changed.
  pub delete_handler_denied :
      (w : World)
      → lookup (stored_path t (sidecar filename)) w.files ≡ some (env.encode_metadata m)
      → secret ≢ m.deletion_token
      → Post
          (λ _ _. ⊥)
          (λ a w'.
            (a ≡ refused 404 msg_not_found none)
            × (w'.files ≡ w.files)
            × (w'.quota_used ≡ w.quota_used)
            × (w'.metrics ≡ w.metrics))
          (delete_handler env c t filename secret w)
  unfolding delete_handler
  delete_handler_denied w side wrong =
      Post-bind _ Denied (check_deletion_token env c t filename secret w) _
        (check_denied w side wrong)
        (λ x w' found.
          subst (λ y. Post (λ _ _. ⊥) Denied (deletion env c t filename y w')) (sym found.0)
            (refl, found.1, found.2, found.3))
        (λ _ _ e. absurd e)
    where
      Denied : Answer → World → Type 0
      Denied a w' =
          (a ≡ refused 404 msg_not_found none)
          × (w'.files ≡ w.files)
          × (w'.quota_used ≡ w.quota_used)
          × (w'.metrics ≡ w.metrics)

  -- The right token, where no call of the operating system fails: the answer is 200, the upload and its
  -- sidecar are gone.
  pub delete_handler_granted :
      (content : Bytes) (w : World)
      → w.faults ≡ []
      → t ≢ owner_index_token
      → lookup (stored_path t filename) w.files ≡ some content
      → lookup (stored_path t (sidecar filename)) w.files ≡ some (env.encode_metadata m)
      → secret ≡ m.deletion_token
      → Post
          (λ _ _. ⊥)
          (λ a w'. (a ≡ plain 200) × Gone t filename w')
          (delete_handler env c t filename secret w)
  unfolding delete_handler check_deletion_token Gone
  delete_handler_granted content w calm upload file side right =
      rw
        (
          get_works t (sidecar filename) (env.encode_metadata m) w calm side,
          env.decode-encode_metadata m,
          right,
          eq_bytes_refl m.deletion_token,
          delete_works t filename content (env.encode_metadata m) w calm file side,
        )
        (Post-bind (λ _ _. ⊥) (λ a w'. (a ≡ plain 200) × Gone t filename w')
          (forget_ownership env m.owner_hash t filename (record w {
            files = without t filename w.files;
            quota_used = sub_used c w.quota_used m.content_length;
          }))
          _ (forget_ownership-Gone env t filename m.owner_hash w.files _ upload refl)
          (λ _ _ gone. (refl, gone)) (λ _ _ e. absurd e))
