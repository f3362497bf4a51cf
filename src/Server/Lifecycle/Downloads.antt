-- ===== src/Server/Lifecycle/Downloads.antt =====
-- server/handlers.go: how often an upload with a Max-Downloads budget can be downloaded.
use send_to.Prelude.{
  ℕ, zero, suc, ◌+◌, ◌<◌, ◌≡◌, subst, ◌∙◌, true, false, none, some, [], Bytes, arith, leb,
}
use send_to.Prelude.Int.{pos}
use send_to.Server.Fs
use send_to.Server.Fs.{
  Files, FilePath, token_dir, lookup, lookup-put, lookup-put_self, lookup-remove, eq_path,
  eq_path_iff, eq_path_refl,
}
use send_to.Server.Exec.{World, Exec, next, pure, ◌>>=◌}
use send_to.Server.Post.{Post, Post-mono}
use send_to.Server.Storage.{stored_path, sidecar}
use send_to.Server.Storage.Works.{get_works, put_works, sidecar-ne}
use send_to.Server.Types.{Env, Config, Metadata}
use send_to.Server.Lifecycle.{used_up, too_old, read_metadata, check_metadata, increase_download}

-- Neither the upload nor its sidecar is there.
unfoldable pub Gone : Bytes → Bytes → World → Type 0
Gone t filename w =
    (lookup (stored_path t filename) w.files ≡ none)
    × (lookup (stored_path t (sidecar filename)) w.files ≡ none)

-- k downloads that run to their end, one after the other
unfoldable pub downloads : Env → Config → Bytes → Bytes → ℕ → Exec (Unit {0})
downloads env c t filename zero = pure tt
downloads env c t filename (suc k) = do
  _ ← increase_download env c t filename
  downloads env c t filename k

-- the metadata of an upload with the budget n, after k downloads
abbrev pub after : Metadata → ℕ → ℕ → Metadata
after m n k = record m { downloads = k; max_downloads = pos n }

module _ (env : Env) (c : Config) (t filename content : Bytes) (m : Metadata) (n : ℕ) where
  -- The upload is there, with the count k, and no call of the operating system fails.
  unfoldable pub Live : ℕ → World → Type 0
  Live k w =
      (w.faults ≡ [])
      × (lookup (stored_path t filename) w.files ≡ some content)
      × (lookup (stored_path t (sidecar filename)) w.files
          ≡ some (env.encode_metadata (after m n k)))
      × (too_old w.now m.max_date ≡ false)

  pub read_metadata-Live :
      (k : ℕ) (w : World)
      → Live k w
      → k < n
      → read_metadata env c t filename w ≡ (next (some (after m n k)), w)
  unfolding read_metadata Live used_up
  read_metadata-Live k w (calm, file, side, young) h =
      let left : leb n k ≡ false = ground arith in
      rw (
        get_works t (sidecar filename) (env.encode_metadata (after m n k)) w calm side,
        env.decode-encode_metadata (after m n k),
        left,
        young,
      )

  -- a download that is not the last
  pub increase_download_more :
      (k : ℕ) (w : World)
      → Live k w
      → k + 1 < n
      → increase_download env c t filename w ≡ (
        next true,
        record w {
          files =
              Fs.put
                (stored_path t (sidecar filename))
                (env.encode_metadata (after m n (k + 1)))
                w.files;
        },
      )
  unfolding increase_download used_up Live
  increase_download_more k w (calm, file, side, young) h =
      let left : leb n (k + 1) ≡ false = ground arith in
      rw (
        read_metadata-Live k w (calm, file, side, young) (omega arith),
        put_works t (sidecar filename) (env.encode_metadata (after m n (k + 1))) w calm,
        left,
      )

  pub Live-step :
      (k : ℕ) (w : World)
      → Live k w
      → Live (k + 1) (record w {
        files =
            Fs.put
              (stored_path t (sidecar filename))
              (env.encode_metadata (after m n (k + 1)))
              w.files;
      })
  unfolding Live
  Live-step k w (calm, file, side, young) = (
    calm,
    lookup-put _ _ _ w.files ∙ rw (sidecar-ne t filename, file),
    lookup-put_self (stored_path t (sidecar filename)) _ w.files,
    young,
  )

  downloads-from :
      (k d : ℕ) (w : World)
      → Live d w
      → d + k < n
      → Post (λ _ w'. Live (d + k) w') (λ _ _. ⊥) (downloads env c t filename k w)
  unfolding downloads
  downloads-from zero d w live h = subst (λ x. Live x w) (omega arith) live
  downloads-from (suc k) d w live h = rw (increase_download_more d w live (omega arith)) (
      Post-mono (downloads env c t filename k _) (λ _ w'. subst (λ x. Live x w') (omega arith))
        (λ _ _ x. x) (downloads-from k (d + 1) _ (Live-step d w live) (omega arith)))

  -- An upload with the budget n, not too old and not yet downloaded, where no call of the operating
  -- system fails: after k < n completed downloads its file is as it was, and the next access gets its
  -- metadata with the count k.
  pub downloads-Live :
      (k : ℕ) (w : World)
      → Live 0 w
      → k < n
      → Post
          (λ _ w'.
            (lookup (stored_path t filename) w'.files ≡ some content)
            × (check_metadata env c t filename w' ≡ (next (some (after m n k)), w')))
          (λ _ _. ⊥)
          (downloads env c t filename k w)
  unfolding Live
  downloads-Live k w live h =
      Post-mono (downloads env c t filename k w)
        (λ _ w' there.
          let there' : Live k w' = subst (λ x. Live x w') (omega arith) there in
          (there'.1, read_metadata-Live k w' there' h))
        (λ _ _ x. x) (downloads-from k 0 w live (omega arith))
