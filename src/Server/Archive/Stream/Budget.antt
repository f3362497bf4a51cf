-- ===== src/Server/Archive/Stream/Budget.antt =====
-- server/archive.go: an archive spends the download budget of its members.
use send_to.Prelude.{
  ℕ, zero, suc, ◌+◌, ◌-◌, ◌<◌, ◌≤◌, ◌≡◌, ◌≢◌, refl, ap, sym, ◌∙◌, subst, ◌⊎◌, inl, inr, true, false,
  Bool, Bool-cases, ltb, none, Bytes, arith, min, replicate,
}
use send_to.Server.Exec.{
  World, Fault, works, fails, Reply, head_fault, tail_faults, bind_reply, pure, system_call,
}
use send_to.Server.Post.{Post, Post-bind}
use send_to.Server.Storage
use send_to.Server.Storage.{IoResult, good, on_file, then_stat, read_file, stored_path, sidecar}
use send_to.Server.Storage.Works.{system_call_works, get_works}
use send_to.Server.Types.{Env, Config, Metadata}
use send_to.Server.Owner.{owner_index_token}
use send_to.Server.Lifecycle.{checked, read_back, read_metadata, increase_download}
use send_to.Server.Lifecycle.Downloads.{
  Live, Gone, Live-step, read_metadata-Live, increase_download_more,
}
use send_to.Server.Lifecycle.LastDownload.{increase_download_last}
use send_to.Server.Archive.{ArchiveEntry, parse_archive_keys}
use send_to.Server.Archive.Stream.{
  ArchiveFile, add_to, entry_checked, entry_copied, copy_archive_entry, write_entries, archive_of,
  zip_handler, tar_handler, tar_gz_handler,
}

-- no access brings an upload back
read_metadata-keeps_Gone :
    (env : Env) (c : Config) (t filename : Bytes) (w : World)
    → Gone t filename w
    → Post (λ o w'. (o ≡ none) × Gone t filename w') (λ _ _. ⊥) (read_metadata env c t filename w)
unfolding read_metadata Gone Storage.get read_file system_call
read_metadata-keeps_Gone env c t filename w (file, side) =
    rw side (found_none (head_fault w.faults))
  where
    found_none :
        (fault : Fault)
        → Post
            (λ o w'. (o ≡ none) × Gone t filename w')
            (λ _ _. ⊥)
            (bind_reply
              (then_stat
                (stored_path t (sidecar filename))
                (on_file fault none)
                (record w { faults = tail_faults w.faults }))
              (λ object. checked env c t filename (read_back env c t filename object)))
    found_none works = (refl, (file, side))
    found_none (fails n) = (refl, (file, side))

abbrev pub entry : Bytes → Bytes → ArchiveEntry
entry t filename = record { token = t; filename = filename }

module _ (env : Env) (c : Config) (t filename content : Bytes) (m : Metadata) (n : ℕ)
    (upload : t ≢ owner_index_token) where
  -- an archive of so many copies, which ends as it should
  abbrev pub archive_with : ℕ → ArchiveFile
  archive_with k = record { members = replicate k (filename, content); complete = true }

  write_entries-Gone :
      (k : ℕ) (sent : Bool) (w : World)
      → Gone t filename w
      → Post
          (λ a w'. (a ≡ archive_with 0) × Gone t filename w')
          (λ _ _. ⊥)
          (write_entries env c sent (replicate k (entry t filename)) w)
  unfolding write_entries
  write_entries-Gone zero sent w gone = (refl, gone)
  write_entries-Gone (suc k) sent w gone =
      Post-bind _ _ (read_metadata env c t filename w) _
        (read_metadata-keeps_Gone env c t filename w gone)
        (λ o w' found.
          subst
            (λ x.
              Post (λ a v. (a ≡ archive_with 0) × Gone t filename v) (λ _ _. ⊥)
                (entry_checked env c
                  (λ written. write_entries env c written (replicate k (entry t filename))) sent
                  (entry t filename) x w'))
            (sym found.0) (write_entries-Gone k sent w' found.1))
        (λ _ _ x. x)

  -- What an archive leaves of an upload that has been downloaded d times in full: it is gone or
  -- still there with its new count.
  abbrev pub Left : ℕ → World → Type 0
  Left d w = ((n ≤ d) × Gone t filename w) ⊎ ((d < n) × Live env c t filename content m n d w)

  -- a copy of an upload that is there is a download of it
  copy_archive_entry-Left :
      (d : ℕ) (w : World)
      → Live env c t filename content m n d w
      → d < n
      → Post
          (λ x w'. (x ≡ good content) × Left (d + 1) w')
          (λ _ _. ⊥)
          (copy_archive_entry env c (entry t filename) w)
  unfolding copy_archive_entry Live Gone
  copy_archive_entry-Left d w (calm, file, side, young) h =
      rw (get_works t filename content w calm file, system_call_works w calm)
        (elim (Bool-cases (ltb (d + 1) n)) [
          | inl more ↦
              let less : d + 1 < n = ground (arith, more) in
              rw
                (increase_download_more env c t filename content m n d w (calm, file, side, young)
                  less)
                (
                  refl,
                  inr (less, Live-step env c t filename content m n d w (calm, file, side, young)),
                )
          | inr no_more ↦
              let last : d + 1 ≡ n = ground (arith, no_more, h) in
              Post-bind _ _ (increase_download env c t filename w) _
                (increase_download_last env c t filename content m n upload d w
                  (calm, file, side, young) last)
                (λ _ w' done. (refl, inl (omega (arith, last), done.1))) (λ _ _ x. x)
        ])

  -- a member has been written, and the rest of the loop follows
  member_and_rest :
      (k d : ℕ) (w : World)
      → d < n
      → Left (d + 1) w
      → (d + 1 < n
          → Live env c t filename content m n (d + 1) w
          → Post
              (λ a w'. (a ≡ archive_with (min k (n - (d + 1)))) × Left (d + 1 + k) w')
              (λ _ _. ⊥)
              (write_entries env c true (replicate k (entry t filename)) w))
      → Post
          (λ a w'. (a ≡ archive_with (min (suc k) (n - d))) × Left (d + suc k) w')
          (λ _ _. ⊥)
          (bind_reply
            (write_entries env c true (replicate k (entry t filename)) w)
            (λ others. pure (add_to filename content others)))
  member_and_rest k d w h (inl (over, gone)) rest =
      let one : 1 ≡ min (suc k) (n - d) = omega (arith, over, h) in
      Post-bind _ _ (write_entries env c true (replicate k (entry t filename)) w) _
        (write_entries-Gone k true w gone)
        (λ a v done. (
          ap (add_to filename content) done.0 ∙ ap archive_with one,
          inl (omega (arith, over), done.1),
        ))
        (λ _ _ x. x)
  member_and_rest k d w h (inr (less, live)) rest =
      let more : suc (min k (n - (d + 1))) ≡ min (suc k) (n - d) = omega (arith, less) in
      Post-bind _ _ (write_entries env c true (replicate k (entry t filename)) w) _ (rest less live)
        (λ a v done. (
          ap (add_to filename content) done.0 ∙ ap archive_with more,
          subst (λ x. Left x v) (omega arith) done.1,
        ))
        (λ _ _ x. x)

  write_entries-Live :
      (k d : ℕ) (sent : Bool) (w : World)
      → Live env c t filename content m n d w
      → d < n
      → Post
          (λ a w'. (a ≡ archive_with (min k (n - d))) × Left (d + k) w')
          (λ _ _. ⊥)
          (write_entries env c sent (replicate k (entry t filename)) w)
  unfolding write_entries
  write_entries-Live zero d sent w live h =
      let none_left : 0 ≡ min 0 (n - d) = omega arith in
      (ap archive_with none_left, subst (λ x. Left x w) (omega arith) (inr (h, live)))
  write_entries-Live (suc k) d sent w live h =
      rw (read_metadata-Live env c t filename content m n d w live h) (
        Post-bind _ _ (copy_archive_entry env c (entry t filename) w) _
          (copy_archive_entry-Left d w live h)
          (λ x w' copied.
            subst
              (λ y.
                Post (λ a v. (a ≡ archive_with (min (suc k) (n - d))) × Left (d + suc k) v)
                  (λ _ _. ⊥)
                  (entry_copied env c
                    (λ written. write_entries env c written (replicate k (entry t filename))) sent
                    (entry t filename) y w'))
              (sym copied.0)
              (member_and_rest k d w' h copied.1
                (λ less live'. write_entries-Live k (d + 1) true w' live' less)))
          (λ _ _ x. x))

  -- An upload with a budget of n, downloaded d times before, is in the archive as often as it is named
  -- and as the budget allows, the archive ends as it should, and each copy has been counted.
  abbrev pub Spends : ℕ → ℕ → Reply ArchiveFile × World → Type 0
  Spends d k x = Post (λ a w. (a ≡ archive_with (min k (n - d))) × Left (d + k) w) (λ _ _. ⊥) x

  archive_of-Spends :
      (k d : ℕ) (w : World)
      → Live env c t filename content m n d w
      → d < n
      → 0 < k
      → Spends d k (archive_of env c (replicate k (entry t filename)) w)
  archive_of-Spends zero d w live left named = absurd (omega (arith, named))
  archive_of-Spends (suc k) d w live left named = write_entries-Live (suc k) d false w live left

  -- An upload with the budget n, stored under a token that is not the one of the owner lists, not too
  -- old and downloaded d < n times, where no call of the operating system fails: an archive of any of
  -- the three formats, whose link names the upload k > 0 times and nothing else, has min k (n - d)
  -- copies of the file under its name and is complete. Then the upload is gone if n ≤ d + k, and otherwise
  -- still there with the count d + k.
  pub zip_handler-Spends :
      (proxy_path files : Bytes) (k d : ℕ) (w : World)
      → Live env c t filename content m n d w
      → d < n
      → 0 < k
      → parse_archive_keys env.sanitize proxy_path files ≡ replicate k (entry t filename)
      → Spends d k (zip_handler env c proxy_path files w)
        × Spends d k (tar_handler env c proxy_path files w)
        × Spends d k (tar_gz_handler env c proxy_path files w)
  unfolding zip_handler tar_handler tar_gz_handler
  zip_handler-Spends proxy_path files k d w live left named link =
      let spends : Spends d k
          (archive_of env c (parse_archive_keys env.sanitize proxy_path files) w) =
        rw link (archive_of-Spends k d w live left named) in
      (spends, spends, spends)
