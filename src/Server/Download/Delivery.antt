-- ===== src/Server/Download/Delivery.antt =====
-- server/download.go: the GET handler hands out what the storage has found.
use send_to.Prelude.{
  ℕ, ◌≡◌, refl, ap, Bool, true, false, not, ◌&&◌, Option, some, [], Bytes, if◌then◌else◌,
}
use send_to.Range.{Range}
use send_to.Server.Fs.{lookup}
use send_to.Server.Exec.{
  World, next, Answer, refused, session_at, offset_at, stored, stored_all, served, not_modified,
  listed, collected, redirected, plain, Download, pure, ◌>>=◌,
}
use send_to.Server.Post.{Post, Post-bind}
use send_to.Server.Storage.{good, stored_path, sidecar}
use send_to.Server.Storage.Works.{system_call_works, get_works}
use send_to.Server.Types.{Env, Config, Headers, Metadata}
use send_to.Server.Lifecycle.{used_up, too_old, read_metadata, increase_download}
use send_to.Server.Lifecycle.Unanswered.{increase_download-Unanswered}
use send_to.Server.Caching.{upload_etag, etag_matches}
use send_to.Server.Upload.{is_unset}
use send_to.Server.Upload.Put.{complete}
use send_to.Server.Download.{
  requested_range, limited, fetch, deliver, count_download, content_range_of, get_handler,
  decryption, serve_not_modified,
}

and_false : (b : Bool) (k n : ℕ) → (if b && false then k else n) ≡ n
and_false true k n = refl
and_false false k n = refl

-- The answer is a download with P.
abbrev pub Serves : (Download → Type 0) → Answer → Type 0
Serves P (served d) = P d
Serves P (refused status msg o) = ⊥
Serves P (session_at status url o) = ⊥
Serves P (offset_at status o) = ⊥
Serves P (stored result) = ⊥
Serves P (stored_all results) = ⊥
Serves P (not_modified etag max_age) = ⊥
Serves P (listed entries) = ⊥
Serves P (collected status token collection) = ⊥
Serves P (redirected files) = ⊥
Serves P (plain status) = ⊥

pub Serves-mono :
    {P Q : Download → Type 0} (a : Answer) → ((d : Download) → P d → Q d) → Serves P a → Serves Q a
Serves-mono (served d) f p = f d p
Serves-mono (refused _ _ _) f p = elim p [ ]
Serves-mono (session_at _ _ _) f p = elim p [ ]
Serves-mono (offset_at _ _) f p = elim p [ ]
Serves-mono (stored _) f p = elim p [ ]
Serves-mono (stored_all _) f p = elim p [ ]
Serves-mono (not_modified _ _) f p = elim p [ ]
Serves-mono (listed _) f p = elim p [ ]
Serves-mono (collected _ _ _) f p = elim p [ ]
Serves-mono (redirected _) f p = elim p [ ]
Serves-mono (plain _) f p = elim p [ ]

module _ (env : Env) (c : Config) (t filename content : Bytes) (m : Metadata) (h : Headers) where
  -- The upload is there with its sidecar, neither used up nor too old, and no call of the operating
  -- system fails.
  unfoldable pub Available : World → Type 0
  Available w =
      (w.faults ≡ [])
      × (lookup (stored_path t filename) w.files ≡ some content)
      × (lookup (stored_path t (sidecar filename)) w.files ≡ some (env.encode_metadata m))
      × (used_up m.downloads m.max_downloads ≡ false)
      × (too_old w.now m.max_date ≡ false)

  read_metadata-Available :
      (w : World) → Available w → read_metadata env c t filename w ≡ (next (some m), w)
  unfolding read_metadata Available
  read_metadata-Available w (calm, file, side, left, young) = rw (
    get_works t (sidecar filename) (env.encode_metadata m) w calm side,
    env.decode-encode_metadata m,
    left,
    young,
  )

  count_download-Unanswered :
      (rng : Option Range) (w : World)
      → Post (λ _ _. Unit) (λ _ _. ⊥) (count_download env c t filename m rng w)
  unfolding count_download
  count_download-Unanswered rng = counting _
    where
      counting :
          (free : Bool) (w : World)
          → Post {0, 0}
              (λ _ _. Unit)
              (λ _ _. ⊥)
              ((if free then pure tt else do _ ← increase_download env c t filename; pure tt) w)
      counting true w = tt
      counting false w =
          Post-bind (λ _ _. Unit) (λ _ _. ⊥) (increase_download env c t filename w) (λ _. pure tt)
            (increase_download-Unanswered env c t filename w) (λ _ _ _. tt) (λ _ _ e. e)

  -- the download of what the storage has found
  abbrev pub Sends : Bytes × ℕ × Option Range → Download → Type 0
  Sends x d =
      (d.content ≡ limited x.2 x.0)
      × (d.content_length ≡ x.1)
      × (d.status ≡ (if is_unset (content_range_of x.2) then 200 else 206))
      × (d.broken_off ≡ false)

  deliver-Serves :
      (x : Bytes × ℕ × Option Range) (w : World)
      → w.faults ≡ []
      → h.decrypt_password ≡ []
      → Post
          (λ _ _. ⊥)
          (λ a _. Serves (Sends x) a)
          (deliver env c t filename false h m x.2 x.1 (some (complete (limited x.2 x.0))) w)
  deliver-Serves x w calm bare =
      rw (system_call_works w calm, bare)
        (Post-bind (λ _ _. ⊥) (λ a _. Serves (Sends x) a) (count_download env c t filename m x.2 _)
          _ (count_download-Unanswered x.2 _)
          (λ _ _ _. (refl, and_false m.encrypted _ x.1, refl, refl)) (λ _ _ e. absurd e))

  -- no client's copy is asked about, and no password is given
  abbrev pub Plain : Type 0
  Plain =
      (h.decrypt_password ≡ [])
      × (etag_matches env.trim_space h.if_none_match (upload_etag env.etag_hash t filename m false)
          ≡ false)

  serve_not_modified-Plain :
      (w : World)
      → Plain
      → serve_not_modified env c t filename h m (not (is_unset h.decrypt_password)) w ≡ (next tt, w)
  unfolding serve_not_modified
  serve_not_modified-Plain w (bare, fresh) = rw (ap (λ p. not (is_unset p)) bare, fresh) refl

  pub get_handler-Sends :
      (w : World) (x : Bytes × ℕ × Option Range)
      → Available w
      → Plain
      → fetch t filename (requested_range h.range) w ≡ (next (good x), w)
      → Post (λ _ _. ⊥) (λ a _. Serves (Sends x) a) (get_handler env c t filename false h w)
  unfolding get_handler Available
  get_handler-Sends w x (calm, file, side, left, young) (bare, fresh) got =
      let plain_body : decryption env c t filename h.decrypt_password (limited x.2 x.0)
          ≡ some (complete (limited x.2 x.0)) =
        ap (λ p. decryption env c t filename p (limited x.2 x.0)) bare in
      rw
        (
          read_metadata-Available w (calm, file, side, left, young),
          serve_not_modified-Plain w (bare, fresh),
          got,
          plain_body,
        )
        (deliver-Serves x w calm bare)
