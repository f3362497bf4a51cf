-- ===== src/Server/Upload/Put/Charge.antt =====
-- What an upload may count: the parts of the PUT handler of server/upload.go that refuse it, and how
-- storing it ends.
use send_to.Prelude.{ℕ, ◌+◌, ◌≡◌, subst, true, arith, ltb, Bytes, sym, ap, ◌≤◌, ◌⊎◌}
use send_to.E2e.{Source}
use send_to.Server.Fs.{FilePath}
use send_to.Server.Exec.{
  World, Exec, Reply, next, answered, Answer, refused, session_at, offset_at, stored, stored_all,
  served, not_modified, listed, collected, redirected, plain, system_call, ◌>>=◌,
}
use send_to.Server.Post.{Post}
use send_to.Server.Storage.{IoResult, good, missing, broken, remove_file}
use send_to.Server.Types.{Env, Config, Metadata, Headers}
use send_to.Server.Quota.{check_storage_quota, allows, add_used}
use send_to.Server.Upload.{
  token, metadata_for_headers, store, after_payload, after_sidecar, payload,
}
use send_to.Server.Upload.Put.{clean_tmp_file, check_size, check_filled}
use send_to.Server.Upload.Put.Counts.{
  counters, Refusal, Still, Still-then, Fact-bind, put-Still, put_from-Still, delete-Still,
}

module _ (c : Config) where
  -- what counts for one upload of n bytes on top of the counters u
  abbrev pub charge : ℕ → ℕ × (ℕ × ℕ) → ℕ × (ℕ × ℕ)
  charge n u = (add_used c u.0 n, (u.1.0 + 1, u.1.1 + n))

  -- the upload is not empty and within both limits
  abbrev pub Admitted : ℕ → ℕ → Type 0
  Admitted used n =
      (ltb 0 n ≡ true)
      × ((c.max_upload_size ≡ 0) ⊎ (n ≤ c.max_upload_size))
      × (allows c used n ≡ true)

  -- An answer of an upload, on the counters before and after it.
  abbrev pub Charged : ℕ × (ℕ × ℕ) → Answer → ℕ × (ℕ × ℕ) → Type 0
  Charged u (refused status msg o) v = v ≡ u
  Charged u (stored result) v = Admitted u.0 result.size × (v ≡ charge result.size u)
  Charged u (session_at status url o) v = ⊥
  Charged u (offset_at status o) v = ⊥
  Charged u (stored_all results) v = ⊥
  Charged u (served download) v = ⊥
  Charged u (not_modified etag max_age) v = ⊥
  Charged u (listed entries) v = ⊥
  Charged u (collected status token collection) v = ⊥
  Charged u (redirected files) v = ⊥
  Charged u (plain status) v = ⊥

  -- what is left of the handler, on the counters u
  abbrev pub ChargesOn : ℕ × (ℕ × ℕ) → Reply (Unit {0}) × World → Type 0
  ChargesOn u = Post (λ _ _. ⊥) (λ a w'. Charged u a (counters w'))

  pub Charged-Refusal : (u v : ℕ × (ℕ × ℕ)) (a : Answer) → Refusal a → v ≡ u → Charged u a v
  Charged-Refusal u v (refused status msg o) r e = e
  Charged-Refusal u v (session_at _ _ _) r e = elim r [ ]
  Charged-Refusal u v (offset_at _ _) r e = elim r [ ]
  Charged-Refusal u v (stored _) r e = elim r [ ]
  Charged-Refusal u v (stored_all _) r e = elim r [ ]
  Charged-Refusal u v (served _) r e = elim r [ ]
  Charged-Refusal u v (not_modified _ _) r e = elim r [ ]
  Charged-Refusal u v (listed _) r e = elim r [ ]
  Charged-Refusal u v (collected _ _ _) r e = elim r [ ]
  Charged-Refusal u v (redirected _) r e = elim r [ ]
  Charged-Refusal u v (plain _) r e = elim r [ ]

  pub refuses :
      (u : ℕ × (ℕ × ℕ)) (a : Answer) (w : World)
      → Refusal a
      → counters w ≡ u
      → Charged u a (counters w)
  refuses u a w r e = Charged-Refusal u (counters w) a r e

  pub Fact-charges {κ} :
      {A : Type κ} (u : ℕ × (ℕ × ℕ)) (P : ℕ × (ℕ × ℕ) → A → Type 0) (m : Exec A)
      (f : A → Exec (Unit {0})) (w : World)
      → counters w ≡ u
      → Post
          (λ a w'. P (counters w) a × (counters w' ≡ counters w))
          (λ a w'. Refusal a × (counters w' ≡ counters w))
          (m w)
      → ((a : A) (w' : World) → P u a → counters w' ≡ u → ChargesOn u (f a w'))
      → ChargesOn u ((m >>= f) w)
  Fact-charges u P = Fact-bind u (λ _ _. ⊥) (λ a w'. Charged u a (counters w')) (refuses u) P

  pub Still-charges {κ} :
      {A : Type κ} (u : ℕ × (ℕ × ℕ)) (m : Exec A) (f : A → Exec (Unit {0})) (w : World)
      → counters w ≡ u
      → Still m
      → ((a : A) (w' : World) → counters w' ≡ u → ChargesOn u (f a w'))
      → ChargesOn u ((m >>= f) w)
  Still-charges u = Still-then u (λ _ _. ⊥) (λ a w'. Charged u a (counters w')) (refuses u)

  pub nonempty_lem :
      (n : ℕ) (w : World)
      → Post
          (λ _ w'. (ltb 0 n ≡ true) × (counters w' ≡ counters w))
          (λ a w'. Refusal a × (counters w' ≡ counters w))
          (check_filled n w)
  nonempty_lem n w = ground arith

  pub cleaned-Same : (p : FilePath) (w : World) → counters (clean_tmp_file p w).1 ≡ counters w
  unfolding remove_file system_call
  cleaned-Same p w = ground arith

  -- the cleaning up at the end of a function
  pub finally_lem :
      (p : FilePath) (u : ℕ × (ℕ × ℕ)) (x : Reply (Unit {0}) × World)
      → ChargesOn u x
      → ChargesOn u (x.0, (clean_tmp_file p x.1).1)
  finally_lem p u (next a, w) h = h
  finally_lem p u (answered a, w) h = subst (λ v. Charged u a v) (sym (cleaned-Same p w)) h

  pub check_size_lem :
      (n : ℕ) (w : World)
      → Post
          (λ _ w'. ((c.max_upload_size ≡ 0) ⊎ (n ≤ c.max_upload_size)) × (counters w' ≡ counters w))
          (λ a w'. Refusal a × (counters w' ≡ counters w))
          (check_size c n w)
  unfolding check_size
  check_size_lem n w = ground arith

  pub check_storage_quota_lem :
      (n : ℕ) (w : World)
      → Post
          (λ _ w'. (allows c w.quota_used n ≡ true) × (counters w' ≡ counters w))
          (λ a w'. Refusal a × (counters w' ≡ counters w))
          (check_storage_quota c n w)
  unfolding check_storage_quota
  check_storage_quota_lem n w = ground arith

  -- how storing ends: the upload is counted, or nothing is
  abbrev pub Kept : ℕ × (ℕ × ℕ) → ℕ → IoResult (Unit {0}) → World → Type 0
  Kept u n (good _) w = counters w ≡ charge n u
  Kept u n missing w = counters w ≡ u
  Kept u n broken w = counters w ≡ u

  pub metadata_for_headers_lem :
      (env : Env) (content_type : Bytes) (n : ℕ) (h : Headers) (w : World)
      → Post
          (λ m w'. (m.content_length ≡ n) × (counters w' ≡ counters w))
          (λ a w'. Refusal a × (counters w' ≡ counters w))
          (metadata_for_headers env c content_type n h w)
  unfolding metadata_for_headers token
  metadata_for_headers_lem env content_type n h w = ground arith

  pub store_lem :
      (env : Env) (t filename : Bytes) (body : Source) (n : ℕ) (m : Metadata) (password : Bytes)
      (w : World) (u : ℕ × (ℕ × ℕ))
      → counters w ≡ u
      → Post
          (Kept u n)
          (λ a w'. Refusal a × (counters w' ≡ u))
          (store env c t filename body n m password w)
  unfolding store
  store_lem env t filename body n m password w u e =
      Still-then u (Kept u n) (λ a w'. Refusal a × (counters w' ≡ u)) (λ a w' r e. (r, e)) _ _ w e
        (put-Still t _ _) after_side
    where
      after_body :
          (x : IoResult (Unit {0})) (w' : World)
          → counters w' ≡ u
          → Post
              (Kept u n)
              (λ a w'. Refusal a × (counters w' ≡ u))
              (after_payload env c t filename n x w')
      after_body (good _) w' e = ap (charge n) e
      after_body missing w' e =
          Still-then u (Kept u n) (λ a w'. Refusal a × (counters w' ≡ u)) (λ a w' r e. (r, e)) _ _
            w' e (delete-Still _ _) (λ _ _ e. e)
      after_body broken w' e =
          Still-then u (Kept u n) (λ a w'. Refusal a × (counters w' ≡ u)) (λ a w' r e. (r, e)) _ _
            w' e (delete-Still _ _) (λ _ _ e. e)

      after_side :
          (x : IoResult (Unit {0})) (w' : World)
          → counters w' ≡ u
          → Post
              (Kept u n)
              (λ a w'. Refusal a × (counters w' ≡ u))
              (after_sidecar env c t filename (payload env c password body) n x w')
      after_side (good _) w' e =
          Still-then u (Kept u n) (λ a w'. Refusal a × (counters w' ≡ u)) (λ a w' r e. (r, e)) _ _
            w' e (put_from-Still _ _ _) after_body
      after_side missing w' e = e
      after_side broken w' e = e
