-- ===== src/Server/Upload/Put/Charged.antt =====
-- The PUT handler of server/upload.go moves the storage counter and the metrics of uploads exactly for
-- an upload that it stores.
use send_to.Prelude.{
  ℕ, zero, suc, ◌≡◌, subst, refl, Bool, true, false, arith, ltb, if◌then◌else◌, Bytes, sym, ◌∙◌,
  ◌≤◌, ◌⊎◌,
}
use send_to.Prelude.Int.{ℤ, pos, negsuc}
use send_to.E2e.{Source}
use send_to.Server.Fs.{FilePath}
use send_to.Server.Exec.{
  World, Exec, stored, UploadResult, pure, gets, answer, system_call, Fault, works, fails, ◌>>=◌,
  ◌>>◌,
}
use send_to.Server.Post.{Post, Post-bind}
use send_to.Server.Storage.{IoResult, good, missing, broken}
use send_to.Server.Types.{Env, Config, Request, Metadata}
use send_to.Server.Quota.{check_temp_quota, check_storage_quota, check_upload_budget, allows}
use send_to.Server.Owner.{record_ownership}
use send_to.Server.Upload.{token, metadata_for_headers, prescan, store, new_upload_result}
use send_to.Server.Upload.Put.{
  copied, after_copy, fill_spool, with_created, with_spool, check_size, int64, temp_path,
  check_filled, after_store, save, put_sized, put_spooled, put_handler, limit_body,
}
use send_to.Server.Upload.Put.Counts.{
  counters, Refusal, Still, Still-bind, Fact-bind, check_temp_quota-Still,
  check_upload_budget-Still, token-Still, prescan-Still, record_ownership-Only,
}
use send_to.Server.Upload.Put.Charge.{
  charge, Admitted, Charged, ChargesOn, refuses, Fact-charges, Still-charges, nonempty_lem,
  finally_lem, check_size_lem, check_storage_quota_lem, Kept, metadata_for_headers_lem, store_lem,
}

module _ (env : Env) (c : Config) where
  after_store_lem :
      (r : Request) (t filename : Bytes) (n : ℕ) (m : Metadata) (x : IoResult (Unit {0}))
      (w : World) (u : ℕ × (ℕ × ℕ))
      → m.content_length ≡ n
      → Kept c u n x w
      → Post
          (λ result w'. (result.size ≡ n) × (counters w' ≡ charge c n u))
          (λ a w'. Refusal a × (counters w' ≡ u))
          (after_store env c r t filename m x w)
  unfolding new_upload_result
  after_store_lem r t filename n m missing w u size same = (tt, same)
  after_store_lem r t filename n m broken w u size same = (tt, same)
  after_store_lem r t filename n m (good _) w u size same =
      Post-bind _ _ (record_ownership env result m t w) (λ _. pure result)
        (record_ownership-Only env result m t w) (λ _ w' e. (size, e ∙ same)) (λ a w' r. absurd r)
    where
      result : UploadResult
      result = new_upload_result r t filename m

  save_lem :
      (r : Request) (t raw : Bytes) (body : Source) (n : ℕ) (w : World) (u : ℕ × (ℕ × ℕ))
      → counters w ≡ u
      → Post
          (λ result w'. (result.size ≡ n) × (counters w' ≡ charge c n u))
          (λ a w'. Refusal a × (counters w' ≡ u))
          (save env c r t raw body n w)
  unfolding save
  save_lem r t raw body n w u e =
      Fact-bind u (λ (result : UploadResult) w'. (result.size ≡ n) × (counters w' ≡ charge c n u))
        (λ a w'. Refusal a × (counters w' ≡ u)) (λ a w' r e. (r, e)) (λ _ m. m.content_length ≡ n)
        (metadata_for_headers env c (env.content_type_for_filename raw) n r.headers) stored_with w e
        (metadata_for_headers_lem c env (env.content_type_for_filename raw) n r.headers w)
        λ m w1 size e1.
          Post-bind (λ (result : UploadResult) w'. (result.size ≡ n) × (counters w' ≡ charge c n u))
            (λ a w'. Refusal a × (counters w' ≡ u))
            (store env c t (env.sanitize raw) body n m r.headers.encrypt_password w1)
            (after_store env c r t (env.sanitize raw) m)
            (store_lem c env t (env.sanitize raw) body n m r.headers.encrypt_password w1 u e1)
            (λ x w2 kept. after_store_lem r t (env.sanitize raw) n m x w2 u size kept) (λ a w2 h. h)
    where
      stored_with : Metadata → Exec UploadResult
      stored_with m = do
        put ← store env c t (env.sanitize raw) body n m r.headers.encrypt_password
        after_store env c r t (env.sanitize raw) m put

  put_sized-Charges :
      (r : Request) (raw : Bytes) (body : Source) (n : ℕ) (w : World) (u : ℕ × (ℕ × ℕ))
      → counters w ≡ u
      → ChargesOn c u (put_sized env c r raw body n w)
  unfolding put_sized
  put_sized-Charges r raw body n w u e =
      Fact-charges c u (λ _ _. (c.max_upload_size ≡ 0) ⊎ (n ≤ c.max_upload_size)) (check_size c n) _
        w e (check_size_lem c n w)
        λ _ w1 fits e1.
          Fact-charges c u (λ _ _. ltb 0 n ≡ true) (check_filled n) _ w1 e1 (nonempty_lem c n w1)
            λ _ w2 some e2.
              Fact-charges c u (λ v _. allows c v.0 n ≡ true) (check_storage_quota c n) _ w2 e2
                (check_storage_quota_lem c n w2)
                λ _ w3 allowed e3.
                  Still-charges c u (check_upload_budget c n) _ w3 e3
                    (check_upload_budget-Still c n)
                    λ _ w4 e4.
                      Still-charges c u (token c.random_token_length)
                        (λ t. save env c r t raw body n >>= λ result. answer (stored result)) w4 e4
                        (token-Still _)
                        λ t w5 e5.
                          Post-bind (λ _ _. ⊥) (λ a w'. Charged c u a (counters w'))
                            (save env c r t raw body n w5) (λ result. answer (stored result))
                            (save_lem r t raw body n w5 u e5)
                            (λ result w6 (size, e6).
                              subst (λ k. Admitted c u.0 k × (counters w6 ≡ charge c k u))
                                (sym size) ((some, fits, allowed), e6))
                            (λ a w6 h. refuses c u a w6 h.0 h.1)

  after_copy-Still : (p : FilePath) (x : IoResult (Unit {0})) → Still (after_copy p x)
  unfolding system_call
  after_copy-Still p x w = ground arith

  fill_spool-Still : (p : FilePath) (body : Source) → Still (fill_spool p body)
  unfolding fill_spool system_call
  fill_spool-Still p body =
      Still-bind system_call _ (λ _. refl)
        λ fault. Still-bind _ _ (copied-Still fault) λ x. after_copy-Still p x
    where
      copied-Still : (fault : Fault) → Still (copied p body fault)
      copied-Still works = λ w. refl
      copied-Still (fails n) = λ w. refl

  with_spool-Charges :
      (body : Source) (k : Bytes → Exec (Unit {0})) (w : World) (u : ℕ × (ℕ × ℕ))
      → counters w ≡ u
      → ((content : Bytes) (w' : World) → counters w' ≡ u → ChargesOn c u (k content w'))
      → ChargesOn c u (with_spool env body k w)
  unfolding with_spool system_call
  with_spool-Charges body k w u e h = Still-charges c u system_call _ w e (λ _. refl) created
    where
      created :
          (fault : Fault) (w' : World)
          → counters w' ≡ u
          → ChargesOn c u (
              (do
                name ← gets (λ w. env.temp_name w.files)
                with_created (temp_path name) body k fault)
                w')
      created (fails n) w' e' = e'
      created works w' e' = finally_lem c (temp_path (env.temp_name w'.files)) u _ (
          Still-charges c u (fill_spool (temp_path (env.temp_name w'.files)) body) k _ e'
            (fill_spool-Still _ _) h)

  -- A PUT is answered, whatever calls of the operating system fail and however the body ends. If it is
  -- refused, the storage counter and the metrics of uploads are as before; if it is stored, the upload
  -- is not empty, within the largest upload and let through by the storage quota, and exactly its size
  -- is counted.
  pub put_handler-Charges :
      (r : Request) (raw : Bytes) (content_length : ℤ) (body : Source) (w : World)
      → ChargesOn c (counters w) (put_handler env c r raw content_length body w)
  unfolding put_handler
  put_handler-Charges r raw content_length body w = announced content_length
    where
      sized :
          (content : Bytes) (w' : World)
          → counters w' ≡ counters w
          → ChargesOn c (counters w) (put_spooled env c r raw content w')
      sized content w' e =
          Still-charges c (counters w) (prescan env c content) _ w' e (prescan-Still env c content)
            λ _ w'' e'. put_sized-Charges r raw _ _ w'' _ e'

      spooled :
          (z : ℤ)
          → ChargesOn c (counters w) (
              (do
                check_temp_quota c (int64 z)
                with_spool env (limit_body c body) (put_spooled env c r raw))
                w)
      spooled z =
          Still-charges c (counters w) (check_temp_quota c (int64 z)) _ w refl
            (check_temp_quota-Still c _) λ _ w' e. with_spool-Charges _ _ w' _ e sized

      either :
          (prescanned : Bool) (n : ℕ)
          → ChargesOn c (counters w) (
              (if prescanned
                  then (do
                    check_temp_quota c (int64 (pos (suc n)))
                    with_spool env (limit_body c body) (put_spooled env c r raw))
                  else put_sized env c r raw (limit_body c body) (suc n))
                w)
      either true n = spooled (pos (suc n))
      either false n = put_sized-Charges r raw _ _ w _ refl

      announced : (z : ℤ) → ChargesOn c (counters w) (put_handler env c r raw z body w)
      announced (negsuc n) = spooled (negsuc n)
      announced (pos zero) = spooled (pos zero)
      announced (pos (suc n)) = either c.perform_clamav_prescan n
