-- ===== src/Server/Upload/Put/Counts.antt =====
-- What an upload counts: the parts of the PUT and POST handlers of server/upload.go that leave the
-- storage counter and the metrics of uploads alone, and the ones that move them.
use send_to.Prelude.{subst, ℕ, ◌≡◌, refl, Bool, true, false, List, Bytes, arith, if◌then◌else◌}
use send_to.E2e.{Source, End, eof, failed}
use send_to.Server.Fs.{FilePath}
use send_to.Server.Exec.{
  World, Exec, Answer, refused, session_at, offset_at, stored, stored_all, served, not_modified,
  listed, collected, redirected, plain, UploadResult, pure, gets, system_call, ◌>>=◌,
}
use send_to.Server.Post.{Post, Post-bind, Post-mono}
use send_to.Server.Storage
use send_to.Server.Storage.{IoResult, good, missing, broken, read_file, remove_file, write_file}
use send_to.Server.Types.{Env, Config, Metadata, Headers, OwnerEntry}
use send_to.Server.Quota.{check_temp_quota, check_upload_budget, temp_usage, allow_n}
use send_to.Server.Owner.{
  record_ownership, record_in, entry_of, is_empty, read_owner_index, write_owner_index,
}
use send_to.Server.Upload.{token, metadata_for_headers, prescan}
use send_to.Server.Upload.Put.{}

-- the storage counter, the number of uploads and their bytes
abbrev pub counters : World → ℕ × (ℕ × ℕ)
counters w = (w.quota_used, (w.metrics.uploads, w.metrics.upload_bytes))

abbrev pub Refusal : Answer → Type 0
Refusal (refused status msg o) = Unit
Refusal (session_at status url o) = ⊥
Refusal (offset_at status o) = ⊥
Refusal (stored result) = ⊥
Refusal (stored_all results) = ⊥
Refusal (served download) = ⊥
Refusal (not_modified etag max_age) = ⊥
Refusal (listed entries) = ⊥
Refusal (collected status token collection) = ⊥
Refusal (redirected files) = ⊥
Refusal (plain status) = ⊥

-- Whatever the state: the part answers with a refusal only, and moves none of the counters.
abbrev pub Still {ℓ} : {A : Type ℓ} → Exec A → Type 0
Still m =
    (w : World)
    → Post (λ _ w'. counters w' ≡ counters w) (λ a w'. Refusal a × (counters w' ≡ counters w)) (m w)

pub Still-bind {ℓ ℓ'} :
    {A : Type ℓ} {B : Type ℓ'} (m : Exec A) (f : A → Exec B)
    → Still m
    → ((a : A) → Still (f a))
    → Still (m >>= f)
Still-bind m f h k w =
    Post-bind (λ _ w'. counters w' ≡ counters w) (λ a w'. Refusal a × (counters w' ≡ counters w))
      (m w) f (h w)
      (λ a w' same.
        subst
          (λ c. Post (λ _ w''. counters w'' ≡ c) (λ r w''. Refusal r × (counters w'' ≡ c)) (f a w'))
          same (k a w'))
      (λ a w' e. e)

pub remove_file-Still : (p : FilePath) → Still (remove_file p)
unfolding remove_file system_call
remove_file-Still p w = ground arith

write_file-Still : (p : FilePath) (content : Bytes) → Still (write_file p content)
unfolding write_file system_call
write_file-Still p content w = ground arith

pub put-Still : (t filename content : Bytes) → Still (Storage.put t filename content)
unfolding Storage.put system_call write_file
put-Still t filename content w = ground arith

pub delete-Still : (t filename : Bytes) → Still (Storage.delete t filename)
unfolding Storage.delete
delete-Still t filename = Still-bind _ _ (remove_file-Still _) λ _. remove_file-Still _

pub check_temp_quota-Still : (c : Config) (n : ℕ) → Still (check_temp_quota c n)
unfolding check_temp_quota temp_usage system_call
check_temp_quota-Still c n w = ground arith

pub check_upload_budget-Still : (c : Config) (n : ℕ) → Still (check_upload_budget c n)
unfolding check_upload_budget allow_n
check_upload_budget-Still c n w = ground arith

pub token-Still : (n : ℕ) → Still (token n)
unfolding token
token-Still n w = refl

pub metadata_for_headers-Still :
    (env : Env) (c : Config) (content_type : Bytes) (n : ℕ) (h : Headers)
    → Still (metadata_for_headers env c content_type n h)
unfolding metadata_for_headers token
metadata_for_headers-Still env c content_type n h w = ground arith

pub prescan-Still : (env : Env) (c : Config) (content : Bytes) → Still (prescan env c content)
unfolding prescan
prescan-Still env c content w = ground arith

-- As `Still`, and the part always goes on.
abbrev pub Only {ℓ} : {A : Type ℓ} → Exec A → Type 0
Only m = (w : World) → Post (λ _ w'. counters w' ≡ counters w) (λ _ _. ⊥) (m w)

Only-bind {ℓ ℓ'} :
    {A : Type ℓ} {B : Type ℓ'} (m : Exec A) (f : A → Exec B)
    → Only m
    → ((a : A) → Only (f a))
    → Only (m >>= f)
Only-bind m f h k w =
    Post-bind (λ _ w'. counters w' ≡ counters w) (λ _ _. ⊥) (m w) f (h w)
      (λ a w' same. subst (λ u. Post (λ _ w''. counters w'' ≡ u) (λ _ _. ⊥) (f a w')) same (k a w'))
      (λ a w' e. e)

put-Only : (t filename content : Bytes) → Only (Storage.put t filename content)
unfolding Storage.put system_call write_file
put-Only t filename content w = ground arith

get-Only : (t filename : Bytes) → Only (Storage.get t filename)
unfolding Storage.get read_file system_call
get-Only t filename w = ground arith

pub record_ownership-Only :
    (env : Env) (result : UploadResult) (m : Metadata) (t : Bytes)
    → Only (record_ownership env result m t)
unfolding record_ownership read_owner_index write_owner_index
record_ownership-Only env result m t = owned (is_empty m.owner_hash)
  where
    recorded :
        (hash : Bytes) (entry : OwnerEntry) (x : IoResult (List OwnerEntry))
        → Only (record_in env hash entry x)
    recorded hash entry (good entries) = Only-bind _ _ (put-Only _ _ _) λ _ _. refl
    recorded hash entry missing = λ w. refl
    recorded hash entry broken = λ w. refl

    owned :
        (no_owner : Bool)
        → Only (
            if no_owner then pure tt else do
              entries ← read_owner_index env m.owner_hash
              now ← gets (λ w. w.now)
              record_in env m.owner_hash (entry_of env result t now) entries)
    owned true = λ w. refl
    owned false =
        Only-bind _ _ (Only-bind _ _ (get-Only _ _) λ _ _. refl)
          λ entries w. recorded m.owner_hash _ entries w

pub put_from-Still : (t filename : Bytes) (body : Source) → Still (Storage.put_from t filename body)
unfolding Storage.put_from
put_from-Still t filename body = ending body.ending
  where
    ending :
        (e : End)
        → Still (elim e [
          | eof ↦ Storage.put t filename body.content
          | failed ↦ Storage.put t filename body.content >>= λ _. pure broken
        ])
    ending eof = put-Still t filename body.content
    ending failed = Still-bind _ _ (put-Still t filename body.content) λ _ _. refl

-- What is left of a handler, from the counters u: N where it goes on, R where it answers.
module _ {ℓ} {B : Type ℓ} (u : ℕ × (ℕ × ℕ)) (N : B → World → Type 0) (R : Answer → World → Type 0)
    (refuse : (a : Answer) (w : World) → Refusal a → counters w ≡ u → R a w) where
  -- A part that only refuses, and that goes on with P, in front of the rest.
  pub Fact-bind {κ} :
      {A : Type κ} (P : ℕ × (ℕ × ℕ) → A → Type 0) (m : Exec A) (f : A → Exec B) (w : World)
      → counters w ≡ u
      → Post
          (λ a w'. P (counters w) a × (counters w' ≡ counters w))
          (λ a w'. Refusal a × (counters w' ≡ counters w))
          (m w)
      → ((a : A) (w' : World) → P u a → counters w' ≡ u → Post N R (f a w'))
      → Post N R ((m >>= f) w)
  Fact-bind P m f w e h k =
      Post-bind N R (m w) f
        (subst
          (λ v.
            Post (λ a w'. P v a × (counters w' ≡ v)) (λ a w'. Refusal a × (counters w' ≡ v)) (m w))
          e h)
        (λ a w' fact. k a w' fact.0 fact.1) (λ a w' r. refuse a w' r.0 r.1)

  pub Still-then {κ} :
      {A : Type κ} (m : Exec A) (f : A → Exec B) (w : World)
      → counters w ≡ u
      → Still m
      → ((a : A) (w' : World) → counters w' ≡ u → Post N R (f a w'))
      → Post N R ((m >>= f) w)
  Still-then m f w e h k =
      Fact-bind (λ _ _. Unit) m f w e
        (Post-mono (m w) (λ a w' same. (tt, same)) (λ a w' r. r) (h w)) (λ a w' _ same. k a w' same)
