-- ===== src/Server/Session/Silent.antt =====
-- The parts of the PATCH handler of server/resumable.go that come before the chunk and after the upload
-- is complete: none of them announces an offset, and those before the chunk leave the files alone.
use send_to.Prelude.{
  ◌≡◌, refl, true, false, Bool, none, List, Bytes, arith, eq_bytes_iff, if◌then◌else◌, ltb, ℕ, ◌-◌,
}
use send_to.E2e.{Source, End, eof, failed}
use send_to.Server.Fs.{FilePath, lookup}
use send_to.Server.Exec.{
  World, Reply, next, answered, system_call, gets, pure, UploadResult, ◌>>=◌, ◌>>◌, tail_faults,
  answer, refused, msg_session_expired, msg_not_found,
}
use send_to.Server.Post.{Post, Post-bind, offset_of, Silent, Silent-bind, Keeps}
use send_to.Server.Storage
use send_to.Server.Storage.{
  IoResult, good, missing, broken, read_file, remove_file, write_file, on_file,
}
use send_to.Server.Types.{Env, Config, Request, UploadSession, Metadata, Headers, OwnerEntry}
use send_to.Server.Quota.{check_temp_quota, check_storage_quota, temp_usage}
use send_to.Server.Owner.{
  record_ownership, record_in, entry_of, is_empty, read_owner_index, write_owner_index,
}
use send_to.Server.Upload.{
  token, metadata_for_headers, prescan, store, payload, after_payload, after_sidecar,
}
use send_to.Server.Session.{
  part_path, remove_session, open_session, load_session, opened, session_id_matches, session_ttl,
}
use send_to.Server.Session.Patch.{finish_upload_session, finished, finish_with, spooled, or_drop}

pub check_temp_quota-Keeps : (c : Config) (n : ℕ) → Keeps (check_temp_quota c n)
unfolding check_temp_quota temp_usage system_call
check_temp_quota-Keeps c n w = ground arith

remove_file_lem : (p : FilePath) → Silent Unit (remove_file p)
unfolding remove_file system_call
remove_file_lem p w = ground arith

remove_session_lem : (id : Bytes) → Silent Unit (remove_session id)
unfolding remove_session
remove_session_lem id =
    Silent-bind Unit _ _ (remove_file_lem _) λ _. Silent-bind Unit _ _ (remove_file_lem _) λ _ _. tt

read_file_lem : (p : FilePath) → Silent Unit (read_file p)
unfolding read_file system_call
read_file_lem p w = ground arith

write_file_lem : (p : FilePath) (content : Bytes) → Silent Unit (write_file p content)
unfolding write_file system_call
write_file_lem p content w = ground arith

put_lem : (t filename content : Bytes) → Silent Unit (Storage.put t filename content)
unfolding Storage.put system_call write_file
put_lem t filename content w = ground arith

put_from_lem : (t filename : Bytes) (body : Source) → Silent Unit (Storage.put_from t filename body)
unfolding Storage.put_from
put_from_lem t filename body = ending body.ending
  where
    ending :
        (e : End)
        → Silent Unit (elim e [
          | eof ↦ Storage.put t filename body.content
          | failed ↦ Storage.put t filename body.content >>= λ _. pure broken
        ])
    ending eof = put_lem t filename body.content
    ending failed = Silent-bind Unit _ _ (put_lem t filename body.content) λ _ _. tt

get_lem : (t filename : Bytes) → Silent Unit (Storage.get t filename)
unfolding Storage.get read_file system_call
get_lem t filename w = ground arith

delete_lem : (t filename : Bytes) → Silent Unit (Storage.delete t filename)
unfolding Storage.delete
delete_lem t filename = Silent-bind Unit _ _ (remove_file_lem _) λ _. remove_file_lem _

check_storage_quota_lem : (c : Config) (n : ℕ) → Silent Unit (check_storage_quota c n)
unfolding check_storage_quota
check_storage_quota_lem c n w = ground arith

token_lem : (n : ℕ) → Silent Unit (token n)
unfolding token
token_lem n w = tt

metadata_for_headers_lem :
    (env : Env) (c : Config) (content_type : Bytes) (n : ℕ) (h : Headers)
    → Silent Unit (metadata_for_headers env c content_type n h)
unfolding metadata_for_headers token
metadata_for_headers_lem env c content_type n h w = ground arith

prescan_lem : (env : Env) (c : Config) (content : Bytes) → Silent Unit (prescan env c content)
unfolding prescan
prescan_lem env c content w = ground arith

store_lem :
    (env : Env) (c : Config) (t filename : Bytes) (content : Source) (n : ℕ) (m : Metadata)
    (password : Bytes)
    → Silent Unit (store env c t filename content n m password)
unfolding store
store_lem env c t filename content n m password = Silent-bind Unit _ _ (put_lem _ _ _) after_side
  where
    after_put : (x : IoResult (Unit {0})) → Silent Unit (after_payload env c t filename n x)
    after_put (good _) = λ w. tt
    after_put missing = Silent-bind Unit _ _ (delete_lem _ _) λ _ _. tt
    after_put broken = Silent-bind Unit _ _ (delete_lem _ _) λ _ _. tt

    after_side :
        (x : IoResult (Unit {0}))
        → Silent Unit (after_sidecar env c t filename (payload env c password content) n x)
    after_side (good _) = Silent-bind Unit _ _ (put_from_lem _ _ _) after_put
    after_side missing = λ w. tt
    after_side broken = λ w. tt

record_in_lem :
    (env : Env) (hash : Bytes) (entry : OwnerEntry) (x : IoResult (List OwnerEntry))
    → Silent Unit (record_in env hash entry x)
unfolding write_owner_index
record_in_lem env hash entry (good entries) = Silent-bind Unit _ _ (put_lem _ _ _) λ _ _. tt
record_in_lem env hash entry missing = λ w. tt
record_in_lem env hash entry broken = λ w. tt

read_owner_index_lem : (env : Env) (hash : Bytes) → Silent Unit (read_owner_index env hash)
unfolding read_owner_index
read_owner_index_lem env hash = Silent-bind Unit _ _ (get_lem _ _) λ _ _. tt

record_ownership_lem :
    (env : Env) (result : UploadResult) (m : Metadata) (t : Bytes)
    → Silent Unit (record_ownership env result m t)
unfolding record_ownership
record_ownership_lem env result m t = owned (is_empty m.owner_hash)
  where
    owned :
        (no_owner : Bool)
        → Silent Unit (
            if no_owner then pure tt else do
              entries ← read_owner_index env m.owner_hash
              now ← gets (λ w. w.now)
              record_in env m.owner_hash (entry_of env result t now) entries)
    owned true = λ w. tt
    owned false =
        Silent-bind Unit _ _ (read_owner_index_lem _ _)
          λ entries w. record_in_lem env m.owner_hash _ entries w

-- The end of an upload answers the request, and never with an offset.
pub finish_upload_session_lem :
    (env : Env) (c : Config) (r : Request) (sess : UploadSession)
    → Silent ⊥ (finish_upload_session env c r sess)
unfolding finish_upload_session
finish_upload_session_lem env c r sess =
    Silent-bind ⊥ (gets (λ w. spooled env c (lookup (part_path sess.id) w.files))) _ (λ _. tt)
      λ scan.
        Silent-bind ⊥ _ _ (λ w'. dropped _ (prescan_lem env c scan w'))
          λ _. Silent-bind ⊥ _ _ (read_file_lem (part_path sess.id)) finish_with_lem
  where
    dropped :
        (x : Reply (Unit {0}) × World)
        → Post (λ _ _. Unit) (λ a _. offset_of a ≡ none) x
        → Post (λ _ _. Unit) (λ a _. offset_of a ≡ none) (or_drop env c sess.id x)
    dropped (next _, w') h = tt
    dropped (answered a, w') h =
        Silent-bind Unit (remove_session sess.id) (λ _ w''. (answered a, w''))
          (remove_session_lem sess.id) (λ _ _. h) w'

    finished_lem :
        (t : Bytes) (m : Metadata) (x : IoResult (Unit {0}))
        → Silent ⊥ (finished env c r sess t m x)
    finished_lem t m missing = λ w'. refl
    finished_lem t m broken = λ w'. refl
    finished_lem t m (good _) =
        Silent-bind ⊥ _ _ (remove_session_lem _)
          λ _. Silent-bind ⊥ _ _ (record_ownership_lem _ _ _ _) λ _ _. refl

    finish_with_lem : (x : IoResult Bytes) → Silent ⊥ (finish_with env c r sess x)
    finish_with_lem missing = λ w'. refl
    finish_with_lem broken = λ w'. refl
    finish_with_lem (good content) = Silent-bind ⊥ _ _ (metadata_for_headers_lem _ _ _ _ _) λ m.
        Silent-bind ⊥ _ _ (check_storage_quota_lem _ _) λ _.
          Silent-bind ⊥ _ _ (token_lem _)
            λ t. Silent-bind ⊥ _ _ (store_lem _ _ _ _ _ _ _ _) (finished_lem t _)

pub read_file-Keeps : (p : FilePath) → Keeps (read_file p)
unfolding read_file system_call
read_file-Keeps p w = refl

-- A session that is opened has the id it was asked for, and opening it leaves the files alone.
pub open_session_lem :
    (env : Env) (id filename : Bytes) (w : World)
    → Post
        (λ sess w'. (sess.id ≡ id) × (w'.files ≡ w.files))
        (λ a _. offset_of a ≡ none)
        (open_session env id filename w)
unfolding open_session load_session read_file system_call
open_session_lem env id filename w = valid (session_id_matches id)
  where
    w1 : World
    w1 = record w { faults = tail_faults w.faults }

    expired_lem :
        (sess : UploadSession) (expired : Bool)
        → sess.id ≡ id
        → Post
            (λ sess w'. (sess.id ≡ id) × (w'.files ≡ w.files))
            (λ a _. offset_of a ≡ none)
            ((if expired
                then (do remove_session id; answer (refused 410 msg_session_expired none))
                else pure sess)
              w1)
    expired_lem sess true same =
        Post-bind _ _ (remove_session id w1) (λ _. answer (refused 410 msg_session_expired none))
          (remove_session_lem id w1) (λ _ _ _. refl) (λ _ _ e. e)
    expired_lem sess false same = (same, refl)

    same_lem :
        (sess : UploadSession) (same : Bool)
        → (same ≡ true → sess.id ≡ id)
        → Post
            (λ sess w'. (sess.id ≡ id) × (w'.files ≡ w.files))
            (λ a _. offset_of a ≡ none)
            ((if same
                then (do
                  now ← gets (λ w. w.now)
                  if ltb session_ttl (now - sess.created_at)
                      then (do remove_session id; answer (refused 410 msg_session_expired none))
                      else pure sess)
                else answer (refused 404 msg_not_found none))
              w1)
    same_lem sess true h = expired_lem sess (ltb session_ttl (w.now - sess.created_at)) (h refl)
    same_lem sess false h = refl

    opened_lem :
        (x : IoResult UploadSession)
        → Post
            (λ sess w'. (sess.id ≡ id) × (w'.files ≡ w.files))
            (λ a _. offset_of a ≡ none)
            (opened env id filename x w1)
    opened_lem missing = refl
    opened_lem broken = refl
    opened_lem (good sess) = same_lem sess _ λ h. ground (arith, eq_bytes_iff sess.id id)

    valid :
        (matches : Bool)
        → Post
            (λ sess w'. (sess.id ≡ id) × (w'.files ≡ w.files))
            (λ a _. offset_of a ≡ none)
            ((if matches
                then (do sess ← load_session env id; opened env id filename sess)
                else answer (refused 404 msg_not_found none))
              w)
    valid true = opened_lem _
    valid false = refl
