-- ===== src/Server/Collection/Deleted.antt =====
-- server/collection.go: what the deletion of a collection takes away, and what it leaves.
use send_to.Prelude.{
  ◌≡◌, ◌≢◌, refl, ap, sym, ◌∙◌, subst, Bool-cases, inl, inr, Option, none, some, Bytes, arith,
  eq_bytes, eq_bytes_iff,
}
use send_to.Server.Fs.{FilePath, lookup, lookup-remove, eq_path_iff, eq_path_refl}
use send_to.Server.Exec.{
  World, Fault, works, fails, Answer, refused, session_at, offset_at, stored, stored_all, served,
  not_modified, listed, collected, redirected, plain, system_call, head_fault, tail_faults,
}
use send_to.Server.Post.{Post, Post-bind}
use send_to.Server.Storage
use send_to.Server.Storage.{
  IoResult, good, missing, broken, read_file, remove_file, remove_with, stored_path, sidecar,
}
use send_to.Server.Types.{Env, Config, CollectionData}
use send_to.Server.Collection.{
  collection_object, read_collection, delete_with, deleted, delete_collection_handler,
}

-- A removal that has not failed leaves no such file.
abbrev IsRemoved : FilePath → IoResult (Unit {0}) → World → Type 0
IsRemoved q broken w = Unit
IsRemoved q missing w = lookup q w.files ≡ none
IsRemoved q (good _) w = lookup q w.files ≡ none

remove_file-IsRemoved :
    (p q : FilePath) (w : World)
    → p ≢ q
    → Post
        (λ x w'. (lookup p w'.files ≡ lookup p w.files) × IsRemoved q x w')
        (λ _ _. ⊥)
        (remove_file q w)
unfolding remove_file system_call
remove_file-IsRemoved p q w other = on_fault (head_fault w.faults)
  where
    on_found :
        (content : Option Bytes)
        → lookup q w.files ≡ content
        → Post
            (λ x w'. (lookup p w'.files ≡ lookup p w.files) × IsRemoved q x w')
            (λ _ _. ⊥)
            (remove_with q works content (record w { faults = tail_faults w.faults }))
    on_found none found = (refl, found)
    on_found (some content) found = (
      ground (arith, lookup-remove q p w.files, eq_path_iff q p),
      ground (arith, lookup-remove q q w.files, eq_path_refl q),
    )

    on_fault :
        (fault : Fault)
        → Post
            (λ x w'. (lookup p w'.files ≡ lookup p w.files) × IsRemoved q x w')
            (λ _ _. ⊥)
            (remove_with q fault (lookup q w.files) (record w { faults = tail_faults w.faults }))
    on_fault (fails n) = (refl, tt)
    on_fault works = on_found (lookup q w.files) refl

delete-IsRemoved :
    (p : FilePath) (t filename : Bytes) (w : World)
    → p ≢ stored_path t filename
    → p ≢ stored_path t (sidecar filename)
    → Post
        (λ x w'. (lookup p w'.files ≡ lookup p w.files) × IsRemoved (stored_path t filename) x w')
        (λ _ _. ⊥)
        (Storage.delete t filename w)
unfolding Storage.delete
delete-IsRemoved p t filename w not_file not_side =
    Post-bind _ _ (remove_file (stored_path t (sidecar filename)) w) _
      (remove_file-IsRemoved p (stored_path t (sidecar filename)) w not_side)
      (λ _ w' (same, _).
        subst
          (λ l.
            Post (λ x v. (lookup p v.files ≡ l) × IsRemoved (stored_path t filename) x v) (λ _ _. ⊥)
              (remove_file (stored_path t filename) w'))
          same (remove_file-IsRemoved p (stored_path t filename) w' not_file))
      (λ _ _ e. e)

abbrev Read : CollectionData → Option CollectionData → Type 0
Read coll none = Unit
Read coll (some found) = found ≡ coll

module _ (env : Env) (c : Config) (proxy_path t secret : Bytes) (coll : CollectionData)
    (p : FilePath) where
  abbrev object : FilePath
  object = stored_path t collection_object

  read_collection-Read :
      (w : World)
      → lookup object w.files ≡ some (env.encode_collection coll)
      → Post
          (λ o w'. (lookup p w'.files ≡ lookup p w.files) × Read coll o)
          (λ _ _. ⊥)
          (read_collection env c proxy_path t w)
  unfolding read_collection Storage.get read_file system_call
  read_collection-Read w h = ground (arith, h, env.decode-encode_collection coll)

  -- What the answer tells: a refusal nothing, 200 that the token was the one of the collection, and that
  -- the collection is gone.
  abbrev pub Tells : Answer → World → Type 0
  Tells (plain status) w =
      (status ≡ 200) × (secret ≡ coll.deletion_token) × (lookup object w.files ≡ none)
  Tells (refused status msg o) w = Unit
  Tells (session_at status url o) w = ⊥
  Tells (offset_at status o) w = ⊥
  Tells (stored result) w = ⊥
  Tells (stored_all results) w = ⊥
  Tells (served d) w = ⊥
  Tells (not_modified etag max_age) w = ⊥
  Tells (listed entries) w = ⊥
  Tells (collected status token collection) w = ⊥
  Tells (redirected files) w = ⊥

  abbrev Spares : Option Bytes → Answer → World → Type 0
  Spares before a w = (lookup p w.files ≡ before) × Tells a w

  deleted-Spares :
      (x : IoResult (Unit {0})) (before : Option Bytes) (w : World)
      → lookup p w.files ≡ before
      → secret ≡ coll.deletion_token
      → IsRemoved object x w
      → Post (λ _ _. ⊥) (Spares before) (deleted env c proxy_path x w)
  deleted-Spares broken before w same right gone = (same, tt)
  deleted-Spares missing before w same right gone = (same, (refl, right, gone))
  deleted-Spares (good _) before w same right gone = (same, (refl, right, gone))

  delete_with-Spares :
      (o : Option CollectionData) (before : Option Bytes) (w : World)
      → p ≢ object
      → p ≢ stored_path t (sidecar collection_object)
      → lookup p w.files ≡ before
      → Read coll o
      → Post (λ _ _. ⊥) (Spares before) (delete_with env c proxy_path t secret o w)
  delete_with-Spares none before w not_object not_side same read = (same, tt)
  delete_with-Spares (some found) before w not_object not_side same read =
      elim (Bool-cases (eq_bytes found.deletion_token secret)) [
        | inl right ↦ rw right (
            Post-bind (λ _ _. ⊥) (Spares before) (Storage.delete t collection_object w)
              (deleted env c proxy_path)
              (delete-IsRemoved p t collection_object w not_object not_side)
              (λ x w' (kept, gone).
                deleted-Spares x before w' (kept ∙ same)
                  (sym ((eq_bytes_iff found.deletion_token secret).0 right)
                    ∙ ap (λ d. d.deletion_token) read)
                  gone)
              (λ _ _ e. absurd e))
        | inr wrong ↦ rw wrong (same, tt)
      ]

  -- A DELETE of a collection that is there is answered, whatever its token and whatever calls of the
  -- operating system fail, and changes no file but the collection and its sidecar. Where the answer is
  -- not a refusal, it is 200, the token was the one of the collection, and the collection is gone.
  pub delete_collection_handler-Spares :
      (w : World)
      → p ≢ object
      → p ≢ stored_path t (sidecar collection_object)
      → lookup object w.files ≡ some (env.encode_collection coll)
      → Post
          (λ _ _. ⊥)
          (λ a w'. (lookup p w'.files ≡ lookup p w.files) × Tells a w')
          (delete_collection_handler env c proxy_path t secret w)
  unfolding delete_collection_handler
  delete_collection_handler-Spares w not_object not_side h =
      Post-bind (λ _ _. ⊥) (Spares (lookup p w.files)) (read_collection env c proxy_path t w) _
        (read_collection-Read w h)
        (λ o w' (same, read).
          delete_with-Spares o (lookup p w.files) w' not_object not_side same read)
        (λ _ _ e. absurd e)
