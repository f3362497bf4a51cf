-- ===== src/Server/Owner/Frame.antt =====
-- The index of an owner (server/owner.go) is kept beside the uploads and touches none of them.
use send_to.Prelude.{
  ◌≡◌, ◌≢◌, refl, ap, sym, ◌∙◌, true, false, Bool, List, [], take, Bytes, arith, length, ◌==◌,
  if◌then◌else◌,
}
use send_to.Server.Fs
use send_to.Server.Fs.{Files, FilePath, token_dir, lookup, lookup-put, eq_path, eq_path_iff}
use send_to.Server.Exec.{
  World, Fault, works, fails, Exec, pure, head_fault, tail_faults, system_call, ◌>>=◌,
}
use send_to.Server.Post.{Post, Post-mono, Post-bind}
use send_to.Server.Storage
use send_to.Server.Storage.{
  IoResult, good, missing, broken, read_file, write_file, copy_with, create_with, then_put,
  stored_path,
}
use send_to.Server.Types.{Env, OwnerEntry}
use send_to.Server.Owner.{
  owner_index_token, read_owner_index, write_owner_index, forget_ownership, forget_in, is_empty,
  without_upload,
}

-- A part that goes on, whatever fails, and has left the file at p as it was.
abbrev pub Leaves {ℓ} : {A : Type ℓ} → FilePath → Exec A → Type 0
Leaves p m = (w : World) → Post (λ _ w'. lookup p w'.files ≡ lookup p w.files) (λ _ _. ⊥) (m w)

pub Leaves-bind {ℓ ℓ'} :
    {A : Type ℓ} {B : Type ℓ'} (p : FilePath) (m : Exec A) (f : A → Exec B)
    → Leaves p m
    → ((a : A) → Leaves p (f a))
    → Leaves p (m >>= f)
Leaves-bind p m f h k w =
    Post-bind _ _ (m w) f (h w)
      (λ a w' e. Post-mono (f a w') (λ _ _ e'. e' ∙ e) (λ _ _ x. x) (k a w')) (λ _ _ x. x)

module _ (p q : FilePath) (other : q ≢ p) where
  lookup-put_other :
      (content : Bytes) (files : Files) → lookup p (Fs.put q content files) ≡ lookup p files
  lookup-put_other content files = ground (arith, lookup-put q p content files, eq_path_iff q p)

  write_file-Leaves : (content : Bytes) → Leaves p (write_file q content)
  unfolding write_file system_call
  write_file-Leaves content w = create_leaves (head_fault w.faults)
    where
      copy_leaves :
          (fault : Fault) (fs : List Fault)
          → Post
              (λ _ w'. lookup p w'.files ≡ lookup p w.files)
              (λ _ _. ⊥)
              (copy_with q content fault (record w { files = Fs.put q [] w.files; faults = fs }))
      copy_leaves works fs = lookup-put_other content _ ∙ lookup-put_other [] w.files
      copy_leaves (fails n) fs = lookup-put_other (take n content) _ ∙ lookup-put_other [] w.files

      create_leaves :
          (fault : Fault)
          → Post
              (λ _ w'. lookup p w'.files ≡ lookup p w.files)
              (λ _ _. ⊥)
              (create_with q content fault (record w { faults = tail_faults w.faults }))
      create_leaves (fails n) = refl
      create_leaves works = copy_leaves (head_fault (tail_faults w.faults)) _

module _ (env : Env) (p : FilePath) (other : p.folder ≢ token_dir owner_index_token) where
  put-Leaves : (name content : Bytes) → Leaves p (Storage.put owner_index_token name content)
  unfolding Storage.put system_call
  put-Leaves name content w = then_leaves (head_fault w.faults)
    where
      then_leaves :
          (fault : Fault)
          → Post
              (λ _ w'. lookup p w'.files ≡ lookup p w.files)
              (λ _ _. ⊥)
              (then_put
                (stored_path owner_index_token name)
                content
                fault
                (record w { faults = tail_faults w.faults }))
      then_leaves (fails n) = refl
      then_leaves works =
          write_file-Leaves p (stored_path owner_index_token name)
            (λ same. other (ap (λ q. q.folder) (sym same))) content
            (record w { faults = tail_faults w.faults })

  get-Leaves : (name : Bytes) → Leaves p (Storage.get owner_index_token name)
  unfolding Storage.get read_file system_call
  get-Leaves name w = ground arith

  read_owner_index-Leaves : (hash : Bytes) → Leaves p (read_owner_index env hash)
  unfolding read_owner_index
  read_owner_index-Leaves hash = Leaves-bind p _ _ (get-Leaves _) λ _ _. refl

  forget_in-Leaves :
      (hash t filename : Bytes) (x : IoResult (List OwnerEntry))
      → Leaves p (forget_in env hash t filename x)
  unfolding write_owner_index
  forget_in-Leaves hash t filename missing = λ w. refl
  forget_in-Leaves hash t filename broken = λ w. refl
  forget_in-Leaves hash t filename (good entries) =
      changed (length (without_upload t filename entries) == length entries)
    where
      changed :
          (same : Bool)
          → Leaves {0} p (
              if same
              then pure tt
              else do _ ← write_owner_index env hash (without_upload t filename entries); pure tt)
      changed true = λ w. refl
      changed false = Leaves-bind p _ _ (put-Leaves _ _) λ _ _. refl

  -- Taking an upload off its owner's list goes on whatever fails, and leaves every file but the lists.
  pub forget_ownership-Leaves :
      (hash t filename : Bytes) → Leaves p (forget_ownership env hash t filename)
  unfolding forget_ownership
  forget_ownership-Leaves hash t filename = owned (is_empty hash)
    where
      owned :
          (no_owner : Bool)
          → Leaves p (
              if no_owner
              then pure tt
              else do entries ← read_owner_index env hash; forget_in env hash t filename entries)
      owned true = λ w. refl
      owned false =
          Leaves-bind p _ _ (read_owner_index-Leaves hash) (forget_in-Leaves hash t filename)
