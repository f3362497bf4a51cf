-- ===== src/Server/Session/Offset.antt =====
-- The HEAD handler of server/resumable.go: the offset that a client resumes from.
use send_to.Prelude.{ℕ, ◌≡◌, ap, ◌∙◌, Option, none, some, Bytes, arith, length}
use send_to.Server.Fs.{Files, lookup}
use send_to.Server.Exec.{World, Fault, works, fails, Answer, head_fault, tail_faults, system_call}
use send_to.Server.Post.{Post, Post-bind, offset_of}
use send_to.Server.Storage.{read_file, on_file}
use send_to.Server.Types.{Env}
use send_to.Server.Session.{part_path, open_session, head_upload_session_handler, reported}
use send_to.Server.Session.Silent.{open_session_lem}

module _ (env : Env) (before : Bytes) (files : Files) where
  abbrev pub Reports : Answer → World → Type 0
  Reports a w = (o : ℕ) → offset_of a ≡ some o → (o ≡ length before) × (w.files ≡ files)

  reported_lem :
      (access : Fault) (file : Option Bytes) (w : World)
      → w.files ≡ files
      → file ≡ some before
      → Post (λ _ _. ⊥) Reports (reported env (on_file access file) w)
  reported_lem (fails n) file w same h = λ o e. absurd cc
  reported_lem works none w same h = absurd cc
  reported_lem works (some content) w same h = λ o e. (ground arith, same)

  -- A HEAD of an upload session whose spool file holds `before` is answered, whatever calls of the
  -- operating system fail, and an `Upload-Offset` in the answer is the length of `before`, with every
  -- file left as it was.
  pub head_upload_session_handler-Reports :
      (id filename : Bytes) (w : World)
      → w.files ≡ files
      → lookup (part_path id) files ≡ some before
      → Post (λ _ _. ⊥) Reports (head_upload_session_handler env id filename w)
  unfolding head_upload_session_handler read_file system_call
  head_upload_session_handler-Reports id filename w same h =
      Post-bind (λ _ _. ⊥) Reports (open_session env id filename w) _
        (open_session_lem env id filename w)
        (λ sess w' opened.
          reported_lem (head_fault w'.faults) (lookup (part_path sess.id) w'.files)
            (record w' { faults = tail_faults w'.faults }) (opened.1 ∙ same)
            (ap (λ i. lookup (part_path i) w'.files) opened.0
              ∙ ap (lookup (part_path id)) (opened.1 ∙ same)
              ∙ h))
        (λ a w' silent o e. absurd cc)
