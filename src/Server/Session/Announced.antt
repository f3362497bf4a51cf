-- ===== src/Server/Session/Announced.antt =====
-- The PATCH handler of server/resumable.go as a client sees it: what an `Upload-Offset` in its answer
-- promises about the spool file.
use send_to.Prelude.{
  ◌≡◌, refl, true, false, Bool, Option, none, some, [], Bytes, ◌==◌, arith, if◌then◌else◌, length,
  take, drop, take-append, take-all, take-append-drop, length-append, append_assoc, append-nil, sym,
  ap, ◌∙◌, subst, ltb, ℕ, ◌+◌, ◌-◌, ◌≤◌, ◌++◌, not,
}
use send_to.E2e.{Source}
use send_to.Server.Fs.{Files, FilePath, lookup}
use send_to.Server.Exec.{
  World, Fault, works, fails, Reply, system_call, head_fault, tail_faults, Answer, answer,
  offset_at, refused, msg_session_continue, msg_session_offset, msg_session_mismatch, upload_error,
  ◌>>=◌, ◌>>◌,
}
use send_to.Server.Post.{Post, Post-bind, Post-mono, offset_of}
use send_to.Server.Storage.{read_file, on_file}
use send_to.Server.Types.{Env, Config, Request, UploadSession}
use send_to.Server.Quota.{check_temp_quota}
use send_to.Server.Session.{open_session, part_path}
use send_to.Server.Session.ContentRange.{Span, Parsed, parsed, unparsed, parse_upload_content_range}
use send_to.Server.Session.Patch.{
  Appended, complete, cut, unflushed, append_chunk, finish_upload_session, after_append, at_spool,
  on_spool, on_range, patch_upload_session_handler, is_work,
}
use send_to.Server.Session.Spool.{IsPrefix, Appends, append_chunk_lem}
use send_to.Server.Session.Silent.{
  check_temp_quota-Keeps, open_session_lem, finish_upload_session_lem,
}

-- The spool file has at least o bytes, its first o bytes are those of what was there before and of the
-- body behind it, and none of what was there before is given up.
unfoldable pub Holds : FilePath → Bytes → Source → ℕ → Files → Type 0
Holds p before body o files =
    (s : Bytes) × (lookup p files ≡ some s)
    × (length before ≤ o)
    × (o ≤ length s)
    × IsPrefix (take o s) (before ++ body.content)

abbrev pub Announces : FilePath → Bytes → Source → Answer → World → Type 0
Announces p before body a w = (o : ℕ) → offset_of a ≡ some o → Holds p before body o w.files

module _ (p : FilePath) (before : Bytes) (body : Source) where
  Announces-silent : (a : Answer) (w : World) → offset_of a ≡ none → Announces p before body a w
  Announces-silent a w e o h = absurd cc

  Announces-offset :
      (o : ℕ) (files : Files)
      → Holds p before body o files
      → (o' : ℕ) → some o ≡ some o'
      → Holds p before body o' files
  Announces-offset o files h o' e = subst (λ k. Holds p before body k files) (ground arith) h

  Holds-before :
      (rest : Bytes) (files : Files)
      → lookup p files ≡ some (before ++ rest)
      → Holds p before body (length before) files
  unfolding Holds
  Holds-before rest files h = (
    before ++ rest,
    h,
    omega arith,
    omega (arith, length-append before rest),
    (body.content, ap (λ l. l ++ body.content) (take-append (length before) before rest refl)),
  )

  Holds-after :
      (want : ℕ) (files : Files)
      → lookup p files ≡ some (before ++ take want body.content)
      → length (take want body.content) ≡ want
      → Holds p before body (length before + want) files
  unfolding Holds
  Holds-after want files h full =
      let whole : length (before ++ take want body.content) ≡ length before + want =
        omega (arith, length-append before (take want body.content), full) in
      (
        before ++ take want body.content,
        h,
        omega arith,
        omega (arith, whole),
        (
          drop want body.content,
          ap (λ l. l ++ drop want body.content)
                (take-all (length before + want) (before ++ take want body.content)
                  (omega (arith, whole)))
              ∙ append_assoc before (take want body.content) (drop want body.content)
              ∙ ap (λ l. before ++ l) (take-append-drop want body.content),
        ),
      )

module _ (env : Env) (c : Config) (r : Request) (body : Source) (before : Bytes) where
  after_append_lem :
      (sess : UploadSession) (want : ℕ) (x : Appended) (w : World)
      → Appends (part_path sess.id) before want body x w
      → Post
          (λ _ _. ⊥)
          (Announces (part_path sess.id) before body)
          (after_append env c r sess (length before) want x w)
  after_append_lem sess want unflushed w h = λ o e. absurd cc
  after_append_lem sess want cut w (part, h, pre) =
      Announces-offset _ _ _ (length before) _ (Holds-before _ before body part w.files h)
  after_append_lem sess want complete w (h, full) = last_lem (ltb (length before + want) sess.total)
    where
      last_lem :
          (more : Bool)
          → Post
              (λ _ _. ⊥)
              (Announces (part_path sess.id) before body)
              ((if more
                  then answer (offset_at 204 (length before + want))
                  else finish_upload_session env c r sess)
                w)
      last_lem true =
          Announces-offset _ _ _ (length before + want) _
            (Holds-after _ before body want w.files h full)
      last_lem false =
          Post-mono (finish_upload_session env c r sess w) (λ _ _ e. e)
            (Announces-silent _ before body) (finish_upload_session_lem env c r sess w)

  abbrev Announced : FilePath → Reply (Unit {0}) × World → Type 0
  Announced p x = Post (λ _ _. ⊥) (Announces p before body) x

  at_spool_lem :
      (sess : UploadSession) (span : Span) (stat : Fault) (w : World)
      → lookup (part_path sess.id) w.files ≡ some before
      → Announced (part_path sess.id) (at_spool env c r sess span body before stat w)
  unfolding system_call
  at_spool_lem sess span (fails n) w h =
      Announces-silent (part_path sess.id) before body (refused 500 msg_session_continue none) w
        refl
  at_spool_lem sess span works w h = there (not (span.start == length before))
    where
      seek_lem :
          (seek : Fault) (w' : World)
          → Announced (part_path sess.id) (
              (if is_work seek
                  then (do
                    done ←
                        append_chunk (part_path sess.id) before (span.finish - span.start + 1) body
                    after_append env c r sess (length before) (span.finish - span.start + 1) done)
                  else answer (refused 500 msg_session_continue none))
                w')
      seek_lem (fails n) w' =
          Announces-silent (part_path sess.id) before body (refused 500 msg_session_continue none)
            w' refl
      seek_lem works w' =
          Post-bind _ _
            (append_chunk (part_path sess.id) before (span.finish - span.start + 1) body w')
            (λ done. after_append env c r sess (length before) (span.finish - span.start + 1) done)
            (append_chunk_lem (part_path sess.id) before _ body w')
            (λ done w'' appended. after_append_lem sess _ done w'' appended) (λ _ _ e. absurd e)

      there :
          (elsewhere : Bool)
          → Announced (part_path sess.id) (
              (if elsewhere
                  then answer (refused 409 msg_session_offset (some (length before)))
                  else do
                    let want = span.finish - span.start + 1
                    check_temp_quota c want
                    seek ← system_call
                    if is_work seek
                        then (do
                          done ← append_chunk (part_path sess.id) before want body
                          after_append env c r sess (length before) want done)
                        else answer (refused 500 msg_session_continue none))
                w)
      there true = Announces-offset (part_path sess.id) before body (length before) w.files (
          Holds-before (part_path sess.id) before body [] w.files
            (h ∙ ap some (sym (append-nil before))))
      there false =
          Post-bind (λ _ _. ⊥) (Announces (part_path sess.id) before body)
            (check_temp_quota c (span.finish - span.start + 1) w) _
            (check_temp_quota-Keeps c (span.finish - span.start + 1) w)
            (λ _ w' _.
              seek_lem (head_fault w'.faults) (record w' { faults = tail_faults w'.faults }))
            (Announces-silent (part_path sess.id) before body)

  on_spool_lem :
      (sess : UploadSession) (span : Span) (access : Fault) (file : Option Bytes) (w : World)
      → lookup (part_path sess.id) w.files ≡ some before
      → file ≡ some before
      → Announced (part_path sess.id) (on_spool env c r sess span body (on_file access file) w)
  unfolding system_call
  on_spool_lem sess span (fails n) file w h e = λ o e. absurd cc
  on_spool_lem sess span works none w h e = absurd cc
  on_spool_lem sess span works (some content) w h e =
      let same : before ≡ content = ground arith in
      subst
        (λ b. Announced (part_path sess.id) (
          at_spool env c r sess span body b (head_fault w.faults)
            (record w { faults = tail_faults w.faults })))
        same
        (at_spool_lem sess span (head_fault w.faults) (record w { faults = tail_faults w.faults })
          h)

  on_range_lem :
      (sess : UploadSession) (x : Parsed) (w : World)
      → lookup (part_path sess.id) w.files ≡ some before
      → Announced (part_path sess.id) (on_range env c r sess body x w)
  unfolding read_file system_call
  on_range_lem sess (unparsed msg) w h = λ o e. absurd cc
  on_range_lem sess (parsed span) w h = total_lem (not (span.total == sess.total))
    where
      total_lem :
          (mismatch : Bool)
          → Announced (part_path sess.id) (
              (if mismatch then upload_error 400 msg_session_mismatch else do
                content ← read_file (part_path sess.id)
                on_spool env c r sess span body content)
                w)
      total_lem true = λ o e. absurd cc
      total_lem false =
          on_spool_lem sess span (head_fault w.faults) (lookup (part_path sess.id) w.files)
            (record w { faults = tail_faults w.faults }) h h

  -- A PATCH of any request, on any schedule of failing calls of the operating system and with a
  -- body that may end anywhere, where the spool file of the session held `before`: the handler answers,
  -- and if the answer has an `Upload-Offset` o, the spool file has at least o bytes, o is not behind
  -- the end of `before`, and the first o bytes are the first o of `before` and the body behind it.
  pub patch_upload_session_handler-Announces :
      (id filename : Bytes) (w : World)
      → lookup (part_path id) w.files ≡ some before
      → Post
          (λ _ _. ⊥)
          (Announces (part_path id) before body)
          (patch_upload_session_handler env c id filename r body w)
  unfolding patch_upload_session_handler
  patch_upload_session_handler-Announces id filename w h =
      Post-bind (λ _ _. ⊥) (Announces (part_path id) before body) (open_session env id filename w) _
        (open_session_lem env id filename w)
        (λ sess w' opened.
          subst
            (λ i. Announced (part_path i) (
              on_range env c r sess body
                (parse_upload_content_range (env.trim_space r.headers.content_range)) w'))
            opened.0
            (on_range_lem sess _ w' (
              ap (λ i. lookup (part_path i) w'.files) opened.0
              ∙ ap (lookup (part_path id)) opened.1
              ∙ h)))
        (Announces-silent (part_path id) before body)
