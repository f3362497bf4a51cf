-- ===== src/Server/Session/Refines.antt =====
-- server/resumable.go: where no call of the operating system fails, the PATCH handler is the step of a
-- session that is nothing but the bytes it holds.
use send_to.Prelude.{
  ℕ, ◌+◌, ◌-◌, ◌^◌, ◌<◌, ◌≡◌, refl, ap, sym, ◌∙◌, true, false, some, [], ◌∷◌, ◌++◌, Bytes, arith,
  eq_bytes, eq_bytes_iff, ltb, ◌==◌, if◌then◌else◌, length, take, drop, drop-append, take-all,
  Bool-cases, inl, inr, codes,
}
use send_to.E2e.{eof}
use send_to.Server.Fs
use send_to.Server.Fs.{lookup, lookup-put, lookup-put_self, eq_path, eq_path_iff, FilePath}
use send_to.Server.Exec.{
  World, Reply, Answer, next, answered, refused, offset_at, works, msg_session_offset,
}
use send_to.Server.Storage.Works.{system_call_works, read_file_works}
use send_to.Server.Types.{Env, Config, Request, UploadSession}
use send_to.Server.Quota.{check_temp_quota}
use send_to.Server.Session.{
  part_path, session_sidecar, session_id_matches, session_ttl, open_session, load_session,
}
use send_to.Server.Session.ContentRange.{parse_upload_content_range, parsed}
use send_to.Server.Session.ContentRange.Laws.{
  content_range_header, parse_upload_content_range-header,
}
use send_to.Server.Session.Patch.{append_chunk, complete, patch_upload_session_handler, at_spool}

-- The session as a sequence of bytes: the chunk at the end is appended, any other is refused with the
-- offset of the end.
abbrev pub patch_bytes : ℕ → Bytes → Bytes → Answer × Bytes
patch_bytes start content held =
    if start == length held
    then (offset_at 204 (start + length content), held ++ content)
    else (refused 409 msg_session_offset (some (length held)), held)

module _ (env : Env) (c : Config) (sess : UploadSession) (filename : Bytes) where
  -- The session is open and young, its spool file holds `held`, and no call of the operating system
  -- fails.
  unfoldable pub Holds : Bytes → World → Type 0
  Holds held w =
      (w.faults ≡ [])
      × (lookup (part_path sess.id) w.files ≡ some held)
      × (lookup (session_sidecar sess.id) w.files ≡ some (env.encode_session sess))
      × (ltb session_ttl (w.now - sess.created_at) ≡ false)

  -- the id and the name are the ones of the session
  abbrev pub Names : Type 0
  Names = (session_id_matches sess.id ≡ true) × (sess.filename ≡ env.sanitize filename)

  open_session_works :
      (held : Bytes) (w : World)
      → Holds held w
      → Names
      → open_session env sess.id filename w ≡ (next sess, w)
  unfolding open_session load_session Holds
  open_session_works held w (calm, part, side, young) (valid, name) =
      let same_id : eq_bytes sess.id sess.id ≡ true = (eq_bytes_iff sess.id sess.id).1 refl in
      let same_name : eq_bytes sess.filename (env.sanitize filename) ≡ true =
        (eq_bytes_iff sess.filename (env.sanitize filename)).1 name in
      rw (
        valid,
        read_file_works sess.id filename (env.encode_session sess) w calm (session_sidecar sess.id)
            side,
        env.decode-encode_session sess,
        same_id,
        same_name,
        young,
      )

  append_chunk_works :
      (held content : Bytes) (n : ℕ) (w : World)
      → w.faults ≡ []
      → length content ≡ n
      → append_chunk (part_path sess.id) held n (record { content = content; ending = eof }) w
        ≡ (next complete, record w { files = Fs.put (part_path sess.id) (held ++ content) w.files })
  unfolding append_chunk
  append_chunk_works held content n w calm size =
      let all : take n content ≡ content = take-all n content (omega arith) in
      let full : (length content == n) ≡ true = ground arith in
      rw (
        system_call_works w calm,
        all,
        full,
        system_call_works
            (record w { files = Fs.put (part_path sess.id) (held ++ content) w.files }) calm,
      )

  second_of : Bytes → ℕ
  second_of [] = 0
  second_of (a ∷ []) = 0
  second_of (a ∷ b ∷ s) = b

  -- the spool file is not the sidecar
  part_ne_sidecar : (id : Bytes) → eq_path (part_path id) (session_sidecar id) ≡ false
  unfolding second_of
  part_ne_sidecar id = elim (Bool-cases (eq_path (part_path id) (session_sidecar id))) [
    | inl same ↦
        let names : id ++ codes ".part" ≡ id ++ codes ".json" =
          ap (λ (p : FilePath). p.name)
            ((eq_path_iff (part_path id) (session_sidecar id)).0 same) in
        let ends : codes ".part" ≡ codes ".json" =
          sym (drop-append (length id) id (codes ".part") refl)
          ∙ ap (drop (length id)) names
          ∙ drop-append (length id) id (codes ".json") refl in
        let second : ◌≡◌ {A = ℕ} b'p' b'j' = ap second_of ends in absurd (omega arith)
    | inr other ↦ other
  ]

  Holds-append :
      (held content : Bytes) (w : World)
      → Holds held w
      → Holds
          (held ++ content)
          (record w { files = Fs.put (part_path sess.id) (held ++ content) w.files })
  unfolding Holds
  Holds-append held content w (calm, part, side, young) = (
    calm,
    lookup-put_self (part_path sess.id) (held ++ content) w.files,
    lookup-put (part_path sess.id) (session_sidecar sess.id) (held ++ content) w.files
        ∙ rw (part_ne_sidecar sess.id, side),
    young,
  )

  -- what the handler does at the spool file
  unfoldable pub Steps : ℕ → Bytes → Bytes → Reply (Unit {0}) × World → Type 0
  Steps start content held x =
      (w' : World) × (x ≡ (answered (patch_bytes start content held).0, w'))
      × Holds (patch_bytes start content held).1 w'

  at_spool_works :
      (r : Request) (start : ℕ) (content held : Bytes) (w : World)
      → c.max_temp_size ≡ 0
      → Holds held w
      → 0 < length content
      → start + length content < sess.total
      → Steps start content held (
          at_spool env c r sess
            (record { start = start; finish = start + length content - 1; total = sess.total })
            (record { content = content; ending = eof })
            held
            works
            w)
  unfolding Steps check_temp_quota Holds
  at_spool_works r start content held w unlimited live some_bytes more =
      elim (Bool-cases (start == length held)) [
        | inr other ↦ (w, rw other refl, rw other live)
        | inl same ↦
            let at : start ≡ length held = ground arith in
            let after : World = record w {
              files = Fs.put (part_path sess.id) (held ++ content) w.files;
            } in
            let want : start + length content - 1 - start + 1 ≡ length content = omega arith in
            let free : (c.max_temp_size == 0) ≡ true = ground arith in
            let left : ltb (length held + length content) sess.total ≡ true = ground arith in
            (
              after,
              rw
                  (
                    same,
                    want,
                    free,
                    system_call_works w live.0,
                    append_chunk_works held content (length content) w live.0 refl,
                    left,
                  )
                  (ap (λ k. (answered (offset_at 204 (k + length content)), after)) (sym at)),
              rw same (Holds-append held content w live),
            )
      ]

  -- Where no call of the operating system fails, the temporary space is not limited, and the session
  -- is open and young, a PATCH of a complete chunk that is not empty and ends before the end of the
  -- upload is the step of a session that is nothing but the bytes it holds: the same answer, and a
  -- state that holds the bytes of that step, be the chunk at the end of them or not.
  pub patch_upload_session_handler-Refines :
      (r : Request) (start : ℕ) (content held : Bytes) (w : World)
      → c.max_temp_size ≡ 0
      → Names
      → Holds held w
      → 0 < length content
      → start + length content < sess.total
      → sess.total < 2 ^ 63
      → env.trim_space r.headers.content_range
        ≡ content_range_header start (start + length content - 1) sess.total
      → Steps start content held (
          patch_upload_session_handler env c sess.id filename r
            (record { content = content; ending = eof })
            w)
  unfolding patch_upload_session_handler Steps Holds
  patch_upload_session_handler-Refines r start content held w unlimited names live some_bytes more
        small named =
      let span : parse_upload_content_range (env.trim_space r.headers.content_range)
          ≡ parsed
              (record { start = start; finish = start + length content - 1; total = sess.total }) =
        ap parse_upload_content_range named
        ∙ parse_upload_content_range-header start (length content) sess.total some_bytes
            (omega arith) small in
      let same_total : (sess.total == sess.total) ≡ true = ground arith in
      rw
        (
          open_session_works held w live names,
          span,
          same_total,
          read_file_works sess.id filename held w live.0 (part_path sess.id) live.1,
          system_call_works w live.0,
        )
        (at_spool_works r start content held w unlimited live some_bytes more)
