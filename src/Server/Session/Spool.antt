-- ===== src/Server/Session/Spool.antt =====
-- The chunk that the PATCH handler of server/resumable.go appends to the spool file of its session.
use send_to.Prelude.{
  ℕ, ◌≡◌, refl, true, false, Bool, ◌&&◌, some, ◌++◌, Bytes, arith, length, take, drop, [], ◌==◌,
  take-append-drop, append_assoc, append-nil, ap, sym, ◌∙◌,
}
use send_to.E2e.{Source}
use send_to.Server.Fs.{lookup, lookup-put_self, FilePath}
use send_to.Server.Exec.{
  World, Fault, works, fails, system_call, head_fault, tail_faults, pure, ◌>>◌,
}
use send_to.Server.Post.{Post}
use send_to.Server.Session.Patch.{
  Appended, complete, cut, unflushed, append_chunk, is_work, copied, closed, append_end, roll_back,
}

abbrev pub IsPrefix : Bytes → Bytes → Type 0
IsPrefix s whole = (rest : Bytes) × (s ++ rest ≡ whole)

module _ (p : FilePath) (before : Bytes) (want : ℕ) (body : Source) where
  -- A complete chunk is in the spool file in full and nothing else is behind it; a chunk that is cut
  -- short leaves what was there before, and behind it nothing but a beginning of the body.
  abbrev pub Appends : Appended → World → Type 0
  Appends complete w =
      (lookup p w.files ≡ some (before ++ take want body.content))
      × (length (take want body.content) ≡ want)
  Appends unflushed w = lookup p w.files ≡ some (before ++ take want body.content)
  Appends cut w =
      (part : Bytes) × (lookup p w.files ≡ some (before ++ part)) × IsPrefix part body.content

  copied-prefix : (fault : Fault) → IsPrefix (copied fault (take want body.content)) body.content
  copied-prefix works = (drop want body.content, take-append-drop want body.content)
  copied-prefix (fails n) = (
    drop n (take want body.content) ++ drop want body.content,
    sym (append_assoc (take n (take want body.content)) _ _)
        ∙ ap (λ l. l ++ drop want body.content) (take-append-drop n (take want body.content))
        ∙ take-append-drop want body.content,
  )

  -- both ends of a chunk, on the bytes that the copy has written
  append_end_lem :
      (full : Bool) (part : Bytes) (w : World)
      → IsPrefix part body.content
      → (full ≡ true → (part ≡ take want body.content) × (length part ≡ want))
      → lookup p w.files ≡ some (before ++ part)
      → Post Appends (λ _ _. ⊥) (append_end p before want body full w)
  unfolding system_call
  append_end_lem true part w pre whole h = closed_lem (head_fault w.faults)
    where
      closed_lem :
          (fault : Fault) → Appends (closed fault) (record w { faults = tail_faults w.faults })
      closed_lem works = ground (arith, whole refl)
      closed_lem (fails n) = ground (arith, whole refl)
  append_end_lem false part w pre whole h = rolled (head_fault w.faults)
    where
      rolled :
          (fault : Fault)
          → Post Appends
              (λ _ _. ⊥)
              ((roll_back p before fault >> pure cut) (record w { faults = tail_faults w.faults }))
      rolled works = (
        [],
        lookup-put_self p before w.files ∙ ap some (sym (append-nil before)),
        (body.content, refl),
      )
      rolled (fails n) = (part, h, pre)

  copied_full :
      (fault : Fault)
      → (is_work fault && (length (copied fault (take want body.content)) == want)) ≡ true
      → (copied fault (take want body.content) ≡ take want body.content)
        × (length (copied fault (take want body.content)) ≡ want)
  copied_full works h = (refl, ground arith)
  copied_full (fails n) h = ground arith

  -- Appending a chunk always goes on to one of its three ends, whatever calls of the operating system
  -- fail. A complete chunk is in the spool file in full; one whose close fails has the same bytes there;
  -- and one that is cut short leaves what was there before, with nothing but a beginning of the body
  -- behind it.
  pub append_chunk_lem : (w : World) → Post Appends (λ _ _. ⊥) (append_chunk p before want body w)
  unfolding append_chunk system_call
  append_chunk_lem w =
      append_end_lem _ (copied (head_fault w.faults) (take want body.content)) _
        (copied-prefix (head_fault w.faults)) (copied_full (head_fault w.faults))
        (lookup-put_self p _ w.files)
