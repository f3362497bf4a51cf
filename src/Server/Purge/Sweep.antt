-- ===== src/Server/Purge/Sweep.antt =====
-- server/storage/local.go: what the walk of `Purge` removes, whatever calls fail.
use send_to.Prelude.{
  ℕ, ◌≡◌, ◌≢◌, refl, ap, sym, ◌∙◌, subst, ◌⊎◌, inl, inr, Bool, true, false, ◌&&◌, none, some, List,
  [], ◌∷◌, Bytes, arith, Bool-cases, if◌then◌else◌,
}
use send_to.Server.Fs.{Files, FilePath, lookup, eq_path, eq_path_iff, eq_path_refl}
use send_to.Server.Exec.{World, Fault, next}
use send_to.Server.Storage.{IoResult, good, broken}
use send_to.Server.Storage.Walk.{is_token_dir, is_before_cutoff, stored_files, purge_files}
use send_to.Server.Purge.Files.{IsDistinct, IsWithin, IsWithin-tail}
use send_to.Server.Purge.Step.{is_swept, taken, lookup-taken, taken-IsDistinct, purge_file-StepOf}

module _ (days : ℕ) where
  -- Of each file: it is as it was, or it is swept and gone.
  abbrev pub Spares : World → Files → Type 0
  Spares w files =
      (q : FilePath)
      → (lookup q files ≡ lookup q w.files) ⊎ ((is_swept days w q ≡ true) × (lookup q files ≡ none))

  abbrev pub Clears : World → Files → Files → Type 0
  Clears w fs files =
      (q : FilePath) (content : Bytes)
      → lookup q fs ≡ some content
      → is_swept days w q ≡ true
      → lookup q files ≡ none

  abbrev pub Sweeps : World → Files → IoResult (Unit {0}) → Files → Type 0
  Sweeps w fs r files =
      Spares w files
      × IsDistinct files
      × (((r ≡ good tt) × Clears w fs files) ⊎ ((r ≡ broken) × (w.faults ≢ [])))

  is_swept_hit :
      (p q : FilePath) (w : World)
      → is_token_dir p.folder ≡ true
      → (is_before_cutoff days p w && eq_path p q) ≡ true
      → is_swept days w q ≡ true
  is_swept_hit p q w stored hit =
      let old : is_before_cutoff days p w ≡ true = ground (arith, hit) in
      let same : eq_path p q ≡ true = ground (arith, hit) in
      subst (λ x. is_swept days w x ≡ true) ((eq_path_iff p q).0 same) (rw (stored, old) refl)

  Spares-after :
      (p : FilePath) (w : World) (faults : List Fault) (files : Files)
      → is_token_dir p.folder ≡ true
      → Spares
          (record w { faults = faults; files = taken p (is_before_cutoff days p w) w.files })
          files
      → Spares w files
  Spares-after p w faults files stored spares q = elim (spares q) [
    | inr gone ↦ inr gone
    | inl same ↦
        let now : lookup q files
            ≡ (if is_before_cutoff days p w && eq_path p q then none else lookup q w.files) =
          same ∙ lookup-taken p q (is_before_cutoff days p w) w.files in
        elim (Bool-cases (is_before_cutoff days p w && eq_path p q)) [
          | inl hit ↦ inr (is_swept_hit p q w stored hit, now ∙ rw hit refl)
          | inr miss ↦ inl (now ∙ rw miss refl)
        ]
  ]

  Clears-after :
      (p : FilePath) (content : Bytes) (w : World) (fs files : Files)
      → Spares w files
      → (lookup p files ≡ none) ⊎ (is_swept days w p ≡ false)
      → Clears w fs files
      → Clears w ((p, content) ∷ fs) files
  unfolding lookup
  Clears-after p content w fs files spares first clears q c h swept =
      elim (Bool-cases (eq_path p q)) [
        | inl same ↦ elim first [
          | inl gone ↦ subst (λ x. lookup x files ≡ none) ((eq_path_iff p q).0 same) gone
          | inr kept ↦
              absurd (ground (arith, kept, swept, ap (is_swept days w) ((eq_path_iff p q).0 same)))
        ]
        | inr other ↦ clears q c (ground (arith, h, other)) swept
      ]

  ended_after :
      (p : FilePath) (content : Bytes) (w : World) (fs files : Files) (r : IoResult (Unit {0}))
      → Spares w files
      → (lookup p files ≡ none) ⊎ (is_swept days w p ≡ false)
      → ((r ≡ good tt) × Clears w fs files) ⊎ ((r ≡ broken) × (w.faults ≢ []))
      → ((r ≡ good tt) × Clears w ((p, content) ∷ fs) files) ⊎ ((r ≡ broken) × (w.faults ≢ []))
  ended_after p content w fs files r spares first ended = elim ended [
    | inl (good_, clears) ↦ inl (good_, Clears-after p content w fs files spares first clears)
    | inr fault ↦ inr fault
  ]

  IsWithin-taken :
      (p : FilePath) (content : Bytes) (old : Bool) (fs files : Files)
      → lookup p fs ≡ none
      → IsWithin ((p, content) ∷ fs) files
      → IsWithin fs (taken p old files)
  IsWithin-taken p content old fs files fresh within q c h =
      let (there, other) = IsWithin-tail p content fs files fresh within q c h in
      ground (arith, lookup-taken p q old files, there, other)

  first_gone :
      (p : FilePath) (w : World) (faults : List Fault) (files : Files) (old : Bool)
      → is_before_cutoff days p w ≡ old
      → Spares (record w { faults = faults; files = taken p old w.files }) files
      → (lookup p files ≡ none) ⊎ (is_swept days w p ≡ false)
  first_gone p w faults files true age spares = elim (spares p) [
    | inl same ↦ inl (same ∙ lookup-taken p p true w.files ∙ rw (eq_path_refl p) refl)
    | inr gone ↦ inl gone.1
  ]
  first_gone p w faults files false age spares = inr (ground (arith, age))

  -- a file has been passed or removed, and the walk goes on with the rest
  Sweeps-after :
      (p : FilePath) (content : Bytes) (fs : Files) (w : World) (faults : List Fault)
      → is_token_dir p.folder ≡ true
      → (faults ≢ [] → w.faults ≢ [])
      → (r : IoResult (Unit {0})) (files : Files)
      → Sweeps
          (record w { faults = faults; files = taken p (is_before_cutoff days p w) w.files })
          fs
          r
          files
      → Sweeps w ((p, content) ∷ fs) r files
  Sweeps-after p content fs w faults stored more r files (spares, distinct, ended) =
      let all = Spares-after p w faults files stored spares in
      (
        all,
        distinct,
        ended_after p content w fs files r all
            (first_gone p w faults files (is_before_cutoff days p w) refl spares)
            (elim ended [ inl done ↦ inl done | inr (broken_, some_) ↦ inr (broken_, more some_) ]),
      )

  pub purge_files-Sweeps :
      (fs : Files) (w : World)
      → IsDistinct fs
      → IsDistinct w.files
      → IsWithin fs w.files
      → (r : IoResult (Unit {0})) × (faults : List Fault) × (files : Files) × (purge_files days
            (stored_files fs)
            w
          ≡ (next r, record w { faults = faults; files = files }))
        × (faults ≢ [] → w.faults ≢ [])
        × Sweeps w fs r files
  unfolding purge_files stored_files lookup
  purge_files-Sweeps [] w d dw within = (
    good tt,
    w.faults,
    w.files,
    refl,
    (λ some_. some_),
    ((λ q. inl refl), dw, inl (refl, λ q c h s. absurd (ground (arith, h)))),
  )
  purge_files-Sweeps ((p, content) ∷ fs) w (fresh, d) dw within =
      let tail : IsWithin fs w.files =
        λ q c h. (IsWithin-tail p content fs w.files fresh within q c h).0 in
      elim (Bool-cases (is_token_dir p.folder)) [
        | inr other ↦
            let (r, faults, files, run, more, (spares, distinct, ended)) =
              purge_files-Sweeps fs w d dw tail in
            let kept : is_swept days w p ≡ false = rw other refl in
            (
              r,
              faults,
              files,
              rw other run,
              more,
              (spares, distinct, ended_after p content w fs files r spares (inr kept) ended),
            )
        | inl stored ↦
            let (r, faults, files, ran, step, more) =
              purge_file-StepOf days p content w (is_before_cutoff days p w)
                (within p content (rw (eq_path_refl p) refl)) refl in
            elim step [
              | inr (broken_, some_, kept) ↦ (
                broken,
                faults,
                files,
                rw (stored, ran, broken_) refl,
                more,
                (
                  (λ q. inl (ap (lookup q) kept)),
                  subst IsDistinct (sym kept) dw,
                  inr (refl, some_),
                ),
              )
              | inl (good_, swept) ↦
                  let v : World = record w {
                    faults = faults;
                    files = taken p (is_before_cutoff days p w) w.files;
                  } in
                  let (r', faults', files', run, more', sweeps) =
                    purge_files-Sweeps fs v d
                      (taken-IsDistinct p (is_before_cutoff days p w) w.files dw)
                      (IsWithin-taken p content (is_before_cutoff days p w) fs w.files fresh
                        within) in
                  (
                    r',
                    faults',
                    files',
                    rw (stored, ran, good_, swept) run,
                    (λ some_. more (more' some_)),
                    Sweeps-after p content fs w faults stored more r' files' sweeps,
                  )
            ]
      ]
