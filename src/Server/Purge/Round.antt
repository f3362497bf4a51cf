-- ===== src/Server/Purge/Round.antt =====
-- server/handlers.go: `purgeHandler`; server/quota.go: `reseedStorageQuota` and `initStorageQuota`.
use send_to.Prelude.{
  ℕ, ◌%◌, ◌^◌, ◌<◌, ◌≡◌, ◌≢◌, refl, ◌∙◌, ◌⊎◌, inl, inr, true, Option, none, some, List, [], Bytes,
  arith, Bool-cases, if◌then◌else◌,
}
use send_to.Server.Fs.{Files, FilePath, lookup}
use send_to.Server.Exec.{World, Fault, next, tail_faults, system_call}
use send_to.Server.Storage.{IoResult, good, broken}
use send_to.Server.Storage.Walk.{remove_empty_token_dirs, purge}
use send_to.Server.Types.{Config}
use send_to.Server.Quota.{enabled, add_used}
use send_to.Server.Purge.{seeded, reseed_storage_quota, init_storage_quota, purge_round}
use send_to.Server.Purge.Files.{IsDistinct, first_fault, more_faults}
use send_to.Server.Purge.Step.{is_swept}
use send_to.Server.Purge.Sweep.{Spares, Clears, Sweeps, purge_files-Sweeps}
use send_to.Server.Purge.Usage.{stored_size, usage-Counts}

remove_empty_token_dirs_lem :
    (w : World)
    → (r : IoResult (Unit {0})) × (remove_empty_token_dirs w
        ≡ (next r, record w { faults = tail_faults w.faults }))
      × ((r ≡ good tt) ⊎ ((r ≡ broken) × (w.faults ≢ [])))
unfolding remove_empty_token_dirs system_call
remove_empty_token_dirs_lem w = elim (first_fault w.faults) [
  | inl works_ ↦ (good tt, rw works_ refl, inl refl)
  | inr (n, fails_, some_) ↦ (broken, rw fails_ refl, inr (refl, some_))
]

module _ (days : ℕ) where
  purge-Sweeps :
      (w : World)
      → IsDistinct w.files
      → (r : IoResult (Unit {0})) × (faults : List Fault) × (files : Files) × (purge days w
          ≡ (next r, record w { faults = faults; files = files }))
        × (faults ≢ [] → w.faults ≢ [])
        × Sweeps days w w.files r files
  unfolding purge
  purge-Sweeps w distinct =
      let (r, faults, files, run, more, (spares, kept, ended)) =
        purge_files-Sweeps days w.files w distinct distinct (λ q c h. h) in
      elim ended [
        | inr (broken_, some_) ↦
            (broken, faults, files, rw (run, broken_) refl, more, (spares, kept, inr (refl, some_)))
        | inl (good_, clears) ↦
            let (r', read, seen) =
              remove_empty_token_dirs_lem (record w { faults = faults; files = files }) in
            (
              r',
              tail_faults faults,
              files,
              rw (run, good_) read,
              (λ some_. more (more_faults faults some_)),
              (
                spares,
                kept,
                elim seen [
                  | inl done ↦ inl (done, clears)
                  | inr (broken_, some_) ↦ inr (broken_, more some_)
                ],
              ),
            )
      ]

  -- The files that are too old are gone, and all others as they were.
  abbrev pub IsSwept : World → Files → Type 0
  IsSwept w files =
      (q : FilePath) → lookup q files ≡ (if is_swept days w q then none else lookup q w.files)

  Sweeps-IsSwept :
      (w : World) (files : Files)
      → Spares days w files
      → Clears days w w.files files
      → IsSwept w files
  Sweeps-IsSwept w files spares clears q = elim (spares q) [
    | inr (old, gone) ↦ rw old gone
    | inl same ↦ elim (Bool-cases (is_swept days w q)) [
      | inr kept ↦ rw kept same
      | inl old ↦ rw old (go (lookup q w.files) refl old same)
    ]
  ]
    where
      go :
          (o : Option Bytes)
          → lookup q w.files ≡ o
          → is_swept days w q ≡ true
          → lookup q files ≡ lookup q w.files
          → lookup q files ≡ none
      go none h old same = same ∙ h
      go (some content) h old same = clears q content h old

module _ (c : Config) where
  -- The counter behind a round that works: what the files hold, in 64 bits.
  abbrev pub recounted : World → Files → ℕ
  recounted w files = if enabled c then stored_size files % 2 ^ 64 else w.quota_used

  reseed-Counts :
      (w : World)
      → IsDistinct w.files
      → (faults : List Fault) × (used : ℕ) × (reseed_storage_quota c w
          ≡ (next tt, record w { faults = faults; quota_used = used }))
        × ((used ≡ recounted w w.files) ⊎ ((w.faults ≢ []) × (used ≡ w.quota_used)))
  unfolding reseed_storage_quota
  reseed-Counts w distinct =
      let (r, faults, run, counts) = usage-Counts w distinct in
      elim (Bool-cases (enabled c)) [
        | inr off ↦ (w.faults, w.quota_used, rw off refl, inl (rw off refl))
        | inl on ↦ elim counts [
          | inl counted ↦
              (faults, stored_size w.files % 2 ^ 64, rw (on, run, counted) refl, inl (rw on refl))
          | inr (broken_, some_) ↦
              (faults, w.quota_used, rw (on, run, broken_) refl, inr (some_, refl))
        ]
      ]

  -- For files of which none has the path of another: a round of the purge ends, whatever calls of the
  -- operating system fail, and each file is as it was or is one of the storage directory that was too
  -- old, and gone. Either all these are gone, and under a storage limit the counter is what the files
  -- left in the storage directory hold, in 64 bits, without one as it was; or a call has failed, and
  -- the counter is as it was.
  pub purge_round-Sweeps :
      (days : ℕ) (w : World)
      → IsDistinct w.files
      → (faults : List Fault) × (files : Files) × (used : ℕ) × (purge_round c days w
          ≡ (next tt, record w { faults = faults; files = files; quota_used = used }))
        × Spares days w files
        × ((IsSwept days w files × (used ≡ recounted w files))
            ⊎ ((w.faults ≢ []) × (used ≡ w.quota_used)))
  unfolding purge_round
  purge_round-Sweeps days w distinct =
      let (r, faults, files, run, more, (spares, kept, ended)) = purge-Sweeps days w distinct in
      elim ended [
        | inr (broken_, some_) ↦
            (faults, files, w.quota_used, rw (run, broken_) refl, spares, inr (some_, refl))
        | inl (good_, clears) ↦
            let (faults', used, reseeded, counts) =
              reseed-Counts (record w { faults = faults; files = files }) kept in
            (
              faults',
              files,
              used,
              rw (run, good_) reseeded,
              spares,
              elim counts [
                | inl counted ↦ inl (Sweeps-IsSwept days w files spares clears, counted)
                | inr (some_, same) ↦ inr (more some_, same)
              ],
            )
      ]

  seeded_lem : (n : ℕ) → enabled c ≡ true → n < 2 ^ 63 → seeded c (n % 2 ^ 64) ≡ n
  unfolding add_used
  seeded_lem n on small = ground (arith, on, small)

  -- Behind a start that works under a storage limit the counter is what the files hold, and a start fails
  -- only where a call does.
  pub init_storage_quota-Counts :
      (w : World)
      → IsDistinct w.files
      → enabled c ≡ true
      → stored_size w.files < 2 ^ 63
      → (r : IoResult (Unit {0})) × (faults : List Fault) × (used : ℕ) × (init_storage_quota c w
          ≡ (next r, record w { faults = faults; quota_used = used }))
        × (((r ≡ good tt) × (used ≡ stored_size w.files)) ⊎ ((r ≡ broken) × (w.faults ≢ [])))
  unfolding init_storage_quota
  init_storage_quota-Counts w distinct on small =
      let (r, faults, run, counts) = usage-Counts w distinct in
      elim counts [
        | inr (broken_, some_) ↦
            (broken, faults, w.quota_used, rw (on, run, broken_) refl, inr (refl, some_))
        | inl counted ↦ (
          good tt,
          faults,
          seeded c (stored_size w.files % 2 ^ 64),
          rw (on, run, counted) refl,
          inl (refl, seeded_lem (stored_size w.files) on small),
        )
      ]
