-- ===== src/Client/History/Saved.antt =====
-- client/history.go: what of the history is written, and what falls off.
use send_to.Prelude.{
  suc, ◌≤◌, ◌≡◌, refl, ap, sym, subst, ◌∙◌, Option, some, List, [], ◌∷◌, ◌++◌, Bytes, arith, ltb,
  take, drop, length, take-append-drop, length-take, min, Bool-cases, inl, inr,
}
use mathlib.Core.List.{Perm}
use mathlib.Core.List.Perm
use send_to.Server.Exec.{works}
use send_to.Client.Pending.{JsonFile, or_empty}
use send_to.Client.History.{
  Entry, History, history_limit, insert, sort, saved_entries, save, load_history,
}

-- No entry is newer than the one before it.
abbrev IsNotNewer : Entry → List Entry → Type 0
IsNotNewer e [] = Unit
IsNotNewer e (f ∷ entries) = f.uploaded_at ≤ e.uploaded_at

abbrev pub IsNewestFirst : List Entry → Type 0
IsNewestFirst [] = Unit
IsNewestFirst (e ∷ entries) = IsNotNewer e entries × IsNewestFirst entries

insert-perm : (e : Entry) (l : List Entry) → Perm (insert e l) (e ∷ l)
unfolding insert
insert-perm e [] = Perm.rfl
insert-perm e (f ∷ l) = elim (Bool-cases (ltb e.uploaded_at f.uploaded_at)) [
  | inl older ↦ rw older (Perm.trans (Perm.cons f (insert-perm e l)) (Perm.swap e f l))
  | inr newer ↦ rw newer Perm.rfl
]

sort-perm : (l : List Entry) → Perm (sort l) l
unfolding sort
sort-perm [] = Perm.rfl
sort-perm (e ∷ l) = Perm.trans (insert-perm e (sort l)) (Perm.cons e (sort-perm l))

insert-IsNotNewer :
    (f e : Entry) (l : List Entry)
    → e.uploaded_at ≤ f.uploaded_at
    → IsNotNewer f l
    → IsNotNewer f (insert e l)
unfolding insert
insert-IsNotNewer f e [] older h = older
insert-IsNotNewer f e (g ∷ l) older h = elim (Bool-cases (ltb e.uploaded_at g.uploaded_at)) [
  | inl less ↦ rw less h
  | inr more ↦ rw more older
]

insert-IsNewestFirst : (e : Entry) (l : List Entry) → IsNewestFirst l → IsNewestFirst (insert e l)
unfolding insert
insert-IsNewestFirst e [] h = (tt, tt)
insert-IsNewestFirst e (f ∷ l) (head, tail) = elim (Bool-cases (ltb e.uploaded_at f.uploaded_at)) [
  | inl older ↦
      rw older (insert-IsNotNewer f e l (ground arith) head, insert-IsNewestFirst e l tail)
  | inr newer ↦ rw newer (ground arith, (head, tail))
]

sort-IsNewestFirst : (l : List Entry) → IsNewestFirst (sort l)
unfolding sort
sort-IsNewestFirst [] = tt
sort-IsNewestFirst (e ∷ l) = insert-IsNewestFirst e (sort l) (sort-IsNewestFirst l)

length-insert : (e : Entry) (l : List Entry) → length (insert e l) ≡ suc (length l)
unfolding insert
length-insert e [] = refl
length-insert e (f ∷ l) = ground (arith, length-insert e l)

length-sort : (l : List Entry) → length (sort l) ≡ length l
unfolding sort
length-sort [] = refl
length-sort (e ∷ l) = omega (arith, length-insert e (sort l), length-sort l)

-- A history that is saved where no call fails is read back as its newest entries, the newest first: with
-- the entries that have fallen off behind them they are all its entries, no entry newer than the one
-- before it, and there are 500 of them, or all if there are fewer.
pub load_history-save :
    (json : JsonFile History) (h : History) (file : Option Bytes)
    → (kept dropped : List Entry) × (load_history json works
          (save json (record { make_dir = works; write_file = works }) h file).1
        ≡ some (record { entries = kept }))
      × Perm (kept ++ dropped) h.entries
      × IsNewestFirst (kept ++ dropped)
      × (length kept ≡ min history_limit (length h.entries))
unfolding load_history save saved_entries
load_history-save json h file =
    let all : take history_limit (sort h.entries) ++ drop history_limit (sort h.entries)
        ≡ sort h.entries =
      take-append-drop history_limit (sort h.entries) in
    (
      take history_limit (sort h.entries),
      drop history_limit (sort h.entries),
      ap (λ o. some (or_empty (record { entries = [] }) o)) (json.unmarshal-marshal _),
      subst (λ l. Perm l h.entries) (sym all) (sort-perm h.entries),
      subst IsNewestFirst (sym all) (sort-IsNewestFirst h.entries),
      length-take history_limit (sort h.entries) ∙ ap (min history_limit) (length-sort h.entries),
    )
