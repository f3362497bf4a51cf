-- ===== src/Client/Download/Copied.antt =====
-- client/client.go: what a download adds to a beginning of the file.
use send_to.Prelude.{
  ℕ, ◌+◌, ◌≤◌, ◌≡◌, refl, ap, sym, ◌∙◌, subst, Bool, true, false, ◌&&◌, ◌||◌, not, Option, none,
  some, [], ◌∷◌, ◌++◌, Bytes, arith, ltb, leb, ◌==◌, length, take, drop, take-plus, take-all,
  take-append-drop, zero, suc, length-take, inl, inr, ◌⊎◌, le_or_lt,
}
use send_to.E2e.{Source, eof, failed}
use send_to.Server.Exec.{Fault, works, fails}
use send_to.Client.Download.{
  GetResponse, Downloaded, copied, download_failed, copy_body, download, opened_part, copied_if,
}

-- What comes of a text: all of it, or the beginning of it before the connection breaks.
pub data Sends (content : Bytes) : Source → Type 0 where
  whole : Sends content (record { content = content; ending = eof })
  broken : (n : ℕ) → Sends content (record { content = take n content; ending = failed })

abbrev pub is_failure : ℕ → Bool
is_failure status = ltb status 200 || leb 300 status

-- The response of a server with the file to a request for its bytes from o: none, an error, the rest of the
-- file as a part of it, or, where o is 0, the file.
pub data Answers (file : Bytes) (o : ℕ) : Option GetResponse → Type 0 where
  nothing : Answers file o none
  refusal : (r : GetResponse) → is_failure r.status ≡ true → Answers file o (some r)
  rest :
      {body : Source}
      → Sends (drop o file) body
      → Answers file o (some (record { status = 206; body = body }))
  start :
      {status : ℕ} {body : Source}
      → o ≡ 0
      → is_failure status ≡ false
      → Sends file body
      → Answers file o (some (record { status = status; body = body }))

abbrev pub Honours : Bytes → (ℕ → Option GetResponse) → Type 0
Honours file respond = (o : ℕ) → o ≤ length file → Answers file o (respond o)

-- the partial file, if there is one, is a beginning of the file
abbrev pub IsBeginning : Bytes → Option Bytes → Type 0
IsBeginning file none = Unit
IsBeginning file (some part) = (n : ℕ) × (n ≤ length file) × (part ≡ take n file)

pub opened_part-IsBeginning :
    (file : Bytes) (no_resume : Bool) (part : Option Bytes)
    → IsBeginning file part
    → IsBeginning file (some (opened_part no_resume part))
opened_part-IsBeginning file true part h = (0, omega arith, refl)
opened_part-IsBeginning file false none h = (0, omega arith, refl)
opened_part-IsBeginning file false (some part) h = h

-- Behind a download: it has gone on from the offset and has the file, or it has failed with a beginning of it.
abbrev pub Comes : Bytes → ℕ → Downloaded × Bytes → Type 0
Comes file o (copied resumed, content) = ((ltb 0 o && not resumed) ≡ false) × (content ≡ file)
Comes file o (download_failed e, content) = IsBeginning file (some content)

pub length-beginning : (file : Bytes) (n : ℕ) → n ≤ length file → length (take n file) ≡ n
length-beginning file n h = omega (arith, length-take n file)

-- a beginning with more behind it
more-IsBeginning :
    (file : Bytes) (n k : ℕ)
    → n ≤ length file
    → IsBeginning file (some (take n file ++ take k (drop n file)))
more-IsBeginning file n k h = elim (le_or_lt (n + k) (length file)) [
  | inl within ↦ (n + k, within, take-plus n k file)
  | inr over ↦ (
    length file,
    omega arith,
    take-plus n k file
        ∙ take-all (n + k) file (omega arith)
        ∙ sym (take-all (length file) file (omega arith)),
  )
]

take-take : (k n : ℕ) (s : Bytes) → (m : ℕ) × (take k (take n s) ≡ take m s)
take-take zero n s = (0, refl)
take-take (suc k) zero s = (0, refl)
take-take (suc k) (suc n) [] = (0, refl)
take-take (suc k) (suc n) (x ∷ s) = let (m, same) = take-take k n s in (suc m, ap (λ l. x ∷ l) same)

-- a copy that works has all of the text, any other a beginning of it
copy_lem :
    (write : Fault) (text before : Bytes) {body : Source}
    → Sends text body
    → ((copy_body write body before).0 ≡ true) × ((copy_body write body before).1 ≡ before ++ text)
      ⊎ (((copy_body write body before).0 ≡ false)
          × (k : ℕ) × ((copy_body write body before).1 ≡ before ++ take k text))
copy_lem works text before whole = inl (refl, refl)
copy_lem works text before (broken n) = inr (refl, n, refl)
copy_lem (fails k) text before whole = inr (refl, k, refl)
copy_lem (fails k) text before (broken n) =
    let (m, same) = take-take k n text in inr (refl, m, ap (λ l. before ++ l) same)

module _ (file : Bytes) (write : Fault) where
  -- the copy of what is left behind a beginning, in a response with or without the part
  Comes-copy :
      (n : ℕ) (resumed : Bool) {body : Source}
      → n ≤ length file
      → (ltb 0 n && not resumed) ≡ false
      → Sends (drop n file) body
      → Comes file n (
        copied_if resumed (copy_body write body (take n file)).0,
        (copy_body write body (take n file)).1,
      )
  Comes-copy n resumed {body} within goes_on sends =
      elim (copy_lem write (drop n file) (take n file) sends) [
        | inl (done, all) ↦ rw done (goes_on, all ∙ take-append-drop n file)
        | inr (cut, k, some_of_it) ↦ rw cut (
            subst (λ s. IsBeginning file (some s)) (sym some_of_it)
              (more-IsBeginning file n k within))
      ]

  pub download-Comes :
      (n : ℕ) (x : Option GetResponse)
      → n ≤ length file
      → Answers file n x
      → Comes file n (download write x (take n file))
  unfolding download
  download-Comes n none within nothing = (n, within, refl)
  download-Comes n (some r) within (refusal _ bad) = rw bad (n, within, refl)
  download-Comes n (some r) within (rest sends) = Comes-copy n true within (ground arith) sends
  download-Comes n (some r) within (start {status} {body} none_yet good sends) =
      let sends' : Sends (drop n file) body = rw none_yet sends in
      rw good (Comes-copy n (status == 206) within (ground arith) sends')
