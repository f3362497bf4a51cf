-- ===== src/Server/Download/Ranges.antt =====
-- server/download.go and server/storage/local.go: which bytes of a stored upload a download hands out.
use send_to.Prelude.{
  ℕ, zero, suc, ◌+◌, ◌^◌, ◌<◌, ◌≤◌, ◌≡◌, ◌≢◌, refl, ap, ◌∙◌, sym, true, false, Option, none, some,
  [], Bytes, arith, ltb, ◌==◌, if◌then◌else◌, length, take, drop, length-take, length-drop, inl,
  inr, take-all,
}
use send_to.Range.{Range, accept_length, u64}
use send_to.Range.Laws.{accept_length_lem}
use send_to.Server.Fs.{lookup}
use send_to.Server.Exec.{World, next, Download}
use send_to.Server.Post.{Post, Post-mono}
use send_to.Server.Storage
use send_to.Server.Storage.{IoResult, good, stored_path, sidecar}
use send_to.Server.Storage.Works.{system_call_works, get_works}
use send_to.Server.Types.{Env, Config, Headers, Metadata}
use send_to.Server.Download.Delivery.{
  Available, Plain, Sends, Serves, Serves-mono, get_handler-Sends,
}
use send_to.Server.Upload.{is_unset}
use send_to.Server.Download.{requested_range, limited, fetch, content_range_of, get_handler}

-- The bytes that a request asks for; the limit 0 is an open end.
unfoldable pub selected : Option Range → Bytes → Bytes
selected none content = content
selected (some r) content =
    if r.limit == 0 then drop r.start content else take r.limit (drop r.start content)

-- The range lies in a file of n bytes.
abbrev pub Fits : Option Range → ℕ → Type 0
Fits none n = Unit
Fits (some r) n = (r.start + r.limit ≤ n) × (r.content_range ≡ [])

abbrev status_of : Option Range → ℕ
status_of none = 200
status_of (some r) = 206

-- what `storage.Get` hands on, and what the handler makes of it
abbrev Selects : Option Range → Bytes → Bytes × ℕ × Option Range → Type 0
Selects rng content x =
    (limited x.2 x.0 ≡ selected rng content)
    × (x.1 ≡ length (selected rng content))
    × ((if is_unset (content_range_of x.2) then 200 else 206) ≡ status_of rng)

taken :
    (rest : Bytes) (limit n : ℕ)
    → n ≡ (if limit == 0 then length rest else limit)
    → (if ltb 0 n then take n rest else rest) ≡ (if limit == 0 then rest else take limit rest)
taken rest zero zero e = refl
taken rest zero (suc n) e = ground (arith, take-all (suc n) rest)
taken rest (suc limit) n e = let same : n ≡ suc limit = ground arith in rw same (ground arith)

length-taken :
    (rest : Bytes) (limit n : ℕ)
    → n ≡ (if limit == 0 then length rest else limit)
    → limit ≤ length rest
    → n ≡ length (if limit == 0 then rest else take limit rest)
length-taken rest zero n e h = e
length-taken rest (suc limit) n e h = ground (arith, length-take (suc limit) rest)

accepted :
    (r : Range) (content : Bytes)
    → length content < 2 ^ 63
    → Fits (some r) (length content)
    → Selects (some r) content (
      drop r.start content,
      (accept_length r (length content)).1,
      some (accept_length r (length content)).0,
    )
unfolding selected
accepted r content short (fits, unset) =
    elim (accept_length_lem r (length content) (omega arith) (omega arith) unset) [
      | inr (over, _, _) ↦ absurd (omega arith)
      | inl (_, named, size, limit, _) ↦
          let set : is_unset (accept_length r (length content)).0.content_range ≡ false =
            ap is_unset named in
          let all : (accept_length r (length content)).1
              ≡ (if r.limit == 0 then length (drop r.start content) else r.limit) =
            size
            ∙ ap (λ k. if r.limit == 0 then k else r.limit) (sym (length-drop r.start content)) in
          let left : r.limit ≤ length (drop r.start content) =
            omega (arith, length-drop r.start content) in
          (
            rw set (taken (drop r.start content) r.limit _ (limit ∙ all)),
            length-taken (drop r.start content) r.limit _ all left,
            rw set refl,
          )
    ]

module _ (t filename content : Bytes) (w : World) where
  fetch_works :
      (rng : Option Range)
      → w.faults ≡ []
      → lookup (stored_path t filename) w.files ≡ some content
      → length content < 2 ^ 63
      → Fits rng (length content)
      → (x : Bytes × ℕ × Option Range) × (fetch t filename rng w ≡ (next (good x), w))
        × Selects rng content x
  unfolding Storage.get_range selected
  fetch_works none calm file short fits = (
    (content, length content, none),
    rw (get_works t filename content w calm file),
    (refl, refl, refl),
  )
  fetch_works (some r) calm file short fits =
      let from : ltb r.start (2 ^ 63) ≡ true = ground arith in
      (
        (
          drop r.start content,
          (accept_length r (length content)).1,
          some (accept_length r (length content)).0,
        ),
        rw (get_works t filename content w calm file, system_call_works w calm, from),
        accepted r content short fits,
      )

-- Where the range is not in the file, the reader still starts where it does.
refused_range :
    (t filename content : Bytes) (r : Range) (w : World)
    → w.faults ≡ []
    → lookup (stored_path t filename) w.files ≡ some content
    → length content < 2 ^ 63
    → r.start < 2 ^ 63
    → fetch t filename (some r) w ≡ (
      next (
          good (
            drop r.start content,
            (accept_length r (length content)).1,
            some (accept_length r (length content)).0,
          )),
      w,
    )
unfolding Storage.get_range
refused_range t filename content r w calm file short low =
    let from : ltb r.start (2 ^ 63) ≡ true = ground arith in
    rw (get_works t filename content w calm file, system_call_works w calm, from)

module _ (env : Env) (c : Config) (t filename content : Bytes) (m : Metadata) (h : Headers) where
  -- what a request for `rng` gets
  abbrev pub Gets : Option Range → Download → Type 0
  Gets rng d =
      (d.content ≡ selected rng content)
      × (d.content_length ≡ length d.content)
      × (d.status ≡ status_of rng)
      × (d.broken_off ≡ false)

  -- A GET of an upload that is there with its sidecar, neither used up nor too old, where no call of
  -- the operating system fails, without a password, for the attachment, and with no validator that
  -- matches: the whole file without a range, and for a range that lies in the file exactly its bytes
  -- with 206, the `Content-Length` being that of the body.
  pub get_handler-Serves :
      (w : World)
      → Available env c t filename content m h w
      → Plain env c t filename content m h
      → length content < 2 ^ 63
      → Fits (requested_range h.range) (length content)
      → Post
          (λ _ _. ⊥)
          (λ a _. Serves (Gets (requested_range h.range)) a)
          (get_handler env c t filename false h w)
  unfolding Available
  get_handler-Serves w there asked short fits =
      let (x, got, (bytes, size, status)) =
        fetch_works t filename content w (requested_range h.range) there.0 there.1 short fits in
      Post-mono (get_handler env c t filename false h w) (λ _ _ e. e)
        (λ a _.
          Serves-mono {P = Sends env c t filename content m h x}
            {Q = Gets (requested_range h.range)} a
            λ d (sent, long, code, whole).
              (sent ∙ bytes, long ∙ size ∙ sym (ap length (sent ∙ bytes)), code ∙ status, whole))
        (get_handler-Sends env c t filename content m h w x there asked got)

  -- The rest of the file, announced as the whole.
  abbrev pub Misled : Range → Download → Type 0
  Misled r d =
      (d.status ≡ 200)
      × (d.content ≡ drop r.start content)
      × (d.content_length ≡ length content)
      × (d.content_length ≢ length d.content)

  -- A GET as above, but with a range that starts behind the first byte and reaches over the end of
  -- the file: 200, and a `Content-Length` that is the length of the whole file, while the body starts
  -- where the range does.
  pub get_handler_overlong :
      (r : Range) (w : World)
      → Available env c t filename content m h w
      → Plain env c t filename content m h
      → 0 < length content
      → length content < 2 ^ 63
      → requested_range h.range ≡ some r
      → r.content_range ≡ []
      → 0 < r.start
      → r.start < 2 ^ 63
      → r.start + r.limit < u64
      → length content < r.start + r.limit
      → Post (λ _ _. ⊥) (λ a _. Serves (Misled r) a) (get_handler env c t filename false h w)
  unfolding Available
  get_handler_overlong r w there asked some_bytes short parsed unset later low fits over =
      elim (accept_length_lem r (length content) fits (omega arith) unset) [
        | inl (inside, _, _, _, _) ↦ absurd (omega arith)
        | inr (_, unnamed, size) ↦
            let none_set : is_unset (accept_length r (length content)).0.content_range ≡ true =
              ap is_unset unnamed in
            let found : Bytes × ℕ × Option Range = (
              drop r.start content,
              (accept_length r (length content)).1,
              some (accept_length r (length content)).0,
            ) in
            let got : fetch t filename (requested_range h.range) w ≡ (next (good found), w) =
              ap (λ o. fetch t filename o w) parsed
              ∙ refused_range t filename content r w there.0 there.1 short low in
            Post-mono (get_handler env c t filename false h w) (λ _ _ e. e)
              (λ a _.
                Serves-mono {P = Sends env c t filename content m h found} {Q = Misled r} a
                  λ d (sent, long, code, whole).
                    let body : d.content ≡ drop r.start content = sent ∙ rw none_set refl in
                    (
                      code ∙ rw none_set refl,
                      body,
                      long ∙ size,
                      λ same.
                          omega
                            (arith, length-drop r.start content, ap length body, long ∙ size, same),
                    ))
              (get_handler-Sends env c t filename content m h w found there asked got)
      ]
