-- ===== src/Server/Redact.antt =====
-- server/redact.go: what the access log shows of the path of a request.
use send_to.Prelude.{
  ℕ, zero, suc, ◌+◌, ◌-◌, ◌≤◌, ◌<◌, ◌≡◌, refl, ap, sym, ◌∙◌, Bool, true, false, ◌&&◌, ◌||◌, not,
  Option, none, some, List, [], ◌∷◌, ◌++◌, Bytes, arith, codes, eq_bytes, leb, ◌==◌, if◌then◌else◌,
  strip_prefix, length, take, all, replicate, Bool-cases, inl, inr,
}

-- `strings.TrimPrefix`
unfoldable pub trim_prefix : Bytes → Bytes → Bytes
trim_prefix prefix s = elim (strip_prefix prefix s) [ none ↦ s | some rest ↦ rest ]

abbrev add_first : ℕ → List Bytes → List Bytes
add_first c [] = (c ∷ []) ∷ []
add_first c (word ∷ words) = (c ∷ word) ∷ words

-- `strings.Split` at one character
unfoldable pub split : ℕ → Bytes → List Bytes
split sep [] = [] ∷ []
split sep (c ∷ s) = let rest = split sep s in if c == sep then [] ∷ rest else add_first c rest

-- `strings.Join` with a slash
unfoldable pub join : List Bytes → Bytes
join [] = []
join (word ∷ []) = word
join (word ∷ next ∷ words) = word ++ b'/' ∷ join (next ∷ words)

unfoldable pub mask_token : Bytes → Bytes
mask_token token =
    if leb (length token) 2
    then replicate (length token) b'*'
    else take 2 token ++ replicate (length token - 2) b'*'

-- `segments[i] = maskToken(segments[i])` where there is such a segment
unfoldable pub mask_at : ℕ → List Bytes → List Bytes
mask_at i [] = []
mask_at zero (word ∷ words) = mask_token word ∷ words
mask_at (suc i) (word ∷ words) = word ∷ mask_at i words

unfoldable pub is_download_action : Bytes → Bool
is_download_action s =
    eq_bytes s (codes "download") || eq_bytes s (codes "get") || eq_bytes s (codes "inline")

abbrev token_index : List Bytes → ℕ
token_index [] = 0
token_index (word ∷ words) = if is_download_action word then 1 else 0

-- the text behind the last closing parenthesis
abbrev after_last : ℕ → Bytes → Option Bytes
after_last sep [] = none
after_last sep (c ∷ s) =
    let later = after_last sep s in
    elim later [ some rest ↦ some rest | none ↦ if c == sep then some s else none ]

abbrev masked : Bytes → List Bytes → ℕ → Bytes
masked p segments i =
    if leb (length segments) (i + 1) then p else b'/' ∷ join (mask_at (i + 2) (mask_at i segments))

abbrev redact_segments : Bytes → Bytes → Bytes
redact_segments p [] = p
redact_segments p (c ∷ trimmed) =
    let segments = split b'/' (c ∷ trimmed) in masked p segments (token_index segments)

abbrev archived : Option Bytes → Bytes
archived none = codes "/(...)"
archived (some rest) = codes "/(...)" ++ rest

abbrev redacted : Bytes → Option Bytes → Bytes
redacted p (some _) = archived (after_last b')' p)
redacted p none = redact_segments p (trim_prefix (codes "/") p)

unfoldable pub redact_path : Bytes → Bytes
redact_path p = redacted p (strip_prefix (codes "/(") p)

-- no slash and no opening parenthesis
abbrev is_plain : ℕ → Bool
is_plain c = not (c == b'/') && not (c == b'(')

split-slash :
    (t rest : Bytes) → all is_plain t ≡ true → split b'/' (t ++ b'/' ∷ rest) ≡ t ∷ split b'/' rest
unfolding split
split-slash [] rest h = refl
split-slash (c ∷ t) rest h = ground (arith, split-slash t rest)

mask_token_hides :
    (t u : Bytes) → length t ≡ length u → take 2 t ≡ take 2 u → mask_token t ≡ mask_token u
unfolding mask_token
mask_token_hides t u same start = rw (same, start)

length-add_first : (c : ℕ) (words : List Bytes) → 1 ≤ length (add_first c words)
length-add_first c [] = omega arith
length-add_first c (word ∷ words) = omega arith

length-split : (s : Bytes) → 1 ≤ length (split b'/' s)
unfolding split
length-split [] = omega arith
length-split (c ∷ s) = elim (Bool-cases (c == b'/')) [
  | inl slash ↦ rw slash (omega arith)
  | inr other ↦ rw other (length-add_first c (split b'/' s))
]

redact_path_plain :
    (t rest : Bytes)
    → 0 < length t
    → all is_plain t ≡ true
    → is_download_action t ≡ false
    → redact_path (b'/' ∷ (t ++ b'/' ∷ rest))
      ≡ b'/' ∷ join (mask_token t ∷ mask_at 1 (split b'/' rest))
unfolding redact_path trim_prefix mask_at strip_prefix
redact_path_plain [] rest nonempty plain share = absurd (omega arith)
redact_path_plain (c ∷ t) rest nonempty plain share =
    let unarchived : strip_prefix (codes "/(") (b'/' ∷ ((c ∷ t) ++ b'/' ∷ rest)) ≡ none =
      ground arith in
    let many : leb (suc (length (split b'/' rest))) (0 + 1) ≡ false =
      ground (arith, length-split rest) in
    ap (redacted (b'/' ∷ ((c ∷ t) ++ b'/' ∷ rest))) unarchived
    ∙ ap (λ words. masked (b'/' ∷ ((c ∷ t) ++ b'/' ∷ rest)) words (token_index words))
        (split-slash (c ∷ t) rest plain)
    ∙ rw (share, many)

-- The paths of two links whose tokens have the same length and the same first two symbols, and the same
-- rest, look the same in the log: for tokens that are not empty, have no slash and no opening
-- parenthesis in them and are not one of the words for a download.
pub redact_path_hides :
    (t u rest : Bytes)
    → 0 < length t
    → all is_plain t ≡ true
    → all is_plain u ≡ true
    → is_download_action t ≡ false
    → is_download_action u ≡ false
    → length t ≡ length u
    → take 2 t ≡ take 2 u
    → redact_path (b'/' ∷ (t ++ b'/' ∷ rest)) ≡ redact_path (b'/' ∷ (u ++ b'/' ∷ rest))
redact_path_hides t u rest nonempty plain plain' share share' same start =
    redact_path_plain t rest nonempty plain share
    ∙ ap (λ w. b'/' ∷ join (w ∷ mask_at 1 (split b'/' rest))) (mask_token_hides t u same start)
    ∙ sym (redact_path_plain u rest (omega (arith, same)) plain' share')
