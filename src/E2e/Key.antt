-- ===== src/E2e/Key.antt =====
-- The key in a share link (client/e2e.go): `ParseE2EKey`, `FragmentKey` and `StripFragment`.
use send_to.Prelude.{
  ℕ, ◌≡◌, refl, ap, true, not, Option, none, some, [], ◌∷◌, ◌++◌, Bytes, arith, codes, ◌==◌,
  if◌then◌else◌, strip_prefix, length, all,
}
use send_to.E2e.{e2e_key_size}

-- encoding/base64 (`RawURLEncoding`) and `strings.TrimSpace`: what is encoded is decoded again, and an
-- encoded text has no space at its ends
pub record KeyText : Type 0 where
  pub encode : Bytes → Bytes
  pub decode : Bytes → Option Bytes
  pub trim_space : Bytes → Bytes
  pub decode-encode : (key : Bytes) → decode (encode key) ≡ some key
  pub trim_space-encode : (key : Bytes) → trim_space (encode key) ≡ encode key

-- `strings.Cut` at a character: what is before it, and what is behind it if there is one
unfoldable pub cut_at : ℕ → Bytes → Bytes × Option Bytes
cut_at sep [] = ([], none)
cut_at sep (c ∷ s) =
    let later = cut_at sep s in if c == sep then ([], some s) else (c ∷ later.0, later.1)

cut_at-append :
    (url rest : Bytes)
    → all (λ c. not (c == b'#')) url ≡ true
    → cut_at b'#' (url ++ b'#' ∷ rest) ≡ (url, some rest)
unfolding cut_at
cut_at-append [] rest h = refl
cut_at-append (c ∷ url) rest h = ground (arith, cut_at-append url rest)

unfoldable pub strip_fragment : Bytes → Bytes
strip_fragment url = (cut_at b'#' url).0

module _ (text : KeyText) where
  abbrev of_size : Option Bytes → Option Bytes
  of_size none = none
  of_size (some key) = if length key == e2e_key_size then some key else none

  -- An error is `none`.
  unfoldable pub parse_e2e_key : Bytes → Option Bytes
  parse_e2e_key s = of_size (text.decode (text.trim_space s))

  abbrev without_name : Bytes → Option Bytes → Bytes
  without_name fragment none = fragment
  without_name fragment (some rest) = rest

  abbrev key_of : Option Bytes → Option (Option Bytes)
  key_of none = none
  key_of (some key) = some (some key)

  abbrev in_fragment : Option Bytes → Option (Option Bytes)
  in_fragment none = some none
  in_fragment (some []) = some none
  in_fragment (some (c ∷ fragment)) =
      key_of
        (parse_e2e_key (without_name (c ∷ fragment) (strip_prefix (codes "k=") (c ∷ fragment))))

  -- An error is `none`, and no key is `some none`.
  unfoldable pub fragment_key : Bytes → Option (Option Bytes)
  fragment_key url = in_fragment (cut_at b'#' url).1

  -- For a link without `#` and a key of 32 bytes that is put behind it as `#k=…`: the client takes
  -- exactly that key out of it, and what it asks the server for is the link without the fragment.
  pub fragment_key-append :
      (url key : Bytes)
      → all (λ c. not (c == b'#')) url ≡ true
      → length key ≡ e2e_key_size
      → (fragment_key (url ++ b'#' ∷ (codes "k=" ++ text.encode key)) ≡ some (some key))
        × (strip_fragment (url ++ b'#' ∷ (codes "k=" ++ text.encode key)) ≡ url)
  unfolding fragment_key strip_fragment parse_e2e_key strip_prefix
  fragment_key-append url key plain size =
      let right : (length key == e2e_key_size) ≡ true = ground arith in
      (
        rw (
          cut_at-append url (codes "k=" ++ text.encode key) plain,
          text.trim_space-encode key,
          text.decode-encode key,
          right,
        ),
        ap (λ p. p.0) (cut_at-append url (codes "k=" ++ text.encode key) plain),
      )
