-- ===== src/E2e/Toy.antt =====
-- A cipher that meets `Aead`, and a JSON form, for the concrete runs: sealing doubles each byte and
-- adds a tag that begins with an odd byte and spells the nonce.
use send_to.Prelude.{
  ℕ, zero, suc, ◌+◌, ◌-◌, ◌*◌, ◌/◌, ◌<◌, ◌≡◌, ◌≢◌, refl, true, false, Option, none, some, inl, inr,
  [], ◌∷◌, ◌++◌, Bytes, arith, length, take, drop, eq_bytes, eq_bytes_iff, eq_bytes_refl,
  if◌then◌else◌, replicate, length-append, length-take, take-append, drop-append, take-append_ge,
  ap, sym, ◌∙◌, Bool-cases, le_or_lt, ltb,
}
use send_to.E2e.{Aead, MetaJson, e2e_tag_size}

unfoldable pub double : Bytes → Bytes
double [] = []
double (b ∷ s) = (2 * b) ∷ double s

unfoldable pub halve : Bytes → Bytes
halve [] = []
halve (b ∷ s) = (b / 2) ∷ halve s

halve-double : (s : Bytes) → halve (double s) ≡ s
unfolding halve double
halve-double [] = refl
halve-double (b ∷ s) = ground (arith, halve-double s)

length-double : (s : Bytes) → length (double s) ≡ length s
unfolding double
length-double [] = refl
length-double (b ∷ s) = omega (arith, length-double s)

unfoldable pub tag : Bytes → Bytes
tag n = 1 ∷ take 15 (n ++ replicate 15 0)

length-tag : (n : Bytes) → length (tag n) ≡ 16
unfolding tag
length-tag n = omega (
  arith,
  length-take {0} 15 (n ++ replicate {A = ℕ} 15 0),
  length-append {0} n (replicate {A = ℕ} 15 0),
)

tag_nonce : (n : Bytes) → length n ≡ 12 → take 12 (drop 1 (tag n)) ≡ n
unfolding tag
tag_nonce n h =
    rw (take-append_ge 15 n (replicate 15 0) (omega arith))
      (take-append 12 n (take (15 - length n) (replicate 15 0)) h)

unfoldable pub toy_seal : Bytes → Bytes → Bytes → Bytes
toy_seal k n m = double m ++ tag n

unfoldable pub toy_unseal : Bytes → Bytes → Bytes → Option Bytes
toy_unseal k n c =
    if ltb (length c) 16
    then none
    else if eq_bytes (drop (length c - 16) c) (tag n)
    then some (halve (take (length c - 16) c))
    else none

pub length-toy_seal : (k n m : Bytes) → length (toy_seal k n m) ≡ length m + e2e_tag_size
unfolding toy_seal
length-toy_seal k n m =
    omega (arith, length-append {0} (double m) (tag n), length-double m, length-tag n)

module _ (k n m : Bytes) where
  body_size : length (toy_seal k n m) - 16 ≡ length m
  body_size = omega (arith, length-toy_seal k n m)

  long : ltb (length (toy_seal k n m)) 16 ≡ false
  long = ground (arith, length-toy_seal k n m)

  pub toy_unseal-seal : toy_unseal k n (toy_seal k n m) ≡ some m
  unfolding toy_unseal
  toy_unseal-seal =
      rw (long, body_size)
        (unfold toy_seal in
          rw (
            drop-append (length m) (double m) (tag n) (length-double m),
            take-append (length m) (double m) (tag n) (length-double m),
            eq_bytes_refl (tag n),
            halve-double m,
          ))

  pub toy_unseal-seal_ne :
      (n' : Bytes)
      → length n ≡ 12
      → length n' ≡ 12
      → n ≢ n'
      → toy_unseal k n' (toy_seal k n m) ≡ none
  unfolding toy_unseal
  toy_unseal-seal_ne n' h h' ne =
      rw (long, body_size)
        (unfold toy_seal in
          rw (drop-append (length m) (double m) (tag n) (length-double m))
            (elim (Bool-cases (eq_bytes (tag n) (tag n'))) [
              | inl same ↦ absurd (
                  ne (
                    sym (tag_nonce n h)
                    ∙ ap (λ t. take 12 (drop 1 t)) ((eq_bytes_iff (tag n) (tag n')).0 same)
                    ∙ tag_nonce n' h'))
              | inr other ↦ rw other
            ]))

-- where the body has not ended, an even byte follows
even_head :
    (i L : ℕ) (m t : Bytes)
    → i < length m
    → i < L
    → (b : ℕ) × (r : Bytes) × (drop i (take L (double m ++ t)) ≡ (2 * b) ∷ r)
unfolding double
even_head zero zero m t h k = absurd (omega arith)
even_head zero (suc L) [] t h k = absurd (omega arith)
even_head zero (suc L) (b ∷ m) t h k = (b, take L (double m ++ t), refl)
even_head (suc i) zero m t h k = absurd (omega arith)
even_head (suc i) (suc L) [] t h k = absurd (omega arith)
even_head (suc i) (suc L) (b ∷ m) t h k = even_head i L m t (omega arith) (omega arith)

even_ne_tag : (b : ℕ) (r n : Bytes) → eq_bytes ((2 * b) ∷ r) (tag n) ≡ false
unfolding tag eq_bytes
even_ne_tag b r n = ground arith

pub toy_unseal-take :
    (k n n' m : Bytes) (j : ℕ)
    → j < length m + e2e_tag_size
    → toy_unseal k n' (take j (toy_seal k n m)) ≡ none
unfolding toy_unseal
toy_unseal-take k n n' m j h =
    let c = take j (toy_seal k n m) in
    let size : length c ≡ j =
      ground (arith, length-take {0} j (toy_seal k n m), length-toy_seal k n m) in
    elim (le_or_lt 16 j) [
      | inr short ↦ let few : ltb j 16 ≡ true = ground arith in rw (size, few)
      | inl enough ↦
          let many : ltb j 16 ≡ false = ground arith in
          let (b, r, e) = even_head (j - 16) j m (tag n) (omega arith) (omega arith) in
          rw (size, many) (unfold toy_seal in rw (e, even_ne_tag b r n'))
    ]

abbrev pub toy_aead : Aead
toy_aead = record {
  seal = toy_seal;
  unseal = toy_unseal;
  length-seal = length-toy_seal;
  unseal-seal = toy_unseal-seal;
  unseal-seal_ne = λ k n n' m h h' ne. toy_unseal-seal_ne k n m n' h h' ne;
  unseal-take = toy_unseal-take;
}

-- the name alone, and every media type empty
abbrev pub toy_json : MetaJson
toy_json = record {
  marshal = λ meta. meta.name;
  unmarshal = λ b. some (record { name = b; media_type = [] });
}
