-- ===== src/E2e/Steps.antt =====
-- One round of the two chunk loops, for a text that ends without a read error.
use send_to.Prelude.{
  ℕ, zero, suc, ◌∙◌, length-append, ◌+◌, ◌%◌, ◌^◌, ◌<◌, ◌≤◌, ◌≡◌, refl, true, false, [], ◌∷◌, ◌++◌,
  Bytes, arith, length, take, drop, ltb, length-drop, take-all, drop-all, inl, inr, Bool-cases,
  Option, none, some, ap,
}
use send_to.E2e.{
  Aead, Source, eof, is_empty, encrypt_chunks, decrypt_chunks, e2e_nonce, e2e_tag_size, Outcome,
  complete, stopped, wrong_key, MetaJson, E2eStream, header, chunks, reader, ok, e2e_magic, be16,
  e2e_aead, e2e_chunk_size,
}

abbrev pub all_of : Bytes → Source
all_of content = record { content = content; ending = eof }

is_empty-drop : (n : ℕ) (s : Bytes) → length s ≤ n → is_empty (drop n s) ≡ true
is_empty-drop n s h = ap is_empty (drop-all n s h)

is_empty_long : (s : Bytes) → 0 < length s → is_empty s ≡ false
is_empty_long [] h = absurd (omega arith)
is_empty_long (x ∷ s) h = refl

is_empty-drop_lt : (n : ℕ) (s : Bytes) → n < length s → is_empty (drop n s) ≡ false
is_empty-drop_lt n s h = is_empty_long (drop n s) (omega (arith, length-drop {0} n s))

abbrev pub final_result : Option Bytes → Bytes × Outcome
final_result none = ([], stopped wrong_key)
final_result (some plain) = (plain, complete)

abbrev pub more_result : Option Bytes → Bytes × Outcome → Bytes × Outcome
more_result none later = ([], stopped wrong_key)
more_result (some plain) later = (plain ++ later.0, later.1)

module _ (aead : Aead) (key prefix : Bytes) (size : ℕ) where
  pub encrypt_chunks_last :
      (fuel : ℕ) (content : Bytes) (counter : ℕ)
      → length content ≤ size
      → encrypt_chunks aead key prefix size (suc fuel) (all_of content) counter
        ≡ (aead.seal key (e2e_nonce prefix counter true) content, eof)
  unfolding encrypt_chunks
  encrypt_chunks_last fuel content counter h = elim (Bool-cases (ltb (length content) size)) [
    | inl e ↦ rw (e, take-all size content h)
    | inr e ↦ rw (e, is_empty-drop size content h, take-all size content h)
  ]

  pub encrypt_chunks_more :
      (fuel : ℕ) (content : Bytes) (counter : ℕ)
      → size < length content
      → encrypt_chunks aead key prefix size (suc fuel) (all_of content) counter ≡ (
          let later =
            encrypt_chunks aead key prefix size fuel
              (all_of (drop size content))
              ((counter + 1) % 2 ^ 32) in
          (aead.seal key (e2e_nonce prefix counter false) (take size content) ++ later.0, later.1))
  unfolding encrypt_chunks
  encrypt_chunks_more fuel content counter h =
      let long : ltb (length content) size ≡ false = ground arith in
      rw (long, is_empty-drop_lt size content h)

  -- A text without a read error is encrypted without one.
  pub encrypt_chunks-eof :
      (fuel : ℕ) (content : Bytes) (counter : ℕ)
      → (encrypt_chunks aead key prefix size fuel (all_of content) counter).1 ≡ eof
  unfolding encrypt_chunks
  encrypt_chunks-eof zero content counter = refl
  encrypt_chunks-eof (suc fuel) content counter =
      ground (arith, encrypt_chunks-eof fuel (drop size content) ((counter + 1) % 2 ^ 32))

  pub decrypt_chunks_last :
      (fuel : ℕ) (content : Bytes) (counter : ℕ)
      → 0 < length content
      → length content ≤ size + e2e_tag_size
      → decrypt_chunks aead key prefix size (suc fuel) (all_of content) counter
        ≡ final_result (aead.unseal key (e2e_nonce prefix counter true) content)
  unfolding decrypt_chunks
  decrypt_chunks_last fuel content counter pos h =
      elim (Bool-cases (ltb (length content) (size + e2e_tag_size))) [
        | inl e ↦
            rw (e, is_empty_long content pos, take-all (size + e2e_tag_size) content h)
              (ground arith)
        | inr e ↦
            rw
              (
                e,
                is_empty-drop (size + e2e_tag_size) content h,
                take-all (size + e2e_tag_size) content h,
              )
              (ground arith)
      ]

  pub decrypt_chunks_more :
      (fuel : ℕ) (content : Bytes) (counter : ℕ)
      → size + e2e_tag_size < length content
      → decrypt_chunks aead key prefix size (suc fuel) (all_of content) counter
        ≡ more_result
            (aead.unseal key (e2e_nonce prefix counter false) (take (size + e2e_tag_size) content))
            (decrypt_chunks aead key prefix size fuel
              (all_of (drop (size + e2e_tag_size) content))
              ((counter + 1) % 2 ^ 32))
  unfolding decrypt_chunks
  decrypt_chunks_more fuel content counter h =
      let long : ltb (length content) (size + e2e_tag_size) ≡ false = ground arith in
      rw (long, is_empty-drop_lt (size + e2e_tag_size) content h) (ground arith)

module _ (aead : Aead) (json : MetaJson) (s : E2eStream) where
  unfoldable pub sealed_meta : Bytes
  sealed_meta = aead.seal s.key (e2e_nonce s.prefix 0 false) (json.marshal s.meta)

  -- What a header that was made consists of.
  pub header-eq-ok :
      (head : Bytes)
      → header aead json s ≡ ok head
      → (head ≡ e2e_magic ++ (s.prefix ++ (be16 (length sealed_meta) ++ sealed_meta)))
        × (length sealed_meta ≤ 0xFFFF)
        × (e2e_aead s.key ≡ ok tt)
  unfolding header sealed_meta
  header-eq-ok head h = ground arith

  pub reader-eq-ok :
      (plaintext : Source) (out : Source)
      → reader aead json s plaintext ≡ ok out
      → (head : Bytes) × (header aead json s ≡ ok head)
        × (chunks aead json s plaintext head 1 ≡ ok out)
  unfolding reader
  reader-eq-ok plaintext out h = ground arith

  pub chunks-all_of :
      (content head : Bytes) (counter : ℕ)
      → e2e_aead s.key ≡ ok tt
      → chunks aead json s (all_of content) head counter ≡ (
          let out =
            encrypt_chunks aead s.key s.prefix e2e_chunk_size
              (suc (length content))
              (all_of content)
              counter in
          ok (record { content = head ++ out.0; ending = out.1 }))
  unfolding chunks
  chunks-all_of content head counter h = rw h

  unfoldable pub head_bytes : Bytes
  unfolding sealed_meta
  head_bytes = e2e_magic ++ (s.prefix ++ (be16 (length sealed_meta) ++ sealed_meta))

  unfoldable pub body_bytes : Bytes → Bytes
  body_bytes content =
      (encrypt_chunks aead s.key s.prefix e2e_chunk_size (suc (length content)) (all_of content)
        1).0

  -- What a successful `Reader` returns: the header and then every chunk.
  pub reader-all_of :
      (content : Bytes) (out : Source)
      → reader aead json s (all_of content) ≡ ok out
      → (out ≡ all_of (head_bytes ++ body_bytes content))
        × (header aead json s ≡ ok head_bytes)
        × (length sealed_meta ≤ 0xFFFF)
        × (e2e_aead s.key ≡ ok tt)
  unfolding head_bytes body_bytes
  reader-all_of content out h =
      let (head, made, sent) = reader-eq-ok (all_of content) out h in
      let (shape, small, key_ok) = header-eq-ok head made in
      (
        cc (
          sent,
          chunks-all_of content head 1 key_ok,
          shape,
          encrypt_chunks-eof aead s.key s.prefix e2e_chunk_size (suc (length content)) content 1,
        ),
        made ∙ ap ok shape,
        small,
        key_ok,
      )

  pub length-head_bytes : length s.prefix ≡ 7 → length head_bytes ≡ 13 + length sealed_meta
  unfolding head_bytes be16
  length-head_bytes h =
      omega (arith, length-append {0} s.prefix (be16 (length sealed_meta) ++ sealed_meta))
