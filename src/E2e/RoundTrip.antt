-- ===== src/E2e/RoundTrip.antt =====
-- `E2EDecrypt` undoes the encrypting reader.
use send_to.Prelude.{
  ℕ, zero, suc, ◌+◌, ◌%◌, ◌^◌, ◌<◌, ◌≤◌, ◌≡◌, refl, true, false, some, ◌++◌, Bytes, arith, length,
  take, drop, le_or_lt, inl, inr, length-append, length-take, length-drop, take-append, drop-append,
  take-append-drop, ap, ◌∙◌, leb, eq_bytes_refl, append_assoc,
}
use send_to.E2e.{
  Aead, MetaJson, E2eStream, E2eMetadata, Source, ok, complete, encrypt_chunks, decrypt_chunks,
  e2e_nonce, End, e2e_key_size, e2e_nonce_prefix_size, e2e_tag_size, e2e_chunk_size, e2e_magic,
  reader, e2e_decrypt, be16, header, chunks, e2e_aead, be16_value,
}
use send_to.E2e.Steps.{
  all_of, encrypt_chunks_last, encrypt_chunks_more, decrypt_chunks_last, decrypt_chunks_more,
  encrypt_chunks-eof, head_bytes, body_bytes, sealed_meta,
}

module _ (aead : Aead) (key prefix : Bytes) (size : ℕ) where
  -- the tag alone makes every stream of chunks longer than nothing
  pub encrypt_chunks_pos :
      (fuel : ℕ) (content : Bytes) (counter : ℕ)
      → 0 < length (encrypt_chunks aead key prefix size (suc fuel) (all_of content) counter).0
  encrypt_chunks_pos fuel content counter = elim (le_or_lt (length content) size) [
    | inl short ↦
        rw (encrypt_chunks_last aead key prefix size fuel content counter short)
          (omega (arith, aead.length-seal key (e2e_nonce prefix counter true) content))
    | inr long ↦ rw (encrypt_chunks_more aead key prefix size fuel content counter long) (
        omega (
          arith,
          aead.length-seal key (e2e_nonce prefix counter false) (take size content),
          length-append {0} (aead.seal key (e2e_nonce prefix counter false) (take size content))
              (encrypt_chunks aead key prefix size fuel (all_of (drop size content))
                ((counter + 1) % 2 ^ 32)).0,
        ))
  ]

  module _ (counter : ℕ) (b later : Bytes) (full : length b ≡ size) where
    abbrev sealed : Bytes
    sealed = aead.seal key (e2e_nonce prefix counter false) b

    length-sealed : length sealed ≡ size + e2e_tag_size
    length-sealed = omega (arith, aead.length-seal key (e2e_nonce prefix counter false) b)

    -- reading a full chunk with more behind it
    pub decrypt_chunks-seal :
        (fuel : ℕ)
        → 0 < length later
        → decrypt_chunks aead key prefix size (suc fuel) (all_of (sealed ++ later)) counter ≡ (
            let rest =
              decrypt_chunks aead key prefix size fuel (all_of later) ((counter + 1) % 2 ^ 32) in
            (b ++ rest.0, rest.1))
    decrypt_chunks-seal fuel pos = rw (
      decrypt_chunks_more aead key prefix size fuel (sealed ++ later) counter
          (omega (arith, length-append {0} sealed later, length-sealed)),
      take-append (size + e2e_tag_size) sealed later length-sealed,
      drop-append (size + e2e_tag_size) sealed later length-sealed,
      aead.unseal-seal key (e2e_nonce prefix counter false) b,
    )

  later_pos :
      (fuel : ℕ) (content : Bytes) (counter : ℕ)
      → length content < fuel
      → 0 < length (encrypt_chunks aead key prefix size fuel (all_of content) counter).0
  later_pos zero content counter h = absurd (omega arith)
  later_pos (suc fuel) content counter h = encrypt_chunks_pos fuel content counter

  pub decrypt_chunks-encrypt_chunks :
      (fuel fuel' : ℕ) (content : Bytes) (counter : ℕ)
      → 0 < size
      → length content < fuel
      → length (encrypt_chunks aead key prefix size fuel (all_of content) counter).0 < fuel'
      → decrypt_chunks aead key prefix size fuel'
          (all_of (encrypt_chunks aead key prefix size fuel (all_of content) counter).0)
          counter
        ≡ (content, complete)
  decrypt_chunks-encrypt_chunks zero fuel' content counter pos h k = absurd (omega arith)
  decrypt_chunks-encrypt_chunks (suc fuel) zero content counter pos h k = absurd (omega arith)
  decrypt_chunks-encrypt_chunks (suc fuel) (suc fuel') content counter pos h k =
      elim (le_or_lt (length content) size) [
        | inl short ↦
            let size_of = aead.length-seal key (e2e_nonce prefix counter true) content in
            rw (
              encrypt_chunks_last aead key prefix size fuel content counter short,
              decrypt_chunks_last aead key prefix size fuel'
                  (aead.seal key (e2e_nonce prefix counter true) content) counter
                  (omega (arith, size_of)) (omega (arith, size_of)),
              aead.unseal-seal key (e2e_nonce prefix counter true) content,
            )
        | inr long ↦
            let b = take size content in
            let full : length b ≡ size = omega (arith, length-take {0} size content) in
            let c' = (counter + 1) % 2 ^ 32 in
            let rest = drop size content in
            let later = (encrypt_chunks aead key prefix size fuel (all_of rest) c').0 in
            let more = encrypt_chunks_more aead key prefix size fuel content counter long in
            let fits : length later < fuel' = omega (
              arith,
              ap (λ (r : Bytes × End). length r.0) more,
              length-append {0} (aead.seal key (e2e_nonce prefix counter false) b) later,
              aead.length-seal key (e2e_nonce prefix counter false) b,
            ) in
            let short : length rest < fuel = omega (arith, length-drop {0} size content) in
            rw (
              more,
              decrypt_chunks-seal counter b later full fuel' (later_pos fuel rest c' short),
              decrypt_chunks-encrypt_chunks fuel fuel' rest c' pos short fits,
              take-append-drop size content,
            )
      ]

module _ (aead : Aead) (json : MetaJson) (s : E2eStream) where
  -- the 13 fixed bytes in front of the sealed metadata
  pub fixed : Bytes
  fixed = e2e_magic ++ (s.prefix ++ be16 (length (sealed_meta aead json s)))

  module _ (hp : length s.prefix ≡ e2e_nonce_prefix_size) where
    pub length-fixed : length fixed ≡ 13
    unfolding fixed be16
    length-fixed =
        omega (arith, length-append {0} s.prefix (be16 (length (sealed_meta aead json s))))

    pub fixed_magic : take 4 fixed ≡ e2e_magic
    unfolding fixed
    fixed_magic = refl

    pub fixed_prefix : take 7 (drop 4 fixed) ≡ s.prefix
    unfolding fixed
    fixed_prefix = take-append 7 s.prefix (be16 (length (sealed_meta aead json s))) hp

    pub length_field :
        length (sealed_meta aead json s) ≤ 0xFFFF
        → be16_value (drop 11 fixed) ≡ length (sealed_meta aead json s)
    unfolding fixed
    length_field small =
        rw (drop-append 7 s.prefix (be16 (length (sealed_meta aead json s))) hp)
          (unfold be16 be16_value in omega arith)

  pub head_bytes-fixed :
      (body : Bytes) → head_bytes aead json s ++ body ≡ fixed ++ (sealed_meta aead json s ++ body)
  unfolding head_bytes fixed
  head_bytes-fixed body = simp append_assoc

  -- A stream with a key of the right size and small metadata opens.
  pub reader_runs :
      (content : Bytes)
      → length s.key ≡ e2e_key_size
      → length (json.marshal s.meta) ≤ 65519
      → reader aead json s (all_of content)
        ≡ ok (all_of (head_bytes aead json s ++ body_bytes aead json s content))
  unfolding reader header chunks e2e_aead head_bytes body_bytes sealed_meta
  reader_runs content hk hm = ground (
    arith,
    aead.length-seal s.key (e2e_nonce s.prefix 0 false) (json.marshal s.meta),
    encrypt_chunks-eof aead s.key s.prefix e2e_chunk_size (suc (length content)) content 1,
  )

module _ (aead : Aead) (json : MetaJson) (s : E2eStream) where
  pub sealed_meta_small :
      length (json.marshal s.meta) ≤ 65519 → length (sealed_meta aead json s) ≤ 0xFFFF
  unfolding sealed_meta
  sealed_meta_small hm =
      omega (arith, aead.length-seal s.key (e2e_nonce s.prefix 0 false) (json.marshal s.meta))

  pub sealed_meta_opens :
      aead.unseal s.key (e2e_nonce s.prefix 0 false) (sealed_meta aead json s)
      ≡ some (json.marshal s.meta)
  unfolding sealed_meta
  sealed_meta_opens = aead.unseal-seal s.key (e2e_nonce s.prefix 0 false) (json.marshal s.meta)

  body_decrypts :
      (content : Bytes)
      → decrypt_chunks aead s.key s.prefix e2e_chunk_size
          (suc (length (body_bytes aead json s content)))
          (all_of (body_bytes aead json s content))
          1
        ≡ (content, complete)
  unfolding body_bytes
  body_decrypts content =
      decrypt_chunks-encrypt_chunks aead s.key s.prefix e2e_chunk_size (suc (length content))
        (suc (length (body_bytes aead json s content))) content 1 (omega arith) (omega arith)
        (omega arith)

-- The decoder on a header in its parts.
pub e2e_decrypt_parts :
    (aead : Aead) (json : MetaJson) (key prefix head meta_bytes body : Bytes) (meta : E2eMetadata)
    → length key ≡ e2e_key_size
    → length head ≡ 13
    → take 4 head ≡ e2e_magic
    → take 7 (drop 4 head) ≡ prefix
    → be16_value (drop 11 head) ≡ length meta_bytes
    → aead.unseal key (e2e_nonce prefix 0 false) meta_bytes ≡ some (json.marshal meta)
    → json.unmarshal (json.marshal meta) ≡ some meta
    → e2e_decrypt aead json (all_of (head ++ (meta_bytes ++ body))) key
      ≡ ok (meta, decrypt_chunks aead key prefix e2e_chunk_size (suc (length body)) (all_of body) 1)
unfolding e2e_decrypt
e2e_decrypt_parts aead json key prefix head meta_bytes body meta hk hl magic hp hn opened decoded =
    let long : leb 13 (length (head ++ (meta_bytes ++ body))) ≡ true =
      ground (arith, length-append {0} head (meta_bytes ++ body)) in
    let fits : leb (length meta_bytes) (length (meta_bytes ++ body)) ≡ true =
      ground (arith, length-append {0} meta_bytes body) in
    rw (
      hk,
      long,
      take-append 13 head (meta_bytes ++ body) hl,
      drop-append 13 head (meta_bytes ++ body) hl,
      magic,
      eq_bytes_refl e2e_magic,
      hp,
      hn,
      fits,
      take-append (length meta_bytes) meta_bytes body refl,
      drop-append (length meta_bytes) meta_bytes body refl,
      opened,
      decoded,
    )

-- What `E2EEncrypt` writes, `E2EDecrypt` reads: for every 32-byte key, 7-byte prefix and plaintext,
-- if the metadata's JSON has at most 65519 bytes and is read back by the decoder, the stream is
-- produced, and decrypting it returns the metadata and the whole plaintext, and ends as complete.
pub e2e_decrypt-reader :
    (aead : Aead) (json : MetaJson) (s : E2eStream) (content : Bytes)
    → length s.key ≡ e2e_key_size
    → length s.prefix ≡ e2e_nonce_prefix_size
    → length (json.marshal s.meta) ≤ 65519
    → json.unmarshal (json.marshal s.meta) ≡ some s.meta
    → (out : Source) × (reader aead json s (all_of content) ≡ ok out)
      × (e2e_decrypt aead json out s.key ≡ ok (s.meta, (content, complete)))
e2e_decrypt-reader aead json s content hk hp hm hj = (
  all_of (head_bytes aead json s ++ body),
  reader_runs aead json s content hk hm,
  rw (head_bytes-fixed aead json s body) (
      e2e_decrypt_parts aead json s.key s.prefix (fixed aead json s) (sealed_meta aead json s) body
        s.meta hk (length-fixed aead json s hp) (fixed_magic aead json s hp)
        (fixed_prefix aead json s hp) (length_field aead json s hp small) opened hj
      ∙ ap (λ r. ok (s.meta, r)) decoded),
)
  where
    body : Bytes
    body = body_bytes aead json s content

    small : length (sealed_meta aead json s) ≤ 0xFFFF
    small = sealed_meta_small aead json s hm

    opened :
        aead.unseal s.key (e2e_nonce s.prefix 0 false) (sealed_meta aead json s)
        ≡ some (json.marshal s.meta)
    opened = sealed_meta_opens aead json s

    decoded :
        decrypt_chunks aead s.key s.prefix e2e_chunk_size (suc (length body)) (all_of body) 1
        ≡ (content, complete)
    decoded = body_decrypts aead json s content
