-- ===== src/E2e/Truncation.antt =====
-- A stream cut short, at any byte, is never taken for a complete one.
use send_to.Prelude.{
  ℕ, zero, suc, ◌+◌, ◌-◌, ◌%◌, ◌^◌, ◌<◌, ◌≤◌, ◌≡◌, ◌≢◌, refl, true, false, none, some, ◌⊎◌, inl,
  inr, [], ◌++◌, Bytes, arith, length, take, drop, le_or_lt, length-append, length-take,
  length-drop, take-append_le, take-append_ge, take-append, drop-append, take-all, ap, sym, ◌∙◌,
  leb,
}
use send_to.E2e.{
  Aead, MetaJson, E2eStream, E2eMetadata, Source, End, Result, ok, Outcome, complete, stopped,
  wrong_key, encrypt_chunks, decrypt_chunks, e2e_nonce, e2e_tag_size, e2e_chunk_size, e2e_key_size,
  e2e_nonce_prefix_size, reader, e2e_decrypt,
}
use send_to.E2e.Nonce.{length-e2e_nonce, e2e_nonce-injective}
use send_to.E2e.Steps.{
  all_of, encrypt_chunks_last, encrypt_chunks_more, decrypt_chunks_last, reader-all_of, body_bytes,
  sealed_meta,
}
use send_to.E2e.RoundTrip.{
  decrypt_chunks-seal, e2e_decrypt_parts, fixed, length-fixed, fixed_magic, fixed_prefix,
  length_field, head_bytes-fixed, sealed_meta_small, sealed_meta_opens,
}

module _ (aead : Aead) (key prefix : Bytes) (size : ℕ) where
  decrypt_chunks_empty :
      (fuel counter : ℕ)
      → decrypt_chunks aead key prefix size fuel (all_of []) counter ≡ ([], stopped wrong_key)
  unfolding decrypt_chunks
  decrypt_chunks_empty zero counter = refl
  decrypt_chunks_empty (suc fuel) counter = ground arith

  module _ (counter : ℕ) (small : counter < 2 ^ 32) where
    markers_differ : e2e_nonce prefix counter false ≢ e2e_nonce prefix counter true
    markers_differ e = cc ((e2e_nonce-injective prefix counter counter false true small small e).1)

    -- a sealed chunk, cut short or sealed as one that is not the last, is not a last chunk
    cut_chunk :
        (n m : Bytes) (j fuel : ℕ)
        → length n ≡ 12
        → length m ≤ size
        → (j < length m + e2e_tag_size)
          ⊎ ((j ≡ length m + e2e_tag_size) × (n ≢ e2e_nonce prefix counter true))
        → (decrypt_chunks aead key prefix size fuel (all_of (take j (aead.seal key n m))) counter).1
          ≡ stopped wrong_key
    cut_chunk n m zero fuel hn hm cut =
        ap (λ (r : Bytes × Outcome). r.1) (decrypt_chunks_empty fuel counter)
    cut_chunk n m (suc j) zero hn hm cut = unfold decrypt_chunks in refl
    cut_chunk n m (suc j) (suc fuel) hn hm cut =
        let c = take (suc j) (aead.seal key n m) in
        let size_of : length c ≡ suc j =
          ground (arith, length-take {0} (suc j) (aead.seal key n m), aead.length-seal key n m) in
        let closed : aead.unseal key (e2e_nonce prefix counter true) c ≡ none = elim cut [
          | inl short ↦ aead.unseal-take key n (e2e_nonce prefix counter true) m (suc j) short
          | inr (whole, other) ↦
              rw (take-all (suc j) (aead.seal key n m) (omega (arith, aead.length-seal key n m))) (
                aead.unseal-seal_ne key n (e2e_nonce prefix counter true) m hn
                  (length-e2e_nonce prefix counter true) other)
        ] in
        rw (
          decrypt_chunks_last aead key prefix size fuel c counter (omega arith) (ground arith),
          closed,
        )

  cut_or_whole :
      (j L : ℕ) (n : Bytes) {n' : Bytes} → n ≢ n' → j ≤ L → (j < L) ⊎ ((j ≡ L) × (n ≢ n'))
  cut_or_whole j L n other h = elim (le_or_lt L j) [
    | inl whole ↦ inr (omega arith, other)
    | inr short ↦ inl short
  ]

  -- The chunks alone: a strict prefix of what was encrypted does not read as complete.
  decrypt_chunks-cut :
      (fuel fuel' j : ℕ) (content : Bytes) (counter : ℕ)
      → 0 < size
      → counter < 2 ^ 32
      → length content < fuel
      → j < length (encrypt_chunks aead key prefix size fuel (all_of content) counter).0
      → (decrypt_chunks aead key prefix size fuel'
          (all_of (take j (encrypt_chunks aead key prefix size fuel (all_of content) counter).0))
          counter).1
        ≢ complete
  decrypt_chunks-cut zero fuel' j content counter pos small h cut = absurd (omega arith)
  decrypt_chunks-cut (suc fuel) zero j content counter pos small h cut =
      unfold decrypt_chunks in λ e. cc e
  decrypt_chunks-cut (suc fuel) (suc fuel') j content counter pos small h cut =
      elim (le_or_lt (length content) size) [
        | inl short ↦
            let last = encrypt_chunks_last aead key prefix size fuel content counter short in
            let n = e2e_nonce prefix counter true in
            rw last (λ e. cc (
              e,
              cut_chunk counter small n content j (suc fuel') (length-e2e_nonce prefix counter true)
                  short
                  (inl (
                    omega (
                      arith,
                      ap (λ (r : Bytes × End). length r.0) last,
                      aead.length-seal key n content,
                    ))),
            ))
        | inr long ↦
            let n = e2e_nonce prefix counter false in
            let b = take size content in
            let rest = drop size content in
            let c' = (counter + 1) % 2 ^ 32 in
            let sealed = aead.seal key n b in
            let later = (encrypt_chunks aead key prefix size fuel (all_of rest) c').0 in
            let more = encrypt_chunks_more aead key prefix size fuel content counter long in
            let full : length b ≡ size = omega (arith, length-take {0} size content) in
            let sealed_size : length sealed ≡ size + e2e_tag_size =
              omega (arith, aead.length-seal key n b) in
            let total : length
                  (encrypt_chunks aead key prefix size (suc fuel) (all_of content) counter).0
                ≡ length sealed + length later =
              ap (λ (r : Bytes × End). length r.0) more ∙ length-append {0} sealed later in
            rw more (elim (le_or_lt j (length sealed)) [
              | inl inside ↦ rw (take-append_le j sealed later inside) (λ e. cc (
                e,
                cut_chunk counter small n b j (suc fuel') (length-e2e_nonce prefix counter false)
                    (omega arith)
                    (cut_or_whole j (length b + e2e_tag_size) n (markers_differ counter small)
                      (omega arith)),
              ))
              | inr past ↦
                  let i = j - length sealed in
                  let some_left : 0 < length (take i later) =
                    ground (arith, length-take {0} i later) in
                  rw
                    (
                      take-append_ge j sealed later (omega arith),
                      decrypt_chunks-seal aead key prefix size counter b (take i later) full fuel'
                          some_left,
                    )
                    (decrypt_chunks-cut fuel fuel' i rest c' pos (omega arith)
                      (omega (arith, length-drop {0} size content)) (omega arith))
            ])
      ]

outcome-eq :
    {m m' : E2eMetadata} {r : Bytes × Outcome} {p : Bytes} {o : Outcome}
    → ◌≡◌ {A = Result (E2eMetadata × (Bytes × Outcome))} (ok (m, r)) (ok (m', (p, o)))
    → r.1 ≡ o
outcome-eq h = ground arith

module _ (aead : Aead) (json : MetaJson) (s : E2eStream) (content : Bytes) where
  abbrev IsComplete : Source → Type 0
  IsComplete cut =
      (meta : E2eMetadata) × (plain : Bytes) × (e2e_decrypt aead json cut s.key
        ≡ ok (meta, (plain, complete)))

  short_header : (cut : Bytes) → length cut < 13 → ¬ IsComplete (all_of cut)
  unfolding e2e_decrypt
  short_header cut h (meta, plain, e) = ground arith

  module _ (hk : length s.key ≡ e2e_key_size) (hp : length s.prefix ≡ e2e_nonce_prefix_size)
      (hm : length (json.marshal s.meta) ≤ 65519)
      (hj : json.unmarshal (json.marshal s.meta) ≡ some s.meta) where
    small : length (sealed_meta aead json s) ≤ 0xFFFF
    small = sealed_meta_small aead json s hm

    short_meta :
        (cut : Bytes)
        → length cut < length (sealed_meta aead json s)
        → ¬ IsComplete (all_of (fixed aead json s ++ cut))
    unfolding e2e_decrypt
    short_meta cut h (meta, plain, e) =
        let head = fixed aead json s in
        let len = length-fixed aead json s hp in
        let n = length_field aead json s hp small in
        let fits : leb (length (sealed_meta aead json s)) (length cut) ≡ false = ground arith in
        ground (arith, take-append 13 head cut len, drop-append 13 head cut len, n, fits, e)

    short_body :
        (j : ℕ)
        → j < length (body_bytes aead json s content)
        → ¬ IsComplete (
            all_of (
              fixed aead json s
              ++ (sealed_meta aead json s ++ take j (body_bytes aead json s content))))
    unfolding body_bytes
    short_body j h (meta, plain, e) =
        let body = take j (body_bytes aead json s content) in
        let parts =
          e2e_decrypt_parts aead json s.key s.prefix (fixed aead json s) (sealed_meta aead json s)
            body s.meta hk (length-fixed aead json s hp) (fixed_magic aead json s hp)
            (fixed_prefix aead json s hp) (length_field aead json s hp small)
            (sealed_meta_opens aead json s) hj in
        decrypt_chunks-cut aead s.key s.prefix e2e_chunk_size (suc (length content))
          (suc (length body)) j content 1 (omega arith) (omega arith) (omega arith) h
          (outcome-eq (sym parts ∙ e))

    whole_bytes : Bytes
    whole_bytes = fixed aead json s ++ (sealed_meta aead json s ++ body_bytes aead json s content)

    cut-not-IsComplete :
        (k : ℕ) → k < length whole_bytes → ¬ IsComplete (all_of (take k whole_bytes))
    unfolding whole_bytes
    cut-not-IsComplete k h =
        let head = fixed aead json s in
        let meta = sealed_meta aead json s in
        let body = body_bytes aead json s content in
        let len = length-fixed aead json s hp in
        let total = length-append {0} head (meta ++ body) in
        let total' = length-append {0} meta body in
        elim (le_or_lt (length head) k) [
          | inr inside ↦
              rw (take-append_le k head (meta ++ body) (omega arith))
                (short_header (take k head) (ground (arith, length-take {0} k head)))
          | inl past ↦
              rw (take-append_ge k head (meta ++ body) past)
                (elim (le_or_lt (length meta) (k - length head)) [
                  | inr inside ↦ rw (take-append_le (k - length head) meta body (omega arith)) (
                      short_meta (take (k - length head) meta)
                        (ground (arith, length-take {0} (k - length head) meta)))
                  | inl past' ↦
                      rw (take-append_ge (k - length head) meta body past')
                        (short_body (k - length head - length meta) (omega arith))
                ])
        ]

-- Dropping any number of bytes from the end of a stream is noticed: for a key, a prefix and metadata
-- as in the round trip, whatever strict prefix of the encrypted file is decrypted with its key, the
-- reader does not end as complete.
pub e2e_decrypt-take :
    (aead : Aead) (json : MetaJson) (s : E2eStream) (content : Bytes) (out : Source) (k : ℕ)
    → length s.key ≡ e2e_key_size
    → length s.prefix ≡ e2e_nonce_prefix_size
    → length (json.marshal s.meta) ≤ 65519
    → json.unmarshal (json.marshal s.meta) ≡ some s.meta
    → reader aead json s (all_of content) ≡ ok out
    → k < length out.content
    → (meta : E2eMetadata) (plain : Bytes)
    → e2e_decrypt aead json (all_of (take k out.content)) s.key ≢ ok (meta, (plain, complete))
unfolding whole_bytes
e2e_decrypt-take aead json s content out k hk hp hm hj made cut meta plain e =
    let (shape, _, _, _) = reader-all_of aead json s content out made in
    let bytes : out.content ≡ whole_bytes aead json s content hk hp hm hj =
      ap (λ (o : Source). o.content) shape
      ∙ head_bytes-fixed aead json s (body_bytes aead json s content) in
    cut-not-IsComplete aead json s content hk hp hm hj k (rw bytes at cut)
      (meta, plain, rw bytes at e)
