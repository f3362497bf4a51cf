-- ===== src/E2e/Size.antt =====
-- `E2EEncryptedSize` against what the stream really produces.
use send_to.Prelude.{
  ℕ, zero, suc, ◌+◌, ◌-◌, ◌*◌, ◌/◌, ◌%◌, ◌^◌, ◌<◌, ◌≤◌, ◌≡◌, true, false, ◌||◌, Bytes, arith,
  length, take, drop, ltb, ◌==◌, if◌then◌else◌, length-append, length-take, length-drop, inl, inr,
  le_or_lt, sym, ◌∙◌,
}
use send_to.E2e.Steps.{
  all_of, encrypt_chunks_last, encrypt_chunks_more, reader-all_of, head_bytes, body_bytes,
  length-head_bytes, sealed_meta,
}
use send_to.E2e.{
  Aead, MetaJson, E2eStream, Source, ok, encrypt_chunks, e2e_nonce, e2e_chunk_size,
  e2e_chunk_cipher_size, e2e_tag_size, e2e_encrypted_size, reader,
}

abbrev pub sealed_size : ℕ → ℕ
sealed_size n =
    let full = n / e2e_chunk_size in
    let rest = n % e2e_chunk_size in
    if ltb 0 rest || full == 0
    then full * e2e_chunk_cipher_size + (rest + e2e_tag_size)
    else full * e2e_chunk_cipher_size

sealed_size_last : (n : ℕ) → n ≤ e2e_chunk_size → sealed_size n ≡ n + e2e_tag_size
sealed_size_last n h = ground arith

sealed_size_step :
    (n : ℕ)
    → e2e_chunk_size < n
    → sealed_size n ≡ e2e_chunk_cipher_size + sealed_size (n - e2e_chunk_size)
sealed_size_step n h = ground arith

module _ (aead : Aead) (key prefix : Bytes) where
  pub length-encrypt_chunks :
      (fuel : ℕ) (content : Bytes) (counter : ℕ)
      → length content < fuel
      → length (encrypt_chunks aead key prefix e2e_chunk_size fuel (all_of content) counter).0
        ≡ sealed_size (length content)
  length-encrypt_chunks zero content counter h = absurd (omega arith)
  length-encrypt_chunks (suc fuel) content counter h =
      elim (le_or_lt (length content) e2e_chunk_size) [
        | inl short ↦
            rw (encrypt_chunks_last aead key prefix e2e_chunk_size fuel content counter short) (
              aead.length-seal key (e2e_nonce prefix counter true) content
              ∙ sym (sealed_size_last (length content) short))
        | inr long ↦
            rw (encrypt_chunks_more aead key prefix e2e_chunk_size fuel content counter long) (
              grind (
                arith,
                length-append {0}
                    (aead.seal key (e2e_nonce prefix counter false) (take e2e_chunk_size content))
                    (encrypt_chunks aead key prefix e2e_chunk_size fuel
                      (all_of (drop e2e_chunk_size content)) ((counter + 1) % 2 ^ 32)).0,
                aead.length-seal key (e2e_nonce prefix counter false) (take e2e_chunk_size content),
                length-take {0} e2e_chunk_size content,
                length-drop {0} e2e_chunk_size content,
                length-encrypt_chunks fuel (drop e2e_chunk_size content) ((counter + 1) % 2 ^ 32),
                sealed_size_step (length content) long,
              ))
      ]

-- For a plaintext below 2^62 bytes, a stream with a 7-byte prefix that opens at all produces exactly as many bytes as `E2EEncryptedSize` declares beforehand.
pub length-reader :
    (aead : Aead) (json : MetaJson) (s : E2eStream) (content : Bytes) (out : Source)
    → length s.prefix ≡ 7
    → length content < 2 ^ 62
    → reader aead json s (all_of content) ≡ ok out
    → length out.content ≡ e2e_encrypted_size json (length content) s.meta
unfolding e2e_encrypted_size body_bytes sealed_meta
length-reader aead json s content out hp hn h =
    let (shape, _, small, _) = reader-all_of aead json s content out h in
    rw shape (
      ground (
        arith,
        length-append {0} (head_bytes aead json s) (body_bytes aead json s content),
        length-head_bytes aead json s hp,
        length-encrypt_chunks aead s.key s.prefix (suc (length content)) content 1 (omega arith),
        aead.length-seal s.key (e2e_nonce s.prefix 0 false) (json.marshal s.meta),
      ))
