-- ===== src/E2e/Stream.antt =====
-- The chunks of a stream as bytes: from chunk k on, they are the encryption of the rest.
use send_to.Prelude.{
  ℕ, zero, suc, ◌+◌, ◌*◌, ◌%◌, ◌^◌, ◌<◌, ◌≤◌, ◌≡◌, true, false, ◌⊎◌, inl, inr, ◌++◌, Bytes, arith,
  length, take, drop, le_or_lt, length-take, length-drop, drop-append, drop-drop, ap,
}
use send_to.E2e.{Aead, End, encrypt_chunks, e2e_nonce, e2e_chunk_size, e2e_chunk_cipher_size}
use send_to.E2e.Steps.{all_of, encrypt_chunks_last, encrypt_chunks_more}

module _ (aead : Aead) (key prefix : Bytes) where
  unfoldable pub stream : ℕ → Bytes → ℕ → Bytes
  stream fuel content counter =
      (encrypt_chunks aead key prefix e2e_chunk_size fuel (all_of content) counter).0

  pub stream_last :
      (fuel : ℕ) (content : Bytes) (counter : ℕ)
      → length content ≤ e2e_chunk_size
      → stream (suc fuel) content counter ≡ aead.seal key (e2e_nonce prefix counter true) content
  unfolding stream
  stream_last fuel content counter h =
      ap (λ (r : Bytes × End). r.0)
        (encrypt_chunks_last aead key prefix e2e_chunk_size fuel content counter h)

  stream_more :
      (fuel : ℕ) (content : Bytes) (counter : ℕ)
      → e2e_chunk_size < length content
      → stream (suc fuel) content counter
        ≡ aead.seal key (e2e_nonce prefix counter false) (take e2e_chunk_size content)
          ++ stream fuel (drop e2e_chunk_size content) ((counter + 1) % 2 ^ 32)
  unfolding stream
  stream_more fuel content counter h =
      ap (λ (r : Bytes × End). r.0)
        (encrypt_chunks_more aead key prefix e2e_chunk_size fuel content counter h)

  -- More fuel than bytes changes nothing.
  stream_fuel :
      (fuel fuel' : ℕ) (content : Bytes) (counter : ℕ)
      → length content < fuel
      → length content < fuel'
      → stream fuel content counter ≡ stream fuel' content counter
  stream_fuel zero fuel' content counter h h' = absurd (omega arith)
  stream_fuel (suc fuel) zero content counter h h' = absurd (omega arith)
  stream_fuel (suc fuel) (suc fuel') content counter h h' =
      elim (le_or_lt (length content) e2e_chunk_size) [
        | inl short ↦
            rw (stream_last fuel content counter short, stream_last fuel' content counter short)
        | inr long ↦
            let rest = drop e2e_chunk_size content in
            let cut = length-drop {0} e2e_chunk_size content in
            rw (
              stream_more fuel content counter long,
              stream_more fuel' content counter long,
              stream_fuel fuel fuel' rest ((counter + 1) % 2 ^ 32) (omega arith) (omega arith),
            )
      ]

  -- Dropping k whole chunks of ciphertext is encrypting from chunk k on, if there is such a chunk.
  pub drop-stream :
      (k fuel fuel' : ℕ) (content : Bytes) (counter : ℕ)
      → counter < 2 ^ 32
      → (k ≡ 0) ⊎ (k * e2e_chunk_size < length content)
      → length content < fuel
      → length (drop (k * e2e_chunk_size) content) < fuel'
      → drop (k * e2e_chunk_cipher_size) (stream fuel content counter)
        ≡ stream fuel' (drop (k * e2e_chunk_size) content) ((counter + k) % 2 ^ 32)
  drop-stream zero fuel fuel' content counter hc some_chunk h h' =
      let same : (counter + 0) % 2 ^ 32 ≡ counter = omega arith in
      let none_c : 0 * e2e_chunk_cipher_size ≡ 0 = omega arith in
      let none_p : 0 * e2e_chunk_size ≡ 0 = omega arith in
      rw (none_c, none_p, same)
        (stream_fuel fuel fuel' content counter h
          (omega (arith, length-drop {0} (0 * e2e_chunk_size) content)))
  drop-stream (suc k) zero fuel' content counter hc some_chunk h h' = absurd (omega arith)
  drop-stream (suc k) (suc fuel) fuel' content counter hc some_chunk h h' =
      let long : e2e_chunk_size < length content = ground arith in
      let b = take e2e_chunk_size content in
      let rest = drop e2e_chunk_size content in
      let c' = (counter + 1) % 2 ^ 32 in
      let first = aead.seal key (e2e_nonce prefix counter false) b in
      let later = stream fuel rest c' in
      let first_size : length first ≡ e2e_chunk_cipher_size = omega (
        arith,
        aead.length-seal key (e2e_nonce prefix counter false) b,
        length-take {0} e2e_chunk_size content,
      ) in
      let rest_size = length-drop {0} e2e_chunk_size content in
      let more = stream_more fuel content counter long in
      let split : suc k * e2e_chunk_cipher_size
          ≡ e2e_chunk_cipher_size + k * e2e_chunk_cipher_size =
        omega arith in
      let split' : suc k * e2e_chunk_size ≡ e2e_chunk_size + k * e2e_chunk_size = omega arith in
      let count : (c' + k) % 2 ^ 32 ≡ (counter + suc k) % 2 ^ 32 = omega arith in
      rw
        (
          more,
          split,
          split',
          ← drop-drop (k * e2e_chunk_cipher_size) e2e_chunk_cipher_size (first ++ later),
          drop-append e2e_chunk_cipher_size first later first_size,
          ← drop-drop (k * e2e_chunk_size) e2e_chunk_size content,
          ← count,
        )
        (drop-stream k fuel fuel' rest c' (omega arith) (ground arith) (omega arith) (
          omega (
            arith,
            length-drop {0} (suc k * e2e_chunk_size) content,
            length-drop {0} (k * e2e_chunk_size) rest,
          )))
