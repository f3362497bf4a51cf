-- ===== src/E2e/Resume.antt =====
-- `ReaderFrom`: the rest of the stream from any byte offset.
use send_to.Prelude.{
  ℕ, suc, ◌+◌, ◌-◌, ◌*◌, ◌%◌, ◌/◌, ◌^◌, ◌<◌, ◌≤◌, ◌≡◌, refl, true, false, ◌⊎◌, inl, inr, [], ◌++◌,
  Bytes, arith, length, drop, le_or_lt, length-append, length-drop, drop-append, drop-all,
  drop-drop, ap, sym, ◌∙◌, leb, le→leb,
}
use send_to.Prelude.Int.{pos}
use send_to.E2e.{
  Aead, MetaJson, E2eStream, Source, ok, e2e_nonce, e2e_tag_size, e2e_chunk_size,
  e2e_chunk_cipher_size, reader, reader_from, header, chunks, discard, e2e_aead,
}
use send_to.E2e.Steps.{
  all_of, encrypt_chunks-eof, reader-all_of, head_bytes, body_bytes, chunks-all_of,
}
use send_to.E2e.Size.{sealed_size, length-encrypt_chunks}
use send_to.E2e.Stream.{stream, stream_last, drop-stream}

discard-all_of :
    (c : Bytes) (skip : ℕ) → skip ≤ length c → discard (all_of c) skip ≡ ok (all_of (drop skip c))
unfolding discard
discard-all_of c skip h = rw (le→leb skip (length c) h)

module _ (aead : Aead) (json : MetaJson) (s : E2eStream) where
  chunks-stream :
      (content head : Bytes) (counter : ℕ)
      → e2e_aead s.key ≡ ok tt
      → chunks aead json s (all_of content) head counter
        ≡ ok (all_of (head ++ stream aead s.key s.prefix (suc (length content)) content counter))
  unfolding stream
  chunks-stream content head counter key_ok =
      chunks-all_of aead json s content head counter key_ok
      ∙ ap
          (λ e. ok (record {
            content = head ++ stream aead s.key s.prefix (suc (length content)) content counter;
            ending = e;
          }))
          (encrypt_chunks-eof aead s.key s.prefix e2e_chunk_size (suc (length content)) content
            counter)

  body_stream :
      (content : Bytes)
      → body_bytes aead json s content ≡ stream aead s.key s.prefix (suc (length content)) content 1
  unfolding stream body_bytes
  body_stream content = refl

  length-stream :
      (content : Bytes) (counter : ℕ)
      → length (stream aead s.key s.prefix (suc (length content)) content counter)
        ≡ sealed_size (length content)
  unfolding stream
  length-stream content counter =
      length-encrypt_chunks aead s.key s.prefix (suc (length content)) content counter (omega arith)

  module _ (content : Bytes) (offset : ℕ) where
    abbrev H : ℕ
    H = length (head_bytes aead json s)

    abbrev index : ℕ
    index = (offset - H) / e2e_chunk_cipher_size

    abbrev skip : ℕ
    skip = offset - H - index * e2e_chunk_cipher_size

    abbrev rest : Bytes
    rest = drop (index * e2e_chunk_size) content

    abbrev from_chunk : Bytes
    from_chunk = stream aead s.key s.prefix (suc (length rest)) rest ((index % 2 ^ 32 + 1) % 2 ^ 32)

    module _ (inside : offset < H + sealed_size (length content)) where
      chunk_exists : (index ≡ 0) ⊎ (index * e2e_chunk_size < length content)
      chunk_exists = ground arith

      from_chunk-drop :
          from_chunk
          ≡ drop
              (index * e2e_chunk_cipher_size)
              (stream aead s.key s.prefix (suc (length content)) content 1)
      from_chunk-drop =
          let count : (1 + index) % 2 ^ 32 ≡ (index % 2 ^ 32 + 1) % 2 ^ 32 = omega arith in
          let shorter : length rest ≤ length content =
            omega (arith, length-drop {0} (index * e2e_chunk_size) content) in
          sym (
            rw (← count) (
              drop-stream aead s.key s.prefix index (suc (length content)) (suc (length rest))
                content 1 (omega arith) chunk_exists (omega arith) (omega arith)))

      skip-le : skip ≤ length from_chunk
      skip-le =
          rw (length-stream rest ((index % 2 ^ 32 + 1) % 2 ^ 32))
            (ground (arith, length-drop {0} (index * e2e_chunk_size) content))

    whole : Bytes
    whole = head_bytes aead json s ++ stream aead s.key s.prefix (suc (length content)) content 1

    drop-whole :
        H ≤ offset
        → drop offset whole
          ≡ drop (offset - H) (stream aead s.key s.prefix (suc (length content)) content 1)
    unfolding whole
    drop-whole behind =
        let split : offset ≡ H + (offset - H) = omega arith in
        ap (λ k. drop k whole) split
        ∙ sym (drop-drop (offset - H) H whole)
        ∙ ap (drop (offset - H)) (drop-append H (head_bytes aead json s) _ refl)

    module _ (made : header aead json s ≡ ok (head_bytes aead json s))
        (key_ok : e2e_aead s.key ≡ ok tt) where
      reader_from_behind :
          offset < H + sealed_size (length content)
          → H ≤ offset
          → reader_from aead json s (all_of content) (pos offset) ≡ ok (all_of (drop offset whole))
      unfolding reader_from
      reader_from_behind inside behind =
          let tail = stream aead s.key s.prefix (suc (length content)) content 1 in
          let split : index * e2e_chunk_cipher_size + skip ≡ offset - H = omega arith in
          rw (
            made,
            le→leb H offset behind,
            chunks-stream rest [] ((index % 2 ^ 32 + 1) % 2 ^ 32) key_ok,
            discard-all_of from_chunk skip (skip-le inside),
            from_chunk-drop inside,
            drop-drop skip (index * e2e_chunk_cipher_size) tail,
            split,
            drop-whole behind,
          )

      reader_from_before :
          offset < H
          → reader_from aead json s (all_of content) (pos offset) ≡ ok (all_of (drop offset whole))
      unfolding reader_from whole
      reader_from_before before =
          let later : leb H offset ≡ false = ground arith in
          rw (made, later, chunks-stream content (head_bytes aead json s) 1 key_ok)
            (discard-all_of whole offset (
              omega (
                arith,
                length-append {0} (head_bytes aead json s)
                    (stream aead s.key s.prefix (suc (length content)) content 1),
              )))

-- A stream that opens can be taken up again at every byte: for each offset before its end,
-- `ReaderFrom` returns exactly the rest of what `Reader` returns, header bytes included.
pub reader_from-reader :
    (aead : Aead) (json : MetaJson) (s : E2eStream) (content : Bytes) (offset : ℕ) (out : Source)
    → reader aead json s (all_of content) ≡ ok out
    → offset < length out.content
    → reader_from aead json s (all_of content) (pos offset) ≡ ok (all_of (drop offset out.content))
unfolding whole
reader_from-reader aead json s content offset out h inside =
    let (shape, made, _, key_ok) = reader-all_of aead json s content out h in
    let exact : out ≡ all_of (whole aead json s content offset) =
      shape ∙ ap (λ b. all_of (head_bytes aead json s ++ b)) (body_stream aead json s content) in
    let fits : offset < length (head_bytes aead json s) + sealed_size (length content) = omega (
      arith,
      ap (λ (o : Source). length o.content) exact,
      length-append {0} (head_bytes aead json s)
          (stream aead s.key s.prefix (suc (length content)) content 1),
      length-stream aead json s content 1,
    ) in
    rw exact (elim (le_or_lt (length (head_bytes aead json s)) offset) [
      | inl behind ↦ reader_from_behind aead json s content offset made key_ok fits behind
      | inr before ↦ reader_from_before aead json s content offset made key_ok before
    ])

-- At the very end of the stream of a plaintext of one or more full chunks there is nothing left to
-- send, but `ReaderFrom` returns 16 more bytes: one empty chunk, sealed as the last.
pub reader_from_end :
    (aead : Aead) (json : MetaJson) (s : E2eStream) (content : Bytes) (k : ℕ) (out : Source)
    → length content ≡ suc k * e2e_chunk_size
    → reader aead json s (all_of content) ≡ ok out
    → (r : Source) × (reader_from aead json s (all_of content) (pos (length out.content)) ≡ ok r)
      × (length r.content ≡ e2e_tag_size)
unfolding reader_from
reader_from_end aead json s content k out full made_out =
    let (shape, made, _, key_ok) = reader-all_of aead json s content out made_out in
    let offset = length out.content in
    let head = length (head_bytes aead json s) in
    let total : offset ≡ head + suc k * e2e_chunk_cipher_size = ground (
      arith,
      ap (λ (o : Source). length o.content)
          (shape
            ∙ ap (λ b. all_of (head_bytes aead json s ++ b)) (body_stream aead json s content)),
      length-append {0} (head_bytes aead json s)
          (stream aead s.key s.prefix (suc (length content)) content 1),
      length-stream aead json s content 1,
    ) in
    let at_end : index aead json s content offset ≡ suc k = omega arith in
    let no_skip : offset - head - suc k * e2e_chunk_cipher_size ≡ 0 = omega arith in
    let c = (suc k % 2 ^ 32 + 1) % 2 ^ 32 in
    let nothing_left : drop (suc k * e2e_chunk_size) content ≡ [] =
      drop-all _ content (omega arith) in
    let last = aead.seal s.key (e2e_nonce s.prefix c true) [] in
    let sent : chunks aead json s (all_of []) [] c ≡ ok (all_of last) =
      chunks-stream aead json s [] [] c key_ok
      ∙ ap (λ b. ok (all_of b)) (stream_last aead s.key s.prefix 0 [] c (omega arith)) in
    let past : leb head offset ≡ true = ground arith in
    (
      all_of last,
      rw (made, past, at_end, nothing_left, sent, no_skip) (discard-all_of last 0 (omega arith)),
      aead.length-seal s.key (e2e_nonce s.prefix c true) [],
    )
