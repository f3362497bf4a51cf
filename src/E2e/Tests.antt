-- ===== src/E2e/Tests.antt =====
-- The encrypted stream on concrete files.
use send_to.Prelude.{
  ◌≡◌, ◌≢◌, refl, true, [], ◌∷◌, ◌++◌, Bytes, codes, arith, length, take, drop, replicate, eq_bytes,
  some,
}
use send_to.Prelude.Int.{pos, negsuc}
use send_to.E2e.{
  E2eStream, Source, ok, err, complete, negative_offset, e2e_nonce, new_e2e_stream_with_prefix,
  malformed_prefix, e2e_encrypted_size, reader, reader_from, e2e_decrypt, be16, encrypt_chunks,
  not_encrypted,
}
use send_to.E2e.Steps.{all_of, head_bytes, body_bytes}
use send_to.E2e.Size.{length-reader}
use send_to.E2e.RoundTrip.{reader_runs, e2e_decrypt-reader}
use send_to.E2e.Resume.{reader_from-reader}
use send_to.E2e.Truncation.{e2e_decrypt-take}
use send_to.E2e.Toy.{toy_aead, toy_json, toy_seal, double, tag}
use send_to.E2e.Key.{KeyText, fragment_key, strip_fragment, fragment_key-append}

abbrev note : E2eStream
note = record {
  key = replicate 32 9;
  prefix = codes "1234567";
  meta = record { name = codes "a.txt"; media_type = [] };
}

abbrev hello : Bytes
hello = codes "hello"

abbrev sent : Bytes → Source
sent content =
    all_of (head_bytes toy_aead toy_json note ++ body_bytes toy_aead toy_json note content)

sent_runs : (content : Bytes) → reader toy_aead toy_json note (all_of content) ≡ ok (sent content)
sent_runs content = reader_runs toy_aead toy_json note content refl (omega arith)

length-sent : length (sent hello).content ≡ 55
unfolding head_bytes body_bytes encrypt_chunks toy_seal double tag be16 e2e_nonce
length-sent = refl

nonce_bytes : e2e_nonce (codes "1234567") 258 true ≡ codes "1234567" ++ (0 ∷ 0 ∷ 1 ∷ 2 ∷ 1 ∷ [])
unfolding e2e_nonce
nonce_bytes = refl

bad_prefix :
    new_e2e_stream_with_prefix (replicate 32 9) (codes "123") note.meta ≡ err malformed_prefix
unfolding new_e2e_stream_with_prefix
bad_prefix = refl

negative : reader_from toy_aead toy_json note (all_of hello) (negsuc 0) ≡ err negative_offset
unfolding reader_from
negative = refl

not_a_stream :
    e2e_decrypt toy_aead toy_json (all_of (codes "STE2 something else")) note.key
    ≡ err not_encrypted
unfolding e2e_decrypt eq_bytes
not_a_stream = refl

length-reader_example :
    length (sent hello).content ≡ e2e_encrypted_size toy_json (length hello) note.meta
length-reader_example =
    length-reader toy_aead toy_json note hello (sent hello) refl (omega arith) (sent_runs hello)

e2e_decrypt-reader_example :
    (out : Source) × (reader toy_aead toy_json note (all_of hello) ≡ ok out)
    × (e2e_decrypt toy_aead toy_json out note.key ≡ ok (note.meta, (hello, complete)))
e2e_decrypt-reader_example =
    e2e_decrypt-reader toy_aead toy_json note hello refl refl (omega arith) refl

reader_from-reader_example :
    reader_from toy_aead toy_json note (all_of hello) (pos 40)
    ≡ ok (all_of (drop 40 (sent hello).content))
reader_from-reader_example =
    reader_from-reader toy_aead toy_json note hello 40 (sent hello) (sent_runs hello)
      (omega (arith, length-sent))

e2e_decrypt-take_example :
    e2e_decrypt toy_aead toy_json (all_of (take 54 (sent hello).content)) note.key
    ≢ ok (note.meta, (hello, complete))
e2e_decrypt-take_example =
    e2e_decrypt-take toy_aead toy_json note hello (sent hello) 54 refl refl (omega arith) refl
      (sent_runs hello) (omega (arith, length-sent)) note.meta hello

abbrev plain_text : KeyText
plain_text = record {
  encode = λ key. key;
  decode = λ s. some s;
  trim_space = λ s. s;
  decode-encode = λ key. refl;
  trim_space-encode = λ key. refl;
}

fragment_key-append_example :
    (fragment_key plain_text (codes "https://s/a/b" ++ b'#' ∷ (codes "k=" ++ replicate 32 9))
      ≡ some (some (replicate 32 9)))
    × (strip_fragment (codes "https://s/a/b" ++ b'#' ∷ (codes "k=" ++ replicate 32 9))
        ≡ codes "https://s/a/b")
fragment_key-append_example =
    fragment_key-append plain_text (codes "https://s/a/b") (replicate 32 9) refl refl
