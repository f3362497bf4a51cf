-- ===== src/E2e.antt =====
-- client/e2e.go: the end-to-end encrypted stream. Files are read and written as byte lists; the
-- cipher and the JSON form of the metadata are parameters. The proofs are in the modules below.
pub mod Nonce
pub mod Steps
pub mod Size
pub mod RoundTrip
pub mod Stream
pub mod Resume
pub mod Truncation
pub mod Key
pub mod Toy
mod Tests
use send_to.Prelude.{
  ℕ, zero, suc, ◌+◌, ◌-◌, ◌*◌, ◌/◌, ◌%◌, ◌^◌, ◌≡◌, ◌≢◌, ◌<◌, Bool, true, false, ◌&&◌, ◌||◌, Option,
  none, some, [], ◌∷◌, ◌++◌, Bytes, codes, eq_bytes, ltb, leb, ◌==◌, if◌then◌else◌, length, take,
  drop, replicate,
}
use send_to.Prelude.Int.{ℤ, pos, negsuc}

abbrev pub e2e_magic : Bytes
e2e_magic = codes "STE1"

abbrev pub e2e_key_size : ℕ
e2e_key_size = 32

abbrev pub e2e_nonce_prefix_size : ℕ
e2e_nonce_prefix_size = 7

abbrev pub e2e_chunk_size : ℕ
e2e_chunk_size = 64 * 1024

abbrev pub e2e_tag_size : ℕ
e2e_tag_size = 16

abbrev pub e2e_meta_len_size : ℕ
e2e_meta_len_size = 2

abbrev pub e2e_header_size : ℕ
e2e_header_size = length e2e_magic + e2e_nonce_prefix_size + e2e_meta_len_size

abbrev pub e2e_chunk_cipher_size : ℕ
e2e_chunk_cipher_size = e2e_chunk_size + e2e_tag_size

pub record E2eMetadata : Type 0 where
  pub name : Bytes
  pub media_type : Bytes

-- AES-256-GCM as `cipher.AEAD` documents it: `Open` undoes `Seal`, a sealed text is one tag longer,
-- and what was sealed under another nonce, or was cut short, does not open.
pub record Aead : Type 0 where
  pub seal : Bytes → Bytes → Bytes → Bytes
  pub unseal : Bytes → Bytes → Bytes → Option Bytes
  pub length-seal : (k n m : Bytes) → length (seal k n m) ≡ length m + e2e_tag_size
  pub unseal-seal : (k n m : Bytes) → unseal k n (seal k n m) ≡ some m
  pub unseal-seal_ne :
      (k n n' m : Bytes) → length n ≡ 12 → length n' ≡ 12 → n ≢ n' → unseal k n' (seal k n m) ≡ none
  pub unseal-take :
      (k n n' m : Bytes) (j : ℕ)
      → j < length m + e2e_tag_size
      → unseal k n' (take j (seal k n m)) ≡ none

-- `json.Marshal` and `json.Unmarshal` at `E2EMetadata`.
pub record MetaJson : Type 0 where
  pub marshal : E2eMetadata → Bytes
  pub unmarshal : Bytes → Option E2eMetadata

pub data E2eError : Type 0 where
  malformed_key malformed_prefix meta_too_large negative_offset : E2eError
  not_encrypted wrong_key read_failed end_of_file : E2eError

pub data Result {ℓ} (A : Type ℓ) : Type ℓ where
  ok : A → Result A
  err : E2eError → Result A

infixl 5 ◌>>=◌ ◌>>◌
abbrev ◌>>=◌ {ℓ κ} : {A : Type ℓ} {B : Type κ} → Result A → (A → Result B) → Result B
ok a >>= f = f a
err e >>= f = err e

abbrev ◌>>◌ {ℓ} : {B : Type ℓ} → Result (Unit {0}) → Result B → Result B
m >> k = m >>= λ _. k

-- `if !test { return …, e }`
abbrev guard : Bool → E2eError → Result (Unit {0})
guard true e = ok tt
guard false e = err e

-- What stands behind the bytes of a reader: the end of the file, or an error of the reader.
pub data End : Type 0 where
  eof failed : End

abbrev pub is_eof : End → Bool
is_eof eof = true
is_eof failed = false

pub record Source : Type 0 where
  pub content : Bytes
  pub ending : End

abbrev pub is_empty : Bytes → Bool
is_empty [] = true
is_empty (b ∷ bs) = false

-- `binary.BigEndian`, of a uint32 and of a uint16
pub be32 : ℕ → Bytes
be32 n = (n / 2 ^ 24 % 256) ∷ (n / 2 ^ 16 % 256) ∷ (n / 2 ^ 8 % 256) ∷ (n % 256) ∷ []

unfoldable pub be16 : ℕ → Bytes
be16 n = (n / 2 ^ 8 % 256) ∷ (n % 256) ∷ []

-- `make([]byte, 12)`, the prefix copied to its head, the counter and the marker written behind it
unfoldable pub e2e_nonce : Bytes → ℕ → Bool → Bytes
unfolding be32
e2e_nonce prefix counter final =
    take e2e_nonce_prefix_size (prefix ++ replicate e2e_nonce_prefix_size 0)
    ++ (be32 counter ++ (if final then 1 else 0) ∷ [])

-- `aes.NewCipher` takes keys of 16, 24 and 32 bytes.
pub e2e_aead : Bytes → Result (Unit {0})
e2e_aead key = guard (length key == 16 || length key == 24 || length key == 32) malformed_key

pub record E2eStream : Type 0 where
  pub key : Bytes
  pub prefix : Bytes
  pub meta : E2eMetadata

unfoldable pub new_e2e_stream_with_prefix : Bytes → Bytes → E2eMetadata → Result E2eStream
new_e2e_stream_with_prefix key prefix meta = do
  guard (length key == e2e_key_size) malformed_key
  guard (length prefix == e2e_nonce_prefix_size) malformed_prefix
  ok (record { key = key; prefix = prefix; meta = meta })

module _ (json : MetaJson) where
  -- n is an int64 that is not negative: its arithmetic is that of the 64-bit pattern
  unfoldable pub e2e_encrypted_size : ℕ → E2eMetadata → ℕ
  e2e_encrypted_size n meta =
      let size = e2e_header_size + (length (json.marshal meta) + e2e_tag_size) in
      let full = n / e2e_chunk_size in
      let rest = n % e2e_chunk_size in
      let size' = size + full * e2e_chunk_cipher_size in
      (if ltb 0 rest || full == 0 then size' + (rest + e2e_tag_size) else size') % 2 ^ 64

module _ (aead : Aead) (key prefix : Bytes) (size : ℕ) where
  -- The goroutine of `chunks` with chunks of `size` bytes: what it writes to the pipe, and how it
  -- closes it. Each round but the last takes a full chunk, so the length of the text is enough fuel.
  unfoldable pub encrypt_chunks : ℕ → Source → ℕ → Bytes × End
  encrypt_chunks zero s counter = ([], eof)
  encrypt_chunks (suc fuel) s counter =
      let buf = take size s.content in
      let rest = record s { content = drop size s.content } in
      let sealed = λ (final : Bool). aead.seal key (e2e_nonce prefix counter final) buf in
      let later = encrypt_chunks fuel rest ((counter + 1) % 2 ^ 32) in
      if ltb (length s.content) size
      then (if is_eof s.ending then (sealed true, eof) else ([], failed))
      else if is_empty rest.content && is_eof s.ending
      then (sealed true, eof)
      else (sealed false ++ later.0, later.1)

-- `io.CopyN(io.Discard, reader, skip)`
pub discard : Source → ℕ → Result Source
discard r skip =
    if leb skip (length r.content)
    then ok (record r { content = drop skip r.content })
    else if is_eof r.ending
    then err end_of_file
    else err read_failed

module _ (aead : Aead) (json : MetaJson) where
  pub header : E2eStream → Result Bytes
  unfolding e2e_aead be16
  header s = do
    e2e_aead s.key
    let meta_json = json.marshal s.meta
    guard (leb (length meta_json) e2e_chunk_size) meta_too_large
    let sealed_meta = aead.seal s.key (e2e_nonce s.prefix 0 false) meta_json
    guard (leb (length sealed_meta) 0xFFFF) meta_too_large
    ok (e2e_magic ++ (s.prefix ++ (be16 (length sealed_meta) ++ sealed_meta)))

  pub chunks : E2eStream → Source → Bytes → ℕ → Result Source
  unfolding e2e_aead
  chunks s plaintext head counter = do
    e2e_aead s.key
    let (out, ending) =
        encrypt_chunks aead s.key s.prefix e2e_chunk_size (suc (length plaintext.content)) plaintext
          counter
    ok (record { content = head ++ out; ending = ending })

  pub reader : E2eStream → Source → Result Source
  unfolding header chunks
  reader s plaintext = do head ← header s; chunks s plaintext head 1

  pub reader_from : E2eStream → Source → ℤ → Result Source
  unfolding header chunks discard
  reader_from s plaintext (negsuc _) = err negative_offset
  reader_from s plaintext (pos offset) = do
    head ← header s
    let index = (offset - length head) / e2e_chunk_cipher_size
    let skip = offset - length head - index * e2e_chunk_cipher_size
    let seek = λ (n : ℕ). record plaintext { content = drop n plaintext.content }
    if leb (length head) offset
        then (do
          r ← chunks s (seek (index * e2e_chunk_size)) [] ((index % 2 ^ 32 + 1) % 2 ^ 32)
          discard r skip)
        else (do r ← chunks s (seek 0) head 1; discard r offset)

-- What is read in the end: all the bytes that came, and why no more did.
pub data Outcome : Type 0 where
  complete : Outcome
  stopped : E2eError → Outcome

module _ (aead : Aead) (key prefix : Bytes) (size : ℕ) where
  -- `e2eReader.Read` until it returns an error, with chunks of `size` bytes of plaintext: each round
  -- is a call of `next`, which takes at least one byte or returns, so the length is enough fuel.
  unfoldable pub decrypt_chunks : ℕ → Source → ℕ → Bytes × Outcome
  decrypt_chunks zero r counter = ([], stopped wrong_key)
  decrypt_chunks (suc fuel) r counter =
      let full = size + e2e_tag_size in
      let buf = take full r.content in
      let rest = record r { content = drop full r.content } in
      let later = decrypt_chunks fuel rest ((counter + 1) % 2 ^ 32) in
      let try_final : Bytes × Outcome = elim (aead.unseal key (e2e_nonce prefix counter true) buf) [
        | none ↦ ([], stopped wrong_key)
        | some plain ↦ (plain, complete)
      ] in
      let try_more : Bytes × Outcome = elim (aead.unseal key (e2e_nonce prefix counter false) buf) [
        | none ↦ ([], stopped wrong_key)
        | some plain ↦ (plain ++ later.0, later.1)
      ] in
      if ltb (length r.content) full
      then (if is_eof r.ending
          then (if is_empty r.content then ([], stopped wrong_key) else try_final)
          else ([], stopped read_failed))
      else if is_empty rest.content && is_eof r.ending
      then try_final
      else try_more

pub be16_value : Bytes → ℕ
be16_value (h ∷ l ∷ _) = h * 256 + l
be16_value _ = 0

or_wrong_key : {A : Type 0} → Option A → Result A
or_wrong_key none = err wrong_key
or_wrong_key (some a) = ok a

module _ (aead : Aead) (json : MetaJson) where
  -- The metadata, and what reading the returned reader to its end gives.
  unfoldable pub e2e_decrypt : Source → Bytes → Result (E2eMetadata × (Bytes × Outcome))
  unfolding e2e_aead be16_value or_wrong_key
  e2e_decrypt r key = do
    e2e_aead key
    guard (leb e2e_header_size (length r.content)) not_encrypted
    let head = take e2e_header_size r.content
    let body = drop e2e_header_size r.content
    guard (eq_bytes (take (length e2e_magic) head) e2e_magic) not_encrypted
    let prefix = take e2e_nonce_prefix_size (drop (length e2e_magic) head)
    let meta_len = be16_value (drop (length e2e_magic + e2e_nonce_prefix_size) head)
    guard (leb meta_len (length body)) wrong_key
    meta_json ← or_wrong_key (aead.unseal key (e2e_nonce prefix 0 false) (take meta_len body))
    meta ← or_wrong_key (json.unmarshal meta_json)
    let payload = record r { content = drop meta_len body }
    ok (
      meta,
      decrypt_chunks aead key prefix e2e_chunk_size (suc (length payload.content)) payload 1,
    )
