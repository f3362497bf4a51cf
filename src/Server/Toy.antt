-- ===== src/Server/Toy.antt =====
-- A store and the services of an instance on which the handlers of server/ can be run: the JSON records
-- are lists of numbers, each text behind its length.
use send_to.Prelude.{
  refl, none, some, ◌++◌, codes, strip_prefix, ℕ, Bytes, ◌∷◌, [], ◌≡◌, true, Bool, ◌||◌, not, all,
  ◌==◌, if◌then◌else◌, arith, Option,
}
use send_to.E2e.{eof}
use send_to.Prelude.Int.{pos}
use send_to.Prelude.Codec.{
  Codec, number, text, both, through, integer, optional, flag, items, whole, read_whole,
  read_whole-whole,
}
use send_to.Server.Types.{
  Env, Metadata, UploadSession, OwnerEntry, CollectionFile, CollectionData, clean, is_plain,
}

abbrev metadata : Codec Metadata
metadata =
    through
      (λ (a, (b, (d, (e, (f, (g, (h, (i, j)))))))). record {
        content_type = a;
        content_length = b;
        downloads = d;
        max_downloads = e;
        max_date = f;
        deletion_token = g;
        encrypted = h;
        decrypted_content_type = i;
        owner_hash = j;
      })
      (λ m. (
        m.content_type,
        (
          m.content_length,
          (
            m.downloads,
            (
              m.max_downloads,
              (
                m.max_date,
                (m.deletion_token, (m.encrypted, (m.decrypted_content_type, m.owner_hash))),
              ),
            ),
          ),
        ),
      ))
      (λ m. refl)
      (both text (
        both number (
          both number
            (both integer (both (optional 0 number) (both text (both flag (both text text))))))))

abbrev session : Codec UploadSession
session =
    through
      (λ (a, (b, (d, (e, (f, (g, (h, i))))))). record {
        id = a;
        filename = b;
        content_type = d;
        total = e;
        max_days = f;
        max_downloads = g;
        owner_hash = h;
        created_at = i;
      })
      (λ s. (
        s.id,
        (
          s.filename,
          (
            s.content_type,
            (s.total, (s.max_days, (s.max_downloads, (s.owner_hash, s.created_at)))),
          ),
        ),
      ))
      (λ s. refl)
      (both text
        (both text (both text (both number (both integer (both integer (both text number)))))))

abbrev entry : Codec OwnerEntry
entry =
    through
      (λ (a, (b, (d, (e, (f, (g, (h, (i, (j, k))))))))). record {
        url = a;
        delete_url = b;
        token = d;
        filename = e;
        size = f;
        content_type = g;
        encrypted = h;
        max_downloads = i;
        expires_at = j;
        uploaded_at = k;
      })
      (λ e. (
        e.url,
        (
          e.delete_url,
          (
            e.token,
            (
              e.filename,
              (
                e.size,
                (e.content_type, (e.encrypted, (e.max_downloads, (e.expires_at, e.uploaded_at)))),
              ),
            ),
          ),
        ),
      ))
      (λ e. refl)
      (both text (
        both text (
          both text (
            both text (
              both number (
                both text (
                  both flag
                    (both (optional (pos 0) integer) (both (optional 0 number) number)))))))))

abbrev collection_file : Codec CollectionFile
collection_file =
    through
      (λ (a, (b, (d, (e, f)))). record {
        token = a;
        filename = b;
        size = d;
        content_type = e;
        encrypted = f;
      })
      (λ f. (f.token, (f.filename, (f.size, (f.content_type, f.encrypted))))) (λ f. refl)
      (both text (both text (both number (both text flag))))

abbrev collection : Codec CollectionData
collection =
    through (λ (a, (b, (d, e))). record { name = a; files = b; deletion_token = d; created_at = e })
      (λ c. (c.name, (c.files, (c.deletion_token, c.created_at)))) (λ c. refl)
      (both text (both (items collection_file) (both text number)))

-- References are not unescaped: one with a percent sign is refused.
abbrev no_percent : ℕ → Bool
no_percent c = not (c == b'%')

unfoldable pub before_query : Bytes → Bytes
before_query [] = []
before_query (c ∷ s) =
    let rest = before_query s in if (c == b'?') || (c == b'#') then [] else c ∷ rest

unfoldable pub reference : Bytes → Option Bytes
reference s = if all no_percent s then some (before_query s) else none

before_query_plain : (s : Bytes) → all is_plain s ≡ true → before_query s ≡ s
unfolding before_query
before_query_plain [] h = refl
before_query_plain (c ∷ s) h = ground (arith, before_query_plain s)

no_percent_plain : (s : Bytes) → all is_plain s ≡ true → all no_percent s ≡ true
no_percent_plain [] h = refl
no_percent_plain (c ∷ s) h = ground (arith, no_percent_plain s)

pub reference_plain : (s : Bytes) → all is_plain s ≡ true → reference s ≡ some s
unfolding reference
reference_plain s h = rw (no_percent_plain s h, before_query_plain s h) refl

unfoldable pub toy_env : Env
toy_env = record {
  encode_metadata = whole metadata;
  decode_metadata = read_whole metadata;
  encode_session = whole session;
  decode_session = read_whole session;
  encode_index = whole (items entry);
  decode_index = read_whole (items entry);
  encode_collection = whole collection;
  decode_collection = read_whole collection;
  url_path = λ s. none;
  path_unescape = λ s. none;
  parse_reference = reference;
  parse_reference_plain = λ c s plain no_host. reference_plain (c ∷ s) plain;
  sha256_hex = λ s. s;
  encrypt = λ password content. record { content = password ++ content; ending = eof };
  decrypt = λ password content. elim (strip_prefix password content) [
    | none ↦ none
    | some plain ↦ some (record { content = plain; ending = eof })
  ];
  etag_hash = λ s. s;
  temp_name = λ files. codes "1";
  sanitize = λ s. s;
  content_type_for_filename = λ s. codes "text/plain";
  to_lower = λ s. s;
  trim_space = λ s. s;
  sanitize_html = λ s. s;
  scan = λ s. clean;
  decode-encode_metadata = read_whole-whole metadata;
  decode-encode_session = read_whole-whole session;
  decode-encode_index = read_whole-whole (items entry);
  decode-encode_collection = read_whole-whole collection;
}
