-- ===== src/Client/Toy.antt =====
-- Services of the client for concrete runs.
use send_to.Prelude.{
  ◌-◌, ◌∙◌, arith, length, take, take-append, length-append, ◌≡◌, refl, ap, some, [], ◌∷◌, ◌++◌,
  Bytes,
}
use send_to.Prelude.Codec.{Codec, number, text, both, through, items, read_whole, read_whole-whole}
use send_to.E2e.Toy.{toy_aead, toy_json}
use send_to.E2e.Key.{KeyText}
use send_to.Client.Pending.{PendingUpload, Pending, JsonFile}
use send_to.Client.Upload.{Services}

abbrev pub plain_text : KeyText
plain_text = record {
  encode = λ key. key;
  decode = λ s. some s;
  trim_space = λ s. s;
  decode-encode = λ key. refl;
  trim_space-encode = λ key. refl;
}

-- the last byte is taken off
abbrev unread : Bytes → Bytes
unread s = take (length s - 1) s

pub unread-newline : (s : Bytes) → unread (s ++ 10 ∷ []) ≡ s
unread-newline s =
    take-append (length (s ++ 10 ∷ []) - 1) s (10 ∷ []) (omega (arith, length-append s (10 ∷ [])))

abbrev pub json_file : {A : Type 0} → Codec A → JsonFile A
json_file a = record {
  marshal = λ x. a.enc x [];
  unmarshal = λ s. read_whole a (unread s);
  unmarshal-marshal = λ x. ap (read_whole a) (unread-newline (a.enc x [])) ∙ read_whole-whole a x;
}

abbrev pub pending_upload : Codec PendingUpload
pending_upload =
    through
      (λ (a, (b, (d, (e, (f, (g, (h, (i, (j, k))))))))). record {
        key = a;
        session_url = b;
        server = d;
        path = e;
        name = f;
        size = g;
        length = h;
        e2e_key = i;
        e2e_prefix = j;
        started_at = k;
      })
      (λ u. (
        u.key,
        (
          u.session_url,
          (
            u.server,
            (u.path, (u.name, (u.size, (u.length, (u.e2e_key, (u.e2e_prefix, u.started_at)))))),
          ),
        ),
      ))
      (λ u. refl)
      (both text (
        both text (
          both text
            (both text (both text (both number (both number (both text (both text number)))))))))

abbrev pub pending : Codec Pending
pending = through (λ l. record { uploads = l }) (λ p. p.uploads) (λ p. refl) (items pending_upload)

abbrev pub toy_services : Services
toy_services = record {
  aead = toy_aead;
  json = toy_json;
  text = plain_text;
  pending_json = json_file pending;
  digest = λ s. s;
  type_of = λ name. [];
}
