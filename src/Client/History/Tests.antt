-- ===== src/Client/History/Tests.antt =====
-- A history of two uploads.
use send_to.Prelude.{
  ℕ, ◌≡◌, refl, false, none, some, List, [], ◌∷◌, ◌++◌, Bytes, codes, length, min,
}
use mathlib.Core.List.{Perm}
use send_to.Prelude.Int.{pos}
use send_to.Prelude.Codec.{Codec, number, text, both, through, items, flag, integer, optional}
use send_to.Server.Exec.{works}
use send_to.Client.Toy.{json_file}
use send_to.Client.History.{Entry, History, history_limit, save, load_history}
use send_to.Client.History.Saved.{IsNewestFirst, load_history-save}

abbrev entry : Codec Entry
entry =
    through
      (λ (a, (b, (d, (e, (f, (g, (h, (i, j)))))))). record {
        url = a;
        delete_url = b;
        filename = d;
        size = e;
        encrypted = f;
        max_downloads = g;
        expires_at = h;
        uploaded_at = i;
        server = j;
      })
      (λ e. (
        e.url,
        (
          e.delete_url,
          (
            e.filename,
            (e.size, (e.encrypted, (e.max_downloads, (e.expires_at, (e.uploaded_at, e.server))))),
          ),
        ),
      ))
      (λ e. refl)
      (both text (
        both text (
          both text (
            both number (
              both flag
                (both (optional (pos 0) integer) (both (optional 0 number) (both number text))))))))

abbrev history : Codec History
history = through (λ l. record { entries = l }) (λ h. h.entries) (λ h. refl) (items entry)

abbrev entry_at : Bytes → ℕ → Entry
entry_at name time = record {
  url = name;
  delete_url = [];
  filename = name;
  size = 5;
  encrypted = false;
  max_downloads = none;
  expires_at = none;
  uploaded_at = time;
  server = codes "https://send.to";
}

abbrev two : History
two = record { entries = entry_at (codes "old") 3 ∷ entry_at (codes "new") 8 ∷ [] }

load_history-save_example :
    (kept dropped : List Entry) × (load_history
        (json_file history)
        works
        (save (json_file history) (record { make_dir = works; write_file = works }) two none).1
      ≡ some (record { entries = kept }))
    × Perm (kept ++ dropped) two.entries
    × IsNewestFirst (kept ++ dropped)
    × (length kept ≡ min history_limit (length two.entries))
load_history-save_example = load_history-save (json_file history) two none
