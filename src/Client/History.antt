-- ===== src/Client/History.antt =====
-- client/history.go: the list of the uploads of this machine, `history.json`. Times are in seconds.
pub mod Saved
mod Tests
use send_to.Prelude.{
  ℕ, zero, suc, ◌+◌, ◌≡◌, Bool, true, false, Option, none, some, List, [], ◌∷◌, ◌++◌, Bytes,
  eq_bytes, ltb, if◌then◌else◌, take, length,
}
use send_to.Prelude.Int.{ℤ}
use send_to.Server.Exec.{Fault, works, fails}
use send_to.Client.Pending.{JsonFile, SaveCalls, save_bytes, load_bytes}

abbrev pub history_limit : ℕ
history_limit = 500

-- `*int` and `*time.Time` fields are options.
pub record Entry : Type 0 where
  pub url : Bytes
  pub delete_url : Bytes
  pub filename : Bytes
  pub size : ℕ
  pub encrypted : Bool
  pub max_downloads : Option ℤ
  pub expires_at : Option ℕ
  pub uploaded_at : ℕ
  pub server : Bytes

pub record History : Type 0 where
  pub entries : List Entry

abbrev is_after : ℕ → Option ℕ → Bool
is_after now none = false
is_after now (some t) = ltb t now

-- `Expired`
unfoldable pub is_expired : ℕ → Entry → Bool
is_expired now e = is_after now e.expires_at

unfoldable pub load_history : JsonFile History → Fault → Option Bytes → Option History
load_history json read file = load_bytes (record { entries = [] }) json.unmarshal read file

-- `sort.SliceStable` by the time of the upload, the newest first
unfoldable pub insert : Entry → List Entry → List Entry
insert e [] = e ∷ []
insert e (f ∷ entries) =
    let rest = insert e entries in
    if ltb e.uploaded_at f.uploaded_at then f ∷ rest else e ∷ f ∷ entries

unfoldable pub sort : List Entry → List Entry
sort [] = []
sort (e ∷ entries) = insert e (sort entries)

-- the entries that `Save` writes
unfoldable pub saved_entries : List Entry → List Entry
saved_entries entries = take history_limit (sort entries)

unfoldable pub save : JsonFile History → SaveCalls → History → Option Bytes → Bool × Option Bytes
save json calls h file =
    save_bytes calls (json.marshal (record { entries = saved_entries h.entries }) ++ 10 ∷ []) file

-- The entries in memory behind `Save`: where the directory cannot be made, they stay as they were.
unfoldable pub after_save : SaveCalls → History → History
unfolding saved_entries
after_save calls h = elim calls.make_dir [
  | works ↦ record { entries = saved_entries h.entries }
  | fails n ↦ h
]

-- The fields of `Result` that are recorded.
pub record Uploaded : Type 0 where
  pub url : Bytes
  pub delete_url : Bytes
  pub filename : Bytes
  pub size : ℕ
  pub encrypted : Bool
  pub max_downloads : Option ℤ
  pub expires_at : Option ℕ

unfoldable pub add : ℕ → Bytes → Uploaded → History → History
add now server r h = record {
  entries =
      record {
        url = r.url;
        delete_url = r.delete_url;
        filename = r.filename;
        size = r.size;
        encrypted = r.encrypted;
        max_downloads = r.max_downloads;
        expires_at = r.expires_at;
        uploaded_at = now;
        server = server;
      }
      ∷ h.entries;
}

abbrev remove_in : Bytes → List Entry → List Entry × Bool
remove_in url [] = ([], false)
remove_in url (e ∷ entries) =
    let rest = remove_in url entries in
    if eq_bytes e.url url then (entries, true) else (e ∷ rest.0, rest.1)

unfoldable pub remove : Bytes → History → History × Bool
remove url h = let (rest, found) = remove_in url h.entries in (record { entries = rest }, found)

abbrev find_in : Bytes → List Entry → Option Entry
find_in url [] = none
find_in url (e ∷ entries) = if eq_bytes e.url url then some e else find_in url entries

unfoldable pub find : Bytes → History → Option Entry
find url h = find_in url h.entries

abbrev prune_in : ℕ → List Entry → List Entry × ℕ
prune_in now [] = ([], 0)
prune_in now (e ∷ entries) =
    let (rest, removed) = prune_in now entries in
    if is_expired now e then (rest, removed + 1) else (e ∷ rest, removed)

unfoldable pub prune : ℕ → History → History × ℕ
prune now h = let (kept, removed) = prune_in now h.entries in (record { entries = kept }, removed)
