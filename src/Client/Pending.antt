-- ===== src/Client/Pending.antt =====
-- client/resume.go: the file of interrupted uploads, `uploads.json`. Times are in seconds. The parts of
-- the model that read and write files of the user take the outcomes of the calls as arguments.
pub mod Laws
use send_to.Prelude.{
  ℕ, ◌+◌, ◌-◌, ◌*◌, ◌≡◌, Bool, true, false, Option, none, some, List, [], ◌∷◌, ◌++◌, Bytes,
  eq_bytes, ltb, if◌then◌else◌, take,
}
use send_to.Prelude.Decimal.{format}
use send_to.Server.Exec.{Fault, works, fails}

-- 24 hours
abbrev pub pending_ttl : ℕ
pending_ttl = 24 * 3600

pub record PendingUpload : Type 0 where
  pub key : Bytes
  pub session_url : Bytes
  pub server : Bytes
  pub path : Bytes
  pub name : Bytes
  pub size : ℕ
  pub length : ℕ
  pub e2e_key : Bytes
  pub e2e_prefix : Bytes
  pub started_at : ℕ

pub record Pending : Type 0 where
  pub uploads : List PendingUpload

-- encoding/json at a type whose values it can write: what it writes, with the newline behind it, it
-- reads back
pub record JsonFile (A : Type 0) : Type 0 where
  pub marshal : A → Bytes
  pub unmarshal : Bytes → Option A
  pub unmarshal-marshal : (a : A) → unmarshal (marshal a ++ 10 ∷ []) ≡ some a

-- The calls of the operating system when a file is saved: `ConfigDir` with `os.MkdirAll`, and
-- `os.WriteFile`, which empties the file before it writes.
pub record SaveCalls : Type 0 where
  pub make_dir : Fault
  pub write_file : Fault

abbrev write_with : Fault → Bytes → Bool × Option Bytes
write_with works content = (true, some content)
write_with (fails n) content = (false, some (take n content))

-- whether the file is saved, and the file behind the call
abbrev pub save_bytes : SaveCalls → Bytes → Option Bytes → Bool × Option Bytes
save_bytes calls content file = elim calls.make_dir [
  | works ↦ write_with calls.write_file content
  | fails n ↦ (false, file)
]

abbrev pub or_empty {ℓ} : {A : Type ℓ} → A → Option A → A
or_empty empty none = empty
or_empty empty (some a) = a

-- a file is read, or its absence or its damage counts as the empty value; `none` is any other error
abbrev pub load_bytes {ℓ} : {A : Type ℓ} → A → (Bytes → Option A) → Fault → Option Bytes → Option A
load_bytes empty decode (fails n) file = none
load_bytes empty decode works none = some empty
load_bytes empty decode works (some content) = some (or_empty empty (decode content))

-- `PendingKey`; `digest` is SHA-256, of which the first 12 bytes are written in base64
unfoldable pub pending_key : (Bytes → Bytes) → Bytes → Bytes → ℕ → ℕ → Bytes
pending_key digest server abs_path size mod_time =
    digest (server ++ 0 ∷ (abs_path ++ 0 ∷ (format size ++ 0 ∷ format mod_time)))

abbrev no_uploads : Pending
no_uploads = record { uploads = [] }

unfoldable pub load_pending : JsonFile Pending → Fault → Option Bytes → Option Pending
load_pending json read file = load_bytes no_uploads json.unmarshal read file

-- what `Save` keeps
unfoldable pub kept : ℕ → List PendingUpload → List PendingUpload
kept now [] = []
kept now (u ∷ uploads) =
    let rest = kept now uploads in if ltb (now - u.started_at) pending_ttl then u ∷ rest else rest

unfoldable pub save :
    JsonFile Pending → ℕ → SaveCalls → Pending → Option Bytes → Bool × Option Bytes
save json now calls p file =
    save_bytes calls (json.marshal (record { uploads = kept now p.uploads }) ++ 10 ∷ []) file

-- The entries in memory behind `Save`: where the directory cannot be made, nothing is dropped.
unfoldable pub after_save : ℕ → SaveCalls → Pending → Pending
unfolding kept
after_save now calls p = elim calls.make_dir [
  | works ↦ record { uploads = kept now p.uploads }
  | fails n ↦ p
]

abbrev pub find_in : Bytes → List PendingUpload → Option PendingUpload
find_in key [] = none
find_in key (u ∷ uploads) = if eq_bytes u.key key then some u else find_in key uploads

unfoldable pub find : Pending → Bytes → Option PendingUpload
find p key = find_in key p.uploads

-- the first entry with the key is replaced, or the new one stands at the end
abbrev put_in : PendingUpload → List PendingUpload → List PendingUpload
put_in u [] = u ∷ []
put_in u (v ∷ uploads) =
    let rest = put_in u uploads in if eq_bytes v.key u.key then u ∷ uploads else v ∷ rest

unfoldable pub put : Pending → PendingUpload → Pending
put p u = record { uploads = put_in u p.uploads }

abbrev remove_in : Bytes → List PendingUpload → List PendingUpload
remove_in key [] = []
remove_in key (u ∷ uploads) =
    let rest = remove_in key uploads in if eq_bytes u.key key then uploads else u ∷ rest

unfoldable pub remove : Pending → Bytes → Pending
remove p key = record { uploads = remove_in key p.uploads }
