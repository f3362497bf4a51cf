-- ===== src/Client/Pending/Laws.antt =====
-- client/resume.go: what is found in the file of interrupted uploads.
use send_to.Prelude.{ℕ, ◌-◌, ◌<◌, ◌≡◌, some, List, [], ◌∷◌, Bytes, arith, eq_bytes_refl}
use send_to.Client.Pending.{PendingUpload, Pending, find, put, kept, find_in, put_in, pending_ttl}

find_in-put_in : (u : PendingUpload) (l : List PendingUpload) → find_in u.key (put_in u l) ≡ some u
find_in-put_in u [] = rw (eq_bytes_refl u.key)
find_in-put_in u (v ∷ l) = ground (arith, find_in-put_in u l, eq_bytes_refl u.key)

pub find-put : (p : Pending) (u : PendingUpload) → find (put p u) u.key ≡ some u
unfolding find put
find-put p u = find_in-put_in u p.uploads

-- an entry that is found and is not too old is found in what is saved
pub find_in-kept :
    (now : ℕ) (key : Bytes) (u : PendingUpload) (l : List PendingUpload)
    → find_in key l ≡ some u
    → now - u.started_at < pending_ttl
    → find_in key (kept now l) ≡ some u
unfolding kept
find_in-kept now key u [] h young = cc
find_in-kept now key u (v ∷ l) h young = ground (arith, find_in-kept now key u l)

-- an entry that is recorded now is found in what is saved now
pub find-put-kept :
    (now : ℕ) (p : Pending) (u : PendingUpload)
    → u.started_at ≡ now
    → find (record { uploads = kept now (put p u).uploads }) u.key ≡ some u
unfolding find
find-put-kept now p u fresh =
    find_in-kept now u.key u (put p u).uploads (find-put p u) (omega arith)
