-- ===== src/Client/Disk.antt =====
-- The files of the user by their paths.
use send_to.Prelude.{
  ◌≡◌, refl, Option, none, some, List, [], ◌∷◌, Bytes, arith, eq_bytes, eq_bytes_iff, if◌then◌else◌,
}

abbrev pub Disk : Type 0
Disk = List (Bytes × Bytes)

unfoldable pub lookup : Bytes → Disk → Option Bytes
lookup p [] = none
lookup p ((q, content) ∷ disk) = if eq_bytes q p then some content else lookup p disk

unfoldable pub remove : Bytes → Disk → Disk
remove p [] = []
remove p ((q, content) ∷ disk) =
    let rest = remove p disk in if eq_bytes q p then rest else (q, content) ∷ rest

unfoldable pub put : Bytes → Bytes → Disk → Disk
put p content disk = (p, content) ∷ disk

pub lookup-remove :
    (p q : Bytes) (disk : Disk)
    → lookup q (remove p disk) ≡ (if eq_bytes p q then none else lookup q disk)
unfolding lookup remove
lookup-remove p q [] = ground arith
lookup-remove p q ((r, content) ∷ disk) =
    ground (arith, lookup-remove p q disk, eq_bytes_iff r p, eq_bytes_iff r q, eq_bytes_iff p q)

pub lookup-put :
    (p q content : Bytes) (disk : Disk)
    → lookup q (put p content disk) ≡ (if eq_bytes p q then some content else lookup q disk)
unfolding lookup put
lookup-put p q content disk = refl
