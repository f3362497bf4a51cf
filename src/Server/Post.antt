-- ===== src/Server/Post.antt =====
-- Postconditions of handlers: one predicate for going on, one for an answer. A proof that holds of
-- `m w` says in particular which of the two happens.
use send_to.Prelude.{ℕ, ◌≡◌, Option, none, some}
use send_to.Server.Exec.{
  World, Exec, Reply, next, answered, Answer, refused, session_at, offset_at, stored, stored_all,
  served, not_modified, collected, redirected, listed, plain, bind_reply, ◌>>=◌,
}

abbrev pub Post {ℓ κ} :
    {A : Type ℓ} → (A → World → Type κ) → (Answer → World → Type κ) → Reply A × World → Type κ
Post N R (next a, w) = N a w
Post N R (answered r, w) = R r w

module _ {ℓ κ} {A : Type ℓ} {N N' : A → World → Type κ} {R R' : Answer → World → Type κ} where
  pub Post-mono :
      (x : Reply A × World)
      → ((a : A) (w : World) → N a w → N' a w)
      → ((r : Answer) (w : World) → R r w → R' r w)
      → Post N R x
      → Post N' R' x
  Post-mono (next a, w) n r h = n a w h
  Post-mono (answered r', w) n r h = r r' w h

pub Post-and {ℓ κ} :
    {A : Type ℓ} (N N' : A → World → Type κ) (R : Answer → World → Type κ) (x : Reply A × World)
    → Post N R x
    → Post N' R x
    → Post (λ a w. N a w × N' a w) R x
Post-and N N' R (next a, w) h k = (h, k)
Post-and N N' R (answered r, w) h k = h

module _ {ℓ ℓ' κ} {A : Type ℓ} {B : Type ℓ'} where
  -- the rule for `>>=`: what the first part leaves is what the second starts from
  pub Post-bind :
      {N : A → World → Type κ} {R : Answer → World → Type κ} (N' : B → World → Type κ)
      (R' : Answer → World → Type κ) (x : Reply A × World) (f : A → Exec B)
      → Post N R x
      → ((a : A) (w : World) → N a w → Post N' R' (f a w))
      → ((r : Answer) (w : World) → R r w → R' r w)
      → Post N' R' (bind_reply x f)
  Post-bind N' R' (next a, w) f h n r = n a w h
  Post-bind N' R' (answered r', w) f h n r = r r' w h

-- the `Upload-Offset` header of an answer
abbrev pub offset_of : Answer → Option ℕ
offset_of (refused status msg o) = o
offset_of (session_at status url o) = some o
offset_of (offset_at status o) = some o
offset_of (stored result) = none
offset_of (stored_all results) = none
offset_of (served download) = none
offset_of (not_modified etag max_age) = none
offset_of (listed entries) = none
offset_of (collected status token collection) = none
offset_of (redirected files) = none
offset_of (plain status) = none

-- Whatever the state: the part goes on only with P, and an answer of it has no `Upload-Offset`.
abbrev pub Silent {ℓ} : {A : Type ℓ} → Type 0 → Exec A → Type 0
Silent P m = (w : World) → Post (λ _ _. P) (λ a _. offset_of a ≡ none) (m w)

pub Silent-bind {ℓ ℓ'} :
    {A : Type ℓ} {B : Type ℓ'} (P : Type 0) (m : Exec A) (f : A → Exec B)
    → Silent Unit m
    → ((a : A) → Silent P (f a))
    → Silent P (m >>= f)
Silent-bind P m f h k w =
    Post-bind (λ _ _. P) (λ a _. offset_of a ≡ none) (m w) f (h w) (λ a w' _. k a w') (λ a w' e. e)

-- As `Silent`, and the files are the same where the part goes on.
abbrev pub Keeps {ℓ} : {A : Type ℓ} → Exec A → Type 0
Keeps m = (w : World) → Post (λ _ w'. w'.files ≡ w.files) (λ a _. offset_of a ≡ none) (m w)
