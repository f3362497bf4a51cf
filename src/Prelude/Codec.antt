-- ===== src/Prelude/Codec.antt =====
-- Values as lists of numbers, each text behind its length: a form of the stored records for concrete runs.
use Prim.Native.Nat.{ℕ, zero, suc}
use mathlib.Core.Path.{◌≡◌, refl, ap}
use mathlib.Core.Bool.{Bool, true, false}
use mathlib.Core.Option.{Option, none, some}
use mathlib.Core.List.{List, [], ◌∷◌, ◌++◌}
use send_to.Prelude.Lists.{length, take, drop, take-append, drop-append}
use send_to.Prelude.Text.{Bytes}
use send_to.Prelude.Int.{ℤ, pos, negsuc}

pub record Codec (A : Type 0) : Type 0 where
  pub enc : A → Bytes → Bytes
  pub dec : Bytes → A × Bytes
  pub dec-enc : (a : A) (rest : Bytes) → dec (enc a rest) ≡ (a, rest)

abbrev pub number : Codec ℕ
number = record {
  enc = λ n rest. n ∷ rest;
  dec = λ s. elim s [ [] ↦ (0, []) | n ∷ rest ↦ (n, rest) ];
  dec-enc = λ n rest. refl;
}

abbrev pub text : Codec Bytes
text = record {
  enc = λ s rest. length s ∷ (s ++ rest);
  dec = λ s. elim s [ [] ↦ ([], []) | n ∷ rest ↦ (take n rest, drop n rest) ];
  dec-enc = λ s rest. rw (take-append (length s) s rest refl, drop-append (length s) s rest refl);
}

abbrev pub both : {A B : Type 0} → Codec A → Codec B → Codec (A × B)
both a b = record {
  enc = λ p rest. a.enc p.0 (b.enc p.1 rest);
  dec = λ s. let first = a.dec s in let second = b.dec first.1 in ((first.0, second.0), second.1);
  dec-enc = λ p rest. rw (a.dec-enc p.0 (b.enc p.1 rest), b.dec-enc p.1 rest);
}

abbrev pub through :
    {A B : Type 0} (to : A → B) (from : B → A) → ((b : B) → to (from b) ≡ b) → Codec A → Codec B
through to from same a = record {
  enc = λ b rest. a.enc (from b) rest;
  dec = λ s. let found = a.dec s in (to found.0, found.1);
  dec-enc = λ b rest. rw (a.dec-enc (from b) rest, same b);
}

abbrev pub tagged : ℕ × ℕ → ℤ
tagged (zero, n) = pos n
tagged (suc k, n) = negsuc n

abbrev pub tag : ℤ → ℕ × ℕ
tag (pos n) = (0, n)
tag (negsuc n) = (1, n)

pub tagged-tag : (z : ℤ) → tagged (tag z) ≡ z
tagged-tag (pos n) = refl
tagged-tag (negsuc n) = refl

abbrev pub integer : Codec ℤ
integer = through tagged tag tagged-tag (both number number)

abbrev pub present : {A : Type 0} → ℕ × A → Option A
present (zero, a) = none
present (suc k, a) = some a

abbrev pub to_option : {A : Type 0} → A → Option A → ℕ × A
to_option default none = (0, default)
to_option default (some a) = (1, a)

pub present-to_option :
    {A : Type 0} (default : A) (o : Option A) → present (to_option default o) ≡ o
present-to_option default none = refl
present-to_option default (some a) = refl

abbrev pub optional : {A : Type 0} → A → Codec A → Codec (Option A)
optional default a = through present (to_option default) (present-to_option default) (both number a)

abbrev pub to_bool : ℕ → Bool
to_bool zero = false
to_bool (suc n) = true

abbrev pub from_bool : Bool → ℕ
from_bool true = 1
from_bool false = 0

pub to_bool-from_bool : (b : Bool) → to_bool (from_bool b) ≡ b
to_bool-from_bool true = refl
to_bool-from_bool false = refl

abbrev pub flag : Codec Bool
flag = through to_bool from_bool to_bool-from_bool number

abbrev pub dec_items : {A : Type 0} → (Bytes → A × Bytes) → ℕ → Bytes → List A × Bytes
dec_items dec zero s = ([], s)
dec_items dec (suc n) s =
    let found = dec s in let rest = dec_items dec n found.1 in (found.0 ∷ rest.0, rest.1)

abbrev pub enc_items : {A : Type 0} → (A → Bytes → Bytes) → List A → Bytes → Bytes
enc_items enc [] rest = rest
enc_items enc (a ∷ l) rest = enc a (enc_items enc l rest)

pub dec_items-enc_items :
    {A : Type 0} (a : Codec A) (l : List A) (rest : Bytes)
    → dec_items a.dec (length l) (enc_items a.enc l rest) ≡ (l, rest)
dec_items-enc_items a [] rest = refl
dec_items-enc_items a (x ∷ l) rest =
    rw (a.dec-enc x (enc_items a.enc l rest), dec_items-enc_items a l rest)

abbrev pub items : {A : Type 0} → Codec A → Codec (List A)
items a = record {
  enc = λ l rest. length l ∷ enc_items a.enc l rest;
  dec = λ s. elim s [ [] ↦ ([], []) | n ∷ rest ↦ dec_items a.dec n rest ];
  dec-enc = λ l rest. dec_items-enc_items a l rest;
}

abbrev pub whole : {A : Type 0} → Codec A → A → Bytes
whole a x = a.enc x []

abbrev pub read_whole : {A : Type 0} → Codec A → Bytes → Option A
read_whole a s = some (a.dec s).0

pub read_whole-whole : {A : Type 0} (a : Codec A) (x : A) → read_whole a (whole a x) ≡ some x
read_whole-whole a x = ap (λ p. some p.0) (a.dec-enc x [])
