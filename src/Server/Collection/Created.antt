-- ===== src/Server/Collection/Created.antt =====
-- server/collection.go: what a collection that is created holds.
use send_to.Prelude.{
  ℕ, ◌+◌, ◌<◌, ◌≤◌, ◌≡◌, refl, false, Option, none, some, List, [], ◌∷◌, Bytes, arith, length,
  Bool-cases, inl, inr,
}
use send_to.Server.Exec.{
  World, Exec, Answer, refused, session_at, offset_at, stored, stored_all, served, not_modified,
  listed, collected, redirected, plain, ◌>>=◌,
}
use send_to.Server.Post.{Post, Post-bind, Post-mono}
use send_to.Server.Storage.{IoResult, good, missing, broken}
use send_to.Server.Types.{Env, Config, Metadata, CollectionFile, CollectionData}
use send_to.Server.Lifecycle.{check_metadata}
use send_to.Server.Lifecycle.Unanswered.{Unanswered, read_metadata-Unanswered, put-Unanswered}
use send_to.Server.Upload.{token}
use send_to.Server.Collection.{
  collection_max_files, key_of, has_key, parse_collection_ref, gather, add_ref, add_member,
  create_collection_handler, create_with, check_count, created, store_collection, write_collection,
  Rest,
}

abbrev member_key : CollectionFile → Bytes
member_key f = key_of (f.token, f.filename)

-- No member is among the keys, and no two members are the same upload.
abbrev pub AreDistinct : List Bytes → List CollectionFile → Type 0
AreDistinct seen [] = Unit
AreDistinct seen (f ∷ files) =
    (has_key (member_key f) seen ≡ false) × AreDistinct (member_key f ∷ seen) files

-- The answer to a request for a collection: one that has no more than the most files, none twice, or a
-- refusal.
abbrev pub IsCollection : Answer → Type 0
IsCollection (collected status t coll) =
    (status ≡ 201)
    × (0 < length coll.files)
    × (length coll.files ≤ collection_max_files)
    × AreDistinct [] coll.files
IsCollection (refused status msg o) = Unit
IsCollection (session_at status url o) = ⊥
IsCollection (offset_at status o) = ⊥
IsCollection (stored result) = ⊥
IsCollection (stored_all results) = ⊥
IsCollection (served d) = ⊥
IsCollection (not_modified etag max_age) = ⊥
IsCollection (listed entries) = ⊥
IsCollection (redirected files) = ⊥
IsCollection (plain status) = ⊥

abbrev NotYet : Answer → World → Type 0
NotYet a w = IsCollection a

module _ (env : Env) (c : Config) (proxy_path : Bytes) where
  -- what the loop over the rest of the texts gives
  abbrev Gathers : ℕ → Rest env c proxy_path → Type 0
  Gathers n rest =
      (seen : List Bytes) (w : World)
      → Post (λ files _. (length files ≤ n) × AreDistinct seen files) NotYet (rest seen w)

  add_member-Gathers :
      (n : ℕ) (rest : Rest env c proxy_path) (seen : List Bytes) (t filename : Bytes)
      (o : Option Metadata) (w : World)
      → Gathers n rest
      → has_key (key_of (t, filename)) seen ≡ false
      → Post
          (λ files _. (length files ≤ n + 1) × (0 < length files) × AreDistinct seen files)
          NotYet
          (add_member env c proxy_path rest seen t filename o w)
  add_member-Gathers n rest seen t filename none w ih new = tt
  add_member-Gathers n rest seen t filename (some m) w ih new =
      Post-bind _ NotYet (rest (key_of (t, filename) ∷ seen) w) _
        (ih (key_of (t, filename) ∷ seen) w)
        (λ files w' (few, distinct). (omega arith, omega arith, (new, distinct))) (λ a w' h. h)

  add_new-Gathers :
      (n : ℕ) (rest : Rest env c proxy_path) (seen : List Bytes) (t filename : Bytes) (w : World)
      → Gathers n rest
      → has_key (key_of (t, filename)) seen ≡ false
      → Post
          (λ files _. (length files ≤ n + 1) × (0 < length files) × AreDistinct seen files)
          NotYet
          ((check_metadata env c t filename >>= add_member env c proxy_path rest seen t filename) w)
  add_new-Gathers n rest seen t filename w ih new =
      Post-bind _ NotYet (check_metadata env c t filename w) _
        (read_metadata-Unanswered env c t filename w)
        (λ o w' _. add_member-Gathers n rest seen t filename o w' ih new) (λ a w' h. absurd h)

  add_ref-Gathers :
      (n : ℕ) (rest : Rest env c proxy_path) (seen : List Bytes) (o : Option (Bytes × Bytes))
      (w : World)
      → Gathers n rest
      → Post
          (λ files _. (length files ≤ n + 1) × AreDistinct seen files)
          NotYet
          (add_ref env c proxy_path rest seen o w)
  add_ref-Gathers n rest seen none w ih = tt
  add_ref-Gathers n rest seen (some (t, filename)) w ih =
      elim (Bool-cases (has_key (key_of (t, filename)) seen)) [
        | inl old ↦ rw old (
            Post-mono (rest seen w) (λ files w' (few, distinct). (omega arith, distinct))
              (λ a w' h. h) (ih seen w))
        | inr new ↦
            let added = add_new-Gathers n rest seen t filename w ih new in
            rw new (
              Post-mono
                ((check_metadata env c t filename
                    >>= add_member env c proxy_path rest seen t filename)
                  w)
                (λ files w' (few, some_files, distinct). (few, distinct)) (λ a w' h. h) added)
      ]

  gather-Gathers : (refs : List Bytes) → Gathers (length refs) (gather env c proxy_path refs)
  unfolding gather
  gather-Gathers [] seen w = (omega arith, tt)
  gather-Gathers (ref ∷ refs) seen w =
      Post-mono
        (add_ref env c proxy_path (gather env c proxy_path refs) seen
          (parse_collection_ref env c proxy_path ref) w)
        (λ files w' (few, distinct). (omega arith, distinct)) (λ a w' h. h)
        (add_ref-Gathers (length refs) (gather env c proxy_path refs) seen
          (parse_collection_ref env c proxy_path ref) w (gather-Gathers refs))

  -- the first text always gives a member
  first-Gathers :
      (n : ℕ) (rest : Rest env c proxy_path) (o : Option (Bytes × Bytes)) (w : World)
      → Gathers n rest
      → Post
          (λ files _. (length files ≤ n + 1) × (0 < length files) × AreDistinct [] files)
          NotYet
          (add_ref env c proxy_path rest [] o w)
  first-Gathers n rest none w ih = tt
  first-Gathers n rest (some (t, filename)) w ih = add_new-Gathers n rest [] t filename w ih refl

  created-IsCollection :
      (t : Bytes) (coll : CollectionData) (x : IoResult (Unit {0})) (w : World)
      → 0 < length coll.files
      → length coll.files ≤ collection_max_files
      → AreDistinct [] coll.files
      → Post (λ _ _. ⊥) NotYet (created env c proxy_path t coll x w)
  created-IsCollection t coll missing w some_files few distinct = tt
  created-IsCollection t coll broken w some_files few distinct = tt
  created-IsCollection t coll (good _) w some_files few distinct = (refl, some_files, few, distinct)

  Unanswered-then {ℓ} :
      {A : Type ℓ} (m : Exec A) (f : A → Exec (Unit {0})) (w : World)
      → Unanswered m
      → ((a : A) (w' : World) → Post (λ _ _. ⊥) NotYet (f a w'))
      → Post (λ _ _. ⊥) NotYet ((m >>= f) w)
  Unanswered-then m f w h k =
      Post-bind (λ _ _. ⊥) NotYet (m w) f (h w) (λ a w' _. k a w') (λ a w' e. absurd e)

  token-Unanswered : (n : ℕ) → Unanswered (token n)
  unfolding token
  token-Unanswered n w = tt

  store_collection-IsCollection :
      (coll : CollectionData) (w : World)
      → 0 < length coll.files
      → length coll.files ≤ collection_max_files
      → AreDistinct [] coll.files
      → Post (λ _ _. ⊥) NotYet (store_collection env c proxy_path coll w)
  unfolding write_collection
  store_collection-IsCollection coll w some_files few distinct =
      Unanswered-then (token c.random_token_length) _ w (token-Unanswered c.random_token_length)
        λ t w1.
          Unanswered-then (write_collection env c proxy_path t coll) _ w1 (put-Unanswered _ _ _)
            λ x w2. created-IsCollection t coll x w2 some_files few distinct

  -- what is left of the handler where the texts are neither none nor too many
  create_with-IsCollection :
      (name ref : Bytes) (refs : List Bytes) (w : World)
      → length refs + 1 ≤ collection_max_files
      → Post (λ _ _. ⊥) NotYet (create_with env c proxy_path name (ref ∷ refs) w)
  unfolding gather
  create_with-IsCollection name ref refs w few =
      Unanswered-then (token c.random_token_length) _ w (token-Unanswered c.random_token_length)
        λ first w1.
          Unanswered-then (token c.random_token_length) _ w1
            (token-Unanswered c.random_token_length)
            λ second w2.
              Post-bind (λ _ _. ⊥) NotYet
                (add_ref env c proxy_path (gather env c proxy_path refs) []
                  (parse_collection_ref env c proxy_path ref) w2)
                _
                (first-Gathers (length refs) (gather env c proxy_path refs)
                  (parse_collection_ref env c proxy_path ref) w2 (gather-Gathers refs))
                (λ files w3 (most, some_files, distinct).
                  store_collection-IsCollection _ w3 some_files (omega arith) distinct)
                (λ a w3 h. h)

  check_count_lem :
      (ref : Bytes) (refs : List Bytes) (w : World)
      → Post
          (λ _ _. length refs + 1 ≤ collection_max_files)
          NotYet
          (check_count env c proxy_path (ref ∷ refs) w)
  check_count_lem ref refs w = ground arith

  -- A request for a collection is answered, whatever its body and whatever calls of the operating
  -- system fail: with a refusal, or with 201 and a collection of at least one and at most 100 members,
  -- of which no two are the same upload.
  pub create_collection_handler-IsCollection :
      (body : Option (Bytes × List Bytes)) (w : World)
      → Post (λ _ _. ⊥) (λ a _. IsCollection a) (create_collection_handler env c proxy_path body w)
  unfolding create_collection_handler
  create_collection_handler-IsCollection none w = tt
  create_collection_handler-IsCollection (some (name, [])) w = ground arith
  create_collection_handler-IsCollection (some (name, ref ∷ refs)) w =
      Post-bind (λ _ _. ⊥) NotYet (check_count env c proxy_path (ref ∷ refs) w) _
        (check_count_lem ref refs w) (λ _ w1 few. create_with-IsCollection name ref refs w1 few)
        (λ a w1 h. h)
