-- ===== src/Server/Collection/Tests.antt =====
-- Collections of a concrete instance.
use send_to.Prelude.{ap, true, arith, ◌≡◌, ◌≢◌, refl, some, [], ◌∷◌, Bytes, codes, eq_bytes}
use send_to.Server.Fs.{token_dir, eq_folder_iff, lookup, eq_path, eq_folder}
use send_to.Server.Exec.{World}
use send_to.Server.Storage.{stored_path}
use send_to.Server.Types.{CollectionData}
use send_to.Server.Post.{Post}
use send_to.Server.Toy.{toy_env}
use send_to.Server.Sample.{limits, shelf}
use send_to.Server.Collection.{
  collection_object, create_collection_handler, delete_collection_handler,
}
use send_to.Server.Collection.Deleted.{Tells, delete_collection_handler-Spares}
use send_to.Server.Collection.Created.{IsCollection, create_collection_handler-IsCollection}

create_collection_handler-IsCollection_example :
    Post
      (λ _ _. ⊥)
      (λ a _. IsCollection a)
      (create_collection_handler toy_env limits []
        (some (codes "notes", codes "abc/a.txt" ∷ []))
        shelf)
create_collection_handler-IsCollection_example =
    create_collection_handler-IsCollection toy_env limits []
      (some (codes "notes", codes "abc/a.txt" ∷ [])) shelf

abbrev box : CollectionData
box = record { name = codes "notes"; files = []; deletion_token = codes "secret"; created_at = 3 }

abbrev boxed : World
boxed = record shelf {
  files =
      (stored_path (codes "box") collection_object, toy_env.encode_collection box) ∷ shelf.files;
}

boxed_box :
    lookup (stored_path (codes "box") collection_object) boxed.files
    ≡ some (toy_env.encode_collection box)
unfolding lookup eq_path eq_folder eq_bytes
boxed_box = refl

upload-distinct :
    (name : Bytes) → stored_path (codes "abc") (codes "a.txt") ≢ stored_path (codes "box") name
unfolding eq_folder eq_bytes
upload-distinct name e =
    let same : eq_folder (token_dir (codes "abc")) (token_dir (codes "box")) ≡ true =
      (eq_folder_iff (token_dir (codes "abc")) (token_dir (codes "box"))).1
        (ap (λ p. p.folder) e) in
    ground arith

delete_collection_handler-Spares_example :
    Post
      (λ _ _. ⊥)
      (λ a w'.
        (lookup (stored_path (codes "abc") (codes "a.txt")) w'.files
          ≡ lookup (stored_path (codes "abc") (codes "a.txt")) boxed.files)
        × Tells toy_env limits []
            (codes "box")
            (codes "secret")
            box
            (stored_path (codes "abc") (codes "a.txt"))
            a
            w')
      (delete_collection_handler toy_env limits [] (codes "box") (codes "secret") boxed)
delete_collection_handler-Spares_example =
    delete_collection_handler-Spares toy_env limits [] (codes "box") (codes "secret") box
      (stored_path (codes "abc") (codes "a.txt")) boxed (upload-distinct _) (upload-distinct _)
      boxed_box
