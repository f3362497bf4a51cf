-- ===== src/Server/Sample.antt =====
-- An instance with one upload, on which the handlers of server/ can be run.
use send_to.Prelude.{◌≡◌, ◌≢◌, eq_bytes, refl, false, none, some, List, [], ◌∷◌, Bytes, codes}
use send_to.Prelude.Int.{pos}
use send_to.Server.Fs.{Files, lookup, eq_path, eq_folder}
use send_to.Server.Exec.{World, Fault}
use send_to.Server.Storage.{stored_path, sidecar}
use send_to.Server.Types.{Config, Metadata, Headers}
use send_to.Server.Toy.{toy_env}
use send_to.Server.Lifecycle.Downloads.{Live}
use send_to.Server.Lifecycle.{too_old}
use send_to.Server.Session.ContentRange.Laws.{}

-- the headers of a request that sets none
abbrev pub no_headers : Headers
no_headers = record {
  max_downloads = [];
  max_days = [];
  encrypt_password = [];
  owner_token = [];
  upload_length = [];
  content_range = [];
  range = [];
  if_none_match = [];
  decrypt_password = [];
}

abbrev pub limits : Config
limits = record {
  max_upload_size = 0;
  max_storage_size = 100;
  max_temp_size = 0;
  upload_budget = none;
  perform_clamav_prescan = false;
  random_token_length = 10;
  cache_max_age = 0;
}

abbrev pub world : List Fault → Files → World
world faults files = record {
  files = files;
  faults = faults;
  now = 5;
  modified = λ p. 0;
  random = λ i. i;
  drawn = 0;
  allowances = [];
  quota_used = 5;
  last_session_sweep = 0;
  metrics = record {
    uploads = 1;
    upload_bytes = 5;
    upload_errors = 0;
    download_errors = 0;
    downloads = 0;
    download_bytes = 0;
    deletes = 0;
    expired_purged = 0;
    virus_scan_blocked = 0;
    rate_limited = 0;
  };
}

abbrev pub note : Metadata
note = record {
  content_type = codes "text/plain";
  content_length = 5;
  downloads = 0;
  max_downloads = pos 2;
  max_date = none;
  deletion_token = codes "secret";
  encrypted = false;
  decrypted_content_type = [];
  owner_hash = codes "me";
}

-- the token of the upload is not the one of the owner lists
pub not_index : codes "abc" ≢ codes ".owners"
not_index = λ e. absurd cc

abbrev pub hello : Bytes
hello = codes "hello"

abbrev pub shelf : World
shelf = world [] (
    (stored_path (codes "abc") (codes "a.txt"), hello)
    ∷ (stored_path (codes "abc") (sidecar (codes "a.txt")), toy_env.encode_metadata note)
    ∷ [])

pub shelf_file : lookup (stored_path (codes "abc") (codes "a.txt")) shelf.files ≡ some hello
unfolding lookup eq_path eq_folder eq_bytes
shelf_file = refl

pub shelf_side :
    lookup (stored_path (codes "abc") (sidecar (codes "a.txt"))) shelf.files
    ≡ some (toy_env.encode_metadata note)
unfolding lookup eq_path eq_folder eq_bytes
shelf_side = refl

pub shelf-Live : Live toy_env limits (codes "abc") (codes "a.txt") hello note 2 0 shelf
unfolding Live too_old
shelf-Live = (refl, shelf_file, shelf_side, refl)
