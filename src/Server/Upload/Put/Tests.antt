-- ===== src/Server/Upload/Put/Tests.antt =====
-- A PUT to a concrete instance.
use send_to.Prelude.{◌≡◌, refl, none, [], ◌∷◌, codes}
use send_to.Prelude.Int.{pos, negsuc}
use send_to.E2e.{Source, failed}
use send_to.Server.Exec.{works, fails, answered, refused, msg_spool_full, system_call}
use send_to.Server.Fs.{temp_dir, folder_size, eq_folder}
use send_to.Server.Quota.{check_temp_quota, temp_usage}
use send_to.Server.Types.{Request}
use send_to.Server.Toy.{toy_env}
use send_to.Server.Sample.{limits, world, hello, no_headers}
use send_to.Server.Upload.Put.{put_handler}
use send_to.Server.Upload.Put.Counts.{counters}
use send_to.Server.Upload.Put.Charge.{ChargesOn}
use send_to.Server.Upload.Put.Charged.{put_handler-Charges}

abbrev request : Request
request = record { headers = no_headers; resolve = λ parts. [] }

abbrev torn : Source
torn = record { content = hello; ending = failed }

-- A PUT of unknown length where 11 bytes are spooled and the temporary space is of 10 bytes.
no_room :
    (put_handler toy_env
      (record limits { max_temp_size = 10 })
      request
      (codes "a.txt")
      (negsuc 0)
      torn
      (world [] ((record { folder = temp_dir; name = codes "1" }, codes "hello world") ∷ []))).0
    ≡ answered (refused 507 msg_spool_full none)
unfolding put_handler check_temp_quota temp_usage folder_size system_call eq_folder
no_room = refl

put_handler-Charges_example : ChargesOn limits (counters (world (works ∷ fails 2 ∷ []) [])) (
    put_handler toy_env limits request
      (codes "a.txt")
      (pos 5)
      torn
      (world (works ∷ fails 2 ∷ []) []))
put_handler-Charges_example =
    put_handler-Charges toy_env limits request (codes "a.txt") (pos 5) torn
      (world (works ∷ fails 2 ∷ []) [])
