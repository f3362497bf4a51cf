-- ===== src/Server/Quota.antt =====
-- server/quota.go. An int64 that is not negative is a number below 2^63; a sum of two of them is the
-- 64-bit pattern, which reads as negative from 2^63 on.
pub mod Laws
use send_to.Prelude.{
  ℕ, ◌+◌, ◌-◌, ◌/◌, ◌%◌, ◌^◌, Bool, true, false, ◌&&◌, ◌||◌, Option, none, some, List, [], ◌∷◌, ltb,
  leb, ◌==◌, if◌then◌else◌,
}
use send_to.Server.Fs.{folder_size, session_dir, temp_dir}
use send_to.Server.Exec.{
  World, Metrics, Fault, works, fails, Exec, Reply, next, pure, gets, modify, answer, refused,
  MsgId, msg_server_full, msg_upload_quota, msg_spool_full, system_call, upload_error, ◌>>=◌, ◌>>◌,
}
use send_to.Server.Types.{Config}

-- a + b in int64, and x <= y for an int64 pattern x and a y that is not negative
abbrev pub add_int64 : ℕ → ℕ → ℕ
add_int64 a b = (a + b) % 2 ^ 64

abbrev pub le_int64 : ℕ → ℕ → Bool
le_int64 x y = leb (2 ^ 63) x || leb x y

module _ (c : Config) where
  -- `initStorageQuota` makes a counter only if there is a limit.
  abbrev pub enabled : Bool
  enabled = ltb 0 c.max_storage_size

  unfoldable pub allows : ℕ → ℕ → Bool
  allows used n = if enabled then le_int64 (add_int64 used n) c.max_storage_size else true

  unfoldable pub add_used : ℕ → ℕ → ℕ
  add_used used n = if enabled && ltb 0 n then add_int64 used n else used

  -- The loop ends at once when no other goroutine writes between.
  unfoldable pub sub_used : ℕ → ℕ → ℕ
  sub_used used n = if enabled && ltb 0 n then (if ltb used n then 0 else used - n) else used

  unfoldable pub check_storage_quota : ℕ → Exec (Unit {0})
  check_storage_quota content_length = do
    used ← gets (λ w. w.quota_used)
    if allows used content_length then pure tt else upload_error 507 msg_server_full

  -- the answer of `rate.Limiter.AllowN`
  abbrev next_allowance : Exec Bool
  next_allowance w = elim w.allowances [
    | [] ↦ (next true, w)
    | b ∷ bs ↦ (next b, record w { allowances = bs })
  ]

  -- `allowN` refuses at once what is more than the bucket holds; a sum that has wrapped is negative.
  unfoldable pub allow_n : ℕ → ℕ → Exec Bool
  allow_n burst n =
      let sum = add_int64 n 1023 in
      if ltb sum (2 ^ 63) && ltb burst (sum / 1024) then pure false else next_allowance

  abbrev with_budget : Option ℕ → ℕ → Exec (Unit {0})
  with_budget none n = pure tt
  with_budget (some burst) n = if n == 0 then pure tt else do
    allowed ← allow_n burst n
    if allowed then pure tt else (do
      modify (λ w. record w {
        metrics = record w.metrics { rate_limited = w.metrics.rate_limited + 1 };
      })
      upload_error 429 msg_upload_quota)

  unfoldable pub check_upload_budget : ℕ → Exec (Unit {0})
  check_upload_budget n = with_budget c.upload_budget n

  -- a folder that cannot be read is passed over
  abbrev counted : Fault → ℕ → ℕ
  counted works n = n
  counted (fails _) n = 0

  unfoldable pub temp_usage : Exec ℕ
  temp_usage = do
    first ← system_call
    spooled ← gets (λ w. counted first (folder_size temp_dir w.files))
    second ← system_call
    sessions ← gets (λ w. counted second (folder_size session_dir w.files))
    pure (spooled + sessions)

  -- a negative request, as of a body of unknown length, asks for no space
  abbrev pub not_negative : ℕ → ℕ
  not_negative n = if ltb n (2 ^ 63) then n else 0

  unfoldable pub check_temp_quota : ℕ → Exec (Unit {0})
  check_temp_quota n = if c.max_temp_size == 0 then pure tt else do
    used ← temp_usage
    if le_int64 (add_int64 used (not_negative n)) c.max_temp_size
        then pure tt
        else upload_error 507 msg_spool_full
