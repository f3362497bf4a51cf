-- ===== src/Server/Purge.antt =====
-- server/quota.go: the counter is set from what the backend holds; server/handlers.go: `purgeHandler`.
mod Files
mod Step
mod Sweep
pub mod Usage
pub mod Round
mod Tests
use send_to.Prelude.{ℕ, ◌^◌, Bool, true, false, ltb, if◌then◌else◌}
use send_to.Server.Exec.{World, Exec, pure, modify, ◌>>=◌, ◌>>◌}
use send_to.Server.Storage.{IoResult, good, missing, broken}
use send_to.Server.Storage.Walk.{usage, purge}
use send_to.Server.Types.{Config}
use send_to.Server.Quota.{enabled, add_used}

module _ (c : Config) where
  abbrev store_used : IoResult ℕ → Exec (Unit {0})
  store_used missing = pure tt
  store_used broken = pure tt
  store_used (good used) = modify (λ w. record w { quota_used = used })

  unfoldable pub reseed_storage_quota : Exec (Unit {0})
  reseed_storage_quota = if enabled c then usage >>= store_used else pure tt

  -- A new counter is 0; an int64 from 2^63 on is negative, and `add` passes over it.
  abbrev pub seeded : ℕ → ℕ
  seeded used = if ltb used (2 ^ 63) then add_used c 0 used else 0

  abbrev seed : IoResult ℕ → Exec (IoResult (Unit {0}))
  seed missing = pure missing
  seed broken = pure broken
  seed (good used) = do modify (λ w. record w { quota_used = seeded used }); pure (good tt)

  unfoldable pub init_storage_quota : Exec (IoResult (Unit {0}))
  init_storage_quota = if enabled c then usage >>= seed else pure (good tt)

  abbrev reseed_after : IoResult (Unit {0}) → Exec (Unit {0})
  reseed_after missing = pure tt
  reseed_after broken = pure tt
  reseed_after (good _) = reseed_storage_quota

  -- one round of the loop of `purgeHandler`
  unfoldable pub purge_round : ℕ → Exec (Unit {0})
  purge_round days = do purged ← purge days; reseed_after purged
