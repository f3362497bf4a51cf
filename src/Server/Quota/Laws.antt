-- ===== src/Server/Quota/Laws.antt =====
-- The storage counter: when an upload is let through, and how the counter moves.
use send_to.Prelude.{ℕ, ◌+◌, ◌^◌, ◌<◌, ◌≤◌, ◌≡◌, ◌↔◌, true, arith}
use send_to.Server.Types.{Config}
use send_to.Server.Quota.{allows, add_used, sub_used}

module _ (c : Config) (limited : 0 < c.max_storage_size) (fits : c.max_storage_size < 2 ^ 63) where
  -- With a limit in force, and as long as the sum of the counter and the request is below 2^63,
  -- `allows` lets a request through exactly when the sum is within the limit.
  pub allows_iff :
      (used n : ℕ) → used + n < 2 ^ 63 → (allows c used n ≡ true) ↔ (used + n ≤ c.max_storage_size)
  unfolding allows
  allows_iff used n h = ground arith

  -- Where the sum is at or past 2^63 and the summands are int64, it wraps to a negative number, and
  -- the request is let through whatever the limit.
  pub allows_wrapped :
      (used n : ℕ) → used < 2 ^ 63 → n < 2 ^ 63 → 2 ^ 63 ≤ used + n → allows c used n ≡ true
  unfolding allows
  allows_wrapped used n hu hn h = ground arith

  -- A request that is let through and then counted keeps the counter within the limit, taking the
  -- upload away again restores the counter, and a removal never takes it below zero or raises it.
  pub sub_used-add_used :
      (used n : ℕ)
      → used + n < 2 ^ 63
      → allows c used n ≡ true
      → (add_used c used n ≤ c.max_storage_size)
        × (sub_used c (add_used c used n) n ≡ used)
        × (sub_used c used n ≤ used)
  unfolding allows add_used sub_used
  sub_used-add_used used n h ok = ground arith
