-- ===== src/Repository.antt =====
-- internal/repository/repository.go: what a proxy shows of itself on the pages of the server.
use n0ding.Prelude.{ℕ, ◌+◌, ◌%◌, ◌^◌, ℤ, pos, Text, if◌then◌else◌, ◌==◌}
use n0ding.Config.Settings.{Float, finite}

pub record Snapshot : Type 0 where
  pub name : Text
  pub kind : Text
  pub path : Text
  pub upstream : Text
  pub requests : ℕ
  pub cache_hits : ℕ
  pub cache_misses : ℕ
  pub errors : ℕ
  pub client_canceled : ℕ
  pub range_requests : ℕ
  pub hit_ratio : Float
  pub storage_bytes : ℤ
  pub cache_objects : ℤ

-- The field HitRatio of the three proxies, given the quotient of two numbers as floats.
unfoldable pub hit_ratio_of : (ℕ → ℕ → Float) → ℕ → ℕ → Float
hit_ratio_of quotient hits misses =
    let all = (hits + misses) % 2 ^ 64 in if all == 0 then finite (pos 0) else quotient hits all
