-- ===== src/Server/Eviction.antt =====
-- internal/httpserver/server.go: how much collectPressure evicts.
use n0ding.Prelude.{ℕ, ◌+◌, ◌≤◌, ◌<◌, ℤ, pos, List, All, ◌≡◌, ◌⊎◌}
use n0ding.Cache.Store.{Store, Candidate}

-- The candidates of a list have sizes from 0 to a bound.
abbrev pub IsSmall : ℕ → List (ℕ × Candidate) → Type 0
IsSmall m items = All (λ (x : ℕ × Candidate). (n : ℕ) × (x.1.bytes ≡ pos n) × (n ≤ m)) items

-- The bytes that have been removed for a need of `t` from candidates of at most `m`.
abbrev IsLittle : ℕ → ℕ → ℤ → Type 0
IsLittle t m z = (n : ℕ) × (z ≡ pos n) × ((n ≡ 0) ⊎ (n < t + m))
