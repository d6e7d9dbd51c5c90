-- ===== src/Storage/Watermarks.antt =====
-- Snapshot: the watermarks in bytes, and the pressure flag.
use native.Mathlib.Nat.{le_trans}
use n0ding.Prelude.{ℕ, ◌+◌, ◌*◌, ◌/◌, ◌≤◌, ◌<◌, pos, max_int64, true, arith, ◌≡◌, refl, ◌↔◌}
use n0ding.Storage.{Controller, snapshot}
use n0ding.Storage.Admit.{saturating_add-min, scale_basis_points-div}

scaled_mono :
    (m l h : ℕ) → l ≤ h → h ≤ 10000 → (m * l / 10000 ≤ m * h / 10000) × (m * h / 10000 ≤ m)
scaled_mono m l h p q = (grind arith, grind arith)

module _ (m l h u n : ℕ) (c : Controller) where
  -- For a budget of `m` bytes and watermarks of `l` ≤ `h` ≤ 10000 basis points: the two byte marks
  -- are the rounded-down fractions of the budget, the low one is at most the high one and that at
  -- most the budget, and there is pressure exactly if the budget is set and what is committed and
  -- reserved reaches the high mark.
  pub snapshot_watermarks :
      c.max_bytes ≡ pos m
      → c.low_basis_points ≡ pos l
      → c.high_basis_points ≡ pos h
      → c.committed_bytes ≡ pos u
      → c.reserved_bytes ≡ pos n
      → m ≤ max_int64
      → u ≤ max_int64
      → n ≤ max_int64
      → l ≤ h
      → h ≤ 10000
      → let s = snapshot c in
        (s.low_bytes ≡ pos (m * l / 10000))
        × (s.high_bytes ≡ pos (m * h / 10000))
        × (m * l / 10000 ≤ m * h / 10000)
        × (m * h / 10000 ≤ m)
        × ((s.pressure ≡ true) ↔ ((0 < m) × (m * h / 10000 ≤ u + n)))
  unfolding snapshot
  snapshot_watermarks em el eh eu en hm hu hn lh hh =
      let marks = scaled_mono m l h lh hh in
      rw
        (
          em,
          el,
          eh,
          eu,
          en,
          scale_basis_points-div m l hm (le_trans lh hh),
          scale_basis_points-div m h hm hh,
          saturating_add-min u n hu hn,
        )
        (refl, refl, marks.0, marks.1, (ground arith, ground arith))
