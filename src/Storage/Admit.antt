-- ===== src/Storage/Admit.antt =====
-- What Reserve admits, and the arithmetic of the budget without overflow.
use n0ding.Prelude.{
  zero, suc, Bool-cases, inl, inr, ltb, min_ℤ, ◌||◌, ◌&&◌, *ℤ-pos, +ℤ-pos, int64-pos, ap, ℕ, ◌+◌,
  ◌*◌, ◌/◌, ◌%◌, ◌≤◌, ◌<◌, ℤ, pos, negsuc, pos_part, neg_part, ◌+ℤ◌, ◌-ℤ◌, ◌/ℤ◌, ◌%ℤ◌, int64,
  max_int64, InInt64, Bool, false, arith, ◌≡◌, ◌↔◌, refl, if◌then◌else◌, leb, ltb_ℤ,
}
use n0ding.Storage.{Controller, saturating_add, exceeds_available, scale_basis_points, must_bypass}

-- An int64 that is not negative.
abbrev pub InRange : ℤ → Type 0
InRange z = (neg_part z ≡ 0) × (pos_part z ≤ max_int64)

-- On amounts that are not negative the sum is exact up to the largest int64, where it stays.
pub saturating_add-min :
    (a b : ℕ)
    → a ≤ max_int64
    → b ≤ max_int64
    → saturating_add (pos a) (pos b) ≡ pos (if leb (a + b) max_int64 then a + b else max_int64)
unfolding saturating_add int64 ◌+ℤ◌ ◌-ℤ◌
saturating_add-min a b ha hb = ground arith

pub exceeds_available_iff :
    (l u r : ℕ)
    → l ≤ max_int64
    → u ≤ max_int64
    → r ≤ max_int64
    → exceeds_available (pos l) (pos u) (pos r) ≡ ltb_ℤ (pos l) (pos (u + r))
unfolding exceeds_available int64 ◌-ℤ◌
exceeds_available_iff l u r hl hu hr = ground arith

-- The quotient and the remainder, scaled apart, make the scaled whole.
scaled_parts : (v bp : ℕ) → v / 10000 * bp + v % 10000 * bp / 10000 ≡ v * bp / 10000
scaled_parts v bp = omega (arith, ap (λ (t : ℕ). t * bp) (whole v))
  where
    whole : (v : ℕ) → v ≡ v / 10000 * 10000 + v % 10000
    whole v = omega arith

scaled_bounds :
    (v bp : ℕ)
    → bp ≤ 10000
    → (v / 10000 * bp ≤ v) × (v % 10000 * bp ≤ 100000000) × (v * bp / 10000 ≤ v)
scaled_bounds v bp h = (grind arith, grind arith, grind arith)

-- For a size and a fraction of at most 1 nothing overflows, and the result is rounded down.
pub scale_basis_points-div :
    (v bp : ℕ)
    → v ≤ max_int64
    → bp ≤ 10000
    → scale_basis_points (pos v) (pos bp) ≡ pos (v * bp / 10000)
unfolding scale_basis_points ◌/ℤ◌ ◌%ℤ◌
scale_basis_points-div v bp hv hb =
    rw
      (
        *ℤ-pos,
        *ℤ-pos,
        int64-pos (v / 10000 * bp) (omega (arith, b)),
        int64-pos (v % 10000 * bp) (omega (arith, b)),
        +ℤ-pos,
        scaled_parts v bp,
      )
      (int64-pos _ (omega (arith, b)))
  where
    b : (v / 10000 * bp ≤ v) × (v % 10000 * bp ≤ 100000000) × (v * bp / 10000 ≤ v)
    b = scaled_bounds v bp hb

-- The settings and the two amounts of a controller are int64 that are not negative.
pub record IsWellFormed (c : Controller) : Type 0 where
  pub max_range : InRange c.max_bytes
  pub min_free_range : InRange c.min_free_bytes
  pub committed_range : InRange c.committed_bytes
  pub reserved_range : InRange c.reserved_bytes

-- The object fits in the budget and leaves the filesystem its minimum.
pub record Fits (bytes free : ℤ) (c : Controller) : Type 0 where
  pub positive : 0 < pos_part bytes
  pub in_budget :
      0 < pos_part c.max_bytes
      → pos_part c.committed_bytes + pos_part c.reserved_bytes + pos_part bytes
        ≤ pos_part c.max_bytes
  pub leaves_free :
      0 < pos_part c.min_free_bytes
      → pos_part c.reserved_bytes + pos_part bytes + pos_part c.min_free_bytes ≤ pos_part free

pub as_pos : (z : ℤ) → InRange z → z ≡ pos (pos_part z)
as_pos (pos n) h = refl
as_pos (negsuc n) h = absurd (omega arith)

budget_test :
    (m u r b : ℕ)
    → m ≤ max_int64
    → u ≤ max_int64
    → r ≤ max_int64
    → b ≤ max_int64
    → 0 < b
    → exceeds_available (pos m) (saturating_add (pos u) (pos r)) (pos b) ≡ ltb m (u + r + b)
unfolding exceeds_available int64 ◌-ℤ◌
budget_test m u r b hm hu hr hb h = rw (saturating_add-min u r hu hr) (ground arith)

filesystem_test :
    (free r k b : ℕ)
    → free ≤ max_int64
    → r ≤ max_int64
    → k ≤ max_int64
    → b ≤ max_int64
    → 0 < k
    → 0 < b
    → exceeds_available (int64 (pos free -ℤ min_ℤ (pos r) (pos free))) (pos k) (pos b)
      ≡ ltb free (r + b + k)
unfolding exceeds_available int64 ◌-ℤ◌
filesystem_test free r k b hf hr hk hb h p = ground arith

-- The two tests of Reserve on plain numbers.
abbrev over_budget : ℕ → ℕ → ℕ → ℕ → Bool
over_budget max used reserved b = ltb 0 max && ltb max (used + reserved + b)

abbrev short_of_space : ℕ → ℕ → ℕ → ℕ → Bool
short_of_space min_free free reserved b = ltb 0 min_free && ltb free (reserved + b + min_free)

must_bypass_tests :
    (m k u r b free : ℕ) (c : Controller)
    → c.max_bytes ≡ pos m
    → c.min_free_bytes ≡ pos k
    → c.committed_bytes ≡ pos u
    → c.reserved_bytes ≡ pos r
    → m ≤ max_int64
    → k ≤ max_int64
    → u ≤ max_int64
    → r ≤ max_int64
    → b ≤ max_int64
    → free ≤ max_int64
    → 0 < b
    → must_bypass (pos b) (pos free) c ≡ (over_budget m u r b || short_of_space k free r b)
unfolding must_bypass
must_bypass_tests m k u r b free c em ek eu er hm hk hu hr hb hf p =
    rw (em, ek, eu, er, budget_test m u r b hm hu hr hb p)
      (elim (Bool-cases (ltb 0 k)) [
        | inl pk ↦ rw (filesystem_test free r k b hf hr hk hb (ground arith) p) (ground arith)
        | inr nk ↦ rw nk (ground arith)
      ])

tests_of_wellformed :
    (b free : ℕ) (c : Controller)
    → IsWellFormed c
    → b ≤ max_int64
    → free ≤ max_int64
    → 0 < b
    → must_bypass (pos b) (pos free) c ≡ (
        over_budget
          (pos_part c.max_bytes)
          (pos_part c.committed_bytes)
          (pos_part c.reserved_bytes)
          b
        || short_of_space (pos_part c.min_free_bytes) free (pos_part c.reserved_bytes) b)
tests_of_wellformed b free c w hb hf p =
    must_bypass_tests _ _ _ _ b free c (as_pos c.max_bytes w.max_range)
      (as_pos c.min_free_bytes w.min_free_range) (as_pos c.committed_bytes w.committed_range)
      (as_pos c.reserved_bytes w.reserved_range) w.max_range.1 w.min_free_range.1
      w.committed_range.1 w.reserved_range.1 hb hf p

-- For a size that is an int64 and free space that is one and not negative: Reserve refuses a size
-- that is not positive, and admits a positive one exactly if the budget, where there is one, holds
-- what is committed, reserved and requested, and the minimum of free space, where there is one,
-- stays beside what is reserved and requested.
pub admits_iff :
    (bytes free : ℤ) (c : Controller)
    → IsWellFormed c
    → InInt64 bytes
    → InRange free
    → (must_bypass bytes free c ≡ false) ↔ Fits bytes free c
unfolding must_bypass
admits_iff (pos zero) free c w hb hf = (λ h. cc, λ h. absurd (omega arith))
admits_iff (negsuc n) free c w hb hf = (λ h. ground arith, λ h. absurd (omega arith))
admits_iff (pos (suc n)) (negsuc f) c w hb hf = absurd (omega arith)
admits_iff (pos (suc n)) (pos f) c w hb hf = (
  λ h. ground (arith, tests_of_wellformed (suc n) f c w),
  λ h. ground (arith, tests_of_wellformed (suc n) f c w),
)
