-- ===== src/Prelude/Lists.antt =====
-- Lists measured and indexed by native numbers, under the library's names.
use Prim.Native.Nat.{ℕ, zero, suc, ◌+◌, ◌<◌, ◌≤◌}
use mathlib.Core.Bool.{Bool, true}
use n0ding.Prelude.Tests.{if◌then◌else◌, Bool-cases}
use mathlib.Core.Logic.{inl, inr}
use mathlib.Core.Logic.{◌≢◌}
use mathlib.Core.Path.{◌≡◌, refl, ap}
use mathlib.Core.List.{List, [], ◌∷◌, ◌++◌}
use mathlib.Core.Option.{Option, none, some}
use native.Mathlib.Omega.{arith}

module _ {ℓ} {A : Type ℓ} where
  abbrev pub length : List A → ℕ
  length [] = 0
  length (x ∷ xs) = suc (length xs)

  abbrev pub get_elem? : List A → ℕ → Option A
  get_elem? [] i = none
  get_elem? (x ∷ xs) zero = some x
  get_elem? (x ∷ xs) (suc i) = get_elem? xs i

  -- A write out of bounds changes nothing.
  abbrev pub set : List A → ℕ → A → List A
  set [] i v = []
  set (x ∷ xs) zero v = v ∷ xs
  set (x ∷ xs) (suc i) v = x ∷ set xs i v

  abbrev pub remove_at : List A → ℕ → List A
  remove_at [] i = []
  remove_at (x ∷ xs) zero = xs
  remove_at (x ∷ xs) (suc i) = x ∷ remove_at xs i

  abbrev pub take : ℕ → List A → List A
  take zero xs = []
  take (suc n) [] = []
  take (suc n) (x ∷ xs) = x ∷ take n xs

  abbrev pub drop : ℕ → List A → List A
  drop zero xs = xs
  drop (suc n) [] = []
  drop (suc n) (x ∷ xs) = drop n xs

  pub length-append : (xs ys : List A) → length (xs ++ ys) ≡ length xs + length ys
  length-append [] ys = omega arith
  length-append (x ∷ xs) ys = omega (arith, length-append xs ys)

  pub length-set : (xs : List A) (i : ℕ) (v : A) → length (set xs i v) ≡ length xs
  length-set [] i v = refl
  length-set (x ∷ xs) zero v = refl
  length-set (x ∷ xs) (suc i) v = ap suc (length-set xs i v)

  pub get_elem?-lt : (xs : List A) (i : ℕ) (a : A) → get_elem? xs i ≡ some a → i < length xs
  get_elem?-lt [] i a h = ground arith
  get_elem?-lt (x ∷ xs) zero a h = omega arith
  get_elem?-lt (x ∷ xs) (suc i) a h = omega (arith, get_elem?-lt xs i a h)

  -- The last item of a list that has been extended.
  pub get_elem?-append_last : (xs : List A) (a : A) → get_elem? (xs ++ a ∷ []) (length xs) ≡ some a
  get_elem?-append_last [] a = refl
  get_elem?-append_last (x ∷ xs) a = get_elem?-append_last xs a

  pub get_elem?-append_left :
      (xs ys : List A) (i : ℕ) → i < length xs → get_elem? (xs ++ ys) i ≡ get_elem? xs i
  get_elem?-append_left [] ys i h = elim h [ ]
  get_elem?-append_left (x ∷ xs) ys zero h = refl
  get_elem?-append_left (x ∷ xs) ys (suc i) h = get_elem?-append_left xs ys i (omega arith)

  pub get_elem?-set_self :
      (xs : List A) (i : ℕ) (v : A) → i < length xs → get_elem? (set xs i v) i ≡ some v
  get_elem?-set_self [] i v h = elim h [ ]
  get_elem?-set_self (x ∷ xs) zero v h = refl
  get_elem?-set_self (x ∷ xs) (suc i) v h = get_elem?-set_self xs i v (omega arith)

  pub get_elem?-set_ne :
      (xs : List A) (i j : ℕ) (v : A) → i ≢ j → get_elem? (set xs i v) j ≡ get_elem? xs j
  get_elem?-set_ne [] i j v h = refl
  get_elem?-set_ne (x ∷ xs) zero zero v h = absurd (h refl)
  get_elem?-set_ne (x ∷ xs) zero (suc j) v h = refl
  get_elem?-set_ne (x ∷ xs) (suc i) zero v h = refl
  get_elem?-set_ne (x ∷ xs) (suc i) (suc j) v h = get_elem?-set_ne xs i j v (λ e. h (ap suc e))

  -- How many items pass a test.
  abbrev pub count_if : (A → Bool) → List A → ℕ
  count_if p [] = 0
  count_if p (x ∷ xs) = (if p x then 1 else 0) + count_if p xs

  pub count_if-set :
      (p : A → Bool) (xs : List A) (i : ℕ) (a b : A)
      → get_elem? xs i ≡ some a
      → count_if p (set xs i b) + (if p a then 1 else 0) ≡ count_if p xs + (if p b then 1 else 0)
  count_if-set p [] i a b h = absurd (cc)
  count_if-set p (x ∷ xs) zero a b h = let e : x ≡ a = cc in rw e (omega arith)
  count_if-set p (x ∷ xs) (suc i) a b h = omega (arith, count_if-set p xs i a b h)

  pub count_if-remove_at :
      (p : A → Bool) (xs : List A) (i : ℕ) (a : A)
      → get_elem? xs i ≡ some a
      → count_if p (remove_at xs i) + (if p a then 1 else 0) ≡ count_if p xs
  count_if-remove_at p [] i a h = absurd (cc)
  count_if-remove_at p (x ∷ xs) zero a h = let e : x ≡ a = cc in rw e (omega arith)
  count_if-remove_at p (x ∷ xs) (suc i) a h = omega (arith, count_if-remove_at p xs i a h)

  pub count_if-pos :
      (p : A → Bool) (xs : List A) (i : ℕ) (a : A)
      → get_elem? xs i ≡ some a
      → p a ≡ true
      → 0 < count_if p xs
  count_if-pos p [] i a h t = absurd (cc)
  count_if-pos p (x ∷ xs) zero a h t = let e : x ≡ a = cc in rw (e, t) (omega arith)
  count_if-pos p (x ∷ xs) (suc i) a h t = omega (arith, count_if-pos p xs i a h t)

  -- If at most one item passes, two places of passing items are one.
  pub count_if_unique :
      (p : A → Bool) (xs : List A) (i j : ℕ) (a b : A)
      → get_elem? xs i ≡ some a
      → get_elem? xs j ≡ some b
      → p a ≡ true
      → p b ≡ true
      → count_if p xs ≤ 1
      → i ≡ j
  count_if_unique p [] i j a b hi hj pa pb few = absurd (cc)
  count_if_unique p (x ∷ xs) zero zero a b hi hj pa pb few = refl
  count_if_unique p (x ∷ xs) zero (suc j) a b hi hj pa pb few =
      absurd (ground (arith, count_if-pos p xs j b hj pb))
  count_if_unique p (x ∷ xs) (suc i) zero a b hi hj pa pb few =
      absurd (ground (arith, count_if-pos p xs i a hi pa))
  count_if_unique p (x ∷ xs) (suc i) (suc j) a b hi hj pa pb few =
      ap suc (count_if_unique p xs i j a b hi hj pa pb (omega arith))

  -- A count that is not 0 has an item that is counted.
  pub count_if_witness :
      (p : A → Bool) (xs : List A)
      → 0 < count_if p xs
      → (i : ℕ) × (a : A) × (get_elem? xs i ≡ some a) × (p a ≡ true)
  count_if_witness p [] h = absurd (omega arith)
  count_if_witness p (x ∷ xs) h = elim (Bool-cases (p x)) [
    | inl t ↦ (0, x, refl, t)
    | inr f ↦ let (i, a, e, t) = count_if_witness p xs (ground arith) in (suc i, a, e, t)
  ]
