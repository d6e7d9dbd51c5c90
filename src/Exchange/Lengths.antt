-- ===== src/Exchange/Lengths.antt =====
-- The Content-Length that the proxies put on a document, read again by contentLength of
-- internal/cache/store.go for its reservation.
use mathlib.Core.Path.{subst}
use n0ding.Prelude.{
  ℕ, zero, suc, ◌+◌, ◌-◌, ◌*◌, ◌/◌, ◌%◌, ◌≤◌, ◌<◌, pos, max_int64, leb, true, false, none, some,
  List, [], ◌∷◌, ◌++◌, Text, codes, eq_text, length, ◌==◌, ==_iff, is_digit, ◌≡◌, refl, sym, ap,
  ◌∙◌, arith, Bool-cases, inl, inr,
}
use n0ding.Http.{Header, get, set, values, canonical, lookup}
use n0ding.Cache.Put.{digits_from, parse_int, positive, content_length}
use n0ding.Exchange.{digits_of, format_int, length_header}

some_inj : {a b : ℕ} → some a ≡ some b → a ≡ b
some_inj e = ap (λ o. elim o [ none ↦ 0 | some a ↦ a ]) e

digits_from-snoc :
    (m k d : ℕ) (s : Text)
    → digits_from m s ≡ some k
    → is_digit d ≡ true
    → digits_from m (s ++ d ∷ []) ≡ some (k * 10 + (d - b'0'))
digits_from-snoc m k d [] e h = rw (h, some_inj e) refl
digits_from-snoc m k d (c ∷ s) e h = elim (Bool-cases (is_digit c)) [
  | inl good ↦ rw good (digits_from-snoc (m * 10 + (c - b'0')) k d s (rw good at e) h)
  | inr bad ↦ absurd (cc ((rw bad at e)))
]

digit : (n : ℕ) → is_digit (b'0' + n % 10) ≡ true
digit n = ground arith

-- 10 to a power.
power : ℕ → ℕ
power zero = 1
power (suc k) = 10 * power k

-- A numeral: it begins with a digit, and is read as a number.
IsNumeral : Text → ℕ → Type 0
IsNumeral s n =
    (c : ℕ) × (t : Text) × (s ≡ c ∷ t) × (is_digit c ≡ true) × (digits_from 0 s ≡ some n)

IsNumeral-snoc :
    (s : Text) (k n : ℕ) → IsNumeral s k → IsNumeral (s ++ (b'0' + n % 10) ∷ []) (k * 10 + n % 10)
unfolding IsNumeral
IsNumeral-snoc s k n (c, t, e, h, r) = (
  c,
  t ++ (b'0' + n % 10) ∷ [],
  ap (λ u. u ++ (b'0' + n % 10) ∷ []) e,
  h,
  digits_from-snoc 0 k (b'0' + n % 10) s r (digit n) ∙ ap (λ d. some (k * 10 + d)) (value n),
)
  where
    value : (n : ℕ) → b'0' + n % 10 - b'0' ≡ n % 10
    value n = omega arith

one_digit-IsNumeral : (n : ℕ) → n < 10 → IsNumeral ((b'0' + n % 10) ∷ []) n
unfolding IsNumeral
one_digit-IsNumeral n h =
    (b'0' + n % 10, [], refl, digit n, rw (digit n) (ap some (omega (arith, h))))

-- Fuel for one digit more than the power is enough.
digits_of-IsNumeral : (fuel n : ℕ) → n < power (suc fuel) → IsNumeral (digits_of (suc fuel) n) n
unfolding digits_of power
digits_of-IsNumeral zero n h = rw (small n h) (one_digit-IsNumeral n (omega (arith, h)))
  where
    small : (n : ℕ) → n < 10 * 1 → (n / 10 == 0) ≡ true
    small n h = (==_iff (n / 10) 0).1 (omega (arith, h))
digits_of-IsNumeral (suc fuel) n h = elim (Bool-cases (n / 10 == 0)) [
  | inl last ↦ rw last (one_digit-IsNumeral n (omega (arith, (==_iff (n / 10) 0).0 last)))
  | inr more ↦
      let front = digits_of-IsNumeral fuel (n / 10) (omega (arith, h)) in
      let whole : n / 10 * 10 + n % 10 ≡ n = omega arith in
      rw more (
        subst (λ m. IsNumeral (digits_of (suc fuel) (n / 10) ++ (b'0' + n % 10) ∷ []) m) whole
          (IsNumeral-snoc (digits_of (suc fuel) (n / 10)) (n / 10) n front))
]

numeral_read : (s : Text) (n : ℕ) → IsNumeral s n → n ≤ max_int64 → parse_int s ≡ some (pos n)
unfolding IsNumeral parse_int
numeral_read s n (c, t, e, h, r) small =
    let minus : (c == b'-') ≡ false = ground (arith, h) in
    let plus : (c == b'+') ≡ false = ground (arith, h) in
    let fits : leb n max_int64 ≡ true = ground (arith, small) in
    ap parse_int e ∙ rw (minus, plus, ap (digits_from 0) (sym e) ∙ r, fits) refl

numeral_nonempty : (s : Text) (n : ℕ) → IsNumeral s n → eq_text s [] ≡ false
unfolding IsNumeral eq_text
numeral_nonempty s n (c, t, e, h, r) = ap (λ u. eq_text u []) e

positive-pos : (n : ℕ) → 0 < n → positive (some (pos n)) ≡ some (pos n)
positive-pos zero h = absurd (omega (arith, h))
positive-pos (suc n) h = refl

get-set_length :
    (v : Text) (h : Header) → get (set (codes "Content-Length") v h) (codes "Content-Length") ≡ v
unfolding get values set lookup canonical eq_text
get-set_length v h = refl

-- The largest int64 has fewer than 20 digits.
power-max_int64 : (n : ℕ) → n ≤ max_int64 → n < power 20
unfolding power
power-max_int64 n h = omega (arith, h)

-- Let a document have at least one byte, and at most as many as the largest int64. The length that the
-- proxies write into its header, with fuel for 20 digits, is the size that contentLength reads there.
pub content_length-length_header :
    (content : List ℕ) (h : Header)
    → 0 < length content
    → length content ≤ max_int64
    → content_length (length_header content h) ≡ some (pos (length content))
unfolding content_length format_int
content_length-length_header content h some_bytes small =
    let n = length content in
    let numeral = digits_of-IsNumeral 19 n (power-max_int64 n small) in
    rw
      (
        get-set_length (digits_of 20 n) h,
        numeral_nonempty _ n numeral,
        numeral_read _ n numeral small,
      )
      (positive-pos n some_bytes)
