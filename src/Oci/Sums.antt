-- ===== src/Oci/Sums.antt =====
-- internal/ociproxy/proxy.go: equalBytes and decodeSHA256.
use n0ding.Prelude.{
  ℕ, zero, suc, ◌+◌, ◌*◌, ◌/◌, ◌%◌, ◌<◌, true, ◌&&◌, Option, none, some, is_some, List, [], ◌∷◌,
  Text, codes, eq_text, eq_text_iff, if◌then◌else◌, length, ◌==◌, to_lower, equal_fold, ◌≡◌, refl,
  ap, ◌↔◌, arith, All, ◌⊎◌, after_first, ℤ, Bool-cases, inl, inr,
}
use n0ding.Oci.Digest.{
  xor_bits, or_bits, difference_from, equal_bytes, decode_sha256, classify, class_of, manifest,
  other, cache_ttl,
}

-- The number has no more than that many bits.
abbrev HasBits : ℕ → ℕ → Type 0
HasBits zero a = a ≡ 0
HasBits (suc k) a = HasBits k (a / 2)

byte-HasBits : (a : ℕ) → a < 256 → HasBits 8 a
byte-HasBits a h = omega (arith, h)

-- a ^ b on k bits is zero only for equal numbers of k bits.
xor_bits_zero : (k a b : ℕ) → HasBits k a → HasBits k b → (xor_bits k a b ≡ 0) ↔ (a ≡ b)
unfolding xor_bits
xor_bits_zero zero a b h g = (λ e. omega (arith, h, g), λ e. refl)
xor_bits_zero (suc k) a b h g =
    let ih = xor_bits_zero k (a / 2) (b / 2) h g in
    (λ e. omega (arith, e, ih.0 (omega (arith, e))), λ e. omega (arith, e, ih.1 (omega (arith, e))))

or_bits_zero : (k a b : ℕ) → HasBits k a → HasBits k b → (or_bits k a b ≡ 0) ↔ ((a ≡ 0) × (b ≡ 0))
unfolding or_bits
or_bits_zero zero a b h g = (λ e. (h, g), λ e. refl)
or_bits_zero (suc k) a b h g =
    let ih = or_bits_zero k (a / 2) (b / 2) h g in
    (λ e. ground (arith, e, ih), λ e. ground (arith, e.0, e.1, ih))

half : (x y : ℕ) → x < 2 → (x + 2 * y) / 2 ≡ y
half x y h = omega (arith, h)

xor_bits-HasBits : (k a b : ℕ) → HasBits k (xor_bits k a b)
unfolding xor_bits
xor_bits-HasBits zero a b = refl
xor_bits-HasBits (suc k) a b =
    rw (half ((a + b) % 2) (xor_bits k (a / 2) (b / 2)) (omega arith))
      (xor_bits-HasBits k (a / 2) (b / 2))

or_bits-HasBits : (k a b : ℕ) → HasBits k (or_bits k a b)
unfolding or_bits
or_bits-HasBits zero a b = refl
or_bits-HasBits (suc k) a b =
    rw (half (if a % 2 == 0 && b % 2 == 0 then 0 else 1) (or_bits k (a / 2) (b / 2)) (ground arith))
      (or_bits-HasBits k (a / 2) (b / 2))

difference_zero :
    (d : ℕ) (left right : List ℕ)
    → HasBits 8 d
    → All (λ a. a < 256) left
    → All (λ a. a < 256) right
    → length left ≡ length right
    → (difference_from d left right ≡ 0) ↔ ((d ≡ 0) × (left ≡ right))
unfolding difference_from
difference_zero d [] [] h l r e = (λ z. (z, refl), λ z. z.0)
difference_zero d [] (b ∷ right) h l r e = absurd (omega (arith, e))
difference_zero d (a ∷ left) [] h l r e = absurd (omega (arith, e))
difference_zero d (a ∷ left) (b ∷ right) h l r e =
    let same = xor_bits_zero 8 a b (byte-HasBits a l.0) (byte-HasBits b r.0) in
    let both = or_bits_zero 8 d (xor_bits 8 a b) h (xor_bits-HasBits 8 a b) in
    let ih =
      difference_zero (or_bits 8 d (xor_bits 8 a b)) left right
        (or_bits-HasBits 8 d (xor_bits 8 a b)) l.1 r.1 (omega (arith, e)) in
    (
      λ z. let p = ih.0 z in let q = both.0 p.0 in (q.0, rw (same.0 q.1, p.1) refl),
      λ z.
          let same_head : a ≡ b = cc (z.1) in
          let same_tail : left ≡ right = cc (z.1) in
          ih.1 (both.1 (z.0, same.1 same_head), same_tail),
    )

-- equalBytes returns true exactly for equal lists of bytes.
pub equal_bytes_iff :
    (left right : List ℕ)
    → All (λ a. a < 256) left
    → All (λ a. a < 256) right
    → (equal_bytes left right ≡ true) ↔ (left ≡ right)
unfolding equal_bytes
equal_bytes_iff left right l r = elim (Bool-cases (length left == length right)) [
  | inl e ↦
      (let same =
          difference_zero 0 left right (byte-HasBits 0 (omega arith)) l r (ground (arith, e)) in
        (λ z. ground (arith, z, e, same), λ z. ground (arith, z, e, same)))
  | inr e ↦
      (λ z. ground (arith, z, e), λ z. absurd (ground (arith, e, ap (λ (x : List ℕ). length x) z)))
]

-- decodeSHA256 gives the same bytes for two texts that differ in case only.
pub decode_sha256_fold : (s t : Text) → equal_fold s t ≡ true → decode_sha256 s ≡ decode_sha256 t
unfolding decode_sha256 equal_fold
decode_sha256_fold s t h = rw (← (eq_text_iff (to_lower s) (to_lower t)).0 h) refl

-- The digest of a class is accepted, or the class is that of a manifest with no digest.
class_of-digest :
    (m b : Option Text)
    → (is_some (decode_sha256 (class_of m b).requested_digest) ≡ true)
      ⊎ (((class_of m b).requested_digest ≡ [])
          × (((class_of m b).kind ≡ manifest) ⊎ ((class_of m b).kind ≡ other)))
class_of-digest (some reference) b = elim (Bool-cases (is_some (decode_sha256 reference))) [
  | inl d ↦ inl (rw (d, d) refl)
  | inr d ↦ inr (rw d (refl, inl refl))
]
class_of-digest none none = inr (refl, inr refl)
class_of-digest none (some digest) = elim (Bool-cases (is_some (decode_sha256 digest))) [
  | inl d ↦ inl (rw (d, d) refl)
  | inr d ↦ inr (rw d (refl, inr refl))
]

-- cacheTTL gives another time than the configured one for the class of a path only if the digest of
-- the class is one that decodeSHA256 accepts.
pub immutable_only_by_digest :
    (ttl : ℤ) (path : Text)
    → (cache_ttl ttl (classify path).kind (classify path).requested_digest ≡ ttl)
      ⊎ (is_some (decode_sha256 (classify path).requested_digest) ≡ true)
unfolding cache_ttl classify eq_text
immutable_only_by_digest ttl path =
    elim (class_of-digest (after_first path (codes "/manifests/"))
      (after_first path (codes "/blobs/"))) [
        | inl d ↦ inr d
        | inr (e, inl k) ↦ inl (rw (e, k) refl)
        | inr (e, inr k) ↦ inl (rw (e, k) refl)
      ]
