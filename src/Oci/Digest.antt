-- ===== src/Oci/Digest.antt =====
-- internal/ociproxy/proxy.go: digests, the class of a path, and what is derived from the two.
use n0ding.Prelude.{
  ℕ, zero, suc, ◌+◌, ◌*◌, ◌/◌, ◌%◌, ℤ, pos, Bool, true, false, not, ◌&&◌, ◌||◌, Option, none, some,
  is_some, List, [], ◌∷◌, ◌++◌, Text, codes, eq_text, if◌then◌else◌, length, ◌==◌, to_lower, cut,
  after_first,
}
use n0ding.Hex.{decode_hex}

abbrev decode_parts : Option (Text × Text) → Option (List ℕ)
decode_parts none = none
decode_parts (some (algorithm, encoded)) =
    let decoded = decode_hex encoded in
    if not (eq_text algorithm (codes "sha256")) || not (length encoded == 64) then none else decoded

-- decodeSHA256: `none` where it returns false.
unfoldable pub decode_sha256 : Text → Option (List ℕ)
unfolding decode_hex
decode_sha256 value = decode_parts (cut b':' (to_lower value))

-- The bitwise operators on the lowest bits of two numbers.
unfoldable pub xor_bits : ℕ → ℕ → ℕ → ℕ
xor_bits zero a b = 0
xor_bits (suc k) a b = (a + b) % 2 + 2 * xor_bits k (a / 2) (b / 2)

unfoldable pub or_bits : ℕ → ℕ → ℕ → ℕ
or_bits zero a b = 0
or_bits (suc k) a b = (if a % 2 == 0 && b % 2 == 0 then 0 else 1) + 2 * or_bits k (a / 2) (b / 2)

-- The loop of equalBytes.
unfoldable pub difference_from : ℕ → List ℕ → List ℕ → ℕ
unfolding xor_bits or_bits
difference_from d (a ∷ left) (b ∷ right) = difference_from (or_bits 8 d (xor_bits 8 a b)) left right
difference_from d [] right = d
difference_from d (a ∷ left) [] = d

unfoldable pub equal_bytes : List ℕ → List ℕ → Bool
unfolding difference_from
equal_bytes left right =
    if not (length left == length right) then false else difference_from 0 left right == 0

abbrev same_sum : List ℕ → Option (List ℕ) → Bool
same_sum actual none = false
same_sum actual (some expected) = equal_bytes actual expected

-- verifySum: true where it returns no error.
unfoldable pub verify_sum : List ℕ → Text → Bool
unfolding decode_sha256 equal_bytes
verify_sum actual expected = same_sum actual (decode_sha256 expected)

-- "manifest", "blob" and the empty text.
pub data Kind : Type 0 where
  manifest blob other : Kind

pub record Class : Type 0 where
  pub kind : Kind
  pub requested_digest : Text
  pub cacheable : Bool

abbrev pub manifest_class : Text → Class
manifest_class reference =
    if is_some (decode_sha256 reference)
    then record { kind = manifest; requested_digest = reference; cacheable = true }
    else record { kind = manifest; requested_digest = []; cacheable = not (eq_text reference []) }

abbrev no_class : Class
no_class = record { kind = other; requested_digest = []; cacheable = false }

abbrev pub blob_class : Option Text → Class
blob_class none = no_class
blob_class (some digest) =
    if is_some (decode_sha256 digest)
    then record { kind = blob; requested_digest = digest; cacheable = true }
    else no_class

abbrev pub class_of : Option Text → Option Text → Class
class_of (some reference) after_blobs = manifest_class reference
class_of none after_blobs = blob_class after_blobs

unfoldable pub classify : Text → Class
unfolding decode_sha256
classify path =
    class_of (after_first path (codes "/manifests/")) (after_first path (codes "/blobs/"))

-- 10 * 365 * 24 * time.Hour
abbrev pub immutable_ttl : ℤ
immutable_ttl = pos 315360000000000000

unfoldable pub cache_ttl : ℤ → Kind → Text → ℤ
cache_ttl ttl blob digest = immutable_ttl
cache_ttl ttl manifest digest = if not (eq_text digest []) then immutable_ttl else ttl
cache_ttl ttl other digest = if not (eq_text digest []) then immutable_ttl else ttl

unfoldable pub cache_key : Text → Text → Text → Text
cache_key name target accept = name ++ (codes "\n" ++ (target ++ (codes "\naccept:" ++ accept)))
