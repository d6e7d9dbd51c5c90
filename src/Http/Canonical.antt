-- ===== src/Http/Canonical.antt =====
-- CanonicalHeaderKey gives a canonical name, which it does not change again.
use n0ding.Prelude.{
  ℕ, Bool, true, false, ◌&&◌, [], ◌∷◌, Text, ◌==◌, lower, upper, if◌then◌else◌, ◌≡◌, refl, arith,
  Bool-cases, inl, inr,
}
use n0ding.Http.{is_token, all_tokens, canonical_from, canonical}

is_token-cased :
    (up : Bool) (c : ℕ) → is_token c ≡ true → is_token (if up then upper c else lower c) ≡ true
unfolding is_token
is_token-cased true c h = ground arith
is_token-cased false c h = ground arith

both_true : (a b : Bool) → (a && b) ≡ true → (a ≡ true) × (b ≡ true)
both_true a b h = (ground arith, ground arith)

all_tokens-canonical_from :
    (up : Bool) (s : Text) → all_tokens s ≡ true → all_tokens (canonical_from up s) ≡ true
unfolding all_tokens canonical_from
all_tokens-canonical_from up [] h = refl
all_tokens-canonical_from up (c ∷ s) h =
    let parts = both_true (is_token c) (all_tokens s) h in
    rw (is_token-cased up c parts.0, all_tokens-canonical_from (c == b'-') s parts.1)

canonical_from_twice :
    (up : Bool) (s : Text) → canonical_from up (canonical_from up s) ≡ canonical_from up s
unfolding canonical_from
canonical_from_twice up [] = refl
canonical_from_twice true (c ∷ s) = ground (arith, canonical_from_twice (c == b'-') s)
canonical_from_twice false (c ∷ s) = ground (arith, canonical_from_twice (c == b'-') s)

pub canonical_idempotent : (s : Text) → canonical (canonical s) ≡ canonical s
unfolding canonical
canonical_idempotent s = elim (Bool-cases (all_tokens s)) [
  | inl t ↦ rw t (rw (all_tokens-canonical_from true s t) (canonical_from_twice true s))
  | inr f ↦ rw f (rw f)
]
