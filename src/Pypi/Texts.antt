-- ===== src/Pypi/Texts.antt =====
-- Texts with no character of a kind: they are not trimmed, and cut where that character first stands.
use mathlib.Core.List.{reverse, reverse-cons, reverse-reverse}
use n0ding.Prelude.{
  ℕ, false, none, some, [], ◌∷◌, ◌++◌, Text, ◌==◌, ==_iff, is_space, trim_space, trim_left,
  trim_right, trim, to_lower, lower, cut, All, All-append, ◌≡◌, refl, arith,
}

pub All-reverse : (P : ℕ → Type 0) (t : Text) → All P t → All P (reverse t)
All-reverse P [] h = tt
All-reverse P (c ∷ t) (hc, h) =
    rw (reverse-cons c t) (All-append P (reverse t) (c ∷ []) (All-reverse P t h) (hc, tt))

abbrev pub IsSolid : Text → Type 0
IsSolid t = All (λ (c : ℕ). is_space c ≡ false) t

trim_left-IsSolid : (t : Text) → IsSolid t → trim_left is_space t ≡ t
unfolding trim_left
trim_left-IsSolid [] h = refl
trim_left-IsSolid (c ∷ t) (hc, h) = rw hc refl

pub trim_space-IsSolid : (t : Text) → IsSolid t → trim_space t ≡ t
unfolding trim_space trim trim_right
trim_space-IsSolid t h =
    rw
      (
        trim_left-IsSolid t h,
        trim_left-IsSolid (reverse t) (All-reverse (λ (c : ℕ). is_space c ≡ false) t h),
      )
      (reverse-reverse t)

lower-lower : (c : ℕ) → lower (lower c) ≡ lower c
lower-lower c = ground arith

pub to_lower-to_lower : (t : Text) → to_lower (to_lower t) ≡ to_lower t
unfolding to_lower
to_lower-to_lower [] = refl
to_lower-to_lower (c ∷ t) = rw (lower-lower c, to_lower-to_lower t) refl

-- The character does not stand in the text.
abbrev pub Lacks : ℕ → Text → Type 0
Lacks c t = All (λ (d : ℕ). (d == c) ≡ false) t

-- A text is cut where the separator stands first.
pub cut-append : (s t : Text) (c : ℕ) → Lacks c s → cut c (s ++ c ∷ t) ≡ some (s, t)
unfolding cut
cut-append [] t c h = rw ((==_iff c c).1 refl) refl
cut-append (d ∷ s) t c (hd, h) = rw (hd, cut-append s t c h) refl

pub cut-Lacks : (s : Text) (c : ℕ) → Lacks c s → cut c s ≡ none
unfolding cut
cut-Lacks [] c h = refl
cut-Lacks (d ∷ s) c (hd, h) = rw (hd, cut-Lacks s c h) refl
