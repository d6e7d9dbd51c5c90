-- ===== src/Pypi/Normal.antt =====
-- internal/pypiproxy/proxy.go: normalizeProjectName gives a normal form.
use n0ding.Prelude.{
  ℕ, Bool, true, false, ◌||◌, some, [], ◌∷◌, Text, ◌==◌, is_lower, is_digit, is_space, to_lower,
  trim_space, ◌≡◌, refl, sym, ap, inl, inr, arith, Bool-cases, Option-cases, All,
}
use n0ding.Pypi.Texts.{IsSolid, trim_space-IsSolid}
use n0ding.Pypi.Names.{is_separator, normalize_from, or_empty, normalize_project_name}

-- A lower-case letter, a digit or a hyphen.
abbrev pub is_name_character : ℕ → Bool
is_name_character c = is_lower c || (is_digit c || c == b'-')

abbrev pub IsName : Text → Type 0
IsName t = All (λ (c : ℕ). is_name_character c ≡ true) t

-- A text that the loop gives back, whether or not something was written before.
record IsFixed (started : Bool) (t : Text) : Type 0 where
  named : IsName t
  again : normalize_from started false t ≡ some t

written_inj : {s t : Text} → some s ≡ some t → t ≡ s
written_inj e = sym (ap or_empty e)

IsFixed-cons :
    (started : Bool) (c : ℕ) (t : Text)
    → is_separator c ≡ false
    → (is_lower c || is_digit c) ≡ true
    → IsFixed true t
    → IsFixed started (c ∷ t)
unfolding normalize_from
IsFixed-cons started c t other good h = record {
  named = (ground (arith, good), h.named);
  again = rw (other, good, h.again) refl;
}

IsFixed-hyphen :
    (c : ℕ) (t : Text)
    → is_separator c ≡ false
    → (is_lower c || is_digit c) ≡ true
    → IsFixed true t
    → IsFixed true (b'-' ∷ c ∷ t)
unfolding normalize_from
IsFixed-hyphen c t other good h = record {
  named = (refl, (ground (arith, good), h.named));
  again = rw (other, good, h.again) refl;
}

-- The loop reads back what it has written.
normalize_from_again :
    (started separator : Bool) (s t : Text)
    → (separator ≡ true → started ≡ true)
    → normalize_from started separator s ≡ some t
    → IsFixed started t
unfolding normalize_from
normalize_from_again started separator [] t d e =
    rw (written_inj e) (record { named = tt; again = refl })
normalize_from_again started separator (c ∷ s) t d e = elim (Bool-cases (is_separator c)) [
  | inl sep ↦ normalize_from_again started started s t (λ h. h) (rw sep at e)
  | inr other ↦ elim (Bool-cases (is_lower c || is_digit c)) [
    | inr bad ↦ absurd (cc ((rw (other, bad) at e)))
    | inl good ↦ elim (Option-cases (normalize_from true false s)) [
      | inl n ↦ absurd (ground (arith, e, other, good, n))
      | inr (u, k) ↦
          let h = normalize_from_again true false s u (λ e. refl) k in
          elim (Bool-cases separator) [
            | inl due ↦
                rw (written_inj (rw (other, good, due, k) at e), d due)
                  (IsFixed-hyphen c u other good h)
            | inr plain ↦
                rw (written_inj (rw (other, good, plain, k) at e))
                  (IsFixed-cons started c u other good h)
          ]
    ]
  ]
]

to_lower-IsName : (t : Text) → IsName t → to_lower t ≡ t
unfolding to_lower
to_lower-IsName [] h = refl
to_lower-IsName (c ∷ t) (hc, h) = ground (arith, hc, to_lower-IsName t h)

not_space : (c : ℕ) → is_name_character c ≡ true → is_space c ≡ false
not_space c h = ground (arith, h)

IsSolid-of_IsName : (t : Text) → IsName t → IsSolid t
IsSolid-of_IsName [] h = tt
IsSolid-of_IsName (c ∷ t) (hc, h) = (not_space c hc, IsSolid-of_IsName t h)

trim_space-IsName : (t : Text) → IsName t → trim_space t ≡ t
trim_space-IsName t h = trim_space-IsSolid t (IsSolid-of_IsName t h)

-- What normalizeProjectName gives back has lower-case letters, digits and hyphens only, and is given
-- back unchanged: two names that are normalized to one name stay one project.
pub normalize_project_name-IsNormal :
    (name : Text)
    → IsName (normalize_project_name name)
      × (normalize_project_name (normalize_project_name name) ≡ normalize_project_name name)
unfolding normalize_project_name normalize_from
normalize_project_name-IsNormal name =
    elim (Option-cases (normalize_from false false (trim_space (to_lower name)))) [
      | inl n ↦ rw n (tt, rw (to_lower-IsName [] tt, trim_space-IsName [] tt) refl)
      | inr (t, e) ↦
          let h =
            normalize_from_again false false (trim_space (to_lower name)) t (λ h. absurd (cc)) e in
          rw e (h.named, rw (to_lower-IsName t h.named, trim_space-IsName t h.named, h.again) refl)
    ]
