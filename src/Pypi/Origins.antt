-- ===== src/Pypi/Origins.antt =====
-- internal/pypiproxy/proxy.go: the origins from which files may come. The allow list holds keys that
-- are texts, while links are told apart by sameOrigin.
use n0ding.Prelude.{
  drop, Bool, true, not, ◌&&◌, Option, none, some, [], ◌∷◌, ◌++◌, Text, codes, eq_text, eq_text_iff,
  if◌then◌else◌, to_lower, equal_fold, Bool-cases, inl, inr, cut, ◌≡◌, ◌↔◌, refl, ap, ◌∙◌, sym,
  arith,
}
use mathlib.Core.List.{append_assoc, reverse, reverse-cons, reverse-append, reverse-reverse}
use n0ding.Http.{Url}
use n0ding.Pypi.Texts.{Lacks, All-reverse, cut-append}

unfoldable pub effective_port : Url → Text
unfolding eq_text to_lower
effective_port u =
    if not (eq_text u.port [])
    then u.port
    else if eq_text (to_lower u.scheme) (codes "http")
    then codes "80"
    else if eq_text (to_lower u.scheme) (codes "https")
    then codes "443"
    else []

unfoldable pub same_origin : Url → Url → Bool
unfolding equal_fold effective_port
same_origin left right =
    equal_fold left.scheme right.scheme
    && (equal_fold left.hostname right.hostname
        && eq_text (effective_port left) (effective_port right))

abbrev key_of : Text → Text → Text → Text
key_of scheme host port = scheme ++ (codes "://" ++ (host ++ (codes ":" ++ port)))

unfoldable pub origin_key : Url → Text
unfolding effective_port
origin_key u = key_of (to_lower u.scheme) (to_lower u.hostname) (effective_port u)

-- No colon stands in a scheme or in a port.
abbrev pub IsPlain : Text → Type 0
IsPlain t = Lacks b':' t

pair_of : Option (Text × Text) → Text × Text
pair_of none = ([], [])
pair_of (some p) = p

plain_front :
    (s t s' t' : Text)
    → IsPlain s
    → IsPlain s'
    → s ++ b':' ∷ t ≡ s' ++ b':' ∷ t'
    → (s ≡ s') × (t ≡ t')
unfolding pair_of
plain_front s t s' t' h h' e =
    let both : some (s, t) ≡ some (s', t') =
      sym (cut-append s t b':' h) ∙ (ap (cut b':') e ∙ cut-append s' t' b':' h') in
    (ap (λ p. (pair_of p).0) both, ap (λ p. (pair_of p).1) both)

turned : (s t : Text) → reverse (s ++ b':' ∷ t) ≡ reverse t ++ b':' ∷ reverse s
turned s t =
    reverse-append s (b':' ∷ t)
    ∙ (ap (λ r. r ++ reverse s) (reverse-cons b':' t)
        ∙ append_assoc (reverse t) (b':' ∷ []) (reverse s))

plain_back :
    (s t s' t' : Text)
    → IsPlain t
    → IsPlain t'
    → s ++ b':' ∷ t ≡ s' ++ b':' ∷ t'
    → (s ≡ s') × (t ≡ t')
plain_back s t s' t' h h' e =
    let both =
      plain_front (reverse t) (reverse s) (reverse t') (reverse s') (All-reverse _ t h)
        (All-reverse _ t' h') (sym (turned s t) ∙ (ap reverse e ∙ turned s' t')) in
    (
      sym (reverse-reverse s) ∙ (ap reverse both.1 ∙ reverse-reverse s'),
      sym (reverse-reverse t) ∙ (ap reverse both.0 ∙ reverse-reverse t'),
    )

to_lower-IsPlain : (t : Text) → IsPlain t → IsPlain (to_lower t)
unfolding to_lower
to_lower-IsPlain [] h = tt
to_lower-IsPlain (c ∷ t) (hc, h) = (ground (arith, hc), to_lower-IsPlain t h)

effective_port-IsPlain : (u : Url) → IsPlain u.port → IsPlain (effective_port u)
unfolding effective_port
effective_port-IsPlain u h = elim (Bool-cases (eq_text u.port [])) [
  | inr e ↦ rw e h
  | inl e ↦ elim (Bool-cases (eq_text (to_lower u.scheme) (codes "http"))) [
    | inl http ↦ rw (e, http) (refl, (refl, tt))
    | inr other ↦ elim (Bool-cases (eq_text (to_lower u.scheme) (codes "https"))) [
      | inl https ↦ rw (e, other, https) (refl, (refl, (refl, tt)))
      | inr none_of_both ↦ rw (e, other, none_of_both) tt
    ]
  ]
]

key_of_same :
    (s s' h h' p p' : Text) → (s ≡ s') × (h ≡ h') × (p ≡ p') → key_of s h p ≡ key_of s' h' p'
key_of_same s s' h h' p p' e = rw (e.0, e.1, e.2) refl

-- The keys are texts of three parts, and these decide.
parts_iff :
    (s s' h h' p p' : Text)
    → ((s ≡ s') × (h ≡ h') × (p ≡ p')) ↔ ((eq_text s s' && (eq_text h h' && eq_text p p')) ≡ true)
parts_iff s s' h h' p p' = (
  λ e. rw ((eq_text_iff s s').1 e.0, (eq_text_iff h h').1 e.1, (eq_text_iff p p').1 e.2) refl,
  λ e. ground (arith, e, eq_text_iff s s', eq_text_iff h h', eq_text_iff p p'),
)

-- For URLs whose schemes and ports have no colon, the text under which New and fileOriginAllowed look
-- for an origin is the same exactly when sameOrigin says that the origins are the same.
pub origin_key_iff :
    (a b : Url)
    → IsPlain a.scheme
    → IsPlain b.scheme
    → IsPlain a.port
    → IsPlain b.port
    → (origin_key a ≡ origin_key b) ↔ (same_origin a b ≡ true)
unfolding origin_key same_origin equal_fold
origin_key_iff a b sa sb pa pb =
    let parts =
      parts_iff (to_lower a.scheme) (to_lower b.scheme) (to_lower a.hostname) (to_lower b.hostname)
        (effective_port a) (effective_port b) in
    (
      λ e.
          let front =
            plain_front (to_lower a.scheme) _ (to_lower b.scheme) _ (to_lower-IsPlain a.scheme sa)
              (to_lower-IsPlain b.scheme sb) e in
          let back =
            plain_back (b'/' ∷ b'/' ∷ to_lower a.hostname) (effective_port a)
              (b'/' ∷ b'/' ∷ to_lower b.hostname) (effective_port b) (effective_port-IsPlain a pa)
              (effective_port-IsPlain b pb) front.1 in
          parts.0 (front.0, ap (drop 2) back.0, back.1),
      λ h. let same = parts.1 h in key_of_same _ _ _ _ _ _ same,
    )
