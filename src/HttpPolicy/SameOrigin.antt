-- ===== src/HttpPolicy/SameOrigin.antt =====
-- internal/httppolicy/policy.go: sameOrigin and effectivePort, and what an origin is.
use mathlib.Core.Path.{subst}
use n0ding.Prelude.{
  true, false, [], Text, codes, eq_text, eq_text_iff, to_lower, equal_fold, Option, none, some, ◌≡◌,
  ◌≢◌, ◌↔◌, refl, sym, ◌∙◌, arith, Bool-cases, inl, inr,
}
use n0ding.Http.{Url}
use n0ding.HttpPolicy.Redirect.{effective_port, same_origin}

-- The port that a client of the URL connects to: the one that is written, or that of the scheme, in
-- any case of its letters; an empty text where there is neither.
pub data HasPort (u : Url) : Text → Type 0 where
  written : u.port ≢ [] → HasPort u u.port
  http : u.port ≡ [] → to_lower u.scheme ≡ codes "http" → HasPort u (codes "80")
  https : u.port ≡ [] → to_lower u.scheme ≡ codes "https" → HasPort u (codes "443")
  unknown :
      u.port ≡ []
      → to_lower u.scheme ≢ codes "http"
      → to_lower u.scheme ≢ codes "https"
      → HasPort u []

-- What the test of two texts has to say of their equality.
differs : (s t : Text) → eq_text s t ≡ false → s ≢ t
differs s t h e = ground (arith, eq_text_iff s t)

equal_test : (s t : Text) → s ≡ t → eq_text s t ≡ true
equal_test s t e = (eq_text_iff s t).1 e

differ_test : (s t : Text) → s ≢ t → eq_text s t ≡ false
differ_test s t h = elim (Bool-cases (eq_text s t)) [
  | inl e ↦ absurd (h ((eq_text_iff s t).0 e))
  | inr e ↦ e
]

effective_port-HasPort : (u : Url) → HasPort u (effective_port u)
unfolding effective_port
effective_port-HasPort u = elim (Bool-cases (eq_text u.port [])) [
  | inr e ↦ rw e (written (differs u.port [] e))
  | inl e ↦
      let empty : u.port ≡ [] = (eq_text_iff u.port []).0 e in
      elim (Bool-cases (eq_text (to_lower u.scheme) (codes "http"))) [
        | inl h ↦ rw (e, h) (http empty ((eq_text_iff (to_lower u.scheme) (codes "http")).0 h))
        | inr h ↦ elim (Bool-cases (eq_text (to_lower u.scheme) (codes "https"))) [
          | inl s ↦
              rw (e, h, s) (https empty ((eq_text_iff (to_lower u.scheme) (codes "https")).0 s))
          | inr s ↦
              rw (e, h, s)
                (unknown empty (differs (to_lower u.scheme) (codes "http") h)
                  (differs (to_lower u.scheme) (codes "https") s))
        ]
      ]
]

-- A URL has one port.
effective_port_unique : (u : Url) (port : Text) → HasPort u port → effective_port u ≡ port
unfolding effective_port
effective_port_unique u _ (written h) = rw (differ_test u.port [] h) refl
effective_port_unique u _ (http e h) =
    rw (equal_test u.port [] e, equal_test (to_lower u.scheme) (codes "http") h) refl
effective_port_unique u _ (https e h) = rw (equal_test u.port [] e, h) refl
effective_port_unique u _ (unknown e h s) =
    rw
      (
        equal_test u.port [] e,
        differ_test (to_lower u.scheme) (codes "http") h,
        differ_test (to_lower u.scheme) (codes "https") s,
      )
      refl

-- Two URLs of one origin.
abbrev pub IsSameOrigin : Option Url → Option Url → Type 0
IsSameOrigin left right =
    (l : Url) × (r : Url) × (left ≡ some l)
    × (right ≡ some r)
    × (to_lower l.scheme ≡ to_lower r.scheme)
    × (to_lower l.hostname ≡ to_lower r.hostname)
    × ((port : Text) × HasPort l port × HasPort r port)

origin_parts :
    (l r : Url)
    → (same_origin (some l) (some r) ≡ true)
    → (to_lower l.scheme ≡ to_lower r.scheme)
      × (to_lower l.hostname ≡ to_lower r.hostname)
      × (effective_port l ≡ effective_port r)
unfolding same_origin equal_fold
origin_parts l r h = (
  (eq_text_iff (to_lower l.scheme) (to_lower r.scheme)).0 (ground (arith, h)),
  (eq_text_iff (to_lower l.hostname) (to_lower r.hostname)).0 (ground (arith, h)),
  (eq_text_iff (effective_port l) (effective_port r)).0 (ground (arith, h)),
)

parts_origin :
    (l r : Url)
    → to_lower l.scheme ≡ to_lower r.scheme
    → to_lower l.hostname ≡ to_lower r.hostname
    → effective_port l ≡ effective_port r
    → same_origin (some l) (some r) ≡ true
unfolding same_origin equal_fold
parts_origin l r s n p =
    rw
      (
        equal_test (to_lower l.scheme) (to_lower r.scheme) s,
        equal_test (to_lower l.hostname) (to_lower r.hostname) n,
        equal_test (effective_port l) (effective_port r) p,
      )
      refl

none_left : (right : Option Url) → same_origin none right ≡ false
unfolding same_origin
none_left right = refl

none_right : (l : Url) → same_origin (some l) none ≡ false
unfolding same_origin
none_right l = refl

same_origin-IsSameOrigin :
    (left right : Option Url) → same_origin left right ≡ true → IsSameOrigin left right
same_origin-IsSameOrigin none right h = absurd (cc (none_left right))
same_origin-IsSameOrigin (some l) none h = absurd (cc (none_right l))
same_origin-IsSameOrigin (some l) (some r) h =
    let (scheme, hostname, port) = origin_parts l r h in
    (
      l,
      r,
      refl,
      refl,
      scheme,
      hostname,
      (
        effective_port r,
        subst (λ p. HasPort l p) port (effective_port-HasPort l),
        effective_port-HasPort r,
      ),
    )

-- sameOrigin returns true exactly where both URLs are there, their schemes and their host names agree
-- up to case, and a client of either connects to the same port: the one that the URL has, or else 80
-- for http, 443 for https, and none for any other scheme.
pub same_origin_iff :
    (left right : Option Url) → (same_origin left right ≡ true) ↔ IsSameOrigin left right
same_origin_iff left right = (
  same_origin-IsSameOrigin left right,
  λ (l, r, el, er, scheme, hostname, (port, pl, pr)).
      rw (el, er)
        (parts_origin l r scheme hostname
          (effective_port_unique l port pl ∙ sym (effective_port_unique r port pr))),
)
