-- ===== src/Server/Operator.antt =====
-- internal/httpserver/server.go: who may start a collection.
use n0ding.Prelude.{
  true, false, ◌&&◌, [], ◌∷◌, ◌++◌, Text, codes, eq_text, eq_text_iff, has_prefix, trim_prefix,
  drop, length, ◌≡◌, refl, ap, ◌∙◌, ◌↔◌, inl, inr, arith, Bool-cases,
}
use n0ding.Http.{Header, get}
use n0ding.Server.{admitted, bearer, operator_gc}

has_prefix-append : (p t : Text) → (has_prefix (p ++ t) p ≡ true) × (drop (length p) (p ++ t) ≡ t)
unfolding has_prefix
has_prefix-append [] t = (refl, refl)
has_prefix-append (c ∷ p) t = ground (arith, has_prefix-append p t)

has_prefix_split : (s p : Text) → has_prefix s p ≡ true → s ≡ p ++ drop (length p) s
unfolding has_prefix
has_prefix_split s [] h = refl
has_prefix_split [] (c ∷ p) h = absurd (cc)
has_prefix_split (b ∷ s) (c ∷ p) h = ground (arith, has_prefix_split s p)

-- A text is a prefix and what TrimPrefix leaves.
prefixed_iff :
    (a p t : Text) → ((has_prefix a p && eq_text (trim_prefix a p) t) ≡ true) ↔ (a ≡ p ++ t)
unfolding trim_prefix
prefixed_iff a p t = (
  λ h. elim (Bool-cases (has_prefix a p)) [
    | inl y ↦
        (let rest : drop (length p) a ≡ t =
            (eq_text_iff (drop (length p) a) t).0 (ground (arith, h, y)) in
          has_prefix_split a p y ∙ ap (λ (l : Text). p ++ l) rest)
    | inr y ↦ absurd (ground (arith, h, y))
  ],
  λ e. rw (e, (has_prefix-append p t).0, (has_prefix-append p t).1) ((eq_text_iff t t).1 refl),
)

-- operatorGC goes on to run a collection exactly where the path is that of the endpoint, there is an
-- operator token, the method is POST and the Authorization field is the token behind the word Bearer
-- and a blank.
pub operator_gc_admits_iff :
    (token path method : Text) (header : Header)
    → (operator_gc token path method header ≡ admitted) ↔ (
        (path ≡ codes "/api/v1/operator/gc")
        × (eq_text token [] ≡ false)
        × (method ≡ codes "POST")
        × (get header (codes "Authorization") ≡ bearer ++ token))
unfolding operator_gc
operator_gc_admits_iff token path method header =
    let path_ok = eq_text_iff path (codes "/api/v1/operator/gc") in
    let method_ok = eq_text_iff method (codes "POST") in
    let token_ok = prefixed_iff (get header (codes "Authorization")) bearer token in
    (
      λ h. ground (arith, h, path_ok, method_ok, token_ok),
      λ h. ground (arith, h, path_ok, method_ok, token_ok),
    )
