-- ===== src/HttpPolicy/Storable.antt =====
-- When a shared cache may store a response: ResponseAllowsStorage decides a specification.
use n0ding.Prelude.{
  Bool, true, false, not, ◌&&◌, ◌||◌, List, [], ◌∷◌, Text, codes, eq_text, eq_text_iff, mem_text,
  split, trim_space, equal_fold, map, All, ◌≡◌, ◌≢◌, ◌↔◌, ◌⊎◌, inl, inr, refl, arith, Bool-cases,
  In, to_lower,
}
use n0ding.Http.{Header, canonical, values, is_present}
use n0ding.HttpPolicy.{sensitive_response_headers}
use n0ding.HttpPolicy.Directives.{
  Directive, cache_directives, cache_control, pragma, token_in, contains_token, any_named,
  has_cache_directive, is_cookie_header, sensitive_allow, vary_names_allowed, vary_allowed,
  no_store_names, unstorable_names, public_names, response_allows_storage,
}

abbrev VaryOk : List Text → Text → Type 0
VaryOk allowed name =
    (canonical (trim_space name) ≡ [])
    ⊎ ((canonical (trim_space name) ≢ codes "*") × In (canonical (trim_space name)) allowed)

-- What RFC-like shared-cache rules the program means to apply.
pub record IsStorable (request response : Header) (allowed_vary : List Text) : Type 0 where
  pub request_lets :
      All
        (λ (d : Directive). ¬ In d.name no_store_names)
        (cache_directives (values request cache_control))
  pub response_lets :
      All
        (λ (d : Directive). ¬ In d.name unstorable_names)
        (cache_directives (values response cache_control))
  pub pragma_lets :
      All
        (λ (value : Text).
          All
            (λ (part : Text). equal_fold (trim_space part) (codes "no-cache") ≡ false)
            (split b',' value))
        (values response pragma)
  pub no_credentials :
      All
        (λ (name : Text).
          is_present (canonical name) response ≡ true
          → (is_cookie_header name ≡ true) × (has_cache_directive response public_names ≡ true))
        sensitive_response_headers
  pub known_vary :
      All
        (λ (value : Text). All (VaryOk (map canonical allowed_vary)) (split b',' value))
        (values response (codes "Vary"))

pub mem_text_iff : (s : Text) (ts : List Text) → (mem_text s ts ≡ true) ↔ In s ts
unfolding mem_text
mem_text_iff s [] = (λ h. absurd (cc), λ h. absurd h)
mem_text_iff s (t ∷ ts) = (
  λ h. elim (Bool-cases (eq_text s t)) [
    | inl e ↦ inl ((eq_text_iff s t).0 e)
    | inr e ↦ inr ((mem_text_iff s ts).0 (ground arith))
  ],
  λ h. elim h [
    | inl e ↦ rw ((eq_text_iff s t).1 e)
    | inr m ↦ ground (arith, (mem_text_iff s ts).1 m)
  ],
)

not_mem_text_iff : (s : Text) (ts : List Text) → (mem_text s ts ≡ false) ↔ (¬ In s ts)
not_mem_text_iff s ts = (
  λ h m. cc (h, (mem_text_iff s ts).1 m),
  λ h. elim (Bool-cases (mem_text s ts)) [
    | inl t ↦ absurd (h ((mem_text_iff s ts).0 t))
    | inr f ↦ f
  ],
)

any_named_iff :
    (names : List Text) (ds : List Directive)
    → (any_named names ds ≡ false) ↔ All (λ (d : Directive). ¬ In d.name names) ds
unfolding any_named
any_named_iff names [] = (λ h. tt, λ h. refl)
any_named_iff names (d ∷ ds) = (
  λ h.
      ((not_mem_text_iff d.name names).0 (ground arith), (any_named_iff names ds).0 (ground arith)),
  λ h. rw ((not_mem_text_iff d.name names).1 h.0, (any_named_iff names ds).1 h.1),
)

token_in_iff :
    (parts : List Text) (token : Text)
    → (token_in parts token ≡ false)
      ↔ All (λ (part : Text). equal_fold (trim_space part) token ≡ false) parts
unfolding token_in
token_in_iff [] token = (λ h. tt, λ h. refl)
token_in_iff (p ∷ ps) token =
    (λ h. ground (arith, token_in_iff ps token), λ h. ground (arith, token_in_iff ps token))

contains_token_iff :
    (vs : List Text) (token : Text)
    → (contains_token vs token ≡ false)
      ↔ All
          (λ (value : Text).
            All (λ (part : Text). equal_fold (trim_space part) token ≡ false) (split b',' value))
          vs
unfolding contains_token
contains_token_iff [] token = (λ h. tt, λ h. refl)
contains_token_iff (v ∷ vs) token = (
  λ h. (
    (token_in_iff (split b',' v) token).0 (ground arith),
    (contains_token_iff vs token).0 (ground arith),
  ),
  λ h. rw ((token_in_iff (split b',' v) token).1 h.0, (contains_token_iff vs token).1 h.1),
)

sensitive_allow_iff :
    (public : Bool) (response : Header) (names : List Text)
    → (sensitive_allow public response names ≡ true)
      ↔ All
          (λ (name : Text).
            is_present (canonical name) response ≡ true
            → (is_cookie_header name ≡ true) × (public ≡ true))
          names
unfolding sensitive_allow
sensitive_allow_iff public response [] = (λ h. tt, λ h. refl)
sensitive_allow_iff public response (n ∷ ns) = (
  λ h. ((λ p. ground arith), (sensitive_allow_iff public response ns).0 (ground arith)),
  λ h. ground (arith, h.0, (sensitive_allow_iff public response ns).1 h.1),
)

vary_names_allowed_iff :
    (allowed names : List Text)
    → (vary_names_allowed allowed names ≡ true) ↔ All (VaryOk allowed) names
unfolding vary_names_allowed
vary_names_allowed_iff allowed [] = (λ h. tt, λ h. refl)
vary_names_allowed_iff allowed (n ∷ ns) =
    let key = canonical (trim_space n) in
    (
      λ h. (vary_name key (ground arith), (vary_names_allowed_iff allowed ns).0 (ground arith)),
      λ h. rw (vary_name_back key h.0, (vary_names_allowed_iff allowed ns).1 h.1),
    )
  where
    vary_name :
        (key : Text)
        → (eq_text key [] || (not (eq_text key (codes "*")) && mem_text key allowed)) ≡ true
        → (key ≡ []) ⊎ ((key ≢ codes "*") × In key allowed)
    vary_name key h = elim (Bool-cases (eq_text key [])) [
      | inl e ↦ inl ((eq_text_iff key []).0 e)
      | inr e ↦ inr (
        (λ star. ground (arith, (eq_text_iff key (codes "*")).1 star)),
        (mem_text_iff key allowed).0 (ground arith),
      )
    ]

    vary_name_back :
        (key : Text)
        → (key ≡ []) ⊎ ((key ≢ codes "*") × In key allowed)
        → (eq_text key [] || (not (eq_text key (codes "*")) && mem_text key allowed)) ≡ true
    vary_name_back key (inl e) = rw ((eq_text_iff key []).1 e)
    vary_name_back key (inr (ne, m)) = ground (
      arith,
      (mem_text_iff key allowed).1 m,
      (λ (t : eq_text key (codes "*") ≡ true). ne ((eq_text_iff key (codes "*")).0 t)),
    )

vary_allowed_iff :
    (allowed vs : List Text)
    → (vary_allowed allowed vs ≡ true)
      ↔ All (λ (value : Text). All (VaryOk allowed) (split b',' value)) vs
unfolding vary_allowed
vary_allowed_iff allowed [] = (λ h. tt, λ h. refl)
vary_allowed_iff allowed (v ∷ vs) = (
  λ h. (
    (vary_names_allowed_iff allowed (split b',' v)).0 (ground arith),
    (vary_allowed_iff allowed vs).0 (ground arith),
  ),
  λ h.
      rw (
        (vary_names_allowed_iff allowed (split b',' v)).1 h.0,
        (vary_allowed_iff allowed vs).1 h.1,
      ),
)

no_store_iff :
    (h : Header)
    → (has_cache_directive h no_store_names ≡ false)
      ↔ All
          (λ (d : Directive). ¬ In d.name no_store_names)
          (cache_directives (values h cache_control))
unfolding has_cache_directive to_lower
no_store_iff h = any_named_iff no_store_names (cache_directives (values h cache_control))

unstorable_iff :
    (h : Header)
    → (has_cache_directive h unstorable_names ≡ false)
      ↔ All
          (λ (d : Directive). ¬ In d.name unstorable_names)
          (cache_directives (values h cache_control))
unfolding has_cache_directive to_lower
unstorable_iff h = any_named_iff unstorable_names (cache_directives (values h cache_control))

-- ResponseAllowsStorage says yes exactly if: the request has no no-store directive; the response has
-- no no-cache, no-store or private directive and no no-cache token in Pragma; every sensitive field
-- of the response is a cookie field of a response with a public directive; and every name in its
-- Vary fields is empty or, not being "*", one of the given names in canonical form.
pub response_allows_storage_iff :
    (request response : Header) (allowed_vary : List Text)
    → (response_allows_storage request response allowed_vary ≡ true)
      ↔ IsStorable request response allowed_vary
unfolding response_allows_storage
response_allows_storage_iff request response allowed_vary = (
  λ h. record {
    request_lets = (no_store_iff request).0 (ground arith);
    response_lets = (unstorable_iff response).0 (ground arith);
    pragma_lets = (contains_token_iff (values response pragma) (codes "no-cache")).0 (ground arith);
    no_credentials =
        (sensitive_allow_iff (has_cache_directive response public_names) response
            sensitive_response_headers).0
          (ground arith);
    known_vary =
        (vary_allowed_iff (map canonical allowed_vary) (values response (codes "Vary"))).0
          (ground arith);
  },
  λ s. rw (
    (no_store_iff request).1 s.request_lets,
    (unstorable_iff response).1 s.response_lets,
    (contains_token_iff (values response pragma) (codes "no-cache")).1 s.pragma_lets,
    (sensitive_allow_iff (has_cache_directive response public_names) response
          sensitive_response_headers).1
        s.no_credentials,
    (vary_allowed_iff (map canonical allowed_vary) (values response (codes "Vary"))).1 s.known_vary,
  ),
)
