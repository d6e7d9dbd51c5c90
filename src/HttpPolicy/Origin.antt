-- ===== src/HttpPolicy/Origin.antt =====
-- What a redirect keeps: credentials only for the origin of the request before it.
use n0ding.Prelude.{
  Bool, true, false, ◌&&◌, ◌||◌, List, [], ◌∷◌, ◌++◌, Text, eq_text, eq_text_iff, eq_text_refl,
  if◌then◌else◌, Option, none, some, ◌≡◌, ◌⊎◌, refl, ◌∙◌, arith, Bool-cases, inl, inr, ap, length,
  ◌<◌,
}
use n0ding.Http.{Header, Url, canonical}
use n0ding.HttpPolicy.{blocked_request_header, authorization}
use n0ding.HttpPolicy.Filters.{field_values}
use n0ding.HttpPolicy.Redirect.{
  Request, strip_blocked_request_headers, strip_authorization_header, last_url,
  sanitize_redirect_request, Hook, Verdict, refused, accepted, check_redirect, has_userinfo,
  comes_from_elsewhere,
}

-- One field that a loop drops by its canonical name.
drop_round :
    (dropped : Text → Bool) (name key : Text) (vs rest : List Text) (h : Header)
    → field_values key h ≡ (if dropped key then [] else rest)
    → field_values key (if dropped (canonical name) then h else (name, vs) ∷ h)
      ≡ (if dropped key then [] else if eq_text (canonical name) key then vs ++ rest else rest)
drop_round dropped name key vs rest h ih = elim (Bool-cases (eq_text (canonical name) key)) [
  | inl e ↦ ground (arith, ap dropped ((eq_text_iff (canonical name) key).0 e))
  | inr e ↦ ground arith
]

field_values-strip_blocked :
    (key : Text) (h : Header)
    → field_values key (strip_blocked_request_headers h)
      ≡ (if blocked_request_header key then [] else field_values key h)
unfolding strip_blocked_request_headers
field_values-strip_blocked key [] = ground arith
field_values-strip_blocked key ((name, vs) ∷ h) =
    drop_round blocked_request_header name key vs (field_values key h) _
      (field_values-strip_blocked key h)

field_values-strip_authorization :
    (key : Text) (h : Header)
    → field_values key (strip_authorization_header h)
      ≡ (if eq_text key authorization then [] else field_values key h)
unfolding strip_authorization_header
field_values-strip_authorization key [] = ground arith
field_values-strip_authorization key ((name, vs) ∷ h) =
    drop_round (λ k. eq_text k authorization) name key vs (field_values key h) _
      (field_values-strip_authorization key h)

-- Whether the credentials of a redirected request are dropped.
abbrev drops_authorization : Request → List (Option Url) → Bool
drops_authorization r via =
    has_userinfo r.url || comes_from_elsewhere (last_url via) (sanitize_redirect_request r via).url

sanitize_fields :
    (r : Request) (via : List (Option Url)) (key : Text)
    → field_values key (sanitize_redirect_request r via).header ≡ (
        if blocked_request_header key || (eq_text key authorization && drops_authorization r via)
        then []
        else field_values key r.header)
unfolding sanitize_redirect_request
sanitize_fields r via key = elim (Bool-cases (drops_authorization r via)) [
  | inl d ↦ rw d (
      field_values-strip_authorization key (strip_blocked_request_headers r.header)
      ∙ ground (arith, field_values-strip_blocked key r.header))
  | inr d ↦ rw d (field_values-strip_blocked key r.header ∙ ground arith)
]

-- A request without userinfo keeps its URL, and one with it loses only that.
no_userinfo :
    (r : Request) (via : List (Option Url))
    → has_userinfo (sanitize_redirect_request r via).url ≡ false
unfolding sanitize_redirect_request
no_userinfo r via = ground arith

url_kept :
    (r : Request) (via : List (Option Url))
    → has_userinfo r.url ≡ false
    → (sanitize_redirect_request r via).url ≡ r.url
unfolding sanitize_redirect_request
url_kept r via h = ground arith

drops_nothing :
    (r : Request) (via : List (Option Url))
    → has_userinfo r.url ≡ false
    → comes_from_elsewhere (last_url via) r.url ≡ false
    → drops_authorization r via ≡ false
drops_nothing r via h k = rw (url_kept r via h, h) k

abbrev pub is_accepted : Verdict → Bool
is_accepted (refused e) = false
is_accepted (accepted r) = true

-- A request that a hook accepts has been cleaned last.
cleaned :
    (hook : Option Hook) (request : Request) (via : List (Option Url)) (r : Request)
    → check_redirect hook request via ≡ accepted r
    → (q : Request) × (r ≡ sanitize_redirect_request q via)
unfolding check_redirect
cleaned none request via r h = (request, ground arith)
cleaned (some hook) request via r h = go (hook (sanitize_redirect_request request via) via) refl
  where
    go :
        (v : Verdict)
        → hook (sanitize_redirect_request request via) via ≡ v
        → (q : Request) × (r ≡ sanitize_redirect_request q via)
    go (refused e) k = absurd (ground arith)
    go (accepted q) k = (q, ground arith)

-- Whatever hook the caller supplied, and whatever that hook did to the request: a redirect that is
-- followed carries no userinfo in its URL and no value of a blocked field, and it carries no
-- Authorization unless the request before it had the same origin.
pub followed_redirect_is_safe :
    (hook : Option Hook) (request : Request) (via : List (Option Url)) (r : Request) (key : Text)
    → check_redirect hook request via ≡ accepted r
    → (has_userinfo r.url ≡ false)
      × ((blocked_request_header key ≡ false) ⊎ (field_values key r.header ≡ []))
      × ((comes_from_elsewhere (last_url via) r.url ≡ false)
          ⊎ (field_values authorization r.header ≡ []))
followed_redirect_is_safe hook request via r key h =
    let (q, e) = cleaned hook request via r h in
    rw e (
      no_userinfo q via,
      elim (Bool-cases (blocked_request_header key)) [
        | inl b ↦ inr (sanitize_fields q via key ∙ rw b)
        | inr b ↦ inl b
      ],
      elim (Bool-cases
          (comes_from_elsewhere (last_url via) (sanitize_redirect_request q via).url)) [
            | inl c ↦
                inr
                  (sanitize_fields q via authorization ∙ ground (arith, eq_text_refl authorization))
            | inr c ↦ inl c
          ],
    )

-- Without a hook, a redirect that is followed within one origin, with no userinfo in its URL, comes
-- behind fewer than ten requests and keeps its URL and all values of all fields but the blocked ones,
-- Authorization included.
pub plain_redirect :
    (request : Request) (via : List (Option Url)) (r : Request) (key : Text)
    → check_redirect none request via ≡ accepted r
    → has_userinfo request.url ≡ false
    → comes_from_elsewhere (last_url via) request.url ≡ false
    → (length via < 10)
      × (r.url ≡ request.url)
      × (field_values key r.header
          ≡ (if blocked_request_header key then [] else field_values key request.header))
unfolding check_redirect
plain_redirect request via r key h plain same =
    let e : r ≡ sanitize_redirect_request request via = (ground arith) in
    (
      ground arith,
      rw e (url_kept request via plain),
      rw e (sanitize_fields request via key ∙ ground (arith, drops_nothing request via plain same)),
    )
