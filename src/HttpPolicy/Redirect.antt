-- ===== src/HttpPolicy/Redirect.antt =====
-- internal/httppolicy/policy.go: the redirect hook of ClientWithSafeRedirects. A request is its URL,
-- which may be nil, and its header; `via` holds the URLs of the requests before it, the last one at
-- the end. The hook of the caller is a parameter: it may change the request, or refuse it.
use n0ding.Prelude.{
  Bool, true, false, not, ◌&&◌, ◌||◌, List, [], ◌∷◌, Text, codes, eq_text, leb, length, to_lower,
  equal_fold, if◌then◌else◌, Option, none, some, is_some,
}
use n0ding.Http.{Header, Url, canonical}
use n0ding.HttpPolicy.{blocked_request_header, authorization}

pub record Request : Type 0 where
  pub url : Option Url
  pub header : Header

unfoldable pub effective_port : Url → Text
unfolding eq_text to_lower
effective_port u =
    if not (eq_text u.port [])
    then u.port
    else if eq_text (to_lower u.scheme) (codes "http")
    then codes "80"
    else if eq_text (to_lower u.scheme) (codes "https")
    then codes "443"
    else []

abbrev same_parts : Url → Url → Bool
same_parts l r =
    equal_fold l.scheme r.scheme
    && (equal_fold l.hostname r.hostname && eq_text (effective_port l) (effective_port r))

unfoldable pub same_origin : Option Url → Option Url → Bool
same_origin none right = false
same_origin (some l) none = false
same_origin (some l) (some r) = same_parts l r

unfoldable pub strip_blocked_request_headers : Header → Header
strip_blocked_request_headers [] = []
strip_blocked_request_headers ((name, vs) ∷ h) =
    let rest = strip_blocked_request_headers h in
    if blocked_request_header (canonical name) then rest else (name, vs) ∷ rest

unfoldable pub strip_authorization_header : Header → Header
strip_authorization_header [] = []
strip_authorization_header ((name, vs) ∷ h) =
    let rest = strip_authorization_header h in
    if eq_text (canonical name) authorization then rest else (name, vs) ∷ rest

abbrev pub has_userinfo : Option Url → Bool
has_userinfo none = false
has_userinfo (some u) = is_some u.user

abbrev without_userinfo : Option Url → Option Url
without_userinfo none = none
without_userinfo (some u) = some (record u { user = none })

-- via[len(via)-1].URL; `none` as the outer option: via is empty.
unfoldable pub last_url : List (Option Url) → Option (Option Url)
last_url [] = none
last_url (u ∷ []) = some u
last_url (u ∷ v ∷ via) = last_url (v ∷ via)

abbrev pub comes_from_elsewhere : Option (Option Url) → Option Url → Bool
comes_from_elsewhere none url = true
comes_from_elsewhere (some previous) url = not (same_origin previous url)

unfoldable pub sanitize_redirect_request : Request → List (Option Url) → Request
sanitize_redirect_request request via =
    let url = if has_userinfo request.url then without_userinfo request.url else request.url in
    let header = strip_blocked_request_headers request.header in
    record {
      url = url;
      header =
          if has_userinfo request.url || comes_from_elsewhere (last_url via) url
          then strip_authorization_header header
          else header;
    }

-- What a hook returns: an error, and the request as it leaves it.
pub data Verdict : Type 0 where
  refused : Text → Verdict
  accepted : Request → Verdict

abbrev pub Hook : Type 0
Hook = Request → List (Option Url) → Verdict

-- A caller's hook cannot weaken the policy: the request is cleaned again behind it.
abbrev after_hook : List (Option Url) → Verdict → Verdict
after_hook via (refused e) = refused e
after_hook via (accepted request) = accepted (sanitize_redirect_request request via)

abbrev default_check : List (Option Url) → Request → Verdict
default_check via request =
    if leb 10 (length via) then refused (codes "stopped after 10 redirects") else accepted request

-- secured.CheckRedirect
unfoldable pub check_redirect : Option Hook → Request → List (Option Url) → Verdict
check_redirect none request via = default_check via (sanitize_redirect_request request via)
check_redirect (some hook) request via =
    after_hook via (hook (sanitize_redirect_request request via) via)
